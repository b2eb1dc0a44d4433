-- ===== src/Feed/Chain/Leaves.antt =====
-- aggregator.py writes what snapshot.py reads: the leg that a vessel sees after a tick, and the rest of
-- the chain.
use pcr_momentum.Base.{
  ◌≡◌, refl, inl, inr, String, Bool, true, false, Option, none, some, List, [], ◌∷◌, any, map,
  is_some, if◌then◌else◌, arith, Bool-cases, length, ap, take, ◌++◌, ◌-◌,
}
use pcr_momentum.Base.Int.{ℤ, pos, eqb_ℤ}
use pcr_momentum.Float.{Float, IsNum, nought}
use pcr_momentum.Snapshot.{
  Side, ce, pe, Raw, Leaf, Sides, StrikeLeg, side_leaf, nones, chain_leaf, build_leg, coerce_float,
  coerce_int, levels,
}
use pcr_momentum.Snapshot as Snapshot
use pcr_momentum.Json.{
  Json, null, boolean, num, text, arr, obj, nil, item, Fields, find, elements, or_null,
}
use pcr_momentum.Feed.{ParsedTick}
use pcr_momentum.Feed.Ticks.{HasFive}
use pcr_momentum.Feed.Chain.{FeedChain, found_or, float_or, int_or, ints_or, int_items, merged_leaf}

-- A value of the tick wins, an old one stays where the tick has none.
abbrev pub Merged : {A : Type 0} → Option A → Option A → Option A → Type 0
Merged (some x) _ after = after ≡ some x
Merged none (some y) after = after ≡ some y
Merged none none after = Unit

abbrev pub MergedLevels :
    {A : Type 0} → List (Option A) → List (Option A) → List (Option A) → Type 0
MergedLevels news before after = after ≡ (if any is_some news then news else before)

Merged-same : {A : Type 0} (o : Option A) → Merged none o o
Merged-same none = tt
Merged-same (some y) = refl

cons_eq : {A : Type 0} {a b : A} {xs ys : List A} → a ≡ b → xs ≡ ys → a ∷ xs ≡ b ∷ ys
cons_eq p q = cc

five_padded :
    (ns : List (Option ℤ)) → length ns ≡ 5 → take 5 ns ++ nones (5 - length (take 5 ns)) ≡ ns
five_padded (a ∷ b ∷ c ∷ d ∷ e ∷ []) h = refl
five_padded ns h = absurd (omega arith)

module _ (F : Type 0) ⦃fl : Float F⦄ where
  abbrev pub KeptInt : Option ℤ → Type 0
  KeptInt none = Unit
  KeptInt (some n) = fl.trunc (fl.of_int n) ≡ some n

  abbrev pub KeptInts : List (Option ℤ) → Type 0
  KeptInts [] = Unit
  KeptInts (n ∷ ns) = KeptInt n × KeptInts ns

module _ {F : Type 0} ⦃fl : Float F⦄ where
  -- The chain as snapshot.py reads it.
  abbrev pub raw : Json F → Raw F
  raw null = Raw.null
  raw (boolean b) = Raw.num (fl.of_int (if b then pos 1 else pos 0))
  raw (num x) = Raw.num x
  raw (text s) = Raw.text s
  raw (arr _) = Raw.other
  raw (obj _) = Raw.other

  abbrev pub text_of : Json F → String
  text_of (text s) = s
  text_of _ = ""

  abbrev pub raws : Json F → List (Raw F)
  raws (arr vs) = map raw (elements vs)
  raws _ = []

  abbrev pub as_leaf : Fields F → Leaf F
  as_leaf leaf =
      let at = λ (k : String). or_null (find k leaf) in
      record {
        token = text_of (at "token");
        ltp = raw (at "ltp");
        bid = raw (at "bid");
        ask = raw (at "ask");
        bid_qty = raw (at "bid_qty");
        ask_qty = raw (at "ask_qty");
        bid_qtys = raws (at "bid_qtys");
        ask_qtys = raws (at "ask_qtys");
        total_bid_qty = raw (at "total_bid_qty");
        total_ask_qty = raw (at "total_ask_qty");
        vol = raw (at "vol");
        oi = raw (at "oi");
        ts = raw (at "ts");
      }

  abbrev pub opt_leaf : Option (Fields F) → Option (Leaf F)
  opt_leaf none = none
  opt_leaf (some leaf) = some (as_leaf leaf)

  abbrev pub as_chain : FeedChain F → List (Sides F)
  as_chain [] = []
  as_chain (s ∷ chain) =
      record { strike = s.strike; ce_leaf = opt_leaf s.ce_leaf; pe_leaf = opt_leaf s.pe_leaf }
      ∷ as_chain chain

  -- The leg that a vessel sees.
  abbrev pub leg_at : FeedChain F → String → ℤ → Side → StrikeLeg F
  leg_at chain token strike side =
      build_leg token strike side (chain_leaf (as_chain chain) strike side)

  abbrev pub has_strike : ℤ → FeedChain F → Bool
  has_strike k [] = false
  has_strike k (s ∷ chain) = if eqb_ℤ s.strike k then true else has_strike k chain

  -- Numbers that the conversions of JSON and back keep.
  abbrev pub KeptFloat : Option F → Type 0
  KeptFloat none = Unit
  KeptFloat (some x) = IsNum x

  float_found :
      (o : Option (Json F))
      → Merged none (coerce_float (raw (or_null o))) (coerce_float (raw (found_or o (num nought))))
  unfolding coerce_float
  float_found none = tt
  float_found (some v) = Merged-same (coerce_float (raw v))

  coerce_float-Merged :
      (x : Option F) (k : String) (old : Fields F)
      → KeptFloat x
      → Merged x (coerce_float (raw (or_null (find k old)))) (coerce_float (raw (float_or x k old)))
  unfolding coerce_float
  coerce_float-Merged (some x) k old h = rw h refl
  coerce_float-Merged none k old h = float_found (find k old)

  int_found :
      (o : Option (Json F))
      → Merged none (coerce_int (raw (or_null o))) (coerce_int (raw (found_or o (num nought))))
  unfolding coerce_int
  int_found none = tt
  int_found (some v) = Merged-same (coerce_int (raw v))

  coerce_int-Merged :
      (n : Option ℤ) (k : String) (old : Fields F)
      → KeptInt F n
      → Merged n (coerce_int (raw (or_null (find k old)))) (coerce_int (raw (int_or n k old)))
  unfolding coerce_int
  coerce_int-Merged (some n) k old h = h
  coerce_int-Merged none k old h = int_found (find k old)

module _ (F : Type 0) ⦃fl : Float F⦄ where
  read-int_items :
      (ns : List (Option ℤ))
      → KeptInts F ns
      → map coerce_int (map raw (elements (int_items {F = F} ns))) ≡ ns
  unfolding coerce_int
  read-int_items [] h = refl
  read-int_items (none ∷ ns) h = ap (◌∷◌ none) (read-int_items ns h.1)
  read-int_items (some n ∷ ns) h = cons_eq h.0 (read-int_items ns h.1)

  levels_read :
      (ns : List (Option ℤ))
      → length ns ≡ 5
      → KeptInts F ns
      → levels (map raw (elements (int_items {F = F} ns))) ≡ ns
  unfolding levels
  levels_read ns n h = rw (read-int_items ns h) (five_padded ns n)

module _ {F : Type 0} ⦃fl : Float F⦄ where
  levels_found :
      (o : Option (Json F))
      → levels
          (raws (found_or o (arr (item null (item null (item null (item null (item null nil))))))))
        ≡ levels (raws (or_null o))
  unfolding levels coerce_int
  levels_found none = refl
  levels_found (some v) = refl

  levels-Merged :
      (ns : List (Option ℤ)) (k : String) (old : Fields F)
      → length ns ≡ 5
      → KeptInts F ns
      → MergedLevels ns (levels (raws (or_null (find k old)))) (levels (raws (ints_or ns k old)))
  levels-Merged ns k old n h = elim (Bool-cases (any is_some ns)) [
    | inl e ↦ rw e (levels_read F ns n h)
    | inr e ↦ rw e (levels_found (find k old))
  ]

  -- The floats and integers of a tick are numbers, and as they are after a trip through JSON.
  pub record IsReadable (t : ParsedTick F) : Type 0 where
    pub ltp : KeptFloat t.ltp
    pub bid : KeptFloat t.bid
    pub ask : KeptFloat t.ask
    pub bid_qty : KeptInt F t.bid_qty
    pub ask_qty : KeptInt F t.ask_qty
    pub bid_qtys : KeptInts F t.bid_qtys
    pub ask_qtys : KeptInts F t.ask_qtys
    pub total_bid_qty : KeptInt F t.total_bid_qty
    pub total_ask_qty : KeptInt F t.total_ask_qty
    pub vol : KeptInt F t.vol
    pub oi : KeptInt F t.oi
    pub ts : fl.trunc (fl.of_int t.ts) ≡ some t.ts

  -- A leg after a tick: what the tick brought, and where it brought nothing the leg before.
  pub record Shows (t : ParsedTick F) (before after : StrikeLeg F) : Type 0 where
    pub ltp : Merged t.ltp before.ltp after.ltp
    pub bid : Merged t.bid before.best_bid after.best_bid
    pub ask : Merged t.ask before.best_ask after.best_ask
    pub bid_qty : Merged t.bid_qty before.best_bid_qty after.best_bid_qty
    pub ask_qty : Merged t.ask_qty before.best_ask_qty after.best_ask_qty
    pub bid_qtys : MergedLevels t.bid_qtys before.bid_qtys after.bid_qtys
    pub ask_qtys : MergedLevels t.ask_qtys before.ask_qtys after.ask_qtys
    pub total_bid_qty : Merged t.total_bid_qty before.total_bid_qty after.total_bid_qty
    pub total_ask_qty : Merged t.total_ask_qty before.total_ask_qty after.total_ask_qty
    pub vol : Merged t.vol before.vol after.vol
    pub oi : Merged t.oi before.oi after.oi
    pub ts : after.ts ≡ t.ts

  pub merged_leaf-Shows :
      (old : Fields F) (t : ParsedTick F) (token : String) (strike : ℤ) (side : Side)
      → HasFive t
      → IsReadable t
      → Shows t
          (build_leg token strike side (some (as_leaf old)))
          (build_leg token strike side (some (as_leaf (merged_leaf old t))))
  unfolding merged_leaf build_leg find
  merged_leaf-Shows old t token strike side five r = record {
    ltp = coerce_float-Merged t.ltp "ltp" old r.ltp;
    bid = coerce_float-Merged t.bid "bid" old r.bid;
    ask = coerce_float-Merged t.ask "ask" old r.ask;
    bid_qty = coerce_int-Merged t.bid_qty "bid_qty" old r.bid_qty;
    ask_qty = coerce_int-Merged t.ask_qty "ask_qty" old r.ask_qty;
    bid_qtys = levels-Merged t.bid_qtys "bid_qtys" old five.bid_qtys r.bid_qtys;
    ask_qtys = levels-Merged t.ask_qtys "ask_qtys" old five.ask_qtys r.ask_qtys;
    total_bid_qty = coerce_int-Merged t.total_bid_qty "total_bid_qty" old r.total_bid_qty;
    total_ask_qty = coerce_int-Merged t.total_ask_qty "total_ask_qty" old r.total_ask_qty;
    vol = coerce_int-Merged t.vol "vol" old r.vol;
    oi = coerce_int-Merged t.oi "oi" old r.oi;
    ts = ap Snapshot.or_zero r.ts;
  }
