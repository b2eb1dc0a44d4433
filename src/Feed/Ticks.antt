-- ===== src/Feed/Ticks.antt =====
-- parser.py, the whole frame: every payload of the expected shape becomes a tick, with five levels.
use pcr_momentum.Base.{
  ◌≡◌, refl, String, true, false, Option, none, some, List, [], ◌∷◌, length, take, if◌then◌else◌,
  Bool-cases, inl, inr, all,
}
use pcr_momentum.Base.Int.{ℤ}
use pcr_momentum.Float.{Float}
use pcr_momentum.Json.{
  value, Json, null, boolean, num, text, arr, obj, Fields, end, field, find, is_object, elements,
  entries, is_infinite, or_null,
}
use pcr_momentum.Feed.Shape.{
  find-Fits, fits, and_parts, FoundFits, Returns, Returns-mono, >>=-Returns, Any, is_shaped,
  have_shape, IsShaped, IsObject, IsList, get_key-IsShaped, get_object-IsObject, either-Returns,
}
use pcr_momentum.Feed.Decoding.{
  length-pad, read_int-Any, read_ltpc-IsObject, read_market_ff-IsObject, read_quotes-IsList,
  read_either-Any, extract_levels-Any, take-AllShaped, weaken,
}
use pcr_momentum.Feed.{
  ParsedTick, top, Depth, extract_depth, read_vol, read_ts, extract_one, extract_feeds, feeds_of,
  parse_tick, has_bar,
}

-- A list of levels has all five, and its first is the top of the book.
pub record HasFive {F : Type 0} (t : ParsedTick F) : Type 0 where
  pub bid_prices : length t.bid_prices ≡ 5
  pub ask_prices : length t.ask_prices ≡ 5
  pub bid_qtys : length t.bid_qtys ≡ 5
  pub ask_qtys : length t.ask_qtys ≡ 5
  pub bid : t.bid ≡ top t.bid_prices
  pub ask : t.ask ≡ top t.ask_prices
  pub bid_qty : t.bid_qty ≡ top t.bid_qtys
  pub ask_qty : t.ask_qty ≡ top t.ask_qtys

abbrev pub AllFive : {F : Type 0} → List (ParsedTick F) → Type 0
AllFive [] = Unit
AllFive (t ∷ ts) = HasFive t × AllFive ts

module _ {F : Type 0} ⦃fl : Float F⦄ where
  abbrev IsFull : Depth F × Option ℤ × Option ℤ → Type 0
  IsFull r =
      (length r.0.bid_prices ≡ 5)
      × (length r.0.ask_prices ≡ 5)
      × (length r.0.bid_qtys ≡ 5)
      × (length r.0.ask_qtys ≡ 5)

  extract_depth-IsFull : (quotes : Json F) → IsList quotes → Returns IsFull (extract_depth quotes)
  unfolding extract_depth is_shaped
  extract_depth-IsFull (arr vs) h =
      >>=-Returns Any IsFull _ _
        (extract_levels-Any (take 5 (elements vs)) (take-AllShaped 5 vs h.1))
        λ d _. (
          length-pad d.bid_prices 5,
          length-pad d.ask_prices 5,
          length-pad d.bid_qtys 5,
          length-pad d.ask_qtys 5,
        )
  extract_depth-IsFull null h = cc
  extract_depth-IsFull (boolean _) h = cc
  extract_depth-IsFull (num _) h = cc
  extract_depth-IsFull (text _) h = cc
  extract_depth-IsFull (obj _) h = cc

  read_vol-Any : (m v : Json F) → IsObject m → IsObject v → Returns Any (read_vol m v)
  unfolding read_vol
  read_vol-Any m v hm h =
      >>=-Returns IsObject Any _ _ (get_object-IsObject "marketOHLC" m refl hm) λ ohlc ho.
        >>=-Returns IsShaped Any _ _
          (either-Returns _ _ (get_key-IsShaped "vtt" m hm) (
            either-Returns _ _ (get_key-IsShaped "vol" ohlc ho)
              (either-Returns _ _ (get_key-IsShaped "vol" v h) (get_key-IsShaped "vtt" v h))))
          read_int-Any

  read_ts-Any :
      (ltpc m : Json F) (now : ℤ)
      → is_infinite (fl.of_int now) ≡ false
      → IsObject ltpc
      → IsObject m
      → Returns Any (read_ts ltpc m now)
  unfolding read_ts is_shaped
  read_ts-Any ltpc m now clock hl hm =
      >>=-Returns IsShaped Any _ _
        (either-Returns _ _ (get_key-IsShaped "ltt" ltpc hl) (
          either-Returns _ (value (num (fl.of_int now))) (get_key-IsShaped "tsInMillis" m hm)
            (rw clock refl)))
        λ ltt hn. >>=-Returns Any Any _ _ (read_int-Any ltt hn) λ _ _. tt

  abbrev IsTickOf : String → ParsedTick F → Type 0
  IsTickOf token t = (t.token ≡ token) × HasFive t

  extract_one-IsTickOf :
      (token : String) (payload : Json F) (now : ℤ)
      → is_infinite (fl.of_int now) ≡ false
      → IsObject payload
      → Returns (IsTickOf token) (extract_one token payload now)
  unfolding extract_one
  extract_one-IsTickOf token v now clock h =
      let P = IsTickOf token in
      >>=-Returns IsObject P _ _ (read_ltpc-IsObject v h) λ ltpc hl.
        >>=-Returns IsObject P _ _ (read_market_ff-IsObject v h) λ m hm.
          >>=-Returns IsList P _ _ (read_quotes-IsList m v hm h) λ quotes hq.
            >>=-Returns IsFull P _ _ (extract_depth-IsFull quotes hq) λ depth full.
              >>=-Returns Any P _ _ (read_vol-Any m v hm h) λ vol _.
                >>=-Returns Any P _ _ (read_either-Any "oi" m v hm h) λ oi _.
                  >>=-Returns Any P _ _ (read_either-Any "tbq" m v hm h) λ tbq _.
                    >>=-Returns Any P _ _ (read_either-Any "tsq" m v hm h) λ tsq _.
                      >>=-Returns Any P _ _ (read_ts-Any ltpc m now clock hl hm) λ ts _.
                        >>=-Returns Any P _ _
                          (weaken _ (
                            either-Returns _ _ (get_key-IsShaped "ltp" ltpc hl)
                              (get_key-IsShaped "LTP" ltpc hl)))
                          λ ltp _. (
                            refl,
                            record {
                              bid_prices = full.0;
                              ask_prices = full.1;
                              bid_qtys = full.2;
                              ask_qtys = full.3;
                              bid = refl;
                              ask = refl;
                              bid_qty = refl;
                              ask_qty = refl;
                            },
                          )

cong_cons : {A : Type 0} {a b : A} {xs ys : List A} → a ≡ b → xs ≡ ys → a ∷ xs ≡ b ∷ ys
cong_cons p q = cc

abbrev pub keys_of_objects : {F : Type 0} → List (String × Json F) → List String
keys_of_objects [] = []
keys_of_objects ((token, payload) ∷ feeds) =
    let rest = keys_of_objects feeds in if is_object payload then token ∷ rest else rest

abbrev pub tokens_of : {F : Type 0} → List (ParsedTick F) → List String
tokens_of [] = []
tokens_of (t ∷ ts) = t.token ∷ tokens_of ts

module _ {F : Type 0} ⦃fl : Float F⦄ where
  abbrev pub AreTicksOf : List (String × Json F) → List (ParsedTick F) → Type 0
  AreTicksOf feeds ts = (tokens_of ts ≡ keys_of_objects feeds) × AllFive ts

  abbrev AllShapedEntries : List (String × Json F) → Type 0
  AllShapedEntries [] = Unit
  AllShapedEntries ((token, v) ∷ feeds) = (is_shaped v ≡ true) × AllShapedEntries feeds

  extract_feeds-AreTicksOf :
      (now : ℤ) (feeds : List (String × Json F))
      → is_infinite (fl.of_int now) ≡ false
      → AllShapedEntries feeds
      → Returns (AreTicksOf feeds) (extract_feeds now feeds)
  unfolding extract_feeds
  extract_feeds-AreTicksOf now [] clock h = (refl, tt)
  extract_feeds-AreTicksOf now ((token, v) ∷ feeds) clock h =
      let ih = extract_feeds-AreTicksOf now feeds clock h.1 in
      elim (Bool-cases (is_object v)) [
        | inl o ↦ rw o (
            >>=-Returns (IsTickOf token) _ _ _ (extract_one-IsTickOf token v now clock (o, h.0))
              λ t ht.
                >>=-Returns (AreTicksOf feeds) _ _ _ ih
                  λ ts hts. (rw o (cong_cons ht.0 hts.0), (ht.1, hts.1)))
        | inr o ↦ rw o (
            Returns-mono (AreTicksOf feeds) _ (extract_feeds now feeds) ih
              (λ ts hts. (rw o hts.0, hts.1)))
      ]

  entries-Shaped : (fs : Fields F) → have_shape fs ≡ true → AllShapedEntries (entries fs)
  unfolding have_shape
  entries-Shaped end h = tt
  entries-Shaped (field k v fs) h =
      let p = and_parts (fits k v) (is_shaped v) (have_shape fs) h in (p.1, entries-Shaped fs p.2)

  -- The feeds that parse_tick reads: those under "feeds", or, without them, the frame's own entries if
  -- all its keys are tokens.
  abbrev pub feeds_in : Json F → List (String × Json F)
  feeds_in (obj frame) = feeds_of frame (or_null (find "feeds" frame))
  feeds_in _ = []

  own-Shaped :
      (fs : Fields F)
      → have_shape fs ≡ true
      → AllShapedEntries (if all (λ e. has_bar e.0) (entries fs) then entries fs else [])
  own-Shaped fs h = elim (Bool-cases (all (λ e. has_bar e.0) (entries fs))) [
    | inl e ↦ rw e (entries-Shaped fs h)
    | inr e ↦ rw e tt
  ]

  found-Shaped :
      (fs : Fields F) (o : Option (Json F))
      → have_shape fs ≡ true
      → FoundFits "feeds" o
      → AllShapedEntries (feeds_of fs (or_null o))
  unfolding is_shaped
  found-Shaped fs (some (obj feeds)) h f = entries-Shaped feeds f.1
  found-Shaped fs none h f = own-Shaped fs h
  found-Shaped fs (some null) h f = own-Shaped fs h
  found-Shaped fs (some (boolean _)) h f = own-Shaped fs h
  found-Shaped fs (some (num _)) h f = own-Shaped fs h
  found-Shaped fs (some (text _)) h f = own-Shaped fs h
  found-Shaped fs (some (arr _)) h f = own-Shaped fs h

  -- A frame of the expected shape, read at a time that is no infinity, is decoded without an error:
  -- each object among its feeds becomes one tick, in their order and under its token, with exactly five
  -- levels in each of its four lists, whose first is the tick's best price or quantity.
  pub parse_tick-AreTicks :
      (now : ℤ) (frame : Json F)
      → is_infinite (fl.of_int now) ≡ false
      → is_shaped frame ≡ true
      → Returns (AreTicksOf (feeds_in frame)) (parse_tick now frame)
  unfolding parse_tick is_shaped
  parse_tick-AreTicks now (obj fs) clock h =
      extract_feeds-AreTicksOf now _ clock
        (found-Shaped fs (find "feeds" fs) h (find-Fits "feeds" fs h))
  parse_tick-AreTicks now null clock h = (refl, tt)
  parse_tick-AreTicks now (boolean _) clock h = (refl, tt)
  parse_tick-AreTicks now (num _) clock h = (refl, tt)
  parse_tick-AreTicks now (text _) clock h = (refl, tt)
  parse_tick-AreTicks now (arr _) clock h = (refl, tt)
