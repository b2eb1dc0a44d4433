-- ===== src/Snapshot.antt =====
-- backend/engines/strategy/strategies/bid_ask_imbalance/snapshot.py: the view of the basket that the
-- strategy decides on. A leg of the option chain is JSON, so each of its fields may be any value.
pub mod Pinning
use pcr_momentum.Base.{
  ℕ, zero, suc, String, str_eq, Bool, true, false, ◌&&◌, Option, none, some, List, [], ◌∷◌, ◌++◌,
  any, map, take, drop, length, truthy, if◌then◌else◌, ◌-◌,
}
use pcr_momentum.Base.Int.{ℤ, pos, eqb_ℤ}
use pcr_momentum.Float.{Float, ◌≤f◌}

pub data Side : Type 0 where
  ce pe : Side

-- One side of one strike.
pub record StrikeLeg (F : Type 0) : Type 0 where
  pub token : String
  pub strike : ℤ
  pub side : Side
  pub ltp : Option F
  pub best_bid : Option F
  pub best_ask : Option F
  pub best_bid_qty : Option ℤ
  pub best_ask_qty : Option ℤ
  pub bid_qtys : List (Option ℤ)
  pub ask_qtys : List (Option ℤ)
  pub total_bid_qty : Option ℤ
  pub total_ask_qty : Option ℤ
  pub vol : Option ℤ
  pub oi : Option ℤ
  pub ts : ℤ

pub record Snapshot (F : Type 0) : Type 0 where
  pub instrument_id : String
  pub atm : ℤ
  pub spot : Option F
  pub spot_ts : ℤ
  pub ce_legs : List (StrikeLeg F)
  pub pe_legs : List (StrikeLeg F)
  pub snapshot_ts : ℤ

abbrev pub all_legs : {F : Type 0} → Snapshot F → List (StrikeLeg F)
all_legs s = s.ce_legs ++ s.pe_legs

-- A JSON value where a number or a text is expected; Python counts a Boolean as a number. `other` is
-- a list or an object, which `float` refuses with a TypeError.
pub data Raw (F : Type 0) : Type 0 where
  null : Raw F
  num : F → Raw F
  text : String → Raw F
  other : Raw F

-- A leaf of the option chain; a missing key reads as `null`, a list of quantities that is missing
-- or empty as [].
pub record Leaf (F : Type 0) : Type 0 where
  pub token : String
  pub ltp : Raw F
  pub bid : Raw F
  pub ask : Raw F
  pub bid_qty : Raw F
  pub ask_qty : Raw F
  pub bid_qtys : List (Raw F)
  pub ask_qtys : List (Raw F)
  pub total_bid_qty : Raw F
  pub total_ask_qty : Raw F
  pub vol : Raw F
  pub oi : Raw F
  pub ts : Raw F

-- `n or 0`.
abbrev pub or_zero : Option ℤ → ℤ
or_zero none = pos 0
or_zero (some n) = n

abbrev pub nones : ℕ → List (Option ℤ)
nones zero = []
nones (suc n) = none ∷ nones n

module _ {F : Type 0} ⦃fl : Float F⦄ where
  -- A text: `float(v)` reads it, and "" has no value.
  abbrev read_text : String → Option F
  read_text s = if truthy s then fl.parse s else none

  -- `float(v)`, and `none` where it raises TypeError or ValueError.
  read_number : Raw F → Option F
  read_number null = none
  read_number (num x) = some x
  read_number (text s) = read_text s
  read_number other = none

  abbrev truncated : Option F → Option ℤ
  truncated none = none
  truncated (some x) = fl.trunc x

  -- Of finite numbers: the OverflowError of an infinite one is left out.
  unfoldable pub coerce_int : Raw F → Option ℤ
  unfolding read_number
  coerce_int v = truncated (read_number v)

  -- The guard `f == f` drops not-a-number.
  abbrev numeric : Option F → Option F
  numeric none = none
  numeric (some x) = if x ≤f x then some x else none

  unfoldable pub coerce_float : Raw F → Option F
  unfolding read_number
  coerce_float v = numeric (read_number v)

  -- Five levels of depth: cut when there are more, filled up with None when there are fewer. None at
  -- all stands for a list of Nones, which is what the filling gives.
  unfoldable pub levels : List (Raw F) → List (Option ℤ)
  unfolding coerce_int
  levels raw = let qtys = take 5 (map coerce_int raw) in qtys ++ nones (5 - length qtys)

  unfoldable pub build_leg : String → ℤ → Side → Option (Leaf F) → StrikeLeg F
  unfolding coerce_int coerce_float levels
  build_leg token strike side none = record {
    token = token;
    strike = strike;
    side = side;
    ltp = none;
    best_bid = none;
    best_ask = none;
    best_bid_qty = none;
    best_ask_qty = none;
    bid_qtys = nones 5;
    ask_qtys = nones 5;
    total_bid_qty = none;
    total_ask_qty = none;
    vol = none;
    oi = none;
    ts = pos 0;
  }
  build_leg token strike side (some leaf) = record {
    token = if truthy leaf.token then leaf.token else token;
    strike = strike;
    side = side;
    ltp = coerce_float leaf.ltp;
    best_bid = coerce_float leaf.bid;
    best_ask = coerce_float leaf.ask;
    best_bid_qty = coerce_int leaf.bid_qty;
    best_ask_qty = coerce_int leaf.ask_qty;
    bid_qtys = levels leaf.bid_qtys;
    ask_qtys = levels leaf.ask_qtys;
    total_bid_qty = coerce_int leaf.total_bid_qty;
    total_ask_qty = coerce_int leaf.total_ask_qty;
    vol = coerce_int leaf.vol;
    oi = coerce_int leaf.oi;
    ts = or_zero (coerce_int leaf.ts);
  }

-- The two sides of one strike; a side that is no JSON object is missing.
pub record Sides (F : Type 0) : Type 0 where
  pub strike : ℤ
  pub ce_leaf : Option (Leaf F)
  pub pe_leaf : Option (Leaf F)

abbrev pub Chain : Type 0 → Type 0
Chain F = List (Sides F)

module _ {F : Type 0} where
  abbrev pub side_leaf : Side → Sides F → Option (Leaf F)
  side_leaf ce s = s.ce_leaf
  side_leaf pe s = s.pe_leaf

  -- `(option_chain.get(str(strike)) or {}).get(side)`
  unfoldable pub chain_leaf : Chain F → ℤ → Side → Option (Leaf F)
  chain_leaf [] k d = none
  chain_leaf (s ∷ c) k d = if eqb_ℤ s.strike k then side_leaf d s else chain_leaf c k d

-- The held leg that the caller wants in the snapshot.
pub record Pinned : Type 0 where
  pub token : Option String
  pub side : Option Side
  pub strike : Option ℤ

module _ {F : Type 0} ⦃fl : Float F⦄ where
  unfoldable pub basket_legs : Chain F → Side → List (ℤ × String) → List (StrikeLeg F)
  basket_legs chain side [] = []
  basket_legs chain side ((strike, token) ∷ pairs) =
      build_leg token strike side (chain_leaf chain strike side) ∷ basket_legs chain side pairs

  abbrev pub has_token : String → List (StrikeLeg F) → Bool
  has_token token legs = any (λ leg. str_eq leg.token token) legs

  -- The legs of one side with the pinned leg at the end, unless a leg has its token.
  unfoldable pub pin : Chain F → Side → String → ℤ → List (StrikeLeg F) → List (StrikeLeg F)
  pin chain side token strike legs =
      if has_token token legs
      then legs
      else legs ++ build_leg token strike side (chain_leaf chain strike side) ∷ []

  abbrev pin_side :
      Chain F
      → Side
      → String
      → ℤ
      → List (StrikeLeg F) × List (StrikeLeg F)
      → List (StrikeLeg F) × List (StrikeLeg F)
  pin_side chain ce token strike (ces, pes) = (pin chain ce token strike ces, pes)
  pin_side chain pe token strike (ces, pes) = (ces, pin chain pe token strike pes)

  abbrev pin_held :
      Chain F
      → Option String
      → Option Side
      → Option ℤ
      → List (StrikeLeg F) × List (StrikeLeg F)
      → List (StrikeLeg F) × List (StrikeLeg F)
  pin_held chain (some token) (some side) (some strike) legs =
      if truthy token then pin_side chain side token strike legs else legs
  pin_held chain _ _ _ legs = legs

  unfoldable pub build_snapshot :
      String
      → ℤ
      → List (ℤ × String)
      → List (ℤ × String)
      → Chain F
      → Raw F
      → Raw F
      → ℤ
      → Pinned
      → Snapshot F
  unfolding coerce_int coerce_float
  build_snapshot instrument_id atm basket_ce basket_pe chain spot_ltp spot_ts ts pinned =
      let held =
        pin_held chain pinned.token pinned.side pinned.strike
          (basket_legs chain ce basket_ce, basket_legs chain pe basket_pe) in
      record {
        instrument_id = instrument_id;
        atm = atm;
        spot = coerce_float spot_ltp;
        spot_ts = or_zero (coerce_int spot_ts);
        ce_legs = held.0;
        pe_legs = held.1;
        snapshot_ts = ts;
      }
