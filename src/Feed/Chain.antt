-- ===== src/Feed/Chain.antt =====
-- backend/engines/data_pipeline/aggregator.py: a tick is merged into the option chain in memory, or
-- into the spot of its index.
pub mod Leaves
pub mod Merging
use pcr_momentum.Base.{
  String, Bool, true, false, Option, none, some, List, [], ◌∷◌, any, is_some, if◌then◌else◌,
}
use pcr_momentum.Base.Int.{ℤ, pos, eqb_ℤ}
use pcr_momentum.Float.{Float, ◌-f◌, ◌*f◌, ◌/f◌, nought}
use pcr_momentum.Snapshot.{Side, ce, pe}
use pcr_momentum.Json.{
  Json, null, num, text, arr, Items, nil, item, Fields, end, field, find, truth, or_null, is_nought,
}
use pcr_momentum.Feed.{ParsedTick}

-- One strike of the chain. A side is an object, or missing or null, which reads alike.
pub record Strike (F : Type 0) : Type 0 where
  pub strike : ℤ
  pub ce_leaf : Option (Fields F)
  pub pe_leaf : Option (Fields F)

-- A chain by strikes; `str` of a strike is its key.
abbrev pub FeedChain : Type 0 → Type 0
FeedChain F = List (Strike F)

pub record Spot (F : Type 0) : Type 0 where
  pub ltp : F
  pub prev_close : F
  pub change_inr : F
  pub change_pct : F
  pub ts : ℤ

module _ {F : Type 0} where
  abbrev pub or_end : Option (Fields F) → Fields F
  or_end none = end
  or_end (some leaf) = leaf

  -- `chain[key].get(side) or {}`
  abbrev pub existing_leaf : Side → Strike F → Fields F
  existing_leaf ce s = or_end s.ce_leaf
  existing_leaf pe s = or_end s.pe_leaf

  abbrev pub set_leaf : Side → Fields F → Strike F → Strike F
  set_leaf ce leaf s = record s { ce_leaf = some leaf }
  set_leaf pe leaf s = record s { pe_leaf = some leaf }

  -- `existing.get(k, default)`
  abbrev pub found_or : Option (Json F) → Json F → Json F
  found_or none default = default
  found_or (some v) default = v

module _ {F : Type 0} ⦃fl : Float F⦄ where
  -- A value of the tick, or else what the leaf has.
  abbrev pub float_or : Option F → String → Fields F → Json F
  float_or none k existing = found_or (find k existing) (num nought)
  float_or (some x) k existing = num x

  abbrev pub int_or : Option ℤ → String → Fields F → Json F
  int_or none k existing = found_or (find k existing) (num nought)
  int_or (some n) k existing = num (fl.of_int n)

  abbrev pub float_items : List (Option F) → Items F
  float_items [] = nil
  float_items (none ∷ xs) = item null (float_items xs)
  float_items (some x ∷ xs) = item (num x) (float_items xs)

  abbrev pub int_items : List (Option ℤ) → Items F
  int_items [] = nil
  int_items (none ∷ ns) = item null (int_items ns)
  int_items (some n ∷ ns) = item (num (fl.of_int n)) (int_items ns)

  abbrev five_nulls : Json F
  five_nulls = arr (item null (item null (item null (item null (item null nil)))))

  -- The levels of the tick if one of them has a value.
  abbrev pub floats_or : List (Option F) → String → Fields F → Json F
  floats_or xs k existing =
      if any is_some xs then arr (float_items xs) else found_or (find k existing) five_nulls

  abbrev pub ints_or : List (Option ℤ) → String → Fields F → Json F
  ints_or ns k existing =
      if any is_some ns then arr (int_items ns) else found_or (find k existing) five_nulls

  abbrev pub token_or : Json F → String → Json F
  token_or v token = if truth v then v else text token

  unfoldable pub merged_leaf : Fields F → ParsedTick F → Fields F
  merged_leaf old tick = field "token" (token_or (or_null (find "token" old)) tick.token) (
      field "ltp" (float_or tick.ltp "ltp" old) (
        field "bid" (float_or tick.bid "bid" old) (
          field "ask" (float_or tick.ask "ask" old) (
            field "bid_qty" (int_or tick.bid_qty "bid_qty" old) (
              field "ask_qty" (int_or tick.ask_qty "ask_qty" old) (
                field "bid_prices" (floats_or tick.bid_prices "bid_prices" old) (
                  field "ask_prices" (floats_or tick.ask_prices "ask_prices" old) (
                    field "bid_qtys" (ints_or tick.bid_qtys "bid_qtys" old) (
                      field "ask_qtys" (ints_or tick.ask_qtys "ask_qtys" old) (
                        field "total_bid_qty" (int_or tick.total_bid_qty "total_bid_qty" old) (
                          field "total_ask_qty" (int_or tick.total_ask_qty "total_ask_qty" old) (
                            field "vol" (int_or tick.vol "vol" old) (
                              field "oi" (int_or tick.oi "oi" old)
                                (field "ts" (num (fl.of_int tick.ts)) end))))))))))))))

  -- A strike outside the chain is ignored.
  unfoldable pub update_option_chain_leaf : FeedChain F → ℤ → Side → ParsedTick F → FeedChain F
  unfolding merged_leaf
  update_option_chain_leaf [] strike side tick = []
  update_option_chain_leaf (s ∷ chain) strike side tick =
      if eqb_ℤ s.strike strike
      then set_leaf side (merged_leaf (existing_leaf side s) tick) s ∷ chain
      else s ∷ update_option_chain_leaf chain strike side tick

  abbrev ltp_of : Option (Spot F) → F
  ltp_of none = nought
  ltp_of (some s) = s.ltp

  abbrev prev_close_of : Option F → Option (Spot F) → F
  prev_close_of (some pc) spot = pc
  prev_close_of none none = nought
  prev_close_of none (some s) = if is_nought s.prev_close then nought else s.prev_close

  abbrev value_or : Option F → F → F
  value_or none y = y
  value_or (some x) y = x

  unfoldable pub update_spot_snapshot : Option (Spot F) → ParsedTick F → Option F → Spot F
  update_spot_snapshot spot tick prev_close =
      let ltp = value_or tick.ltp (ltp_of spot) in
      let pc = prev_close_of prev_close spot in
      let change_inr = if is_nought pc then nought else ltp -f pc in
      let change_pct = if is_nought pc then nought else change_inr /f pc *f fl.dec 100 0 in
      record {
        ltp = ltp;
        prev_close = pc;
        change_inr = fl.round_to 4 change_inr;
        change_pct = fl.round_to 4 change_pct;
        ts = tick.ts;
      }
