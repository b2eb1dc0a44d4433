-- ===== src/Metrics/Wall.antt =====
-- metrics/ask_wall.py: is the ask side a wall, and what has it done over the last five ticks?
use pcr_momentum.Base.{
  ℕ, Bool, true, false, ◌&&◌, Option, none, some, List, [], ◌∷◌, map, present, length, head?, ltb,
  if◌then◌else◌,
}
use pcr_momentum.Base.Int.{ℤ, pos, ltb_ℤ, leb_ℤ}
use pcr_momentum.Float.{Float, ◌<f◌, ◌>f◌, ◌≥f◌, ◌-f◌, ◌*f◌}
use pcr_momentum.Snapshot.{StrikeLeg, or_zero}
use pcr_momentum.Buffer.{StrikeBuffer, TickObservation, Aggressor, last_n}

pub data WallState : Type 0 where
  no_wall holding absorbing refreshing unknown_wall : WallState

abbrev pub history_window : ℕ
history_window = 5

abbrev pub max_ℤ : ℤ → List ℤ → ℤ
max_ℤ m [] = m
max_ℤ m (n ∷ ns) = max_ℤ (if ltb_ℤ m n then n else m) ns

abbrev pub min_ℤ : ℤ → List ℤ → ℤ
min_ℤ m [] = m
min_ℤ m (n ∷ ns) = min_ℤ (if ltb_ℤ n m then n else m) ns

-- `all(q[i] >= q[i + 1] …)`
abbrev pub never_rises : List ℤ → Bool
never_rises [] = true
never_rises (a ∷ []) = true
never_rises (a ∷ b ∷ qs) = leb_ℤ b a && never_rises (b ∷ qs)

-- `leg.ts or ts_fallback`
abbrev pub or_else : ℤ → ℤ → ℤ
or_else (pos ℕ.zero) fallback = fallback
or_else ts fallback = ts

abbrev pub rises : Option ℤ → Option ℤ → Bool
rises (some now) (some before) = ltb_ℤ before now
rises _ _ = false

module _ {F : Type 0} ⦃fl : Float F⦄ where
  wall_present : Option ℤ → Option ℤ → F → Option Bool
  wall_present (some ask_qty) (some bid_qty) qty_multiple =
      if leb_ℤ bid_qty (pos 0)
      then some (ltb_ℤ (pos 0) ask_qty)
      else some (fl.of_int ask_qty >f qty_multiple *f fl.of_int bid_qty)
  wall_present _ _ qty_multiple = none

  unfoldable pub is_wall_present : StrikeLeg F → F → Option Bool
  unfolding wall_present
  is_wall_present leg qty_multiple = wall_present leg.best_ask_qty leg.best_bid_qty qty_multiple

  abbrev first_bid_qty : Option (TickObservation F) → Option ℤ
  first_bid_qty none = none
  first_bid_qty (some o) = o.best_bid_qty

  abbrev near_ask : Option F → Option F → F → Bool
  near_ask (some ask) (some ltp) tolerance_inr = ltp ≥f ask -f tolerance_inr
  near_ask _ _ tolerance_inr = false

  -- Was the wall eaten to below 70% of its peak, and is it back at 85% or more?
  unfoldable pub is_refreshed : F → F → F → Bool
  is_refreshed peak low current = (low <f peak *f fl.dec 7 1) && (current ≥f peak *f fl.dec 85 2)

  -- The quantities are `q ∷ r ∷ qs`, at least two of them.
  wall_by_history : StrikeLeg F → List (TickObservation F) → ℤ → ℤ → List ℤ → F → WallState
  unfolding is_refreshed
  wall_by_history leg history q r qs tolerance_inr =
      if is_refreshed (fl.of_int (max_ℤ q (r ∷ qs))) (fl.of_int (min_ℤ q (r ∷ qs)))
        (fl.of_int (or_zero leg.best_ask_qty))
      then refreshing
      else if never_rises (q ∷ r ∷ qs)
          && near_ask leg.best_ask leg.ltp tolerance_inr
          && rises leg.best_bid_qty (first_bid_qty (head? history))
      then absorbing
      else holding

  abbrev wall_by_quantities : StrikeLeg F → List (TickObservation F) → List ℤ → F → WallState
  wall_by_quantities leg history (q ∷ r ∷ qs) tolerance_inr =
      wall_by_history leg history q r qs tolerance_inr
  wall_by_quantities leg history _ tolerance_inr = holding

  wall_state : Option Bool → StrikeLeg F → List (TickObservation F) → F → WallState
  unfolding wall_by_history
  wall_state none leg history tolerance_inr = unknown_wall
  wall_state (some false) leg history tolerance_inr = no_wall
  wall_state (some true) leg history tolerance_inr =
      if ltb (length history) 2
      then holding
      else wall_by_quantities leg history (present (map (λ o. o.best_ask_qty) history))
          tolerance_inr

  unfoldable pub classify_wall_state : StrikeLeg F → StrikeBuffer F → F → F → WallState
  unfolding wall_state is_wall_present last_n
  classify_wall_state leg buffer qty_multiple aggressor_tolerance_inr =
      wall_state (is_wall_present leg qty_multiple) leg (last_n buffer history_window)
        aggressor_tolerance_inr

  unfoldable pub cache_observation_imbalance :
      StrikeLeg F → Option F → Option F → Option Bool → Aggressor → ℤ → TickObservation F
  cache_observation_imbalance leg imbalance spread wall_present aggressor ts_fallback = record {
    ts = or_else leg.ts ts_fallback;
    ltp = leg.ltp;
    best_bid = leg.best_bid;
    best_ask = leg.best_ask;
    best_bid_qty = leg.best_bid_qty;
    best_ask_qty = leg.best_ask_qty;
    total_bid_qty = leg.total_bid_qty;
    total_ask_qty = leg.total_ask_qty;
    imbalance = imbalance;
    spread = spread;
    ask_wall_present = wall_present;
    aggressor = aggressor;
  }

-- The wall keeps a buyer out, or takes the ground from under one.
abbrev pub is_blocking : WallState → Bool
is_blocking holding = true
is_blocking refreshing = true
is_blocking _ = false
