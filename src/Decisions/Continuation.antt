-- ===== src/Decisions/Continuation.antt =====
-- decisions/continuation.py: is a held position still carried by the book?
pub mod Support
use pcr_momentum.Base.{
  ℕ, Bool, true, false, ◌&&◌, Option, none, some, List, [], ◌∷◌, ◌++◌, map, present, last?, head?,
  if◌then◌else◌,
}
use pcr_momentum.Base.Int.{ℤ, ltb_ℤ}
use pcr_momentum.Float.{Float, ◌<f◌}
use pcr_momentum.Snapshot.{StrikeLeg, Side, ce, pe}
use pcr_momentum.Buffer.{StrikeBuffer, TickObservation, last_n, Aggressor, buy, sell, mid, unknown}
use pcr_momentum.Metrics.{
  SpreadStatus, good, moderate, avoid, unknown_spread, compute_imbalance, compute_spread,
  classify_spread, detect_aggressor,
}
use pcr_momentum.Metrics.Wall.{
  WallState, no_wall, holding, absorbing, refreshing, unknown_wall, classify_wall_state,
  never_rises, history_window,
}
use pcr_momentum.Decisions.{
  Failure, imbalance_missing, imbalance_below, bid_qty_decreasing, wall_in_the_way, spread_wide,
  spread_missing, aggressor_wrong,
}

pub record ContinuationVerdict (F : Type 0) : Type 0 where
  pub hold : Bool
  pub failures : List (Failure F)

pub record ContinuationConfig (F : Type 0) : Type 0 where
  pub imbalance_continuation : F
  pub spread_good_inr : F
  pub spread_moderate_inr : F
  pub qty_multiple : F
  pub aggressor_tolerance_inr : F

-- Fewer than two quantities are no evidence. Otherwise they must not rise, and end below the first.
abbrev last_of : ℤ → List ℤ → ℤ
last_of q [] = q
last_of q (r ∷ qs) = last_of r qs

unfoldable pub is_decreasing : List ℤ → Bool
is_decreasing [] = false
is_decreasing (q ∷ []) = false
is_decreasing (q ∷ r ∷ qs) = ltb_ℤ (last_of r qs) q && never_rises (q ∷ r ∷ qs)

module _ {F : Type 0} where
  abbrev pub wall_failure : WallState → List (Failure F)
  wall_failure holding = wall_in_the_way holding ∷ []
  wall_failure refreshing = wall_in_the_way refreshing ∷ []
  wall_failure _ = []

  abbrev pub spread_failure : SpreadStatus → List (Failure F)
  spread_failure avoid = spread_wide ∷ []
  spread_failure unknown_spread = spread_missing ∷ []
  spread_failure _ = []

  -- The expected aggressor, and MID, are no failure.
  abbrev pub aggressor_failure : Side → Aggressor → List (Failure F)
  aggressor_failure ce buy = []
  aggressor_failure pe sell = []
  aggressor_failure side mid = []
  aggressor_failure side a = aggressor_wrong a side ∷ []

  abbrev bid_failure : List (TickObservation F) → List (Failure F)
  bid_failure history =
      if is_decreasing (present (map (λ o. o.best_bid_qty) history))
      then bid_qty_decreasing ∷ []
      else []

  abbrev is_empty : List (Failure F) → Bool
  is_empty [] = true
  is_empty (_ ∷ _) = false

module _ {F : Type 0} ⦃fl : Float F⦄ where
  abbrev pub imbalance_failure : Option F → F → List (Failure F)
  imbalance_failure none threshold = imbalance_missing ∷ []
  imbalance_failure (some imb) threshold =
      if imb <f threshold then imbalance_below imb threshold ∷ [] else []

  unfoldable pub continuation_failures :
      Side → StrikeLeg F → StrikeBuffer F → ContinuationConfig F → List (Failure F)
  continuation_failures side leg buffer c =
      imbalance_failure (compute_imbalance leg) c.imbalance_continuation
      ++ (bid_failure (last_n buffer history_window)
          ++ (wall_failure (classify_wall_state leg buffer c.qty_multiple c.aggressor_tolerance_inr)
              ++ (spread_failure
                    (classify_spread (compute_spread leg) c.spread_good_inr c.spread_moderate_inr)
                  ++ aggressor_failure side (detect_aggressor leg c.aggressor_tolerance_inr))))

  unfoldable pub evaluate_continuation :
      Side → StrikeLeg F → StrikeBuffer F → ContinuationConfig F → ContinuationVerdict F
  unfolding continuation_failures
  evaluate_continuation side leg buffer c =
      let failures = continuation_failures side leg buffer c in
      record { hold = is_empty failures; failures = failures }
