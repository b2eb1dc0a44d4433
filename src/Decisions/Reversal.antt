-- ===== src/Decisions/Reversal.antt =====
-- decisions/reversal.py: four signs that must come together before a position is turned round.
pub mod Signs
use pcr_momentum.Base.{
  ℕ, zero, suc, ◌+◌, max, Bool, true, false, not, ◌&&◌, Option, none, some, List, [], ◌∷◌, ◌++◌,
  map, present, any, take, length, last?, head?, ltb, is_some, if◌then◌else◌,
}
use pcr_momentum.Float.{Float, nought, ◌≤f◌, ◌≥f◌, ◌>f◌, ◌+f◌, ◌-f◌, ◌*f◌, ◌/f◌}
use pcr_momentum.Snapshot.{StrikeLeg, Side, ce, pe}
use pcr_momentum.Buffer.{StrikeBuffer, TickObservation, last_n, Aggressor, buy, sell}
use pcr_momentum.Metrics.{
  SpreadStatus, good, moderate, avoid, unknown_spread, compute_spread, classify_spread,
}
use pcr_momentum.Metrics.Wall.{WallState, classify_wall_state, is_blocking}
use pcr_momentum.Decisions.{Trigger, imbalance_drop, wall_formed, spread_widened, ltp_flipped_to}

pub record ReversalVerdict (F : Type 0) : Type 0 where
  pub triggered : Bool
  pub triggers : List (Trigger F)
  pub imbalance_drop_pct : Option F
  pub new_wall_state : WallState
  pub spread_is_widened : Bool
  pub ltp_flipped : Bool

pub record ReversalConfig (F : Type 0) : Type 0 where
  pub imbalance_drop_threshold_pct : F
  pub spread_good_inr : F
  pub spread_moderate_inr : F
  pub qty_multiple : F
  pub aggressor_tolerance_inr : F
  pub lookback_ticks : ℕ

abbrev pub is_avoid : SpreadStatus → Bool
is_avoid avoid = true
is_avoid _ = false

abbrev pub side_or : Option Side → Side → Side
side_or none side = side
side_or (some held) side = held

abbrev pub other_aggressor : Side → Aggressor
other_aggressor ce = sell
other_aggressor pe = buy

module _ {F : Type 0} where
  abbrev imbalance_of : Option (TickObservation F) → Option F
  imbalance_of none = none
  imbalance_of (some o) = o.imbalance

module _ {F : Type 0} ⦃fl : Float F⦄ where
  drop_between : Option F → Option F → Option F
  drop_between (some earlier) (some current) =
      if earlier ≤f nought then none else some ((earlier -f current) /f earlier *f fl.dec 100 0)
  drop_between _ _ = none

  unfoldable pub drop_pct : StrikeBuffer F → ℕ → Option F
  unfolding drop_between
  drop_pct buffer lookback =
      let history = last_n buffer (lookback + 1) in
      if ltb (length history) (lookback + 1)
      then none
      else drop_between (imbalance_of (head? history)) (imbalance_of (last? history))

  abbrev pub exceeds : Option F → F → Bool
  exceeds none threshold = false
  exceeds (some drop) threshold = drop >f threshold

  -- No wall then: `False` or `None`.
  abbrev pub wall_was_clear : TickObservation F → Bool
  wall_was_clear o = elim o.ask_wall_present [ none ↦ true | some there ↦ not there ]

  unfoldable pub wall_just_formed : WallState → List (TickObservation F) → Bool
  wall_just_formed wall_state earlier = is_blocking wall_state && any wall_was_clear earlier

  abbrev is_nil : List (TickObservation F) → Bool
  is_nil [] = true
  is_nil (_ ∷ _) = false

  -- A wide spread is fresh if an earlier one was acceptable; with no history at all it counts.
  unfoldable pub is_fresh_widening :
      SpreadStatus → List (TickObservation F) → List (TickObservation F) → F → Bool
  is_fresh_widening status history earlier moderate_inr =
      is_avoid status
      && (if is_nil history
          then true
          else any (λ s. s ≤f moderate_inr) (present (map (λ o. o.spread) earlier)))

  abbrev flipped : Side → Option F → Option F → Option F → F → Bool
  flipped ce (some ltp) (some bid) (some ask) tolerance_inr = ltp ≤f bid +f tolerance_inr
  flipped pe (some ltp) (some bid) (some ask) tolerance_inr = ltp ≥f ask -f tolerance_inr
  flipped side _ _ _ tolerance_inr = false

  unfoldable pub is_ltp_flipped : Side → StrikeLeg F → F → Bool
  is_ltp_flipped side leg tolerance_inr =
      flipped side leg.ltp leg.best_bid leg.best_ask tolerance_inr

  abbrev drop_trigger : Bool → Option F → List (Trigger F)
  drop_trigger true (some drop) = imbalance_drop drop ∷ []
  drop_trigger _ _ = []

  -- The spread's trigger is noted only where there is a history to compare with.
  unfoldable pub evaluate_reversal :
      Option Side → StrikeLeg F → StrikeBuffer F → ReversalConfig F → ReversalVerdict F
  unfolding drop_pct wall_just_formed is_fresh_widening is_ltp_flipped
  evaluate_reversal held_side leg buffer c =
      let drop = drop_pct buffer c.lookback_ticks in
      let collapsed = exceeds drop c.imbalance_drop_threshold_pct in
      let wall_state = classify_wall_state leg buffer c.qty_multiple c.aggressor_tolerance_inr in
      let history = last_n buffer (c.lookback_ticks + 1) in
      let earlier = take (max 1 c.lookback_ticks) history in
      let formed = wall_just_formed wall_state earlier in
      let status = classify_spread (compute_spread leg) c.spread_good_inr c.spread_moderate_inr in
      let widened = is_fresh_widening status history earlier c.spread_moderate_inr in
      let side = side_or held_side leg.side in
      let flip = is_ltp_flipped side leg c.aggressor_tolerance_inr in
      record {
        triggered = collapsed && (formed && (widened && flip));
        triggers =
            drop_trigger collapsed drop
            ++ ((if formed then wall_formed wall_state ∷ [] else [])
                ++ ((if widened && not (is_nil history) then spread_widened ∷ [] else [])
                    ++ (if flip then ltp_flipped_to (other_aggressor side) ∷ [] else [])));
        imbalance_drop_pct = drop;
        new_wall_state = wall_state;
        spread_is_widened = widened;
        ltp_flipped = flip;
      }
