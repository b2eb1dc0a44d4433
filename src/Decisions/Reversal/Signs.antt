-- ===== src/Decisions/Reversal/Signs.antt =====
-- What a triggered reversal means, in the terms of the book.
use pcr_momentum.Base.{◌+◌, ◌≡◌, ◌⊎◌, true, Option, some, arith, take, max, any}
use pcr_momentum.Float.{Float, ◌>f◌}
use pcr_momentum.Snapshot.{StrikeLeg, Side}
use pcr_momentum.Buffer.{StrikeBuffer, last_n}
use pcr_momentum.Metrics.{compute_spread, classify_spread, avoid}
use pcr_momentum.Metrics.Wall.{classify_wall_state, holding, refreshing}
use pcr_momentum.Decisions.Reversal.{
  ReversalConfig, drop_pct, is_ltp_flipped, wall_was_clear, side_or, evaluate_reversal,
}

-- All four signs at once: the imbalance has collapsed, a wall stands where there was none, the spread
-- is beyond moderate, and the price has gone over to the other side of the book.
pub record Signs {F : Type 0} ⦃fl : Float F⦄ (side : Side) (leg : StrikeLeg F) (b : StrikeBuffer F)
    (c : ReversalConfig F) : Type 0 where
  pub collapsed :
      (d : F) × (drop_pct b c.lookback_ticks ≡ some d)
      × ((d >f c.imbalance_drop_threshold_pct) ≡ true)
  pub wall_stands :
      let w = classify_wall_state leg b c.qty_multiple c.aggressor_tolerance_inr in
      (w ≡ holding) ⊎ (w ≡ refreshing)
  pub was_clear :
      any wall_was_clear (take (max 1 c.lookback_ticks) (last_n b (c.lookback_ticks + 1))) ≡ true
  pub wide : classify_spread (compute_spread leg) c.spread_good_inr c.spread_moderate_inr ≡ avoid
  pub crossed : is_ltp_flipped side leg c.aggressor_tolerance_inr ≡ true

module _ {F : Type 0} ⦃fl : Float F⦄ where
  pub triggered-Signs :
      (held : Option Side) (leg : StrikeLeg F) (b : StrikeBuffer F) (c : ReversalConfig F)
      → (evaluate_reversal held leg b c).triggered ≡ true
      → Signs (side_or held leg.side) leg b c
  unfolding evaluate_reversal
  triggered-Signs held leg b c e = record {
    collapsed = ground arith;
    wall_stands = ground arith;
    was_clear = ground arith;
    wide = ground arith;
    crossed = ground arith;
  }
