-- ===== src/Decisions/Continuation/Support.antt =====
-- When a position is kept, in the terms of the book.
use pcr_momentum.Base.{◌≡◌, ◌⊎◌, ◌↔◌, true, false, some, arith, present, map}
use pcr_momentum.Float.{Float, ◌<f◌}
use pcr_momentum.Snapshot.{StrikeLeg, Side, ce, pe}
use pcr_momentum.Buffer.{StrikeBuffer, last_n, Aggressor, buy, sell, mid}
use pcr_momentum.Metrics.{
  compute_imbalance, compute_spread, classify_spread, good, moderate, detect_aggressor,
}
use pcr_momentum.Metrics.Wall.{classify_wall_state, is_blocking, history_window}
use pcr_momentum.Decisions.Continuation.{ContinuationConfig, is_decreasing, evaluate_continuation}

abbrev pub with_side : Side → Aggressor
with_side ce = buy
with_side pe = sell

-- The five conditions on which a position is kept.
pub record IsSupported {F : Type 0} ⦃fl : Float F⦄ (side : Side) (leg : StrikeLeg F)
    (b : StrikeBuffer F) (c : ContinuationConfig F) : Type 0 where
  pub imbalanced :
      (imb : F) × (compute_imbalance leg ≡ some imb) × ((imb <f c.imbalance_continuation) ≡ false)
  pub bids_stay :
      is_decreasing (present (map (λ o. o.best_bid_qty) (last_n b history_window))) ≡ false
  pub wall_away :
      is_blocking (classify_wall_state leg b c.qty_multiple c.aggressor_tolerance_inr) ≡ false
  pub spread_fine :
      let st = classify_spread (compute_spread leg) c.spread_good_inr c.spread_moderate_inr in
      (st ≡ good) ⊎ (st ≡ moderate)
  pub price_fits :
      let a = detect_aggressor leg c.aggressor_tolerance_inr in (a ≡ with_side side) ⊎ (a ≡ mid)

module _ {F : Type 0} ⦃fl : Float F⦄ where
  hold-IsSupported :
      (side : Side) (leg : StrikeLeg F) (b : StrikeBuffer F) (c : ContinuationConfig F)
      → (evaluate_continuation side leg b c).hold ≡ true
      → IsSupported side leg b c
  unfolding evaluate_continuation
  hold-IsSupported side leg b c e = record {
    imbalanced = ground arith;
    bids_stay = ground arith;
    wall_away = ground arith;
    spread_fine = ground arith;
    price_fits = ground arith;
  }

  IsSupported-hold :
      (side : Side) (leg : StrikeLeg F) (b : StrikeBuffer F) (c : ContinuationConfig F)
      → IsSupported side leg b c
      → (evaluate_continuation side leg b c).hold ≡ true
  unfolding evaluate_continuation
  IsSupported-hold side leg b c h = ground arith

  -- A position is kept exactly when its imbalance is known and not below the bound, which it may equal;
  -- its bid quantities are not falling; no wall is known to block, though its state may be unknown; the
  -- spread is good or moderate; and the price is on the position's side of the book or in the middle.
  pub hold-iff-IsSupported :
      (side : Side) (leg : StrikeLeg F) (b : StrikeBuffer F) (c : ContinuationConfig F)
      → ((evaluate_continuation side leg b c).hold ≡ true) ↔ IsSupported side leg b c
  hold-iff-IsSupported side leg b c = (hold-IsSupported side leg b c, IsSupported-hold side leg b c)
