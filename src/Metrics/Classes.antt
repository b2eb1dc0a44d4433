-- ===== src/Metrics/Classes.antt =====
-- What the scores and the classes guarantee.
use pcr_momentum.Base.{ℕ, ◌%◌, ◌≤◌, ◌≡◌, ◌⊎◌, true, some, arith}
use pcr_momentum.Float.{Float, IsOrdered, nought, ◌≤f◌}
use pcr_momentum.Snapshot.{Side, StrikeLeg}
use pcr_momentum.Buffer.{StrikeBuffer}
use pcr_momentum.Metrics.{
  ImbalanceClass, strong_buyers, moderate_buyers, neutral, moderate_sellers, strong_sellers,
  unknown_imbalance, classify_imbalance, good, compute_spread, classify_spread,
}
use pcr_momentum.Metrics.Quality.{
  QualityConfig, score_breakdown, compute_quality_score, size_factor,
}

-- The classes from sellers to buyers.
abbrev pub rank : ImbalanceClass → ℕ
rank strong_sellers = 0
rank moderate_sellers = 1
rank neutral = 2
rank moderate_buyers = 3
rank strong_buyers = 4
rank unknown_imbalance = 0

module _ {F : Type 0} ⦃fl : Float F⦄ where
  -- With floats that are ordered like doubles, a higher ratio of bids to asks is never classed further towards the sellers, whatever the
  -- thresholds.
  pub classify_imbalance-monotone :
      IsOrdered F
      → (x y strong moderate neutral_low sell : F) → (x ≤f y) ≡ true
      → rank (classify_imbalance (some x) strong moderate neutral_low sell)
        ≤ rank (classify_imbalance (some y) strong moderate neutral_low sell)
  unfolding classify_imbalance
  classify_imbalance-monotone o x y strong moderate neutral_low sell h =
      let s = o.lt_le_trans strong x y in
      let m = o.lt_le_trans moderate x y in
      let n = o.le_trans neutral_low x y in let l = o.le_trans sell x y in ground arith

  -- The quality score is even and at most 10. The size factor is 1 from 8 points, one half at 6, and 0
  -- below; a full score needs a good spread.
  pub compute_quality_score-bounds :
      (side : Side) (leg : StrikeLeg F) (buffer : StrikeBuffer F) (c : QualityConfig F)
      → let r = compute_quality_score side leg buffer c in
        (r.score ≤ 10)
        × (r.score % 2 ≡ 0)
        × (((8 ≤ r.score) × (r.entry_size_factor ≡ fl.dec 1 0))
            ⊎ (((r.score ≡ 6) × (r.entry_size_factor ≡ fl.dec 5 1))
                ⊎ ((r.score ≤ 4) × (r.entry_size_factor ≡ nought))))
        × (r.score ≡ 10
            → classify_spread (compute_spread leg) c.spread_good_inr c.spread_moderate_inr ≡ good)
  unfolding compute_quality_score score_breakdown size_factor
  compute_quality_score-bounds side leg buffer c = ground arith
