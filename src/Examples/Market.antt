-- ===== src/Examples/Market.antt =====
-- Windows, snapshots, baskets, scores and gates on concrete data.
use pcr_momentum.Base.{
  ◌≡◌, ◌⊎◌, ◌↔◌, ◌≤◌, ◌%◌, inl, refl, true, false, some, String, Option, [], ◌∷◌, length, arith,
}
use pcr_momentum.Base.Int.{ℤ, pos, ltb_ℤ}
use pcr_momentum.Float.Fixed.{fixed}
use pcr_momentum.Float.{nought}
use pcr_momentum.Snapshot.{Side, ce, pe, num, build_snapshot, has_token, chain_leaf}
use pcr_momentum.Snapshot.Pinning.{side_legs, build_snapshot-has_held}
use pcr_momentum.Buffer.{empty_buffer}
use pcr_momentum.Buffer.Window.{push_all, last_of, record_all, IsSteady, push_all-refines}
use pcr_momentum.Metrics.{compute_spread, classify_spread, good}
use pcr_momentum.Metrics.Classes.{compute_quality_score-bounds}
use pcr_momentum.Metrics.Quality.{QualityConfig, compute_quality_score}
use pcr_momentum.Decisions.Continuation.{ContinuationConfig, evaluate_continuation}
use pcr_momentum.Decisions.Continuation.Support.{IsSupported, hold-iff-IsSupported}
use pcr_momentum.Decisions.Timing.{TimingWindow, entry_allowed}
use pcr_momentum.Decisions.Timing.Windows.{IsFirst, entry_allowed-IsFirst}
use pcr_momentum.Examples.{calm, calm_window, bought_call, windows, ten_o_clock, chain}

push_all-refines_example :
    let os = calm (pos 1000) ∷ calm (pos 2000) ∷ calm (pos 2000) ∷ calm (pos 3000) ∷ [] in
    ((push_all (empty_buffer 2) os).dq ≡ last_of 2 (record_all [] os))
    × (length (push_all (empty_buffer 2) os).dq ≤ 2)
    × IsSteady (push_all (empty_buffer 2) os).dq
push_all-refines_example =
    push_all-refines 2 (calm (pos 1000) ∷ calm (pos 2000) ∷ calm (pos 2000) ∷ calm (pos 3000) ∷ [])
      (omega arith)

abbrev keep : ContinuationConfig ℤ
keep = record {
  imbalance_continuation = pos 1200;
  spread_good_inr = pos 1000;
  spread_moderate_inr = pos 2000;
  qty_multiple = pos 5000;
  aggressor_tolerance_inr = pos 100;
}

hold-iff-IsSupported_example :
    ((evaluate_continuation ce bought_call calm_window keep).hold ≡ true)
    ↔ IsSupported ce bought_call calm_window keep
hold-iff-IsSupported_example = hold-iff-IsSupported ce bought_call calm_window keep

-- The call is pinned to a basket that has moved away from it.
build_snapshot-has_held_example :
    has_token "C1" (
      side_legs ce (
        build_snapshot "nifty50"
          (pos 200)
          []
          []
          chain
          (num (pos 200000))
          (num (pos 5000000))
          (pos 5000)
          (record { token = some "C1"; side = some ce; strike = some (pos 100) })))
    ≡ true
unfolding chain_leaf
build_snapshot-has_held_example =
    build_snapshot-has_held "nifty50" (pos 200) [] [] chain (num (pos 200000)) (num (pos 5000000))
      (pos 5000) "C1" ce (pos 100) refl (inl refl)

abbrev lookup : ℤ → Side → Option String
lookup strike ce = some "C2"
lookup strike pe = some "P1"

entry_allowed-IsFirst_example :
    (w : TimingWindow) × (least : ℤ) × IsFirst ten_o_clock windows w
    × (w.min_score ≡ some least)
    × (ltb_ℤ (pos 8) least ≡ false)
unfolding entry_allowed pcr_momentum.Decisions.Timing.current_window
entry_allowed-IsFirst_example = entry_allowed-IsFirst ℤ ten_o_clock windows 8 refl

abbrev quality : QualityConfig ℤ
quality = record {
  spread_good_inr = pos 1000;
  spread_moderate_inr = pos 2000;
  imbalance_strong_buy = pos 1300;
  qty_multiple = pos 5000;
  tick_min_consecutive = pos 3;
  tick_window_ms = pos 1000;
  aggressor_tolerance_inr = pos 100;
}

compute_quality_score-bounds_example :
    let r = compute_quality_score ce bought_call calm_window quality in
    (r.score ≤ 10)
    × (r.score % 2 ≡ 0)
    × (((8 ≤ r.score) × (r.entry_size_factor ≡ pos 1000))
        ⊎ (((r.score ≡ 6) × (r.entry_size_factor ≡ pos 500))
            ⊎ ((r.score ≤ 4) × (r.entry_size_factor ≡ nought))))
    × (r.score ≡ 10 → classify_spread (compute_spread bought_call) (pos 1000) (pos 2000) ≡ good)
compute_quality_score-bounds_example =
    compute_quality_score-bounds ce bought_call calm_window quality
