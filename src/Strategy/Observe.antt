-- ===== src/Strategy/Observe.antt =====
-- strategy.py, phases 1 and 2: every leg of the snapshot is measured, its observation pushed on the
-- window of its token, and the book summed up.
use pcr_momentum.Base.{Bool, true, false, Option, none, some, List, [], ◌∷◌}
use pcr_momentum.Base.Int.{ℤ}
use pcr_momentum.Base.Dict.{Dict, put}
use pcr_momentum.Float.{Float}
use pcr_momentum.Snapshot.{StrikeLeg, Snapshot}
use pcr_momentum.Buffer.{BufferStore, TickObservation, Aggressor, buffer_for, push_for}
use pcr_momentum.Metrics.{
  compute_imbalance, classify_imbalance, compute_spread, classify_spread, detect_aggressor,
  cumulative_imbalance, net_pressure, classify_pressure,
}
use pcr_momentum.Metrics.Wall.{
  WallState, no_wall, holding, absorbing, refreshing, unknown_wall, classify_wall_state,
  cache_observation_imbalance,
}
use pcr_momentum.Strategy.{StrikeMetric, Metrics, Thresholds}

-- Is there a wall? UNKNOWN is cached as None.
abbrev pub cached_wall : WallState → Option Bool
cached_wall unknown_wall = none
cached_wall no_wall = some false
cached_wall holding = some true
cached_wall absorbing = some true
cached_wall refreshing = some true

-- What the loop carries: the windows and the metrics.
abbrev pub Observed : Type 0 → Type 0
Observed F = BufferStore F × Dict (StrikeMetric F)

module _ {F : Type 0} ⦃fl : Float F⦄ where
  abbrev pub rounded : Option F → Option F
  rounded none = none
  rounded (some x) = some (fl.round_to 4 x)

  -- The bounds that `classify_imbalance` is called without have its defaults.
  unfoldable pub per_strike_metric :
      StrikeLeg F → Thresholds F → WallState → Aggressor → StrikeMetric F
  per_strike_metric leg th wall_state aggressor = record {
    leg = leg;
    imbalance = rounded (compute_imbalance leg);
    imbalance_class =
        classify_imbalance (compute_imbalance leg) th.imbalance_strong_buy (fl.dec 110 2)
          (fl.dec 90 2) (fl.dec 70 2);
    spread = rounded (compute_spread leg);
    spread_class = classify_spread (compute_spread leg) th.spread_good_inr th.spread_moderate_inr;
    wall_state = wall_state;
    aggressor = aggressor;
  }

  -- The observation of a leg. The wall is classified by the window as it was before the push.
  unfoldable pub observation : Thresholds F → ℤ → StrikeLeg F → WallState → TickObservation F
  observation th ts_ms leg wall_state =
      cache_observation_imbalance leg (compute_imbalance leg) (compute_spread leg)
        (cached_wall wall_state) (detect_aggressor leg th.aggressor_tolerance_inr) ts_ms

  unfoldable pub observe_leg : Thresholds F → ℤ → StrikeLeg F → Observed F → Observed F
  unfolding observation per_strike_metric
  observe_leg th ts_ms leg (store, per_strike) =
      let (buf, handed_out) = buffer_for store leg.token in
      let wall_state =
        classify_wall_state leg buf th.ask_wall_qty_multiple th.aggressor_tolerance_inr in
      (
        push_for handed_out leg.token (observation th ts_ms leg wall_state),
        put leg.token
            (per_strike_metric leg th wall_state (detect_aggressor leg th.aggressor_tolerance_inr))
            per_strike,
      )

  unfoldable pub observe_legs : Thresholds F → ℤ → List (StrikeLeg F) → Observed F → Observed F
  unfolding observe_leg
  observe_legs th ts_ms [] o = o
  observe_legs th ts_ms (leg ∷ legs) o = observe_legs th ts_ms legs (observe_leg th ts_ms leg o)

  unfoldable pub snapshot_pressure : Snapshot F → Option F
  snapshot_pressure s =
      net_pressure (cumulative_imbalance s.ce_legs).2 (cumulative_imbalance s.pe_legs).2

  unfoldable pub base_metrics : Snapshot F → Thresholds F → ℤ → Dict (StrikeMetric F) → Metrics F
  unfolding snapshot_pressure
  base_metrics s th ts_ms per_strike =
      let (ce_sum_bid, ce_sum_ask, cum_ce) = cumulative_imbalance s.ce_legs in
      let (pe_sum_bid, pe_sum_ask, cum_pe) = cumulative_imbalance s.pe_legs in
      record {
        snapshot_ts = ts_ms;
        atm = s.atm;
        spot = s.spot;
        cum_ce_imbalance = rounded cum_ce;
        cum_pe_imbalance = rounded cum_pe;
        ce_sum_bid = ce_sum_bid;
        ce_sum_ask = ce_sum_ask;
        pe_sum_bid = pe_sum_bid;
        pe_sum_ask = pe_sum_ask;
        net_pressure = rounded (snapshot_pressure s);
        net_pressure_label =
            classify_pressure (snapshot_pressure s) th.net_pressure_entry
              th.net_pressure_neutral_band;
        per_strike = per_strike;
        reversal_triggers = [];
        continuation_failures = [];
      }
