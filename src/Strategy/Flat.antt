-- ===== src/Strategy/Flat.antt =====
-- strategy.py, phase 4: nothing is held, so the entry gates are tried in turn.
use pcr_momentum.Base.{ℕ, Bool, Option, none, some, List, if◌then◌else◌}
use pcr_momentum.Base.Int.{ℤ, pos, ltb_ℤ}
use pcr_momentum.Float.{Float, nought, min_f, ◌≤f◌, ◌*f◌}
use pcr_momentum.Snapshot.{StrikeLeg, Snapshot, Side}
use pcr_momentum.Buffer.{StrikeBuffer, buffer_for}
use pcr_momentum.Metrics.{compute_spread, classify_spread}
use pcr_momentum.Metrics.Wall.{classify_wall_state}
use pcr_momentum.Metrics.Quality.{QualityResult, QualityConfig, compute_quality_score}
use pcr_momentum.Decisions.{
  Reason, reversal_suppression_until, no_dominant_strike, size_factor_zero_score, all_gates_passed,
}
use pcr_momentum.Decisions.EntryGates.{GateResult, gate1_direction, gate2_ask_wall, gate3_spread}
use pcr_momentum.Decisions.Timing.{TimingWindow, entry_allowed}
use pcr_momentum.Strategy.{
  Action, bare, no_op, enter, Metrics, Thresholds, Config, MemoryStore, pick_dominant_strike,
}
use pcr_momentum.Strategy.Observe.{snapshot_pressure}
use pcr_momentum.Strategy.Held.{legs_of, base_qty}

abbrev pub at_least_one : ℤ → ℤ
at_least_one n = if ltb_ℤ (pos 1) n then n else pos 1

module _ {F : Type 0} where
  abbrev pub quality_config : Thresholds F → QualityConfig F
  quality_config th = record {
    spread_good_inr = th.spread_good_inr;
    spread_moderate_inr = th.spread_moderate_inr;
    imbalance_strong_buy = th.imbalance_strong_buy;
    qty_multiple = th.ask_wall_qty_multiple;
    tick_min_consecutive = th.tick_min_consecutive;
    tick_window_ms = th.tick_window_ms;
    aggressor_tolerance_inr = th.aggressor_tolerance_inr;
  }

  -- A refusal after the score is known.
  scored_no_op : Reason F → Metrics F → QualityResult F → Action F
  scored_no_op reason metrics q = record (bare no_op reason metrics) {
    score = some q.score;
    score_breakdown = some q.breakdown;
  }

module _ {F : Type 0} ⦃fl : Float F⦄ where
  unfoldable pub lots : ℤ → F → ℤ
  lots base size = at_least_one (fl.round_int (fl.of_int base *f size))

  -- The size of the score and of the spread gate, the smaller of the two.
  enter_or_not : Config F → Metrics F → Side → StrikeLeg F → QualityResult F → F → Action F
  unfolding scored_no_op lots
  enter_or_not c metrics side leg q size =
      if size ≤f nought
      then scored_no_op (size_factor_zero_score q.score) metrics q
      else record (bare enter all_gates_passed metrics) {
        side = some side;
        strike = some leg.strike;
        instrument_token = some leg.token;
        qty_lots = some (lots (base_qty c) size);
        score = some q.score;
        score_breakdown = some q.breakdown;
      }

  timed :
      Bool × Reason F → Config F → Metrics F → Side → StrikeLeg F → QualityResult F → F → Action F
  unfolding enter_or_not scored_no_op
  timed (allowed, why) c metrics side leg q size =
      if allowed then enter_or_not c metrics side leg q size else scored_no_op why metrics q

  -- Gates 2, 3 and the quality of the dominant strike, then the time of day.
  unfoldable pub gates_2_to_4 :
      Config F
      → Thresholds F
      → List TimingWindow
      → ℕ
      → Metrics F
      → Side
      → StrikeLeg F
      → StrikeBuffer F
      → Action F
  unfolding timed
  gates_2_to_4 c th windows now_ist metrics side leg buffer =
      let g2 : GateResult F =
        gate2_ask_wall
          (classify_wall_state leg buffer th.ask_wall_qty_multiple th.aggressor_tolerance_inr) in
      let g3 : GateResult F =
        gate3_spread
          (classify_spread (compute_spread leg) th.spread_good_inr th.spread_moderate_inr) in
      let q = compute_quality_score side leg buffer (quality_config th) in
      if g2.passed
      then (if g3.passed
          then timed (entry_allowed now_ist windows q.score) c metrics side leg q
              (min_f q.entry_size_factor g3.size_factor)
          else bare no_op g3.reason metrics)
      else bare no_op g2.reason metrics

  -- The window of the dominant token may be made here, so the store comes back.
  enter_on :
      Config F
      → Thresholds F
      → MemoryStore F
      → ℕ
      → Metrics F
      → Side
      → Option (StrikeLeg F)
      → Action F × MemoryStore F
  unfolding gates_2_to_4
  enter_on c th memory now_ist metrics side none = (bare no_op no_dominant_strike metrics, memory)
  enter_on c th memory now_ist metrics side (some leg) =
      let (buffer, store) = buffer_for memory.buffers leg.token in
      (
        gates_2_to_4 c th memory.timing_windows now_ist metrics side leg buffer,
        record memory { buffers = store },
      )

  -- A passed first gate has a side.
  directed :
      Config F
      → Thresholds F
      → Snapshot F
      → MemoryStore F
      → ℕ
      → Metrics F
      → GateResult F
      → Option Side
      → Action F × MemoryStore F
  unfolding enter_on
  directed c th s memory now_ist metrics g1 none = (bare no_op g1.reason metrics, memory)
  directed c th s memory now_ist metrics g1 (some side) =
      enter_on c th memory now_ist metrics side (pick_dominant_strike (legs_of side s))

  unfoldable pub decide_flat :
      Config F
      → Thresholds F
      → Snapshot F
      → MemoryStore F
      → ℤ
      → ℕ
      → Metrics F
      → Action F × MemoryStore F
  unfolding directed snapshot_pressure
  decide_flat c th s memory ts_ms now_ist metrics =
      let g1 : GateResult F = gate1_direction (snapshot_pressure s) th.net_pressure_entry in
      if ltb_ℤ ts_ms memory.suppress_until_ts
      then (bare no_op (reversal_suppression_until memory.suppress_until_ts) metrics, memory)
      else directed c th s memory now_ist metrics g1 g1.side
