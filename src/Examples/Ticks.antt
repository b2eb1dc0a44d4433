-- ===== src/Examples/Ticks.antt =====
-- Ticks at which the strategy enters, turns round and holds.
use pcr_momentum.Base.{◌≡◌, ◌≢◌, ◌⊎◌, ◌↔◌, refl, true, false}
use pcr_momentum.Base.Int.{pos, ◌+ℤ◌, ◌-ℤ◌, ◌*ℤ◌, ltb_ℤ}
use pcr_momentum.Float.Fixed.{fixed, fixed-IsOrdered}
use pcr_momentum.Metrics.Wall.{or_else}
use pcr_momentum.Strategy.{ActionKind, enter, hold, reversal_warn, read_thresholds}
use pcr_momentum.Strategy.Tick.{on_tick}
use pcr_momentum.Strategy.Tick.Actions.{Entry}
use pcr_momentum.Strategy.Tick.Actions.{IsHeldKind, IsFlatKind}
use pcr_momentum.Strategy.Tick.Outcome.{decided_on, is_holding, on_tick-enter, on_tick-kind}
use pcr_momentum.Examples.{
  snapshot_of, bought_call, even_put, idle_memory, call_memory, config, ten_o_clock,
}

enters :
    (on_tick config (pos 5000) ten_o_clock (snapshot_of bought_call even_put) idle_memory).0.kind
    ≡ enter
unfolding on_tick read_thresholds ◌+ℤ◌ ◌-ℤ◌ ◌*ℤ◌ pcr_momentum.Decisions.EntryGates.gate1_direction
    pcr_momentum.Metrics.net_pressure pcr_momentum.Metrics.cumulative_imbalance
    pcr_momentum.Metrics.sum_or_none pcr_momentum.Metrics.sum
    pcr_momentum.Strategy.pick_dominant_strike pcr_momentum.Metrics.compute_imbalance
    pcr_momentum.Decisions.EntryGates.gate2_ask_wall pcr_momentum.Metrics.Wall.classify_wall_state
    pcr_momentum.Decisions.EntryGates.gate3_spread pcr_momentum.Metrics.classify_spread
    pcr_momentum.Metrics.compute_spread pcr_momentum.Decisions.Timing.entry_allowed
    pcr_momentum.Decisions.Timing.current_window pcr_momentum.Metrics.Quality.compute_quality_score
    pcr_momentum.Metrics.TickSpeed.consecutive_upticks pcr_momentum.Buffer.buffer_for
    pcr_momentum.Base.Dict.get pcr_momentum.Base.Dict.put pcr_momentum.Buffer.last_n
    pcr_momentum.Buffer.push_for pcr_momentum.Decisions.Reversal.evaluate_reversal
    pcr_momentum.Strategy.Observe.observe_legs pcr_momentum.Metrics.Wall.cache_observation_imbalance
    pcr_momentum.Decisions.Continuation.evaluate_continuation
    pcr_momentum.Decisions.Continuation.is_decreasing pcr_momentum.Metrics.detect_aggressor
    pcr_momentum.Metrics.TickSpeed.run_length pcr_momentum.Metrics.TickSpeed.streak
enters = refl

holds :
    (on_tick config (pos 5000) ten_o_clock (snapshot_of bought_call even_put) call_memory).0.kind
    ≡ hold
unfolding on_tick read_thresholds ◌+ℤ◌ ◌-ℤ◌ ◌*ℤ◌ pcr_momentum.Decisions.EntryGates.gate1_direction
    pcr_momentum.Metrics.net_pressure pcr_momentum.Metrics.cumulative_imbalance
    pcr_momentum.Metrics.sum_or_none pcr_momentum.Metrics.sum
    pcr_momentum.Strategy.pick_dominant_strike pcr_momentum.Metrics.compute_imbalance
    pcr_momentum.Decisions.EntryGates.gate2_ask_wall pcr_momentum.Metrics.Wall.classify_wall_state
    pcr_momentum.Decisions.EntryGates.gate3_spread pcr_momentum.Metrics.classify_spread
    pcr_momentum.Metrics.compute_spread pcr_momentum.Decisions.Timing.entry_allowed
    pcr_momentum.Decisions.Timing.current_window pcr_momentum.Metrics.Quality.compute_quality_score
    pcr_momentum.Metrics.TickSpeed.consecutive_upticks pcr_momentum.Buffer.buffer_for
    pcr_momentum.Base.Dict.get pcr_momentum.Base.Dict.put pcr_momentum.Buffer.last_n
    pcr_momentum.Buffer.push_for pcr_momentum.Decisions.Reversal.evaluate_reversal
    pcr_momentum.Strategy.Observe.observe_legs pcr_momentum.Metrics.Wall.cache_observation_imbalance
    pcr_momentum.Decisions.Continuation.evaluate_continuation
    pcr_momentum.Decisions.Continuation.is_decreasing pcr_momentum.Metrics.detect_aggressor
    pcr_momentum.Metrics.TickSpeed.run_length pcr_momentum.Metrics.TickSpeed.streak
holds = refl

on_tick-enter_example :
    let s = snapshot_of bought_call even_put in
    (is_holding idle_memory.held_side idle_memory.held_token ≡ false)
    × (ltb_ℤ (or_else s.snapshot_ts (pos 5000)) idle_memory.suppress_until_ts ≡ false)
    × Entry
        (read_thresholds config)
        s
        (decided_on config (pos 5000) s idle_memory)
        ten_o_clock
        (on_tick config (pos 5000) ten_o_clock s idle_memory).0
on_tick-enter_example =
    on_tick-enter fixed-IsOrdered config (pos 5000) ten_o_clock (snapshot_of bought_call even_put)
      idle_memory refl enters

on_tick-kind_example :
    let k =
      (on_tick config
        (pos 5000)
        ten_o_clock
        (snapshot_of bought_call even_put)
        call_memory).0.kind in
    ((is_holding call_memory.held_side call_memory.held_token ≡ true) × IsHeldKind k)
    ⊎ ((is_holding call_memory.held_side call_memory.held_token ≡ false) × IsFlatKind k)
on_tick-kind_example =
    on_tick-kind config (pos 5000) ten_o_clock (snapshot_of bought_call even_put) call_memory
