-- ===== src/Examples/Vessels.antt =====
-- Passes of a vessel, its keys, and what it publishes.
use pcr_momentum.Base.{
  ◌≡◌, ◌⊎◌, inl, inr, refl, true, false, some, none, String, Option, List, [], ◌∷◌, Bool,
}
use pcr_momentum.Base.Int.{ℤ, pos, ◌+ℤ◌, ◌-ℤ◌, ◌*ℤ◌, ltb_ℤ, leb_ℤ}
use pcr_momentum.Float.Fixed.{fixed}
use pcr_momentum.Snapshot.{num, ce}
use pcr_momentum.Decisions.{no_reason}
use pcr_momentum.Strategy.{Action, ActionKind, enter, bare, read_thresholds}
use pcr_momentum.Strategy.Tick.{on_tick, tick_metrics}
use pcr_momentum.Publisher.{SignalStore, emit_signal, signal_of}
use pcr_momentum.Publisher.Stream.{Grows, emit_signal-Grows}
use pcr_momentum.Vessel.{
  VesselState, flat, in_ce, cooldown, VesselKeys, read_state, set_state, is_enabled, enter_cooldown,
  maybe_exit_cooldown,
}
use pcr_momentum.Vessel.Cooldown.{enter_cooldown-lasts}
use pcr_momentum.Vessel.Runner.{Input, Spec, World, vessel_pass}
use pcr_momentum.Vessel.Runner.Safety.{signals_after, vessel_pass-silent, vessel_pass-suppress}
use pcr_momentum.Vessel.Runner.Orders.{OnlyEnters, vessel_pass-flat}
use pcr_momentum.Examples.{
  config, idle_memory, no_signals, chain, ten_o_clock, snapshot_of, bought_call, even_put,
}

abbrev spec : Spec ℤ
spec = record {
  instrument_id = "nifty50";
  config = config;
  strike_step = pos 50;
  basket_size = 0;
  hysteresis_sec = pos 60;
}

abbrev input : Input ℤ
input = record {
  now_ms = pos 5000;
  now_ist = ten_o_clock;
  session_closed = false;
  chain = chain;
  spot = some (pos 100000);
  spot_ltp = num (pos 100000);
  spot_ts = num (pos 5000000);
  position = none;
}

abbrev flat_keys : VesselKeys
flat_keys = record { state = some "FLAT"; until = none; reason = ""; enabled = true }

abbrev world : World ℤ
world = record {
  keys = flat_keys;
  memory = idle_memory;
  signals = no_signals;
  desired = [];
  last_basket_check_ms = pos 5000;
  draining = false;
}

abbrev world_or : World ℤ → Option (World ℤ) → World ℤ
world_or w none = w
world_or w (some w') = w'

abbrev mint : Action ℤ → ℤ → String
mint a ts = "sig"

abbrev passed : World ℤ
passed = world_or world (vessel_pass mint spec input world)

runs : vessel_pass mint spec input world ≡ some passed
unfolding vessel_pass maybe_exit_cooldown read_state is_enabled on_tick read_thresholds ◌+ℤ◌ ◌-ℤ◌
    ◌*ℤ◌ pcr_momentum.Decisions.EntryGates.gate1_direction pcr_momentum.Metrics.net_pressure
    pcr_momentum.Metrics.cumulative_imbalance pcr_momentum.Metrics.sum_or_none
    pcr_momentum.Metrics.sum pcr_momentum.Strategy.pick_dominant_strike
    pcr_momentum.Metrics.compute_imbalance pcr_momentum.Decisions.EntryGates.gate2_ask_wall
    pcr_momentum.Metrics.Wall.classify_wall_state pcr_momentum.Decisions.EntryGates.gate3_spread
    pcr_momentum.Metrics.classify_spread pcr_momentum.Metrics.compute_spread
    pcr_momentum.Decisions.Timing.entry_allowed pcr_momentum.Decisions.Timing.current_window
    pcr_momentum.Metrics.Quality.compute_quality_score
    pcr_momentum.Metrics.TickSpeed.consecutive_upticks pcr_momentum.Buffer.buffer_for
    pcr_momentum.Base.Dict.get pcr_momentum.Base.Dict.put pcr_momentum.Buffer.last_n
    pcr_momentum.Buffer.push_for pcr_momentum.Decisions.Reversal.evaluate_reversal
    pcr_momentum.Strategy.Observe.observe_legs pcr_momentum.Metrics.Wall.cache_observation_imbalance
    pcr_momentum.Decisions.Continuation.evaluate_continuation
    pcr_momentum.Decisions.Continuation.is_decreasing pcr_momentum.Metrics.detect_aggressor
    pcr_momentum.Metrics.TickSpeed.run_length pcr_momentum.Metrics.TickSpeed.streak
    pcr_momentum.Vessel.Runner.live pcr_momentum.Vessel.Runner.apply_action
    pcr_momentum.Vessel.Runner.sync_memory pcr_momentum.Snapshot.build_snapshot
    pcr_momentum.Snapshot.basket_legs pcr_momentum.Snapshot.build_leg
    pcr_momentum.Snapshot.chain_leaf pcr_momentum.Basket.ce_pairs pcr_momentum.Basket.pe_pairs
    pcr_momentum.Publisher.emit_signal pcr_momentum.Publisher.complete
    pcr_momentum.Publisher.emit_complete
runs = refl

vessel_pass-flat_example : OnlyEnters "nifty50" no_signals passed.signals
unfolding read_state maybe_exit_cooldown
vessel_pass-flat_example = vessel_pass-flat mint spec input world passed refl runs

vessel_pass-suppress_example : passed.memory.suppress_until_ts ≡ world.memory.suppress_until_ts
vessel_pass-suppress_example = vessel_pass-suppress mint spec input world passed runs

abbrev cooling_world : World ℤ
cooling_world = record world {
  keys = record flat_keys { state = some "COOLDOWN"; until = some (pos 60000) };
}

vessel_pass-silent_example :
    signals_after (vessel_pass mint spec input cooling_world) ≡ some no_signals
unfolding read_state maybe_exit_cooldown
vessel_pass-silent_example = vessel_pass-silent mint spec input cooling_world (inr (inr refl))

enter_cooldown-lasts_example :
    let cooling = enter_cooldown (pos 5000) "post_sl" (pos 60) flat_keys in
    let checked = maybe_exit_cooldown (pos 65000) cooling in
    (read_state cooling ≡ cooldown)
    × (ltb_ℤ (pos 65000) (pos 5000 +ℤ pos 60 *ℤ pos 1000) ≡ true → checked ≡ (false, cooling))
    × (leb_ℤ (pos 5000 +ℤ pos 60 *ℤ pos 1000) (pos 65000) ≡ true
        → (checked.0 ≡ true)
          × (read_state checked.1 ≡ flat)
          × ((maybe_exit_cooldown (pos 65000) checked.1).0 ≡ false))
unfolding ◌+ℤ◌ ◌*ℤ◌
enter_cooldown-lasts_example =
    enter_cooldown-lasts (pos 5000) (pos 60) (pos 65000) "post_sl" flat_keys refl

abbrev order : Action ℤ
order =
    record (bare enter no_reason
      (tick_metrics config (pos 5000) (snapshot_of bought_call even_put) idle_memory)) {
        side = some ce;
        strike = some (pos 100);
        instrument_token = some "C1";
        qty_lots = some (pos 2);
      }

emit_signal-Grows_example :
    Grows "nifty50" order no_signals (emit_signal mint "nifty50" order (pos 5000) no_signals).1
emit_signal-Grows_example = emit_signal-Grows mint "nifty50" order (pos 5000) no_signals
