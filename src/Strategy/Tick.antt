-- ===== src/Strategy/Tick.antt =====
-- strategy.py, `on_tick`: the four phases in order. The two clocks are arguments, the wall clock in
-- milliseconds and the time of day in IST. That `snapshot` and `memory` have their types is given.
pub mod Actions
pub mod Outcome
pub mod Turns
use pcr_momentum.Base.{ℕ, String, Option, none, some, [], truthy, if◌then◌else◌, Bool}
use pcr_momentum.Base.Int.{ℤ}
use pcr_momentum.Float.{Float}
use pcr_momentum.Snapshot.{Snapshot, all_legs, Side}
use pcr_momentum.Metrics.Wall.{or_else}
use pcr_momentum.Strategy.{Action, Metrics, Thresholds, Config, MemoryStore, read_thresholds}
use pcr_momentum.Strategy.Observe.{observe_legs, base_metrics}
use pcr_momentum.Strategy.Held.{decide_held}
use pcr_momentum.Strategy.Flat.{decide_flat}

module _ {F : Type 0} ⦃fl : Float F⦄ where
  -- `if memory.held_side and memory.held_token`
  unfoldable pub decide :
      Config F
      → Thresholds F
      → Snapshot F
      → MemoryStore F
      → ℤ
      → ℕ
      → Metrics F
      → Option Side
      → Option String
      → Action F × MemoryStore F
  unfolding decide_held decide_flat
  decide c th s memory ts_ms now_ist metrics (some side) (some token) =
      if truthy token
      then decide_held c th s memory side token metrics
      else decide_flat c th s memory ts_ms now_ist metrics
  decide c th s memory ts_ms now_ist metrics _ _ = decide_flat c th s memory ts_ms now_ist metrics

  -- The memory after phase 1.
  unfoldable pub observed : Thresholds F → ℤ → Snapshot F → MemoryStore F → MemoryStore F
  observed th ts_ms s memory = record memory {
    buffers = (observe_legs th ts_ms (all_legs s) (memory.buffers, [])).0;
  }

  unfoldable pub tick_metrics : Config F → ℤ → Snapshot F → MemoryStore F → Metrics F
  tick_metrics c now_ms s memory =
      let th = read_thresholds c in
      let ts_ms = or_else s.snapshot_ts now_ms in
      base_metrics s th ts_ms (observe_legs th ts_ms (all_legs s) (memory.buffers, [])).1

  unfoldable pub on_tick : Config F → ℤ → ℕ → Snapshot F → MemoryStore F → Action F × MemoryStore F
  unfolding decide observed tick_metrics
  on_tick c now_ms now_ist s memory =
      let th = read_thresholds c in
      let ts_ms = or_else s.snapshot_ts now_ms in
      decide c th s (observed th ts_ms s memory) ts_ms now_ist (tick_metrics c now_ms s memory)
        memory.held_side memory.held_token
