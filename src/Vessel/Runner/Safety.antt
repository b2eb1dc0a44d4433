-- ===== src/Vessel/Runner/Safety.antt =====
-- What a pass may send, by the state of the vessel, and what it never changes.
use pcr_momentum.Base.{ℕ, String, ◌≡◌, ◌≢◌, ◌⊎◌, refl, true, false, Option, none, some, arith, ap}
use pcr_momentum.Base.Int.{ℤ}
use pcr_momentum.Float.{Float}
use pcr_momentum.Strategy.{
  Action, read_thresholds, reversal_warn, Config, MemoryStore, Metrics, Thresholds,
}
use pcr_momentum.Snapshot.{Snapshot, Side}
use pcr_momentum.Strategy.Held.{decide_held}
use pcr_momentum.Strategy.Flat.{decide_flat}
use pcr_momentum.Strategy.Tick.{on_tick, decide, tick_metrics, observed}
use pcr_momentum.Strategy.Tick.Outcome.{on_tick-ne-warn, is_holding, decided_on}
use pcr_momentum.Metrics.Wall.{or_else}
use pcr_momentum.Publisher.{SignalStore}
use pcr_momentum.Vessel.{
  VesselState, flat, in_ce, in_pe, cooldown, halted, read_state, maybe_exit_cooldown, is_enabled,
}
use pcr_momentum.Vessel.Runner.{
  Input, Spec, World, acts_in, apply_action, sync_memory, recheck_basket, pass_snapshot, live,
  tick_pass, vessel_pass,
}

-- The state in which a pass runs: a cooldown that is over has been left.
abbrev pub state_of_pass : {F : Type 0} → Input F → World F → VesselState
state_of_pass i w = read_state (maybe_exit_cooldown i.now_ms w.keys).1

module _ {F : Type 0} ⦃fl : Float F⦄ where
  pub recheck_basket-keeps :
      (spec : Spec F) (i : Input F) (w : World F)
      → let w' = recheck_basket spec i w in
        (w'.signals ≡ w.signals)
        × (w'.memory.held_side ≡ w.memory.held_side)
        × (w'.memory.held_token ≡ w.memory.held_token)
        × (w'.memory.suppress_until_ts ≡ w.memory.suppress_until_ts)
  unfolding recheck_basket
  recheck_basket-keeps spec i w = ground arith

  sync_memory-suppress :
      (st : VesselState) (p : Option (Option String × Option ℤ)) (m : MemoryStore F)
      → (sync_memory st p m).suppress_until_ts ≡ m.suppress_until_ts
  unfolding sync_memory
  sync_memory-suppress st p m = ground arith

  -- A flat vessel holds nothing after the sync.
  pub sync_memory-flat :
      (p : Option (Option String × Option ℤ)) (m : MemoryStore F)
      → let m' = sync_memory flat p m in is_holding m'.held_side m'.held_token ≡ false
  unfolding sync_memory
  sync_memory-flat p m = ground arith

  decide_held-suppress :
      (c : Config F) (th : Thresholds F) (s : Snapshot F) (m : MemoryStore F) (side : Side)
      (t : String) (metrics : Metrics F)
      → (decide_held c th s m side t metrics).1.suppress_until_ts ≡ m.suppress_until_ts
  unfolding decide_held
  decide_held-suppress c th s m side t metrics = ground arith

  decide_flat-suppress :
      (c : Config F) (th : Thresholds F) (s : Snapshot F) (m : MemoryStore F) (ts : ℤ) (now_ist : ℕ)
      (metrics : Metrics F)
      → (decide_flat c th s m ts now_ist metrics).1.suppress_until_ts ≡ m.suppress_until_ts
  unfolding decide_flat
  decide_flat-suppress c th s m ts now_ist metrics = ground arith

  decide-suppress :
      (c : Config F) (th : Thresholds F) (s : Snapshot F) (m : MemoryStore F) (ts : ℤ) (now_ist : ℕ)
      (metrics : Metrics F) (side : Option Side) (t : Option String)
      → (decide c th s m ts now_ist metrics side t).1.suppress_until_ts ≡ m.suppress_until_ts
  unfolding decide
  decide-suppress c th s m ts now_ist metrics (some side) (some t) = ground (
    arith,
    decide_held-suppress c th s m side t metrics,
    decide_flat-suppress c th s m ts now_ist metrics,
  )
  decide-suppress c th s m ts now_ist metrics none t =
      decide_flat-suppress c th s m ts now_ist metrics
  decide-suppress c th s m ts now_ist metrics (some side) none =
      decide_flat-suppress c th s m ts now_ist metrics

  on_tick-suppress :
      (c : Config F) (now_ms : ℤ) (now_ist : ℕ) (s : Snapshot F) (m : MemoryStore F)
      → (on_tick c now_ms now_ist s m).1.suppress_until_ts ≡ m.suppress_until_ts
  unfolding on_tick observed
  on_tick-suppress c now_ms now_ist s m =
      decide-suppress c (read_thresholds c) s (decided_on c now_ms s m)
        (or_else s.snapshot_ts now_ms) now_ist (tick_metrics c now_ms s m) m.held_side m.held_token

abbrev pub signals_after : {F : Type 0} → Option (World F) → Option SignalStore
signals_after none = none
signals_after (some w) = some w.signals

abbrev pub suppress_after : {F : Type 0} → Option (World F) → Option ℤ
suppress_after none = none
suppress_after (some w) = some w.memory.suppress_until_ts

module _ {F : Type 0} ⦃fl : Float F⦄ (mint : Action F → ℤ → String) where
  tick_pass-cooldown :
      (spec : Spec F) (i : Input F) (w : World F)
      → signals_after (tick_pass mint cooldown spec i w) ≡ some w.signals
  unfolding tick_pass
  tick_pass-cooldown spec i w =
      ap some
        (recheck_basket-keeps spec i
          (record w { memory = sync_memory cooldown i.position w.memory })).0

  live-silent :
      (st : VesselState) (spec : Spec F) (i : Input F) (w : World F)
      → acts_in st ≡ false
      → signals_after (live mint st spec i w) ≡ some w.signals
  unfolding live
  live-silent flat spec i w e = cc
  live-silent in_ce spec i w e = cc
  live-silent in_pe spec i w e = cc
  live-silent cooldown spec i w e = tick_pass-cooldown spec i w
  live-silent halted spec i w e = refl

  -- A cooldown that is not over, a halt, the operator's switch and the end of the session all keep the
  -- vessel silent: the pass raises nothing and leaves the signals as they were.
  pub vessel_pass-silent :
      (spec : Spec F) (i : Input F) (w : World F)
      → (i.session_closed ≡ true)
        ⊎ ((is_enabled w.keys ≡ false) ⊎ (acts_in (state_of_pass i w) ≡ false))
      → signals_after (vessel_pass mint spec i w) ≡ some w.signals
  unfolding vessel_pass
  vessel_pass-silent spec i w h = ground (
    arith,
    live-silent (state_of_pass i w) spec i
        (record w { keys = (maybe_exit_cooldown i.now_ms w.keys).1 }),
  )

  apply_action-suppress :
      (spec : Spec F) (now_ms : ℤ) (a : Action F) (w : World F)
      → a.kind ≢ reversal_warn
      → (apply_action mint spec now_ms a w ≡ none)
        ⊎ (suppress_after (apply_action mint spec now_ms a w) ≡ some w.memory.suppress_until_ts)
  unfolding apply_action
  apply_action-suppress spec now_ms a w ne = ground arith

  tick_pass-suppress :
      (st : VesselState) (spec : Spec F) (i : Input F) (w w' : World F)
      → tick_pass mint st spec i w ≡ some w'
      → w'.memory.suppress_until_ts ≡ w.memory.suppress_until_ts
  unfolding tick_pass
  tick_pass-suppress st spec i w w' e =
      let synced = record w { memory = sync_memory st i.position w.memory } in
      let v = recheck_basket spec i synced in
      let s = pass_snapshot spec i v.memory in
      let t = on_tick spec.config i.now_ms i.now_ist s v.memory in
      ground (
        arith,
        sync_memory-suppress st i.position w.memory,
        recheck_basket-keeps spec i synced,
        on_tick-suppress spec.config i.now_ms i.now_ist s v.memory,
        apply_action-suppress spec i.now_ms t.0 (record v { memory = t.1 }),
        on_tick-ne-warn spec.config i.now_ms i.now_ist s v.memory,
      )

  live-suppress :
      (st : VesselState) (spec : Spec F) (i : Input F) (w w' : World F)
      → live mint st spec i w ≡ some w'
      → w'.memory.suppress_until_ts ≡ w.memory.suppress_until_ts
  unfolding live
  live-suppress halted spec i w w' e = ground arith
  live-suppress flat spec i w w' e = tick_pass-suppress flat spec i w w' e
  live-suppress in_ce spec i w w' e = tick_pass-suppress in_ce spec i w w' e
  live-suppress in_pe spec i w w' e = tick_pass-suppress in_pe spec i w w' e
  live-suppress cooldown spec i w w' e = tick_pass-suppress cooldown spec i w w' e

  -- No pass changes the time until which entries are suppressed, whatever the market shows.
  pub vessel_pass-suppress :
      (spec : Spec F) (i : Input F) (w w' : World F)
      → vessel_pass mint spec i w ≡ some w'
      → w'.memory.suppress_until_ts ≡ w.memory.suppress_until_ts
  unfolding vessel_pass
  vessel_pass-suppress spec i w w' e = ground (
    arith,
    live-suppress (state_of_pass i w) spec i
        (record w { keys = (maybe_exit_cooldown i.now_ms w.keys).1 }) w',
  )
