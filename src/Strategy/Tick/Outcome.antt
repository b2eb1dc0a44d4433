-- ===== src/Strategy/Tick/Outcome.antt =====
-- What a whole tick returns, by whether the vessel holds a position.
use pcr_momentum.Base.{
  ℕ, String, ◌≡◌, ◌≢◌, ◌⊎◌, Bool, true, false, refl, inl, inr, Option, none, some, arith, truthy,
  Bool-cases,
}
use pcr_momentum.Base.Int.{ℤ, ltb_ℤ}
use pcr_momentum.Float.{Float, IsOrdered, IsNum, nought}
use pcr_momentum.Snapshot.{Snapshot, Side}
use pcr_momentum.Metrics.Wall.{or_else}
use pcr_momentum.Strategy.{
  enter, reversal_warn, Metrics, Thresholds, Config, MemoryStore, read_thresholds,
}
use pcr_momentum.Strategy.Tick.{on_tick, decide, observed, tick_metrics}
use pcr_momentum.Strategy.Flat.{decide_flat}
use pcr_momentum.Strategy.Tick.Actions.{
  IsHeldKind, IsFlatKind, Entry, decide_flat-enter, decide_flat-kind, decide_held-kind,
}

-- `memory.held_side and memory.held_token`
abbrev pub is_holding : Option Side → Option String → Bool
is_holding (some side) (some token) = truthy token
is_holding _ _ = false

-- The memory that the decision is made on, after the observation of the snapshot.
abbrev pub decided_on :
    {F : Type 0} ⦃fl : Float F⦄ → Config F → ℤ → Snapshot F → MemoryStore F → MemoryStore F
decided_on c now_ms s memory = observed (read_thresholds c) (or_else s.snapshot_ts now_ms) s memory

module _ {F : Type 0} ⦃fl : Float F⦄ where
  not_suppressed :
      (c : Config F) (th : Thresholds F) (s : Snapshot F) (memory : MemoryStore F) (ts : ℤ)
      (now_ist : ℕ) (metrics : Metrics F)
      → (decide_flat c th s memory ts now_ist metrics).0.kind ≡ enter
      → ltb_ℤ ts memory.suppress_until_ts ≡ false
  unfolding decide_flat
  not_suppressed c th s memory ts now_ist metrics e = ground arith

  decide_kind :
      (c : Config F) (th : Thresholds F) (s : Snapshot F) (memory : MemoryStore F) (ts : ℤ)
      (now_ist : ℕ) (metrics : Metrics F) (side : Option Side) (token : Option String)
      → let k = (decide c th s memory ts now_ist metrics side token).0.kind in
        ((is_holding side token ≡ true) × IsHeldKind k)
        ⊎ ((is_holding side token ≡ false) × IsFlatKind k)
  unfolding decide
  decide_kind c th s memory ts now_ist metrics none token =
      inr (refl, decide_flat-kind c th s memory ts now_ist metrics)
  decide_kind c th s memory ts now_ist metrics (some side) none =
      inr (refl, decide_flat-kind c th s memory ts now_ist metrics)
  decide_kind c th s memory ts now_ist metrics (some side) (some token) =
      elim (Bool-cases (truthy token)) [
        | inl t ↦ inl (t, rw t (decide_held-kind c th s memory side token metrics))
        | inr f ↦ inr (f, rw f (decide_flat-kind c th s memory ts now_ist metrics))
      ]

  -- A vessel that holds a position does nothing, holds, exits or flips; any other does nothing or
  -- enters.
  pub on_tick-kind :
      (c : Config F) (now_ms : ℤ) (now_ist : ℕ) (s : Snapshot F) (memory : MemoryStore F)
      → let k = (on_tick c now_ms now_ist s memory).0.kind in
        ((is_holding memory.held_side memory.held_token ≡ true) × IsHeldKind k)
        ⊎ ((is_holding memory.held_side memory.held_token ≡ false) × IsFlatKind k)
  unfolding on_tick
  on_tick-kind c now_ms now_ist s memory =
      decide_kind c (read_thresholds c) s (decided_on c now_ms s memory)
        (or_else s.snapshot_ts now_ms) now_ist (tick_metrics c now_ms s memory) memory.held_side
        memory.held_token

  -- No tick returns REVERSAL_WARN, the one action on which the runner opens a time without entries.
  pub on_tick-ne-warn :
      (c : Config F) (now_ms : ℤ) (now_ist : ℕ) (s : Snapshot F) (memory : MemoryStore F)
      → (on_tick c now_ms now_ist s memory).0.kind ≢ reversal_warn
  on_tick-ne-warn c now_ms now_ist s memory e =
      ground (arith, on_tick-kind c now_ms now_ist s memory)

  decide-enter :
      (o : IsOrdered F) (c : Config F) (th : Thresholds F) (s : Snapshot F) (memory : MemoryStore F)
      (ts : ℤ) (now_ist : ℕ) (metrics : Metrics F) (side : Option Side) (token : Option String)
      → IsNum {F = F} nought
      → (decide c th s memory ts now_ist metrics side token).0.kind ≡ enter
      → (ltb_ℤ ts memory.suppress_until_ts ≡ false)
        × Entry th s memory now_ist (decide c th s memory ts now_ist metrics side token).0
  unfolding decide
  decide-enter o c th s memory ts now_ist metrics none token n e = (
    not_suppressed c th s memory ts now_ist metrics e,
    decide_flat-enter o c th s memory ts now_ist metrics n e,
  )
  decide-enter o c th s memory ts now_ist metrics (some side) none n e = (
    not_suppressed c th s memory ts now_ist metrics e,
    decide_flat-enter o c th s memory ts now_ist metrics n e,
  )
  decide-enter o c th s memory ts now_ist metrics (some side) (some token) n e =
      elim (Bool-cases (truthy token)) [
        | inl t ↦ absurd (ground (arith, decide_held-kind c th s memory side token metrics))
        | inr f ↦
            let k : (decide_flat c th s memory ts now_ist metrics).0.kind ≡ enter = rw f at e in
            rw f (
              not_suppressed c th s memory ts now_ist metrics k,
              decide_flat-enter o c th s memory ts now_ist metrics n k,
            )
      ]

  -- With floats that are ordered like doubles, and 0 a number: a tick enters only if no position is held, the suppression is over, and the dominant strike of the
  -- side that the net pressure names passes every gate: its wall is gone or being absorbed, its
  -- spread good or moderate, its score at least 5, and the time of day allows that score. The order
  -- is for at least one lot of that strike.
  pub on_tick-enter :
      (o : IsOrdered F) (c : Config F) (now_ms : ℤ) (now_ist : ℕ) (s : Snapshot F)
      (memory : MemoryStore F)
      → IsNum {F = F} nought
      → (on_tick c now_ms now_ist s memory).0.kind ≡ enter
      → (is_holding memory.held_side memory.held_token ≡ false)
        × (ltb_ℤ (or_else s.snapshot_ts now_ms) memory.suppress_until_ts ≡ false)
        × Entry
            (read_thresholds c)
            s
            (decided_on c now_ms s memory)
            now_ist
            (on_tick c now_ms now_ist s memory).0
  unfolding on_tick
  on_tick-enter o c now_ms now_ist s memory n e =
      let (fresh, entry) =
        decide-enter o c (read_thresholds c) s (decided_on c now_ms s memory)
          (or_else s.snapshot_ts now_ms) now_ist (tick_metrics c now_ms s memory) memory.held_side
          memory.held_token n e in
      (ground (arith, on_tick-kind c now_ms now_ist s memory), fresh, entry)
