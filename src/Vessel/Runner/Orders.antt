-- ===== src/Vessel/Runner/Orders.antt =====
-- The orders of a flat vessel.
use pcr_momentum.Base.{
  String, ◌≡◌, ◌⊎◌, inl, inr, refl, false, some, Bool-cases, [], ◌∷◌, ◌++◌, arith, ap, ◌∙◌, sym,
}
use pcr_momentum.Base.Int.{ℤ, pos, ◌≤ℤ◌}
use pcr_momentum.Float.{Float}
use pcr_momentum.Strategy.{Action}
use pcr_momentum.Strategy.Tick.{on_tick}
use pcr_momentum.Strategy.Tick.Actions.{IsFlatKind}
use pcr_momentum.Strategy.Tick.Outcome.{on_tick-kind, is_holding}
use pcr_momentum.Publisher.{Signal, SignalStore, fresh_entry, emit_signal}
use pcr_momentum.Publisher.Stream.{emit_signal-Grows, Grows}
use pcr_momentum.Vessel.{flat, maybe_exit_cooldown, is_enabled}
use pcr_momentum.Vessel.Runner.{
  Input, Spec, World, apply_action, sync_memory, recheck_basket, pass_snapshot, live, tick_pass,
  vessel_pass,
}
use pcr_momentum.Vessel.Runner.Safety.{recheck_basket-keeps, sync_memory-flat, state_of_pass}

-- Nothing new, or one order to enter.
abbrev pub OnlyEnters : String → SignalStore → SignalStore → Type 0
OnlyEnters index s s' =
    (s'.stream ≡ s.stream)
    ⊎ ((sig : Signal) × (s'.stream ≡ s.stream ++ sig ∷ [])
        × (sig.intent ≡ fresh_entry)
        × (sig.index ≡ index)
        × (pos 1 ≤ℤ sig.qty_lots))

module _ {F : Type 0} ⦃fl : Float F⦄ (mint : Action F → ℤ → String) where
  entering :
      (index : String) (a : Action F) (s s' : SignalStore)
      → IsFlatKind a.kind
      → Grows index a s s'
      → OnlyEnters index s s'
  entering index a s s' k (inl same) = inl (ap (λ t. t.stream) same)
  entering index a s s' k (inr (sig, i, grown, counted, stored)) =
      inr (sig, grown, ground (arith, i.intended), i.of_index, i.positive)

  apply_action-signals :
      (spec : Spec F) (now_ms : ℤ) (a : Action F) (w w' : World F)
      → apply_action mint spec now_ms a w ≡ some w'
      → (w'.signals ≡ w.signals)
        ⊎ (w'.signals ≡ (emit_signal mint spec.instrument_id a now_ms w.signals).1)
  unfolding apply_action
  apply_action-signals spec now_ms a w w' e = ground arith

  apply_action-flat :
      (spec : Spec F) (now_ms : ℤ) (a : Action F) (w w' : World F)
      → IsFlatKind a.kind
      → apply_action mint spec now_ms a w ≡ some w'
      → OnlyEnters spec.instrument_id w.signals w'.signals
  apply_action-flat spec now_ms a w w' k e = elim (apply_action-signals spec now_ms a w w' e) [
    | inl same ↦ inl (ap (λ t. t.stream) same)
    | inr emitted ↦
        entering spec.instrument_id a w.signals w'.signals k
          (rw emitted (emit_signal-Grows mint spec.instrument_id a now_ms w.signals))
  ]

  tick_pass-flat :
      (spec : Spec F) (i : Input F) (w w' : World F)
      → tick_pass mint flat spec i w ≡ some w'
      → OnlyEnters spec.instrument_id w.signals w'.signals
  unfolding tick_pass
  tick_pass-flat spec i w w' e =
      let synced = record w { memory = sync_memory flat i.position w.memory } in
      let v = recheck_basket spec i synced in
      let s = pass_snapshot spec i v.memory in
      let t = on_tick spec.config i.now_ms i.now_ist s v.memory in
      let keeps = recheck_basket-keeps spec i synced in
      let idle : is_holding v.memory.held_side v.memory.held_token ≡ false =
        rw (keeps.1, keeps.2) (sync_memory-flat i.position w.memory) in
      let k : IsFlatKind t.0.kind =
        ground (arith, idle, on_tick-kind spec.config i.now_ms i.now_ist s v.memory) in
      rw (← keeps.0) (apply_action-flat spec i.now_ms t.0 (record v { memory = t.1 }) w' k e)

  -- A pass of a flat vessel sends nothing, or one order: a fresh entry for this vessel's index, of at
  -- least one lot. It never asks for an exit or a flip.
  pub vessel_pass-flat :
      (spec : Spec F) (i : Input F) (w w' : World F)
      → state_of_pass i w ≡ flat
      → vessel_pass mint spec i w ≡ some w'
      → OnlyEnters spec.instrument_id w.signals w'.signals
  unfolding vessel_pass live
  vessel_pass-flat spec i w w' st e =
      let opened = record w { keys = (maybe_exit_cooldown i.now_ms w.keys).1 } in
      let passed : live mint (state_of_pass i w) spec i opened ≡ tick_pass mint flat spec i opened =
        rw st refl in
      elim (Bool-cases i.session_closed) [
        | inl closed ↦ inl (ground arith)
        | inr open_session ↦ elim (Bool-cases (is_enabled w.keys)) [
          | inl enabled ↦
              let ran : live mint (state_of_pass i w) spec i opened ≡ some w' = ground arith in
              tick_pass-flat spec i opened w' (sym passed ∙ ran)
          | inr disabled ↦ inl (ground arith)
        ]
      ]
