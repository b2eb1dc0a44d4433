-- ===== src/Publisher/Stream.antt =====
-- What publishing adds to the stream of signals.
use pcr_momentum.Base.{
  suc, String, ◌≡◌, ◌⊎◌, inl, inr, refl, false, Option, some, [], ◌∷◌, ◌++◌, arith, Bool-cases,
  Option-cases,
}
use pcr_momentum.Base.Int.{ℤ, pos, ◌≤ℤ◌, leb_ℤ}
use pcr_momentum.Snapshot.{Side}
use pcr_momentum.Strategy.{Action}
use pcr_momentum.Publisher.{
  Signal, SignalIntent, SignalStore, intent_of, has, complete, emit_signal, qty_or_one,
  emit_complete, signal_of,
}

-- Nothing is added, or one signal: for this index, with the action's intent, side, strike and token,
-- a positive quantity, and an id that was not stored.
pub record IsSignalOf {F : Type 0} (index : String) (a : Action F) (s : SignalStore) (sig : Signal)
    : Type 0 where
  pub of_index : sig.index ≡ index
  pub intended : intent_of a.kind ≡ some sig.intent
  pub on_side : a.side ≡ some sig.side
  pub on_strike : a.strike ≡ some sig.strike
  pub on_token : a.instrument_token ≡ some sig.instrument_token
  pub positive : pos 1 ≤ℤ sig.qty_lots
  pub fresh : has sig.sig_id s.stored ≡ false

abbrev pub Grows : {F : Type 0} → String → Action F → SignalStore → SignalStore → Type 0
Grows index a s s' =
    (s' ≡ s)
    ⊎ ((sig : Signal) × IsSignalOf index a s sig
        × (s'.stream ≡ s.stream ++ sig ∷ [])
        × (s'.counter ≡ suc s.counter)
        × (s'.stored ≡ sig.sig_id ∷ s.stored))

complete_parts :
    (side : Option Side) (strike : Option ℤ) (token : Option String) {sd : Side} {st : ℤ}
    {t : String}
    → complete side strike token ≡ some (sd, st, t)
    → (side ≡ some sd) × (strike ≡ some st) × (token ≡ some t)
unfolding complete
complete_parts side strike token e = ground arith

module _ {F : Type 0} (mint : Action F → ℤ → String) where
  emit_complete-Grows :
      (index : String) (a : Action F) (ts : ℤ) (intent : SignalIntent) (s : SignalStore) (sd : Side)
      (st : ℤ) (t : String)
      → intent_of a.kind ≡ some intent
      → (a.side ≡ some sd) × (a.strike ≡ some st) × (a.instrument_token ≡ some t)
      → Grows index a s (emit_complete mint index a ts intent (some (sd, st, t)) s).1
  unfolding emit_complete
  emit_complete-Grows index a ts intent s sd st t k p =
      let sig = signal_of mint index a ts intent sd st t in
      elim (Bool-cases (leb_ℤ (qty_or_one a.qty_lots) (pos 0))) [
        | inl none_wanted ↦ inl (rw none_wanted refl)
        | inr wanted ↦ elim (Bool-cases (has sig.sig_id s.stored)) [
          | inl old ↦ inl (rw (wanted, old) refl)
          | inr new ↦
              rw (wanted, new)
                (inr (
                  sig,
                  record {
                    of_index = refl;
                    intended = k;
                    on_side = p.0;
                    on_strike = p.1;
                    on_token = p.2;
                    positive = ground arith;
                    fresh = new;
                  },
                  refl,
                  refl,
                  refl,
                ))
        ]
      ]

  -- Publishing leaves the store as it is, or appends one signal and counts it: a signal of this index
  -- with the action's own intent, side, strike and token and a positive quantity, whose id was not
  -- stored before.
  pub emit_signal-Grows :
      (index : String) (a : Action F) (ts : ℤ) (s : SignalStore)
      → Grows index a s (emit_signal mint index a ts s).1
  unfolding emit_signal
  emit_signal-Grows index a ts s = elim (Option-cases (intent_of a.kind)) [
    | inl silent ↦ inl (rw silent refl)
    | inr (intent, k) ↦ elim (Option-cases (complete a.side a.strike a.instrument_token)) [
      | inl partial ↦ inl (rw (k, partial) refl)
      | inr ((sd, st, t), whole) ↦
          rw (k, whole)
            (emit_complete-Grows index a ts intent s sd st t k
              (complete_parts a.side a.strike a.instrument_token whole))
    ]
  ]
