-- ===== src/Exec/Allocator/Runs.antt =====
-- Many clients at once: retries of one call, and interleavings of whole transactions.
use mathlib.Core.Path.{subst}
use pcr_momentum.Base.{
  false, ℕ, zero, suc, String, str_eq, ◌≡◌, ◌⊎◌, inl, inr, Bool, refl, true, List, [], ◌∷◌, arith,
  length,
}
use pcr_momentum.Base.Int.{ℤ, pos, ◌≤ℤ◌}
use pcr_momentum.Float.{Float}
use pcr_momentum.Exec.Allocator.{
  Allocator, Verdict, reserved, already_open_on_index, max_concurrent_reached, insufficient_capital,
  is_member, reserve_txn, release, Attempt, commits, watch_error, fails, reply_lost, attempt,
  check_and_reserve,
}
use pcr_momentum.Exec.Allocator.Caps.{
  IsCounted, Outcome, reserve_txn-Outcome, reserve_txn-IsCounted, release-IsCounted, length-srem,
}

Attempt-cases :
    {F : Type 0} (o : Attempt F)
    → (o ≡ commits) ⊎ (((a : Allocator F) × (o ≡ watch_error a)) ⊎ ((o ≡ fails) ⊎ (o ≡ reply_lost)))
Attempt-cases commits = inl refl
Attempt-cases (watch_error a) = inr (inl (a, refl))
Attempt-cases fails = inr (inr (inl refl))
Attempt-cases reply_lost = inr (inr (inr refl))

-- However the attempts end, one whole transaction ran on what the others left, or none did.
module _ {F : Type 0} ⦃fl : Float F⦄ where
  -- The allocator that the last attempt meets.
  unfoldable pub met : ℕ → (ℕ → Attempt F) → Allocator F → Allocator F
  met zero outcome a = a
  met (suc left) outcome a = elim (outcome left) [
    | commits ↦ a
    | watch_error others ↦ met left outcome others
    | fails ↦ a
    | reply_lost ↦ a
  ]

  abbrev pub is_lost : Attempt F → Bool
  is_lost reply_lost = true
  is_lost _ = false

  -- With the effect and the verdict of the transaction on the allocator that is met; without an effect
  -- and with an error; or with the effect, and an error since the reply was lost.
  abbrev pub AttemptOutcome :
      (ℕ → Attempt F) → Allocator F → Verdict × Allocator F → Verdict × Allocator F → Type 0
  AttemptOutcome outcome b t r =
      (r ≡ t)
      ⊎ ((r ≡ (Verdict.allocator_error, b))
          ⊎ ((r ≡ (Verdict.retry_exhausted, b))
              ⊎ ((r ≡ (Verdict.allocator_error, t.1)) × (n : ℕ) × (is_lost (outcome n) ≡ true))))

  attempt-AttemptOutcome :
      (n : ℕ) (outcome : ℕ → Attempt F) (index : String) (premium capital : F) (limit : ℤ)
      (a : Allocator F)
      → let b = met n outcome a in
        AttemptOutcome outcome b
          (reserve_txn index premium capital limit b)
          (attempt n outcome index premium capital limit a)
  unfolding attempt met
  attempt-AttemptOutcome zero outcome index premium capital limit a = inr (inr (inl refl))
  attempt-AttemptOutcome (suc n) outcome index premium capital limit a =
      elim (Attempt-cases (outcome n)) [
        | inl e ↦ rw (e, attempt, met) (inl refl)
        | inr (inl (others, e)) ↦
            rw (e, attempt, met)
              (attempt-AttemptOutcome n outcome index premium capital limit others)
        | inr (inr (inl e)) ↦ rw (e, attempt, met) (inr (inl refl))
        | inr (inr (inr e)) ↦ rw (e, attempt, met) (inr (inr (inr (refl, n, rw e refl))))
      ]

  pub check_and_reserve-AttemptOutcome :
      (outcome : ℕ → Attempt F) (index : String) (premium capital : F) (limit : ℤ) (a : Allocator F)
      → let b = met 5 outcome a in
        AttemptOutcome outcome b
          (reserve_txn index premium capital limit b)
          (check_and_reserve outcome index premium capital limit a)
  unfolding check_and_reserve
  check_and_reserve-AttemptOutcome outcome index premium capital limit a =
      attempt-AttemptOutcome 5 outcome index premium capital limit a

  -- No other client comes between, and no reply is lost.
  abbrev pub is_alone : Attempt F → Bool
  is_alone commits = true
  is_alone fails = true
  is_alone _ = false

  pub met-alone :
      (n : ℕ) (outcome : ℕ → Attempt F) (a : Allocator F)
      → ((k : ℕ) → is_alone (outcome k) ≡ true)
      → met n outcome a ≡ a
  unfolding met
  met-alone zero outcome a h = refl
  met-alone (suc n) outcome a h =
      let hn = h n in
      elim (Attempt-cases (outcome n)) [
        | inl e ↦ rw (e, met) refl
        | inr (inl (others, e)) ↦ absurd (ground arith)
        | inr (inr (inl e)) ↦ rw (e, met) refl
        | inr (inr (inr e)) ↦ rw (e, met) refl
      ]

-- What the workers do to the allocator, one whole transaction after another.
pub data Step (F : Type 0) : Type 0 where
  reserve : String → F → Step F
  free : String → F → Step F

module _ {F : Type 0} ⦃fl : Float F⦄ (capital : F) (limit : ℤ) where
  abbrev pub step : Step F → Allocator F → Allocator F
  step (reserve index premium) a = (reserve_txn index premium capital limit a).1
  step (free index premium) a = (release true index premium a).1

  -- The name of the totals is no index, and only what is open is released.
  abbrev pub IsProper : Step F → Allocator F → Type 0
  IsProper (reserve index premium) a = str_eq index "total" ≡ false
  IsProper (free index premium) a =
      (str_eq index "total" ≡ false) × (is_member index a.open_symbols ≡ true)

  abbrev pub run : List (Step F) → Allocator F → Allocator F
  run [] a = a
  run (s ∷ ss) a = run ss (step s a)

  abbrev pub AreProper : List (Step F) → Allocator F → Type 0
  AreProper [] a = Unit
  AreProper (s ∷ ss) a = IsProper s a × AreProper ss (step s a)

  -- Counted, and within the limit.
  abbrev pub IsCapped : Allocator F → Type 0
  IsCapped a = IsCounted a × (pos (length a.open_symbols) ≤ℤ limit)

  outcome_capped :
      (index : String) (premium : F) (a : Allocator F) (r : Verdict × Allocator F)
      → Outcome index premium capital limit a r
      → IsCounted r.1
      → pos (length a.open_symbols) ≤ℤ limit
      → pos (length r.1.open_symbols) ≤ℤ limit
  outcome_capped index premium a (reserved, a') o c h = subst (λ n. n ≤ℤ limit) c.counted o.1
  outcome_capped index premium a (already_open_on_index, a') o c h = rw o.0 h
  outcome_capped index premium a (max_concurrent_reached, a') o c h = rw o.0 h
  outcome_capped index premium a (insufficient_capital, a') o c h = rw o.0 h
  outcome_capped index premium a (Verdict.allocator_error, a') o c h = absurd o
  outcome_capped index premium a (Verdict.retry_exhausted, a') o c h = absurd o

  length_after :
      (index : String) (premium : F) (a : Allocator F)
      → str_eq index "total" ≡ false
      → IsCapped a
      → pos (length (reserve_txn index premium capital limit a).1.open_symbols) ≤ℤ limit
  length_after index premium a ne c =
      outcome_capped index premium a (reserve_txn index premium capital limit a)
        (reserve_txn-Outcome index premium capital limit a ne)
        (reserve_txn-IsCounted index premium capital limit a ne c.0) c.1

  step-IsCapped : (s : Step F) (a : Allocator F) → IsProper s a → IsCapped a → IsCapped (step s a)
  unfolding release
  step-IsCapped (reserve index premium) a p c =
      (reserve_txn-IsCounted index premium capital limit a p c.0, length_after index premium a p c)
  step-IsCapped (free index premium) a p c = (
    release-IsCounted index premium a p.0 p.1 c.0,
    omega (arith, length-srem index a.open_symbols c.0.distinct p.1, c.1),
  )

  -- However reservations and releases interleave, as long as no index is named like the totals and
  -- only open indexes are released: if no index is open twice, the total counts the open ones, and they
  -- are within the limit, then so it stays.
  pub run-IsCapped :
      (ss : List (Step F)) (a : Allocator F) → AreProper ss a → IsCapped a → IsCapped (run ss a)
  run-IsCapped [] a p c = c
  run-IsCapped (s ∷ ss) a p c = run-IsCapped ss (step s a) p.1 (step-IsCapped s a p.0 c)
