-- ===== src/Decisions/Timing/Windows.antt =====
-- The window that decides about an entry.
use pcr_momentum.Base.{
  ℕ, ◌≡◌, inl, inr, refl, true, false, not, some, List, [], ◌∷◌, ◌++◌, all, Bool-cases,
  Option-cases, arith, ap,
}
use pcr_momentum.Base.Int.{ℤ, pos, ltb_ℤ}
use pcr_momentum.Decisions.Timing.{TimingWindow, contains_time, current_window, entry_allowed}

-- The window is the first in the list that contains the time.
abbrev pub IsFirst : ℕ → List TimingWindow → TimingWindow → Type 0
IsFirst now ws w =
    (before after : List TimingWindow) × (ws ≡ before ++ w ∷ after)
    × (contains_time now w ≡ true)
    × (all (λ v. not (contains_time now v)) before ≡ true)

IsFirst-cons :
    (now : ℕ) (v w : TimingWindow) (ws : List TimingWindow)
    → contains_time now v ≡ false
    → IsFirst now ws w
    → IsFirst now (v ∷ ws) w
IsFirst-cons now v w ws e (before, after, split, here, none_before) =
    (v ∷ before, after, ap (λ l. v ∷ l) split, here, rw e none_before)

current_window-IsFirst :
    (now : ℕ) (ws : List TimingWindow) (w : TimingWindow)
    → current_window now ws ≡ some w
    → IsFirst now ws w
unfolding current_window
current_window-IsFirst now [] w e = absurd (ground arith)
current_window-IsFirst now (v ∷ ws) w e = elim (Bool-cases (contains_time now v)) [
  | inl here ↦ let same : v ≡ w = ground arith in rw (← same) ([], ws, refl, here, refl)
  | inr elsewhere ↦
      IsFirst-cons now v w ws elsewhere (current_window-IsFirst now ws w (ground arith))
]

module _ (F : Type 0) where
  window_of_entry :
      (now : ℕ) (ws : List TimingWindow) (score : ℕ)
      → (entry_allowed {F = F} now ws score).0 ≡ true
      → (w : TimingWindow) × (least : ℤ) × (current_window now ws ≡ some w)
        × (w.min_score ≡ some least)
        × (ltb_ℤ (pos score) least ≡ false)
  unfolding entry_allowed
  window_of_entry now ws score h = elim (Option-cases (current_window now ws)) [
    | inl outside ↦ absurd (ground arith)
    | inr (w, found) ↦ elim (Option-cases w.min_score) [
      | inl closed ↦ absurd (ground arith)
      | inr (least, minimum) ↦ (w, least, found, minimum, ground arith)
    ]
  ]

  -- An entry is allowed only inside a trading window, at a score that meets the minimum of the first
  -- window that contains the time; a window without a minimum allows none.
  pub entry_allowed-IsFirst :
      (now : ℕ) (ws : List TimingWindow) (score : ℕ)
      → (entry_allowed {F = F} now ws score).0 ≡ true
      → (w : TimingWindow) × (least : ℤ) × IsFirst now ws w
        × (w.min_score ≡ some least)
        × (ltb_ℤ (pos score) least ≡ false)
  entry_allowed-IsFirst now ws score h =
      let (w, least, found, minimum, met) = window_of_entry now ws score h in
      (w, least, current_window-IsFirst now ws w found, minimum, met)
