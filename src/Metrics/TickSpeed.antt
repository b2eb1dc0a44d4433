-- ===== src/Metrics/TickSpeed.antt =====
-- metrics/tick_speed.py: the length of the latest run of rising (or falling) prices.
use pcr_momentum.Base.{ℕ, suc, Bool, Option, none, some, List, [], ◌∷◌, if◌then◌else◌}
use mathlib.Core.List.{reverse}
use pcr_momentum.Base.Int.{ℤ, ltb_ℤ, ◌-ℤ◌}
use pcr_momentum.Float.{Float, ◌<f◌, ◌>f◌}
use pcr_momentum.Buffer.{StrikeBuffer, TickObservation, last_n}

-- `maxlen or 50`
abbrev pub or_fifty : ℕ → ℕ
or_fifty ℕ.zero = 50
or_fifty n = n

module _ {F : Type 0} ⦃fl : Float F⦄ where
  abbrev extends : (F → F → Bool) → ℤ → F → TickObservation F → Option F → Option F
  extends beyond cutoff last_ltp o none = none
  extends beyond cutoff last_ltp o (some ltp) =
      if ltb_ℤ o.ts cutoff then none else if beyond ltp last_ltp then some ltp else none

  -- The loop over the older observations, the newest first: it stops at the first that does not
  -- extend the run. `beyond` is `obs.ltp < last_ltp` for upticks.
  unfoldable pub run_length : (F → F → Bool) → ℤ → F → List (TickObservation F) → ℕ
  run_length beyond cutoff last_ltp [] = 0
  run_length beyond cutoff last_ltp (o ∷ older) = elim (extends beyond cutoff last_ltp o o.ltp) [
    | none ↦ 0
    | some ltp ↦ suc (run_length beyond cutoff ltp older)
  ]

  abbrev streak_from :
      (F → F → Bool) → ℤ → TickObservation F → Option F → List (TickObservation F) → ℕ
  streak_from beyond window_ms head none older = 0
  streak_from beyond window_ms head (some ltp) older =
      suc (run_length beyond (head.ts -ℤ window_ms) ltp older)

  unfoldable pub streak : (F → F → Bool) → ℤ → List (TickObservation F) → ℕ
  unfolding run_length
  streak beyond window_ms [] = 0
  streak beyond window_ms (head ∷ older) = streak_from beyond window_ms head head.ltp older

  unfoldable pub consecutive_upticks : StrikeBuffer F → ℤ → ℕ
  unfolding streak last_n
  consecutive_upticks buffer window_ms =
      streak (λ x y. x <f y) window_ms (reverse (last_n buffer 50))

  unfoldable pub consecutive_downticks : StrikeBuffer F → ℤ → ℕ
  unfolding streak last_n
  consecutive_downticks buffer window_ms =
      streak (λ x y. x >f y) window_ms (reverse (last_n buffer (or_fifty buffer.maxlen)))
