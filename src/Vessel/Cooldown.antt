-- ===== src/Vessel/Cooldown.antt =====
-- The keys of a vessel as a state machine: what is written is read back, and a cooldown lasts until
-- its deadline.
use pcr_momentum.Base.{String, ◌≡◌, refl, true, false, arith, ◌||◌}
use pcr_momentum.Base.Int.{ℤ, pos, ◌+ℤ◌, ◌*ℤ◌, ltb_ℤ, leb_ℤ}
use pcr_momentum.Vessel.{
  VesselState, VesselKeys, flat, in_ce, in_pe, cooldown, halted, read_state, set_state,
  enter_cooldown, maybe_exit_cooldown, is_enabled,
}

-- Reading the state gives the state that was written last, and writing it changes neither the
-- deadline nor the switch that enables the vessel.
pub set_state-read_state :
    (s : VesselState) (k : VesselKeys)
    → (read_state (set_state s k) ≡ s)
      × ((set_state s k).until ≡ k.until)
      × (is_enabled (set_state s k) ≡ is_enabled k)
unfolding set_state read_state is_enabled
set_state-read_state flat k = (refl, refl, refl)
set_state-read_state in_ce k = (refl, refl, refl)
set_state-read_state in_pe k = (refl, refl, refl)
set_state-read_state cooldown k = (refl, refl, refl)
set_state-read_state halted k = (refl, refl, refl)

-- A cooldown whose deadline is a positive time lasts until then: a check before the deadline changes
-- nothing and the vessel still reads COOLDOWN; a check from the deadline on reports the change, the
-- vessel reads FLAT, and a further check reports none.
pub enter_cooldown-lasts :
    (start duration_sec now_ms : ℤ) (reason : String) (k : VesselKeys)
    → ltb_ℤ (pos 0) (start +ℤ duration_sec *ℤ pos 1000) ≡ true
    → let cooling = enter_cooldown start reason duration_sec k in
      let checked = maybe_exit_cooldown now_ms cooling in
      (read_state cooling ≡ cooldown)
      × (ltb_ℤ now_ms (start +ℤ duration_sec *ℤ pos 1000) ≡ true → checked ≡ (false, cooling))
      × (leb_ℤ (start +ℤ duration_sec *ℤ pos 1000) now_ms ≡ true
          → (checked.0 ≡ true)
            × (read_state checked.1 ≡ flat)
            × ((maybe_exit_cooldown now_ms checked.1).0 ≡ false))
unfolding enter_cooldown maybe_exit_cooldown read_state
enter_cooldown-lasts start duration_sec now_ms reason k h = (
  refl,
  (λ early. ground arith),
  (λ late.
      let o : leb_ℤ (start +ℤ duration_sec *ℤ pos 1000) (pos 0)
            || leb_ℤ (start +ℤ duration_sec *ℤ pos 1000) now_ms
          ≡ true =
        ground arith in
      rw o (refl, refl, refl)),
)
