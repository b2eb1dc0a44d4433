-- ===== src/Vessel.antt =====
-- backend/engines/strategy/strategies/bid_ask_imbalance/state.py: the state machine of a vessel, one
-- strategy on one index. Its keys in Redis are one record; the clock is an argument.
pub mod Router
pub mod Cooldown
pub mod Runner
use pcr_momentum.Base.{
  ℕ, suc, String, str_eq, Bool, true, false, ◌||◌, Option, none, some, if◌then◌else◌,
}
use pcr_momentum.Base.Int.{ℤ, pos, ◌+ℤ◌, ◌*ℤ◌, leb_ℤ}

pub data VesselState : Type 0 where
  flat in_ce in_pe cooldown halted : VesselState

abbrev pub state_name : VesselState → String
state_name flat = "FLAT"
state_name in_ce = "IN_CE"
state_name in_pe = "IN_PE"
state_name cooldown = "COOLDOWN"
state_name halted = "HALTED"

-- The vessel's keys. `until` is `cooldown_until_ts` as `int` reads it, none where that fails;
-- `enabled` is the text "true" in any case of letters.
pub record VesselKeys : Type 0 where
  pub state : Option String
  pub until : Option ℤ
  pub reason : String
  pub enabled : Bool

-- A text that names no state counts as FLAT.
abbrev state_of : String → VesselState
state_of s =
    if str_eq s "IN_CE"
    then in_ce
    else if str_eq s "IN_PE"
    then in_pe
    else if str_eq s "COOLDOWN"
    then cooldown
    else if str_eq s "HALTED"
    then halted
    else flat

abbrev state_or_flat : Option String → VesselState
state_or_flat none = flat
state_or_flat (some s) = state_of s

unfoldable pub read_state : VesselKeys → VesselState
read_state k = state_or_flat k.state

unfoldable pub set_state : VesselState → VesselKeys → VesselKeys
set_state s k = record k { state = some (state_name s) }

unfoldable pub enter_cooldown : ℤ → String → ℤ → VesselKeys → VesselKeys
enter_cooldown now_ms reason duration_sec k = record k {
  state = some (state_name cooldown);
  until = some (now_ms +ℤ duration_sec *ℤ pos 1000);
  reason = reason;
}

abbrev or_zero : Option ℤ → ℤ
or_zero none = pos 0
or_zero (some n) = n

abbrev is_over : ℤ → ℤ → Bool
is_over until now_ms = leb_ℤ until (pos 0) || leb_ℤ until now_ms

abbrev leave_if_over : VesselState → ℤ → VesselKeys → Bool × VesselKeys
leave_if_over cooldown now_ms k =
    if is_over (or_zero k.until) now_ms
    then (true, record k { state = some (state_name flat) })
    else (false, k)
leave_if_over _ now_ms k = (false, k)

unfoldable pub maybe_exit_cooldown : ℤ → VesselKeys → Bool × VesselKeys
unfolding read_state
maybe_exit_cooldown now_ms k = leave_if_over (read_state k) now_ms k

unfoldable pub halt : String → VesselKeys → VesselKeys
halt reason k = record k { state = some (state_name halted); reason = reason }

unfoldable pub is_enabled : VesselKeys → Bool
is_enabled k = k.enabled
