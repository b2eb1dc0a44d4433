-- ===== src/Publisher.antt =====
-- backend/engines/strategy/publisher.py: an action becomes a signal on the stream that order execution
-- reads. The keys of Redis that it writes are one record; `mint` stands for the hash of the action
-- and the time, cut to 16 digits.
pub mod Stream
pub mod Fields
use pcr_momentum.Base.{
  ℕ, suc, String, str_eq, eq_iff, Bool, true, false, not, ◌||◌, Option, none, some, List, [], ◌∷◌,
  ◌++◌, any, truthy, if◌then◌else◌,
}
use pcr_momentum.Base.Int.{ℤ, pos, eqb_ℤ, leb_ℤ}
use pcr_momentum.Snapshot.{Side}
use pcr_momentum.Strategy.{Action, ActionKind, no_op, enter, hold, exit, flip, reversal_warn}

pub data SignalIntent : Type 0 where
  fresh_entry reversal_flip manual_exit : SignalIntent

-- `Signal`, without the fields that only carry telemetry.
pub record Signal : Type 0 where
  pub sig_id : String
  pub index : String
  pub side : Side
  pub strike : ℤ
  pub instrument_token : String
  pub intent : SignalIntent
  pub qty_lots : ℤ
  pub score : Option ℕ
  pub decision_ts : ℤ

-- strategy:signals:*, strategy:signals:active, strategy:stream:signals, strategy:signals:counter
pub record SignalStore : Type 0 where
  pub stored : List String
  pub active : List String
  pub stream : List Signal
  pub counter : ℕ

-- How `emit_signal` ends: nothing to send, sent or known already, or the exception that `Signal`
-- raises on a quantity that is not positive.
pub data Emitted : Type 0 where
  nothing : Emitted
  sent : String → Emitted
  invalid : Emitted

abbrev pub intent_of : ActionKind → Option SignalIntent
intent_of enter = some fresh_entry
intent_of flip = some reversal_flip
intent_of exit = some manual_exit
intent_of no_op = none
intent_of hold = none
intent_of reversal_warn = none

abbrev pub has : String → List String → Bool
has t ts = any (λ s. str_eq s t) ts

-- SADD
abbrev pub add_member : String → List String → List String
add_member t ts = if has t ts then ts else t ∷ ts

-- `int(action.qty_lots or 1)`
abbrev pub qty_or_one : Option ℤ → ℤ
qty_or_one none = pos 1
qty_or_one (some (pos ℕ.zero)) = pos 1
qty_or_one (some n) = n

abbrev publish : Signal → SignalStore → Emitted × SignalStore
publish sig s = if has sig.sig_id s.stored then (sent sig.sig_id, s) else (
  sent sig.sig_id,
  record {
    stored = sig.sig_id ∷ s.stored;
    active = add_member sig.sig_id s.active;
    stream = s.stream ++ sig ∷ [];
    counter = suc s.counter;
  },
)

-- Side, strike (not 0) and token (not empty) must be there.
unfoldable pub complete : Option Side → Option ℤ → Option String → Option (Side × ℤ × String)
complete (some side) (some strike) (some token) =
    if eqb_ℤ strike (pos 0) || not (truthy token) then none else some (side, strike, token)
complete _ _ _ = none

module _ {F : Type 0} (mint : Action F → ℤ → String) where
  abbrev pub signal_of : String → Action F → ℤ → SignalIntent → Side → ℤ → String → Signal
  signal_of index a ts_ms intent side strike token = record {
    sig_id = mint a ts_ms;
    index = index;
    side = side;
    strike = strike;
    instrument_token = token;
    intent = intent;
    qty_lots = qty_or_one a.qty_lots;
    score = a.score;
    decision_ts = ts_ms;
  }

  unfoldable pub emit_complete :
      String
      → Action F
      → ℤ
      → SignalIntent
      → Option (Side × ℤ × String)
      → SignalStore
      → Emitted × SignalStore
  emit_complete index a ts_ms intent none s = (nothing, s)
  emit_complete index a ts_ms intent (some (side, strike, token)) s =
      if leb_ℤ (qty_or_one a.qty_lots) (pos 0)
      then (invalid, s)
      else publish (signal_of index a ts_ms intent side strike token) s

  emit_intended : String → Action F → ℤ → Option SignalIntent → SignalStore → Emitted × SignalStore
  unfolding emit_complete complete
  emit_intended index a ts_ms none s = (nothing, s)
  emit_intended index a ts_ms (some intent) s =
      emit_complete index a ts_ms intent (complete a.side a.strike a.instrument_token) s

  unfoldable pub emit_signal : String → Action F → ℤ → SignalStore → Emitted × SignalStore
  unfolding emit_intended
  emit_signal index a ts_ms s = emit_intended index a ts_ms (intent_of a.kind) s
