-- ===== src/Exec/Dispatcher.antt =====
-- backend/engines/order_exec/dispatcher.py: entries of strategy:stream:signals become signals for the
-- workers, or flags that ask for an exit. Python's conversions between numbers and texts, `str.lower`
-- and pydantic's reading of a datetime and of the score's breakdown are parameters. Fields that only
-- carry telemetry are left out.
pub mod Stream
pub mod Acks
use pcr_momentum.Base.{
  ℕ, zero, suc, String, str_eq, Bool, true, false, not, ◌&&◌, ◌||◌, Option, none, some, List, [],
  ◌∷◌, ◌++◌, truthy, if◌then◌else◌,
}
use pcr_momentum.Base.Int.{ℤ, pos, leb_ℤ, eqb_ℤ}
use pcr_momentum.Base.Dict.{Dict, get, put}
use Prim.Native.String.{◌++◌ as append}
use pcr_momentum.Float.{Float}
use pcr_momentum.Snapshot.{Side, ce, pe}
use pcr_momentum.Publisher.{SignalIntent, fresh_entry, reversal_flip, manual_exit, Signal}

pub record Texts : Type 0 where
  -- `str(n)` and `int(s)`; none where it raises.
  pub print_int : ℤ → String
  pub parse_int : String → Option ℤ
  pub lower : String → String
  pub is_datetime : String → Bool
  -- No object, or one that holds integers.
  pub is_breakdown : String → Bool

-- `Signal`, as the dispatcher builds it.
pub record Received (F : Type 0) : Type 0 where
  pub sig_id : String
  pub strategy_id : String
  pub instrument_id : String
  pub index : String
  pub side : Side
  pub strike : ℤ
  pub instrument_token : String
  pub intent : SignalIntent
  pub qty_lots : ℤ
  pub score : Option F
  pub decision_ts : ℤ
  pub ts : String

infixl 5 ◌>>=◌
abbrev pub ◌>>=◌ {ℓ κ} : {A : Type ℓ} {B : Type κ} → Option A → (A → Option B) → Option B
none >>= f = none
some a >>= f = f a

-- Literal["nifty50", "banknifty", "sensex"]
abbrev pub known_index : String → Bool
known_index s = str_eq s "nifty50" || str_eq s "banknifty" || str_eq s "sensex"

abbrev pub side_of : String → Option Side
side_of s = if str_eq s "CE" then some ce else if str_eq s "PE" then some pe else none

abbrev pub intent_of_text : String → Option SignalIntent
intent_of_text s =
    if str_eq s "FRESH_ENTRY"
    then some fresh_entry
    else if str_eq s "REVERSAL_FLIP"
    then some reversal_flip
    else if str_eq s "MANUAL_EXIT"
    then some manual_exit
    else none

abbrev pub text_or : Option String → String → String
text_or none default = default
text_or (some s) default = s

-- `payload.get(k) or rest`
abbrev pub or_text : Option String → String → String
or_text none rest = rest
or_text (some s) rest = if truthy s then s else rest

-- `x or now`
abbrev pub or_now : Option ℤ → ℤ → ℤ
or_now none now = now
or_now (some n) now = if eqb_ℤ n (pos 0) then now else n

-- `Signal.model_validate` on the fields that can be refused.
unfoldable pub validate : {F : Type 0} → Texts → String → Received F → Option (Received F)
validate tx breakdown sig =
    if known_index sig.instrument_id
      && known_index sig.index
      && not (leb_ℤ sig.qty_lots (pos 0))
      && tx.is_datetime sig.ts
      && tx.is_breakdown breakdown
    then some sig
    else none

-- A text that stands for no value.
abbrev pub is_none_word : Texts → String → Bool
is_none_word tx s =
    not (truthy s)
    || str_eq (tx.lower s) "none"
    || str_eq (tx.lower s) "null"
    || str_eq (tx.lower s) ""

abbrev pub floated : {F : Type 0} ⦃fl : Float F⦄ → Texts → String → Option F
floated ⦃fl⦄ tx s = if is_none_word tx s then none else fl.parse s

-- A finite number; an infinite one, whose OverflowError drops the signal, is left out.
unfoldable pub opt_int : (F : Type 0) ⦃fl : Float F⦄ → Texts → Dict String → String → Option ℤ
opt_int F ⦃fl⦄ tx payload k = get k payload >>= floated tx >>= fl.trunc

module _ {F : Type 0} ⦃fl : Float F⦄ (tx : Texts) where
  unfoldable pub opt_float : Dict String → String → Option F
  opt_float payload k = get k payload >>= floated tx

  -- none where the conversions raise or pydantic refuses a field; `now` is the clock.
  unfoldable pub signal_from_payload : ℤ → Dict String → Option (Received F)
  unfolding opt_float opt_int
  signal_from_payload now payload = do
    let instrument_id =
        or_text (get "instrument_id" payload) (text_or (get "index" payload) "nifty50")
    let index = or_text (get "index" payload) instrument_id
    sig_id ← get "sig_id" payload
    side_text ← get "side" payload
    strike_text ← get "strike" payload
    strike ← tx.parse_int strike_text
    instrument_token ← get "instrument_token" payload
    intent_text ← get "intent" payload
    qty_text ← get "qty_lots" payload
    qty_lots ← tx.parse_int qty_text
    ts ← get "ts" payload
    side ← side_of side_text
    intent ← intent_of_text intent_text
    validate tx (text_or (get "score_breakdown" payload) "") (record {
      sig_id = sig_id;
      strategy_id = text_or (get "strategy_id" payload) "bid_ask_imbalance_v1";
      instrument_id = instrument_id;
      index = index;
      side = side;
      strike = strike;
      instrument_token = instrument_token;
      intent = intent;
      qty_lots = qty_lots;
      score = opt_float payload "score";
      decision_ts = or_now (opt_int F tx payload "decision_ts") now;
      ts = ts;
    })

-- What the dispatcher works on: the workers' queue, the acknowledged entries, current_position_id by
-- index, and the exit_pull flags by position.
pub record Desk (F : Type 0) : Type 0 where
  pub queue : List (Received F)
  pub acked : List String
  pub current_position : Dict String
  pub exit_pull : Dict String

-- `s[:n]`
abbrev pub cut : ℕ → String → String
cut zero s = String.[]
cut (suc n) String.[] = String.[]
cut (suc n) (String.◌∷◌ c s) = String.◌∷◌ c (cut n s)

abbrev pub is_exit : SignalIntent → Bool
is_exit manual_exit = true
is_exit _ = false

module _ {F : Type 0} where
  abbrev acknowledged : String → Desk F → Desk F
  acknowledged id d = record d { acked = d.acked ++ id ∷ [] }

  abbrev flagged : String → Dict String → Desk F → Desk F
  flagged pos_id payload d =
      if truthy pos_id
      then (record d {
        exit_pull =
            put pos_id
              (append "STRATEGY_EXIT:"
                (cut 120 (or_text (get "reason" payload) "strategy_request")))
              d.exit_pull;
      })
      else d

  abbrev routed : Dict String → Received F → Desk F → Desk F
  routed payload sig d =
      if is_exit sig.intent
      then flagged (text_or (get sig.index d.current_position) "") payload d
      else record d { queue = d.queue ++ sig ∷ [] }

  abbrev handled : Dict String → Option (Received F) → Desk F → Desk F
  handled payload none d = d
  handled payload (some sig) d = routed payload sig d

module _ {F : Type 0} ⦃fl : Float F⦄ (tx : Texts) where
  -- One entry of the stream, with its id.
  unfoldable pub dispatch : ℤ → String × Dict String → Desk F → Desk F
  unfolding signal_from_payload
  dispatch now (id, payload) d =
      acknowledged id (handled payload (signal_from_payload tx now payload) d)

  unfoldable pub dispatch_entries : ℤ → List (String × Dict String) → Desk F → Desk F
  unfolding dispatch
  dispatch_entries now [] d = d
  dispatch_entries now (entry ∷ entries) d = dispatch_entries now entries (dispatch now entry d)

  -- The replies of XREADGROUP until the shutdown, each with the clock; none where the read fails.
  unfoldable pub dispatcher_loop : List (ℤ × Option (List (String × Dict String))) → Desk F → Desk F
  unfolding dispatch_entries
  dispatcher_loop [] d = d
  dispatcher_loop ((now, none) ∷ replies) d = dispatcher_loop replies d
  dispatcher_loop ((now, some entries) ∷ replies) d =
      dispatcher_loop replies (dispatch_entries now entries d)
