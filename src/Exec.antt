-- ===== src/Exec.antt =====
-- backend/engines/order_exec/ and the schema of a position: what happens to a signal once the strategy
-- has published it.
pub mod ExitEval
pub mod Allocator
pub mod Gate
pub mod Events
pub mod Entry
pub mod ExitSubmit
pub mod Worker
pub mod Dispatcher
use pcr_momentum.Base.{
  ℕ, String, str_eq, Bool, true, false, Option, none, some, List, [], ◌∷◌, if◌then◌else◌,
}
use pcr_momentum.Base.Int.{ℤ}
use pcr_momentum.Snapshot.{Side}

-- backend/state/schemas/position.py
pub data ExitReason : Type 0 where
  hard_sl hard_target trailing_sl reversal_flip time_exit eod liquidity daily_loss_circuit manual
        strategy_exit :
      ExitReason

-- The fields of a position that the engine computes with. Times are milliseconds since the epoch,
-- and a time of day is its minutes, which order as the texts "HH:MM" do.
pub record Position (F : Type 0) : Type 0 where
  pub pos_id : String
  pub sig_id : String
  pub index : String
  pub side : Side
  pub strike : ℤ
  pub instrument_token : String
  pub qty : ℤ
  pub entry_order_id : String
  pub entry_price : F
  pub entry_ts_ms : ℕ
  pub sl_level : F
  pub target_level : F
  pub tsl_armed : Bool
  pub tsl_arm_pct : F
  pub tsl_trail_pct : F
  pub tsl_level : Option F
  pub peak_premium : F
  pub current_premium : F
  pub pnl : F
  pub pnl_pct : F
  pub holding_seconds : ℕ
  pub max_hold_sec : ℕ

-- A leaf of the option chain as the engine reads it: each number is `float(leaf.get(key) or 0)`.
pub record Quote (F : Type 0) : Type 0 where
  pub token : String
  pub ltp : F
  pub bid : F
  pub ask : F

-- The option chain of an index: per strike its CE and its PE side, none where a side is missing.
abbrev pub QuoteChain : Type 0 → Type 0
QuoteChain F = List (Option (Quote F) × Option (Quote F))

abbrev has_token : {F : Type 0} → String → Option (Quote F) → Bool
has_token token none = false
has_token token (some q) = str_eq q.token token

-- `_read_leaf`: the first leaf with the token, CE before PE at each strike.
unfoldable pub read_leaf : {F : Type 0} → QuoteChain F → String → Option (Quote F)
read_leaf [] token = none
read_leaf ((ce, pe) ∷ rest) token =
    if has_token token ce then ce else if has_token token pe then pe else read_leaf rest token

-- A text that stands for no order.
abbrev pub no_order : String
no_order = ""

-- What the broker's portfolio stream says of an order.
pub data OrderEvent : Type 0 where
  fill partial_fill reject other_event : OrderEvent

-- One entry of orders:stream:order_events, whose values are texts. A quantity or a price that is missing
-- or empty is none; a text that is no number, which raises, is left out.
pub record Payload (F : Type 0) : Type 0 where
  pub order_id : String
  pub event_type : OrderEvent
  pub filled_qty : Option ℤ
  pub avg_price : Option F

-- The answer to `place_order`: refused, or accepted with the id of its first order, if it has one.
pub data Placed : Type 0 where
  refused : Placed
  accepted : Option String → Placed

-- The other calls of the broker; `order_events` of a result, without its timestamps.
pub data BrokerCall (F : Type 0) : Type 0 where
  modify_order : String → F → BrokerCall F
  cancel_order : String → BrokerCall F

pub data Event (F : Type 0) : Type 0 where
  submitted : String → ℤ → F → Event F
  filled : String → ℤ → F → Event F
  modified : String → F → Event F
  reported : Payload F → Event F

abbrev pub qty_or : Option ℤ → ℤ → ℤ
qty_or none n = n
qty_or (some n) _ = n

abbrev pub price_or : {F : Type 0} → Option F → F → F
price_or none x = x
price_or (some x) _ = x

abbrev pub id_or : Option String → String → String
id_or none s = s
id_or (some t) _ = t
