-- ===== src/Examples/Services.antt =====
-- Signals on the stream, the health of the engines and the queue of reports, on concrete data.
use pcr_momentum.Base.{
  ℕ, zero, suc, ◌+◌, ◌-◌, ◌*◌, ◌/◌, ◌%◌, ◌≤◌, ◌≡◌, refl, String, str_eq, true, false, Bool, Option,
  none, some, List, [], ◌∷◌, ◌++◌, ◌==◌, ◌||◌, length, if◌then◌else◌, arith,
}
use Prim.Native.String.{◌++◌ as append}
use pcr_momentum.Base.Int.{ℤ, pos, negsuc, ◌*ℤ◌}
use pcr_momentum.Base.Dict.{Dict}
use pcr_momentum.Float.{Float}
use pcr_momentum.Float.Fixed.{fixed, div_ℤ}
use pcr_momentum.Snapshot.{ce}
use pcr_momentum.Publisher.{Signal, fresh_entry}
use pcr_momentum.Publisher.Fields.{stream_fields}
use pcr_momentum.Exec.Dispatcher as Dispatcher
use pcr_momentum.Exec.Dispatcher.{Desk, signal_from_payload, dispatcher_loop}
use pcr_momentum.Exec.Dispatcher.Stream.{IsCarried, received, stream_fields-signal_from_payload}
use pcr_momentum.Exec.Dispatcher.Acks.{
  Replies, Passes, AllOrders, all_ids, all_orders, dispatcher_loop-Passes,
}
use pcr_momentum.Health as Health
use pcr_momentum.Health.{HealthStore, Cycle, WsUpdate, red, health_loop}
use pcr_momentum.Health.Summary.{written, health_loop-red}
use pcr_momentum.Background.{Reports, DrainTurn, buffered, popped, unread, drain_loop}
use pcr_momentum.Background.Queue.{arrivals, reports, drain_loop-in_order}

-- Decimal texts.
digit : ℕ → String
digit n =
    if n == 0
    then "0"
    else if n == 1
    then "1"
    else if n == 2
    then "2"
    else if n == 3
    then "3"
    else if n == 4
    then "4"
    else if n == 5
    then "5"
    else if n == 6
    then "6"
    else if n == 7
    then "7"
    else if n == 8
    then "8"
    else "9"

digits : ℕ → ℕ → String
digits zero n = ""
digits (suc fuel) n =
    let rest = digits fuel (n / 10) in append (if n / 10 == 0 then "" else rest) (digit (n % 10))

abbrev print_int : ℤ → String
print_int (pos n) = digits 20 n
print_int (negsuc n) = append "-" (digits 20 (suc n))

value_of : String → Option ℕ
value_of c =
    if str_eq c "0"
    then some 0
    else if str_eq c "1"
    then some 1
    else if str_eq c "2"
    then some 2
    else if str_eq c "3"
    then some 3
    else if str_eq c "4"
    then some 4
    else if str_eq c "5"
    then some 5
    else if str_eq c "6"
    then some 6
    else if str_eq c "7"
    then some 7
    else if str_eq c "8"
    then some 8
    else if str_eq c "9"
    then some 9
    else none

read_digits : ℕ → String → Option ℕ
read_digits acc String.[] = some acc
read_digits acc (String.◌∷◌ c s) = elim (value_of (String.◌∷◌ c String.[])) [
  | none ↦ none
  | some d ↦ read_digits (10 * acc + d) s
]

abbrev as_int : Option ℕ → Option ℤ
as_int none = none
as_int (some n) = some (pos n)

abbrev parse_int : String → Option ℤ
parse_int s = if str_eq s "" then none else as_int (read_digits 0 s)

abbrev as_thousandths : Option ℕ → Option ℤ
as_thousandths none = none
as_thousandths (some n) = some (pos (n * 1000))

-- Whole thousandths that read whole numbers.
abbrev decimal : Float ℤ
decimal = record fixed { parse = λ s. as_thousandths (read_digits 0 s) }

abbrev texts : Dispatcher.Texts
texts = record {
  print_int = print_int;
  parse_int = parse_int;
  lower = λ s. s;
  is_datetime = λ s. str_eq s "2026-01-05T09:20:00Z";
  is_breakdown = λ s. true;
}

abbrev print_float : ℤ → String
print_float x = print_int (div_ℤ x (pos 1000))

abbrev signal : Signal
signal = record {
  sig_id = "s1";
  index = "nifty50";
  side = ce;
  strike = pos 24000;
  instrument_token = "NSE_FO|49520";
  intent = fresh_entry;
  qty_lots = pos 2;
  score = some 7;
  decision_ts = pos 1700000;
}

carried : IsCarried ⦃fl = decimal⦄ texts print_float "{}" "2026-01-05T09:20:00Z" signal
unfolding digit digits value_of read_digits ◌*ℤ◌
carried = record {
  strike = refl;
  qty_lots = refl;
  decision_text = (refl, refl);
  decision_ts = refl;
  nonzero = refl;
  score = (refl, refl);
  index = refl;
  positive = refl;
  datetime = refl;
  accepted = refl;
}

stream_fields-signal_from_payload_example :
    signal_from_payload ⦃fl = decimal⦄ texts (pos 5) (
      stream_fields ⦃fl = decimal⦄ print_int print_float "bid_ask" "{}" "2026-01-05T09:20:00Z"
        signal)
    ≡ some (received ⦃fl = decimal⦄ texts print_float "bid_ask" "2026-01-05T09:20:00Z" signal)
stream_fields-signal_from_payload_example =
    stream_fields-signal_from_payload ⦃fl = decimal⦄ texts print_float (pos 5) "bid_ask" "{}"
      "2026-01-05T09:20:00Z" signal carried

-- A malformed entry, a failed read, and an exit without a position.
abbrev replies : Replies
replies =
    (pos 5, some (("1-0", ("sig_id", "s1") ∷ []) ∷ []))
    ∷ (pos 6, none)
    ∷ (pos 7, some (("2-0", ("intent", "MANUAL_EXIT") ∷ []) ∷ []))
    ∷ []

abbrev desk : Desk ℤ
desk = record { queue = []; acked = []; current_position = []; exit_pull = [] }

dispatcher_loop-Passes_example :
    Passes "P-1"
      (all_ids replies)
      (all_orders texts replies)
      desk
      (dispatcher_loop texts replies desk)
    × AllOrders (all_orders {F = ℤ} texts replies)
unfolding pcr_momentum.Base.Dict.get
dispatcher_loop-Passes_example = dispatcher_loop-Passes texts replies desk "P-1" (λ _. refl)

abbrev health_texts : Health.Texts
health_texts = record { print_int = print_int; parse_int = parse_int; lower = λ s. s }

abbrev updates : List WsUpdate
updates = record { connected = true; last_frame_ts = some (pos 90000); reconnect_count = none } ∷ []

abbrev cycle : Cycle ℤ
cycle = record {
  now = pos 91000;
  ping = some true;
  row = some (some (pos 1));
  rest = some (true, "");
  ws_status = written health_texts updates;
  load1 = some (pos 500, pos 4);
  swap_percent = some (pos 1000);
  heartbeats = ("strategy", "90000") ∷ [];
}

abbrev store : HealthStore ℤ
store = record { dependencies = []; engines = []; summary = none; alerts = [] }

health_loop-red_example :
    let r = health_loop health_texts (cycle ∷ cycle ∷ []) (none, store) in
    (r.1.summary ≡ some red) × (length r.1.alerts ≡ length store.alerts + 1)
health_loop-red_example =
    health_loop-red health_texts cycle (cycle ∷ []) store ((updates, refl), ((updates, refl), tt))

-- The database refuses once; a malformed text is dropped.
abbrev drain_turns : List DrainTurn
drain_turns =
    buffered "r1"
    ∷ popped false true
    ∷ buffered "x"
    ∷ unread
    ∷ popped true true
    ∷ popped true true
    ∷ []

abbrev is_report : String → Bool
is_report s = str_eq s "r1" || str_eq s "r0"

abbrev buffer : Reports
buffer = record { pending = "r0" ∷ []; persisted = []; malformed = []; lost = [] }

drain_loop-in_order_example :
    let r' = drain_loop is_report drain_turns buffer in
    (r'.persisted ++ reports is_report r'.pending
      ≡ buffer.persisted
        ++ reports is_report buffer.pending
        ++ reports is_report (arrivals drain_turns))
    × (r'.lost ≡ buffer.lost)
drain_loop-in_order_example =
    drain_loop-in_order is_report drain_turns buffer (refl, (refl, (refl, tt))) (omega arith)
