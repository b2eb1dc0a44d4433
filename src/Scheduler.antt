-- ===== src/Scheduler.antt =====
-- backend/engines/scheduler/jobs.py and main.py, and the consumer of their events in
-- backend/engines/background/main.py: the jobs of a day, the times they fire at, and what the
-- background engine does on an event. `int` is a parameter; when a time is due is left to the cron
-- library.
pub mod Flags
pub mod Triggers
use pcr_momentum.Base.{
  ℕ, suc, String, str_eq, Bool, true, false, Option, none, some, List, [], ◌∷◌, ◌++◌, if◌then◌else◌,
}
use pcr_momentum.Base.Int.{ℤ}
use pcr_momentum.Base.Dict.{Dict, get, put, remove}

pub data Job : Type 0 where
  pre_open_snapshot : Job
  market_open : Job
  entry_freeze : Job
  eod_squareoff : Job
  market_close : Job
  daily_reset : Job
  instrument_refresh : Job
  nightly_maintenance : Job

-- An entry of the stream of scheduler events.
pub record Event : Type 0 where
  pub kind : String
  pub ts_ms : ℤ

-- The flags of the system, and the stream.
pub record System : Type 0 where
  pub flags : Dict String
  pub events : List Event

-- `_publish`; the flag says whether XADD succeeds.
unfoldable pub publish : String → ℤ → Bool → System → System
publish kind now false s = s
publish kind now true s = record s { events = s.events ++ record { kind = kind; ts_ms = now } ∷ [] }

abbrev pub set_flag : String → String → System → System
set_flag k v s = record s { flags = put k v s.flags }

abbrev pub delete_flag : String → System → System
delete_flag k s = record s { flags = remove k s.flags }

abbrev pub kind_of : Job → String
kind_of pre_open_snapshot = "pre_open_snapshot"
kind_of market_open = "market_open"
kind_of entry_freeze = "entry_freeze"
kind_of eod_squareoff = "eod_squareoff"
kind_of market_close = "market_close"
kind_of daily_reset = "daily_reset"
kind_of instrument_refresh = "instrument_refresh"
kind_of nightly_maintenance = "nightly_maintenance"

-- What each job does before it publishes.
unfoldable pub set_flags : Job → System → System
set_flags pre_open_snapshot s = set_flag "system:flags:data_pipeline_subscribed" "true" s
set_flags market_open s =
    set_flag "system:flags:trading_disabled_reason" "none"
      (set_flag "system:flags:trading_active" "true" s)
set_flags entry_freeze s = set_flag "system:flags:entry_freeze" "true" s
set_flags eod_squareoff s = set_flag "system:flags:eod_squareoff" "true" s
set_flags market_close s =
    set_flag "system:flags:trading_disabled_reason" "market_closed"
      (set_flag "system:flags:trading_active" "false" s)
set_flags daily_reset s =
    delete_flag "system:flags:eod_squareoff" (delete_flag "system:flags:entry_freeze" s)
set_flags instrument_refresh s = s
set_flags nightly_maintenance s = s

-- A job that fires: which, when, and whether its event can be added.
pub record Firing : Type 0 where
  pub job : Job
  pub now : ℤ
  pub xadd_ok : Bool

unfoldable pub run_job : Firing → System → System
unfolding publish set_flags
run_job f s = publish (kind_of f.job) f.now f.xadd_ok (set_flags f.job s)

-- The jobs of a day as they fire.
unfoldable pub run_jobs : List Firing → System → System
unfolding run_job
run_jobs [] s = s
run_jobs (f ∷ firings) s = run_jobs firings (run_job f s)

abbrev pub default_triggers : Dict String
default_triggers =
    ("instrument_refresh", "05:30")
    ∷ ("pre_open_snapshot", "09:14")
    ∷ ("market_open", "09:15")
    ∷ ("entry_freeze", "15:10")
    ∷ ("eod_squareoff", "15:15")
    ∷ ("market_close", "15:30")
    ∷ ("daily_reset", "15:35")
    ∷ ("nightly_maintenance", "02:00")
    ∷ []

-- Up to the first colon.
abbrev pub before_colon : String → String
before_colon String.[] = String.[]
before_colon (String.◌∷◌ c s) =
    let rest = before_colon s in
    if str_eq (String.◌∷◌ c String.[]) ":" then String.[] else String.◌∷◌ c rest

-- Behind the first colon.
abbrev pub after_colon : String → Option String
after_colon String.[] = none
after_colon (String.◌∷◌ c s) =
    let rest = after_colon s in if str_eq (String.◌∷◌ c String.[]) ":" then some s else rest

-- "HH:MM" of a text with a colon: its first two parts.
abbrev pub first_two_parts : String → Option String
first_two_parts String.[] = none
first_two_parts (String.◌∷◌ c s) =
    let rest = first_two_parts s in
    if str_eq (String.◌∷◌ c String.[]) ":"
    then some (String.◌∷◌ c (before_colon s))
    else elim rest [ none ↦ none | some hhmm ↦ some (String.◌∷◌ c hhmm) ]

abbrev pub or_default : String → Option String → Dict String → Dict String
or_default trigger none out = out
or_default trigger (some hhmm) out = put trigger hhmm out

abbrev pub configured : Option String → Option String
configured none = none
configured (some v) = first_two_parts v

-- The fields of the session config that name a trigger.
abbrev pub mapping : List String
mapping =
    "instrument_refresh" ∷ "pre_open_snapshot" ∷ "market_open" ∷ "entry_freeze" ∷ "eod_squareoff"
    ∷ "market_close" ∷ []

unfoldable pub take_configured : List String → Dict String → Dict String → Dict String
take_configured [] session out = out
take_configured (key ∷ keys) session out =
    take_configured keys session (or_default key (configured (get key session)) out)

unfoldable pub resolve_trigger_table : Dict String → Dict String
unfolding take_configured
resolve_trigger_table session = take_configured mapping session default_triggers

-- `_parse_hhmm`; none where it raises.
module _ (parse_int : String → Option ℤ) where
  abbrev both_parts : Option ℤ → Option ℤ → Option (ℤ × ℤ)
  both_parts (some h) (some m) = some (h, m)
  both_parts _ _ = none

  unfoldable pub parse_hhmm : String → Option (ℤ × ℤ)
  parse_hhmm raw = elim (after_colon raw) [
    | none ↦ none
    | some m ↦ both_parts (parse_int (before_colon raw)) (parse_int m)
  ]

-- What a day leaves, how often the instruments have been refreshed and the tables maintained, and the
-- events that are acknowledged.
pub record Background : Type 0 where
  pub closed_today : List String
  pub daily_loss_circuit_triggered : String
  pub pnl_day : Dict String
  pub refreshed : ℕ
  pub maintained : ℕ
  pub acked : List String

-- An entry that is read: its id and its kind.
pub record Delivery : Type 0 where
  pub entry_id : String
  pub kind : String

unfoldable pub on_daily_reset : Background → Background
on_daily_reset b = record b {
  closed_today = [];
  daily_loss_circuit_triggered = "false";
  pnl_day = [];
}

-- The handler; the refresh and the maintenance catch what they raise, and Redis does not fail on the
-- reset.
unfoldable pub handle_event : Delivery → Background → Background
unfolding on_daily_reset
handle_event e b =
    if str_eq e.kind "instrument_refresh"
    then record b { refreshed = suc b.refreshed }
    else if str_eq e.kind "nightly_maintenance"
    then record b { maintained = suc b.maintained }
    else if str_eq e.kind "daily_reset"
    then on_daily_reset b
    else b

-- The entries of the replies; each is acknowledged.
unfoldable pub scheduler_consumer : List Delivery → Background → Background
unfolding handle_event
scheduler_consumer [] b = b
scheduler_consumer (e ∷ entries) b =
    let handled = handle_event e b in
    scheduler_consumer entries (record handled { acked = handled.acked ++ e.entry_id ∷ [] })
