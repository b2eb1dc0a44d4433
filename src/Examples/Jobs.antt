-- ===== src/Examples/Jobs.antt =====
-- The jobs of a day and their events, on concrete data.
use pcr_momentum.Base.{String, ◌≡◌, refl, true, false, List, [], ◌∷◌, ◌++◌, map, some}
use pcr_momentum.Base.Int.{pos}
use pcr_momentum.Base.Dict.{Dict, get}
use pcr_momentum.Scheduler.{
  resolve_trigger_table, pre_open_snapshot, entry_freeze, eod_squareoff, Firing, System, run_jobs,
  Background, Delivery, scheduler_consumer,
}
use pcr_momentum.Scheduler.Flags.{ShowsSession, session_job, run_jobs-session}
use pcr_momentum.Scheduler.Triggers.{IsFresh, scheduler_consumer-IsFresh}

abbrev morning : List Firing
morning = record { job = pre_open_snapshot; now = pos 1000; xadd_ok = true } ∷ []

abbrev afternoon : List Firing
afternoon =
    record { job = entry_freeze; now = pos 3000; xadd_ok = true }
    ∷ record { job = eod_squareoff; now = pos 4000; xadd_ok = false }
    ∷ []

abbrev system : System
system = record {
  flags =
      ("system:flags:trading_active", "false")
      ∷ ("system:flags:trading_disabled_reason", "holiday")
      ∷ [];
  events = [];
}

run_jobs-session_example : ShowsSession true (
    run_jobs
      (morning ++ record { job = session_job true; now = pos 2000; xadd_ok = false } ∷ afternoon)
      system)
run_jobs-session_example = run_jobs-session morning afternoon true false (pos 2000) system refl

abbrev entries : List Delivery
entries =
    record { entry_id = "1-0"; kind = "market_close" }
    ∷ record { entry_id = "2-0"; kind = "daily_reset" }
    ∷ record { entry_id = "3-0"; kind = "instrument_refresh" }
    ∷ []

abbrev background : Background
background = record {
  closed_today = "p1" ∷ [];
  daily_loss_circuit_triggered = "true";
  pnl_day = ("realized", "-100") ∷ [];
  refreshed = 0;
  maintained = 0;
  acked = "0-0" ∷ [];
}

scheduler_consumer-IsFresh_example :
    ((scheduler_consumer entries background).acked
      ≡ background.acked ++ map (λ e. e.entry_id) entries)
    × IsFresh (scheduler_consumer entries background)
scheduler_consumer-IsFresh_example = scheduler_consumer-IsFresh entries background refl

-- A session that opens the market later, to the second, and has a time for the reset.
abbrev session : Dict String
session = ("market_open", "09:20:30") ∷ ("daily_reset", "16:00") ∷ []

-- It opens at 09:20, and the reset keeps its default.
opens_later : get "market_open" (resolve_trigger_table session) ≡ some "09:20"
unfolding resolve_trigger_table get pcr_momentum.Base.Dict.put
    pcr_momentum.Scheduler.take_configured
opens_later = refl
