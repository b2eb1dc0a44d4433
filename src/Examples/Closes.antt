-- ===== src/Examples/Closes.antt =====
-- A position from the signal to the cleanup, on concrete data.
use pcr_momentum.Base.{◌≡◌, refl, true, false, some, none, ℕ, List, [], ◌∷◌, is_some}
use pcr_momentum.Base.Int.{ℤ, pos}
use pcr_momentum.Float.Fixed.{fixed}
use pcr_momentum.Snapshot.{ce}
use pcr_momentum.Vessel.{VesselKeys}
use pcr_momentum.Exec.{accepted}
use pcr_momentum.Exec.Allocator.{Attempt, commits}
use pcr_momentum.Exec.ExitSubmit.{ExitResult, submit_and_complete_paper}
use pcr_momentum.Exec.Worker.{Look, CooldownConfig, watch}
use pcr_momentum.Exec.Worker.Watch.{watch-closes}
use pcr_momentum.Exec.Worker.Signals.{Desk, Task, Settings, Course, live, paper, process_signal}
use pcr_momentum.Exec.Worker.Signals.Slots.{Leaves, process_signal-Leaves}
use pcr_momentum.Exec.Worker.Flip.{FlipDesk, FlipCourse}
use pcr_momentum.Examples.Orders.{position}
use pcr_momentum.Examples.Entries.{
  flags, quotes, gate_config, entry_config, exit_config, call_quote, entry_passes, exit_passes,
  empty_allocator,
}

-- A quiet look at ten, and one at the square-off.
abbrev look_at : ℕ → Look ℤ
look_at minute = record {
  leaf = some call_quote;
  mark_ts_ms = 61000;
  now_ts_ms = 61000;
  now_minute = minute;
  daily_loss = false;
  exit_pull = none;
  eod_minute = 915;
  suppress_minute = 900;
  spread_skip_pct = pos 50;
}

abbrev looks : List (Look ℤ)
looks = look_at 600 ∷ look_at 915 ∷ []

watch-closes_example : is_some (watch looks position) ≡ true
watch-closes_example = watch-closes looks position refl

abbrev cooldowns : CooldownConfig
cooldowns = record { sl_cooldown = pos 60; flip_cooldown = pos 90; strategy_exit_cooldown = pos 30 }

abbrev keys : VesselKeys
keys = record { state = some "FLAT"; until = none; reason = ""; enabled = true }

abbrev settings : Settings ℤ
settings = record {
  gate = gate_config;
  entry = entry_config;
  exit = exit_config;
  profile = record {
    sl_pct = pos 200;
    target_pct = pos 500;
    tsl_arm_pct = pos 150;
    tsl_trail_pct = pos 50;
    max_hold_sec = 1500;
  };
  cooldowns = cooldowns;
}

abbrev task : Task
task = record {
  pos_id = "p1";
  sig_id = "s1";
  index = "nifty50";
  side = ce;
  strike = pos 100;
  token = "C1";
  qty_lots = pos 2;
}

-- Every attempt commits.
abbrev alone : ℕ → Attempt ℤ
alone left = commits

abbrev course : Course ℤ
course = record {
  raises_at = λ stage. false;
  attempts = alone;
  flags = flags;
  chain = quotes;
  entry_leaf = some call_quote;
  entry_ts_ms = 1000;
  looks = looks;
  exit_leaf = some call_quote;
  exit_minute = 915;
  exit_ts_ms = pos 62000;
  is_connected = true;
  mode = live (accepted (some "o1")) entry_passes (accepted (some "x1")) exit_passes;
}

abbrev desk : Desk ℤ
desk = record { allocator = empty_allocator; vessel = keys; open_positions = []; closed_today = [] }

process_signal-Leaves_example :
    Leaves course settings task desk (process_signal course settings task desk)
process_signal-Leaves_example =
    process_signal-Leaves course settings task desk refl refl refl refl (λ k. refl)

-- A flip that closes the held position on paper, while its own worker still watches it.
abbrev held_desk : FlipDesk ℤ
held_desk = record {
  desk = record {
    allocator = empty_allocator;
    vessel = keys;
    open_positions = "p1" ∷ [];
    closed_today = [];
  };
  current_position = ("nifty50", "p1") ∷ [];
  positions = ("p1", some position) ∷ [];
}

abbrev flip_course : FlipCourse ℤ
flip_course = record {
  mode = paper "o7" "o8";
  raised = false;
  leaf = some call_quote;
  minute = 600;
  report_raises = false;
  cleanup_fails = false;
  is_connected = true;
}

abbrev exit_result : ExitResult ℤ
exit_result = submit_and_complete_paper exit_config (some call_quote) position 600 "o8"
