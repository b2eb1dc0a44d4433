-- ===== src/Examples/Entries.antt =====
-- Reservations, entries and exits at the broker on concrete data.
use pcr_momentum.Base.{
  ◌≡◌, ◌⊎◌, ℕ, inl, inr, refl, true, false, some, none, String, Option, List, [], ◌∷◌, Bool, ltb,
  arith, if◌then◌else◌,
}
use pcr_momentum.Base.Int.{ℤ, pos, ◌+ℤ◌, ◌-ℤ◌, ◌*ℤ◌}
use pcr_momentum.Float.Fixed.{fixed}
use pcr_momentum.Exec.{
  Position, Quote, QuoteChain, Payload, fill, reject, partial_fill, Placed, accepted, refused,
  no_order,
}
use pcr_momentum.Exec.Allocator.{
  Allocator, Verdict, allocator_error, retry_exhausted, Attempt, commits, watch_error, reserve_txn,
  check_and_reserve,
}
use pcr_momentum.Exec.Allocator.Caps.{Outcome, reserve_txn-Outcome}
use pcr_momentum.Exec.Allocator.Runs.{
  met, Step, reserve, free, run, IsCapped, AreProper, run-IsCapped,
}
use pcr_momentum.Exec.Gate.{Flags, GateConfig, ok, gate_and_reserve}
use pcr_momentum.Exec.Gate.Reserving.{IsRefused, IsReserved, gate_and_reserve-Outcome}
use pcr_momentum.Exec.Entry.{EntryConfig, submit_and_monitor_live}
use pcr_momentum.Exec.Entry as Entry
use pcr_momentum.Exec.Entry.Fills.{IsAccounted, submit_and_monitor_live-IsAccounted}
use pcr_momentum.Exec.ExitSubmit.{
  ExitConfig, Delivery, Pass, submit_and_complete_live, first_id, waits, reads,
}
use pcr_momentum.Exec.ExitSubmit.Closing.{
  IsReported, has_closed, first_seen_fill, submit_and_complete_live-IsReported,
  submit_and_complete_live-closes,
}
use pcr_momentum.Examples.Orders.{position}

abbrev pub empty_allocator : Allocator ℤ
empty_allocator = record { deployed = []; open_count = []; open_symbols = [] }

reserve_txn-Outcome_example :
    Outcome "nifty50"
      (pos 7500000)
      (pos 100000000)
      (pos 2)
      empty_allocator
      (reserve_txn "nifty50" (pos 7500000) (pos 100000000) (pos 2) empty_allocator)
reserve_txn-Outcome_example =
    reserve_txn-Outcome "nifty50" (pos 7500000) (pos 100000000) (pos 2) empty_allocator refl

-- The first attempt collides, the second commits.
abbrev pub attempts : ℕ → Attempt ℤ
attempts left = if ltb left 4 then commits else watch_error empty_allocator

-- Two indexes open, a third is refused, one is freed.
abbrev trades : List (Step ℤ)
trades =
    reserve "nifty50" (pos 7500000)
    ∷ reserve "banknifty" (pos 6000000)
    ∷ reserve "finnifty" (pos 5000000)
    ∷ free "nifty50" (pos 7500000)
    ∷ []

trades-AreProper : AreProper (pos 100000000) (pos 2) trades empty_allocator
unfolding reserve_txn pcr_momentum.Exec.Allocator.book pcr_momentum.Exec.Allocator.hincrby
    pcr_momentum.Exec.Allocator.hincrbyfloat pcr_momentum.Base.Dict.get pcr_momentum.Base.Dict.put
    ◌+ℤ◌
trades-AreProper = (refl, (refl, (refl, ((refl, refl), tt))))

run-IsCapped_example :
    IsCapped (pos 100000000) (pos 2) (run (pos 100000000) (pos 2) trades empty_allocator)
unfolding pcr_momentum.Base.Dict.get
run-IsCapped_example =
    run-IsCapped (pos 100000000) (pos 2) trades empty_allocator trades-AreProper
      (record { distinct = tt; counted = refl }, omega arith)

abbrev pub flags : Flags
flags = record {
  trading_active = true;
  daily_loss_circuit = false;
  kill_switch =
      record { segment = "NSE_FO"; segment_status = "ACTIVE"; kill_switch_enabled = false } ∷ [];
  order_exec_up = true;
}

abbrev pub call_quote : Quote ℤ
call_quote = record { token = "C1"; ltp = pos 100000; bid = pos 99500; ask = pos 100500 }

abbrev pub quotes : QuoteChain ℤ
quotes = (some call_quote, none) ∷ []

abbrev pub gate_config : GateConfig ℤ
gate_config = record {
  spread_skip_pct = pos 50;
  lot_size = pos 75;
  trading_capital = pos 100000000;
  max_concurrent = pos 2;
}

gate_and_reserve-Outcome_example :
    let r =
      gate_and_reserve attempts flags quotes gate_config "nifty50" "C1" (pos 2) empty_allocator in
    IsRefused attempts "nifty50" gate_config empty_allocator r
    ⊎ ((r.0 ≡ ok)
        × IsReserved flags quotes gate_config "nifty50" "C1"
            (pos 2)
            (met 5 attempts empty_allocator)
            r)
gate_and_reserve-Outcome_example =
    gate_and_reserve-Outcome attempts flags quotes gate_config "nifty50" "C1" (pos 2)
      empty_allocator

abbrev pub entry_config : EntryConfig ℤ
entry_config = record {
  buffer_inr = pos 2000;
  drift_threshold = pos 3000;
  chase_ceiling = pos 15000;
  partial_grace_ms = 3000;
}

-- The ask drifts, a part is filled, then the whole.
abbrev fill_of : String → Payload ℤ
fill_of id = record {
  order_id = id;
  event_type = fill;
  filled_qty = some (pos 150);
  avg_price = some (pos 102000);
}

abbrev pub entry_passes : List (Entry.Pass ℤ)
entry_passes =
    Entry.quiet (some (record call_quote { ask = pos 104000 }))
    ∷ Entry.arrives 1000 (record (fill_of "o1") { event_type = partial_fill } ∷ [])
    ∷ Entry.arrives 2000 (fill_of "o1" ∷ [])
    ∷ []

submit_and_monitor_live-IsAccounted_example :
    let r =
      submit_and_monitor_live entry_config
        (some call_quote)
        (pos 2)
        (pos 75)
        (accepted (some "o1"))
        entry_passes in
    IsAccounted "o1" (pos 2 *ℤ pos 75) (pos 102500) r
    ⊎ ((r.0.filled_qty ≡ pos 0) × (r.0.order_events ≡ []) × (r.1 ≡ []))
unfolding ◌+ℤ◌
submit_and_monitor_live-IsAccounted_example =
    submit_and_monitor_live-IsAccounted entry_config (some call_quote) (pos 2) (pos 75)
      (accepted (some "o1")) entry_passes

abbrev pub exit_config : ExitConfig ℤ
exit_config = record { buffer_inr = pos 2000; eod_buffer_inr = pos 5000; suppress_after = 900 }

abbrev delivery_of : Payload ℤ → Delivery ℤ
delivery_of p = record { payload = p; is_readable = true; leaf = none; answer = refused }

-- The bid falls, another order fills, then this one.
abbrev pub exit_passes : List (Pass ℤ)
exit_passes =
    reads [] [] (some (record call_quote { bid = pos 97000 }))
    ∷ reads [] (delivery_of (fill_of "o7") ∷ []) none
    ∷ reads (delivery_of (fill_of "x1") ∷ []) [] none
    ∷ []

submit_and_complete_live-IsReported_example :
    IsReported
      (pos 75)
      (submit_and_complete_live exit_config
        (some call_quote)
        position
        600
        (accepted (some "x1"))
        exit_passes).0
submit_and_complete_live-IsReported_example =
    submit_and_complete_live-IsReported exit_config (some call_quote) position 600
      (accepted (some "x1")) exit_passes

submit_and_complete_live-closes_example :
    has_closed
      (submit_and_complete_live exit_config
        (some call_quote)
        position
        600
        (accepted (some "x1"))
        exit_passes).0
    ≡ first_seen_fill false "x1" exit_passes
submit_and_complete_live-closes_example =
    submit_and_complete_live-closes exit_config (some call_quote) position 600
      (accepted (some "x1")) exit_passes refl

-- After a refused order no stream that names its orders closes the exit.
never_closes :
    (submit_and_complete_live exit_config (some call_quote) position 600 refused exit_passes).0
    ≡ waits
unfolding submit_and_complete_live pcr_momentum.Exec.ExitSubmit.wait_for_fill
    pcr_momentum.Exec.ExitSubmit.take_deliveries pcr_momentum.Exec.ExitSubmit.follow_bid ◌-ℤ◌
    pcr_momentum.Exec.ExitSubmit.start_bid
never_closes = refl
