-- ===== src/Exec/Worker/Signals.antt =====
-- backend/engines/order_exec/worker.py, process_signal: the stages of one fresh entry, from the gate to
-- the cleanup, and what an exception in one of them leaves, which worker_loop catches. The values of
-- statuses, snapshots and the report are left out, and so is the step before a flip.
pub mod Slots
use pcr_momentum.Base.{
  ℕ, String, Bool, true, false, ◌||◌, ◌&&◌, not, str_eq, ltb, Option, none, some, List, [], is_some,
  if◌then◌else◌,
}
use pcr_momentum.Base.Int.{ℤ, pos, leb_ℤ}
use pcr_momentum.Float.{Float}
use pcr_momentum.Snapshot.{Side}
use pcr_momentum.Vessel.{VesselKeys}
use pcr_momentum.Exec.{Position, Quote, QuoteChain, Placed, ExitReason, read_leaf}
use pcr_momentum.Exec.Allocator.{Allocator, Attempt, sadd, srem, release}
use pcr_momentum.Exec.Gate.{Flags, GateConfig, GateReason, ok, gate_and_reserve}
use pcr_momentum.Exec.Entry.{
  EntryConfig, EntryResult, submit_and_monitor_paper, submit_and_monitor_live,
}
use pcr_momentum.Exec.Entry as Entry
use pcr_momentum.Exec.ExitSubmit.{
  ExitConfig, ExitEnd, waits, raises, closes, submit_and_complete_paper, submit_and_complete_live,
}
use pcr_momentum.Exec.ExitSubmit as ExitSubmit
use pcr_momentum.Exec.Worker.{
  Profile, Look, CooldownConfig, open_position, watch, after_entry, after_exit,
}

-- What the stages change: the allocator, the keys of the vessel, and orders:positions:open and
-- :closed_today.
pub record Desk (F : Type 0) : Type 0 where
  pub allocator : Allocator F
  pub vessel : VesselKeys
  pub open_positions : List String
  pub closed_today : List String

-- On paper two fresh order ids; live, the broker's answers and what the two loops meet.
pub data Mode (F : Type 0) : Type 0 where
  paper : String → String → Mode F
  live : Placed → List (Entry.Pass F) → Placed → List (ExitSubmit.Pass F) → Mode F

-- The signal with the id of its position.
pub record Task : Type 0 where
  pub pos_id : String
  pub sig_id : String
  pub index : String
  pub side : Side
  pub strike : ℤ
  pub token : String
  pub qty_lots : ℤ

-- The settings that the stages read.
pub record Settings (F : Type 0) : Type 0 where
  pub gate : GateConfig F
  pub entry : EntryConfig F
  pub exit : ExitConfig F
  pub profile : Profile F
  pub cooldowns : CooldownConfig

-- Where calls to Redis and the broker, or the reading of what they answer, may raise.
pub data Stage : Type 0 where
  gating setting_up entering giving_up opening watching exiting reporting cleaning finishing : Stage

-- How process_signal ends: its position is still open, it returns, or an exception leaves it, which
-- worker_loop catches and logs; with what it leaves.
pub data Ending (F : Type 0) : Type 0 where
  still_open : Ending F
  returned : Desk F → Ending F
  raised : Desk F → Ending F

-- What the stages meet: where they raise, the attempts at the reservation, the flags and the chain at the gate, the leaf
-- at the entry, the looks, the leaf, the minute and the time at the exit, and whether the release
-- reaches Redis.
pub record Course (F : Type 0) : Type 0 where
  pub raises_at : Stage → Bool
  pub attempts : ℕ → Attempt F
  pub flags : Flags
  pub chain : QuoteChain F
  pub entry_leaf : Option (Quote F)
  pub entry_ts_ms : ℕ
  pub looks : List (Look F)
  pub exit_leaf : Option (Quote F)
  pub exit_minute : ℕ
  pub exit_ts_ms : ℤ
  pub is_connected : Bool
  pub mode : Mode F

module _ {F : Type 0} ⦃fl : Float F⦄ where
  -- entry.py and exit_submit.py, the routing by mode.
  unfoldable pub submit_and_monitor :
      Mode F → EntryConfig F → Option (Quote F) → ℤ → ℤ → EntryResult F
  submit_and_monitor (paper id _) c leaf qty_lots lot_size =
      submit_and_monitor_paper c leaf qty_lots lot_size id
  submit_and_monitor (live answer passes _ _) c leaf qty_lots lot_size =
      (submit_and_monitor_live c leaf qty_lots lot_size answer passes).0

  unfoldable pub submit_and_complete :
      Mode F → ExitConfig F → Option (Quote F) → Position F → ℕ → ExitEnd F
  submit_and_complete (paper _ id) c leaf p minute =
      closes (submit_and_complete_paper c leaf p minute id)
  submit_and_complete (live _ _ answer passes) c leaf p minute =
      (submit_and_complete_live c leaf p minute answer passes).0

  abbrev pub freed : Course F → Task → F → Desk F → Desk F
  freed w t premium d = record d {
    allocator = (release w.is_connected t.index premium d.allocator).1;
  }

  -- cleanup.cleanup, whose exceptions are caught.
  abbrev pub cleaned_up : Course F → Task → Desk F → Desk F
  cleaned_up w t d = if w.raises_at cleaning then d else record d {
    open_positions = srem t.pos_id d.open_positions;
    closed_today = sadd t.pos_id d.closed_today;
  }

  abbrev pub raised_or : Bool → Desk F → Ending F → Ending F
  raised_or true d rest = raised d
  raised_or false d rest = rest

  abbrev pub settled : Course F → Settings F → ExitReason → Desk F → Ending F
  settled w c reason d =
      raised_or (w.raises_at finishing) d
        (returned (record d { vessel = after_exit w.exit_ts_ms reason c.cooldowns d.vessel }))

  -- Stage F, once the exit has ended.
  abbrev pub finished :
      Course F → Settings F → Task → F → ExitReason → ExitEnd F → Desk F → Ending F
  finished w c t premium reason waits d = still_open
  finished w c t premium reason raises d = raised d
  finished w c t premium reason (closes _) d =
      raised_or (w.raises_at reporting) d
        (settled w c reason (freed w t premium (cleaned_up w t d)))

  -- Stages E and F, once the watch has closed the position.
  abbrev pub closing :
      Course F → Settings F → Task → F → Option (ExitReason × Position F) → Desk F → Ending F
  closing w c t premium none d = still_open
  closing w c t premium (some (reason, p)) d = raised_or (w.raises_at exiting) d (
      finished w c t premium reason (submit_and_complete w.mode c.exit w.exit_leaf p w.exit_minute)
        d)

  -- What `Position` and its `ExitProfile` validate of their fields.
  abbrev pub is_valid : Settings F → Task → Bool
  is_valid c t =
      (str_eq t.index "nifty50" || str_eq t.index "banknifty") && ltb 0 c.profile.max_hold_sec

  -- The position is written, and watched.
  abbrev pub opened : Course F → Settings F → Task → F → EntryResult F → Desk F → Ending F
  opened w c t premium r d = raised_or (w.raises_at watching) d (
      closing w c t premium
        (watch w.looks (
          open_position t.pos_id t.sig_id t.index t.side t.strike t.token c.profile r.filled_qty
            r.avg_fill_price r.order_id w.entry_ts_ms))
        d)

  -- From the result of the entry on. An exception before the position is written leaves only the
  -- reservation.
  abbrev pub entered : Course F → Settings F → Task → F → EntryResult F → Desk F → Ending F
  entered w c t premium r d =
      if is_some r.abandon_reason || leb_ℤ r.filled_qty (pos 0)
      then raised_or (w.raises_at giving_up) d (returned (freed w t premium d))
      else raised_or (not (is_valid c t) || w.raises_at opening) d (
          opened w c t premium r (record d {
            vessel = after_entry t.side d.vessel;
            open_positions = sadd t.pos_id d.open_positions;
          }))

  abbrev pub is_ok : GateReason F → Bool
  is_ok ok = true
  is_ok _ = false

  abbrev pub gated :
      Course F → Settings F → Task → GateReason F × F × Allocator F → Desk F → Ending F
  gated w c t (reason, premium, a) d =
      if is_ok reason
      then raised_or (w.raises_at setting_up || w.raises_at entering) (record d { allocator = a })
          (entered w c t premium
            (submit_and_monitor w.mode c.entry w.entry_leaf t.qty_lots c.gate.lot_size)
            (record d { allocator = a }))
      else raised_or (w.raises_at giving_up) (record d { allocator = a })
          (returned (record d { allocator = a }))

  unfoldable pub process_signal : Course F → Settings F → Task → Desk F → Ending F
  process_signal w c t d = raised_or (w.raises_at gating) d (
      gated w c t
        (gate_and_reserve w.attempts w.flags w.chain c.gate t.index t.token t.qty_lots d.allocator)
        d)
