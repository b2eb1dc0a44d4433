-- ===== src/Exec/Worker/Flip.antt =====
-- backend/engines/order_exec/worker.py, _close_existing_position_for_flip, and process_signal for a
-- reversal. Statuses, the report and the position's other keys are left out; `positions` holds what
-- _load_position_from_hash makes of orders:positions:*, none where it does not validate.
pub mod Slots
use pcr_momentum.Base.{ℕ, String, Bool, true, false, Option, none, some, truthy, if◌then◌else◌}
use pcr_momentum.Base.Dict.{Dict, get, put, remove}
use pcr_momentum.Float.{Float, ◌*f◌}
use pcr_momentum.Exec.{Position, Quote, ExitReason}
use pcr_momentum.Exec.Allocator.{sadd, srem, release}
use pcr_momentum.Exec.ExitSubmit.{ExitConfig, ExitEnd, waits, raises, closes}
use pcr_momentum.Exec.Worker.Signals.{
  Desk, Mode, Task, Settings, Course, Ending, submit_and_complete, process_signal,
}

pub record FlipDesk (F : Type 0) : Type 0 where
  pub desk : Desk F
  pub current_position : Dict String
  pub positions : Dict (Option (Position F))

-- What the exit of the prior position meets: its orders, an exception of exit_submit, the leaf and the
-- minute; an exception of the report, which process_signal does not catch; one of the cleanup, which is
-- caught; and whether the release reaches Redis.
pub record FlipCourse (F : Type 0) : Type 0 where
  pub mode : Mode F
  pub raised : Bool
  pub leaf : Option (Quote F)
  pub minute : ℕ
  pub report_raises : Bool
  pub cleanup_fails : Bool
  pub is_connected : Bool

-- The step before the entry goes on, gives up, still waits for the fill of its exit, or raises.
pub data Closing (F : Type 0) : Type 0 where
  go_on : FlipDesk F → Closing F
  give_up : FlipDesk F → Closing F
  waiting : Closing F
  failed : FlipDesk F → Closing F

-- What is left of a flip: refused because the prior leg was not closed, or the entry has been
-- processed; or the exit of the prior leg still waits; or its report has raised.
pub data Flipped (F : Type 0) : Type 0 where
  refused : FlipDesk F → Flipped F
  processed : Ending F → Flipped F
  exiting : Flipped F
  unreported : FlipDesk F → Flipped F

abbrev pub text_or_empty : Option String → String
text_or_empty none = ""
text_or_empty (some s) = s

abbrev pub joined {ℓ} : {A : Type ℓ} → Option (Option A) → Option A
joined none = none
joined (some o) = o

-- The position that the vessel of an index holds: current_position_id, and its record.
abbrev pub current_id : {F : Type 0} → String → FlipDesk F → String
current_id index d = text_or_empty (get index d.current_position)

abbrev pub prior : {F : Type 0} → String → FlipDesk F → Option (Position F)
prior index d = joined (get (current_id index d) d.positions)

module _ {F : Type 0} ⦃fl : Float F⦄ where
  -- cleanup.cleanup.
  abbrev pub cleaned : FlipCourse F → String → String → FlipDesk F → FlipDesk F
  cleaned w index pos_id d = if w.cleanup_fails then d else record {
    desk = record (d.desk) {
      open_positions = srem pos_id d.desk.open_positions;
      closed_today = sadd pos_id d.desk.closed_today;
    };
    current_position = put index "" d.current_position;
    positions = remove pos_id d.positions;
  }

  -- The release of what the position had reserved.
  abbrev pub given_back : FlipCourse F → String → Position F → FlipDesk F → FlipDesk F
  given_back w index p d = record d {
    desk = record (d.desk) {
      allocator =
          (release w.is_connected index (p.entry_price *f fl.of_int p.qty) d.desk.allocator).1;
    };
  }

  abbrev pub after_exit_order :
      FlipCourse F → String → String → Position F → ExitEnd F → FlipDesk F → Closing F
  after_exit_order w index pos_id p waits d = waiting
  after_exit_order w index pos_id p raises d = give_up d
  after_exit_order w index pos_id p (closes _) d =
      if w.report_raises then failed d else go_on (given_back w index p (cleaned w index pos_id d))

  abbrev pub close_loaded :
      FlipCourse F → ExitConfig F → String → String → Option (Position F) → FlipDesk F → Closing F
  close_loaded w c index pos_id none d = give_up d
  close_loaded w c index pos_id (some p) d =
      if w.raised
      then give_up d
      else after_exit_order w index pos_id p (submit_and_complete w.mode c w.leaf p w.minute) d

  unfoldable pub close_existing_position_for_flip :
      FlipCourse F → ExitConfig F → String → FlipDesk F → Closing F
  close_existing_position_for_flip w c index d =
      if truthy (current_id index d)
      then close_loaded w c index (current_id index d) (prior index d) d
      else go_on d

  abbrev pub after_closing : Course F → Settings F → Task → Closing F → Flipped F
  after_closing w c t (go_on d) = processed (process_signal w c t d.desk)
  after_closing w c t (give_up d) = refused d
  after_closing w c t waiting = exiting
  after_closing w c t (failed d) = unreported d

  unfoldable pub process_flip : FlipCourse F → Course F → Settings F → Task → FlipDesk F → Flipped F
  unfolding close_existing_position_for_flip
  process_flip f w c t d = after_closing w c t (close_existing_position_for_flip f c.exit t.index d)
