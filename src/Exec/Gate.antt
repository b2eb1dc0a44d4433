-- ===== src/Exec/Gate.antt =====
-- backend/engines/order_exec/pre_entry_gate.py: whether a signal may be traded now, and the reservation
-- of its capital.
pub mod Reserving
use pcr_momentum.Base.{
  ℕ, String, str_eq, Bool, true, false, not, ◌||◌, Option, none, some, List, [], ◌∷◌, if◌then◌else◌,
}
use pcr_momentum.Base.Int.{ℤ, pos, leb_ℤ}
use pcr_momentum.Float.{Float, nought, ◌≤f◌, ◌>f◌, ◌-f◌, ◌*f◌, ◌/f◌}
use pcr_momentum.Exec.{Quote, QuoteChain, read_leaf}
use pcr_momentum.Exec.Allocator.{Allocator, Verdict, reserved, Attempt, check_and_reserve}

-- One entry of the broker's kill-switch snapshot.
pub record Segment : Type 0 where
  pub segment : String
  pub segment_status : String
  pub kill_switch_enabled : Bool

-- The flags of the system. A flag is set when its text is exactly "true"; a snapshot that is missing
-- or no list is empty.
pub record Flags : Type 0 where
  pub trading_active : Bool
  pub daily_loss_circuit : Bool
  pub kill_switch : List Segment
  pub order_exec_up : Bool

-- The settings with their defaults: spread_skip_pct 0.05, lot_size 1, the other two 0.
pub record GateConfig (F : Type 0) : Type 0 where
  pub spread_skip_pct : F
  pub lot_size : ℤ
  pub trading_capital : F
  pub max_concurrent : ℤ

pub data GateReason (F : Type 0) : Type 0 where
  ok trading_inactive daily_loss kill_switch_engaged order_exec_not_up leaf_missing no_quotes
        crossed_book no_capital_configured no_concurrency_configured premium_zero :
      GateReason F
  spread_too_wide : F → GateReason F
  allocator_refused : Verdict → GateReason F

-- The first entry of the segment decides.
unfoldable pub is_kill_switch_engaged : String → List Segment → Bool
is_kill_switch_engaged name [] = false
is_kill_switch_engaged name (s ∷ ss) =
    if str_eq s.segment name
    then (if str_eq s.segment_status "ACTIVE" then s.kill_switch_enabled else true)
    else is_kill_switch_engaged name ss

module _ {F : Type 0} ⦃fl : Float F⦄ where
  -- A quote too thin for the lots passes, as in the source.
  unfoldable pub check_quote : Option (Quote F) → F → GateReason F
  check_quote none skip_pct = leaf_missing
  check_quote (some q) skip_pct =
      if q.ltp ≤f nought || (q.bid ≤f nought || q.ask ≤f nought)
      then no_quotes
      else if q.ask ≤f q.bid
      then crossed_book
      else if ((q.ask -f q.bid) /f q.ltp) >f skip_pct
      then spread_too_wide ((q.ask -f q.bid) /f q.ltp)
      else ok

  unfoldable pub check : Flags → QuoteChain F → String → F → GateReason F
  check f chain token skip_pct =
      if not f.trading_active
      then trading_inactive
      else if f.daily_loss_circuit
      then daily_loss
      else if is_kill_switch_engaged "NSE_FO" f.kill_switch
      then kill_switch_engaged
      else if not f.order_exec_up
      then order_exec_not_up
      else check_quote (read_leaf chain token) skip_pct

  unfoldable pub compute_premium_required : Quote F → ℤ → ℤ → F
  compute_premium_required q qty_lots lot_size =
      fl.of_int qty_lots *f fl.of_int lot_size *f (if q.ask ≤f nought then q.ltp else q.ask)

  -- The verdict of the allocator as the reply of the gate.
  abbrev pub reply : F → Verdict × Allocator F → GateReason F × F × Allocator F
  reply premium (reserved, a) = (ok, premium, a)
  reply premium (v, a) = (allocator_refused v, nought, a)

  abbrev pub reserve_quote :
      (ℕ → Attempt F)
      → String
      → ℤ
      → GateConfig F
      → Option (Quote F)
      → Allocator F
      → GateReason F × F × Allocator F
  reserve_quote outcome index qty_lots c none a = (leaf_missing, nought, a)
  reserve_quote outcome index qty_lots c (some q) a =
      let premium = compute_premium_required q qty_lots c.lot_size in
      if c.trading_capital ≤f nought
      then (no_capital_configured, nought, a)
      else if leb_ℤ c.max_concurrent (pos 0)
      then (no_concurrency_configured, nought, a)
      else if premium ≤f nought
      then (premium_zero, nought, a)
      else reply premium
          (check_and_reserve outcome index premium c.trading_capital c.max_concurrent a)

  abbrev pub reserve_if :
      GateReason F
      → (ℕ → Attempt F)
      → String
      → ℤ
      → GateConfig F
      → Option (Quote F)
      → Allocator F
      → GateReason F × F × Allocator F
  reserve_if ok outcome index qty_lots c leaf a = reserve_quote outcome index qty_lots c leaf a
  reserve_if reason outcome index qty_lots c leaf a = (reason, nought, a)

  -- The gates and then the reservation; the reply has the premium that is to be released later.
  unfoldable pub gate_and_reserve :
      (ℕ → Attempt F)
      → Flags
      → QuoteChain F
      → GateConfig F
      → String
      → String
      → ℤ
      → Allocator F
      → GateReason F × F × Allocator F
  gate_and_reserve outcome f chain c index token qty_lots a =
      reserve_if (check f chain token c.spread_skip_pct) outcome index qty_lots c
        (read_leaf chain token) a
