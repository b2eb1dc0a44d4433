-- ===== src/Exec/ExitEval.antt =====
-- backend/engines/order_exec/exit_eval.py: when an open position is closed, and how its trailing stop
-- follows the premium.
pub mod Cascade
pub mod Trailing
use pcr_momentum.Base.{
  ℕ, ◌-◌, ◌/◌, Bool, true, false, not, ◌&&◌, ◌||◌, Option, none, some, leb, ltb, is_some, String,
  truthy, if◌then◌else◌,
}
use pcr_momentum.Float.{Float, nought, max_f, ◌<f◌, ◌≤f◌, ◌>f◌, ◌≥f◌, ◌+f◌, ◌-f◌, ◌*f◌, ◌/f◌}
use pcr_momentum.Exec.{
  Position, Quote, ExitReason, hard_sl, hard_target, trailing_sl, time_exit, eod, liquidity,
  daily_loss_circuit, strategy_exit,
}

-- The clock and the flags of one evaluation, and the three settings that have defaults.
pub record Moment (F : Type 0) : Type 0 where
  pub premium : F
  pub leaf : Option (Quote F)
  pub now_ts_ms : ℕ
  pub now_minute : ℕ
  pub daily_loss : Bool
  pub exit_pull : Option String
  pub eod_minute : ℕ
  pub suppress_minute : ℕ
  pub spread_skip_pct : F

abbrev pub is_pulled : Option String → Bool
is_pulled none = false
is_pulled (some s) = truthy s

-- `max(0, (now - entry) // 1000)`: subtraction stops at 0.
abbrev pub held_seconds : ℕ → ℕ → ℕ
held_seconds now_ts_ms entry_ts_ms = (now_ts_ms - entry_ts_ms) / 1000

module _ {F : Type 0} ⦃fl : Float F⦄ where
  abbrev pub at_or_below : F → Option F → Bool
  at_or_below premium none = false
  at_or_below premium (some level) = premium ≤f level

  abbrev pub wide_quote : Option (Quote F) → F → Bool
  wide_quote none skip_pct = false
  wide_quote (some q) skip_pct =
      (q.ltp >f nought)
      && ((q.bid >f nought)
          && ((q.ask >f nought) && ((q.ask >f q.bid) && (((q.ask -f q.bid) /f q.ltp) >f skip_pct))))

  -- The first trigger in this order wins.
  unfoldable pub evaluate : Position F → Moment F → Option ExitReason
  evaluate p m =
      if is_pulled m.exit_pull
      then some strategy_exit
      else if m.daily_loss
      then some daily_loss_circuit
      else if leb m.eod_minute m.now_minute
      then some eod
      else if m.premium ≤f p.sl_level
      then some hard_sl
      else if m.premium ≥f p.target_level
      then some hard_target
      else if p.tsl_armed && at_or_below m.premium p.tsl_level
      then some trailing_sl
      else if ltb m.now_minute m.suppress_minute && wide_quote m.leaf m.spread_skip_pct
      then some liquidity
      else if leb p.max_hold_sec (held_seconds m.now_ts_ms p.entry_ts_ms)
      then some time_exit
      else none

  -- The level that a peak gives the trailing stop.
  abbrev pub trail_level : F → F → F
  trail_level peak trail_pct = fl.round_to 4 (peak *f (fl.dec 1 0 -f trail_pct))

  abbrev pub arms : Position F → F → Bool
  arms p premium = p.tsl_armed || (premium ≥f p.entry_price *f (fl.dec 1 0 +f p.tsl_arm_pct))

  unfoldable pub update_trailing_state : Position F → F → Position F
  update_trailing_state p premium =
      let new_peak = max_f p.peak_premium premium in
      record p {
        peak_premium = new_peak;
        tsl_armed = arms p premium;
        tsl_level =
            if arms p premium then some (trail_level new_peak p.tsl_trail_pct) else p.tsl_level;
        current_premium = premium;
      }
