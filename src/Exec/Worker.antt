-- ===== src/Exec/Worker.antt =====
-- backend/engines/order_exec/worker.py: the position that an entry opens, the loop that watches it, and
-- what its end leaves in the keys of the vessel.
pub mod Watch
pub mod Signals
pub mod Flip
use pcr_momentum.Base.{
  ℕ, String, Bool, true, false, ◌&&◌, Option, none, some, List, [], ◌∷◌, if◌then◌else◌,
}
use pcr_momentum.Base.Int.{ℤ, pos, ltb_ℤ, ◌+ℤ◌, ◌*ℤ◌}
use pcr_momentum.Float.{Float, nought, ◌≤f◌, ◌>f◌, ◌+f◌, ◌-f◌, ◌*f◌, ◌/f◌}
use pcr_momentum.Snapshot.{Side, ce, pe}
use pcr_momentum.Vessel.{
  VesselState, VesselKeys, flat, in_ce, in_pe, cooldown, state_name, set_state,
}
use pcr_momentum.Exec.{
  Position, Quote, ExitReason, hard_sl, trailing_sl, reversal_flip, strategy_exit,
}
use pcr_momentum.Exec.ExitEval.{Moment, held_seconds, evaluate, update_trailing_state}

-- The exit settings of an index, with their defaults 0.20, 0.50, 0.15, 0.05 and 1500.
pub record Profile (F : Type 0) : Type 0 where
  pub sl_pct : F
  pub target_pct : F
  pub tsl_arm_pct : F
  pub tsl_trail_pct : F
  pub max_hold_sec : ℕ

-- What one pass of the watching loop reads; the clock is read twice, for the record and to decide.
pub record Look (F : Type 0) : Type 0 where
  pub leaf : Option (Quote F)
  pub mark_ts_ms : ℕ
  pub now_ts_ms : ℕ
  pub now_minute : ℕ
  pub daily_loss : Bool
  pub exit_pull : Option String
  pub eod_minute : ℕ
  pub suppress_minute : ℕ
  pub spread_skip_pct : F

module _ {F : Type 0} ⦃fl : Float F⦄ where
  -- The position of a fill of `qty` at a price.
  unfoldable pub open_position :
      String → String → String → Side → ℤ → String → Profile F → ℤ → F → String → ℕ → Position F
  open_position pos_id sig_id index side strike token c qty price order_id now_ms = record {
    pos_id = pos_id;
    sig_id = sig_id;
    index = index;
    side = side;
    strike = strike;
    instrument_token = token;
    qty = qty;
    entry_order_id = order_id;
    entry_price = price;
    entry_ts_ms = now_ms;
    sl_level = fl.round_to 4 (price *f (fl.dec 1 0 -f c.sl_pct));
    target_level = fl.round_to 4 (price *f (fl.dec 1 0 +f c.target_pct));
    tsl_armed = false;
    tsl_arm_pct = c.tsl_arm_pct;
    tsl_trail_pct = c.tsl_trail_pct;
    tsl_level = none;
    peak_premium = price;
    current_premium = price;
    pnl = nought;
    pnl_pct = nought;
    holding_seconds = 0;
    max_hold_sec = c.max_hold_sec;
  }

  -- The last price, and the last premium where there is none above zero.
  abbrev pub premium_of : Option (Quote F) → Position F → F
  premium_of none p = p.current_premium
  premium_of (some q) p = if q.ltp ≤f nought then p.current_premium else q.ltp

  -- The profit at a premium, in rupees and in percent.
  unfoldable pub mark_to_market : F → ℕ → Position F → Position F
  mark_to_market premium now_ms p =
      let is_priced = p.entry_price >f nought && ltb_ℤ (pos 0) p.qty in
      record p {
        pnl =
            if is_priced
            then fl.round_to 4 ((premium -f p.entry_price) *f fl.of_int p.qty)
            else nought;
        pnl_pct =
            if is_priced
            then fl.round_to 4 ((premium /f p.entry_price -f fl.dec 1 0) *f fl.dec 100 0)
            else nought;
        holding_seconds = held_seconds now_ms p.entry_ts_ms;
      }

  unfoldable pub after_look : Look F → Position F → Position F
  after_look l p =
      let premium = premium_of l.leaf p in
      mark_to_market premium l.mark_ts_ms (update_trailing_state p premium)

  abbrev pub moment_of : Look F → F → Moment F
  moment_of l premium = record {
    premium = premium;
    leaf = l.leaf;
    now_ts_ms = l.now_ts_ms;
    now_minute = l.now_minute;
    daily_loss = l.daily_loss;
    exit_pull = l.exit_pull;
    eod_minute = l.eod_minute;
    suppress_minute = l.suppress_minute;
    spread_skip_pct = l.spread_skip_pct;
  }

  abbrev pub closed_or :
      Option ExitReason
      → Position F
      → Option (ExitReason × Position F)
      → Option (ExitReason × Position F)
  closed_or none p rest = rest
  closed_or (some r) p rest = some (r, p)

  -- The loop, over what its passes read; none says that the position is still open.
  unfoldable pub watch : List (Look F) → Position F → Option (ExitReason × Position F)
  watch [] p = none
  watch (l ∷ ls) p =
      let p' = after_look l p in
      closed_or (evaluate p' (moment_of l (premium_of l.leaf p))) p' (watch ls p')

-- The vessel after a confirmed entry.
unfoldable pub after_entry : Side → VesselKeys → VesselKeys
after_entry ce k = set_state in_ce k
after_entry pe k = set_state in_pe k

-- The seconds of cooldown with their defaults 60, 90 and 30.
pub record CooldownConfig : Type 0 where
  pub sl_cooldown : ℤ
  pub flip_cooldown : ℤ
  pub strategy_exit_cooldown : ℤ

-- A reason that is not in the table has no cooldown.
unfoldable pub cooldown_by_reason : ExitReason → CooldownConfig → ℤ × String
cooldown_by_reason hard_sl c = (c.sl_cooldown, "post_sl")
cooldown_by_reason trailing_sl c = (c.sl_cooldown, "post_tsl")
cooldown_by_reason reversal_flip c = (c.flip_cooldown, "post_flip")
cooldown_by_reason strategy_exit c = (c.strategy_exit_cooldown, "post_strategy_exit")
cooldown_by_reason _ c = (pos 0, "")

-- The vessel after a confirmed exit.
unfoldable pub after_exit : ℤ → ExitReason → CooldownConfig → VesselKeys → VesselKeys
after_exit now_ms reason c k =
    let (sec, why) = cooldown_by_reason reason c in
    if ltb_ℤ (pos 0) sec
    then record k {
      state = some (state_name cooldown);
      until = some (now_ms +ℤ sec *ℤ pos 1000);
      reason = why;
    }
    else record k { state = some (state_name flat); until = some (pos 0); reason = "" }
