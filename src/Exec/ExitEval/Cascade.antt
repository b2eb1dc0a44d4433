-- ===== src/Exec/ExitEval/Cascade.antt =====
-- The exit decision against the published table of triggers.
use pcr_momentum.Base.{
  ◌≡◌, refl, Bool, true, false, ◌&&◌, Option, none, some, List, [], ◌∷◌, leb, ltb, arith,
  if◌then◌else◌, ◌⊎◌, inl, inr, ◌↔◌, ◌≤◌, ◌<◌, Option-cases,
}
use pcr_momentum.Float.{Float, ◌≤f◌, ◌≥f◌}
use pcr_momentum.Exec.{
  Position, ExitReason, hard_sl, hard_target, trailing_sl, time_exit, eod, liquidity,
  daily_loss_circuit, strategy_exit,
}
use pcr_momentum.Exec.ExitEval.{Moment, is_pulled, at_or_below, wide_quote, held_seconds, evaluate}

-- A table of conditions with their reasons, in order of priority.
abbrev pub Table : Type 0
Table = List (Bool × ExitReason)

abbrev pub first_trigger : Table → Option ExitReason
first_trigger [] = none
first_trigger ((b, r) ∷ t) = if b then some r else first_trigger t

module _ {F : Type 0} ⦃fl : Float F⦄ where
  abbrev pub trigger_table : Position F → Moment F → Table
  trigger_table p m =
      (is_pulled m.exit_pull, strategy_exit)
      ∷ (m.daily_loss, daily_loss_circuit)
      ∷ (leb m.eod_minute m.now_minute, eod)
      ∷ ((m.premium ≤f p.sl_level), hard_sl)
      ∷ ((m.premium ≥f p.target_level), hard_target)
      ∷ ((p.tsl_armed && at_or_below m.premium p.tsl_level), trailing_sl)
      ∷ ((ltb m.now_minute m.suppress_minute && wide_quote m.leaf m.spread_skip_pct), liquidity)
      ∷ (leb p.max_hold_sec (held_seconds m.now_ts_ms p.entry_ts_ms), time_exit)
      ∷ []

  -- The exit cascade is the first trigger of the table that holds, and none if none does.
  pub evaluate-first_trigger :
      (p : Position F) (m : Moment F) → evaluate p m ≡ first_trigger (trigger_table p m)
  unfolding evaluate
  evaluate-first_trigger p m = refl

  -- The premium lies strictly between the stop and the target, the day's limits are not reached, and
  -- the holding time is not over.
  pub record IsQuiet (p : Position F) (m : Moment F) : Type 0 where
    pub not_pulled : is_pulled m.exit_pull ≡ false
    pub no_circuit : m.daily_loss ≡ false
    pub before_eod : m.now_minute < m.eod_minute
    pub above_stop : (m.premium ≤f p.sl_level) ≡ false
    pub below_target : (m.premium ≥f p.target_level) ≡ false
    pub above_trail : (p.tsl_armed && at_or_below m.premium p.tsl_level) ≡ false
    pub liquid : (ltb m.now_minute m.suppress_minute && wide_quote m.leaf m.spread_skip_pct) ≡ false
    pub in_time : held_seconds m.now_ts_ms p.entry_ts_ms < p.max_hold_sec

  IsQuiet-of_none : (p : Position F) (m : Moment F) → evaluate p m ≡ none → IsQuiet p m
  unfolding evaluate
  IsQuiet-of_none p m e = ground arith

  none_of_quiet : (p : Position F) (m : Moment F) → IsQuiet p m → evaluate p m ≡ none
  unfolding evaluate
  none_of_quiet p m q = ground arith

  -- A position is kept open exactly while it is quiet: no pull and no loss circuit, before the
  -- square-off, strictly between stop and target, not at its armed trailing stop, liquid, and within
  -- its holding time.
  pub evaluate-none-iff-IsQuiet :
      (p : Position F) (m : Moment F) → (evaluate p m ≡ none) ↔ IsQuiet p m
  evaluate-none-iff-IsQuiet p m = (IsQuiet-of_none p m, none_of_quiet p m)

  -- From the square-off on, and once the holding time is over, every evaluation closes the position.
  pub evaluate-bounded :
      (p : Position F) (m : Moment F)
      → (m.eod_minute ≤ m.now_minute) ⊎ (p.max_hold_sec ≤ held_seconds m.now_ts_ms p.entry_ts_ms)
      → (r : ExitReason) × (evaluate p m ≡ some r)
  evaluate-bounded p m h = elim (Option-cases (evaluate p m)) [
    | inl e ↦ let q = IsQuiet-of_none p m e in absurd (omega (arith, q.before_eod, q.in_time))
    | inr r ↦ r
  ]

  -- The loss of capital comes before the profit: at or under the stop, whatever the target, the
  -- position is closed for one of the four reasons that precede the target.
  pub evaluate-stop :
      (p : Position F) (m : Moment F)
      → (m.premium ≤f p.sl_level) ≡ true
      → let r = evaluate p m in
        (r ≡ some strategy_exit)
        ⊎ ((r ≡ some daily_loss_circuit) ⊎ ((r ≡ some eod) ⊎ (r ≡ some hard_sl)))
  unfolding evaluate
  evaluate-stop p m h = ground arith
