-- ===== src/Examples/Orders.antt =====
-- The exits of a position on concrete data, and products and roundings that keep the order.
use native.Mathlib.Nat.{mul-le-mul_right, add-mul}
use pcr_momentum.Base.{◌≡◌, ◌⊎◌, ◌↔◌, ◌≤◌, ◌+◌, ℕ, refl, true, false, some, none, arith}
use pcr_momentum.Base.Int.{ℤ, pos, negsuc, ◌-ℤ◌, ◌*ℤ◌, leb_ℤ, pos_part, neg_part}
use pcr_momentum.Float.{◌≤f◌}
use pcr_momentum.Float.Fixed.{fixed, fixed-IsOrdered, div_ℤ}
use pcr_momentum.Snapshot.{ce}
use pcr_momentum.Exec.{Position, strategy_exit, daily_loss_circuit, eod, hard_sl}
use pcr_momentum.Exec.ExitEval.{Moment, evaluate, update_trailing_state}
use pcr_momentum.Exec.ExitEval.Cascade.{IsQuiet, evaluate-none-iff-IsQuiet, evaluate-stop}
use pcr_momentum.Exec.ExitEval.Trailing.{IsMonotone, IsTrailing, NotBelow, update-IsTrailing}

div_ℤ-mono : (a b : ℤ) → leb_ℤ a b ≡ true → leb_ℤ (div_ℤ a (pos 1000)) (div_ℤ b (pos 1000)) ≡ true
unfolding ◌*ℤ◌
div_ℤ-mono a b h = ground arith

*ℤ-mono : (a b : ℤ) (m : ℕ) → leb_ℤ a b ≡ true → leb_ℤ (a *ℤ pos m) (b *ℤ pos m) ≡ true
unfolding ◌*ℤ◌
*ℤ-mono a b m h =
    let le : pos_part a + neg_part b ≤ pos_part b + neg_part a = ground arith in
    let scaled_le = mul-le-mul_right m le in
    ground
      (arith, scaled_le, add-mul (pos_part a) (neg_part b) m, add-mul (pos_part b) (neg_part a) m)

*f-mono :
    (x y k : ℤ)
    → leb_ℤ x y ≡ true
    → leb_ℤ (pos 0) k ≡ true
    → leb_ℤ (div_ℤ (x *ℤ k) (pos 1000)) (div_ℤ (y *ℤ k) (pos 1000)) ≡ true
*f-mono x y (pos m) h p = div_ℤ-mono (x *ℤ pos m) (y *ℤ pos m) (*ℤ-mono x y m h)
*f-mono x y (negsuc m) h p = absurd (ground arith)

fixed-IsMonotone : IsMonotone ℤ
fixed-IsMonotone = record {
  mul_mono = λ x y k h p nx ny. *f-mono x y k h p;
  round_mono = λ n x y h. h;
}

-- Bought at 100, stop at 80, target at 150, and armed at a peak of 120.
abbrev pub position : Position ℤ
position = record {
  pos_id = "p";
  sig_id = "s";
  index = "nifty50";
  side = ce;
  strike = pos 100;
  instrument_token = "C1";
  qty = pos 75;
  entry_order_id = "o";
  entry_price = pos 100000;
  entry_ts_ms = 1000;
  sl_level = pos 80000;
  target_level = pos 150000;
  tsl_armed = true;
  tsl_arm_pct = pos 150;
  tsl_trail_pct = pos 50;
  tsl_level = some (pos 114000);
  peak_premium = pos 120000;
  current_premium = pos 120000;
  pnl = pos 0;
  pnl_pct = pos 0;
  holding_seconds = 0;
  max_hold_sec = 1500;
}

abbrev moment : ℤ → ℕ → Moment ℤ
moment premium minute = record {
  premium = premium;
  leaf = none;
  now_ts_ms = 61000;
  now_minute = minute;
  daily_loss = false;
  exit_pull = none;
  eod_minute = 915;
  suppress_minute = 900;
  spread_skip_pct = pos 50;
}

evaluate-none-iff-IsQuiet_example :
    (evaluate position (moment (pos 118000) 600) ≡ none)
    ↔ IsQuiet position (moment (pos 118000) 600)
evaluate-none-iff-IsQuiet_example = evaluate-none-iff-IsQuiet position (moment (pos 118000) 600)

evaluate-stop_example :
    let r = evaluate position (moment (pos 79000) 600) in
    (r ≡ some strategy_exit)
    ⊎ ((r ≡ some daily_loss_circuit) ⊎ ((r ≡ some eod) ⊎ (r ≡ some hard_sl)))
evaluate-stop_example = evaluate-stop position (moment (pos 79000) 600) refl

update-IsTrailing_example :
    let q = update_trailing_state position (pos 130000) in
    ((position.peak_premium ≤f q.peak_premium) ≡ true)
    × ((pos 130000 ≤f q.peak_premium) ≡ true)
    × IsTrailing q
    × (position.tsl_armed ≡ true → (q.tsl_armed ≡ true) × NotBelow position.tsl_level q.tsl_level)
unfolding ◌-ℤ◌ ◌*ℤ◌
update-IsTrailing_example =
    update-IsTrailing fixed-IsOrdered fixed-IsMonotone position (pos 130000) refl refl refl refl
      refl (λ armed. refl)
