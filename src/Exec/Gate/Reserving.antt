-- ===== src/Exec/Gate/Reserving.antt =====
-- What the gate leaves behind: a reservation, or nothing.
use pcr_momentum.Base.{
  ℕ, String, ◌≡◌, ◌≢◌, ◌⊎◌, inl, inr, refl, sym, ap, ◌∙◌, true, false, Option, none, some,
  Bool-cases, arith,
}
use pcr_momentum.Base.Int.{ℤ, pos, leb_ℤ}
use pcr_momentum.Float.{Float, nought, ◌≤f◌, ◌>f◌, ◌-f◌, ◌/f◌}
use pcr_momentum.Exec.{Quote, QuoteChain, read_leaf}
use pcr_momentum.Exec.Allocator.{
  Allocator, Verdict, reserved, already_open_on_index, max_concurrent_reached, insufficient_capital,
  allocator_error, retry_exhausted, Attempt, check_and_reserve, reserve_txn,
}
use pcr_momentum.Exec.Allocator.Runs.{
  met, is_lost, AttemptOutcome, check_and_reserve-AttemptOutcome,
}
use pcr_momentum.Exec.Gate.{
  Flags, GateConfig, GateReason, ok, trading_inactive, daily_loss, kill_switch_engaged,
  order_exec_not_up, leaf_missing, no_quotes, crossed_book, no_capital_configured,
  no_concurrency_configured, premium_zero, spread_too_wide, allocator_refused, check, check_quote,
  compute_premium_required, reply, reserve_quote, reserve_if, gate_and_reserve,
  is_kill_switch_engaged,
}

module _ {F : Type 0} ⦃fl : Float F⦄ where
  -- A refusal leaves the allocator as it was, or as the other clients have left it when the last
  -- attempt meets it; or that attempt has reserved a premium, and its reply was lost.
  abbrev pub IsLeft :
      (ℕ → Attempt F)
      → String
      → GateConfig F
      → Allocator F
      → GateReason F × F × Allocator F
      → Type 0
  IsLeft outcome index c a r =
      let b = met 5 outcome a in
      (r.2 ≡ a)
      ⊎ ((r.2 ≡ b)
          ⊎ ((r.0 ≡ allocator_refused allocator_error)
              × (premium : F) × (r.2
                  ≡ (reserve_txn index premium c.trading_capital c.max_concurrent b).1)
              × (n : ℕ) × (is_lost (outcome n) ≡ true)))

  -- No premium is granted.
  abbrev pub IsRefused :
      (ℕ → Attempt F)
      → String
      → GateConfig F
      → Allocator F
      → GateReason F × F × Allocator F
      → Type 0
  IsRefused outcome index c a r = (r.0 ≢ ok) × (r.1 ≡ nought) × IsLeft outcome index c a r

  -- A quote that passes: all its prices are above zero, it is not crossed, and its spread is within
  -- the share of the last price.
  abbrev pub IsTradable : F → Quote F → Type 0
  IsTradable skip_pct q =
      ((q.ltp ≤f nought) ≡ false)
      × ((q.bid ≤f nought) ≡ false)
      × ((q.ask ≤f nought) ≡ false)
      × ((q.ask ≤f q.bid) ≡ false)
      × ((((q.ask -f q.bid) /f q.ltp) >f skip_pct) ≡ false)

  -- One transaction of the allocator reserved the premium for the quote of the token, while the system
  -- is up, trades, and no switch or circuit forbids it.
  abbrev pub IsReserved :
      Flags
      → QuoteChain F
      → GateConfig F
      → String
      → String
      → ℤ
      → Allocator F
      → GateReason F × F × Allocator F
      → Type 0
  IsReserved f chain c index token qty_lots a r =
      (q : Quote F) × (read_leaf chain token ≡ some q)
      × IsTradable c.spread_skip_pct q
      × (f.trading_active ≡ true)
      × (f.daily_loss_circuit ≡ false)
      × (is_kill_switch_engaged "NSE_FO" f.kill_switch ≡ false)
      × (f.order_exec_up ≡ true)
      × (r.1 ≡ compute_premium_required q qty_lots c.lot_size)
      × ((r.1 ≤f nought) ≡ false)
      × (reserve_txn index r.1 c.trading_capital c.max_concurrent a ≡ (reserved, r.2))

  -- The gates that an `ok` of `check` has passed.
  check-ok :
      (f : Flags) (chain : QuoteChain F) (token : String) (skip_pct : F) (q : Quote F)
      → read_leaf chain token ≡ some q
      → check f chain token skip_pct ≡ ok
      → IsTradable skip_pct q
        × (f.trading_active ≡ true)
        × (f.daily_loss_circuit ≡ false)
        × (is_kill_switch_engaged "NSE_FO" f.kill_switch ≡ false)
        × (f.order_exec_up ≡ true)
  unfolding check check_quote
  check-ok f chain token skip_pct q e h = ground arith

  reserve_txn-keeps :
      (index : String) (premium capital : F) (limit : ℤ) (a : Allocator F)
      → (reserve_txn index premium capital limit a).0 ≢ reserved
      → (reserve_txn index premium capital limit a).1 ≡ a
  unfolding reserve_txn
  reserve_txn-keeps index premium capital limit a h = ground arith

  reserved_is :
      (outcome : ℕ → Attempt F) (b a' : Allocator F) (t : Verdict × Allocator F)
      → AttemptOutcome outcome b t (reserved, a')
      → t ≡ (reserved, a')
  reserved_is outcome b a' t (inl e) = sym e
  reserved_is outcome b a' t (inr (inl e)) = absurd (ground arith)
  reserved_is outcome b a' t (inr (inr (inl e))) = absurd (ground arith)
  reserved_is outcome b a' t (inr (inr (inr (e, n, lost)))) = absurd (ground arith)

  reply-Outcome :
      (outcome : ℕ → Attempt F) (index : String) (premium : F) (c : GateConfig F) (a : Allocator F)
      (r t : Verdict × Allocator F)
      → t ≡ reserve_txn index premium c.trading_capital c.max_concurrent (met 5 outcome a)
      → AttemptOutcome outcome (met 5 outcome a) t r
      → (t.0 ≢ reserved → t.1 ≡ met 5 outcome a)
      → IsRefused outcome index c a (reply premium r)
        ⊎ ((reply premium r ≡ (ok, premium, r.1)) × (t ≡ (reserved, r.1)))
  reply-Outcome outcome index premium c a (reserved, a') t is_txn h keeps =
      inr (refl, reserved_is outcome (met 5 outcome a) a' t h)
  reply-Outcome outcome index premium c a (already_open_on_index, a') t is_txn h keeps =
      inl (ground arith, refl, inr (inl (ground arith)))
  reply-Outcome outcome index premium c a (max_concurrent_reached, a') t is_txn h keeps =
      inl (ground arith, refl, inr (inl (ground arith)))
  reply-Outcome outcome index premium c a (insufficient_capital, a') t is_txn h keeps =
      inl (ground arith, refl, inr (inl (ground arith)))
  reply-Outcome outcome index premium c a (allocator_error, a') t is_txn h keeps = elim h [
    | inl e ↦ inl (ground arith, refl, inr (inl (ground arith)))
    | inr (inl e) ↦ inl (ground arith, refl, inr (inl (ap (λ v. v.1) e)))
    | inr (inr (inl e)) ↦ inl (ground arith, refl, inr (inl (ap (λ v. v.1) e)))
    | inr (inr (inr (e, n, lost))) ↦ inl (
      ground arith,
      refl,
      inr (inr (refl, premium, ap (λ v. v.1) e ∙ ap (λ v. v.1) is_txn, n, lost)),
    )
  ]
  reply-Outcome outcome index premium c a (retry_exhausted, a') t is_txn h keeps =
      inl (ground arith, refl, inr (inl (ground arith)))

  -- With a leaf: refused, or the premium of the leaf is reserved by one transaction.
  reserve_quote-Outcome :
      (outcome : ℕ → Attempt F) (index : String) (qty_lots : ℤ) (c : GateConfig F) (q : Quote F)
      (a : Allocator F)
      → let r = reserve_quote outcome index qty_lots c (some q) a in
        IsRefused outcome index c a r
        ⊎ ((r.0 ≡ ok)
            × (r.1 ≡ compute_premium_required q qty_lots c.lot_size)
            × ((r.1 ≤f nought) ≡ false)
            × (reserve_txn index r.1 c.trading_capital c.max_concurrent (met 5 outcome a)
                ≡ (reserved, r.2)))
  reserve_quote-Outcome outcome index qty_lots c q a =
      let premium = compute_premium_required q qty_lots c.lot_size in
      let b = met 5 outcome a in
      let ran =
        check_and_reserve-AttemptOutcome outcome index premium c.trading_capital c.max_concurrent
          a in
      let keeps = reserve_txn-keeps index premium c.trading_capital c.max_concurrent b in
      let replied =
        reply-Outcome outcome index premium c a
          (check_and_reserve outcome index premium c.trading_capital c.max_concurrent a)
          (reserve_txn index premium c.trading_capital c.max_concurrent b) refl ran keeps in
      elim (Bool-cases (c.trading_capital ≤f nought)) [
        | inl none_set ↦ rw none_set (inl (ground arith, refl, inl refl))
        | inr capital ↦ elim (Bool-cases (leb_ℤ c.max_concurrent (pos 0))) [
          | inl none_set ↦ rw (capital, none_set) (inl (ground arith, refl, inl refl))
          | inr limit ↦ elim (Bool-cases (premium ≤f nought)) [
            | inl free ↦ rw (capital, limit, free) (inl (ground arith, refl, inl refl))
            | inr dear ↦
                rw (capital, limit, dear)
                  (elim replied [
                    | inl refusal ↦ inl refusal
                    | inr got ↦ inr (rw got.0 (refl, refl, dear, got.1))
                  ])
          ]
        ]
      ]

  reserve_if-Outcome :
      (reason : GateReason F) (outcome : ℕ → Attempt F) (f : Flags) (chain : QuoteChain F)
      (c : GateConfig F) (index token : String) (qty_lots : ℤ) (leaf : Option (Quote F))
      (a : Allocator F)
      → check f chain token c.spread_skip_pct ≡ reason
      → read_leaf chain token ≡ leaf
      → let r = reserve_if reason outcome index qty_lots c leaf a in
        IsRefused outcome index c a r
        ⊎ ((r.0 ≡ ok) × IsReserved f chain c index token qty_lots (met 5 outcome a) r)
  reserve_if-Outcome ok outcome f chain c index token qty_lots none a e l =
      inl (ground arith, refl, inl refl)
  reserve_if-Outcome ok outcome f chain c index token qty_lots (some q) a e l =
      let passed = check-ok f chain token c.spread_skip_pct q l e in
      elim (reserve_quote-Outcome outcome index qty_lots c q a) [
        | inl refusal ↦ inl refusal
        | inr took ↦ inr (
          took.0,
          (q, l, passed.0, passed.1, passed.2, passed.3, passed.4, took.1, took.2, took.3),
        )
      ]
  reserve_if-Outcome trading_inactive outcome f chain c index token qty_lots leaf a e l =
      inl (ground arith, refl, inl refl)
  reserve_if-Outcome daily_loss outcome f chain c index token qty_lots leaf a e l =
      inl (ground arith, refl, inl refl)
  reserve_if-Outcome kill_switch_engaged outcome f chain c index token qty_lots leaf a e l =
      inl (ground arith, refl, inl refl)
  reserve_if-Outcome order_exec_not_up outcome f chain c index token qty_lots leaf a e l =
      inl (ground arith, refl, inl refl)
  reserve_if-Outcome leaf_missing outcome f chain c index token qty_lots leaf a e l =
      inl (ground arith, refl, inl refl)
  reserve_if-Outcome no_quotes outcome f chain c index token qty_lots leaf a e l =
      inl (ground arith, refl, inl refl)
  reserve_if-Outcome crossed_book outcome f chain c index token qty_lots leaf a e l =
      inl (ground arith, refl, inl refl)
  reserve_if-Outcome no_capital_configured outcome f chain c index token qty_lots leaf a e l =
      inl (ground arith, refl, inl refl)
  reserve_if-Outcome no_concurrency_configured outcome f chain c index token qty_lots leaf a e l =
      inl (ground arith, refl, inl refl)
  reserve_if-Outcome premium_zero outcome f chain c index token qty_lots leaf a e l =
      inl (ground arith, refl, inl refl)
  reserve_if-Outcome (spread_too_wide _) outcome f chain c index token qty_lots leaf a e l =
      inl (ground arith, refl, inl refl)
  reserve_if-Outcome (allocator_refused _) outcome f chain c index token qty_lots leaf a e l =
      inl (ground arith, refl, inl refl)

  -- Every signal is refused with a reason and no premium; or it is accepted, all gates hold at that
  -- moment, and one transaction has reserved the premium that the reply names, on the allocator as the
  -- other clients have left it. A refusal leaves the allocator as it was, or as the others have left it,
  -- unless the reply of a transaction was lost, which is the one way to reserve without being accepted.
  pub gate_and_reserve-Outcome :
      (outcome : ℕ → Attempt F) (f : Flags) (chain : QuoteChain F) (c : GateConfig F)
      (index token : String) (qty_lots : ℤ) (a : Allocator F)
      → let r = gate_and_reserve outcome f chain c index token qty_lots a in
        IsRefused outcome index c a r
        ⊎ ((r.0 ≡ ok) × IsReserved f chain c index token qty_lots (met 5 outcome a) r)
  unfolding gate_and_reserve
  gate_and_reserve-Outcome outcome f chain c index token qty_lots a =
      reserve_if-Outcome (check f chain token c.spread_skip_pct) outcome f chain c index token
        qty_lots (read_leaf chain token) a refl refl
