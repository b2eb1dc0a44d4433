-- ===== src/Exec/Entry/Fills.antt =====
-- What an entry counts as filled, and how it is given up.
use pcr_momentum.Base.{
  ℕ, String, str_eq, eq_iff, ◌≡◌, ◌⊎◌, inl, inr, refl, Bool, true, false, ◌&&◌, Option, none, some,
  List, [], ◌∷◌, ◌++◌, Bool-cases, is_some, arith,
}
use pcr_momentum.Base.Int.{ℤ, pos, eqb_ℤ, ◌*ℤ◌}
use pcr_momentum.Float.{Float, nought, ◌≤f◌, ◌>f◌, ◌≥f◌, ◌+f◌, ◌-f◌}
use pcr_momentum.Exec.{
  Quote, fill, Payload, Placed, refused, accepted, BrokerCall, cancel_order, Event, modified,
  reported, qty_or, price_or, id_or, no_order,
}
use pcr_momentum.Exec.Events.{Has, Has-left, Has-last, OrderEvent-cases}
use pcr_momentum.Exec.Entry.{
  AbandonReason, broker_reject, open_timeout, chase_ceiling_breached, EntryResult, EntryConfig,
  Pass, read_fails, quiet, arrives, Monitor, take_payloads, follow_ask, settle, conclude,
  after_quiet, after_batch, after_placing, started, monitor, submit_and_monitor_live, grace_over,
}

module _ {F : Type 0} ⦃fl : Float F⦄ (order_id : String) (qty : ℤ) (price : F) where
  -- A fill is one that the broker reported for this order.
  abbrev pub IsBacked : Option (ℤ × F) → List (Event F) → Type 0
  IsBacked none events = Unit
  IsBacked (some (n, x)) events =
      (p : Payload F) × Has (reported p) events
      × (p.order_id ≡ order_id)
      × (p.event_type ≡ fill)
      × (n ≡ qty_or p.filled_qty qty)
      × (x ≡ price_or p.avg_price price)

  abbrev IsSound : Monitor F → Type 0
  IsSound m = IsBacked m.fill_seen m.events

  IsBacked-later :
      (f : Option (ℤ × F)) (events more : List (Event F))
      → IsBacked f events
      → IsBacked f (events ++ more)
  IsBacked-later none events more b = tt
  IsBacked-later (some (n, x)) events more b =
      (b.0, Has-left (reported b.0) events more b.1, b.2, b.3, b.4, b.5)

  take_payloads-IsSound :
      (now : ℕ) (ps : List (Payload F)) (m : Monitor F)
      → IsSound m
      → IsSound (take_payloads order_id qty price now ps m).1
  unfolding take_payloads
  take_payloads-IsSound now [] m s = s
  take_payloads-IsSound now (p ∷ ps) m s =
      let seen = record m { events = m.events ++ reported p ∷ [] } in
      let later = IsBacked-later m.fill_seen m.events (reported p ∷ []) s in
      elim (Bool-cases (str_eq p.order_id order_id)) [
        | inr other ↦ rw other (take_payloads-IsSound now ps m s)
        | inl own ↦ elim (OrderEvent-cases p.event_type) [
          | inl f ↦
              rw (own, f)
                (take_payloads-IsSound now ps
                  (record seen {
                    fill_seen = some (qty_or p.filled_qty qty, price_or p.avg_price price);
                  })
                  (
                    p,
                    Has-last (reported p) m.events,
                    (eq_iff p.order_id order_id).0 own,
                    f,
                    refl,
                    refl,
                  ))
          | inr (inl f) ↦
              rw (own, f)
                (take_payloads-IsSound now ps (record seen { last_partial = some now }) later)
          | inr (inr (inl f)) ↦ rw (own, f) later
          | inr (inr (inr f)) ↦ rw (own, f) (take_payloads-IsSound now ps seen later)
        ]
      ]

  -- An order that stays at the broker is cancelled.
  abbrev pub IsCancelled : List (BrokerCall F) → Type 0
  IsCancelled calls =
      (before : List (BrokerCall F)) × (calls ≡ before ++ cancel_order order_id ∷ [])

  -- The result is a fill of more than nothing that the broker reported, or is given up with nothing
  -- filled: after a reject, or with a cancel as the last call.
  abbrev pub IsAccounted : EntryResult F × List (BrokerCall F) → Type 0
  IsAccounted (r, calls) =
      ((r.order_id ≡ order_id)
        × (r.abandon_reason ≡ none)
        × (eqb_ℤ r.filled_qty (pos 0) ≡ false)
        × IsBacked (some (r.filled_qty, r.avg_fill_price)) r.order_events)
      ⊎ ((r.order_id ≡ order_id)
          × (r.filled_qty ≡ pos 0)
          × ((r.abandon_reason ≡ some broker_reject)
              ⊎ ((reason : AbandonReason F) × (r.abandon_reason ≡ some reason)
                  × IsCancelled calls)))

  settle-IsAccounted :
      (m : Monitor F) (f : Option (ℤ × F)) → IsBacked f m.events → IsAccounted (settle order_id m f)
  unfolding settle
  settle-IsAccounted m none s = inr (refl, refl, inr (open_timeout, refl, (m.calls, refl)))
  settle-IsAccounted m (some (n, x)) s = elim (Bool-cases (eqb_ℤ n (pos 0))) [
    | inl empty_fill ↦ rw empty_fill (inr (refl, refl, inr (open_timeout, refl, (m.calls, refl))))
    | inr real ↦ rw real (inl (refl, refl, real, s))
  ]

  conclude-IsAccounted : (m : Monitor F) → IsSound m → IsAccounted (conclude order_id m)
  unfolding conclude
  conclude-IsAccounted m s = settle-IsAccounted m m.fill_seen s

  -- Following the ask keeps the fill and its report, and a breach of the ceiling cancels the order.
  follow_ask-IsSound :
      (c : EntryConfig F) (leaf : Option (Quote F)) (m : Monitor F)
      → IsSound m
      → let (ceiling, m') = follow_ask c order_id leaf m in
        IsSound m' × ((ceiling ≡ none) ⊎ IsCancelled m'.calls)
  unfolding follow_ask
  follow_ask-IsSound c none m s = (s, inl refl)
  follow_ask-IsSound c (some q) m s =
      elim (Bool-cases (q.ask >f nought && (q.ask -f m.initial_ask) ≥f c.chase_ceiling)) [
        | inl far ↦ rw far (s, inr (m.calls, refl))
        | inr near ↦
            elim (Bool-cases (q.ask >f nought && (q.ask -f m.initial_ask) ≥f c.drift_threshold)) [
              | inl moved ↦
                  rw (near, moved)
                    (
                      IsBacked-later m.fill_seen m.events
                          (modified order_id (fl.round_to 2 (q.ask +f c.buffer_inr)) ∷ []) s,
                      inl refl,
                    )
              | inr still ↦ rw (near, still) (s, inl refl)
            ]
      ]

  after_quiet-IsAccounted :
      (ceiling : Option F) (m : Monitor F) (rest : EntryResult F × List (BrokerCall F))
      → (ceiling ≡ none) ⊎ IsCancelled m.calls
      → IsAccounted rest
      → IsAccounted (after_quiet order_id ceiling m rest)
  after_quiet-IsAccounted none m rest k r = r
  after_quiet-IsAccounted (some ask) m rest (inl k) r = absurd (ground arith)
  after_quiet-IsAccounted (some ask) m rest (inr k) r =
      inr (refl, refl, inr (chase_ceiling_breached ask, refl, k))

  after_batch-IsAccounted :
      (grace_ms now : ℕ) (alive : Bool) (m : Monitor F) (rest : EntryResult F × List (BrokerCall F))
      → IsSound m
      → IsAccounted rest
      → IsAccounted (after_batch grace_ms order_id now alive m rest)
  after_batch-IsAccounted grace_ms now false m rest s r = inr (refl, refl, inl refl)
  after_batch-IsAccounted grace_ms now true m rest s r = elim (Bool-cases (is_some m.fill_seen)) [
    | inl full ↦ rw full (conclude-IsAccounted m s)
    | inr open_order ↦ elim (Bool-cases (grace_over grace_ms now m.last_partial)) [
      | inl late ↦
          rw (open_order, late)
            (conclude-IsAccounted (record m { calls = m.calls ++ cancel_order order_id ∷ [] }) s)
      | inr early ↦ rw (open_order, early) r
    ]
  ]

  monitor-IsAccounted :
      (c : EntryConfig F) (passes : List (Pass F)) (m : Monitor F)
      → IsSound m
      → IsAccounted (monitor c order_id qty price passes m)
  unfolding monitor
  monitor-IsAccounted c [] m s = conclude-IsAccounted m s
  monitor-IsAccounted c (read_fails ∷ passes) m s = conclude-IsAccounted m s
  monitor-IsAccounted c (quiet leaf ∷ passes) m s =
      let (ceiling, m') = follow_ask c order_id leaf m in
      let followed = follow_ask-IsSound c leaf m s in
      after_quiet-IsAccounted ceiling m' (monitor c order_id qty price passes m') followed.1
        (monitor-IsAccounted c passes m' followed.0)
  monitor-IsAccounted c (arrives now ps ∷ passes) m s =
      let (alive, m') = take_payloads order_id qty price now ps m in
      let taken = take_payloads-IsSound now ps m s in
      after_batch-IsAccounted c.partial_grace_ms now alive m'
        (monitor c order_id qty price passes m') taken (monitor-IsAccounted c passes m' taken)

abbrev pub placed_id : Placed → String
placed_id refused = no_order
placed_id (accepted id) = id_or id no_order

module _ {F : Type 0} ⦃fl : Float F⦄ where
  -- The price at which the order is placed.
  abbrev pub submit_price : EntryConfig F → Option (Quote F) → F
  submit_price c none = nought
  submit_price c (some q) = fl.round_to 2 (q.ask +f c.buffer_inr)

  after_placing-IsAccounted :
      (c : EntryConfig F) (qty : ℤ) (price ask : F) (passes : List (Pass F)) (answer : Placed)
      → let r = after_placing c qty price ask passes answer in
        IsAccounted (placed_id answer) qty price r
        ⊎ ((r.0.filled_qty ≡ pos 0) × (r.0.order_events ≡ []) × (r.1 ≡ []))
  after_placing-IsAccounted c qty price ask passes refused = inr (refl, refl, refl)
  after_placing-IsAccounted c qty price ask passes (accepted id) =
      let order_id = id_or id no_order in
      inl (monitor-IsAccounted order_id qty price c passes (started order_id qty price ask) tt)

  -- However the broker answers and whatever its stream brings, an entry never counts as filled what the
  -- broker did not report for the order that it placed: the result is a reported fill of a quantity
  -- other than zero; or nothing is filled, after a reject or with a cancel of the order as the last
  -- call; or nothing is filled, nothing is logged, and no call was made.
  pub submit_and_monitor_live-IsAccounted :
      (c : EntryConfig F) (leaf : Option (Quote F)) (qty_lots lot_size : ℤ) (answer : Placed)
      (passes : List (Pass F))
      → let r = submit_and_monitor_live c leaf qty_lots lot_size answer passes in
        IsAccounted (placed_id answer) (qty_lots *ℤ lot_size) (submit_price c leaf) r
        ⊎ ((r.0.filled_qty ≡ pos 0) × (r.0.order_events ≡ []) × (r.1 ≡ []))
  unfolding submit_and_monitor_live
  submit_and_monitor_live-IsAccounted c none qty_lots lot_size answer passes =
      inr (refl, refl, refl)
  submit_and_monitor_live-IsAccounted c (some q) qty_lots lot_size answer passes =
      elim (Bool-cases (q.ask ≤f nought)) [
        | inl bare ↦ rw bare (inr (refl, refl, refl))
        | inr priced ↦ rw priced (
            after_placing-IsAccounted c (qty_lots *ℤ lot_size)
              (fl.round_to 2 (q.ask +f c.buffer_inr)) q.ask passes answer)
      ]
