-- ===== src/Exec/ExitSubmit/Closing.antt =====
-- When the loop that closes a position ends.
use pcr_momentum.Base.{
  ℕ, String, str_eq, eq_iff, ◌≡◌, inl, inr, refl, ap, ◌∙◌, Bool, true, false, ◌&&◌, ◌||◌, Option,
  none, some, List, [], ◌∷◌, ◌++◌, any, Bool-cases, if◌then◌else◌, arith,
}
use pcr_momentum.Base.Int.{ℤ}
use pcr_momentum.Float.{Float}
use pcr_momentum.Exec.{Position, Quote, OrderEvent, fill, reject, Payload, Placed, reported, qty_or}
use pcr_momentum.Exec.Events.{Has, Has-last, OrderEvent-cases}
use pcr_momentum.Exec.ExitSubmit.{
  ExitConfig, ExitResult, ExitEnd, waits, raises, closes, end_of_fill, Delivery, Pass, read_fails,
  reads, Exiting, follow_bid, place_again, after_batch, visible, take_answer, exiting, first_id,
  take_deliveries, wait_for_fill, submit_and_complete_live, effective_buffer, exit_price, start_bid,
}

abbrev pub is_kind : OrderEvent → OrderEvent → Bool
is_kind fill fill = true
is_kind reject reject = true
is_kind _ _ = false

abbrev pub or_later : Option Bool → Option Bool → Option Bool
or_later none later = later
or_later (some b) later = some b

no_reject : (a b c : Bool) → (a || (b || c)) ≡ false → (a ≡ false) × (b ≡ false) × (c ≡ false)
no_reject a b c h = (ground arith, ground arith, ground arith)

module _ {F : Type 0} ⦃fl : Float F⦄ where
  -- A result is a fill that the broker reported for the order that it names.
  abbrev pub IsReported : ℤ → ExitEnd F → Type 0
  IsReported qty waits = Unit
  IsReported qty raises = Unit
  IsReported qty (closes r) =
      (e : Payload F) × Has (reported e) r.order_events
      × (e.order_id ≡ r.order_id)
      × (e.event_type ≡ fill)
      × (r.filled_qty ≡ qty_or e.filled_qty qty)

  end_of_fill-IsReported :
      (b : Bool) (qty : ℤ) (r : ExitResult F)
      → IsReported qty (closes r)
      → IsReported qty (end_of_fill b r)
  end_of_fill-IsReported true qty r h = h
  end_of_fill-IsReported false qty r h = tt

  take_deliveries-IsReported :
      (buffer : F) (p : Position F) (ds : List (Delivery F)) (s : Exiting F)
      → IsReported p.qty (take_deliveries buffer p ds s).0
  unfolding take_deliveries
  take_deliveries-IsReported buffer p [] s = tt
  take_deliveries-IsReported buffer p (d ∷ ds) s =
      let e = d.payload in
      let seen = record s { events = s.events ++ reported e ∷ [] } in
      elim (Bool-cases (str_eq e.order_id s.order_id)) [
        | inr other ↦ rw other (take_deliveries-IsReported buffer p ds s)
        | inl own ↦ elim (OrderEvent-cases e.event_type) [
          | inl f ↦
              rw (own, f)
                (end_of_fill-IsReported d.is_readable p.qty _ (
                  e,
                  Has-last (reported e) s.events,
                  (eq_iff e.order_id s.order_id).0 own,
                  f,
                  refl,
                ))
          | inr (inl f) ↦ rw (own, f) (take_deliveries-IsReported buffer p ds seen)
          | inr (inr (inl f)) ↦
              rw (own, f) (take_deliveries-IsReported buffer p ds (place_again buffer d seen))
          | inr (inr (inr f)) ↦ rw (own, f) (take_deliveries-IsReported buffer p ds seen)
        ]
      ]

  after_batch-IsReported :
      (qty : ℤ) (closing : ExitEnd F) (s : Exiting F) (rest : ExitEnd F × Exiting F)
      → IsReported qty closing
      → IsReported qty rest.0
      → IsReported qty (after_batch closing s rest).0
  after_batch-IsReported qty waits s rest c r = r
  after_batch-IsReported qty raises s rest c r = tt
  after_batch-IsReported qty (closes x) s rest c r = c

  take_answer-IsReported :
      (buffer : F) (p : Position F) (ds : List (Delivery F)) (leaf : Option (Quote F))
      (s : Exiting F)
      → IsReported p.qty (take_answer buffer p ds leaf s).0
  take_answer-IsReported buffer p [] leaf s = tt
  take_answer-IsReported buffer p (d ∷ ds) leaf s =
      take_deliveries-IsReported buffer p (d ∷ ds) (record s { has_cursor = true })

  wait_for_fill-IsReported :
      (buffer : F) (p : Position F) (passes : List (Pass F)) (s : Exiting F)
      → IsReported p.qty (wait_for_fill buffer p passes s).0
  unfolding wait_for_fill
  wait_for_fill-IsReported buffer p [] s = tt
  wait_for_fill-IsReported buffer p (read_fails ∷ passes) s =
      wait_for_fill-IsReported buffer p passes s
  wait_for_fill-IsReported buffer p (reads before during leaf ∷ passes) s =
      let taken = take_answer buffer p (visible s.has_cursor before during) leaf s in
      after_batch-IsReported p.qty taken.0 taken.1 (wait_for_fill buffer p passes taken.1)
        (take_answer-IsReported buffer p (visible s.has_cursor before during) leaf s)
        (wait_for_fill-IsReported buffer p passes taken.1)

  abbrev pub own_kind : OrderEvent → String → Delivery F → Bool
  own_kind k order_id d = str_eq d.payload.order_id order_id && is_kind k d.payload.event_type

  -- Whether the first fill of the order among entries can be read; none without a fill.
  abbrev pub first_fill : String → List (Delivery F) → Option Bool
  first_fill order_id [] = none
  first_fill order_id (d ∷ ds) =
      if own_kind fill order_id d then some d.is_readable else first_fill order_id ds

  abbrev pub has_any : List (Delivery F) → Bool
  has_any [] = false
  has_any (d ∷ ds) = true

  -- The same of passes, of which only what is visible counts: until an entry has been read, no entry
  -- that is in the stream when a read starts.
  abbrev pub first_seen_fill : Bool → String → List (Pass F) → Option Bool
  first_seen_fill cursor order_id [] = none
  first_seen_fill cursor order_id (read_fails ∷ passes) = first_seen_fill cursor order_id passes
  first_seen_fill cursor order_id (reads before during leaf ∷ passes) =
      let ds = visible cursor before during in
      or_later (first_fill order_id ds) (first_seen_fill (cursor || has_any ds) order_id passes)

  -- Whether the stream has a reject of the order.
  abbrev pub has_reject : String → List (Pass F) → Bool
  has_reject order_id [] = false
  has_reject order_id (read_fails ∷ passes) = has_reject order_id passes
  has_reject order_id (reads before during leaf ∷ passes) =
      any (own_kind reject order_id) before
      || (any (own_kind reject order_id) during || has_reject order_id passes)

  -- Closed, raised, or none while it waits.
  abbrev pub has_closed : ExitEnd F → Option Bool
  has_closed waits = none
  has_closed raises = some false
  has_closed (closes r) = some true

  end_of_fill-has_closed : (b : Bool) (r : ExitResult F) → has_closed (end_of_fill b r) ≡ some b
  end_of_fill-has_closed true r = refl
  end_of_fill-has_closed false r = refl

  -- While no reject comes for the order, a batch ends as its first fill says, and the order and the
  -- cursor stay the same.
  take_deliveries-closes :
      (buffer : F) (p : Position F) (ds : List (Delivery F)) (s : Exiting F)
      → any (own_kind reject s.order_id) ds ≡ false
      → (has_closed (take_deliveries buffer p ds s).0 ≡ first_fill s.order_id ds)
        × ((take_deliveries buffer p ds s).1.order_id ≡ s.order_id)
        × ((take_deliveries buffer p ds s).1.has_cursor ≡ s.has_cursor)
  unfolding take_deliveries
  take_deliveries-closes buffer p [] s h = (refl, refl, refl)
  take_deliveries-closes buffer p (d ∷ ds) s h =
      let e = d.payload in
      let seen = record s { events = s.events ++ reported e ∷ [] } in
      let later : any (own_kind reject s.order_id) ds ≡ false = ground arith in
      elim (Bool-cases (str_eq e.order_id s.order_id)) [
        | inr other ↦ rw other (take_deliveries-closes buffer p ds s later)
        | inl own ↦ elim (OrderEvent-cases e.event_type) [
          | inl f ↦ rw (own, f) (end_of_fill-has_closed d.is_readable _, refl, refl)
          | inr (inl f) ↦ rw (own, f) (take_deliveries-closes buffer p ds seen later)
          | inr (inr (inl f)) ↦ absurd (ground arith)
          | inr (inr (inr f)) ↦ rw (own, f) (take_deliveries-closes buffer p ds seen later)
        ]
      ]

  follow_bid-keeps :
      (buffer : F) (leaf : Option (Quote F)) (s : Exiting F)
      → ((follow_bid buffer leaf s).order_id ≡ s.order_id)
        × ((follow_bid buffer leaf s).has_cursor ≡ s.has_cursor)
  unfolding follow_bid
  follow_bid-keeps buffer none s = (refl, refl)
  follow_bid-keeps buffer (some q) s = (ground arith, ground arith)

  take_answer-closes :
      (buffer : F) (p : Position F) (ds : List (Delivery F)) (leaf : Option (Quote F))
      (s : Exiting F)
      → any (own_kind reject s.order_id) ds ≡ false
      → (has_closed (take_answer buffer p ds leaf s).0 ≡ first_fill s.order_id ds)
        × ((take_answer buffer p ds leaf s).1.order_id ≡ s.order_id)
        × ((take_answer buffer p ds leaf s).1.has_cursor ≡ (s.has_cursor || has_any ds))
  take_answer-closes buffer p [] leaf s h =
      let kept = follow_bid-keeps buffer leaf s in (refl, kept.0, kept.1 ∙ ground arith)
  take_answer-closes buffer p (d ∷ ds) leaf s h =
      let taken = take_deliveries-closes buffer p (d ∷ ds) (record s { has_cursor = true }) h in
      (taken.0, taken.1, taken.2 ∙ ground arith)

  after_batch-has_closed :
      (closing : ExitEnd F) (s : Exiting F) (rest : ExitEnd F × Exiting F)
      → has_closed (after_batch closing s rest).0
        ≡ or_later (has_closed closing) (has_closed rest.0)
  after_batch-has_closed waits s rest = refl
  after_batch-has_closed raises s rest = refl
  after_batch-has_closed (closes x) s rest = refl

  any-visible :
      (f : Delivery F → Bool) (cursor : Bool) (before during : List (Delivery F))
      → any f before ≡ false
      → any f during ≡ false
      → any f (visible cursor before during) ≡ false
  any-visible f false before during h k = k
  any-visible f true [] during h k = k
  any-visible f true (d ∷ ds) during h k = ground (arith, any-visible f true ds during)

  wait_for_fill-closes :
      (buffer : F) (p : Position F) (passes : List (Pass F)) (s : Exiting F)
      → has_reject s.order_id passes ≡ false
      → has_closed (wait_for_fill buffer p passes s).0
        ≡ first_seen_fill s.has_cursor s.order_id passes
  unfolding wait_for_fill
  wait_for_fill-closes buffer p [] s h = refl
  wait_for_fill-closes buffer p (read_fails ∷ passes) s h = wait_for_fill-closes buffer p passes s h
  wait_for_fill-closes buffer p (reads before during leaf ∷ passes) s h =
      let ds = visible s.has_cursor before during in
      let own = own_kind reject s.order_id in
      let split = no_reject (any own before) (any own during) (has_reject s.order_id passes) h in
      let taken =
        take_answer-closes buffer p ds leaf s
          (any-visible own s.has_cursor before during split.0 split.1) in
      let s' = (take_answer buffer p ds leaf s).1 in
      let rest =
        wait_for_fill-closes buffer p passes s' (ap (λ i. has_reject i passes) taken.1 ∙ split.2) in
      after_batch-has_closed (take_answer buffer p ds leaf s).0 s'
        (wait_for_fill buffer p passes s')
      ∙ rw (taken.0, rest, taken.1, taken.2) refl

  -- A live exit closes only on a fill: the result is one that the broker reported for the order that
  -- the result names, and its quantity is the reported one, or the position's if none is given.
  pub submit_and_complete_live-IsReported :
      (c : ExitConfig F) (leaf : Option (Quote F)) (p : Position F) (now_minute : ℕ)
      (answer : Placed) (passes : List (Pass F))
      → IsReported p.qty (submit_and_complete_live c leaf p now_minute answer passes).0
  unfolding submit_and_complete_live
  submit_and_complete_live-IsReported c leaf p now_minute answer passes =
      let buffer = effective_buffer c now_minute in
      wait_for_fill-IsReported buffer p passes
        (exiting (first_id answer) (start_bid leaf p) (exit_price (start_bid leaf p) buffer) p.qty)

  -- While the broker does not reject the order of a live exit, the exit ends as the first fill of that
  -- order says that it sees: it has closed if the numbers of that fill can be read, it has raised if
  -- not, and it still waits if it has seen none. A fill is seen if it comes while a read blocks, or
  -- once any entry has been read; until then, what comes between the reads is never seen. The order
  -- is the one of the broker's answer; a refused one has the empty id.
  pub submit_and_complete_live-closes :
      (c : ExitConfig F) (leaf : Option (Quote F)) (p : Position F) (now_minute : ℕ)
      (answer : Placed) (passes : List (Pass F))
      → has_reject (first_id answer) passes ≡ false
      → has_closed (submit_and_complete_live c leaf p now_minute answer passes).0
        ≡ first_seen_fill false (first_id answer) passes
  unfolding submit_and_complete_live
  submit_and_complete_live-closes c leaf p now_minute answer passes h =
      let buffer = effective_buffer c now_minute in
      wait_for_fill-closes buffer p passes
        (exiting (first_id answer) (start_bid leaf p) (exit_price (start_bid leaf p) buffer) p.qty)
        h
