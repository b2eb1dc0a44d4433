-- ===== src/Background/Queue.antt =====
-- report_drainer.py is a queue: no report is lost, doubled or overtaken.
use mathlib.Core.List.{append_assoc, append-nil}
use pcr_momentum.Base.{
  ℕ, ◌+◌, ◌-◌, ◌≤◌, ◌≡◌, refl, sym, ap, ◌∙◌, String, Bool, true, false, List, [], ◌∷◌, ◌++◌, length,
  length-append, inl, inr, if◌then◌else◌, Bool-cases, arith,
}
use pcr_momentum.Background.{
  Reports, keep_last, max_pending, DrainTurn, buffered, unread, popped, buffer_report, pop_one,
  drain_turn, drain_loop,
}

-- The texts that workers have buffered.
abbrev pub arrivals : List DrainTurn → List String
arrivals [] = []
arrivals (buffered report ∷ turns) = report ∷ arrivals turns
arrivals (unread ∷ turns) = arrivals turns
arrivals (popped _ _ ∷ turns) = arrivals turns

-- A report that the database does not take can always be pushed back.
abbrev pub AllRequeue : List DrainTurn → Type 0
AllRequeue [] = Unit
AllRequeue (buffered _ ∷ turns) = AllRequeue turns
AllRequeue (unread ∷ turns) = AllRequeue turns
AllRequeue (popped _ requeue_ok ∷ turns) = (requeue_ok ≡ true) × AllRequeue turns

keep_last-all : (n : ℕ) (l : List String) → length l ≤ n → keep_last n l ≡ l
keep_last-all n l h = let e : length l - n ≡ 0 = omega arith in rw e refl

module _ (is_report : String → Bool) where
  -- The texts that are reports.
  abbrev pub reports : List String → List String
  reports [] = []
  reports (x ∷ xs) = let rest = reports xs in if is_report x then x ∷ rest else rest

  reports-append : (xs ys : List String) → reports (xs ++ ys) ≡ reports xs ++ reports ys
  reports-append [] ys = refl
  reports-append (x ∷ xs) ys = elim (Bool-cases (is_report x)) [
    | inl e ↦ rw e (ap (◌∷◌ x) (reports-append xs ys))
    | inr e ↦ rw e (reports-append xs ys)
  ]

  -- What is persisted, and after it what waits.
  abbrev pub in_order : Reports → List String
  in_order r = r.persisted ++ reports r.pending

  pop-in_order :
      (insert_ok : Bool) (pending : List String) (r : Reports)
      → r.pending ≡ pending
      → let r' = pop_one is_report insert_ok true pending r in
        (in_order r' ≡ r.persisted ++ reports pending)
        × (length r'.pending ≤ length pending)
        × (r'.lost ≡ r.lost)
  pop-in_order insert_ok [] r h =
      (ap (λ l. r.persisted ++ reports l) h, omega (arith, ap length h), refl)
  pop-in_order true (x ∷ xs) r h = elim (Bool-cases (is_report x)) [
    | inl e ↦ rw e (append_assoc r.persisted (x ∷ []) (reports xs), omega arith, refl)
    | inr e ↦ rw e (refl, omega arith, refl)
  ]
  pop-in_order false (x ∷ xs) r h = elim (Bool-cases (is_report x)) [
    | inl e ↦ rw e (rw e refl, omega arith, refl)
    | inr e ↦ rw e (refl, omega arith, refl)
  ]

  -- One turn keeps what is in order, and at most lengthens the queue by what it buffers.
  record Keeps (new : List String) (r r' : Reports) : Type 0 where
    pub order : in_order r' ≡ in_order r ++ reports new
    pub bound : length r'.pending ≤ length r.pending + length new
    pub lost : r'.lost ≡ r.lost

  buffer-Keeps :
      (x : String) (r : Reports)
      → length r.pending + 1 ≤ max_pending
      → Keeps (x ∷ []) r (buffer_report x r)
  unfolding buffer_report
  buffer-Keeps x r h =
      let all =
        keep_last-all max_pending (r.pending ++ x ∷ [])
          (omega (arith, length-append r.pending (x ∷ []))) in
      record {
        order =
            ap (λ l. r.persisted ++ reports l) all
            ∙ ap (λ l. r.persisted ++ l) (reports-append r.pending (x ∷ []))
            ∙ sym (append_assoc r.persisted (reports r.pending) (reports (x ∷ [])));
        bound = omega (arith, ap length all, length-append r.pending (x ∷ []));
        lost = refl;
      }

  none-Keeps : (r : Reports) → Keeps [] r r
  none-Keeps r = record { order = sym (append-nil (in_order r)); bound = omega arith; lost = refl }

  pop-Keeps :
      (insert_ok : Bool) (r : Reports) → Keeps [] r (pop_one is_report insert_ok true r.pending r)
  pop-Keeps insert_ok r =
      let p = pop-in_order insert_ok r.pending r refl in
      record { order = p.0 ∙ sym (append-nil (in_order r)); bound = omega (arith, p.1); lost = p.2 }

  then-Keeps :
      (new more : List String) (r s t : Reports)
      → Keeps new r s
      → Keeps more s t
      → Keeps (new ++ more) r t
  then-Keeps new more r s t a b = record {
    order =
        b.order
        ∙ ap (λ l. l ++ reports more) a.order
        ∙ append_assoc (in_order r) (reports new) (reports more)
        ∙ ap (λ l. in_order r ++ l) (sym (reports-append new more));
    bound = omega (arith, a.bound, b.bound, length-append new more);
    lost = b.lost ∙ a.lost;
  }

  loop-Keeps :
      (turns : List DrainTurn) (r : Reports)
      → AllRequeue turns
      → length r.pending + length (arrivals turns) ≤ max_pending
      → Keeps (arrivals turns) r (drain_loop is_report turns r)
  unfolding drain_loop drain_turn
  loop-Keeps [] r a h = none-Keeps r
  loop-Keeps (buffered x ∷ turns) r a h =
      let b = buffer-Keeps x r (omega arith) in
      let k = loop-Keeps turns (buffer_report x r) a (omega (arith, b.bound)) in
      then-Keeps (x ∷ []) (arrivals turns) r (buffer_report x r) _ b k
  loop-Keeps (unread ∷ turns) r a h = loop-Keeps turns r a h
  loop-Keeps (popped insert_ok false ∷ turns) r a h = cc
  loop-Keeps (popped insert_ok true ∷ turns) r a h =
      let r1 = pop_one is_report insert_ok true r.pending r in
      let b = pop-Keeps insert_ok r in
      then-Keeps [] (arrivals turns) r r1 _ b (loop-Keeps turns r1 a.1 (omega (arith, b.bound)))

  -- While a report that the database does not take can be pushed back, and at most 10,000 texts wait
  -- or arrive: after any turns nothing is lost, and the persisted reports, followed by those that wait,
  -- are the earlier ones followed by all reports that arrived, each once and in the order of their
  -- arrival.
  pub drain_loop-in_order :
      (turns : List DrainTurn) (r : Reports)
      → AllRequeue turns
      → length r.pending + length (arrivals turns) ≤ max_pending
      → let r' = drain_loop is_report turns r in
        (r'.persisted ++ reports r'.pending
          ≡ r.persisted ++ reports r.pending ++ reports (arrivals turns))
        × (r'.lost ≡ r.lost)
  drain_loop-in_order turns r a h = let k = loop-Keeps turns r a h in (k.order, k.lost)
