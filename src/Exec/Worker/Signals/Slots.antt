-- ===== src/Exec/Worker/Signals/Slots.antt =====
-- What a processed signal leaves behind.
use mathlib.Core.Path.{subst}
use pcr_momentum.Base.{
  String, str_eq, ◌≡◌, ◌≢◌, ◌⊎◌, inl, inr, refl, ◌∙◌, true, false, ◌||◌, Option, none, some, Bool,
  ℕ, not, List, ◌∷◌, is_some, Bool-cases, eq_iff, arith,
}
use pcr_momentum.Base.Int.{ℤ, pos, negsuc, ◌+ℤ◌, leb_ℤ, eq_of_parts, +ℤ_parts}
use pcr_momentum.Float.{Float}
use pcr_momentum.Exec.{Position, ExitReason}
use pcr_momentum.Exec.Allocator.{
  Allocator, Attempt, commits, watch_error, fails, reply_lost, reserved, is_member, sadd, srem,
  count_of, release, reserve_txn,
}
use pcr_momentum.Exec.Allocator.Caps.{reserve_txn-Outcome, Outcome, book-total, srem_absent}
use pcr_momentum.Exec.Allocator.Runs.{met, is_alone, is_lost, met-alone}
use pcr_momentum.Exec.Gate.{GateReason, ok, gate_and_reserve}
use pcr_momentum.Exec.Gate.Reserving.{gate_and_reserve-Outcome, IsReserved, IsRefused}
use pcr_momentum.Exec.Entry.{EntryResult}
use pcr_momentum.Exec.ExitSubmit.{ExitEnd, waits, raises, closes}
use pcr_momentum.Vessel.{VesselKeys}
use pcr_momentum.Exec.Worker.{watch, open_position, after_entry}
use pcr_momentum.Exec.Worker.Signals.{
  submit_and_complete, submit_and_monitor, Desk, Task, Settings, Course, Stage, gating, setting_up,
  entering, giving_up, opening, watching, exiting, reporting, cleaning, finishing, Ending,
  still_open, returned, raised, raised_or, is_valid, finished, settled, freed, cleaned_up, opened,
  is_ok, closing, entered, gated, process_signal,
}

same_text : (t : String) → str_eq t t ≡ true
same_text t = (eq_iff t t).1 refl

srem-sadd : (t : String) (ss : List String) → is_member t ss ≡ false → srem t (t ∷ ss) ≡ ss
unfolding srem
srem-sadd t ss h = rw (same_text t) (srem_absent t ss h)

back_again : (n : ℤ) → n +ℤ pos 1 +ℤ negsuc 0 ≡ n
back_again n =
    eq_of_parts (n +ℤ pos 1 +ℤ negsuc 0) n
      (omega (arith, +ℤ_parts n (pos 1), +ℤ_parts (n +ℤ pos 1) (negsuc 0)))

module _ {F : Type 0} ⦃fl : Float F⦄ where
  -- The same indexes are open, and as many.
  abbrev pub SameSlots : Allocator F → Allocator F → Type 0
  SameSlots a b =
      (b.open_symbols ≡ a.open_symbols)
      × (count_of "total" b.open_count ≡ count_of "total" a.open_count)

  -- Releasing what one transaction reserved gives the slots back.
  release-SameSlots :
      (index : String) (premium capital : F) (limit : ℤ) (a a' : Allocator F)
      → str_eq index "total" ≡ false
      → reserve_txn index premium capital limit a ≡ (reserved, a')
      → SameSlots a (release true index premium a').1
  unfolding release
  release-SameSlots index premium capital limit a a' ne e =
      let made : Outcome index premium capital limit a (reserved, a') =
        subst (λ r. Outcome index premium capital limit a r) e
          (reserve_txn-Outcome index premium capital limit a ne) in
      let booked = book-total index (fl.neg premium) (negsuc 0) a' ne in
      (
        rw made.3 (srem-sadd index a.open_symbols made.0),
        booked.0 ∙ rw made.4 (back_again (count_of "total" a.open_count)),
      )

  -- The index has taken one slot more.
  abbrev pub IsLeaked : String → Allocator F → Allocator F → Type 0
  IsLeaked index a b =
      (b.open_symbols ≡ index ∷ a.open_symbols)
      × (count_of "total" b.open_count ≡ count_of "total" a.open_count +ℤ pos 1)

  -- What a signal leaves: the same slots of the allocator, and the same open positions.
  abbrev pub LeavesNothing : Desk F → Desk F → Type 0
  LeavesNothing d d' = SameSlots d.allocator d'.allocator × (d'.open_positions ≡ d.open_positions)

  -- Why an exception leaves a signal: a call raises, the position is not valid, or its exit meets a fill
  -- that it cannot read.
  abbrev pub HasCause : Course F → Settings F → Task → Type 0
  HasCause w c t =
      ((stage : Stage) × (w.raises_at stage ≡ true))
      ⊎ ((is_valid c t ≡ false)
          ⊎ ((p : Position F) × (submit_and_complete w.mode c.exit w.exit_leaf p w.exit_minute
                ≡ raises)))

  -- A signal that returns leaves nothing; an exception has a cause, and leaves the slots as they were
  -- or the slot of its index taken.
  abbrev pub Leaves : Course F → Settings F → Task → Desk F → Ending F → Type 0
  Leaves w c t d still_open = Unit
  Leaves w c t d (returned d') = LeavesNothing d d'
  Leaves w c t d (raised d') =
      HasCause w c t
      × (SameSlots d.allocator d'.allocator ⊎ IsLeaked t.index d.allocator d'.allocator)

  module _ (w : Course F) (c : Settings F) (t : Task) (d : Desk F) where
    raised_or-Leaves :
        (b : Bool) (d' : Desk F) (rest : Ending F)
        → (b ≡ true → HasCause w c t)
        → (SameSlots d.allocator d'.allocator ⊎ IsLeaked t.index d.allocator d'.allocator)
        → Leaves w c t d rest
        → Leaves w c t d (raised_or b d' rest)
    raised_or-Leaves true d' rest cause slots h = (cause refl, slots)
    raised_or-Leaves false d' rest cause slots h = h

    either : (a b : Bool) → (a || b) ≡ true → (a ≡ true) ⊎ (b ≡ true)
    either true b h = inl refl
    either false b h = inr h

    at_stages : (x y : Stage) → (w.raises_at x || w.raises_at y) ≡ true → HasCause w c t
    at_stages x y h = elim (either (w.raises_at x) (w.raises_at y) h) [
      | inl e ↦ inl (x, e)
      | inr e ↦ inl (y, e)
    ]

    invalid_or_opening :
        (b o : Bool)
        → is_valid c t ≡ b
        → w.raises_at opening ≡ o
        → (not b || o) ≡ true
        → HasCause w c t
    invalid_or_opening false o e k h = inr (inl e)
    invalid_or_opening true true e k h = inl (opening, k)
    invalid_or_opening true false e k h = absurd (ground arith)

  module _ (w : Course F) (c : Settings F) (t : Task) (d : Desk F) (premium : F) (a : Allocator F)
      (freed_slots : SameSlots d.allocator (release w.is_connected t.index premium a).1)
      (taken : IsLeaked t.index d.allocator a) (fresh : is_member t.pos_id d.open_positions ≡ false)
      (cleans : w.raises_at cleaning ≡ false) where
    -- The desk while the position is open.
    abbrev held : VesselKeys → Desk F
    held k = record {
      allocator = a;
      vessel = k;
      open_positions = sadd t.pos_id d.open_positions;
      closed_today = d.closed_today;
    }

    settled-Leaves :
        (reason : ExitReason) (k : VesselKeys)
        → Leaves w c t d (settled w c reason (freed w t premium (cleaned_up w t (held k))))
    settled-Leaves reason k = rw cleans (
        raised_or-Leaves w c t d (w.raises_at finishing) _ _ (λ e. inl (finishing, e))
          (inl freed_slots) (freed_slots, rw fresh (srem-sadd t.pos_id d.open_positions fresh)))

    finished-Leaves :
        (p : Position F) (reason : ExitReason) (r : ExitEnd F) (k : VesselKeys)
        → submit_and_complete w.mode c.exit w.exit_leaf p w.exit_minute ≡ r
        → Leaves w c t d (finished w c t premium reason r (held k))
    finished-Leaves p reason waits k e = tt
    finished-Leaves p reason raises k e = (inr (inr (p, e)), inr taken)
    finished-Leaves p reason (closes r) k e =
        raised_or-Leaves w c t d (w.raises_at reporting) (held k) _ (λ h. inl (reporting, h))
          (inr taken) (settled-Leaves reason k)

    closing-Leaves :
        (o : Option (ExitReason × Position F)) (k : VesselKeys)
        → Leaves w c t d (closing w c t premium o (held k))
    closing-Leaves none k = tt
    closing-Leaves (some (reason, p)) k =
        raised_or-Leaves w c t d (w.raises_at exiting) (held k) _ (λ h. inl (exiting, h))
          (inr taken)
          (finished-Leaves p reason (submit_and_complete w.mode c.exit w.exit_leaf p w.exit_minute)
            k refl)

    opened-Leaves :
        (r : EntryResult F) (k : VesselKeys) → Leaves w c t d (opened w c t premium r (held k))
    opened-Leaves r k =
        raised_or-Leaves w c t d (w.raises_at watching) (held k) _ (λ h. inl (watching, h))
          (inr taken)
          (closing-Leaves
            (watch w.looks (
              open_position t.pos_id t.sig_id t.index t.side t.strike t.token c.profile r.filled_qty
                r.avg_fill_price r.order_id w.entry_ts_ms))
            k)

    entered-Leaves :
        (r : EntryResult F) → Leaves w c t d (entered w c t premium r (record d { allocator = a }))
    entered-Leaves r = elim (Bool-cases (is_some r.abandon_reason || leb_ℤ r.filled_qty (pos 0))) [
      | inl abandoned ↦ rw abandoned (
          raised_or-Leaves w c t d (w.raises_at giving_up) _ _ (λ h. inl (giving_up, h)) (inr taken)
            (freed_slots, refl))
      | inr filled ↦ rw filled (
          raised_or-Leaves w c t d (not (is_valid c t) || w.raises_at opening)
            (record d { allocator = a }) _
            (invalid_or_opening w c t d (is_valid c t) (w.raises_at opening) refl refl) (inr taken)
            (opened-Leaves r (after_entry t.side d.vessel)))
    ]

  not_both : (o : Attempt F) → is_alone o ≡ true → is_lost o ≡ true → ⊥
  not_both commits h k = absurd (ground arith)
  not_both (watch_error a) h k = absurd (ground arith)
  not_both fails h k = absurd (ground arith)
  not_both reply_lost h k = absurd (ground arith)

  refused_is : (reason : GateReason F) → (reason ≢ ok) → is_ok reason ≡ false
  refused_is ok h = absurd (h refl)
  refused_is _ h = ground arith

  -- A refusal without other clients and lost replies leaves the allocator.
  refused_alone :
      (w : Course F) (c : Settings F) (t : Task) (a : Allocator F)
      (g : GateReason F × F × Allocator F)
      → ((k : ℕ) → is_alone (w.attempts k) ≡ true)
      → IsRefused w.attempts t.index c.gate a g
      → g.2 ≡ a
  refused_alone w c t a g alone (refusal, none_reserved, inl e) = e
  refused_alone w c t a g alone (refusal, none_reserved, inr (inl e)) =
      e ∙ met-alone 5 w.attempts a alone
  refused_alone w c t a g alone (refusal, none_reserved, inr (inr (e, premium, l, n, lost))) =
      absurd (not_both (w.attempts n) (alone n) lost)

  gated-Leaves :
      (w : Course F) (c : Settings F) (t : Task) (d : Desk F) (g : GateReason F × F × Allocator F)
      → str_eq t.index "total" ≡ false
      → is_member t.pos_id d.open_positions ≡ false
      → w.is_connected ≡ true
      → w.raises_at cleaning ≡ false
      → ((k : ℕ) → is_alone (w.attempts k) ≡ true)
      → IsRefused w.attempts t.index c.gate d.allocator g
        ⊎ ((g.0 ≡ ok)
            × IsReserved w.flags w.chain c.gate t.index t.token t.qty_lots
                (met 5 w.attempts d.allocator)
                g)
      → Leaves w c t d (gated w c t g d)
  gated-Leaves w c t d g ne fresh up cleans alone (inl refusal) =
      let refused_gate : is_ok g.0 ≡ false = refused_is g.0 refusal.0 in
      let same = refused_alone w c t d.allocator g alone refusal in
      rw refused_gate (
        raised_or-Leaves w c t d (w.raises_at giving_up) _ _ (λ h. inl (giving_up, h))
          (inl (rw same (refl, refl))) (rw same ((refl, refl), refl)))
  gated-Leaves w c t d g ne fresh up cleans alone (inr (e, booked)) =
      let txn =
        subst
          (λ b.
            reserve_txn t.index g.1 c.gate.trading_capital c.gate.max_concurrent b
            ≡ (reserved, g.2))
          (met-alone 5 w.attempts d.allocator alone) booked.9 in
      let made : Outcome t.index g.1 c.gate.trading_capital c.gate.max_concurrent d.allocator
          (reserved, g.2) =
        subst (λ r. Outcome t.index g.1 c.gate.trading_capital c.gate.max_concurrent d.allocator r)
          txn
          (reserve_txn-Outcome t.index g.1 c.gate.trading_capital c.gate.max_concurrent d.allocator
            ne) in
      let slots : SameSlots d.allocator (release w.is_connected t.index g.1 g.2).1 = rw up (
        release-SameSlots t.index g.1 c.gate.trading_capital c.gate.max_concurrent d.allocator g.2
          ne txn) in
      rw e (
        raised_or-Leaves w c t d (w.raises_at setting_up || w.raises_at entering) _ _
          (at_stages w c t d setting_up entering) (inr (made.3, made.4))
          (entered-Leaves w c t d g.1 g.2 slots (made.3, made.4) fresh cleans
            (submit_and_monitor w.mode c.entry w.entry_leaf t.qty_lots c.gate.lot_size)))

  -- A fresh entry that returns leaves nothing reserved and nothing open: whether it is refused, given up
  -- or closed again, the same indexes hold slots of the allocator as before, the total counts as many,
  -- and the same positions are open. An exception that leaves it has one of three causes: a call raises,
  -- the position is not valid (its index is neither nifty50 nor banknifty, or it has no holding time),
  -- or its exit meets a fill that it cannot read; the slots are then as before, or the slot of its
  -- index stays taken. That is for an index that is not named like the totals, a position id that is
  -- new, a release and a cleanup that reach Redis, and attempts at the reservation that no other client
  -- disturbs and whose reply is not lost.
  pub process_signal-Leaves :
      (w : Course F) (c : Settings F) (t : Task) (d : Desk F)
      → str_eq t.index "total" ≡ false
      → is_member t.pos_id d.open_positions ≡ false
      → w.is_connected ≡ true
      → w.raises_at cleaning ≡ false
      → ((k : ℕ) → is_alone (w.attempts k) ≡ true)
      → Leaves w c t d (process_signal w c t d)
  unfolding process_signal
  process_signal-Leaves w c t d ne fresh up cleans alone =
      raised_or-Leaves w c t d (w.raises_at gating) d _ (λ h. inl (gating, h)) (inl (refl, refl))
        (gated-Leaves w c t d
          (gate_and_reserve w.attempts w.flags w.chain c.gate t.index t.token t.qty_lots
            d.allocator)
          ne fresh up cleans alone
          (gate_and_reserve-Outcome w.attempts w.flags w.chain c.gate t.index t.token t.qty_lots
            d.allocator))
