-- ===== src/Scheduler/Triggers.antt =====
-- The table of triggers is the session's times over the defaults; every event is acknowledged.
use mathlib.Core.Path.{subst}
use mathlib.Core.List.{append_assoc, append-nil}
use pcr_momentum.Base.{
  ◌≡◌, refl, ap, sym, ◌∙◌, String, str_eq, eq_iff, Bool, true, Option, none, some, List, [], ◌∷◌,
  ◌++◌, inl, inr, any, map, Bool-cases, arith,
}
use pcr_momentum.Base.Dict.{Dict}
use pcr_momentum.Scheduler.{Background, Delivery, handle_event, on_daily_reset, scheduler_consumer}

-- A configured time, or else the other.
abbrev pub time_or : Option String → Option String → Option String
time_or (some hhmm) other = some hhmm
time_or none other = other

acked-handle_event : (e : Delivery) (b : Background) → (handle_event e b).acked ≡ b.acked
unfolding handle_event on_daily_reset
acked-handle_event e b = ground arith

acked-scheduler_consumer :
    (entries : List Delivery) (b : Background)
    → (scheduler_consumer entries b).acked ≡ b.acked ++ map (λ e. e.entry_id) entries
unfolding scheduler_consumer
acked-scheduler_consumer [] b = sym (append-nil b.acked)
acked-scheduler_consumer (e ∷ entries) b =
    let handled = handle_event e b in
    acked-scheduler_consumer entries (record handled { acked = handled.acked ++ e.entry_id ∷ [] })
    ∙ append_assoc handled.acked (e.entry_id ∷ []) (map (λ d. d.entry_id) entries)
    ∙ ap (λ l. l ++ e.entry_id ∷ map (λ d. d.entry_id) entries) (acked-handle_event e b)

-- A fresh day: no closed position, no loss circuit, no profit or loss.
abbrev pub IsFresh : Background → Type 0
IsFresh b = (b.closed_today ≡ []) × (b.daily_loss_circuit_triggered ≡ "false") × (b.pnl_day ≡ [])

abbrev pub resets : List Delivery → Bool
resets entries = any (λ e. str_eq e.kind "daily_reset") entries

handle_event-IsFresh : (e : Delivery) (b : Background) → IsFresh b → IsFresh (handle_event e b)
unfolding handle_event on_daily_reset
handle_event-IsFresh e b (h, k, l) = (ground arith, ground arith, ground arith)

scheduler_consumer-stays :
    (entries : List Delivery) (b : Background) → IsFresh b → IsFresh (scheduler_consumer entries b)
unfolding scheduler_consumer
scheduler_consumer-stays [] b h = h
scheduler_consumer-stays (e ∷ entries) b h =
    scheduler_consumer-stays entries _ (handle_event-IsFresh e b h)

handle_event-resets :
    (e : Delivery) (b : Background)
    → str_eq e.kind "daily_reset" ≡ true
    → IsFresh (handle_event e b)
unfolding handle_event on_daily_reset
handle_event-resets e b h =
    subst (λ k. IsFresh (handle_event (record { entry_id = e.entry_id; kind = k }) b))
      (sym ((eq_iff e.kind "daily_reset").0 h)) (refl, refl, refl)

scheduler_consumer-resets :
    (entries : List Delivery) (b : Background)
    → resets entries ≡ true
    → IsFresh (scheduler_consumer entries b)
unfolding scheduler_consumer
scheduler_consumer-resets [] b h = absurd (ground arith)
scheduler_consumer-resets (e ∷ entries) b h = elim (Bool-cases (str_eq e.kind "daily_reset")) [
  | inl k ↦ scheduler_consumer-stays entries _ (handle_event-resets e b k)
  | inr k ↦ scheduler_consumer-resets entries _ (ground arith)
]

-- The background engine acknowledges every event that it reads, in order, and once a daily reset is
-- among them the day is fresh: no closed positions, no loss circuit, no profit or loss.
pub scheduler_consumer-IsFresh :
    (entries : List Delivery) (b : Background)
    → resets entries ≡ true
    → ((scheduler_consumer entries b).acked ≡ b.acked ++ map (λ e. e.entry_id) entries)
      × IsFresh (scheduler_consumer entries b)
scheduler_consumer-IsFresh entries b h =
    (acked-scheduler_consumer entries b, scheduler_consumer-resets entries b h)
