-- ===== src/Exec/Entry.antt =====
-- backend/engines/order_exec/entry.py: the order that opens a position, on paper and at the broker.
pub mod Fills
use pcr_momentum.Base.{
  ℕ, ◌+◌, ◌-◌, ◌*◌, String, str_eq, Bool, true, false, ◌&&◌, ◌||◌, Option, none, some, List, [],
  ◌∷◌, ◌++◌, leb, ltb, is_some, if◌then◌else◌,
}
use pcr_momentum.Base.Int.{ℤ, pos, eqb_ℤ, ◌*ℤ◌}
use pcr_momentum.Float.{Float, nought, ◌≤f◌, ◌>f◌, ◌≥f◌, ◌+f◌, ◌-f◌}
use pcr_momentum.Exec.{
  Quote, QuoteChain, read_leaf, OrderEvent, fill, partial_fill, reject, other_event, Payload,
  Placed, refused, accepted, BrokerCall, modify_order, cancel_order, Event, submitted, filled,
  modified, reported, qty_or, price_or, id_or, no_order,
}

pub data AbandonReason (F : Type 0) : Type 0 where
  leaf_missing no_ask place_rejected broker_reject open_timeout : AbandonReason F
  chase_ceiling_breached : F → AbandonReason F

-- The latencies are left out.
pub record EntryResult (F : Type 0) : Type 0 where
  pub filled_qty : ℤ
  pub avg_fill_price : F
  pub order_id : String
  pub order_events : List (Event F)
  pub abandon_reason : Option (AbandonReason F)

-- The settings with their defaults 2, 3, 15 and 3.
pub record EntryConfig (F : Type 0) : Type 0 where
  pub buffer_inr : F
  pub drift_threshold : F
  pub chase_ceiling : F
  pub partial_grace_ms : ℕ

-- One pass of the loop before the deadline: the read fails, brings nothing (and the leaf is read), or
-- brings entries at a time, which is also the time of the check for the partial fill.
pub data Pass (F : Type 0) : Type 0 where
  read_fails : Pass F
  quiet : Option (Quote F) → Pass F
  arrives : ℕ → List (Payload F) → Pass F

module _ {F : Type 0} ⦃fl : Float F⦄ where
  abbrev pub abandoned : String → List (Event F) → AbandonReason F → EntryResult F
  abandoned order_id events reason = record {
    filled_qty = pos 0;
    avg_fill_price = nought;
    order_id = order_id;
    order_events = events;
    abandon_reason = some reason;
  }

  -- The prices and quantities of an order that fills at once.
  abbrev paper_fill : String → ℤ → F → EntryResult F
  paper_fill order_id qty price = record {
    filled_qty = qty;
    avg_fill_price = price;
    order_id = order_id;
    order_events = submitted order_id qty price ∷ filled order_id qty price ∷ [];
    abandon_reason = none;
  }

  unfoldable pub submit_and_monitor_paper :
      EntryConfig F → Option (Quote F) → ℤ → ℤ → String → EntryResult F
  submit_and_monitor_paper c none qty_lots lot_size fresh_id = abandoned no_order [] leaf_missing
  submit_and_monitor_paper c (some q) qty_lots lot_size fresh_id =
      if q.ask ≤f nought
      then abandoned no_order [] no_ask
      else paper_fill fresh_id (qty_lots *ℤ lot_size) (fl.round_to 2 (q.ask +f c.buffer_inr))

-- The variables of the loop.
pub record Monitor (F : Type 0) : Type 0 where
  pub initial_ask : F
  pub last_partial : Option ℕ
  -- The quantity and the price of the fill; `fill_ts` is set with them.
  pub fill_seen : Option (ℤ × F)
  pub events : List (Event F)
  pub calls : List (BrokerCall F)

-- `last_partial_seen_ts and time.time() - last_partial_seen_ts > partial_grace_sec`
abbrev pub grace_over : ℕ → ℕ → Option ℕ → Bool
grace_over grace_ms now none = false
grace_over grace_ms now (some t) = ltb grace_ms (now - t)

module _ {F : Type 0} ⦃fl : Float F⦄ where
  -- The entries of one batch; false where a reject of the order ends the call. A partial fill only
  -- leaves its time.
  unfoldable pub take_payloads :
      String → ℤ → F → ℕ → List (Payload F) → Monitor F → Bool × Monitor F
  take_payloads order_id qty submit_price now [] m = (true, m)
  take_payloads order_id qty submit_price now (p ∷ ps) m =
      let seen = record m { events = m.events ++ reported p ∷ [] } in
      let skipped = take_payloads order_id qty submit_price now ps m in
      let filling = take_payloads order_id qty submit_price now ps (record seen {
        fill_seen = some (qty_or p.filled_qty qty, price_or p.avg_price submit_price);
      }) in
      let waiting =
        take_payloads order_id qty submit_price now ps (record seen { last_partial = some now }) in
      let passing = take_payloads order_id qty submit_price now ps seen in
      if str_eq p.order_id order_id
      then elim p.event_type [
        | fill ↦ filling
        | partial_fill ↦ waiting
        | reject ↦ (false, seen)
        | other_event ↦ passing
      ]
      else skipped

  -- The ask has moved: too far, and the entry is given up; far enough, and the order follows it.
  unfoldable pub follow_ask :
      EntryConfig F → String → Option (Quote F) → Monitor F → Option F × Monitor F
  follow_ask c order_id none m = (none, m)
  follow_ask c order_id (some q) m =
      if q.ask >f nought && (q.ask -f m.initial_ask) ≥f c.chase_ceiling
      then (some q.ask, record m { calls = m.calls ++ cancel_order order_id ∷ [] })
      else if q.ask >f nought && (q.ask -f m.initial_ask) ≥f c.drift_threshold
      then (
        none,
        record m {
          initial_ask = q.ask;
          events = m.events ++ modified order_id (fl.round_to 2 (q.ask +f c.buffer_inr)) ∷ [];
          calls = m.calls ++ modify_order order_id (fl.round_to 2 (q.ask +f c.buffer_inr)) ∷ [];
        },
      )
      else (none, m)

  abbrev filled_result : String → Monitor F → ℤ × F → EntryResult F
  filled_result order_id m (qty, price) = record {
    filled_qty = qty;
    avg_fill_price = price;
    order_id = order_id;
    order_events = m.events;
    abandon_reason = none;
  }

  timed_out : String → Monitor F → EntryResult F × List (BrokerCall F)
  timed_out order_id m =
      (abandoned order_id m.events open_timeout, m.calls ++ cancel_order order_id ∷ [])

  -- After the loop. A fill of quantity zero counts as none.
  unfoldable pub settle : String → Monitor F → Option (ℤ × F) → EntryResult F × List (BrokerCall F)
  unfolding timed_out
  settle order_id m none = timed_out order_id m
  settle order_id m (some f) =
      if eqb_ℤ f.0 (pos 0) then timed_out order_id m else (filled_result order_id m f, m.calls)

  unfoldable pub conclude : String → Monitor F → EntryResult F × List (BrokerCall F)
  conclude order_id m = settle order_id m m.fill_seen

  -- After a quiet pass: a breach of the ceiling, or the rest of the loop.
  abbrev pub after_quiet :
      String
      → Option F
      → Monitor F
      → EntryResult F × List (BrokerCall F)
      → EntryResult F × List (BrokerCall F)
  after_quiet order_id none m rest = rest
  after_quiet order_id (some ask) m rest =
      (abandoned order_id m.events (chase_ceiling_breached ask), m.calls)

  -- After a batch: a reject, a fill, the end of the grace for a partial fill, or the rest of the loop.
  abbrev pub after_batch :
      ℕ
      → String
      → ℕ
      → Bool
      → Monitor F
      → EntryResult F × List (BrokerCall F)
      → EntryResult F × List (BrokerCall F)
  after_batch grace_ms order_id now false m rest =
      (abandoned order_id m.events broker_reject, m.calls)
  after_batch grace_ms order_id now true m rest =
      if is_some m.fill_seen
      then conclude order_id m
      else if grace_over grace_ms now m.last_partial
      then conclude order_id (record m { calls = m.calls ++ cancel_order order_id ∷ [] })
      else rest

  -- The loop, over the passes that begin before the deadline.
  unfoldable pub monitor :
      EntryConfig F
      → String
      → ℤ
      → F
      → List (Pass F)
      → Monitor F
      → EntryResult F × List (BrokerCall F)
  monitor c order_id qty submit_price [] m = conclude order_id m
  monitor c order_id qty submit_price (read_fails ∷ passes) m = conclude order_id m
  monitor c order_id qty submit_price (quiet leaf ∷ passes) m =
      let (ceiling, m') = follow_ask c order_id leaf m in
      after_quiet order_id ceiling m' (monitor c order_id qty submit_price passes m')
  monitor c order_id qty submit_price (arrives now ps ∷ passes) m =
      let (alive, m') = take_payloads order_id qty submit_price now ps m in
      after_batch c.partial_grace_ms order_id now alive m'
        (monitor c order_id qty submit_price passes m')

  abbrev pub started : String → ℤ → F → F → Monitor F
  started order_id qty price ask = record {
    initial_ask = ask;
    last_partial = none;
    fill_seen = none;
    events = submitted order_id qty price ∷ [];
    calls = [];
  }

  abbrev pub after_placing :
      EntryConfig F → ℤ → F → F → List (Pass F) → Placed → EntryResult F × List (BrokerCall F)
  after_placing c qty price ask passes refused = (abandoned no_order [] place_rejected, [])
  after_placing c qty price ask passes (accepted id) =
      let order_id = id_or id no_order in
      monitor c order_id qty price passes (started order_id qty price ask)

  -- The answer of the broker to the order, and the passes of the loop, come from outside.
  unfoldable pub submit_and_monitor_live :
      EntryConfig F
      → Option (Quote F)
      → ℤ
      → ℤ
      → Placed
      → List (Pass F)
      → EntryResult F × List (BrokerCall F)
  submit_and_monitor_live c none qty_lots lot_size answer passes =
      (abandoned no_order [] leaf_missing, [])
  submit_and_monitor_live c (some q) qty_lots lot_size answer passes =
      if q.ask ≤f nought
      then (abandoned no_order [] no_ask, [])
      else after_placing c (qty_lots *ℤ lot_size) (fl.round_to 2 (q.ask +f c.buffer_inr)) q.ask
          passes answer
