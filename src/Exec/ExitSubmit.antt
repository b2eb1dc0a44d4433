-- ===== src/Exec/ExitSubmit.antt =====
-- backend/engines/order_exec/exit_submit.py: the order that closes a position. It is never given up.
pub mod Closing
use pcr_momentum.Base.{
  ℕ, String, str_eq, Bool, true, false, ◌&&◌, Option, none, some, List, [], ◌∷◌, ◌++◌, leb,
  if◌then◌else◌,
}
use pcr_momentum.Base.Int.{ℤ}
use pcr_momentum.Float.{Float, nought, max_f, ◌<f◌, ◌≤f◌, ◌>f◌, ◌≥f◌, ◌-f◌}
use pcr_momentum.Exec.{
  Position, Quote, OrderEvent, fill, partial_fill, reject, other_event, Payload, Placed, refused,
  accepted, BrokerCall, modify_order, Event, submitted, filled, modified, reported, qty_or,
  price_or, id_or, no_order,
}

-- The settings with their defaults 2, 5 and 15:00, in minutes of the day.
pub record ExitConfig (F : Type 0) : Type 0 where
  pub buffer_inr : F
  pub eod_buffer_inr : F
  pub suppress_after : ℕ

-- The latencies are left out.
pub record ExitResult (F : Type 0) : Type 0 where
  pub filled_qty : ℤ
  pub avg_fill_price : F
  pub order_id : String
  pub order_events : List (Event F)

-- How the order ends: it waits for a fill, it raises on a fill with a text that is no number, or it
-- closes the position.
pub data ExitEnd (F : Type 0) : Type 0 where
  waits : ExitEnd F
  raises : ExitEnd F
  closes : ExitResult F → ExitEnd F

-- An entry of the stream, whether its numbers can be read, and what a reject of the order meets: the
-- leaf at that time, and the answer to a new order.
pub record Delivery (F : Type 0) : Type 0 where
  pub payload : Payload F
  pub is_readable : Bool
  pub leaf : Option (Quote F)
  pub answer : Placed

-- One pass of the loop: the read fails; or it meets the entries that have come since the last answer
-- before it starts, those that come while it blocks, and the leaf, which is looked at when it brings
-- none.
pub data Pass (F : Type 0) : Type 0 where
  read_fails : Pass F
  reads : (before during : List (Delivery F)) → Option (Quote F) → Pass F

-- The variables of the loop; `has_cursor` says that last_id is the id of an entry, no longer "$".
pub record Exiting (F : Type 0) : Type 0 where
  pub order_id : String
  pub has_cursor : Bool
  pub bid : F
  pub submit_price : F
  pub events : List (Event F)
  pub calls : List (BrokerCall F)

abbrev pub first_id : Placed → String
first_id refused = no_order
first_id (accepted id) = id_or id no_order

abbrev id_after : Placed → String → String
id_after refused order_id = order_id
id_after (accepted id) order_id = id_or id order_id

module _ {F : Type 0} ⦃fl : Float F⦄ where
  unfoldable pub effective_buffer : ExitConfig F → ℕ → F
  effective_buffer c now_minute =
      if leb c.suppress_after now_minute then c.eod_buffer_inr else c.buffer_inr

  -- `round(max(0.05, bid - buffer_inr), 2)`
  unfoldable pub exit_price : F → F → F
  exit_price bid buffer = fl.round_to 2 (max_f (fl.dec 5 2) (bid -f buffer))

  abbrev leaf_bid : Option (Quote F) → F
  leaf_bid none = nought
  leaf_bid (some q) = q.bid

  -- `x == 0`, which makes `x or y` take y.
  abbrev is_nought : F → Bool
  is_nought x = x ≤f nought && nought ≤f x

  -- Without a bid the position's own premium is the price to start from.
  unfoldable pub start_bid : Option (Quote F) → Position F → F
  start_bid leaf p =
      if leaf_bid leaf ≤f nought
      then (if is_nought p.current_premium then p.entry_price else p.current_premium)
      else leaf_bid leaf

  unfoldable pub submit_and_complete_paper :
      ExitConfig F → Option (Quote F) → Position F → ℕ → String → ExitResult F
  submit_and_complete_paper c leaf p now_minute fresh_id =
      let price = exit_price (start_bid leaf p) (effective_buffer c now_minute) in
      record {
        filled_qty = p.qty;
        avg_fill_price = price;
        order_id = fresh_id;
        order_events = submitted fresh_id p.qty price ∷ filled fresh_id p.qty price ∷ [];
      }

  abbrev abs_f : F → F
  abs_f x = if x <f nought then fl.neg x else x

  -- A bid that has moved by a rupee takes the order with it.
  unfoldable pub follow_bid : F → Option (Quote F) → Exiting F → Exiting F
  follow_bid buffer none s = s
  follow_bid buffer (some q) s =
      if q.bid >f nought && abs_f (q.bid -f s.bid) ≥f fl.dec 1 0
      then record {
        order_id = s.order_id;
        has_cursor = s.has_cursor;
        bid = q.bid;
        submit_price = exit_price q.bid buffer;
        events = s.events ++ modified s.order_id (exit_price q.bid buffer) ∷ [];
        calls = s.calls ++ modify_order s.order_id (exit_price q.bid buffer) ∷ [];
      }
      else s

  -- `float((cur_leaf or {}).get("bid") or bid)`
  abbrev bid_or : Option (Quote F) → F → F
  bid_or none bid = bid
  bid_or (some q) bid = if is_nought q.bid then bid else q.bid

  -- A new order after a reject; a refused one leaves the old id.
  unfoldable pub place_again : F → Delivery F → Exiting F → Exiting F
  place_again buffer d s = record s {
    submit_price = exit_price (bid_or d.leaf s.bid) buffer;
    order_id = id_after d.answer s.order_id;
  }

  abbrev closed : Position F → Payload F → Exiting F → ExitResult F
  closed p e s = record {
    filled_qty = qty_or e.filled_qty p.qty;
    avg_fill_price = price_or e.avg_price s.submit_price;
    order_id = s.order_id;
    order_events = s.events;
  }

  abbrev pub end_of_fill : Bool → ExitResult F → ExitEnd F
  end_of_fill true r = closes r
  end_of_fill false r = raises

  -- The entries of one batch, up to a fill.
  unfoldable pub take_deliveries :
      F → Position F → List (Delivery F) → Exiting F → ExitEnd F × Exiting F
  take_deliveries buffer p [] s = (waits, s)
  take_deliveries buffer p (d ∷ ds) s =
      let seen = record s { events = s.events ++ reported d.payload ∷ [] } in
      let skipped = take_deliveries buffer p ds s in
      let placed = take_deliveries buffer p ds (place_again buffer d seen) in
      let passing = take_deliveries buffer p ds seen in
      if str_eq d.payload.order_id s.order_id
      then elim d.payload.event_type [
        | fill ↦ (end_of_fill d.is_readable (closed p d.payload seen), seen)
        | partial_fill ↦ passing
        | reject ↦ placed
        | other_event ↦ passing
      ]
      else skipped

  abbrev pub after_batch : ExitEnd F → Exiting F → ExitEnd F × Exiting F → ExitEnd F × Exiting F
  after_batch waits s rest = rest
  after_batch raises s rest = (raises, s)
  after_batch (closes r) s rest = (closes r, s)

  -- What XREAD answers: behind "$" only what comes while it blocks, behind an entry also what is there.
  abbrev pub visible : Bool → List (Delivery F) → List (Delivery F) → List (Delivery F)
  visible false before during = during
  visible true before during = before ++ during

  -- An answer: without entries the order follows the bid, else the cursor moves to the last of them.
  abbrev pub take_answer :
      F → Position F → List (Delivery F) → Option (Quote F) → Exiting F → ExitEnd F × Exiting F
  take_answer buffer p [] leaf s = (waits, follow_bid buffer leaf s)
  take_answer buffer p (d ∷ ds) leaf s =
      take_deliveries buffer p (d ∷ ds) (record s { has_cursor = true })

  -- The loop has no end of its own: after these passes it may still wait.
  unfoldable pub wait_for_fill : F → Position F → List (Pass F) → Exiting F → ExitEnd F × Exiting F
  wait_for_fill buffer p [] s = (waits, s)
  wait_for_fill buffer p (read_fails ∷ passes) s = wait_for_fill buffer p passes s
  wait_for_fill buffer p (reads before during leaf ∷ passes) s =
      let taken = take_answer buffer p (visible s.has_cursor before during) leaf s in
      after_batch taken.0 taken.1 (wait_for_fill buffer p passes taken.1)

  abbrev pub exiting : String → F → F → ℤ → Exiting F
  exiting order_id bid price qty = record {
    order_id = order_id;
    has_cursor = false;
    bid = bid;
    submit_price = price;
    events = submitted order_id qty price ∷ [];
    calls = [];
  }

  unfoldable pub submit_and_complete_live :
      ExitConfig F
      → Option (Quote F)
      → Position F
      → ℕ
      → Placed
      → List (Pass F)
      → ExitEnd F × Exiting F
  submit_and_complete_live c leaf p now_minute answer passes =
      let buffer = effective_buffer c now_minute in
      let price = exit_price (start_bid leaf p) buffer in
      wait_for_fill buffer p passes (exiting (first_id answer) (start_bid leaf p) price p.qty)
