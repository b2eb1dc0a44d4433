-- ===== src/Exec/Dispatcher/Acks.antt =====
-- dispatcher.py: whatever the entries hold, each is acknowledged, and only orders reach the workers.
use mathlib.Core.Path.{subst}
use mathlib.Core.List.{append_assoc, append-nil}
use pcr_momentum.Base.{
  ◌≡◌, refl, sym, ap, ◌∙◌, String, str_eq, Bool, true, false, not, ◌&&◌, Option, none, some, List,
  [], ◌∷◌, ◌++◌, inl, inr, truthy, if◌then◌else◌, arith, Bool-cases,
}
use pcr_momentum.Base.Int.{ℤ, pos, ◌≤ℤ◌, leb_ℤ}
use pcr_momentum.Base.Dict.{Dict, get, get-put}
use pcr_momentum.Float.{Float}
use pcr_momentum.Exec.Dispatcher.{
  Texts, Received, Desk, known_index, is_exit, signal_from_payload, text_or, dispatch,
  dispatch_entries, dispatcher_loop, handled, flagged, validate, ◌>>=◌, side_of, intent_of_text,
}

abbrev pub Replies : Type 0
Replies = List (ℤ × Option (List (String × Dict String)))

abbrev pub ids : List (String × Dict String) → List String
ids [] = []
ids ((id, _) ∷ entries) = id ∷ ids entries

-- The ids that arrived.
abbrev pub all_ids : Replies → List String
all_ids [] = []
all_ids ((_, none) ∷ replies) = all_ids replies
all_ids ((_, some entries) ∷ replies) = ids entries ++ all_ids replies

-- The position is of no index.
abbrev pub NotCurrent : String → Dict String → Type 0
NotCurrent p current = (index : String) → str_eq (text_or (get index current) "") p ≡ false

accepted_parts :
    (a b : Bool) (n : ℤ) (c d : Bool)
    → (a && b && not (leb_ℤ n (pos 0)) && c && d) ≡ true
    → (pos 1 ≤ℤ n) × (b ≡ true)
accepted_parts a b n c d h = ground arith

still : (p : String) (a b : Dict String) → b ≡ a → NotCurrent p a → NotCurrent p b
still p a b e h = subst (NotCurrent p) (sym e) h

module _ {F : Type 0} where
  -- A signal that a worker may enter on.
  abbrev pub IsOrder : Received F → Type 0
  IsOrder sig =
      (is_exit sig.intent ≡ false) × (pos 1 ≤ℤ sig.qty_lots) × (known_index sig.index ≡ true)

  abbrev pub AllOrders : List (Received F) → Type 0
  AllOrders [] = Unit
  AllOrders (sig ∷ sigs) = IsOrder sig × AllOrders sigs

  abbrev pub order_in : Option (Received F) → List (Received F)
  order_in none = []
  order_in (some sig) = if is_exit sig.intent then [] else sig ∷ []

module _ {F : Type 0} ⦃fl : Float F⦄ (tx : Texts) where
  -- The signals that arrived, exits apart.
  abbrev pub orders : ℤ → List (String × Dict String) → List (Received F)
  orders now [] = []
  orders now ((_, payload) ∷ entries) =
      order_in (signal_from_payload tx now payload) ++ orders now entries

  abbrev pub all_orders : Replies → List (Received F)
  all_orders [] = []
  all_orders ((_, none) ∷ replies) = all_orders replies
  all_orders ((now, some entries) ∷ replies) = orders now entries ++ all_orders replies

module _ {F : Type 0} where
  -- From one desk to another: these ids acknowledged and these orders queued, in order.
  pub record Passes (p : String) (new_ids : List String) (new : List (Received F)) (d d' : Desk F)
      : Type 0 where
    pub acked : d'.acked ≡ d.acked ++ new_ids
    pub queue : d'.queue ≡ d.queue ++ new
    pub current_position : d'.current_position ≡ d.current_position
    pub exit_pull : get p d'.exit_pull ≡ get p d.exit_pull

  Passes-none : (p : String) (d : Desk F) → Passes p [] [] d d
  Passes-none p d = record {
    acked = sym (append-nil d.acked);
    queue = sym (append-nil d.queue);
    current_position = refl;
    exit_pull = refl;
  }

  Passes-trans :
      (p : String) (xs ys : List String) (os qs : List (Received F)) (d e f : Desk F)
      → Passes p xs os d e
      → Passes p ys qs e f
      → Passes p (xs ++ ys) (os ++ qs) d f
  Passes-trans p xs ys os qs d e f a b = record {
    acked = b.acked ∙ ap (λ l. l ++ ys) a.acked ∙ append_assoc d.acked xs ys;
    queue = b.queue ∙ ap (λ l. l ++ qs) a.queue ∙ append_assoc d.queue os qs;
    current_position = b.current_position ∙ a.current_position;
    exit_pull = b.exit_pull ∙ a.exit_pull;
  }

  -- Everything but the acknowledgement.
  abbrev PassesOn : String → List (Received F) → Desk F → Desk F → Type 0
  PassesOn p new d d' = Passes p [] new d d'

  flagged-Passes :
      (p q : String) (payload : Dict String) (d : Desk F)
      → str_eq q p ≡ false
      → Passes p [] [] d (flagged q payload d)
  flagged-Passes p q payload d h = elim (Bool-cases (truthy q)) [
    | inl e ↦ rw e (record {
      acked = sym (append-nil d.acked);
      queue = sym (append-nil d.queue);
      current_position = refl;
      exit_pull = get-put q p _ d.exit_pull ∙ rw h refl;
    })
    | inr e ↦ rw e (Passes-none p d)
  ]

  handled-Passes :
      (p : String) (payload : Dict String) (o : Option (Received F)) (d : Desk F)
      → NotCurrent p d.current_position
      → Passes p [] (order_in o) d (handled payload o d)
  handled-Passes p payload none d h = Passes-none p d
  handled-Passes p payload (some sig) d h = elim (Bool-cases (is_exit sig.intent)) [
    | inl e ↦
        rw e
          (flagged-Passes p (text_or (get sig.index d.current_position) "") payload d (h sig.index))
    | inr e ↦ rw e (record {
      acked = sym (append-nil d.acked);
      queue = refl;
      current_position = refl;
      exit_pull = refl;
    })
  ]

module _ {F : Type 0} ⦃fl : Float F⦄ (tx : Texts) where
  dispatch-Passes :
      (p : String) (now : ℤ) (id : String) (payload : Dict String) (d : Desk F)
      → NotCurrent p d.current_position
      → Passes p
          (id ∷ [])
          (order_in (signal_from_payload tx now payload))
          d
          (dispatch tx now (id, payload) d)
  unfolding dispatch
  dispatch-Passes p now id payload d h =
      let o = signal_from_payload tx now payload in
      let r = handled-Passes p payload o d h in
      record {
        acked = ap (λ l. l ++ id ∷ []) (r.acked ∙ append-nil d.acked);
        queue = r.queue;
        current_position = r.current_position;
        exit_pull = r.exit_pull;
      }

  dispatch_entries-Passes :
      (p : String) (now : ℤ) (entries : List (String × Dict String)) (d : Desk F)
      → NotCurrent p d.current_position
      → Passes p (ids entries) (orders tx now entries) d (dispatch_entries tx now entries d)
  unfolding dispatch_entries
  dispatch_entries-Passes p now [] d h = Passes-none p d
  dispatch_entries-Passes p now ((id, payload) ∷ entries) d h =
      let e = dispatch tx now (id, payload) d in
      let first = dispatch-Passes p now id payload d h in
      Passes-trans p (id ∷ []) (ids entries) (order_in (signal_from_payload tx now payload))
        (orders tx now entries) d e (dispatch_entries tx now entries e) first
        (dispatch_entries-Passes p now entries e
          (still p d.current_position e.current_position first.current_position h))

  loop-Passes :
      (p : String) (replies : Replies) (d : Desk F)
      → NotCurrent p d.current_position
      → Passes p (all_ids replies) (all_orders tx replies) d (dispatcher_loop tx replies d)
  unfolding dispatcher_loop
  loop-Passes p [] d h = Passes-none p d
  loop-Passes p ((now, none) ∷ replies) d h = loop-Passes p replies d h
  loop-Passes p ((now, some entries) ∷ replies) d h =
      let e = dispatch_entries tx now entries d in
      let first = dispatch_entries-Passes p now entries d h in
      Passes-trans p (ids entries) (all_ids replies) (orders tx now entries) (all_orders tx replies)
        d e (dispatcher_loop tx replies e) first
        (loop-Passes p replies e
          (still p d.current_position e.current_position first.current_position h))

module _ {F : Type 0} where
  -- What a worker may rely on, if there is a signal.
  abbrev Accepted : Option (Received F) → Type 0
  Accepted none = Unit
  Accepted (some sig) = (pos 1 ≤ℤ sig.qty_lots) × (known_index sig.index ≡ true)

  >>=-Accepted :
      {A : Type 0} (m : Option A) (f : A → Option (Received F))
      → ((a : A) → Accepted (f a))
      → Accepted (m >>= f)
  >>=-Accepted none f h = tt
  >>=-Accepted (some a) f h = h a

  validate-Accepted :
      (tx : Texts) (breakdown : String) (sig : Received F) → Accepted (validate tx breakdown sig)
  unfolding validate
  validate-Accepted tx breakdown sig =
      let ok =
        known_index sig.instrument_id
        && known_index sig.index
        && not (leb_ℤ sig.qty_lots (pos 0))
        && tx.is_datetime sig.ts
        && tx.is_breakdown breakdown in
      elim (Bool-cases ok) [
        | inl e ↦ rw e (accepted_parts _ (known_index sig.index) sig.qty_lots _ _ e)
        | inr e ↦ rw e tt
      ]

  order_in-AllOrders : (o : Option (Received F)) → Accepted o → AllOrders (order_in o)
  order_in-AllOrders none h = tt
  order_in-AllOrders (some sig) h = elim (Bool-cases (is_exit sig.intent)) [
    | inl e ↦ rw e tt
    | inr e ↦ rw e ((e, h.0, h.1), tt)
  ]

  append-AllOrders :
      (xs ys : List (Received F)) → AllOrders xs → AllOrders ys → AllOrders (xs ++ ys)
  append-AllOrders [] ys h k = k
  append-AllOrders (x ∷ xs) ys h k = (h.0, append-AllOrders xs ys h.1 k)

module _ (F : Type 0) ⦃fl : Float F⦄ (tx : Texts) where
  signal_from_payload-Accepted :
      (now : ℤ) (payload : Dict String) → Accepted (signal_from_payload {F = F} tx now payload)
  unfolding signal_from_payload
  signal_from_payload-Accepted now payload = >>=-Accepted (get "sig_id" payload) _ λ sig_id.
      >>=-Accepted (get "side" payload) _ λ side_text.
        >>=-Accepted (get "strike" payload) _ λ strike_text.
          >>=-Accepted (tx.parse_int strike_text) _ λ strike.
            >>=-Accepted (get "instrument_token" payload) _ λ token.
              >>=-Accepted (get "intent" payload) _ λ intent_text.
                >>=-Accepted (get "qty_lots" payload) _ λ qty_text.
                  >>=-Accepted (tx.parse_int qty_text) _ λ qty_lots.
                    >>=-Accepted (get "ts" payload) _ λ ts.
                      >>=-Accepted (side_of side_text) _ λ side.
                        >>=-Accepted (intent_of_text intent_text) _
                          λ intent. validate-Accepted tx _ _

  orders-AllOrders :
      (now : ℤ) (entries : List (String × Dict String)) → AllOrders (orders {F = F} tx now entries)
  orders-AllOrders now [] = tt
  orders-AllOrders now ((id, payload) ∷ entries) =
      let o = signal_from_payload {F = F} tx now payload in
      append-AllOrders (order_in o) (orders {F = F} tx now entries)
        (order_in-AllOrders o (signal_from_payload-Accepted now payload))
        (orders-AllOrders now entries)

  all_orders-AllOrders : (replies : Replies) → AllOrders (all_orders {F = F} tx replies)
  all_orders-AllOrders [] = tt
  all_orders-AllOrders ((now, none) ∷ replies) = all_orders-AllOrders replies
  all_orders-AllOrders ((now, some entries) ∷ replies) =
      append-AllOrders (orders {F = F} tx now entries) (all_orders tx replies)
        (orders-AllOrders now entries) (all_orders-AllOrders replies)

module _ {F : Type 0} ⦃fl : Float F⦄ (tx : Texts) where
  -- Whatever the stream brings, malformed entries and failed reads included: every entry that arrived
  -- is acknowledged, in order; the workers' queue grows by exactly the signals that parse and ask for
  -- no exit, in order, each with at least one lot and a known index; and a position that is no index's
  -- current one gets no exit flag and loses none.
  pub dispatcher_loop-Passes :
      (replies : Replies) (d : Desk F) (p : String)
      → NotCurrent p d.current_position
      → Passes p (all_ids replies) (all_orders tx replies) d (dispatcher_loop tx replies d)
        × AllOrders (all_orders {F = F} tx replies)
  dispatcher_loop-Passes replies d p h =
      (loop-Passes tx p replies d h, all_orders-AllOrders F tx replies)
