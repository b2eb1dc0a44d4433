-- ===== src/Exec/Events.antt =====
-- The log of an order: what it has, and the kinds of its events.
use pcr_momentum.Base.{◌≡◌, refl, ◌⊎◌, inl, inr, List, [], ◌∷◌, ◌++◌}
use pcr_momentum.Exec.{Event, OrderEvent, fill, partial_fill, reject, other_event}

abbrev pub Has : {F : Type 0} → Event F → List (Event F) → Type 0
Has e [] = ⊥
Has e (x ∷ xs) = (x ≡ e) ⊎ Has e xs

module _ {F : Type 0} where
  pub Has-left : (e : Event F) (xs ys : List (Event F)) → Has e xs → Has e (xs ++ ys)
  Has-left e [] ys h = absurd h
  Has-left e (x ∷ xs) ys (inl h) = inl h
  Has-left e (x ∷ xs) ys (inr h) = inr (Has-left e xs ys h)

  pub Has-last : (e : Event F) (xs : List (Event F)) → Has e (xs ++ e ∷ [])
  Has-last e [] = inl refl
  Has-last e (x ∷ xs) = inr (Has-last e xs)

pub OrderEvent-cases :
    (e : OrderEvent) → (e ≡ fill) ⊎ ((e ≡ partial_fill) ⊎ ((e ≡ reject) ⊎ (e ≡ other_event)))
OrderEvent-cases fill = inl refl
OrderEvent-cases partial_fill = inr (inl refl)
OrderEvent-cases reject = inr (inr (inl refl))
OrderEvent-cases other_event = inr (inr (inr refl))
