-- ===== src/Buffer/Window.antt =====
-- The window refines the whole history of a token: it holds its last `maxlen` observations, and no
-- two successive ones are of the same tick.
use pcr_momentum.Base.{
  ℕ, ◌-◌, ◌≤◌, ◌<◌, ◌≡◌, inl, inr, refl, sym, false, List, [], ◌∷◌, ◌++◌, arith, drop, last?,
  length, if◌then◌else◌, length-append, length-drop, drop-append_left, drop-drop, drop-nil,
  last?-drop, Bool-cases, ap, ◌∙◌,
}
use pcr_momentum.Base.Int.{eqb_ℤ}
use pcr_momentum.Buffer.{TickObservation, StrikeBuffer, empty_buffer, same_tick, push}

module _ {F : Type 0} where
  -- The observations ever accepted, and the window that a capacity leaves of them.
  abbrev pub record_tick : List (TickObservation F) → TickObservation F → List (TickObservation F)
  record_tick history obs = if same_tick (last? history) obs then history else history ++ obs ∷ []

  abbrev pub last_of : ℕ → List (TickObservation F) → List (TickObservation F)
  last_of n history = drop (length history - n) history

  abbrev pub Represents : StrikeBuffer F → List (TickObservation F) → Type 0
  Represents b history = b.dq ≡ last_of b.maxlen history

  last?-last_of : (n : ℕ) (h : List (TickObservation F)) → 0 < n → last? (last_of n h) ≡ last? h
  last?-last_of n [] p = rw (drop-nil (0 - n)) refl
  last?-last_of n (x ∷ xs) p = last?-drop (length (x ∷ xs) - n) (x ∷ xs) (omega arith)

  last_of-snoc :
      (n : ℕ) (h : List (TickObservation F)) (o : TickObservation F)
      → let w = last_of n h ++ o ∷ [] in drop (length w - n) w ≡ last_of n (h ++ o ∷ [])
  last_of-snoc n h o =
      let k = length h - n in
      let e : last_of n h ++ o ∷ [] ≡ drop k (h ++ o ∷ []) =
        sym (drop-append_left k h (o ∷ []) (omega arith)) in
      rw e (
        rw (drop-drop (length (drop k (h ++ o ∷ [])) - n) k (h ++ o ∷ [])) (
          ap (λ m. drop m (h ++ o ∷ []))
            (omega (arith, length-drop k (h ++ o ∷ []), length-append h (o ∷ [])))))

  -- Pushing on a window of positive capacity does to it what recording does to the whole history:
  -- the window stays the last `maxlen` observations.
  push-Represents :
      (b : StrikeBuffer F) (history : List (TickObservation F)) (obs : TickObservation F)
      → 0 < b.maxlen
      → Represents b history
      → Represents (push b obs) (record_tick history obs)
  unfolding push
  push-Represents b history obs p r =
      let t : same_tick (last? b.dq) obs ≡ same_tick (last? history) obs =
        ap (λ l. same_tick l obs) (ap last? r ∙ last?-last_of b.maxlen history p) in
      elim (Bool-cases (same_tick (last? history) obs)) [
        | inl same ↦ rw (same, t ∙ same) r
        | inr fresh ↦
            rw (fresh, t ∙ fresh)
              (ap
                  (λ (l : List (TickObservation F)).
                    drop (length (l ++ obs ∷ []) - b.maxlen) (l ++ obs ∷ []))
                  r
                ∙ last_of-snoc b.maxlen history obs)
      ]

  -- The source pushes one observation after another.
  abbrev pub push_all : StrikeBuffer F → List (TickObservation F) → StrikeBuffer F
  push_all b [] = b
  push_all b (o ∷ os) = push_all (push b o) os

  abbrev pub record_all :
      List (TickObservation F) → List (TickObservation F) → List (TickObservation F)
  record_all history [] = history
  record_all history (o ∷ os) = record_all (record_tick history o) os

  push-maxlen : (b : StrikeBuffer F) (o : TickObservation F) → (push b o).maxlen ≡ b.maxlen
  unfolding push
  push-maxlen b o = ground arith

  push_all-Represents :
      (b : StrikeBuffer F) (history os : List (TickObservation F)) (n : ℕ)
      → 0 < n
      → b.maxlen ≡ n
      → Represents b history
      → ((push_all b os).dq ≡ last_of n (record_all history os))
  push_all-Represents b history [] n p m r = rw (← m) r
  push_all-Represents b history (o ∷ os) n p m r =
      push_all-Represents (push b o) (record_tick history o) os n p (push-maxlen b o ∙ m)
        (push-Represents b history o (omega arith) r)

  -- No two successive observations have one timestamp.
  abbrev pub IsSteady : List (TickObservation F) → Type 0
  IsSteady [] = Unit
  IsSteady (o ∷ []) = Unit
  IsSteady (o ∷ q ∷ os) = (eqb_ℤ q.ts o.ts ≡ false) × IsSteady (q ∷ os)

  IsSteady-snoc :
      (h : List (TickObservation F)) (o : TickObservation F)
      → same_tick (last? h) o ≡ false
      → IsSteady h
      → IsSteady (h ++ o ∷ [])
  IsSteady-snoc [] o e s = tt
  IsSteady-snoc (x ∷ []) o e s = (e, tt)
  IsSteady-snoc (x ∷ y ∷ h) o e s = (s.0, IsSteady-snoc (y ∷ h) o e s.1)

  record_tick-IsSteady :
      (h : List (TickObservation F)) (o : TickObservation F)
      → IsSteady h
      → IsSteady (record_tick h o)
  record_tick-IsSteady h o s = elim (Bool-cases (same_tick (last? h) o)) [
    | inl same ↦ rw same s
    | inr fresh ↦ rw fresh (IsSteady-snoc h o fresh s)
  ]

  record_all-IsSteady : (h os : List (TickObservation F)) → IsSteady h → IsSteady (record_all h os)
  record_all-IsSteady h [] s = s
  record_all-IsSteady h (o ∷ os) s =
      record_all-IsSteady (record_tick h o) os (record_tick-IsSteady h o s)

  IsSteady-drop : (n : ℕ) (h : List (TickObservation F)) → IsSteady h → IsSteady (drop n h)
  IsSteady-drop ℕ.zero h s = s
  IsSteady-drop (ℕ.suc n) [] s = tt
  IsSteady-drop (ℕ.suc n) (x ∷ []) s = rw (drop-nil n) tt
  IsSteady-drop (ℕ.suc n) (x ∷ y ∷ h) s = IsSteady-drop n (y ∷ h) s.1

  -- A window of positive capacity that starts empty is, after any ticks, the last `maxlen` of the
  -- recorded history; it is never longer than its capacity, and it never holds one tick twice in a
  -- row.
  pub push_all-refines :
      (n : ℕ) (os : List (TickObservation F))
      → 0 < n
      → ((push_all (empty_buffer n) os).dq ≡ last_of n (record_all [] os))
        × (length (push_all (empty_buffer n) os).dq ≤ n)
        × IsSteady (push_all (empty_buffer n) os).dq
  push_all-refines n os p =
      let h = record_all [] os in
      let e = push_all-Represents (empty_buffer n) [] os n p refl (rw (drop-nil (0 - n)) refl) in
      (
        e,
        rw e (omega (arith, length-drop (length h - n) h)),
        rw e (IsSteady-drop (length h - n) h (record_all-IsSteady [] os tt)),
      )
