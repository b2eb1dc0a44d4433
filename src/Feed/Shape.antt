-- ===== src/Feed/Shape.antt =====
-- The shape that parser.py expects of a frame, and that its steps on such values return.
use mathlib.Core.Path.{subst}
use pcr_momentum.Base.{
  ◌≡◌, refl, sym, inl, inr, String, str_eq, eq_iff, Bool, true, false, not, ◌&&◌, ◌||◌, Option,
  none, some, if◌then◌else◌, arith, Bool-cases,
}
use pcr_momentum.Base.Int.{pos}
use pcr_momentum.Float.{Float}
use pcr_momentum.Json.{
  Try, raised, value, ◌>>=◌, Json, null, boolean, num, text, arr, obj, Items, nil, item, Fields,
  end, field, find, get_key, get_object, is_object, truth, or_try, is_infinite, or_null, or_empty,
}

-- A call returns, and its value is as stated.
abbrev pub Returns : {A : Type 0} → (A → Type 0) → Try A → Type 0
Returns P raised = ⊥
Returns P (value a) = P a

pub >>=-Returns :
    {A B : Type 0} (P : A → Type 0) (Q : B → Type 0) (t : Try A) (f : A → Try B)
    → Returns P t
    → ((a : A) → P a → Returns Q (f a))
    → Returns Q (t >>= f)
>>=-Returns P Q raised f r k = absurd r
>>=-Returns P Q (value a) f r k = k a r

pub Returns-mono :
    {A : Type 0} (P Q : A → Type 0) (t : Try A) → Returns P t → ((a : A) → P a → Q a) → Returns Q t
Returns-mono P Q raised r k = absurd r
Returns-mono P Q (value a) r k = k a r

abbrev pub Any : {A : Type 0} → A → Type 0
Any _ = Unit

pub and_parts : (a b c : Bool) → (a && b && c) ≡ true → (a ≡ true) × (b ≡ true) × (c ≡ true)
and_parts a b c h = ground arith

-- The keys under which a payload holds objects.
abbrev pub is_container : String → Bool
is_container k =
    str_eq k "ltpc"
    || str_eq k "fullFeed"
    || str_eq k "ff"
    || str_eq k "marketFF"
    || str_eq k "indexFF"
    || str_eq k "marketLevel"
    || str_eq k "marketOHLC"

abbrev pub is_list : {F : Type 0} → Json F → Bool
is_list (arr _) = true
is_list _ = false

unfoldable pub fits : {F : Type 0} → String → Json F → Bool
fits k v =
    if is_container k then is_object v else if str_eq k "bidAskQuote" then is_list v else true

abbrev pub is_some_infinite : {F : Type 0} ⦃fl : Float F⦄ → Option F → Bool
is_some_infinite none = false
is_some_infinite (some x) = is_infinite x

-- The expected shape: objects and lists where they belong, and no number that is infinite.
unfoldable mutual
  pub is_shaped : {F : Type 0} ⦃fl : Float F⦄ → Json F → Bool
  is_shaped null = true
  is_shaped ⦃fl⦄ (boolean b) = not (is_infinite (fl.of_int (if b then pos 1 else pos 0)))
  is_shaped (num x) = not (is_infinite x)
  is_shaped ⦃fl⦄ (text s) = not (is_some_infinite (fl.parse s))
  is_shaped (arr vs) = are_shaped vs
  is_shaped (obj fs) = have_shape fs

  pub are_shaped : {F : Type 0} ⦃fl : Float F⦄ → Items F → Bool
  are_shaped nil = true
  are_shaped (item v vs) = is_shaped v && are_shaped vs

  pub have_shape : {F : Type 0} ⦃fl : Float F⦄ → Fields F → Bool
  have_shape end = true
  have_shape (field k v fs) = fits k v && is_shaped v && have_shape fs

module _ {F : Type 0} ⦃fl : Float F⦄ where
  abbrev pub IsShaped : Json F → Type 0
  IsShaped v = is_shaped v ≡ true

  abbrev pub IsObject : Json F → Type 0
  IsObject v = (is_object v ≡ true) × (is_shaped v ≡ true)

  abbrev pub IsList : Json F → Type 0
  IsList v = (is_list v ≡ true) × (is_shaped v ≡ true)

  abbrev pub FoundFits : String → Option (Json F) → Type 0
  FoundFits k none = Unit
  FoundFits k (some v) = (fits k v ≡ true) × (is_shaped v ≡ true)

  pub find-Fits : (k : String) (fs : Fields F) → have_shape fs ≡ true → FoundFits k (find k fs)
  unfolding find have_shape
  find-Fits k end h = tt
  find-Fits k (field j v fs) h = elim (Bool-cases (str_eq j k)) [
    | inl e ↦
        let p = and_parts (fits j v) (is_shaped v) (have_shape fs) h in
        rw e (subst (λ x. fits x v ≡ true) ((eq_iff j k).0 e) p.0, p.1)
    | inr e ↦ rw e (find-Fits k fs (and_parts (fits j v) (is_shaped v) (have_shape fs) h).2)
  ]

  found-Returns : (k : String) (o : Option (Json F)) → FoundFits k o → is_shaped (or_null o) ≡ true
  unfolding is_shaped
  found-Returns k none h = refl
  found-Returns k (some v) h = h.1

  pub get_key-IsShaped : (k : String) (v : Json F) → IsObject v → Returns IsShaped (get_key k v)
  unfolding get_key is_shaped
  get_key-IsShaped k (obj fs) h = found-Returns k (find k fs) (find-Fits k fs h.1)
  get_key-IsShaped k null h = cc
  get_key-IsShaped k (boolean _) h = cc
  get_key-IsShaped k (num _) h = cc
  get_key-IsShaped k (text _) h = cc
  get_key-IsShaped k (arr _) h = cc

  container-IsObject :
      (k : String) (v : Json F) → fits k v ≡ true → is_container k ≡ true → is_object v ≡ true
  unfolding fits
  container-IsObject k v h c = rw (sym h) (rw c refl)

  found-IsObject :
      (k : String) (o : Option (Json F))
      → FoundFits k o
      → is_container k ≡ true
      → IsObject (or_empty o)
  unfolding is_shaped have_shape
  found-IsObject k none h c = (refl, refl)
  found-IsObject k (some v) h c = (container-IsObject k v h.0 c, h.1)

  pub get_object-IsObject :
      (k : String) (v : Json F)
      → is_container k ≡ true
      → IsObject v
      → Returns IsObject (get_object k v)
  unfolding get_object is_shaped
  get_object-IsObject k (obj fs) c h = found-IsObject k (find k fs) (find-Fits k fs h.1) c
  get_object-IsObject k null c h = cc
  get_object-IsObject k (boolean _) c h = cc
  get_object-IsObject k (num _) c h = cc
  get_object-IsObject k (text _) c h = cc
  get_object-IsObject k (arr _) c h = cc

  -- What counts as true under such a key.
  abbrev pub IfTrue : (Json F → Type 0) → Json F → Type 0
  IfTrue P v = truth v ≡ true → P v

  found-IfObject :
      (k : String) (o : Option (Json F))
      → FoundFits k o
      → is_container k ≡ true
      → IfTrue IsObject (or_null o)
  unfolding truth
  found-IfObject k none h c t = cc
  found-IfObject k (some v) h c t = (container-IsObject k v h.0 c, h.1)

  pub get_key-IfObject :
      (k : String) (v : Json F)
      → is_container k ≡ true
      → IsObject v
      → Returns (IfTrue IsObject) (get_key k v)
  unfolding get_key is_shaped
  get_key-IfObject k (obj fs) c h = found-IfObject k (find k fs) (find-Fits k fs h.1) c
  get_key-IfObject k null c h = cc
  get_key-IfObject k (boolean _) c h = cc
  get_key-IfObject k (num _) c h = cc
  get_key-IfObject k (text _) c h = cc
  get_key-IfObject k (arr _) c h = cc

  found-IfList : (o : Option (Json F)) → FoundFits "bidAskQuote" o → IfTrue IsList (or_null o)
  unfolding truth fits
  found-IfList none h t = cc
  found-IfList (some v) h t = h

  pub get_key-IfList : (v : Json F) → IsObject v → Returns (IfTrue IsList) (get_key "bidAskQuote" v)
  unfolding get_key is_shaped
  get_key-IfList (obj fs) h = found-IfList (find "bidAskQuote" fs) (find-Fits "bidAskQuote" fs h.1)
  get_key-IfList null h = cc
  get_key-IfList (boolean _) h = cc
  get_key-IfList (num _) h = cc
  get_key-IfList (text _) h = cc
  get_key-IfList (arr _) h = cc

  -- `first or rest`
  pub or_that-Returns :
      (P : Json F → Type 0) (first rest : Try (Json F))
      → Returns (IfTrue P) first
      → Returns P rest
      → Returns P (first >>= λ v. or_try v rest)
  or_that-Returns P raised rest f r = f
  or_that-Returns P (value v) rest f r = elim (Bool-cases (truth v)) [
    | inl e ↦ rw e (f e)
    | inr e ↦ rw e r
  ]

  pub either-Returns :
      (first rest : Try (Json F))
      → Returns IsShaped first
      → Returns IsShaped rest
      → Returns IsShaped (first >>= λ v. or_try v rest)
  either-Returns raised rest f r = f
  either-Returns (value v) rest f r = or_that-Returns IsShaped (value v) rest (λ _. f) r
