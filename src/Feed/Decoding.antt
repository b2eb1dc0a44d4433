-- ===== src/Feed/Decoding.antt =====
-- parser.py decodes every frame of the expected shape: nothing raises, no payload is lost, and each
-- tick has five levels.
use pcr_momentum.Base.{
  ℕ, zero, suc, ◌-◌, ◌≡◌, refl, ap, inl, inr, String, str_eq, Bool, true, not, ◌&&◌, Option, none,
  some, List, [], ◌∷◌, take, length, length-append, length-take, arith, Bool-cases,
}
use pcr_momentum.Float.{Float}
use pcr_momentum.Json.{
  Try, raised, value, ◌>>=◌, Json, null, boolean, num, text, arr, obj, Items, nil, item, Fields,
  get_key, get_object, elements, to_float,
}
use pcr_momentum.Feed.Shape.{
  is_container, Returns, >>=-Returns, Any, is_shaped, have_shape, are_shaped, IsShaped, IsObject,
  IsList, IfTrue, get_key-IsShaped, get_object-IsObject, get_key-IfObject, get_key-IfList,
  or_that-Returns, either-Returns, is_some_infinite,
}
use pcr_momentum.Feed.{
  int_of, level, nones, pad, read_int, extract_levels, read_ltpc, read_market_ff, read_quotes,
  read_either,
}

pub and_true : (a b : Bool) → (a && b) ≡ true → (a ≡ true) × (b ≡ true)
and_true a b h = ground arith

length-nones : (A : Type 0) (n : ℕ) → length (nones {A = A} n) ≡ n
length-nones A zero = refl
length-nones A (suc n) = ap suc (length-nones A n)

pub length-pad : {A : Type 0} (seq : List (Option A)) (n : ℕ) → length (pad seq n) ≡ n
unfolding pad
length-pad {A} seq n = omega (
  arith,
  length-append (take n seq) (nones (n - length (take n seq))),
  length-take n seq,
  length-nones A (n - length (take n seq)),
)

module _ {F : Type 0} ⦃fl : Float F⦄ where
  int_of-Any : (o : Option F) → not (is_some_infinite o) ≡ true → Returns Any (int_of o)
  int_of-Any none h = tt
  int_of-Any (some x) h = ground arith

  pub read_int-Any : (v : Json F) → IsShaped v → Returns Any (read_int v)
  unfolding read_int is_shaped to_float
  read_int-Any null h = tt
  read_int-Any (boolean b) h = ground arith
  read_int-Any (num x) h = ground arith
  read_int-Any (text s) h = elim (Bool-cases (str_eq s "")) [
    | inl e ↦ rw e tt
    | inr e ↦ rw e (int_of-Any (fl.parse s) h)
  ]
  read_int-Any (arr _) h = tt
  read_int-Any (obj _) h = tt

  inner-IfObject :
      (a b : String) (v : Json F)
      → is_container a ≡ true
      → is_container b ≡ true
      → IsObject v
      → Returns
          (IfTrue IsObject)
          (do outer ← get_object a v; feed ← get_object b outer; get_key "ltpc" feed)
  inner-IfObject a b v ca cb h =
      >>=-Returns IsObject (IfTrue IsObject) (get_object a v) _ (get_object-IsObject a v ca h)
        λ outer o.
          >>=-Returns IsObject (IfTrue IsObject) (get_object b outer) _
            (get_object-IsObject b outer cb o) λ feed. get_key-IfObject "ltpc" feed refl

  pub read_ltpc-IsObject : (v : Json F) → IsObject v → Returns IsObject (read_ltpc v)
  unfolding read_ltpc is_shaped have_shape
  read_ltpc-IsObject v h = or_that-Returns IsObject _ _ (get_key-IfObject "ltpc" v refl h) (
      or_that-Returns IsObject _ _ (inner-IfObject "fullFeed" "marketFF" v refl refl h) (
        or_that-Returns IsObject _ _ (inner-IfObject "ff" "marketFF" v refl refl h) (
          or_that-Returns IsObject _ _ (inner-IfObject "fullFeed" "indexFF" v refl refl h) (
            or_that-Returns IsObject _ _ (inner-IfObject "ff" "indexFF" v refl refl h)
              (refl, refl)))))

  market-IfObject :
      (a : String) (v : Json F)
      → is_container a ≡ true
      → IsObject v
      → Returns (IfTrue IsObject) (do outer ← get_object a v; get_key "marketFF" outer)
  market-IfObject a v c h =
      >>=-Returns IsObject (IfTrue IsObject) (get_object a v) _ (get_object-IsObject a v c h)
        λ outer. get_key-IfObject "marketFF" outer refl

  pub read_market_ff-IsObject : (v : Json F) → IsObject v → Returns IsObject (read_market_ff v)
  unfolding read_market_ff is_shaped have_shape
  read_market_ff-IsObject v h = or_that-Returns IsObject _ _ (market-IfObject "fullFeed" v refl h) (
      or_that-Returns IsObject _ _ (market-IfObject "ff" v refl h)
        (or_that-Returns IsObject _ _ (get_key-IfObject "marketFF" v refl h) (refl, refl)))

  pub read_quotes-IsList :
      (m v : Json F) → IsObject m → IsObject v → Returns IsList (read_quotes m v)
  unfolding read_quotes is_shaped have_shape are_shaped
  read_quotes-IsList m v hm h =
      >>=-Returns IsObject IsList _ _
        (or_that-Returns IsObject _ _ (get_key-IfObject "marketLevel" m refl hm)
          (or_that-Returns IsObject _ _ (get_key-IfObject "marketLevel" v refl h) (refl, refl)))
        λ level l. or_that-Returns IsList _ _ (get_key-IfList level l) (refl, refl)

  pub read_either-Any :
      (k : String) (m v : Json F) → IsObject m → IsObject v → Returns Any (read_either k m v)
  unfolding read_either
  read_either-Any k m v hm h =
      >>=-Returns IsShaped Any _ read_int
        (either-Returns (get_key k m) (get_key k v) (get_key-IsShaped k m hm)
          (get_key-IsShaped k v h))
        read_int-Any

  pub weaken : (t : Try (Json F)) → Returns IsShaped t → Returns Any t
  weaken raised r = r
  weaken (value _) r = tt

  below-Any :
      (quotes : List (Json F))
      → Returns Any (extract_levels quotes)
      → Returns Any (do below ← extract_levels quotes; value (level none none none none below))
  below-Any quotes r = >>=-Returns Any Any (extract_levels quotes) _ r (λ _ _. tt)

  abbrev pub AllShaped : List (Json F) → Type 0
  AllShaped [] = Unit
  AllShaped (v ∷ vs) = (is_shaped v ≡ true) × AllShaped vs

  pub take-AllShaped :
      (n : ℕ) (vs : Items F) → are_shaped vs ≡ true → AllShaped (take n (elements vs))
  unfolding are_shaped
  take-AllShaped zero vs h = tt
  take-AllShaped (suc n) nil h = tt
  take-AllShaped (suc n) (item v vs) h =
      let p = and_true (is_shaped v) (are_shaped vs) h in (p.0, take-AllShaped n vs p.1)

  obj-IsObject : (fs : Fields F) → is_shaped (obj fs) ≡ true → IsObject (obj fs)
  obj-IsObject fs h = (refl, h)

  pub extract_levels-Any :
      (quotes : List (Json F)) → AllShaped quotes → Returns Any (extract_levels quotes)
  unfolding extract_levels
  extract_levels-Any [] h = tt
  extract_levels-Any (obj fs ∷ quotes) h =
      let o : IsObject (obj fs) = (refl, h.0) in
      let key = λ (k : String). get_key-IsShaped k (obj fs) o in
      >>=-Returns IsShaped Any _ _ (key "bidP") λ bid_p hb.
        >>=-Returns Any Any _ _ (weaken _ (either-Returns (value bid_p) _ hb (key "bidQuote")))
          λ bid _. >>=-Returns IsShaped Any _ _ (key "askP") λ ask_p ha.
            >>=-Returns Any Any _ _ (weaken _ (either-Returns (value ask_p) _ ha (key "askQuote")))
              λ ask _. >>=-Returns IsShaped Any _ _ (key "bidQ") λ bid_q hbq.
                >>=-Returns Any Any _ _ (read_int-Any bid_q hbq) λ bid_qty _.
                  >>=-Returns IsShaped Any _ _ (key "askQ") λ ask_q haq.
                    >>=-Returns Any Any _ _ (read_int-Any ask_q haq) λ ask_qty _.
                      >>=-Returns Any Any _ _ (extract_levels-Any quotes h.1) λ below _. tt
  extract_levels-Any (null ∷ quotes) h = below-Any quotes (extract_levels-Any quotes h.1)
  extract_levels-Any (boolean _ ∷ quotes) h = below-Any quotes (extract_levels-Any quotes h.1)
  extract_levels-Any (num _ ∷ quotes) h = below-Any quotes (extract_levels-Any quotes h.1)
  extract_levels-Any (text _ ∷ quotes) h = below-Any quotes (extract_levels-Any quotes h.1)
  extract_levels-Any (arr _ ∷ quotes) h = below-Any quotes (extract_levels-Any quotes h.1)
