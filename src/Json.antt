-- ===== src/Json.antt =====
-- What `orjson.loads` and the broker's decoder hand over: JSON values as Python holds them, with
-- `dict.get`, `or`, truth values and the conversions, and calls that may raise.
use pcr_momentum.Base.{
  String, str_eq, Bool, true, false, not, ◌&&◌, ◌||◌, Option, none, some, List, [], ◌∷◌, truthy,
  if◌then◌else◌,
}
use pcr_momentum.Base.Int.{pos}
use pcr_momentum.Float.{Float, ◌≤f◌, nought}

-- A call that returns or raises.
pub data Try {ℓ} (A : Type ℓ) : Type ℓ where
  raised : Try A
  value : A → Try A

infixl 5 ◌>>=◌
abbrev pub ◌>>=◌ {ℓ κ} : {A : Type ℓ} {B : Type κ} → Try A → (A → Try B) → Try B
raised >>= f = raised
value a >>= f = f a

mutual
  pub data Json (F : Type 0) : Type 0 where
    null : Json F
    boolean : Bool → Json F
    num : F → Json F
    text : String → Json F
    arr : Items F → Json F
    obj : Fields F → Json F

  pub data Items (F : Type 0) : Type 0 where
    nil : Items F
    item : Json F → Items F → Items F

  pub data Fields (F : Type 0) : Type 0 where
    end : Fields F
    field : String → Json F → Fields F → Fields F

module _ {F : Type 0} where
  -- `fields.get(k)`
  unfoldable pub find : String → Fields F → Option (Json F)
  find k end = none
  find k (field j v fs) = if str_eq j k then some v else find k fs

  abbrev pub or_null : Option (Json F) → Json F
  or_null none = null
  or_null (some v) = v

  -- `v.get(k)`: only an object has keys.
  unfoldable pub get_key : String → Json F → Try (Json F)
  get_key k (obj fs) = value (or_null (find k fs))
  get_key k _ = raised

  abbrev pub or_empty : Option (Json F) → Json F
  or_empty none = obj end
  or_empty (some v) = v

  -- `v.get(k, {})`
  unfoldable pub get_object : String → Json F → Try (Json F)
  get_object k (obj fs) = value (or_empty (find k fs))
  get_object k _ = raised

  abbrev pub is_object : Json F → Bool
  is_object (obj _) = true
  is_object _ = false

  abbrev pub elements : Items F → List (Json F)
  elements nil = []
  elements (item v vs) = v ∷ elements vs

  abbrev pub entries : Fields F → List (String × Json F)
  entries end = []
  entries (field k v fs) = (k, v) ∷ entries fs

module _ {F : Type 0} ⦃fl : Float F⦄ where
  abbrev pub is_nought : F → Bool
  is_nought x = x ≤f nought && nought ≤f x

  -- `bool(v)`
  unfoldable pub truth : Json F → Bool
  truth null = false
  truth (boolean b) = b
  truth (num x) = not (is_nought x)
  truth (text s) = truthy s
  truth (arr nil) = false
  truth (arr (item _ _)) = true
  truth (obj end) = false
  truth (obj (field _ _ _)) = true

  -- `v or rest`: the rest is evaluated only if `v` counts as false.
  abbrev pub or_try : Json F → Try (Json F) → Try (Json F)
  or_try v rest = if truth v then value v else rest

  -- `float(v)`; none where it raises TypeError or ValueError.
  unfoldable pub to_float : Json F → Option F
  to_float (boolean b) = some (fl.of_int (if b then pos 1 else pos 0))
  to_float (num x) = some x
  to_float (text s) = fl.parse s
  to_float _ = none

  -- `x == float(s)` for one of the infinities.
  abbrev same_float : F → Option F → Bool
  same_float x none = false
  same_float x (some y) = x ≤f y && y ≤f x

  abbrev pub is_infinite : F → Bool
  is_infinite x = same_float x (fl.parse "inf") || same_float x (fl.parse "-inf")
