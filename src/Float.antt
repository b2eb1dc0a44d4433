-- ===== src/Float.antt =====
-- What the program uses of Python's `float`. The operations are a parameter, so that the models
-- commit to no rounding; `IsOrdered` states the order of IEEE 754 doubles, not-a-number included.
pub mod Fixed
use pcr_momentum.Base.{ℕ, String, ◌≡◌, ◌⊎◌, Bool, true, false, Option, if◌then◌else◌}
use pcr_momentum.Base.Int.{ℤ}

pub record Float (F : Type 0) : Type 0 where
  -- The literal n / 10^d: `dec 85 2` is 0.85.
  pub dec : ℕ → ℕ → F
  pub of_int : ℤ → F
  pub add : F → F → F
  pub sub : F → F → F
  pub mul : F → F → F
  -- The divisor is not zero where the program divides.
  pub div : F → F → F
  pub neg : F → F
  pub lt : F → F → Bool
  pub le : F → F → Bool
  -- `round(x, n)`, and `int(round(x))`.
  pub round_to : ℕ → F → F
  pub round_int : F → ℤ
  -- `int(x)`: `none` where it raises ValueError, at not-a-number; an infinity raises OverflowError,
  -- which the caller has to see to.
  pub trunc : F → Option ℤ
  -- `float(s)` of a text: `none` where it raises ValueError.
  pub parse : String → Option F

module _ {F : Type 0} ⦃fl : Float F⦄ where
  infix 50 ◌<f◌ ◌≤f◌ ◌>f◌ ◌≥f◌
  infixl 65 ◌+f◌ ◌-f◌
  infixl 70 ◌*f◌ ◌/f◌
  abbrev pub ◌<f◌ : F → F → Bool
  x <f y = fl.lt x y

  abbrev pub ◌≤f◌ : F → F → Bool
  x ≤f y = fl.le x y

  abbrev pub ◌>f◌ : F → F → Bool
  x >f y = fl.lt y x

  abbrev pub ◌≥f◌ : F → F → Bool
  x ≥f y = fl.le y x

  abbrev pub ◌+f◌ : F → F → F
  x +f y = fl.add x y

  abbrev pub ◌-f◌ : F → F → F
  x -f y = fl.sub x y

  abbrev pub ◌*f◌ : F → F → F
  x *f y = fl.mul x y

  abbrev pub ◌/f◌ : F → F → F
  x /f y = fl.div x y

  abbrev pub nought : F
  nought = fl.dec 0 0

  -- `max(x, y)` and `min(x, y)` keep the first unless the second is strictly beyond it.
  abbrev pub max_f : F → F → F
  max_f x y = if x <f y then y else x

  abbrev pub min_f : F → F → F
  min_f x y = if y <f x then y else x

-- Not-a-number is the value that is not `<=` itself.
pub record IsOrdered (F : Type 0) ⦃fl : Float F⦄ : Type 0 where
  pub num_of_le : (x y : F) → fl.le x y ≡ true → (fl.le x x ≡ true) × (fl.le y y ≡ true)
  pub le_of_lt : (x y : F) → fl.lt x y ≡ true → fl.le x y ≡ true
  pub le_trans : (x y z : F) → fl.le x y ≡ true → fl.le y z ≡ true → fl.le x z ≡ true
  pub lt_le_trans : (x y z : F) → fl.lt x y ≡ true → fl.le y z ≡ true → fl.lt x z ≡ true
  pub le_lt_trans : (x y z : F) → fl.le x y ≡ true → fl.lt y z ≡ true → fl.lt x z ≡ true
  pub not_lt_of_le : (x y : F) → fl.le x y ≡ true → fl.lt y x ≡ false
  pub total :
      (x y : F) → fl.le x x ≡ true → fl.le y y ≡ true → (fl.le x y ≡ true) ⊎ (fl.lt y x ≡ true)

-- `x` is a number.
abbrev pub IsNum : {F : Type 0} ⦃fl : Float F⦄ → F → Type 0
IsNum ⦃fl⦄ x = fl.le x x ≡ true
