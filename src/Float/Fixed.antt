-- ===== src/Float/Fixed.antt =====
-- The operations and the order can be met: whole thousandths, which tests and examples compute with.
-- Products and quotients are cut towards zero, `round_to` keeps all three places, ties go up.
use Prim.Native.Nat.{◌^◌}
use pcr_momentum.Base.{ℕ, ◌+◌, ◌*◌, ◌/◌, none, some, arith}
use pcr_momentum.Base.Int.{
  ℤ, pos, negsuc, ◌+ℤ◌, ◌-ℤ◌, ◌*ℤ◌, ltb_ℤ, leb_ℤ, sub_ℕ, pos_part, neg_part,
}
use pcr_momentum.Float.{Float, IsOrdered}

abbrev magnitude : ℤ → ℕ
magnitude a = pos_part a + neg_part a

abbrev scaled : ℤ → ℕ → ℤ
scaled (pos _) n = pos n
scaled (negsuc _) n = sub_ℕ 0 n

abbrev pub div_ℤ : ℤ → ℤ → ℤ
div_ℤ a b = scaled (a *ℤ b) (magnitude a / magnitude b)

instance abbrev pub fixed : Float ℤ
fixed = record {
  dec = λ n d. pos (n * 1000 / 10 ^ d);
  of_int = λ a. a *ℤ pos 1000;
  add = λ a b. a +ℤ b;
  sub = λ a b. a -ℤ b;
  mul = λ a b. div_ℤ (a *ℤ b) (pos 1000);
  div = λ a b. div_ℤ (a *ℤ pos 1000) b;
  neg = λ a. pos 0 -ℤ a;
  lt = ltb_ℤ;
  le = leb_ℤ;
  round_to = λ n a. a;
  round_int = λ a. div_ℤ (a +ℤ pos 500) (pos 1000);
  trunc = λ a. some (div_ℤ a (pos 1000));
  parse = λ s. none;
}

pub fixed-IsOrdered : IsOrdered ℤ
fixed-IsOrdered = record {
  num_of_le = λ x y h. ground arith;
  le_of_lt = λ x y h. ground arith;
  le_trans = λ x y z h k. ground arith;
  lt_le_trans = λ x y z h k. ground arith;
  le_lt_trans = λ x y z h k. ground arith;
  not_lt_of_le = λ x y h. ground arith;
  total = λ x y h k. ground arith;
}
