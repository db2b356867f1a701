-- ===== src/Double/Integers.antt =====
-- Integers in place of `double`, for the tests: a quotient is its dividend, and the functions of
-- <math.h> are the identity.
use robot_arm_2d.Double.{Double}
use robot_arm_2d.Prelude.{◌+◌, ◌*◌, false, not, none, if◌then◌else◌}
use robot_arm_2d.Prelude.Int.{ℤ, pos, pos_part, neg_part, sub_ℕ, ◌+ℤ◌, ◌-ℤ◌, negate, ltb_ℤ}
use robot_arm_2d.Text.Decimal.{atoi}

instance abbrev pub integers : Double ℤ
integers = record {
  lit = λ m k. pos m;
  add = λ x y. x +ℤ y;
  sub = λ x y. x -ℤ y;
  mul = λ x y.
      sub_ℕ (pos_part x * pos_part y + neg_part x * neg_part y)
        (pos_part x * neg_part y + neg_part x * pos_part y);
  div = λ x y. x;
  neg = negate;
  lt = ltb_ℤ;
  le = λ x y. not (ltb_ℤ y x);
  eq = λ x y. if ltb_ℤ x y then false else not (ltb_ℤ y x);
  sqrt = λ x. x;
  cos = λ x. x;
  sin = λ x. x;
  acos = λ x. x;
  floor = λ x. x;
  to_int = λ x. x;
  of_int = λ x. x;
  atof = atoi;
  scan_float = λ s. none;
}
