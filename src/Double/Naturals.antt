-- ===== src/Double/Naturals.antt =====
-- Natural numbers in place of `double`, for the tests: the operations that leave them are cut off.
use robot_arm_2d.Double.{Double, IsStrict}
use robot_arm_2d.Prelude.{ℕ, ◌+◌, ◌-◌, ◌*◌, ◌/◌, ◌^◌, ◌≡◌, true, false, none, arith, ltb, leb, ◌==◌}
use robot_arm_2d.Prelude.Int.{pos, pos_part}
use robot_arm_2d.Text.Decimal.{atoi}

instance abbrev pub naturals : Double ℕ
naturals = record {
  lit = λ m k. m / 10 ^ k;
  add = λ x y. x + y;
  sub = λ x y. x - y;
  mul = λ x y. x * y;
  div = λ x y. x / y;
  neg = λ x. 0;
  lt = ltb;
  le = leb;
  eq = λ x y. x == y;
  sqrt = λ x. x;
  cos = λ x. x;
  sin = λ x. x;
  acos = λ x. x;
  floor = λ x. x;
  to_int = pos;
  of_int = pos_part;
  atof = λ s. pos_part (atoi s);
  scan_float = λ s. none;
}

ltb_irrefl : (x : ℕ) → ltb x x ≡ false
ltb_irrefl x = ground arith

ltb_trans : (x y z : ℕ) → ltb x y ≡ true → ltb y z ≡ true → ltb x z ≡ true
ltb_trans x y z h k = ground arith

instance pub naturals-IsStrict : IsStrict ℕ
naturals-IsStrict = record { lt_irrefl = ltb_irrefl; lt_trans = ltb_trans }
