-- ===== src/Double.antt =====
-- The program's `double`, with the operations of <math.h> and `atof`, as a parameter: the checker has
-- no floating point numbers. Where a theorem needs a law it is a hypothesis of that theorem.
pub mod Naturals
pub mod Integers
use robot_arm_2d.Prelude.{ℕ, ◌≡◌, Bool, true, false, Option, Bytes}
use robot_arm_2d.Prelude.Int.{ℤ}

pub record Double {ℓ} (D : Type ℓ) : Type ℓ where
  -- `lit m k` is the constant m / 10^k.
  pub lit : ℕ → ℕ → D
  pub add : D → D → D
  pub sub : D → D → D
  pub mul : D → D → D
  pub div : D → D → D
  pub neg : D → D
  pub lt : D → D → Bool
  pub le : D → D → Bool
  pub eq : D → D → Bool
  pub sqrt : D → D
  pub cos : D → D
  pub sin : D → D
  pub acos : D → D
  pub floor : D → D
  -- The conversion `(int)d`, and the one from `int`.
  pub to_int : D → ℤ
  pub of_int : ℤ → D
  pub atof : Bytes → D
  -- What `%f` of `sscanf` reads, and the text behind it; `none` if no number stands there.
  pub scan_float : Bytes → Option (D × Bytes)

-- `<` is a strict order, as IEEE 754 has it (NaN is below nothing, and nothing is below it).
pub record IsStrict {ℓ} (D : Type ℓ) ⦃d : Double D⦄ : Type ℓ where
  pub lt_irrefl : (x : D) → d.lt x x ≡ false
  pub lt_trans : (x y z : D) → d.lt x y ≡ true → d.lt y z ≡ true → d.lt x z ≡ true
