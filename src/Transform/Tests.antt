-- ===== src/Transform/Tests.antt =====
-- A product of matrices over the integers.
use robot_arm_2d.Double.Integers.{integers}
use robot_arm_2d.Prelude.{◌≡◌, refl}
use robot_arm_2d.Prelude.Int.{ℤ, pos}
use robot_arm_2d.Transform.{Matrix2D, times, rotate_90_cck, rotate_180_cck, rotate_270_cck}

abbrev shear : Matrix2D ℤ
shear = record { a11 = pos 1; a12 = pos 2; a21 = pos 3; a22 = pos 4 }

abbrev unit : Matrix2D ℤ
unit = record { a11 = pos 1; a12 = pos 0; a21 = pos 0; a22 = pos 1 }

-- By the unit matrix the entry 3 becomes 2.
product_with_unit : (times shear unit).a21 ≡ pos 2
unfolding times robot_arm_2d.Transform.matrix_transform
product_with_unit = refl
