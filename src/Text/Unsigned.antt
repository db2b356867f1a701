-- ===== src/Text/Unsigned.antt =====
-- The conversion of an `int` to `unsigned int`, of 32 bits.
use robot_arm_2d.Prelude.{ℕ, ◌-◌, ◌%◌, ◌^◌}
use robot_arm_2d.Prelude.Int.{ℤ, pos, negsuc}

abbrev pub to_unsigned : ℤ → ℕ
to_unsigned (pos n) = n % 2 ^ 32
to_unsigned (negsuc n) = 2 ^ 32 - 1 - n % 2 ^ 32
