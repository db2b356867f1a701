-- ===== src/Text/Bits.antt =====
-- release/common/static_utils.h: mask.
pub mod Laws
use robot_arm_2d.Prelude.{
  ℕ, zero, suc, ◌+◌, ◌*◌, ◌%◌, ◌^◌, Bool, true, false, ◌||◌, ◌&&◌, [], ◌∷◌, Bytes, take, drop,
  length, ◌==◌, if◌then◌else◌,
}
use robot_arm_2d.Text.Chars.{isspace, isalnum}
use robot_arm_2d.Text.Subst.{starts_with}

-- The values of an `unsigned long int`.
abbrev pub word : ℕ
word = 2 ^ 64

-- The rounds of `while ( i++ < r )`. `out << 1` is even, so that `| 1` adds 1.
unfoldable pub mask_loop : ℕ → ℕ → ℕ
mask_loop zero out = out
mask_loop (suc n) out = mask_loop n ((out * 2) % word + 1)

unfoldable pub mask : ℕ → ℕ
unfolding mask_loop
mask r = mask_loop r 0
