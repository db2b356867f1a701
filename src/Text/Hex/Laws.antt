-- ===== src/Text/Hex/Laws.antt =====
-- release/common/static_utils.h: hex_representation and from_hex_representation, laws.
use robot_arm_2d.Prelude.{
  ℕ, ◌*◌, ◌/◌, ◌%◌, ◌<◌, ◌≡◌, refl, ap, ◌∙◌, List, [], ◌∷◌, some, arith, All, length,
}
use robot_arm_2d.Text.Hex.{
  hex_to_i, c_hex_conv, c_to_hex, hex_representation, from_hex_loop, from_hex_representation,
}

digit_back : (i : ℕ) → i < 16 → hex_to_i (c_hex_conv i) ≡ i
unfolding hex_to_i c_hex_conv
digit_back i h = ground arith

length-hex_representation : (p : List ℕ) → length (hex_representation p) ≡ 2 * length p
unfolding hex_representation
length-hex_representation [] = refl
length-hex_representation (i ∷ p) = omega (arith, length-hex_representation p)

from_hex-loop :
    (p : List ℕ) → All (λ i. i < 256) p → from_hex_loop (length p) (hex_representation p) ≡ some p
unfolding from_hex_loop hex_representation c_to_hex
from_hex-loop [] h = refl
from_hex-loop (i ∷ p) (b, h) = rw (from_hex-loop p h) (
    rw (digit_back (i / 16 % 16) (omega arith), digit_back (i % 16) (omega arith))
      (ap (λ j. some (j ∷ p)) (omega arith)))

-- Bytes that are written as hexadecimal digits, two for each, are read back the same from all of the
-- digits.
pub from_hex-representation :
    (p : List ℕ)
    → All (λ i. i < 256) p
    → from_hex_representation (hex_representation p) (length (hex_representation p)) ≡ some p
unfolding from_hex_representation
from_hex-representation p h =
    ap (λ n. from_hex_loop n (hex_representation p)) (omega (arith, length-hex_representation p))
    ∙ from_hex-loop p h
