-- ===== src/Text/Hex.antt =====
-- release/common/static_utils.h: hex_to_i, c_hex_conv, c_to_hex, hex_representation and
-- from_hex_representation.
pub mod Laws
use robot_arm_2d.Prelude.{
  ℕ, zero, suc, ◌+◌, ◌-◌, ◌*◌, ◌/◌, ◌%◌, ◌||◌, List, [], ◌∷◌, Option, none, some, ◌>>=◌, Bytes, ltb,
  leb, ◌&&◌, ◌==◌, if◌then◌else◌,
}

-- The value of a digit; any other character counts 0.
unfoldable pub hex_to_i : ℕ → ℕ
hex_to_i c =
    if c == b'0'
    then 0
    else if c == b' '
    then 0
    else if c == b'1'
    then 1
    else if c == b'2'
    then 2
    else if c == b'3'
    then 3
    else if c == b'4'
    then 4
    else if c == b'5'
    then 5
    else if c == b'6'
    then 6
    else if c == b'7'
    then 7
    else if c == b'8'
    then 8
    else if c == b'9'
    then 9
    else if (c == b'a') || (c == b'A')
    then 10
    else if (c == b'b') || (c == b'B')
    then 11
    else if (c == b'c') || (c == b'C')
    then 12
    else if (c == b'd') || (c == b'D')
    then 13
    else if (c == b'e') || (c == b'E')
    then 14
    else if (c == b'f') || (c == b'F')
    then 15
    else 0

-- For a number below 16.
unfoldable pub c_hex_conv : ℕ → ℕ
c_hex_conv i = if ltb i 10 then b'0' + i else b'a' + (i - 10)

-- `(c >> 4) & 0x0F` and `c & 0x0F` of a byte, in this order.
unfoldable pub c_to_hex : ℕ → ℕ × ℕ
unfolding c_hex_conv
c_to_hex c = (c_hex_conv (c / 16 % 16), c_hex_conv (c % 16))

unfoldable pub hex_representation : List ℕ → Bytes
unfolding c_to_hex
hex_representation [] = []
hex_representation (i ∷ p) = let pair = c_to_hex i in pair.0 ∷ pair.1 ∷ hex_representation p

-- `while ( tmp < end ) { … }` for the bytes that are left; `i |= …` adds to a number whose low bits
-- are 0. `none` stands for a read behind the end of the text.
unfoldable pub from_hex_loop : ℕ → Bytes → Option (List ℕ)
unfolding hex_to_i
from_hex_loop zero str = some []
from_hex_loop (suc left) [] = none
from_hex_loop (suc left) (a ∷ []) = none
from_hex_loop (suc left) (a ∷ b ∷ str) =
    from_hex_loop left str >>= λ bytes. some ((hex_to_i a * 16 % 256 + hex_to_i b % 16) ∷ bytes)

unfoldable pub from_hex_representation : Bytes → ℕ → Option (List ℕ)
unfolding from_hex_loop
from_hex_representation str slen = from_hex_loop (slen / 2) str
