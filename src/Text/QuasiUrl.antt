-- ===== src/Text/QuasiUrl.antt =====
-- release/build/test_control.h: quasi_url_encode and quasi_url_decode.
pub mod Laws
use robot_arm_2d.Prelude.{
  ℕ, Bool, true, false, List, [], ◌∷◌, ◌++◌, Option, none, some, ◌>>=◌, Bytes, codes, length, leb,
  ◌==◌, if◌then◌else◌, equal,
}

-- The size of `buffer`.
abbrev pub url_buffer_size : ℕ
url_buffer_size = 2048

-- What the loop of `quasi_url_encode` leaves in the buffer: behind an entity of five characters `dst`
-- moves on by six, so that a NUL stays there.
unfoldable pub encode_bytes : Bytes → Bytes
encode_bytes [] = []
encode_bytes (c ∷ str) =
    let rest = encode_bytes str in
    if c == b'&'
    then codes "&038;" ++ 0 ∷ rest
    else if c == b'+'
    then codes "&043;" ++ 0 ∷ rest
    else if c == b' '
    then b'+' ∷ rest
    else c ∷ rest

-- `strcpy` ends at the first NUL.
unfoldable pub up_to_nul : Bytes → Bytes
up_to_nul [] = []
up_to_nul (c ∷ str) = let rest = up_to_nul str in if c == 0 then [] else c ∷ rest

-- `none` where the buffer is too small.
unfoldable pub quasi_url_encode : Bytes → Option Bytes
unfolding encode_bytes up_to_nul
quasi_url_encode str =
    let buffer = encode_bytes str in
    if leb url_buffer_size (length buffer) then none else some (up_to_nul buffer)

-- The character of an entity. For an unknown one `dst` does not move on, and the `?` is written over.
abbrev pub entity : Bytes → Bytes
entity name =
    if equal name (codes "038")
    then b'&' ∷ []
    else if equal name (codes "043")
    then b'+' ∷ []
    else []

mutual
  -- The loop of `quasi_url_decode`.
  pub decode_bytes : Bytes → Option Bytes
  decode_bytes [] = some []
  decode_bytes (c ∷ str) = elim (c == b'&') [
    | true ↦ decode_entity str
    | false ↦ decode_bytes str >>= λ rest. some ((if c == b'+' then b' ' else c) ∷ rest)
  ]

  -- Behind `&`: four characters are skipped. `none` means that the text ends before.
  decode_entity : Bytes → Option Bytes
  decode_entity (a ∷ b ∷ c ∷ e ∷ str) =
      decode_bytes str >>= λ rest. some (entity (a ∷ b ∷ c ∷ []) ++ rest)
  decode_entity [] = none
  decode_entity (a ∷ []) = none
  decode_entity (a ∷ b ∷ []) = none
  decode_entity (a ∷ b ∷ c ∷ []) = none

-- `none` where the text ends behind `&` or the buffer is too small for the decoded text.
unfoldable pub quasi_url_decode : Bytes → Option Bytes
quasi_url_decode str =
    decode_bytes str >>= λ text. if leb url_buffer_size (length text) then none else some text
