-- ===== src/Text/QuasiUrl/Laws.antt =====
-- release/build/test_control.h: the two directions of the encoding.
use robot_arm_2d.Prelude.{
  ℕ, ◌<◌, ◌≡◌, refl, ap, ◌∙◌, false, inl, inr, [], ◌∷◌, ◌++◌, some, ◌>>=◌, arith, Bytes, codes,
  Lacks, length, leb, ◌==◌, if◌then◌else◌, Bool-cases,
}
use robot_arm_2d.Text.QuasiUrl.{
  url_buffer_size, encode_bytes, up_to_nul, decode_bytes, quasi_url_decode, quasi_url_encode,
}

-- The encoding that the decoder undoes: entities for `&` and `+`, and `+` for a space.
abbrev pub escape : Bytes → Bytes
escape [] = []
escape (c ∷ str) =
    let rest = escape str in
    if c == b'&'
    then codes "&038;" ++ rest
    else if c == b'+'
    then codes "&043;" ++ rest
    else if c == b' '
    then b'+' ∷ rest
    else c ∷ rest

-- The rounds of the decoder.
decode_bytes_amp :
    (str : Bytes)
    → decode_bytes (codes "&038;" ++ str) ≡ (decode_bytes str >>= λ r. some (b'&' ∷ r))
unfolding decode_bytes
decode_bytes_amp str = refl

decode_bytes_plus :
    (str : Bytes)
    → decode_bytes (codes "&043;" ++ str) ≡ (decode_bytes str >>= λ r. some (b'+' ∷ r))
unfolding decode_bytes
decode_bytes_plus str = refl

decode_bytes_space :
    (str : Bytes) → decode_bytes (b'+' ∷ str) ≡ (decode_bytes str >>= λ r. some (b' ' ∷ r))
unfolding decode_bytes
decode_bytes_space str = refl

decode_bytes_plain :
    (c : ℕ) (str : Bytes)
    → (c == b'&') ≡ false
    → (c == b'+') ≡ false
    → decode_bytes (c ∷ str) ≡ (decode_bytes str >>= λ r. some (c ∷ r))
unfolding decode_bytes
decode_bytes_plain c str e p = rw (e, decode_bytes) (rw p refl)

decode_bytes-escape : (str : Bytes) → decode_bytes (escape str) ≡ some str
decode_bytes-escape [] = unfold decode_bytes in refl
decode_bytes-escape (c ∷ str) = elim (Bool-cases (c == b'&')) [
  | inl e ↦ rw e (decode_bytes_amp (escape str) ∙ rw (decode_bytes-escape str) (ground arith))
  | inr e ↦ rw e (elim (Bool-cases (c == b'+')) [
    | inl p ↦ rw p (decode_bytes_plus (escape str) ∙ rw (decode_bytes-escape str) (ground arith))
    | inr p ↦ rw p (elim (Bool-cases (c == b' ')) [
      | inl s ↦ rw s (decode_bytes_space (escape str) ∙ rw (decode_bytes-escape str) (ground arith))
      | inr s ↦ rw s (decode_bytes_plain c (escape str) e p ∙ rw (decode_bytes-escape str) refl)
    ])
  ])
]

fits : (n : ℕ) → n < url_buffer_size → leb url_buffer_size n ≡ false
fits n h = ground arith

-- A text that is encoded with `&038;` for `&`, `&043;` for `+` and `+` for a space is decoded to
-- itself, if the text fits the buffer.
pub quasi_url_decode-escape :
    (str : Bytes) → length str < url_buffer_size → quasi_url_decode (escape str) ≡ some str
unfolding quasi_url_decode
quasi_url_decode-escape str h = rw (decode_bytes-escape str) (rw (fits (length str) h) refl)

up_to_nul-encode_bytes :
    (a b : Bytes)
    → Lacks b'&' a
    → Lacks b'+' a
    → Lacks 0 a
    → (up_to_nul (encode_bytes a) ≡ escape a)
      × (up_to_nul (encode_bytes (a ++ b'&' ∷ b)) ≡ escape a ++ codes "&038;")
unfolding up_to_nul encode_bytes
up_to_nul-encode_bytes [] b h k z = (refl, refl)
up_to_nul-encode_bytes (c ∷ a) b h k z =
    let (e, f) = up_to_nul-encode_bytes a b h.1 k.1 z.1 in (ground arith, ground arith)

-- Where the buffer of 2048 bytes has room, for a text without `&`, `+` and NUL and for one that
-- goes on behind it with `&`: the first is encoded with `+` for each space and otherwise as it is,
-- and of the second all that stands behind the first `&` is lost, since a NUL stands behind the
-- entity.
pub quasi_url_encode-eq :
    (a b : Bytes)
    → Lacks b'&' a
    → Lacks b'+' a
    → Lacks 0 a
    → length (encode_bytes a) < url_buffer_size
    → length (encode_bytes (a ++ b'&' ∷ b)) < url_buffer_size
    → (quasi_url_encode a ≡ some (escape a))
      × (quasi_url_encode (a ++ b'&' ∷ b) ≡ some (escape a ++ codes "&038;"))
unfolding quasi_url_encode
quasi_url_encode-eq a b h k z l m =
    let (e, f) = up_to_nul-encode_bytes a b h k z in
    (
      rw (fits (length (encode_bytes a)) l) (ap some e),
      rw (fits (length (encode_bytes (a ++ b'&' ∷ b))) m) (ap some f),
    )
