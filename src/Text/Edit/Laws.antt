-- ===== src/Text/Edit/Laws.antt =====
-- release/common/static_utils.h: unquote and replace_between, laws.
use robot_arm_2d.Prelude.{
  ℕ, zero, suc, ◌*◌, ◌≡◌, refl, sym, ap, ◌∙◌, inl, inr, [], ◌∷◌, ◌++◌, append_assoc, append-nil,
  none, some, arith, Bytes, codes, Lacks, length, ltb, ◌==◌, if◌then◌else◌, Bool-cases,
}
use robot_arm_2d.Text.Edit.{
  remove_character, unquote, replacers, replace_between, dir_depth_string, uri_depth_string,
}

-- How often the character stands in the text.
abbrev pub count : ℕ → Bytes → ℕ
count c [] = 0
count c (x ∷ s) = if x == c then suc (count c s) else count c s

-- The text `n` times.
abbrev pub times : ℕ → Bytes → Bytes
times zero s = []
times (suc n) s = s ++ times n s

remove_character-append :
    (a b : Bytes) (sc : ℕ)
    → remove_character (a ++ b) sc ≡ remove_character a sc ++ remove_character b sc
unfolding remove_character
remove_character-append [] b sc = refl
remove_character-append (c ∷ a) b sc = ground (arith, remove_character-append a b sc)

remove_character-Lacks : (s : Bytes) (sc : ℕ) → Lacks sc s → remove_character s sc ≡ s
unfolding remove_character
remove_character-Lacks [] sc h = refl
remove_character-Lacks (c ∷ s) sc (k, h) = ground (arith, remove_character-Lacks s sc h)

pub remove_character-gone : (s : Bytes) (sc : ℕ) → Lacks sc (remove_character s sc)
unfolding remove_character
remove_character-gone [] sc = tt
remove_character-gone (c ∷ s) sc = elim (Bool-cases (c == sc)) [
  | inl e ↦ rw e (remove_character-gone s sc)
  | inr e ↦ rw e ((λ k. ground arith), remove_character-gone s sc)
]

-- `unquote` leaves no quotation mark in a text; the quoted form of a text gives what the text itself
-- gives, and what it gives is left as it is by a second `unquote`.
pub unquote-quoted :
    (s : Bytes)
    → Lacks b'"' (unquote s)
      × (unquote (codes "\"" ++ (s ++ codes "\"")) ≡ unquote s)
      × (unquote (unquote s) ≡ unquote s)
unfolding unquote
unquote-quoted s = (
  remove_character-gone s b'"',
  remove_character-append s (codes "\"") b'"'
      ∙ unfold remove_character in append-nil (remove_character s b'"'),
  remove_character-Lacks (remove_character s b'"') b'"' (remove_character-gone s b'"'),
)

length-times : (n : ℕ) → length (times n (codes "../")) ≡ 3 * n
length-times zero = omega arith
length-times (suc n) = omega (arith, length-times n)

replacers-times :
    (c : ℕ) (replacer target buffer : Bytes)
    → replacers c replacer target buffer ≡ buffer ++ times (count c target) replacer
unfolding replacers
replacers-times c replacer [] buffer = sym (append-nil buffer)
replacers-times c replacer (x ∷ target) buffer = elim (Bool-cases (x == c)) [
  | inl e ↦ rw e (
      replacers-times c replacer target (buffer ++ replacer)
      ∙ append_assoc buffer replacer (times (count c target) replacer))
  | inr e ↦ rw e (replacers-times c replacer target buffer)
]

fits :
    (c : ℕ) (target : Bytes)
    → replace_between c (codes "../") target
      ≡ (if ltb (count c target) 86 then some (times (count c target) (codes "../")) else none)
unfolding replace_between
fits c target =
    rw (replacers-times c (codes "../") target [])
      (ap (λ b. if b then some (times (count c target) (codes "../")) else none) same)
  where
    same : ltb (length (times (count c target) (codes "../"))) 256 ≡ ltb (count c target) 86
    same = ground (arith, length-times (count c target))

-- `dir_depth_string` gives `../` once for each backslash of a text, and `uri_depth_string` once for
-- each slash, if there are at most 85 of them; with more the buffer is written over its end.
pub depth_string_fits :
    (s : Bytes)
    → (dir_depth_string s
        ≡ (if ltb (count b'\\' s) 86 then some (times (count b'\\' s) (codes "../")) else none))
      × (uri_depth_string s
          ≡ (if ltb (count b'/' s) 86 then some (times (count b'/' s) (codes "../")) else none))
unfolding dir_depth_string uri_depth_string
depth_string_fits s = (fits b'\\' s, fits b'/' s)
