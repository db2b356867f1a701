-- ===== src/Text/Halves.antt =====
-- release/common/static_utils.h: split_string_quotes, split_string_end, front_string, extract_topic and
-- extract_domain.
pub mod Laws
use robot_arm_2d.Prelude.{
  ℕ, zero, suc, [], ◌∷◌, ◌++◌, Option, none, some, ◌>>=◌, Bytes, codes, take, drop, ◌-◌, length,
  ltb, ◌==◌, if◌then◌else◌,
}
use robot_arm_2d.Text.Chars.{isspace}
use robot_arm_2d.Text.Split.{cut_at, split_string}
use robot_arm_2d.Text.Subst.{find_in}
use robot_arm_2d.Text.Words.{cut_last}
use robot_arm_2d.Text.Trim.{skip_white, skip_to_white, to_white, trim}

-- Behind the closing quote the declaration `char c = *end` hides the separator: the rest is split at
-- its own first character, which is NUL where nothing is left.
unfoldable pub split_rest : Bytes → Bytes → Bytes → Bytes × Bytes
unfolding split_string
split_rest front [] accessor = let pair = split_string [] accessor 0 in (front ++ pair.0, pair.1)
split_rest front (c ∷ s) accessor =
    let pair = split_string (c ∷ s) accessor c in (front ++ pair.0, pair.1)

-- A quoted text at the front, if it is closed, belongs to the name.
unfoldable pub split_quoted : Bytes → Bytes → Bytes → ℕ → Bytes × Bytes
unfolding cut_at split_rest split_string
split_quoted text [] accessor c = split_string text accessor c
split_quoted text (q ∷ tmp) accessor c =
    let whole = split_string text accessor c in
    if q == b'"'
    then elim (cut_at b'"' tmp) [
      | none ↦ whole
      | some (inside, behind) ↦ split_rest (b'"' ∷ inside ++ codes "\"") behind accessor
    ]
    else whole

unfoldable pub split_string_quotes : Bytes → Bytes → ℕ → Bytes × Bytes
unfolding split_quoted skip_white
split_string_quotes text accessor c = split_quoted text (skip_white text) accessor c

-- What a round of `do { … } while ( *next )` makes of `next`; `tmp` stays where it is.
unfoldable pub next_white : Bytes → Bytes → Bytes
unfolding skip_white
next_white tmp [] = skip_white tmp
next_white tmp (c ∷ next) = c ∷ next

-- The loop, from the pointer `prev`; `none` means that the fuel ran out.
unfoldable pub last_white : ℕ → Bytes → Bytes → Option Bytes
unfolding next_white skip_to_white
last_white zero tmp prev = none
last_white (suc fuel) tmp prev =
    let mark = elim (skip_to_white tmp) as (λ x. Bytes) [ [] ↦ [] | c ∷ next ↦ prev ] in
    elim (next_white tmp (skip_to_white tmp)) [
      | [] ↦ some mark
      | c ∷ next ↦ last_white fuel tmp mark
    ]

-- The accessor is written only if something stands behind the separator.
unfoldable pub written_or : Bytes → Bytes → Bytes
written_or [] accessor = accessor
written_or (c ∷ next) accessor = c ∷ next

-- `split_string_end`, where the separator is no white space. The place of the last separator is
-- counted in the text as it is, and used in the trimmed one; `none` stands for a place behind its end.
unfoldable pub split_end_char : Bytes → Bytes → ℕ → Option (Bytes × Bytes)
unfolding cut_last written_or
split_end_char text accessor c =
    let tmp = trim text in
    elim (cut_last c text) [
      | none ↦ some (tmp, [])
      | some (front, back) ↦
          if ltb (length front) (length tmp)
          then some (take (length front) tmp, written_or (drop (suc (length front)) tmp) accessor)
          else none
    ]

-- Where the text is empty, `prev` is where it was.
unfoldable pub split_end_white : ℕ → Bytes → Option (Bytes × Bytes)
unfolding last_white
split_end_white fuel tmp = last_white fuel tmp tmp >>= λ prev.
    if length prev == length tmp
    then some (tmp, [])
    else some (take (length tmp - length prev) tmp, skip_white (drop 1 prev))

unfoldable pub split_string_end : ℕ → Bytes → Bytes → ℕ → Option (Bytes × Bytes)
unfolding split_end_char split_end_white
split_string_end fuel text accessor c =
    if isspace c then split_end_white fuel (trim text) else split_end_char text accessor c

unfoldable pub front_string : Bytes → Bytes → Bytes
unfolding find_in
front_string text divider =
    let tmp = trim text in elim (find_in divider tmp) [ none ↦ tmp | some (a, b) ↦ a ]

-- `none` stands for a pointer behind the end of the directory.
unfoldable pub extract_topic : Bytes → Bytes → Option Bytes
extract_topic [] o_dir_stem = none
extract_topic (c ∷ dir) [] = some dir
extract_topic (c ∷ dir) (d ∷ o_dir_stem) =
    let rest = extract_topic dir o_dir_stem in if c == d then rest else some dir

unfoldable pub extract_domain : Bytes → Bytes
unfolding find_in cut_at
extract_domain url_str = elim (find_in (codes "//") url_str) [
  | none ↦ []
  | some (scheme, tmp) ↦ elim (cut_at b'/' tmp) [ none ↦ tmp | some (domain, path) ↦ domain ]
]
