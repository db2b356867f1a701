-- ===== src/Text/Words.antt =====
-- release/common/static_utils.h: the tests and the parts of words: isnumber, all_digits, isfloat,
-- identifier_stem, next_word, last_item, remove_stem, get_stem and their like.
pub mod Laws
use robot_arm_2d.Prelude.{
  ℕ, ◌+◌, Bool, true, false, not, ◌&&◌, ◌||◌, List, [], ◌∷◌, ◌++◌, Option, none, some, Bytes, codes,
  ltb, ◌==◌, if◌then◌else◌, equal,
}
use robot_arm_2d.Text.Chars.{isspace, isdigit, isalnum}
use robot_arm_2d.Text.Edit.{in_set, remove_spaces}
use robot_arm_2d.Text.Find.{behind}
use robot_arm_2d.Text.Split.{cut_at, split_string}
use robot_arm_2d.Text.Trim.{skip_white, skip_to_white}

unfoldable pub isnumber : Bytes → Bool
isnumber [] = true
isnumber (c ∷ s) = if ltb c b'0' || ltb b'9' c then false else isnumber s

-- `while ( *tmp && isdigit(*tmp) ) tmp++`
unfoldable pub skip_digits : Bytes → Bytes
skip_digits [] = []
skip_digits (c ∷ s) = if isdigit c then skip_digits s else c ∷ s

abbrev pub is_empty : Bytes → Bool
is_empty [] = true
is_empty (c ∷ s) = false

unfoldable pub all_digits : Bytes → Bool
unfolding skip_digits
all_digits text = is_empty (skip_digits text)

-- `exponent.erase(0)` where the exponent begins with `E`, `exponent` as it is where it does not.
abbrev pub cut_exponent : Bytes → Bytes
cut_exponent [] = []
cut_exponent (c ∷ s) = if (c == b'E') || (c == b'e') then [] else c ∷ s

-- `isfloat`: the decimals, and the exponent behind them. `exponent` is searched, which is still
-- empty.
unfoldable pub float_parts : Bytes → Bytes → Bytes × Bytes
unfolding in_set split_string
float_parts decimal exponent =
    if in_set b'+' exponent
    then (let pair = split_string decimal exponent b'+' in (pair.0, cut_exponent pair.1))
    else if in_set b'-' exponent
    then (let pair = split_string decimal exponent b'-' in (pair.0, cut_exponent pair.1))
    else if in_set b'E' exponent
    then split_string decimal exponent b'E'
    else (decimal, exponent)

unfoldable pub isfloat : Bytes → Bool
unfolding float_parts all_digits
isfloat text =
    let parts = split_string text [] b'.' in
    if all_digits parts.0
    then all_digits parts.1 || all_digits (float_parts parts.1 []).0
    else false

-- The characters that end an identifier.
abbrev pub outset : Bytes
outset = codes "{}[]()!@#$%^&*-+=?/\\\"',."

unfoldable pub identifier_stem : Bytes → Bytes
unfolding in_set
identifier_stem [] = []
identifier_stem (c ∷ s) = let rest = identifier_stem s in if in_set c outset then [] else c ∷ rest

abbrev pub is_id_char : ℕ → Bool
is_id_char c = (c == b'_') || isalnum c

-- The text up to where `skip_identifier` stops.
unfoldable pub identifier : Bytes → Bytes
identifier [] = []
identifier (c ∷ s) =
    let rest = identifier s in
    if isspace c then [] else if not (c == b'_') && not (isalnum c) then [] else c ∷ rest

unfoldable pub next_word : Bytes → Bytes
unfolding identifier skip_white
next_word str = identifier (skip_white str)

-- The text before the last `c` and the text behind it; `find_last_of(c)` and `strrchr`.
unfoldable pub cut_last : ℕ → Bytes → Option (Bytes × Bytes)
cut_last c [] = none
cut_last c (x ∷ s) = elim (cut_last c s) [
  | some (a, b) ↦ some (x ∷ a, b)
  | none ↦ if x == c then some ([], s) else none
]

unfoldable pub last_item : Bytes → ℕ → Bytes
unfolding cut_last
last_item itemstr c = elim (cut_last c itemstr) [ none ↦ itemstr | some (a, b) ↦ b ]

unfoldable pub remove_stem : Bytes → ℕ → Bytes
unfolding cut_last
remove_stem file c = elim (cut_last c file) [ none ↦ [] | some (a, b) ↦ a ]

unfoldable pub get_stem : Bytes → ℕ → Bytes
unfolding cut_last
get_stem file c = elim (cut_last c file) [ none ↦ [] | some (a, b) ↦ b ]

-- What stands behind the first `c`.
unfoldable pub chop : Bytes → ℕ → Bytes
unfolding behind
chop str c = let s = behind c str in if equal s str then [] else s

-- The text is `false` where there is no bracket.
unfoldable pub is_array_access : Bytes → Bool
unfolding in_set
is_array_access accessor = in_set b'[' accessor

-- `dir_concat`
abbrev pub dir_concat : Bytes → Bytes → Bytes
dir_concat dir sub_item = dir ++ b'/' ∷ sub_item

unfoldable pub count_lines : Bytes → ℕ
count_lines [] = 0
count_lines (c ∷ s) = (if c == b'\n' then 1 else 0) + count_lines s

unfoldable pub count_tabs : Bytes → ℕ
count_tabs [] = 0
count_tabs (c ∷ s) =
    let rest = count_tabs s in if isspace c then (if c == b'\t' then rest + 1 else rest) else 0
