-- ===== src/Text/Edit.antt =====
-- release/common/static_utils.h: the functions that take characters out of a text or write others for
-- them, and single_subst.
pub mod Laws
use robot_arm_2d.Prelude.{
  ℕ, ◌+◌, Bool, true, false, List, [], ◌∷◌, ◌++◌, Option, none, some, Bytes, codes, length, ltb,
  ◌==◌, if◌then◌else◌,
}
use robot_arm_2d.Text.Chars.{isspace}
use robot_arm_2d.Text.Subst.{find_in}

unfoldable pub remove_spaces : Bytes → Bytes
remove_spaces [] = []
remove_spaces (c ∷ s) = if isspace c then remove_spaces s else c ∷ remove_spaces s

unfoldable pub remove_character : Bytes → ℕ → Bytes
remove_character [] sc = []
remove_character (c ∷ s) sc = if c == sc then remove_character s sc else c ∷ remove_character s sc

unfoldable pub unquote : Bytes → Bytes
unfolding remove_character
unquote qs = remove_character qs b'"'

unfoldable pub replace_character : Bytes → ℕ → ℕ → Bytes
replace_character [] sc rc = []
replace_character (c ∷ s) sc rc = (if c == sc then rc else c) ∷ replace_character s sc rc

unfoldable pub replace_star : Bytes → ℕ → Bytes
unfolding replace_character
replace_star str rc = replace_character str b'*' rc

unfoldable pub replace_comma : Bytes → ℕ → Bytes
unfolding replace_character
replace_comma str rc = replace_character str b',' rc

-- `strchr(sc,c) != NULL`, for a character that is not 0.
unfoldable pub in_set : ℕ → Bytes → Bool
in_set c [] = false
in_set c (x ∷ sc) = if x == c then true else in_set c sc

unfoldable pub replace_characters : Bytes → Bytes → ℕ → Bytes
unfolding in_set
replace_characters [] sc rc = []
replace_characters (c ∷ s) sc rc = (if in_set c sc then rc else c) ∷ replace_characters s sc rc

-- The loop of `replace_between`: the replacer once for each `c` of the text, behind what the buffer
-- holds.
unfoldable pub replacers : ℕ → Bytes → Bytes → Bytes → Bytes
replacers c replacer [] buffer = buffer
replacers c replacer (x ∷ next) buffer =
    if x == c
    then replacers c replacer next (buffer ++ replacer)
    else replacers c replacer next buffer

-- `none` stands for a text that runs over the buffer's 256 characters, its final 0 included.
unfoldable pub replace_between : ℕ → Bytes → Bytes → Option Bytes
unfolding replacers
replace_between c replacer target =
    let buffer = replacers c replacer target [] in
    if ltb (length buffer) 256 then some buffer else none

unfoldable pub dir_depth_string : Bytes → Option Bytes
unfolding replace_between
dir_depth_string dir_stem = replace_between b'\\' (codes "../") dir_stem

unfoldable pub uri_depth_string : Bytes → Option Bytes
unfolding replace_between
uri_depth_string dir_stem = replace_between b'/' (codes "../") dir_stem

-- The first key is written over.
unfoldable pub single_subst : Bytes → Bytes → Bytes → Bytes
unfolding find_in
single_subst key value form = elim (find_in key form) [
  | none ↦ form
  | some (a, b) ↦ a ++ (value ++ b)
]
