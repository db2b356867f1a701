-- ===== src/Text/Case.antt =====
-- release/common/static_utils.h: upper_case, lower_case, capitalize, replace_spaces and to_url.
pub mod Laws
use robot_arm_2d.Prelude.{ℕ, ◌+◌, ◌-◌, Bool, true, false, ◌&&◌, [], ◌∷◌, Bytes, if◌then◌else◌}
use robot_arm_2d.Text.Chars.{isspace, isupper, islower}

-- `toupper` of a small letter and `tolower` of a capital.
abbrev pub toupper : ℕ → ℕ
toupper c = c - 32

abbrev pub tolower : ℕ → ℕ
tolower c = c + 32

unfoldable pub upper_case : Bytes → Bytes
upper_case [] = []
upper_case (c ∷ s) = (if islower c then toupper c else c) ∷ upper_case s

unfoldable pub lower_case : Bytes → Bytes
lower_case [] = []
lower_case (c ∷ s) = (if isupper c then tolower c else c) ∷ lower_case s

-- `capitalize`: whether the pointer stands behind the first character of a word.
unfoldable pub capitalize_from : Bool → Bytes → Bytes
capitalize_from in_word [] = []
capitalize_from true (c ∷ s) =
    let space = isspace c in c ∷ (if space then capitalize_from false s else capitalize_from true s)
capitalize_from false (c ∷ s) =
    let space = isspace c in
    (if islower c then toupper c else c)
    ∷ (if space then capitalize_from false s else capitalize_from true s)

unfoldable pub capitalize : Bytes → Bytes
unfolding capitalize_from
capitalize s = capitalize_from false s

unfoldable pub replace_spaces : Bytes → ℕ → Bytes
replace_spaces [] rc = []
replace_spaces (c ∷ s) rc = (if isspace c then rc else c) ∷ replace_spaces s rc

unfoldable pub to_url : Bytes → Bytes
unfolding replace_spaces lower_case
to_url title = lower_case (replace_spaces title b'_')
