-- ===== src/Text/Letters.antt =====
-- release/common/static_utils.h: upperCase, lowerCase, spaceToBar and stringTrim.
pub mod Laws
use robot_arm_2d.Prelude.{[], ◌∷◌, Option, none, some, Bytes, if◌then◌else◌}
use robot_arm_2d.Text.Case.{toupper, tolower}
use robot_arm_2d.Text.Chars.{isspace, isupper, islower, isalpha}
use robot_arm_2d.Text.Trim.{trim_from_end}

-- `upperCase`; `toupper` leaves what is no small letter.
unfoldable pub upper_case : Bytes → Bytes
upper_case [] = []
upper_case (c ∷ tmp) =
    (if isalpha c then (if islower c then toupper c else c) else c) ∷ upper_case tmp

-- `lowerCase`
unfoldable pub lower_case : Bytes → Bytes
lower_case [] = []
lower_case (c ∷ tmp) = (if isupper c then tolower c else c) ∷ lower_case tmp

-- `spaceToBar`
unfoldable pub space_to_bar : Bytes → Bytes
space_to_bar [] = []
space_to_bar (c ∷ str) = (if isspace c then b'_' else c) ∷ space_to_bar str

-- `stringTrim`, by `trim_end`, which stops at the first character. In an empty text, and in one that
-- is a single space, the scan goes in front of the text: `none`.
unfoldable pub string_trim : Bytes → Option Bytes
unfolding trim_from_end
string_trim [] = none
string_trim (c ∷ []) = if isspace c then none else some (c ∷ [])
string_trim (c ∷ d ∷ s) = some (trim_from_end (c ∷ d ∷ s))
