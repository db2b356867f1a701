-- ===== src/Text/Trim.antt =====
-- release/common/static_utils.h: skip_white, skip_to_white, trim_front, trim_from_end, trim, trim_string.
pub mod Laws
use robot_arm_2d.Prelude.{ℕ, [], ◌∷◌, Bytes, if◌then◌else◌}
use robot_arm_2d.Text.Chars.{isspace}

-- `while ( *tmp && isspace(*tmp) ) tmp++`; the pointer is the rest of the text.
unfoldable pub skip_white : Bytes → Bytes
skip_white [] = []
skip_white (c ∷ s) = if isspace c then skip_white s else c ∷ s

-- The pointer that `skip_to_white` returns.
unfoldable pub skip_to_white : Bytes → Bytes
skip_to_white [] = []
skip_to_white (c ∷ s) = if isspace c then c ∷ s else skip_to_white s

-- The text that is left between a pointer and where `skip_to_white` stops.
unfoldable pub to_white : Bytes → Bytes
to_white [] = []
to_white (c ∷ s) = if isspace c then [] else c ∷ to_white s

-- The text moves to the front of the buffer.
unfoldable pub trim_front : Bytes → Bytes
unfolding skip_white
trim_front s = skip_white s

-- One step of the scan from the end, `*ender-- = 0`: a space goes if nothing is left behind it.
unfoldable pub cut_cons : ℕ → Bytes → Bytes
cut_cons c [] = if isspace c then [] else c ∷ []
cut_cons c (d ∷ r) = c ∷ d ∷ r

-- The characters behind the first one: spaces are cut from the end.
unfoldable pub cut_end : Bytes → Bytes
unfolding cut_cons
cut_end [] = []
cut_end (c ∷ s) = cut_cons c (cut_end s)

-- The scan from the end stops at the first character, `if ( ender == lb ) return(lb)`, which is
-- not looked at. (A text of one space would be scanned past its start; `trim` passes none.)
unfoldable pub trim_from_end : Bytes → Bytes
unfolding cut_end
trim_from_end [] = []
trim_from_end (c ∷ s) = c ∷ cut_end s

unfoldable pub trim : Bytes → Bytes
unfolding trim_front trim_from_end
trim s = trim_from_end (trim_front s)

unfoldable pub trim_string : Bytes → Bytes
trim_string s = trim s
