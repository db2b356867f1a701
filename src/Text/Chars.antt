-- ===== src/Text/Chars.antt =====
-- The character classes of <ctype.h> in the "C" locale, as static_utils.h uses them.
use robot_arm_2d.Prelude.{ℕ, Bool, ◌&&◌, ◌||◌, leb, ◌==◌}

abbrev pub isspace : ℕ → Bool
isspace c = (leb 9 c && leb c 13) || (c == 32)

abbrev pub isdigit : ℕ → Bool
isdigit c = leb b'0' c && leb c b'9'

abbrev pub isupper : ℕ → Bool
isupper c = leb b'A' c && leb c b'Z'

abbrev pub islower : ℕ → Bool
islower c = leb b'a' c && leb c b'z'

abbrev pub isalpha : ℕ → Bool
isalpha c = isupper c || islower c

abbrev pub isalnum : ℕ → Bool
isalnum c = isalpha c || isdigit c
