-- ===== src/Text/Skips.antt =====
-- release/common/static_utils.h: the pointers that go on to a character, and the tokens that are read
-- with them.
use robot_arm_2d.Prelude.{
  ℕ, zero, suc, ◌-◌, Bool, true, false, not, ◌&&◌, ◌||◌, [], ◌∷◌, Option, none, some, ◌>>=◌, Bytes,
  take, drop, get_elem?, length, ltb, ◌==◌, if◌then◌else◌,
}
use robot_arm_2d.Text.Chars.{isspace}
use robot_arm_2d.Text.Sections.{skip_to_char}
use robot_arm_2d.Text.Trim.{skip_white, skip_to_white}
use robot_arm_2d.Text.Words.{identifier}

-- The loop of `skip_quoted`, with the character before the pointer. A quote behind the other kind of
-- quote is passed over.
unfoldable pub quoted_loop : ℕ → ℕ → Bytes → Option Bytes
quoted_loop c prev [] = none
quoted_loop c prev (d ∷ tmp) =
    let rest = quoted_loop c d tmp in
    let other = if c == b'"' then b'\'' else b'"' in
    if d == c then (if prev == other then rest else some (d ∷ tmp)) else rest

-- `skip_quoted`, where `prev` stands before the pointer; `none` is NULL.
unfoldable pub skip_quoted : ℕ → Bytes → ℕ → Option Bytes
unfolding quoted_loop
skip_quoted prev [] c = none
skip_quoted prev (d ∷ tmp) c = if d == c then quoted_loop c d tmp else quoted_loop c prev (d ∷ tmp)

unfoldable pub skip_to_char_or_white : Bytes → ℕ → Option Bytes
skip_to_char_or_white [] c = none
skip_to_char_or_white (d ∷ tmp) c =
    let rest = skip_to_char_or_white tmp c in
    if d == c then some (d ∷ tmp) else if isspace d then some (d ∷ tmp) else rest

unfoldable pub skip_to_char_condition : Bytes → ℕ → (ℕ → Bool) → Option Bytes
skip_to_char_condition [] c a = none
skip_to_char_condition (d ∷ tmp) c a =
    let rest = skip_to_char_condition tmp c a in
    if d == c then some (d ∷ tmp) else if a d then none else rest

unfoldable pub skip_white_and_star : Bytes → Bytes
skip_white_and_star [] = []
skip_white_and_star (c ∷ tmp) =
    let rest = skip_white_and_star tmp in if isspace c || (c == b'*') then rest else c ∷ tmp

unfoldable pub skip_to_white_or_star : Bytes → Bytes
skip_to_white_or_star [] = []
skip_to_white_or_star (c ∷ tmp) =
    let rest = skip_to_white_or_star tmp in
    if not (isspace c) && not (c == b'*') then rest else c ∷ tmp

-- The text between two pointers.
unfoldable pub up_to : Bytes → Bytes → Bytes
up_to start end_at = take (length start - length end_at) start

-- From the first quote behind `start` to the first quote behind `end`, this one included, or to the end
-- of the text if this one stands before it. `none` stands for the use of NULL, where a quote is missing.
unfoldable pub extract_string : Bytes → Bytes → Option Bytes
unfolding skip_to_char up_to
extract_string start end_at = skip_to_char start b'"' >>= λ first.
    skip_to_char end_at b'"' >>= λ last.
    let stop = drop 1 last in
    some (if ltb (length first) (length stop) then first else up_to first stop)

-- The text with its first word overwritten, and where the pointer stands behind it.
unfoldable pub clear_to_white : Bytes → Bytes × Bytes
clear_to_white [] = ([], [])
clear_to_white (c ∷ tmp) =
    let rest = clear_to_white tmp in
    if isspace c then (c ∷ tmp, c ∷ tmp) else (b' ' ∷ rest.0, rest.1)

unfoldable pub skip_to_token : Bytes → Bytes
unfolding skip_white skip_to_white
skip_to_token tmp = skip_white (skip_to_white tmp)

-- `idtoken`: the identifier, and where the pointer stands behind it.
unfoldable pub idtoken : Bytes → Bytes × Bytes
unfolding skip_white identifier
idtoken str_ptr =
    let tmp = skip_white str_ptr in (identifier tmp, drop (length (identifier tmp)) tmp)

-- `token_quotes`; `none` stands for a quoted text that is not closed.
unfoldable pub quotes_end : Bytes → Option Bytes
unfolding skip_quoted
quotes_end [] = some []
quotes_end (c ∷ tmp) = if c == b'"' then skip_quoted c (c ∷ tmp) b'"' else some (c ∷ tmp)

unfoldable pub token_quotes : Bytes → Option (Bytes × Bytes)
unfolding skip_white quotes_end skip_to_white up_to
token_quotes str_ptr =
    let tmp = skip_white str_ptr in
    quotes_end tmp >>= λ end_at. some (up_to tmp (skip_to_white end_at), skip_to_white end_at)

-- `strncmp(s,token,token_len) == 0`
unfoldable pub same_front : ℕ → Bytes → Bytes → Bool
same_front zero s token = true
same_front (suc n) [] [] = true
same_front (suc n) [] (t ∷ token) = false
same_front (suc n) (c ∷ s) [] = false
same_front (suc n) (c ∷ s) (t ∷ token) = (c == t) && same_front n s token

-- `s[i]`, NUL at the end of the text, and `none` behind that.
unfoldable pub char_at? : Bytes → ℕ → Option ℕ
char_at? s i = if ltb i (length s) then get_elem? s i else if i == length s then some 0 else none

unfoldable pub is_token : Bytes → Bytes → ℕ → Option Bool
unfolding same_front char_at?
is_token s token token_len =
    if same_front token_len s token
    then char_at? s token_len >>= (λ c. some (isspace c))
    else some false

-- `is_token` with a delimiter, which has to be another character.
unfoldable pub is_token_delim : Bytes → Bytes → ℕ → ℕ → Option Bool
unfolding same_front char_at?
is_token_delim s token token_len delim =
    if same_front token_len s token
    then char_at? s token_len >>= (λ c. some (isspace c && not (c == delim)))
    else some false
