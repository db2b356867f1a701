-- ===== src/Text/Copies.antt =====
-- release/common/static_utils.h: end_line_copy and lines_to_list.
pub mod Laws
use robot_arm_2d.Prelude.{
  ℕ, zero, suc, List, [], ◌∷◌, ◌++◌, Option, none, some, ◌>>=◌, Bytes, length, ltb, ◌==◌,
  if◌then◌else◌,
}

-- `while ( *str )`: the line with its end and without carriage returns, and what stands behind it. At
-- the end of the text without a line end it is NULL, and so is the inner option.
unfoldable pub copy_loop : Bytes → Option (Bytes × Bytes)
copy_loop [] = none
copy_loop (c ∷ str) =
    let rest = copy_loop str in
    if c == b'\n'
    then some (c ∷ [], str)
    else if c == b'\r'
    then rest
    else (rest >>= λ pair. some (c ∷ pair.0, pair.1))

-- How many characters a call writes into the buffer; the 0 is written behind a line end alone.
unfoldable pub copied : Bytes → ℕ
copied [] = 0
copied (c ∷ str) =
    let rest = copied str in if c == b'\n' then 2 else if c == b'\r' then rest else suc rest

-- `end_line_copy`; the outer `none` stands for a line that runs over the buffer's 1024 characters.
unfoldable pub end_line_copy : Bytes → Option (Option (Bytes × Bytes))
unfolding copy_loop copied
end_line_copy str = if ltb (copied str) 1025 then some (copy_loop str) else none

-- `while ( (data = end_line_copy(data,&str)) != NULL )`
unfoldable pub list_loop : ℕ → Bytes → Option (List Bytes)
unfolding end_line_copy
list_loop zero text = none
list_loop (suc fuel) text = end_line_copy text >>= λ line. elim line [
  | none ↦ some []
  | some (str, rest) ↦ list_loop fuel rest >>= λ ls. some (str ∷ ls)
]

unfoldable pub lines_to_list : Bytes → Option (List Bytes)
unfolding list_loop
lines_to_list text = list_loop (suc (length text)) text
