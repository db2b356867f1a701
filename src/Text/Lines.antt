-- ===== src/Text/Lines.antt =====
-- release/common/static_utils.h: end_line, extract_line and to_no_empty_lines.
pub mod Laws
use robot_arm_2d.Prelude.{
  ℕ, zero, suc, List, [], ◌∷◌, Option, none, some, Bytes, length, ◌==◌, if◌then◌else◌,
}
use robot_arm_2d.Text.Trim.{trim}

-- `extract_line(&tmp)` at a text that is not empty: the characters up to the line's end, and what
-- stands behind the line's end.
unfoldable pub extract_line : Bytes → Bytes × Bytes
extract_line [] = ([], [])
extract_line (c ∷ s) =
    let rest = extract_line s in if c == b'\n' then ([], s) else (c ∷ rest.0, rest.1)

-- A line is kept if something is left of it.
unfoldable pub keep_line : Bytes → List Bytes → List Bytes
keep_line [] lines = lines
keep_line (c ∷ s) lines = (c ∷ s) ∷ lines

-- `while ( *tmp ) { … }`; `none` means that the fuel ran out.
unfoldable pub lines_loop : ℕ → Bytes → Option (List Bytes)
unfolding keep_line extract_line
lines_loop fuel [] = some []
lines_loop zero (c ∷ s) = none
lines_loop (suc fuel) (c ∷ s) =
    let pair = extract_line (c ∷ s) in
    elim (lines_loop fuel pair.1) [ none ↦ none | some rest ↦ some (keep_line (trim pair.0) rest) ]

unfoldable pub to_no_empty_lines : Bytes → Option (List Bytes)
unfolding lines_loop
to_no_empty_lines page = lines_loop (length page) page
