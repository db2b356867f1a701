-- ===== src/Text/Pages.antt =====
-- release/common/static_utils.h: to_lines, to_nontrimmed_lines, to_line_set, extract_indented_lines,
-- clear_empty_lines and first_line.
pub mod Laws
pub mod Sets
use robot_arm_2d.Prelude.{
  ℕ, zero, suc, Bool, true, false, List, [], ◌∷◌, ◌++◌, Option, none, some, ◌>>=◌, Bytes, length,
  ◌==◌, if◌then◌else◌, equal,
}
use robot_arm_2d.StdMap.{less}
use robot_arm_2d.Text.Chars.{isspace}
use robot_arm_2d.Text.Lines.{extract_line}
use robot_arm_2d.Text.Trim.{skip_white, trim, trim_string}
use robot_arm_2d.Text.Words.{count_tabs}

-- `while ( *tmp ) { string line = extract_line(&tmp); … }`, where `add` puts a line to those of the rest
-- of the page; `none` means that the fuel ran out.
unfoldable pub each_line {ℓ} : {A : Type ℓ} → (Bytes → A → A) → A → ℕ → Bytes → Option A
unfolding extract_line
each_line add start fuel [] = some start
each_line add start zero (c ∷ s) = none
each_line add start (suc fuel) (c ∷ s) =
    let pair = extract_line (c ∷ s) in
    elim (each_line add start fuel pair.1) [ none ↦ none | some rest ↦ some (add pair.0 rest) ]

unfoldable pub to_nontrimmed_lines : Bytes → Option (List Bytes)
unfolding each_line
to_nontrimmed_lines page = each_line ◌∷◌ [] (length page) page

unfoldable pub to_lines : Bytes → Option (List Bytes)
unfolding each_line
to_lines page = each_line (λ line lines. trim line ∷ lines) [] (length page) page

-- `l_set->insert(line)` on a set in ascending order.
unfoldable pub insert_line : Bytes → List Bytes → List Bytes
insert_line line [] = line ∷ []
insert_line line (other ∷ lines) =
    let rest = insert_line line lines in
    if equal line other
    then other ∷ lines
    else if less line other
    then line ∷ other ∷ lines
    else other ∷ rest

-- `to_line_set`; the set does not depend on the order in which the lines are put in.
unfoldable pub to_line_set : Bytes → Option (List Bytes)
unfolding each_line insert_line
to_line_set page = each_line (λ line lines. insert_line (trim line) lines) [] (length page) page

pub record LineItem : Type 0 where
  pub depth : ℕ
  pub line : Bytes

-- A line that is not empty, with the tabs before it.
unfoldable pub add_item : Bytes → List LineItem → List LineItem
add_item [] items = items
add_item (c ∷ line) items =
    record { depth = count_tabs (c ∷ line); line = trim_string (c ∷ line) } ∷ items

unfoldable pub extract_indented_lines : Bytes → Option (List LineItem)
unfolding each_line add_item
extract_indented_lines page = each_line add_item [] (length page) page

-- Nothing but white space is left before the end, or before the line's end, which is white space, too.
unfoldable pub empty_line : Bytes → Bool
unfolding skip_white
empty_line line = elim (skip_white line) [ [] ↦ true | c ∷ s ↦ c == b'\n' ]

unfoldable pub empty_content : Bytes → Bool
unfolding skip_white
empty_content text = elim (skip_white text) [ [] ↦ true | c ∷ s ↦ false ]

-- The lines that are not empty, each with its line end; they are trimmed, so that `trim_end` leaves
-- them as they are.
unfoldable pub kept_lines : List Bytes → Bytes
unfolding empty_line
kept_lines [] = []
kept_lines (line ∷ lines) =
    if empty_line line then kept_lines lines else line ++ b'\n' ∷ kept_lines lines

unfoldable pub clear_empty_lines : Bytes → Option Bytes
unfolding to_lines kept_lines
clear_empty_lines interp_result = to_lines interp_result >>= λ lines. some (kept_lines lines)

-- `end_line` as an end of a text: the first line, its line end included.
unfoldable pub first_line : Bytes → Bytes
first_line [] = []
first_line (c ∷ s) = let rest = first_line s in if c == b'\n' then c ∷ [] else c ∷ rest
