-- ===== src/Config.antt =====
-- release/common/parameters.h: read_parameters, the reader of parameters.ini.
pub mod RoundTrip
mod Tests
use robot_arm_2d.Prelude.{
  ℕ, Bool, true, false, ◌&&◌, List, [], ◌∷◌, ◌++◌, Option, none, some, ◌>>=◌, Bytes, codes, length,
  leb, ◌==◌, if◌then◌else◌, equal,
}
use robot_arm_2d.StdMap.{StdMap, put}
use robot_arm_2d.Text.Lines.{to_no_empty_lines}
use robot_arm_2d.Text.Split.{split_string}
use robot_arm_2d.Text.Trim.{trim_string}

abbrev pub Params : Type 0
Params = StdMap Bytes

abbrev pub open_brace : Bytes
open_brace = codes "{"

abbrev pub close_brace : Bytes
close_brace = codes "}"

-- `line[0] == '#'`
abbrev pub is_comment : Bytes → Bool
is_comment [] = false
is_comment (c ∷ s) = c == b'#'

unfoldable mutual
  -- The loop over the lines.
  pub read_lines : List Bytes → Bool → Params → Option Params
  read_lines [] no_comments params = some params
  read_lines (pardef ∷ lines) no_comments params =
      let pair = split_string pardef [] b':' in
      let key = trim_string pair.0 in
      let term = trim_string pair.1 in
      elim (no_comments && is_comment pardef) [
        | true ↦ read_lines lines no_comments params
        | false ↦ elim (equal term open_brace) [
          | true ↦ read_block lines no_comments key [] [] params
          | false ↦ read_lines lines no_comments (put key term params)
        ]
      ]

  -- `while ( line != "}" ) { … }`; `none` means that the iterator runs past the last line.
  pub read_block : List Bytes → Bool → Bytes → Bytes → Bytes → Params → Option Params
  read_block [] no_comments key term sep params = none
  read_block (next ∷ lines) no_comments key term sep params =
      let line = trim_string next in
      elim (is_comment line) [
        | true ↦ read_block lines no_comments key term sep params
        | false ↦ elim (equal line close_brace) [
          | true ↦ read_lines lines no_comments (put key term params)
          | false ↦ read_block lines no_comments key (term ++ (sep ++ line)) (codes ";") params
        ]
      ]

-- The size of `filebuffer`.
abbrev pub buffer_size : ℕ
buffer_size = 20_000

-- The file's text is `none` if there is no such file. The buffer must hold it with a NUL behind it:
-- `none` means that the lines would be read past the buffer's end, or past the last line.
unfoldable pub read_parameters : Option Bytes → Bool → Params → Option Params
read_parameters none no_comments params = some params
read_parameters (some filebuffer) no_comments params =
    if leb buffer_size (length filebuffer)
    then none
    else (to_no_empty_lines filebuffer >>= λ lines. read_lines lines no_comments params)
