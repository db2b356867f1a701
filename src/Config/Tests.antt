-- ===== src/Config/Tests.antt =====
-- parameters.h: a parameter file that is read.
use robot_arm_2d.Config.{Params, read_parameters, buffer_size}
use robot_arm_2d.Config.RoundTrip.{
  Entry, value, block, file_lines, put_entries, IsEntry, read_parameters-file_lines,
}
use robot_arm_2d.Prelude.{◌≡◌, refl, true, none, some, List, [], ◌∷◌, Bytes, codes, All, arith}
use robot_arm_2d.Text.Lines.Laws.{unlines}

abbrev file : Bytes
file = codes "# arm\nport: /dev/a\nseq: {\n A\n# no\n B\n}\n"

file_is_read :
    read_parameters (some file) true []
    ≡ some ((codes "port", codes "/dev/a") ∷ (codes "seq", codes "A;B") ∷ [])
unfolding read_parameters robot_arm_2d.Text.Lines.to_no_empty_lines robot_arm_2d.Config.read_lines
    robot_arm_2d.Text.Trim.trim robot_arm_2d.Text.Trim.trim_string
    robot_arm_2d.Text.Split.split_string robot_arm_2d.Text.Split.cut_at robot_arm_2d.StdMap.put
file_is_read = refl

missing_end : read_parameters (some (codes "seq: {\nA\n")) true [] ≡ none
unfolding read_parameters robot_arm_2d.Text.Lines.to_no_empty_lines robot_arm_2d.Config.read_lines
    robot_arm_2d.Text.Trim.trim robot_arm_2d.Text.Trim.trim_string
    robot_arm_2d.Text.Split.split_string robot_arm_2d.Text.Split.cut_at
missing_end = refl

abbrev entries : List Entry
entries = value (codes "p") (codes "7") ∷ block (codes "s") (codes "A" ∷ codes "B" ∷ []) ∷ []

entries-All : All IsEntry entries
entries-All = (
  (
    (((refl, refl), (omega arith, tt)), (cc), (omega arith, tt), refl),
    (refl, refl),
    (omega arith, tt),
    (λ e. cc),
  ),
  (
    (
      (((refl, refl), (omega arith, tt)), (cc), (omega arith, tt), refl),
      (
        ((((refl, refl), (cc)), (omega arith, tt)), refl, (λ e. cc)),
        (((((refl, refl), (cc)), (omega arith, tt)), refl, (λ e. cc)), tt),
      ),
    ),
    tt,
  ),
)

read_parameters-file_lines_example :
    read_parameters (some (unlines (file_lines entries))) true [] ≡ some (put_entries entries [])
read_parameters-file_lines_example = read_parameters-file_lines entries [] entries-All (omega arith)
