-- ===== src/Text/Attributes.antt =====
-- release/common/static_utils.h: mark_section_and_middle, string_extract_field_with_tags and
-- extract_xml_attribute.
pub mod Laws
use robot_arm_2d.Prelude.{
  ℕ, zero, suc, ◌+◌, ◌-◌, ◌||◌, [], ◌∷◌, ◌++◌, Option, none, some, ◌>>=◌, Bytes, codes, length,
  drop, take, leb, ◌==◌, if◌then◌else◌,
}
use robot_arm_2d.Text.Chars.{isspace}
use robot_arm_2d.Text.Sections.{
  Section, mark_section, first_mark, end_or_last, between, skip_to_char,
}
use robot_arm_2d.Text.Split.{cut_at}
use robot_arm_2d.Text.Subst.{starts_with, find_in}

-- `*begin`, `*end` and `*middle`; the last two may be NULL.
pub record Middle : Type 0 where
  pub begin_text : Bytes
  pub end_text : Option Bytes
  pub middle : Option Bytes

unfoldable pub marked_middle : Option Bytes → Option Bytes → Option Bytes → Option Middle
marked_middle none e m = none
marked_middle (some []) e m = none
marked_middle (some (c ∷ b)) e m = some (record { begin_text = c ∷ b; end_text = e; middle = m })

-- A round of the loop: what the function returns, or the counter, the two marks and the pointer.
pub data MiddleMark : Type 0 where
  halt : Option Middle → MiddleMark
  onward : ℕ → Option Bytes → Option Bytes → Bytes → MiddleMark

unfoldable pub middle_step :
    Bytes → Bytes → Bytes → ℕ → Option Bytes → Option Bytes → ℕ → Bytes → MiddleMark
unfolding first_mark marked_middle starts_with
middle_step tag_b tag_e tag_m start_count b m c s =
    let tmp = drop (length tag_b) (c ∷ s) in
    if starts_with tag_b (c ∷ s)
    then onward (suc start_count) (first_mark b tmp) m tmp
    else if starts_with tag_e (c ∷ s)
    then if start_count == 0
      then halt none
      else if start_count == 1
      then halt (marked_middle b (some (c ∷ s)) m)
      else onward (start_count - 1) b m (drop (length tag_e) (c ∷ s))
    else if starts_with tag_m (c ∷ s)
    then onward start_count b (if start_count == 1 then some (c ∷ s) else m)
        (drop (length tag_m) (c ∷ s))
    else onward start_count b m s

-- `while ( *tmp ) { … }` and what follows it. The outer `none` means that the fuel ran out.
unfoldable pub middle_loop :
    ℕ → Bytes → Bytes → Bytes → ℕ → Option Bytes → Option Bytes → Bytes → Option (Option Middle)
unfolding middle_step marked_middle
middle_loop fuel tag_b tag_e tag_m start_count b m [] = some (marked_middle b none m)
middle_loop zero tag_b tag_e tag_m start_count b m (c ∷ s) = none
middle_loop (suc fuel) tag_b tag_e tag_m start_count b m (c ∷ s) =
    elim (middle_step tag_b tag_e tag_m start_count b m c s) [
      | halt found ↦ some found
      | onward count b' m' tmp ↦ middle_loop fuel tag_b tag_e tag_m count b' m' tmp
    ]

unfoldable pub mark_section_and_middle : Bytes → Bytes → Bytes → Bytes → Option (Option Middle)
unfolding middle_loop
mark_section_and_middle begin_text tag_b tag_e tag_m =
    middle_loop (length begin_text + length begin_text) tag_b tag_e tag_m 0 none none begin_text

-- From the opening tag to the first `>` behind the closing tag, and the text behind that. `none`
-- stands for a pointer behind the end of the text, and for the use of NULL.
unfoldable pub field_with_tags : Bytes → Bytes → Bytes → Section → Option (Bytes × Option Bytes)
unfolding end_or_last skip_to_char between
field_with_tags rest tag e_tag marks =
    let nb = drop (length rest - length marks.begin_text - length tag) rest in
    let ne = end_or_last marks.end_text in
    if leb (length e_tag) (length ne)
    then skip_to_char (drop (length e_tag) ne) b'>'
      >>= (λ stop. some (between nb stop, some (drop 1 stop)))
    else none

-- `string_extract_field_with_tags`: the field, and what `*rest` is behind the call. `*rest` is NULL
-- when it is compared, so that the comparison is true.
unfoldable pub string_extract_field_with_tags : Bytes → Bytes → Option (Bytes × Option Bytes)
unfolding mark_section field_with_tags
string_extract_field_with_tags rest [] = none
string_extract_field_with_tags rest (c ∷ tag) =
    mark_section rest (c ∷ tag) (codes "</" ++ tag) >>= λ found. elim found [
      | none ↦ some ([], none)
      | some marks ↦ field_with_tags rest (c ∷ tag) (codes "</" ++ tag) marks
    ]

-- `do { … } while ( true )` in the text before `>`: the text behind the name, or NULL. The search does
-- not move on from a place that is not the attribute; `none` means that the fuel ran out.
unfoldable pub attribute_loop : ℕ → Bytes → Bytes → Option (Option Bytes)
unfolding find_in
attribute_loop zero attr_name inside = none
attribute_loop (suc fuel) attr_name inside = elim (find_in attr_name inside) [
  | none ↦ some none
  | some (front, []) ↦ attribute_loop fuel attr_name inside
  | some (front, c ∷ tst) ↦
      let again = attribute_loop fuel attr_name inside in
      if (c == b'=') || isspace c then some (some (c ∷ tst)) else again
]

-- The text between the next two quotes; `none` stands for the use of NULL, where there is no quote.
unfoldable pub quoted_value : Bytes → Option Bytes
unfolding skip_to_char cut_at
quoted_value tmp = skip_to_char tmp b'"' >>= λ value. elim (cut_at b'"' (drop 1 value)) [
  | none ↦ some []
  | some (result, back) ↦ some result
]

-- `extract_xml_attribute`; a tag without `>` is a write to NULL, `none`.
unfoldable pub extract_xml_attribute : ℕ → Bytes → Bytes → Option Bytes
unfolding cut_at attribute_loop quoted_value
extract_xml_attribute fuel attr_name start_tag = elim (cut_at b'>' start_tag) [
  | none ↦ none
  | some (inside, behind) ↦ attribute_loop fuel attr_name inside >>= λ found. elim found [
    | none ↦ some []
    | some tst ↦ quoted_value (attr_name ++ tst ++ b'>' ∷ behind)
  ]
]
