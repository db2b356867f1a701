-- ===== src/Text/Samples.antt =====
-- release/common/static_utils.h: the theorems on pages, tags, dates, masks and lists of items at concrete texts.
use robot_arm_2d.Prelude.{
  ◌∷◌, true, ◌≡◌, refl, false, List, [], map, Bytes, All, Lacks, some, codes, arith,
}
use robot_arm_2d.Text.Attributes.{extract_xml_attribute, string_extract_field_with_tags}
use robot_arm_2d.Text.Bits.{mask}
use robot_arm_2d.Text.Implode.{implode, nullop}
use robot_arm_2d.Text.Implode.Laws.{to_items-implode}
use robot_arm_2d.Text.Split.{to_items}
use robot_arm_2d.Text.Split.Laws.{IsItem}
use robot_arm_2d.Text.Dates.{e_mail_date_to_odbc_format}
use robot_arm_2d.Text.Dates.Laws.{e_mail_date_to_odbc_format-written}
use robot_arm_2d.Text.Dates.Months.{january}
use robot_arm_2d.Text.Lines.{to_no_empty_lines}
use robot_arm_2d.Text.Pages.Sets.{member, IsAscending, to_line_set_lem}
use robot_arm_2d.Text.Pages.{to_line_set, to_nontrimmed_lines, to_lines}
use robot_arm_2d.Text.Pages.Laws.{Spells, non_empty, to_lines_lem}
use robot_arm_2d.Text.Sections.{string_extract_field}
use robot_arm_2d.Text.Sections.Fields.{string_extract_field-print}
use robot_arm_2d.Text.Sections.Laws.{character, section, ending}
use robot_arm_2d.Text.Trim.{trim}

to_lines_lem_example :
    (lines : List Bytes) × All (Lacks b'\n') lines
    × Spells lines (codes " a\n\nb")
    × (to_nontrimmed_lines (codes " a\n\nb") ≡ some lines)
    × (to_lines (codes " a\n\nb") ≡ some (map trim lines))
    × (to_no_empty_lines (codes " a\n\nb") ≡ some (non_empty (map trim lines)))
to_lines_lem_example = to_lines_lem (codes " a\n\nb")

string_extract_field-print_example :
    string_extract_field (codes "x<b>1<b>2</b></b>y</b>") (codes "<b>") ≡ some (codes "1<b>2</b>")
string_extract_field-print_example =
    string_extract_field-print (codes "x") b'b' []
      (character b'1' (section (character b'2' ending) ending)) (codes "y</b>") ((cc), tt)
      (omega arith) ((omega arith), (((omega arith), tt), tt))

e_mail_date_to_odbc_format-written_example :
    e_mail_date_to_odbc_format (codes "Mon, 5 Jan 2009 10:07:00 +0100")
    ≡ codes "2009-01-05 10:07:00"
unfolding robot_arm_2d.Text.Dates.is_month robot_arm_2d.Text.Subst.starts_with
e_mail_date_to_odbc_format-written_example =
    e_mail_date_to_odbc_format-written false false (codes "Mon, ") january b'5' [] (codes "2009")
      (codes "10") (codes "07:00") (codes " +0100") refl tt
      ((cc), (refl, (refl, (refl, (refl, tt)))))
      ((omega arith), ((omega arith), ((omega arith), ((omega arith), tt))))
      (
        (cc),
        ((omega arith), ((omega arith), tt)),
        (refl, (refl, tt)),
        (refl, (refl, (refl, (refl, (refl, tt))))),
      )
      refl (refl, refl, (refl, refl, (refl, refl, (refl, refl, (refl, refl, tt)))))

two_items_IsItem : All (IsItem b';') (codes "a" ∷ codes "b c" ∷ [])
two_items_IsItem = (
  ((refl, refl), (omega arith, tt)),
  (((refl, refl), (omega arith, (omega arith, (omega arith, tt)))), tt),
)

to_items-implode_example :
    to_items (implode (codes ";") (codes "a" ∷ codes "b c" ∷ []) nullop true) b';'
    ≡ some (codes "a" ∷ codes "b c" ∷ [])
to_items-implode_example =
    to_items-implode b';' (codes "a" ∷ codes "b c" ∷ []) refl two_items_IsItem (cc)

implode_with_long_separator :
    implode (codes ", ") (codes "a" ∷ codes "b" ∷ []) nullop true ≡ codes " a, b"
unfolding implode robot_arm_2d.Text.Implode.for_each robot_arm_2d.Text.Implode.accum_string nullop
implode_with_long_separator = refl

mask_of_three : mask 3 ≡ 7
unfolding mask robot_arm_2d.Text.Bits.mask_loop
mask_of_three = refl

to_line_set_lem_example :
    (lines set : List Bytes) × All (Lacks b'\n') lines
    × Spells lines (codes "b\na\nb")
    × (to_line_set (codes "b\na\nb") ≡ some set)
    × IsAscending set
    × ((x : Bytes) → member x set ≡ member x (map trim lines))
to_line_set_lem_example = to_line_set_lem (codes "b\na\nb")

set_of_three_lines : to_line_set (codes "b\na\nb") ≡ some (codes "a" ∷ codes "b" ∷ [])
unfolding to_line_set robot_arm_2d.Text.Pages.each_line robot_arm_2d.Text.Pages.insert_line
    robot_arm_2d.Text.Lines.extract_line trim
set_of_three_lines = refl

attribute_of_tag :
    extract_xml_attribute 1 (codes "id") (codes "<arm id=\"a1\">") ≡ some (codes "a1")
unfolding extract_xml_attribute robot_arm_2d.Text.Attributes.attribute_loop
    robot_arm_2d.Text.Attributes.quoted_value robot_arm_2d.Text.Sections.skip_to_char
    robot_arm_2d.Text.Split.cut_at robot_arm_2d.Text.Subst.find_in
    robot_arm_2d.Text.Subst.starts_with
attribute_of_tag = refl

-- The closing tag's own `>` is passed over.
field_with_the_next_bracket :
    string_extract_field_with_tags (codes "<b>1</b>2<c>") (codes "<b>")
    ≡ some (codes "<b>1</b>2<c", some [])
unfolding string_extract_field_with_tags robot_arm_2d.Text.Attributes.field_with_tags
    robot_arm_2d.Text.Sections.mark_section robot_arm_2d.Text.Sections.mark_loop
    robot_arm_2d.Text.Sections.mark_step robot_arm_2d.Text.Sections.marked
    robot_arm_2d.Text.Sections.first_mark robot_arm_2d.Text.Sections.end_or_last
    robot_arm_2d.Text.Sections.between robot_arm_2d.Text.Sections.skip_to_char
    robot_arm_2d.Text.Subst.starts_with
field_with_the_next_bracket = refl
