-- ===== src/Text/Attributes/Laws.antt =====
-- release/common/static_utils.h: extract_xml_attribute where the name stands in front of another word.
use robot_arm_2d.Prelude.{ℕ, zero, suc, ◌≡◌, refl, false, ◌||◌, ◌∷◌, none, some, Bytes, ◌==◌}
use robot_arm_2d.Text.Attributes.{attribute_loop, extract_xml_attribute}
use robot_arm_2d.Text.Chars.{isspace}
use robot_arm_2d.Text.Split.{cut_at}
use robot_arm_2d.Text.Subst.{find_in}

attribute_loop-endless :
    (fuel : ℕ) (attr_name inside front : Bytes) (c : ℕ) (tst : Bytes)
    → find_in attr_name inside ≡ some (front, c ∷ tst)
    → ((c == b'=') || isspace c) ≡ false
    → attribute_loop fuel attr_name inside ≡ none
unfolding attribute_loop
attribute_loop-endless zero attr_name inside front c tst e h = refl
attribute_loop-endless (suc fuel) attr_name inside front c tst e h =
    rw (e, attribute_loop) (rw h (attribute_loop-endless fuel attr_name inside front c tst e h))

-- Where the first place of the name in the tag is followed by neither `=` nor white space, the search
-- does not end: no fuel is enough.
pub extract_xml_attribute-endless :
    (fuel : ℕ) (attr_name start_tag inside behind front : Bytes) (c : ℕ) (tst : Bytes)
    → cut_at b'>' start_tag ≡ some (inside, behind)
    → find_in attr_name inside ≡ some (front, c ∷ tst)
    → ((c == b'=') || isspace c) ≡ false
    → extract_xml_attribute fuel attr_name start_tag ≡ none
unfolding extract_xml_attribute
extract_xml_attribute-endless fuel attr_name start_tag inside behind front c tst e f h =
    rw (e, attribute_loop-endless fuel attr_name inside front c tst f h, extract_xml_attribute) refl
