-- ===== src/Text/Library.antt =====
-- release/common/static_utils.h: runs of the conversions of letters, of hexadecimal digits and of words,
-- and the theorems on them at concrete texts.
use robot_arm_2d.Prelude.{◌≡◌, refl, false, [], ◌∷◌, codes}
use robot_arm_2d.Text.Case.{to_url}
use robot_arm_2d.Text.Edit.{single_subst}
use robot_arm_2d.Text.Hex.{hex_representation}
use robot_arm_2d.Text.Split.{split_string}
use robot_arm_2d.Text.Words.{isfloat}

to_url_of_title : to_url (codes "The Arm") ≡ codes "the_arm"
unfolding to_url
to_url_of_title = refl

hex_of_bytes : hex_representation (0 ∷ 26 ∷ 255 ∷ []) ≡ codes "001aff"
unfolding hex_representation
hex_of_bytes = refl

isfloat_with_exponent : isfloat (codes "1.5e3") ≡ false
unfolding isfloat robot_arm_2d.Text.Split.cut_at robot_arm_2d.Text.Trim.trim
isfloat_with_exponent = refl

single_subst_first : single_subst (codes "x") (codes "yy") (codes "axbx") ≡ codes "ayybx"
unfolding single_subst
single_subst_first = refl
