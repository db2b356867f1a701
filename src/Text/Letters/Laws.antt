-- ===== src/Text/Letters/Laws.antt =====
-- release/common/static_utils.h: the two spellings of the changes of letters.
use robot_arm_2d.Prelude.{◌≡◌, refl, [], ◌∷◌, arith, Bytes}
use robot_arm_2d.Text.Case.{replace_spaces}
use robot_arm_2d.Text.Case
use robot_arm_2d.Text.Letters.{upper_case, lower_case, space_to_bar}

pub upper_case-eq : (s : Bytes) → upper_case s ≡ Case.upper_case s
unfolding upper_case Case.upper_case
upper_case-eq [] = refl
upper_case-eq (c ∷ s) = rw (upper_case-eq s) (ground arith)

pub lower_case-eq : (s : Bytes) → lower_case s ≡ Case.lower_case s
unfolding lower_case Case.lower_case
lower_case-eq [] = refl
lower_case-eq (c ∷ s) = rw (lower_case-eq s) refl

pub space_to_bar-eq : (s : Bytes) → space_to_bar s ≡ replace_spaces s b'_'
unfolding space_to_bar replace_spaces
space_to_bar-eq [] = refl
space_to_bar-eq (c ∷ s) = rw (space_to_bar-eq s) refl
