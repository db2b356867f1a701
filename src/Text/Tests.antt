-- ===== src/Text/Tests.antt =====
-- release/common/static_utils.h: runs of the text routines, and the theorems on them at concrete texts.
use robot_arm_2d.Prelude.{◌≡◌, refl, [], ◌∷◌, ◌++◌, some, arith, Bytes, codes}
use robot_arm_2d.Text.Lines.{to_no_empty_lines}
use robot_arm_2d.Text.QuasiUrl.{encode_bytes, quasi_url_encode, quasi_url_decode}
use robot_arm_2d.Text.QuasiUrl.Laws.{escape, quasi_url_decode-escape, quasi_url_encode-eq}
use robot_arm_2d.Text.Split.{split_string, to_items, to_tokens}
use robot_arm_2d.Text.Subst.{subst}
use robot_arm_2d.Text.Subst.Laws.{replace_all, subst-eq-replace_all}
use robot_arm_2d.Text.Trim.{trim}

trim_both_ends : trim (codes "  a b \t") ≡ codes "a b"
unfolding trim
trim_both_ends = refl

split_string_at_colon :
    split_string (codes " gear_ratio : 2.5") [] b':' ≡ (codes "gear_ratio ", codes " 2.5")
unfolding split_string robot_arm_2d.Text.Split.cut_at trim
split_string_at_colon = refl

split_string_at_space : split_string (codes "MV  1 ; 2") [] 32 ≡ (codes "MV", codes "1 ; 2")
unfolding split_string robot_arm_2d.Text.Trim.skip_to_white trim robot_arm_2d.Text.Trim.to_white
split_string_at_space = refl

to_tokens_of_list :
    to_tokens (codes "a, b ,,c") ≡ some (codes "a" ∷ codes "b" ∷ [] ∷ codes "c" ∷ [])
unfolding to_tokens split_string robot_arm_2d.Text.Split.cut_at trim
    robot_arm_2d.Text.Trim.trim_string
to_tokens_of_list = refl

subst_twice : subst (codes "{x}") (codes "12") (codes "MV{x},{x}") ≡ some (codes "MV12,12")
unfolding subst
subst_twice = refl

lines_of_page : to_no_empty_lines (codes " a\n\n b") ≡ some (codes "a" ∷ codes "b" ∷ [])
unfolding to_no_empty_lines trim
lines_of_page = refl

abbrev spaced : Bytes
spaced = codes " a b "

subst-eq-replace_all_example :
    subst (codes "{x}") (codes "{x}1") (codes "a{x}{x}")
    ≡ some (replace_all (codes "{x}") (codes "{x}1") 0 (codes "a{x}{x}"))
subst-eq-replace_all_example =
    subst-eq-replace_all (codes "{x}") (codes "{x}1") (codes "a{x}{x}") (cc)

quasi_url_decode-escape_example : quasi_url_decode (escape (codes "a& b+")) ≡ some (codes "a& b+")
quasi_url_decode-escape_example = quasi_url_decode-escape (codes "a& b+") (omega arith)

quasi_url_encode-eq_example :
    (quasi_url_encode (codes "a") ≡ some (escape (codes "a")))
    × (quasi_url_encode (codes "a" ++ b'&' ∷ codes "b")
        ≡ some (escape (codes "a") ++ codes "&038;"))
unfolding encode_bytes
quasi_url_encode-eq_example =
    quasi_url_encode-eq (codes "a") (codes "b") (omega arith, tt) (omega arith, tt)
      (omega arith, tt) (omega arith) (omega arith)
