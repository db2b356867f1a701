-- ===== src/Text/Case/Laws.antt =====
-- release/common/static_utils.h: upper_case, lower_case, capitalize and to_url, laws.
use robot_arm_2d.Prelude.{ℕ, ◌≡◌, refl, Bool, true, false, ◌||◌, [], ◌∷◌, arith, Bytes, All, length}
use robot_arm_2d.Text.Chars.{isspace, isupper}
use robot_arm_2d.Text.Case.{
  upper_case, lower_case, capitalize_from, capitalize, replace_spaces, to_url,
}

upper-lower : (s : Bytes) → upper_case (lower_case s) ≡ upper_case s
unfolding upper_case lower_case
upper-lower [] = refl
upper-lower (c ∷ s) = ground (arith, upper-lower s)

lower-upper : (s : Bytes) → lower_case (upper_case s) ≡ lower_case s
unfolding upper_case lower_case
lower-upper [] = refl
lower-upper (c ∷ s) = ground (arith, lower-upper s)

upper-capitalize_from :
    (in_word : Bool) (s : Bytes) → upper_case (capitalize_from in_word s) ≡ upper_case s
unfolding upper_case capitalize_from
upper-capitalize_from in_word [] = refl
upper-capitalize_from true (c ∷ s) =
    ground (arith, upper-capitalize_from true s, upper-capitalize_from false s)
upper-capitalize_from false (c ∷ s) =
    ground (arith, upper-capitalize_from true s, upper-capitalize_from false s)

-- The case of letters does not matter to a conversion of case: a text in capitals, in small letters
-- or with capitalized words gives the same capitals as the text itself, and a text in capitals the
-- same small letters.
pub upper_case-same :
    (s : Bytes)
    → (upper_case (lower_case s) ≡ upper_case s)
      × (upper_case (capitalize s) ≡ upper_case s)
      × (lower_case (upper_case s) ≡ lower_case s)
upper_case-same s =
    (upper-lower s, unfold capitalize in upper-capitalize_from false s, lower-upper s)

-- A character that may stand in the result of `to_url`.
abbrev pub IsPlain : ℕ → Type 0
IsPlain c = isspace c || isupper c ≡ false

-- `to_url` gives a text of the same length without white space and capitals, and leaves such a text
-- as it is.
pub to_url-IsPlain :
    (s : Bytes)
    → All IsPlain (to_url s) × (length (to_url s) ≡ length s) × (to_url (to_url s) ≡ to_url s)
unfolding to_url replace_spaces lower_case
to_url-IsPlain [] = (tt, refl, refl)
to_url-IsPlain (c ∷ s) =
    let (plain, same, again) = to_url-IsPlain s in
    ((ground arith, plain), ground (arith, same), ground (arith, again))
