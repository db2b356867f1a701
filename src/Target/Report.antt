-- ===== src/Target/Report.antt =====
-- release/build/arm_2d.cpp: how data_test takes a report apart.
pub mod Texts
use robot_arm_2d.Prelude.{
  ℕ, zero, suc, Bool, true, false, List, [], ◌∷◌, Option, none, some, ◌>>=◌, ◌&&◌, Bytes, codes,
  take, ◌==◌, if◌then◌else◌,
}
use robot_arm_2d.Text.Find.{behind}
use robot_arm_2d.Text.Split.{cut_at}

-- A value that is empty means that the target is gone.
abbrev pub is_value : Bytes → Bool
is_value [] = false
is_value (c ∷ s) = true

-- `(tmp[0] == ',') && (tmp[1] == ',')` somewhere in the text.
unfoldable pub has_gap : Bytes → Bool
has_gap [] = false
has_gap (a ∷ []) = false
has_gap (a ∷ b ∷ s) =
    let rest = has_gap (b ∷ s) in if (a == b',') && (b == b',') then true else rest

-- `data.find(c)`; `none` is `npos`.
unfoldable pub index_of_char : ℕ → Bytes → Option ℕ
index_of_char c [] = none
index_of_char c (x ∷ s) =
    if x == c then some 0 else elim (index_of_char c s) [ none ↦ none | some i ↦ some (suc i) ]

-- `s.substr(0,end-1)`: for `npos`, and for 0, all of the text.
unfoldable pub take_before : Option ℕ → Bytes → Bytes
take_before none s = s
take_before (some zero) s = s
take_before (some (suc i)) s = take i s

-- `data.substr(data.find('(')+1,data.find(')')-1)`
unfoldable pub point_text : Bytes → Bytes
unfolding take_before index_of_char
point_text text = take_before (index_of_char b')' text) (behind b'(' text)

-- What stands behind the comma that was found; all of the text, if none was.
abbrev pub rest_of : Bytes → Option (Bytes × Bytes) → Bytes
rest_of text none = text
rest_of text (some (a, b)) = b

-- `data.substr( data.find(",", data.find(",") + 1) + 1)`: where a comma is missing, all of it.
unfoldable pub behind_point : Bytes → Bytes
behind_point text = rest_of text (cut_at b',' text >>= λ p. cut_at b',' p.1)

-- `sg_set_of_possible_measurements_keys`
abbrev pub possible_measurements_keys : List Bytes
possible_measurements_keys =
    codes "x"
    ∷ codes "y"
    ∷ codes "angle"
    ∷ codes "center_x"
    ∷ codes "center_y"
    ∷ codes "radius"
    ∷ codes "theta"
    ∷ []
