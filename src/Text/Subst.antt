-- ===== src/Text/Subst.antt =====
-- release/common/static_utils.h: subst, over `std::string::find` and `replace`.
pub mod Laws
use robot_arm_2d.Prelude.{
  ℕ, zero, suc, Bool, true, false, ◌&&◌, [], ◌∷◌, ◌++◌, Option, none, some, Bytes, length, drop,
  ◌==◌,
}

unfoldable pub starts_with : Bytes → Bytes → Bool
starts_with [] s = true
starts_with (k ∷ key) [] = false
starts_with (k ∷ key) (c ∷ s) = (k == c) && starts_with key s

-- `find`: the text before the first place where the key stands, and the text behind the key.
unfoldable pub find_in : Bytes → Bytes → Option (Bytes × Bytes)
unfolding starts_with
find_in [] s = some ([], s)
find_in (k ∷ key) [] = none
find_in (k ∷ key) (c ∷ s) = elim (starts_with (k ∷ key) (c ∷ s)) [
  | true ↦ some ([], drop (length key) s)
  | false ↦ elim (find_in (k ∷ key) s) [ none ↦ none | some (a, b) ↦ some (c ∷ a, b) ]
]

-- `while ( where >= 0 ) { … }`: `form` is `done ++ rest`, and `prev_where` stands between the two.
-- A round writes the value for the key and goes on behind it; `none` means that the fuel ran out.
unfoldable pub subst_loop : ℕ → Bytes → Bytes → Bytes → Bytes → Option Bytes
subst_loop zero key value done rest = none
subst_loop (suc fuel) key value done rest = elim (find_in key rest) [
  | none ↦ some (done ++ rest)
  | some (a, b) ↦ subst_loop fuel key value (done ++ (a ++ value)) b
]

unfoldable pub subst : Bytes → Bytes → Bytes → Option Bytes
unfolding subst_loop find_in
subst key value form = subst_loop (suc (length form)) key value [] form
