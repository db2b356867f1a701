-- ===== src/Text/Split.antt =====
-- release/common/static_utils.h: split_string, to_tokens and to_items, over `strchr`.
pub mod Laws
pub mod Join
use robot_arm_2d.Prelude.{
  ℕ, zero, suc, List, [], ◌∷◌, Option, none, some, Bytes, length, ◌==◌, if◌then◌else◌,
}
use robot_arm_2d.Text.Trim.{skip_white, skip_to_white, to_white, trim, trim_string}

-- `strchr(s,c)`: the text before the first `c` and the text behind it.
unfoldable pub cut_at : ℕ → Bytes → Option (Bytes × Bytes)
cut_at c [] = none
cut_at c (x ∷ s) =
    if x == c
    then some ([], s)
    else elim (cut_at c s) [ none ↦ none | some (a, b) ↦ some (x ∷ a, b) ]

-- `name_token` and `accessor_token` where a character divides.
unfoldable pub split_at : Option (Bytes × Bytes) → Bytes → Bytes × Bytes
split_at none tmp = (tmp, [])
split_at (some (name, accessor)) tmp = (name, accessor)

-- The accessor is written only if something is left behind the spaces.
unfoldable pub write_rest : Bytes → Bytes → Bytes
write_rest [] accessor = accessor
write_rest (c ∷ s) accessor = c ∷ s

-- `name_token` and `accessor_token` where a space divides; `next` is where the name ends.
unfoldable pub split_white : Bytes → Bytes → Bytes → Bytes × Bytes
unfolding write_rest
split_white tmp [] accessor = (tmp, [])
split_white tmp (x ∷ next) accessor = (to_white tmp, write_rest (skip_white next) accessor)

-- `split_string(data,name_token,accessor_token,c)`; `accessor` is what `accessor_token` held.
unfoldable pub split_string : Bytes → Bytes → ℕ → Bytes × Bytes
unfolding split_at split_white
split_string text accessor c =
    let tmp = trim text in
    if c == 32 then split_white tmp (skip_to_white tmp) accessor else split_at (cut_at c tmp) tmp

-- `while ( token_str.size() ) { … }` of `to_items`; `none` means that the fuel ran out.
unfoldable pub items_loop : ℕ → Bytes → ℕ → Option (List Bytes)
items_loop fuel [] c = some []
items_loop zero (x ∷ s) c = none
items_loop (suc fuel) (x ∷ s) c =
    let pair = split_string (x ∷ s) (x ∷ s) c in
    elim (items_loop fuel pair.1 c) [ none ↦ none | some rest ↦ some (trim_string pair.0 ∷ rest) ]

-- A round takes at least one character, so the length is fuel enough.
unfoldable pub to_items : Bytes → ℕ → Option (List Bytes)
unfolding items_loop
to_items token_str c = items_loop (length token_str) token_str c

unfoldable pub to_tokens : Bytes → Option (List Bytes)
unfolding to_items
to_tokens token_str = to_items token_str b','
