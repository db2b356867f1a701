-- ===== src/Text/Implode.antt =====
-- release/common/static_utils.h: accum_string, implode and its variants, v_concat and nullop.
pub mod Laws
use robot_arm_2d.Prelude.{
  ℕ, zero, suc, Bool, List, [], ◌∷◌, ◌++◌, map, Option, none, some, ◌>>=◌, Bytes, drop,
  if◌then◌else◌,
}

module _ {ℓ} {A : Type ℓ} where
  -- `accop(pi)`: the text so far, the separator and the text of the element.
  unfoldable pub accum_string : Bytes → (A → Bytes) → Bytes → A → Bytes
  accum_string sep op accumlator pi = accumlator ++ (sep ++ op pi)

  -- `for_each(olist.begin(),olist.end(),accop)`
  unfoldable pub for_each : Bytes → (A → Bytes) → Bytes → List A → Bytes
  unfolding accum_string
  for_each sep op accumlator [] = accumlator
  for_each sep op accumlator (pi ∷ olist) =
      for_each sep op (accum_string sep op accumlator pi) olist

  -- The five functions `implode` differ in the container alone. `str.substr(1)` takes away a single
  -- character.
  unfoldable pub implode : Bytes → List A → (A → Bytes) → Bool → Bytes
  unfolding for_each
  implode seperator olist op no_front_sep =
      let str = for_each seperator op [] olist in if no_front_sep then drop 1 str else str

  -- The values of the map in the order of its keys.
  unfoldable pub map_implode {κ} : {I : Type κ} → Bytes → List (I × A) → (A → Bytes) → Bool → Bytes
  unfolding implode
  map_implode seperator omap op no_front_sep =
      implode seperator (map (λ (pi : _ × A). pi.1) omap) op no_front_sep

unfoldable pub nullop : Bytes → Bytes
nullop s = s

-- `(*sv)[i]` from the front up to `depth`, which is 0 or more, each with the character behind it; `none` is a read past
-- the end.
unfoldable pub concat_loop : List Bytes → ℕ → ℕ → Option Bytes
concat_loop [] c n = none
concat_loop (s ∷ sv) c zero = some (s ++ c ∷ [])
concat_loop (s ∷ sv) c (suc n) = concat_loop sv c n >>= λ rest. some (s ++ c ∷ rest)

unfoldable pub v_concat : List Bytes → ℕ → ℕ → Option Bytes
unfolding concat_loop
v_concat [] c depth = some []
v_concat (s ∷ sv) c depth = concat_loop (s ∷ sv) c depth
