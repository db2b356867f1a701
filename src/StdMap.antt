-- ===== src/StdMap.antt =====
-- `std::map<string,V>`: the entries in ascending order of the keys.
pub mod Laws
mod Tests
use robot_arm_2d.Prelude.{
  ℕ, Bool, true, false, ◌&&◌, ◌||◌, List, [], ◌∷◌, Option, none, some, Bytes, ltb, ◌==◌,
  if◌then◌else◌, equal,
}

-- The order of the keys, `std::string`'s `<`.
abbrev pub less : Bytes → Bytes → Bool
less [] [] = false
less [] (y ∷ b) = true
less (x ∷ a) [] = false
less (x ∷ a) (y ∷ b) = ltb x y || ((x == y) && less a b)

abbrev pub StdMap {ℓ} : Type ℓ → Type ℓ
StdMap V = List (Bytes × V)

module _ {ℓ} {V : Type ℓ} where
  unfoldable pub find : Bytes → StdMap V → Option V
  find k [] = none
  find k ((j, v) ∷ m) = if equal j k then some v else find k m

  -- `m[k] = v`
  unfoldable pub put : Bytes → V → StdMap V → StdMap V
  put k v [] = (k, v) ∷ []
  put k v ((j, w) ∷ m) =
      if equal j k then (k, v) ∷ m else if less k j then (k, v) ∷ (j, w) ∷ m else (j, w) ∷ put k v m

  -- `m[k]` where it is read: a key that is missing gets the default value, and stays in the map.
  unfoldable pub at : Bytes → V → StdMap V → V × StdMap V
  unfolding find put
  at k d m = elim (find k m) [ none ↦ (d, put k d m) | some v ↦ (v, m) ]
