-- ===== src/StdMap/Tests.antt =====
-- The map's operations on a concrete map.
use robot_arm_2d.Prelude.{◌≡◌, refl, [], ◌∷◌, Bytes, codes}
use robot_arm_2d.StdMap.{StdMap, put, at}

abbrev two_keys : StdMap Bytes
two_keys = (codes "a", codes "1") ∷ (codes "c", codes "3") ∷ []

put_between :
    put (codes "b") (codes "2") two_keys
    ≡ (codes "a", codes "1") ∷ (codes "b", codes "2") ∷ (codes "c", codes "3") ∷ []
unfolding put
put_between = refl

missing_key :
    at (codes "b") (codes "0") two_keys ≡ (codes "0", put (codes "b") (codes "0") two_keys)
unfolding at
missing_key = refl
