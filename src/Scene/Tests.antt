-- ===== src/Scene/Tests.antt =====
-- point_in_time_best_match on a storage that holds one target twice.
use robot_arm_2d.Double.Naturals.{naturals, naturals-IsStrict}
use robot_arm_2d.Prelude.{ℕ, ◌≡◌, ◌⊎◌, refl, true, [], ◌∷◌, Option, none, some, arith}
use robot_arm_2d.Scene.{Scene, point_in_time_best_match}
use robot_arm_2d.Scene.Match.{IsLeast, IsFound, point_in_time_best_match-IsBest}
use robot_arm_2d.Scene.Round.{IsIn, IsPresent}
use robot_arm_2d.Target.{Target, new_target, set_test_measurements}

abbrev seen : ℕ → Target ℕ
seen match = record (set_test_measurements 3 4 0 match (new_target 0)) { target_present = true }

abbrev scene : Scene ℕ
scene = record {
  server_parameters = [];
  sensor_array = [];
  sensor_map = [];
  targets = seen 5 ∷ seen 9 ∷ [];
  storage = 0 ∷ 0 ∷ 1 ∷ [];
  travel_map = [];
  target_map = [];
}

abbrev best_of : Option (Option ℕ × (ℕ × ℕ) × Scene ℕ) → Option ℕ
best_of none = none
best_of (some o) = o.0

second_is_best : best_of (point_in_time_best_match 0 0 scene) ≡ some 1
unfolding point_in_time_best_match set_test_measurements
second_is_best = refl

point_in_time_best_match-IsBest_example :
    (best : Option ℕ) × (place : ℕ × ℕ) × (scene' : Scene ℕ) × (point_in_time_best_match 0 0 scene
      ≡ some (best, place, scene'))
    × ((percent : ℕ) × IsLeast scene.storage scene.targets percent
        × (((percent ≡ naturals.lit 0 0) × (best ≡ none))
            ⊎ IsFound scene.storage scene.targets (naturals.lit 0 0) percent best))
    × ((r : ℕ) (t : Target ℕ) → IsIn r scene.storage → IsPresent scene'.targets r t → ⊥)
point_in_time_best_match-IsBest_example =
    point_in_time_best_match-IsBest 0 0 scene (omega arith, (omega arith, (omega arith, tt)))
