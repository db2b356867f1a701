-- ===== src/Aim/Tests.antt =====
-- target_to_arm and target_to_arm_quiet with one target and its sensor.
use robot_arm_2d.Aim.{no_error, target_to_arm, target_to_arm_quiet}
use robot_arm_2d.Aim.Laws.{silent, target_to_arm-quiet}
use robot_arm_2d.Arm.{default_size, new_arm}
use robot_arm_2d.Double.Naturals.{naturals}
use robot_arm_2d.Motion.{Machine}
use robot_arm_2d.Prelude.{ℕ, ◌≡◌, refl, true, [], ◌∷◌, some, ◌>>=◌, codes}
use robot_arm_2d.Prelude.Int.{pos}
use robot_arm_2d.Scene.{Scene}
use robot_arm_2d.Sensor.{new_sensor}
use robot_arm_2d.Target.{new_target}

abbrev scene : Scene ℕ
scene = record {
  server_parameters = [];
  sensor_array = record (new_sensor 0) { scale_x = 1; scale_y = 1 } ∷ [];
  sensor_map = [];
  targets = record (new_target 0) { sensor = some 0; fov_x = 3; goal_y = 2 } ∷ [];
  storage = 0 ∷ [];
  travel_map = (codes "Q", some 0) ∷ [];
  target_map = [];
}

abbrev machine : Machine ℕ
machine = record {
  use_simulations = true;
  motors = [];
  port = record { written = []; polls = [] };
  size = default_size;
  arm = new_arm default_size 0 (pos 0);
  current_x = 5;
  current_y = 6;
}

place_is_there :
    (p : ℕ × ℕ) × (target_to_arm_quiet (codes "Q") (0, 0) scene machine no_error
      ≡ some (p, no_error, scene))
unfolding target_to_arm_quiet robot_arm_2d.StdMap.at
place_is_there = (_, refl)

target_to_arm-quiet_example :
    (target_to_arm true (codes "Q") (0, 0) scene machine no_error >>= λ aimed. some (silent aimed))
    ≡ target_to_arm_quiet (codes "Q") (0, 0) scene machine no_error
target_to_arm-quiet_example = target_to_arm-quiet true (codes "Q") (0, 0) scene machine no_error
