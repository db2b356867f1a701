-- ===== src/Pattern/Tests.antt =====
-- to_target with a goal.
use robot_arm_2d.Arm.{default_size, new_arm}
use robot_arm_2d.Double.Naturals.{naturals}
use robot_arm_2d.Motion.{Machine}
use robot_arm_2d.Pattern.{to_target}
use robot_arm_2d.Pattern.Laws.{to_target_endless}
use robot_arm_2d.Motor.{new_motor}
use robot_arm_2d.Prelude.{ℕ, ◌≡◌, refl, true, [], ◌∷◌, none, some, codes}
use robot_arm_2d.Prelude.Int.{pos}
use robot_arm_2d.Scene.{Scene, goal_setup}
use robot_arm_2d.Target.{new_target}

abbrev scene : Scene ℕ
scene = record {
  server_parameters = [];
  sensor_array = [];
  sensor_map = [];
  targets = record (new_target 0) { id = codes "goal" } ∷ [];
  storage = 0 ∷ [];
  travel_map = [];
  target_map = [];
}

abbrev machine : Machine ℕ
machine = record {
  use_simulations = true;
  motors = new_motor (pos 1) ∷ new_motor (pos 2) ∷ [];
  port = record { written = []; polls = [] };
  size = default_size;
  arm = new_arm default_size 0 (pos 0);
  current_x = 0;
  current_y = 0;
}

goal_is_there : goal_setup scene ≡ some (some 0)
unfolding goal_setup
goal_is_there = refl

to_target_endless_example : to_target 100 scene machine ≡ none
to_target_endless_example = to_target_endless 100 0 scene machine goal_is_there
