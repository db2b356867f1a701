-- ===== src/Motion/Tests.antt =====
-- A machine with two motors in a simulation.
use robot_arm_2d.Arm.{default_size, new_arm, set_target}
use robot_arm_2d.Double.Naturals.{naturals}
use robot_arm_2d.Motion.{Machine, put_motor, step_n_motion, move_by_command}
use robot_arm_2d.Motion.Laws.{step_n_motion_total, move_by_command_simulated}
use robot_arm_2d.Motor.{MotorDriver, new_motor}
use robot_arm_2d.Motor.Serial.{Port}
use robot_arm_2d.Prelude.{ℕ, ◌≡◌, refl, true, [], ◌∷◌, some}
use robot_arm_2d.Prelude.Int.{pos}

abbrev machine : Machine ℕ
machine = record {
  use_simulations = true;
  motors = new_motor (pos 1) ∷ new_motor (pos 2) ∷ [];
  port = record { written = []; polls = [] };
  size = default_size;
  arm = new_arm default_size 0 (pos 0);
  current_x = 0;
  current_y = 0;
}

step_n_motion_total_example :
    (r : MotorDriver ℕ × Port) × (step_n_motion 2 (pos 5) machine ≡ some (put_motor 1 machine r))
step_n_motion_total_example = step_n_motion_total 2 (pos 5) machine (new_motor (pos 2)) refl

move_by_command_simulated_example :
    (m' : Machine ℕ) × (move_by_command 0 3 4 machine ≡ some m')
    × (m'.arm ≡ set_target machine.size 3 4 machine.arm)
    × (m'.current_x ≡ 3)
    × (m'.current_y ≡ 4)
move_by_command_simulated_example =
    move_by_command_simulated 0 3 4 machine (new_motor (pos 1)) (new_motor (pos 2)) refl refl refl
