-- ===== src/Scan/Tests.antt =====
-- The scans and the way home in a simulation with two motors.
use robot_arm_2d.Arm.{default_size, new_arm}
use robot_arm_2d.Double.Naturals.{naturals}
use robot_arm_2d.Motion.{Machine}
use robot_arm_2d.Motor.{new_motor}
use robot_arm_2d.Prelude.{ℕ, ◌≡◌, refl, true, [], ◌∷◌, some, arith}
use robot_arm_2d.Prelude.Int.{pos, negsuc, pos_part}
use robot_arm_2d.Scan.{
  Hunt, half_turn, edge_count, go_to_match, scan_for_pattern_with_directed_motion,
}
use robot_arm_2d.Scan.Directed.{IsBlind, blind, radii, edge_rounds, scan_directed_total}
use robot_arm_2d.Scan.Home.{IsUnmatched, arm_to_home_total}
use robot_arm_2d.Scan.Ready.{IsReady}
use robot_arm_2d.Scan.Sweep.{quotient, arm_to_home}
use robot_arm_2d.Scene.{Scene}
use robot_arm_2d.Target.{new_target}

quotient_to_zero : quotient (negsuc 6) (pos 2) ≡ some (negsuc 2)
unfolding quotient
quotient_to_zero = refl

abbrev scene : Scene ℕ
scene = record {
  server_parameters = [];
  sensor_array = [];
  sensor_map = [];
  targets = record (new_target 0) { target_present = true } ∷ [];
  storage = 0 ∷ [];
  travel_map = [];
  target_map = [];
}

abbrev machine : Machine ℕ
machine = record {
  use_simulations = true;
  motors = new_motor (pos 1) ∷ new_motor (pos 2) ∷ [];
  port = record { written = []; polls = [] };
  size = default_size;
  arm = new_arm default_size 0 (pos 0);
  current_x = 0;
  current_y = 0;
}

scan_directed_total_example :
    (edge : Machine ℕ) × (hunt : Hunt ℕ) × (edge_rounds 9
        (half_turn machine)
        (radii machine.arm.start_radius (pos_part (edge_count machine)))
        machine
      ≡ some edge)
    × (go_to_match 9 (blind [] scene edge) ≡ some hunt)
    × (scan_for_pattern_with_directed_motion 9 [] scene machine ≡ some hunt)
    × IsBlind [] scene hunt
scan_directed_total_example = scan_directed_total 9 [] scene machine refl (omega arith)

arm_to_home_total_example :
    (r : Scene ℕ × Machine ℕ) × (arm_to_home 9 scene machine ≡ some r)
    × IsUnmatched 0 0 r.0
    × IsReady r.1
arm_to_home_total_example =
    arm_to_home_total 9 0 0 scene machine refl (omega arith) (omega arith, tt)
