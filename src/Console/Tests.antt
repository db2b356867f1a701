-- ===== src/Console/Tests.antt =====
-- The commands on a simulation with two motors.
use robot_arm_2d.Aim.{no_error}
use robot_arm_2d.Arm.{default_size, new_arm}
use robot_arm_2d.Console.{cmd_spd, command_of, perform, command_loop}
use robot_arm_2d.Console.Globals.{World}
use robot_arm_2d.Console.Laws.{command_loop_endless}
use robot_arm_2d.Console.Total.{perform_total}
use robot_arm_2d.Console.Walk.{walk_a_line}
use robot_arm_2d.Console.WalkLaws.{move_along, stations, typed_line, walk_a_line-half}
use robot_arm_2d.Double.Naturals.{naturals}
use robot_arm_2d.Motion.{Machine}
use robot_arm_2d.Motor.{new_motor}
use robot_arm_2d.Prelude.{ℕ, ◌≡◌, refl, true, false, [], ◌∷◌, none, some, ◌>>=◌, codes, arith}
use robot_arm_2d.Prelude.Int.{pos}
use robot_arm_2d.Scan.Ready.{IsReady}
use robot_arm_2d.Startup.{no_stores}

abbrev machine : Machine ℕ
machine = record {
  use_simulations = true;
  motors = new_motor (pos 1) ∷ new_motor (pos 2) ∷ [];
  port = record { written = []; polls = [] };
  size = default_size;
  arm = new_arm default_size 0 (pos 0);
  current_x = 0;
  current_y = 0;
}

abbrev world : World ℕ
world = record {
  scene = no_stores [];
  machine = machine;
  errors = no_error;
  reporting = false;
  tcp_with_simulation = false;
  line = record { trials = 30; start_x = 0; delta_x = 0 };
  input = codes "R" ∷ codes "q" ∷ codes "R" ∷ [];
}

-- Two rounds: the reports are switched on, and then the program quits.
quits_in_second_round :
    command_loop 9 ([] ∷ [] ∷ [] ∷ []) world
    ≡ some (record world { reporting = true; input = codes "R" ∷ [] })
unfolding command_loop perform command_of
quits_in_second_round = refl

command_loop_endless_example : command_loop 9 ([] ∷ [] ∷ []) (record world { input = [] }) ≡ none
command_loop_endless_example =
    command_loop_endless 9 ([] ∷ [] ∷ []) (record world { input = [] }) refl

perform_total_example : (w' : World ℕ) × (perform 9 [] cmd_spd world ≡ some w') × IsReady w'.machine
perform_total_example = perform_total 9 [] cmd_spd world tt refl (omega arith)

walk_a_line-half_example : walk_a_line 9 (codes "1" ∷ codes "4" ∷ []) world.line machine ≡ (
    move_along 9 (stations 2 0 1 (typed_line (codes "1") (codes "4") world.line machine)) machine
    >>= λ m'. some (false, [], typed_line (codes "1") (codes "4") world.line machine, m'))
unfolding robot_arm_2d.Motion.move_by_command robot_arm_2d.Text.Decimal.atoi
    robot_arm_2d.Text.Trim.skip_white
walk_a_line-half_example = walk_a_line-half 9 (codes "1") (codes "4") [] world.line machine refl
