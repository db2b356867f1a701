-- ===== src/Motor/Commands/Tests.antt =====
-- A queue of two commands on a line that answers, and a command in a simulation.
use robot_arm_2d.Motor.{MotorDriver, is_quit}
use robot_arm_2d.Motor.Commands.{
  CommandTest, get_next_com, sink_drive_response, run_motor_command_list, run_commands,
}
use robot_arm_2d.Motor.Commands.Laws.{Sends, run_motor_command_list-Sends, run_commands-simulated}
use robot_arm_2d.Motor.Serial.{Port}
use robot_arm_2d.Prelude.{
  ◌≡◌, refl, Bool, true, false, [], ◌∷◌, none, some, codes, if◌then◌else◌, ◌&&◌, not,
}

abbrev motor : MotorDriver Bool
motor = record {
  sink = record { short_command_list = codes "1SC" ∷ codes "2SC" ∷ []; parameters = [] };
  index_str = codes "1";
  response = [];
  checking_status = true;
  checking_position = false;
  reported_steps = [];
  gear_ratio = true;
}

abbrev line : Port
line = record { written = []; polls = some b'o' ∷ some b'\r' ∷ [] }

abbrev typing : CommandTest
typing = record {
  short_commands = [];
  parse_results = false;
  save_last_parameter_request = [];
  metrics_acquired = false;
  typed = codes "{" ∷ codes "A" ∷ codes "}" ∷ codes "EG" ∷ [];
}

braces_fill_queue :
    get_next_com typing
    ≡ some (
      codes "n",
      true,
      record typing { short_commands = codes "A" ∷ []; typed = codes "EG" ∷ [] },
    )
unfolding get_next_com
braces_fill_queue = refl

metrics_are_acquired :
    (sink_drive_response (codes "1EG=5") (record typing {
      parse_results = true;
      save_last_parameter_request = codes "EG";
    })).metrics_acquired
    ≡ true
unfolding sink_drive_response
metrics_are_acquired = refl

run_motor_command_list-Sends_example : Sends motor line (run_motor_command_list motor line)
run_motor_command_list-Sends_example = run_motor_command_list-Sends motor line

run_commands-simulated_example : run_commands 10 true (codes "1SC" ∷ []) true typing line ≡ (
    if true && not (is_quit (codes "1SC"))
    then none
    else some ([], true && not (is_quit (codes "1SC")), typing, line))
run_commands-simulated_example = run_commands-simulated 9 (codes "1SC") [] true typing line
