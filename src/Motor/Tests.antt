-- ===== src/Motor/Tests.antt =====
-- arm_configuration.h and serialback.xpp: a motor with a stored sequence, on a line that answers.
use robot_arm_2d.Motor.{
  MotorDriver, ParameterSink, run_lines, run_action, add_parameter, has_parameters, parameter,
  set_descriptor,
}
use robot_arm_2d.Motor.Queue.{run_lines-Runs, run_action-Runs}
use robot_arm_2d.Motor.Sink.{definition_of, IsDefinition, put_all, set_descriptor-definitions}
use robot_arm_2d.Motor.Serial.{Port, carriage_return}
use robot_arm_2d.Motor.Transcript.{Runs}
use robot_arm_2d.Prelude.{
  ◌≡◌, refl, Bool, true, false, List, [], ◌∷◌, map, some, Option, none, Bytes, codes, All, arith,
  if◌then◌else◌,
}
use robot_arm_2d.Text.Split.Join.{join}
use robot_arm_2d.Text.Split.Laws.{IsItem}

abbrev motor : List Bytes → MotorDriver Bool
motor queue = record {
  sink = record { short_command_list = queue; parameters = (codes "s", codes "A;B") ∷ [] };
  index_str = codes "1";
  response = [];
  checking_status = true;
  checking_position = false;
  reported_steps = [];
  gear_ratio = true;
}

abbrev line : Port
line = record { written = []; polls = some b'o' ∷ some b'\r' ∷ [] }

abbrev written : Option (MotorDriver Bool × Port) → List Bytes
written none = []
written (some (md, port)) = port.written

run_one :
    written (run_lines false (motor (codes "qA" ∷ [])) line) ≡ codes "qA" ∷ carriage_return ∷ []
unfolding run_lines robot_arm_2d.Motor.run_commands2 robot_arm_2d.Motor.Serial.command
run_one = refl

run_lines-Runs_example :
    Runs
      (codes "qA" ∷ codes "B" ∷ [])
      (motor (codes "qA" ∷ codes "B" ∷ []))
      line
      (run_lines false (motor (codes "qA" ∷ codes "B" ∷ [])) line)
run_lines-Runs_example = run_lines-Runs (motor (codes "qA" ∷ codes "B" ∷ [])) line

abbrev stored : List Bytes
stored = codes "A" ∷ codes "B" ∷ []

stored-All : All (IsItem b';') stored
stored-All = (((refl, refl), (omega arith, tt)), (((refl, refl), (omega arith, tt)), tt))

run_action-Runs_example :
    Runs
      (codes "1A" ∷ codes "1B" ∷ [])
      (motor [])
      line
      (run_action false (codes "s") (motor []) line)
unfolding robot_arm_2d.StdMap.find
run_action-Runs_example =
    run_action-Runs stored (codes "s") (motor []) line refl stored-All (cc) refl

abbrev stored_sink : ParameterSink
stored_sink = record { short_command_list = []; parameters = (codes "s", codes "A;B") ∷ [] }

abbrev definitions : List (Bytes × Bytes)
definitions = (codes "p", codes "1") ∷ (codes "q", codes "a b") ∷ []

definitions-All : All IsDefinition definitions
definitions-All = (
  (
    (((refl, refl), (omega arith, tt)), (cc), (omega arith, tt), refl),
    (refl, refl),
    ((refl, refl), (omega arith, (omega arith, (omega arith, tt)))),
  ),
  (
    (
      (((refl, refl), (omega arith, tt)), (cc), (omega arith, tt), refl),
      (refl, refl),
      ((refl, refl), (omega arith, (omega arith, (omega arith, (omega arith, (omega arith, tt)))))),
    ),
    tt,
  ),
)

-- A class whose `specialization` adds a parameter where one is missing.
abbrev specialize : ParameterSink → Option ParameterSink
specialize sink =
    some
      (if has_parameters (codes "r") sink then sink else add_parameter (codes "r") (codes "0") sink)

set_descriptor-definitions_example :
    set_descriptor specialize (join b';' (map definition_of definitions)) stored_sink
    ≡ specialize (record stored_sink { parameters = put_all definitions stored_sink.parameters })
set_descriptor-definitions_example =
    set_descriptor-definitions specialize definitions stored_sink definitions-All
