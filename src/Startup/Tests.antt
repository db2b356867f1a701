-- ===== src/Startup/Tests.antt =====
-- Indices of keys, and the start with a target whose source is no sensor.
use robot_arm_2d.Prelude.{ℕ, ◌≡◌, refl, false, [], ◌∷◌, Option, some, codes}
use robot_arm_2d.Double.Naturals.{naturals}
use robot_arm_2d.Motor.{ParameterSink}
use robot_arm_2d.Scene.{Scene}
use robot_arm_2d.Target.{Target, new_target}
use robot_arm_2d.Target.Specialize.{describe_target}
use robot_arm_2d.Startup.{define_target, index_of, can_start}
use robot_arm_2d.Startup.Laws.{define_target_unknown}
use robot_arm_2d.StdMap.{StdMap, at}

index_of_second : index_of (codes "(t)pattern[2]") ≡ 1
unfolding index_of robot_arm_2d.Text.Decimal.atoi robot_arm_2d.Text.Trim.skip_white
index_of_second = refl

abbrev one_sensor : StdMap (Option ℕ)
one_sensor = (codes "camera[1]", some 0) ∷ []

abbrev scene : Scene ℕ
scene = record {
  server_parameters = [];
  sensor_array = [];
  sensor_map = one_sensor;
  targets = [];
  storage = [];
  travel_map = [];
  target_map = [];
}

abbrev sink : ParameterSink
sink = record {
  short_command_list = [];
  parameters =
      (codes "fields", [])
      ∷ (codes "goal_offset", [])
      ∷ (codes "id", [])
      ∷ (codes "level", [])
      ∷ (codes "offset_total(x,y)", [])
      ∷ (codes "report_id", [])
      ∷ (codes "source", codes "o")
      ∷ [];
}

abbrev unknown : Target ℕ
unknown = record (new_target 0) { sink = sink; id = []; fields = some [] }

described : describe_target (codes "source:o") (new_target 0) ≡ some unknown
unfolding describe_target robot_arm_2d.Motor.set_descriptor robot_arm_2d.Text.Split.to_items
    robot_arm_2d.Text.Split.split_string robot_arm_2d.Text.Split.cut_at robot_arm_2d.Text.Trim.trim
    robot_arm_2d.Text.Split.to_tokens at new_target robot_arm_2d.Text.Trim.trim_string
    robot_arm_2d.Text.Decimal.atoi robot_arm_2d.Text.Find.before robot_arm_2d.Text.Find.behind
described = refl

define_target_unknown_example :
    (scene' : Scene ℕ) × (define_target 0 0 (codes "source:o") scene ≡ some scene')
    × (can_start scene'.sensor_map ≡ false)
unfolding robot_arm_2d.StdMap.find robot_arm_2d.Motor.parameter at
define_target_unknown_example =
    define_target_unknown 0 0 (codes "source:o") scene unknown described refl
