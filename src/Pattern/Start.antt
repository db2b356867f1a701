-- ===== src/Pattern/Start.antt =====
-- A start with one sensor and one target, and some steps after it.
use robot_arm_2d.Config.{Params}
use robot_arm_2d.Double.Naturals.{naturals}
use robot_arm_2d.Pattern.Reach.{Reach, started, later, report_comes, targets_cleared, Reach-IsSound}
use robot_arm_2d.Prelude.{ℕ, ◌≡◌, refl, [], ◌∷◌, Option, none, some, codes}
use robot_arm_2d.Scene.{Scene, clear_targets, emit_to_target}
use robot_arm_2d.Scene.Pointers.{IsSound}
use robot_arm_2d.Startup.{no_stores, init_sensor_descriptions}
use robot_arm_2d.Target.{Target}

abbrev params : Params
params =
    (codes "(s)cam", codes "fov_w:4")
    ∷ (codes "(t)define[1]", codes "id:g;source:cam;report_id:r;fields:r")
    ∷ (codes "SENSOR_COUNT", codes "1")
    ∷ []

abbrev or_empty : Option (Scene ℕ) → Scene ℕ
or_empty none = no_stores []
or_empty (some scene) = scene

abbrev begun : Scene ℕ
begun = or_empty (init_sensor_descriptions 0 [] [] (no_stores params))

begun_is_there : init_sensor_descriptions 0 [] [] (no_stores params) ≡ some begun
unfolding init_sensor_descriptions robot_arm_2d.StdMap.at robot_arm_2d.Text.Subst.starts_with
    robot_arm_2d.Text.Decimal.atoi robot_arm_2d.Text.Trim.skip_white robot_arm_2d.Startup.index_of
    robot_arm_2d.Sensor.describe_sensor robot_arm_2d.Motor.set_descriptor
    robot_arm_2d.Text.Split.to_items robot_arm_2d.Text.Split.split_string
    robot_arm_2d.Text.Trim.trim robot_arm_2d.Startup.define_target
    robot_arm_2d.Target.Specialize.describe_target robot_arm_2d.Text.Split.to_tokens
    robot_arm_2d.Target.new_target robot_arm_2d.Text.Trim.trim_string
    robot_arm_2d.Startup.enter_target
begun_is_there = refl

abbrev seen : Scene ℕ
seen = emit_to_target (codes "r") (codes "") begun

reached : Reach params (clear_targets seen)
reached =
    later (later (started 0 [] [] begun_is_there) (report_comes (codes "r") (codes "")))
      targets_cleared

Reach-IsSound_example : IsSound (clear_targets seen)
Reach-IsSound_example = Reach-IsSound reached
