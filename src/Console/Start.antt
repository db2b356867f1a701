-- ===== src/Console/Start.antt =====
-- A start without a parameter file on an open port, and one command.
use robot_arm_2d.Console.{perform, command_of}
use robot_arm_2d.Console.Globals.{World}
use robot_arm_2d.Console.Initialize.{Surroundings, initialize_all}
use robot_arm_2d.Console.Words.{read_word}
use robot_arm_2d.Console.Sound.{started, performed, Running-IsSound}
use robot_arm_2d.Double.Naturals.{naturals}
use robot_arm_2d.Prelude.{ℕ, ◌≡◌, refl, [], ◌∷◌, none, some, codes}
use robot_arm_2d.Prelude.Int.{pos}
use robot_arm_2d.Scene.Pointers.{IsSound}

abbrev around : Surroundings ℕ
around = record {
  file = none;
  port = some (record { written = []; polls = [] });
  junk = 0;
  junk_steps = pos 0;
  typed = codes "R" ∷ [];
}

begun : (w : World ℕ) × (initialize_all around ≡ some w) × (w.input ≡ codes "R" ∷ [])
unfolding initialize_all robot_arm_2d.Config.read_parameters robot_arm_2d.StdMap.at
    robot_arm_2d.Startup.init_motor_descriptions robot_arm_2d.Startup.describe_motors
    robot_arm_2d.Text.Subst.starts_with robot_arm_2d.Startup.process_motors
    robot_arm_2d.Startup.init_sensor_descriptions robot_arm_2d.Text.Decimal.atoi
    robot_arm_2d.Text.Trim.skip_white
begun = (_, refl, refl)

switched :
    (w : World ℕ)
    → w.input ≡ codes "R" ∷ []
    → (w' : World ℕ) × (perform 9 []
          (command_of (read_word [] w.input).0)
          (record w { input = (read_word [] w.input).1 })
        ≡ some w')
unfolding perform command_of
switched w e = rw e (_, refl)

Running-IsSound_example : IsSound (switched begun.0 begun.2).0.scene
Running-IsSound_example =
    Running-IsSound (performed 9 [] (started begun.1) (switched begun.0 begun.2).1)
