-- ===== src/Console/Laws.antt =====
-- release/build/arm_2d.cpp: the command loop.
use robot_arm_2d.Console.{command_of, perform, command_loop}
use robot_arm_2d.Pattern.{deliver_all}
use robot_arm_2d.Console.Globals.{World}
use robot_arm_2d.Double.{Double}
use robot_arm_2d.Prelude.{ℕ, ◌≡◌, refl, List, [], ◌∷◌, none}
use robot_arm_2d.Scan.{Events}

module _ {ℓ} {D : Type ℓ} ⦃d : Double D⦄ where
  -- Behind the end of the typed words the loop does not end: no command is read, and the empty word
  -- does not quit.
  pub command_loop_endless :
      (fuel : ℕ) (rounds : List Events) (w : World D)
      → w.input ≡ []
      → command_loop fuel rounds w ≡ none
  unfolding command_loop perform command_of
  command_loop_endless fuel [] w e = refl
  command_loop_endless fuel (events ∷ rounds) w e =
      rw (e, command_loop)
        (command_loop_endless fuel rounds
          (record w { input = []; scene = deliver_all events w.scene }) refl)
