-- ===== src/Console/Globals.antt =====
-- release/build/arm_2d.cpp: the globals of the program.
use robot_arm_2d.Aim.{Errors}
use robot_arm_2d.Console.Walk.{Line}
use robot_arm_2d.Motion.{Machine}
use robot_arm_2d.Prelude.{Bool, List, Bytes}
use robot_arm_2d.Scene.{Scene}

pub record World {ℓ} (D : Type ℓ) : Type ℓ where
  pub scene : Scene D
  pub machine : Machine D
  pub errors : Errors
  -- sg_reporting
  pub reporting : Bool
  -- sg_use_tcp_with_simulation
  pub tcp_with_simulation : Bool
  -- the line of `walk_a_line`
  pub line : Line D
  -- the words that are still to be read from the terminal
  pub input : List Bytes
