-- ===== src/Console.antt =====
-- release/build/arm_2d.cpp: the commands on the terminal, main and shutdown.
pub mod Words
pub mod Walk
pub mod WalkLaws
pub mod TargetTest
pub mod Demo
pub mod Globals
pub mod Initialize
pub mod Laws
pub mod Total
pub mod TestSound
pub mod Sound
mod Tests
mod Start
use robot_arm_2d.Console.Demo.{transformation_tests}
use robot_arm_2d.Console.Initialize.{Surroundings, initialize_all}
use robot_arm_2d.Console.TargetTest.{test_target_to_arm}
use robot_arm_2d.Console.Walk.{walk_a_line}
use robot_arm_2d.Console.Words.{read_word, first_char}
use robot_arm_2d.Console.Globals.{World}
use robot_arm_2d.Double.{Double}
use robot_arm_2d.Motion.{Machine, move_to_position, move_to_position_list}
use robot_arm_2d.Pattern.{
  deliver, deliver_all, move_to_pattern, move_relative_to_pattern, to_target,
}
use robot_arm_2d.Prelude.{
  ℕ, zero, suc, Bool, true, false, not, ◌&&◌, List, [], ◌∷◌, Option, none, some, ◌>>=◌, Bytes,
  codes, ◌==◌, if◌then◌else◌, equal,
}
use robot_arm_2d.Scan.{Events, act, wait_for_any_pattern, scan_for_pattern_with_directed_motion}
use robot_arm_2d.Scan.Sweep.{server_parameter, arm_to_home, scan_for_pattern_with_rotation_motion}
use robot_arm_2d.Scene.{Scene}

-- The commands, and any other word.
pub data Command : Type 0 where
  cmd_mp cmd_mr cmd_x cmd_mv cmd_ml cmd_wl cmd_r cmd_t cmd_s cmd_spd cmd_spr cmd_tt cmd_ta
        cmd_home :
      Command
  cmd_other : Command

-- The chain of comparisons.
unfoldable pub command_of : Bytes → Command
command_of command =
    if equal command (codes "MP")
    then cmd_mp
    else if equal command (codes "MR")
    then cmd_mr
    else if equal command (codes "X")
    then cmd_x
    else if equal command (codes "MV")
    then cmd_mv
    else if equal command (codes "ML")
    then cmd_ml
    else if equal command (codes "WL")
    then cmd_wl
    else if equal command (codes "R")
    then cmd_r
    else if equal command (codes "T")
    then cmd_t
    else if equal command (codes "S")
    then cmd_s
    else if equal command (codes "SPD")
    then cmd_spd
    else if equal command (codes "SPR")
    then cmd_spr
    else if equal command (codes "TT")
    then cmd_tt
    else if equal command (codes "TA")
    then cmd_ta
    else if equal command (codes "HOME")
    then cmd_home
    else cmd_other

-- `command[0] == 'q' || command[0] == 'Q'`
abbrev pub quits : Bytes → Bool
quits command = not (not (first_char command == b'q') && not (first_char command == b'Q'))

module _ {ℓ} {D : Type ℓ} ⦃d : Double D⦄ where
  -- `scan_for_pattern`: the motors jog until a target is matched. Behind the wait the program uses a
  -- pointer that no `return` sets, so there is no result.
  unfoldable pub scan_for_pattern : Events → Scene D → Machine D → Option (Scene D × Machine D)
  scan_for_pattern events scene m = act 0 (codes "scan_jog_action") m >>= λ m₁.
      (act 1 (codes "scan_jog_action") m₁ >>= λ m₂.
      (wait_for_any_pattern events (d.lit 0 0, d.lit 0 0) scene >>= λ seen. none))

  -- The reports of a command that does not look at the targets come in while it works.
  abbrev pub reported : Events → World D → World D
  reported events w = record w { scene = deliver_all events w.scene }

  -- `HOME` clears the matches first: the first of the reports come in before that.
  unfoldable pub go_home : ℕ → Events → World D → Option (World D)
  go_home fuel [] w =
      arm_to_home fuel w.scene w.machine >>= λ o. some (record w { scene = o.0; machine = o.1 })
  go_home fuel (reports ∷ events) w = arm_to_home fuel (deliver reports w.scene) w.machine >>= λ o.
      some (reported events (record w { scene = o.0; machine = o.1 }))

  -- What a command does; `events` are the reports that come in meanwhile: before its looks at the
  -- targets, or while it works if it has none. A place that is printed is left out.
  unfoldable pub perform : ℕ → Events → Command → World D → Option (World D)
  unfolding deliver_all go_home
  perform fuel events cmd_mp w =
      let pattern_id = read_word [] w.input in
      move_to_pattern fuel events pattern_id.0 w.scene w.machine >>= λ o.
      some (record w { scene = o.0; machine = o.1; input = pattern_id.1 })
  perform fuel events cmd_mr w =
      let pattern_id = read_word [] w.input in
      move_relative_to_pattern fuel events pattern_id.0 w.scene w.machine >>= λ o.
      some (record w { scene = o.0; machine = o.1; input = pattern_id.1 })
  perform fuel events cmd_x w = some (reported events w)
  perform fuel events cmd_mv w =
      let xy_pair = read_word [] w.input in
      move_to_position fuel xy_pair.0 w.machine >>= λ m.
      some (reported events (record w { machine = m; input = xy_pair.1 }))
  perform fuel events cmd_ml w =
      let positions = server_parameter (codes "TEST_POSITIONS") w.scene in
      move_to_position_list fuel positions.0 w.machine >>= λ m.
      some (reported events (record w { scene = positions.1; machine = m }))
  perform fuel events cmd_wl w = walk_a_line fuel w.input w.line w.machine >>= λ o.
      some (reported events (record w { input = o.1; line = o.2; machine = o.3 }))
  perform fuel events cmd_r w = some (reported events (record w { reporting = not w.reporting }))
  perform fuel events cmd_t w = to_target fuel w.scene w.machine >>= λ o.
      some (reported events (record w { scene = o.1; machine = o.2 }))
  perform fuel events cmd_s w = scan_for_pattern events w.scene w.machine >>= λ o.
      some (record w { scene = o.0; machine = o.1 })
  perform fuel events cmd_spd w =
      scan_for_pattern_with_directed_motion fuel events w.scene w.machine >>= λ hunt.
      some (reported hunt.events (record w { scene = hunt.scene; machine = hunt.machine }))
  perform fuel events cmd_spr w =
      scan_for_pattern_with_rotation_motion fuel events w.scene w.machine w.errors >>= λ o.
      some
        (reported o.0.events (record w { scene = o.0.scene; machine = o.0.machine; errors = o.1 }))
  perform fuel events cmd_tt w =
      let reports = transformation_tests {D = D} w.input in
      some (reported events (record w { input = reports.2 }))
  perform fuel events cmd_ta w =
      test_target_to_arm fuel events w.input w.scene w.machine w.errors >>= λ o.
      some (record w { input = o.0; scene = o.1; machine = o.2; errors = o.3 })
  perform fuel events cmd_home w = go_home fuel events w
  perform fuel events cmd_other w = some (reported events w)

  -- `do { … } while ( command[0] != 'q' && command[0] != 'Q' )`, with the reports that come in during
  -- each round. `none` means that the rounds are at their end, too.
  unfoldable pub command_loop : ℕ → List Events → World D → Option (World D)
  unfolding command_of
  command_loop fuel [] w = none
  command_loop fuel (events ∷ rounds) w =
      let command = read_word [] w.input in
      perform fuel events (command_of command.0) (record w { input = command.1 }) >>= λ w'.
      (let rest = command_loop fuel rounds w' in if quits command.0 then some w' else rest)

  -- `main` behind a start: one way to the targets where `run_mode` is `application`, else the commands.
  -- `application_cycle`, `issue_alerts` and `travel_home` do nothing, and `disengaged` is true.
  unfoldable pub run_program : ℕ → List Events → World D → Option (World D)
  unfolding command_loop
  run_program fuel rounds w =
      let run_option = server_parameter (codes "run_mode") w.scene in
      let begun : World D = record w { scene = run_option.1 } in
      if equal run_option.0 (codes "application")
      then (to_target fuel begun.scene begun.machine >>= λ o.
          some (record begun { scene = o.1; machine = o.2 }))
      else command_loop fuel rounds begun

  -- `main`; `shutdown` closes the port.
  unfoldable pub main : ℕ → List Events → Surroundings D → Option (World D)
  main fuel rounds around = initialize_all around >>= run_program fuel rounds
