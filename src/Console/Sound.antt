-- ===== src/Console/Sound.antt =====
-- release/build/arm_2d.cpp: the commands, main, and the pointers of the stores.
use robot_arm_2d.Console.{
  Command, cmd_mp, cmd_mr, cmd_x, cmd_mv, cmd_ml, cmd_wl, cmd_r, cmd_t, cmd_s, cmd_spd, cmd_spr,
  cmd_tt, cmd_ta, cmd_home, cmd_other, command_of, scan_for_pattern, go_home, perform,
}
use robot_arm_2d.Console.Globals.{World}
use robot_arm_2d.Console.Initialize.{
  Surroundings, read_key, simulation_of, motor_driver_port_initialization, size_of, initialize_all,
}
use robot_arm_2d.Console.TargetTest.{test_target_to_arm}
use robot_arm_2d.Console.TestSound.{IsSoundTest, test_target_to_arm-IsSound}
use robot_arm_2d.Console.Walk.{walk_a_line}
use robot_arm_2d.Console.Words.{read_word}
use robot_arm_2d.Arm.{
  new_arm, set_mininum_radius, canister_current_steps_str, elbow_current_steps_str,
}
use robot_arm_2d.Config.{read_parameters}
use robot_arm_2d.Double.{Double}
use robot_arm_2d.Motion.{Machine, move_to_position, move_to_position_list}
use robot_arm_2d.Pattern.{
  deliver, deliver_all, to_target, move_to_pattern, move_relative_to_pattern,
}
use robot_arm_2d.Pattern.Laws.{to_target_endless}
use robot_arm_2d.Pattern.Pointers.{
  deliver-IsSound, deliver_all-IsSound, move_to_pattern-IsSound, move_relative_to_pattern-IsSound,
}
use robot_arm_2d.Prelude.{ℕ, ◌≡◌, inl, inr, true, [], ◌∷◌, none, some, codes, Option-cases}
use robot_arm_2d.Prelude.Results.{Holds, Holds-bind, Holds-then, Holds-some}
use robot_arm_2d.Scan.{Events, wait_for_any_pattern, act, scan_for_pattern_with_directed_motion}
use robot_arm_2d.Scan.Sound.{scan_rotation-IsSound, arm_to_home-IsSound, server_parameter-IsSound}
use robot_arm_2d.Scan.Sound.Steps.{IsSoundHunt, scan_directed-IsSound}
use robot_arm_2d.Scan.Sweep.{server_parameter, arm_to_home, scan_for_pattern_with_rotation_motion}
use robot_arm_2d.Scene.{Scene, goal_setup}
use robot_arm_2d.Scene.Pointers.{IsSound}
use robot_arm_2d.Startup.{no_stores, init_motor_descriptions, init_sensor_descriptions}
use robot_arm_2d.Startup.Pointers.{init_sensor_descriptions-IsSound}

module _ {ℓ} {D : Type ℓ} ⦃d : Double D⦄ where
  to_target-IsSound :
      (fuel : ℕ) (scene : Scene D) (m : Machine D)
      → IsSound scene
      → Holds (λ o. IsSound o.1) (to_target fuel scene m)
  to_target-IsSound fuel scene m h = elim (Option-cases (goal_setup scene)) [
    | inl e ↦ unfold to_target in rw (e, to_target) tt
    | inr (none, e) ↦ unfold to_target in rw (e, to_target) h
    | inr (some goal, e) ↦ rw (to_target_endless fuel goal scene m e) tt
  ]

  -- The stores of the program.
  abbrev pub IsSoundWorld : World D → Type 0
  IsSoundWorld w = IsSound w.scene

  scan_for_pattern-IsSound :
      (events : Events) (scene : Scene D) (m : Machine D)
      → Holds (λ o. IsSound o.0) (scan_for_pattern events scene m)
  scan_for_pattern-IsSound events scene m =
      unfold scan_for_pattern in
      (let P : Scene D × Machine D → Type 0 = λ o. IsSound o.0 in
        Holds-then P (act 0 (codes "scan_jog_action") m) _ (λ m₁.
          Holds-then P (act 1 (codes "scan_jog_action") m₁) _ (λ m₂.
            Holds-then P (wait_for_any_pattern events (d.lit 0 0, d.lit 0 0) scene) _
              (λ seen. tt))))

  go_home-IsSound :
      (fuel : ℕ) (events : Events) (w : World D)
      → IsSoundWorld w
      → Holds IsSoundWorld (go_home fuel events w)
  unfolding go_home
  go_home-IsSound fuel [] w h =
      Holds-bind (λ o. IsSound o.0) IsSoundWorld (arm_to_home fuel w.scene w.machine) _
        (arm_to_home-IsSound fuel w.scene w.machine h) (λ o k. k)
  go_home-IsSound fuel (reports ∷ events) w h =
      let seen = deliver reports w.scene in
      Holds-bind (λ o. IsSound o.0) IsSoundWorld (arm_to_home fuel seen w.machine) _
        (arm_to_home-IsSound fuel seen w.machine (deliver-IsSound reports w.scene h))
        (λ o k. deliver_all-IsSound events o.0 k)

  -- Every command keeps the stores sound.
  pub perform-IsSound :
      (fuel : ℕ) (events : Events) (command : Command) (w : World D)
      → IsSoundWorld w
      → Holds IsSoundWorld (perform fuel events command w)
  unfolding perform
  perform-IsSound fuel events cmd_mp w h =
      Holds-bind (λ o. IsSound o.0) IsSoundWorld
        (move_to_pattern fuel events (read_word [] w.input).0 w.scene w.machine) _
        (move_to_pattern-IsSound fuel events _ w.scene w.machine h) (λ o k. k)
  perform-IsSound fuel events cmd_mr w h =
      Holds-bind (λ o. IsSound o.0) IsSoundWorld
        (move_relative_to_pattern fuel events (read_word [] w.input).0 w.scene w.machine) _
        (move_relative_to_pattern-IsSound fuel events _ w.scene w.machine h) (λ o k. k)
  perform-IsSound fuel events cmd_x w h = deliver_all-IsSound events w.scene h
  perform-IsSound fuel events cmd_mv w h =
      Holds-then IsSoundWorld (move_to_position fuel (read_word [] w.input).0 w.machine) _
        (λ m. deliver_all-IsSound events w.scene h)
  perform-IsSound fuel events cmd_ml w h =
      Holds-then IsSoundWorld
        (move_to_position_list fuel (server_parameter (codes "TEST_POSITIONS") w.scene).0 w.machine)
        _
        (λ m.
          deliver_all-IsSound events _
            (server_parameter-IsSound (codes "TEST_POSITIONS") w.scene h))
  perform-IsSound fuel events cmd_wl w h =
      Holds-then IsSoundWorld (walk_a_line fuel w.input w.line w.machine) _
        (λ o. deliver_all-IsSound events w.scene h)
  perform-IsSound fuel events cmd_r w h = deliver_all-IsSound events w.scene h
  perform-IsSound fuel events cmd_t w h =
      Holds-bind (λ o. IsSound o.1) IsSoundWorld (to_target fuel w.scene w.machine) _
        (to_target-IsSound fuel w.scene w.machine h) (λ o k. deliver_all-IsSound events o.1 k)
  perform-IsSound fuel events cmd_s w h =
      Holds-bind (λ o. IsSound o.0) IsSoundWorld (scan_for_pattern events w.scene w.machine) _
        (scan_for_pattern-IsSound events w.scene w.machine) (λ o k. k)
  perform-IsSound fuel events cmd_spd w h =
      Holds-bind IsSoundHunt IsSoundWorld
        (scan_for_pattern_with_directed_motion fuel events w.scene w.machine) _
        (scan_directed-IsSound fuel events w.scene w.machine h)
        (λ hunt k. deliver_all-IsSound hunt.events hunt.scene k)
  perform-IsSound fuel events cmd_spr w h =
      Holds-bind (λ o. IsSound o.0.scene) IsSoundWorld
        (scan_for_pattern_with_rotation_motion fuel events w.scene w.machine w.errors) _
        (scan_rotation-IsSound fuel events w.scene w.machine w.errors h)
        (λ o k. deliver_all-IsSound o.0.events o.0.scene k)
  perform-IsSound fuel events cmd_tt w h = deliver_all-IsSound events w.scene h
  perform-IsSound fuel events cmd_ta w h =
      Holds-bind IsSoundTest IsSoundWorld
        (test_target_to_arm fuel events w.input w.scene w.machine w.errors) _
        (test_target_to_arm-IsSound fuel events w.input w.scene w.machine w.errors h) (λ o k. k)
  perform-IsSound fuel events cmd_home w h = go_home-IsSound fuel events w h
  perform-IsSound fuel events cmd_other w h = deliver_all-IsSound events w.scene h

  initialize_all-IsSound : (around : Surroundings D) → Holds IsSoundWorld (initialize_all around)
  initialize_all-IsSound around =
      unfold initialize_all in
      (Holds-then IsSoundWorld (read_parameters around.file true []) _ (λ params.
        (let sim = simulation_of params in
          Holds-then IsSoundWorld (motor_driver_port_initialization sim.0 around.port sim.2) _
            (λ opened.
              (let sized = size_of {D = D} opened.1 in
                let arm =
                  set_mininum_radius sized.0 sized.1
                    (new_arm sized.0 around.junk around.junk_steps) in
                let canister = canister_current_steps_str arm in
                let elbow = elbow_current_steps_str arm in
                let counted = (read_key (codes "MOTOR_COUNT") sized.2).1 in
                Holds-then IsSoundWorld
                  (init_motor_descriptions {D = D} sim.0 canister elbow sized.2 0 opened.0) _
                  (λ motors.
                    Holds-bind IsSound IsSoundWorld
                      (init_sensor_descriptions around.junk canister elbow (no_stores counted)) _
                      (init_sensor_descriptions-IsSound around.junk canister elbow counted)
                      (λ scene k. k)))))))

  -- The states of the program between its commands: behind the start, behind the look at the run mode,
  -- behind reports that come in at the prompt, and behind each command, with the reports that came in
  -- during it.
  pub data Running (around : Surroundings D) : World D → Type ℓ where
    started : {w : World D} → initialize_all around ≡ some w → Running around w
    mode_read :
        {w : World D}
        → Running around w
        → Running around (record w { scene = (server_parameter (codes "run_mode") w.scene).1 })
    came_in :
        {w : World D} (events : Events)
        → Running around w
        → Running around (record w { scene = deliver_all events w.scene })
    performed :
        {w w' : World D} (fuel : ℕ) (events : Events)
        → Running around w
        → perform fuel events
            (command_of (read_word [] w.input).0)
            (record w { input = (read_word [] w.input).1 })
          ≡ some w'
        → Running around w'

  -- Whatever the parameter file, the serial port and the typed words are, and whatever reports come
  -- in at the prompt, before a command looks at the targets and behind its work: in every state of
  -- the program between its commands each pointer of the stores is NULL or that of a target or a
  -- sensor that was made.
  pub Running-IsSound : {around : Surroundings D} {w : World D} → Running around w → IsSound w.scene
  Running-IsSound {around} (started e) =
      Holds-some IsSoundWorld _ _ (initialize_all-IsSound around) e
  Running-IsSound (mode_read {w} running) =
      server_parameter-IsSound (codes "run_mode") w.scene (Running-IsSound running)
  Running-IsSound (came_in {w} events running) =
      deliver_all-IsSound events w.scene (Running-IsSound running)
  Running-IsSound (performed {w} fuel events running e) =
      Holds-some IsSoundWorld _ _
        (perform-IsSound fuel events (command_of (read_word [] w.input).0)
          (record w { input = (read_word [] w.input).1 }) (Running-IsSound running))
        e
