-- ===== src/Console/Total.antt =====
-- release/build/arm_2d.cpp: the commands that need no camera, in a simulation with the two motors.
use robot_arm_2d.Console.{
  Command, cmd_mp, cmd_mr, cmd_x, cmd_mv, cmd_ml, cmd_wl, cmd_r, cmd_t, cmd_s, cmd_spd, cmd_spr,
  cmd_tt, cmd_ta, cmd_home, cmd_other, go_home, perform,
}
use robot_arm_2d.Console.Globals.{World}
use robot_arm_2d.Console.Walk.{Line, line_of, walk_loop, typed_trials, walk_a_line}
use robot_arm_2d.Console.WalkLaws.{
  move_along, stations, walk_loop-half, line_of-trials, typed_trials-positive,
}
use robot_arm_2d.Console.Words.{read_word, first_char}
use robot_arm_2d.Double.{Double}
use robot_arm_2d.Motion.{Machine, move_by_command, move_to_position}
use robot_arm_2d.Pattern.{deliver}
use robot_arm_2d.Prelude.{ℕ, suc, ◌/◌, ◌<◌, ◌≡◌, true, List, [], ◌∷◌, some, Bytes, length}
use robot_arm_2d.Prelude.Results.{Gives, gives, Gives-bind, Gives-map, Gives-if, Gives-result}
use robot_arm_2d.Scan.{Events}
use robot_arm_2d.Scan.Directed.{scan_directed-IsBlind}
use robot_arm_2d.Scan.Home.{arm_to_home-IsReady}
use robot_arm_2d.Scan.Ready.{IsReady, move_by_command-IsReady}
use robot_arm_2d.Text.Chars.{isalpha}

-- The commands that neither wait for a report nor look for a target, without the list of places.
abbrev pub IsBlindCommand : Command → Type 0
IsBlindCommand cmd_mp = ⊥
IsBlindCommand cmd_mr = ⊥
IsBlindCommand cmd_x = Unit
IsBlindCommand cmd_mv = Unit
IsBlindCommand cmd_ml = ⊥
IsBlindCommand cmd_wl = Unit
IsBlindCommand cmd_r = Unit
IsBlindCommand cmd_t = ⊥
IsBlindCommand cmd_s = ⊥
IsBlindCommand cmd_spd = Unit
IsBlindCommand cmd_spr = ⊥
IsBlindCommand cmd_tt = Unit
IsBlindCommand cmd_ta = ⊥
IsBlindCommand cmd_home = Unit
IsBlindCommand cmd_other = Unit

module _ {ℓ} {D : Type ℓ} ⦃d : Double D⦄ where
  move-IsReady :
      (fuel : ℕ) (a b : D) (m : Machine D) → IsReady m → Gives IsReady (move_by_command fuel a b m)
  move-IsReady fuel a b m ready = Gives-map (move_by_command-IsReady fuel a b m ready) (λ m' h. h.0)

  move_along-IsReady :
      (fuel : ℕ) (places : List (D × D)) (m : Machine D)
      → IsReady m
      → Gives IsReady (move_along fuel places m)
  move_along-IsReady fuel [] m ready = gives ready
  move_along-IsReady fuel ((a, b) ∷ places) m ready =
      Gives-bind (move-IsReady fuel a b m ready) (λ m'. move_along-IsReady fuel places m')

  walk_loop-IsReady :
      (fuel trials : ℕ) (y : D) (line : Line D) (m : Machine D)
      → line.trials ≡ trials
      → 0 < trials
      → IsReady m
      → Gives (λ o. IsReady o.1) (walk_loop (suc trials) fuel 0 y line m)
  walk_loop-IsReady fuel trials y line m e k ready = rw (walk_loop-half fuel trials y line m e k) (
      Gives-bind (move_along-IsReady fuel (stations (trials / 2) 0 y line) m ready)
        (λ m' h. gives h))

  walk_a_line-IsReady :
      (fuel : ℕ) (input : List Bytes) (line : Line D) (m : Machine D)
      → IsReady m
      → Gives (λ o. IsReady o.3) (walk_a_line fuel input line m)
  walk_a_line-IsReady fuel input line m ready =
      unfold walk_a_line in
      (let num_str = read_word [] input in
        let test_trials_str = read_word [] num_str.1 in
        let trials = typed_trials test_trials_str.0 in
        let line' = line_of m (d.atof num_str.0) (record line { trials = trials }) in
        Gives-if (isalpha (first_char num_str.0)) (λ _. gives ready)
          (λ _.
            Gives-bind
              (walk_loop-IsReady fuel trials (d.atof num_str.0) line' m
                (line_of-trials m (d.atof num_str.0) (record line { trials = trials }))
                (typed_trials-positive test_trials_str.0) ready)
              (λ o h. gives h)))

  go_home-IsReady :
      (fuel : ℕ) (events : Events) (w : World D)
      → IsReady w.machine
      → Gives (λ w'. IsReady w'.machine) (go_home fuel events w)
  unfolding go_home
  go_home-IsReady fuel [] w ready =
      Gives-bind (arm_to_home-IsReady fuel w.scene w.machine ready) (λ o h. gives (h.1))
  go_home-IsReady fuel (reports ∷ events) w ready =
      Gives-bind (arm_to_home-IsReady fuel (deliver reports w.scene) w.machine ready)
        (λ o h. gives (h.1))

  -- In a simulation with the two motors each of the commands X, MV, WL, R, SPD, TT and HOME, and any
  -- word that is no command, comes to its end, whatever has been typed, and the machine is still a simulation with two
  -- motors, so that the next of these commands does, too.
  pub perform_total :
      (fuel : ℕ) (events : Events) (command : Command) (w : World D)
      → IsBlindCommand command
      → w.machine.use_simulations ≡ true
      → 1 < length w.machine.motors
      → (w' : World D) × (perform fuel events command w ≡ some w') × IsReady w'.machine
  perform_total fuel events command w blind sim two = Gives-result (go command blind)
    where
      go :
          (command : Command)
          → IsBlindCommand command
          → Gives (λ w'. IsReady w'.machine) (perform fuel events command w)
      go cmd_mp b = absurd b
      go cmd_mr b = absurd b
      go cmd_x b = unfold perform in gives (sim, two)
      go cmd_mv b =
          unfold perform move_to_position in
          Gives-bind (move-IsReady fuel _ _ w.machine (sim, two)) (λ m ready. gives ready)
      go cmd_ml b = absurd b
      go cmd_wl b =
          unfold perform in
          Gives-bind (walk_a_line-IsReady fuel w.input w.line w.machine (sim, two))
            (λ o ready. gives ready)
      go cmd_r b = unfold perform in gives (sim, two)
      go cmd_t b = absurd b
      go cmd_s b = absurd b
      go cmd_spd b =
          unfold perform in
          Gives-bind (scan_directed-IsBlind fuel events w.scene w.machine (sim, two))
            (λ hunt h. gives (h.0))
      go cmd_spr b = absurd b
      go cmd_tt b = unfold perform in gives (sim, two)
      go cmd_ta b = absurd b
      go cmd_home b = unfold perform in go_home-IsReady fuel events w (sim, two)
      go cmd_other b = unfold perform in gives (sim, two)
