-- ===== src/Scan/Sound/Steps.antt =====
-- release/build/arm_2d.cpp: acquisitions, the scan by directed motion and the sweeps keep the stores sound.
use robot_arm_2d.Double.{Double}
use robot_arm_2d.Motion.{
  Machine, check_motion_status, step_n_motion, stepper_by_command, move_by_command,
}
use robot_arm_2d.Pattern.{deliver}
use robot_arm_2d.Pattern.Pointers.{deliver-IsSound}
use robot_arm_2d.Prelude.{
  ℕ, zero, suc, ◌+◌, Bool, true, false, [], ◌∷◌, none, some, codes, get_elem?, if◌then◌else◌,
}
use robot_arm_2d.Prelude.Int.{ℤ, pos_part, ◌-ℤ◌, ◌+ℤ◌, negate, ltb_ℤ}
use robot_arm_2d.Prelude.Results.{Holds, Holds-bind, Holds-then, Holds-if, Holds-cases}
use robot_arm_2d.Scan.{
  Events, Hunt, half_turn, edge_count, act, acquire_loop, acquire, go_to_max_edge_test,
  directed_loop, go_to_match, rotation_of, scan_for_pattern_with_directed_motion,
}
use robot_arm_2d.Scan.Sweep.{
  Field, stepper_by_commands_acquire, sweep_down, sweep_up, go_to_row, sweep_loop,
}
use robot_arm_2d.Scene.{Scene, point_in_time_best_match}
use robot_arm_2d.Scene.Operations.{point_in_time_best_match-IsSound}
use robot_arm_2d.Scene.Pointers.{IsSound}

module _ {ℓ} {D : Type ℓ} ⦃d : Double D⦄ where
  -- The stores of a search.
  abbrev pub IsSoundHunt : Hunt D → Type 0
  IsSoundHunt hunt = IsSound hunt.scene

  acquire_loop-IsSound :
      (noisy : Bool) (motor : ℕ) (events : Events) (hat : D × D) (scene : Scene D) (m : Machine D)
      → IsSound scene
      → Holds IsSoundHunt (acquire_loop noisy motor events hat scene m)
  unfolding acquire_loop
  acquire_loop-IsSound noisy motor [] hat scene m h = tt
  acquire_loop-IsSound noisy motor (reports ∷ events) hat scene m h =
      Holds-then IsSoundHunt (check_motion_status noisy motor m) _ (λ r.
        Holds-bind (λ best. IsSound best.2) IsSoundHunt
          (point_in_time_best_match hat.0 hat.1 (deliver reports scene)) _
          (point_in_time_best_match-IsSound hat.0 hat.1 (deliver reports scene)
            (deliver-IsSound reports scene h))
          (λ best sound.
            Holds-cases IsSoundHunt best.0 _ _
              (Holds-if IsSoundHunt r.0 _ _
                (acquire_loop-IsSound noisy motor events best.1 best.2 r.1 sound) sound)
              (λ t.
                Holds-then IsSoundHunt (if r.0 then act 0 (codes "stop_motion") r.1 else some r.1) _
                  (λ m'. sound))))

  acquire-IsSound :
      (noisy : Bool) (motor : ℕ) (hunt : Hunt D)
      → IsSoundHunt hunt
      → Holds IsSoundHunt (acquire noisy motor hunt)
  acquire-IsSound noisy motor hunt h =
      unfold acquire in
      Holds-if IsSoundHunt hunt.machine.use_simulations _ _ h
        (acquire_loop-IsSound noisy motor hunt.events hunt.hat hunt.scene hunt.machine h)

  directed_loop-IsSound :
      (fuel rounds : ℕ) (current_r : D) (base_steps : ℤ) (hunt : Hunt D)
      → IsSoundHunt hunt
      → Holds IsSoundHunt (directed_loop fuel rounds current_r base_steps hunt)
  unfolding directed_loop
  directed_loop-IsSound fuel zero current_r base_steps hunt h = h
  directed_loop-IsSound fuel (suc rounds) current_r base_steps hunt h =
      Holds-then IsSoundHunt (go_to_max_edge_test fuel current_r hunt.machine) _ (λ m₁.
        Holds-then IsSoundHunt (step_n_motion 1 base_steps m₁) _ (λ m₂.
          Holds-bind IsSoundHunt IsSoundHunt (acquire true 1 (record hunt { machine = m₂ })) _
            (acquire-IsSound true 1 (record hunt { machine = m₂ }) h)
            (λ hunt' h'.
              Holds-cases IsSoundHunt hunt'.t_acquired _ _
                (directed_loop-IsSound fuel rounds (d.add current_r (d.lit 1 0)) base_steps hunt'
                  h')
                (λ t. h'))))

  go_to_match-IsSound :
      (fuel : ℕ) (hunt : Hunt D) → IsSoundHunt hunt → Holds IsSoundHunt (go_to_match fuel hunt)
  unfolding go_to_match
  go_to_match-IsSound fuel hunt h =
      Holds-then IsSoundHunt (get_elem? hunt.machine.motors 0) _ (λ md₁.
        Holds-then IsSoundHunt (get_elem? hunt.machine.motors 1) _ (λ md₂.
          Holds-then IsSoundHunt (rotation_of 0 hunt.machine) _ (λ r₁.
            Holds-then IsSoundHunt (rotation_of 1 r₁.1) _
              (λ r₂. Holds-then IsSoundHunt (move_by_command fuel _ _ r₂.1) _ (λ m'. h)))))

  pub scan_directed-IsSound :
      (fuel : ℕ) (events : Events) (scene : Scene D) (m : Machine D)
      → IsSound scene
      → Holds IsSoundHunt (scan_for_pattern_with_directed_motion fuel events scene m)
  scan_directed-IsSound fuel events scene m h =
      unfold scan_for_pattern_with_directed_motion in
      (let begun : Hunt D = record {
        t_acquired = none;
        hat = (d.lit 0 0, d.lit 0 0);
        events = events;
        scene = scene;
        machine = m;
      } in
        Holds-bind IsSoundHunt IsSoundHunt
          (directed_loop fuel (pos_part (edge_count m)) m.arm.start_radius (half_turn m) begun)
          (go_to_match fuel)
          (directed_loop-IsSound fuel (pos_part (edge_count m)) m.arm.start_radius (half_turn m)
            begun h)
          (go_to_match-IsSound fuel))

  stepper_by_commands_acquire-IsSound :
      (motor : ℕ) (steps : ℤ) (hunt : Hunt D)
      → IsSoundHunt hunt
      → Holds IsSoundHunt (stepper_by_commands_acquire motor steps hunt)
  stepper_by_commands_acquire-IsSound motor steps hunt h =
      unfold stepper_by_commands_acquire in
      Holds-then IsSoundHunt (step_n_motion motor steps hunt.machine) _
        (λ m. acquire-IsSound false motor _ h)

  abbrev IsSoundSweep : ℤ × Hunt D → Type 0
  IsSoundSweep swept = IsSound swept.1.scene

  sweep_down-IsSound :
      (fuel : ℕ) (field : Field D) (step_pos : ℤ) (hunt : Hunt D)
      → IsSoundHunt hunt
      → Holds IsSoundSweep (sweep_down fuel field step_pos hunt)
  unfolding sweep_down
  sweep_down-IsSound zero field step_pos hunt h = tt
  sweep_down-IsSound (suc fuel) field step_pos hunt h =
      let next = step_pos -ℤ field.base_steps_delta in
      Holds-if IsSoundSweep (ltb_ℤ (negate field.base_steps) step_pos) _ _
        (Holds-bind IsSoundHunt IsSoundSweep (stepper_by_commands_acquire 1 next hunt) _
          (stepper_by_commands_acquire-IsSound 1 next hunt h)
          (λ hunt' h'.
            Holds-cases IsSoundSweep hunt'.t_acquired _ _
              (sweep_down-IsSound fuel field next hunt' h') (λ t. h')))
        h

  sweep_up-IsSound :
      (fuel : ℕ) (field : Field D) (step_pos : ℤ) (hunt : Hunt D)
      → IsSoundHunt hunt
      → Holds IsSoundSweep (sweep_up fuel field step_pos hunt)
  unfolding sweep_up
  sweep_up-IsSound zero field step_pos hunt h = tt
  sweep_up-IsSound (suc fuel) field step_pos hunt h =
      let next = step_pos +ℤ field.base_steps_delta in
      Holds-if IsSoundSweep (ltb_ℤ step_pos field.base_steps) _ _
        (Holds-bind IsSoundHunt IsSoundSweep (stepper_by_commands_acquire 1 next hunt) _
          (stepper_by_commands_acquire-IsSound 1 next hunt h)
          (λ hunt' h'.
            Holds-cases IsSoundSweep hunt'.t_acquired _ _
              (sweep_up-IsSound fuel field next hunt' h') (λ t. h')))
        h

  go_to_row-IsSound :
      (fuel : ℕ) (field : Field D) (i : ℕ) (hunt : Hunt D)
      → IsSoundHunt hunt
      → Holds IsSoundHunt (go_to_row fuel field i hunt)
  go_to_row-IsSound fuel field i hunt h =
      unfold go_to_row in
      Holds-then IsSoundHunt (stepper_by_command fuel 2 _ hunt.machine) _ (λ m. h)

  pub sweep_loop-IsSound :
      (fuel rounds : ℕ) (field : Field D) (i : ℕ) (step_pos : ℤ) (hunt : Hunt D)
      → IsSoundHunt hunt
      → Holds IsSoundHunt (sweep_loop fuel rounds field i step_pos hunt)
  unfolding sweep_loop
  sweep_loop-IsSound fuel zero field i step_pos hunt h = h
  sweep_loop-IsSound fuel (suc rounds) field i step_pos hunt h =
      Holds-bind IsSoundHunt IsSoundHunt (go_to_row fuel field i hunt) _
        (go_to_row-IsSound fuel field i hunt h)
        (λ at_row h₁.
          Holds-bind IsSoundSweep IsSoundHunt (sweep_down fuel field step_pos at_row) _
            (sweep_down-IsSound fuel field step_pos at_row h₁)
            (λ down h₂.
              Holds-cases IsSoundHunt down.1.t_acquired _ _
                (Holds-bind IsSoundHunt IsSoundHunt (go_to_row fuel field (i + 1) down.1) _
                  (go_to_row-IsSound fuel field (i + 1) down.1 h₂)
                  (λ at_next h₃.
                    Holds-bind IsSoundSweep IsSoundHunt (sweep_up fuel field down.0 at_next) _
                      (sweep_up-IsSound fuel field down.0 at_next h₃)
                      (λ up h₄.
                        Holds-cases IsSoundHunt up.1.t_acquired _ _
                          (sweep_loop-IsSound fuel rounds field (i + 2) up.0 up.1 h₄) (λ t. h₄))))
                (λ t. h₂)))
