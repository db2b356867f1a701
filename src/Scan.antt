-- ===== src/Scan.antt =====
-- release/build/arm_2d.cpp: the motions that look for a pattern: wait_for_any_pattern,
-- scan_for_pattern_with_directed_motion and what it shares with the scan of Scan/Sweep.antt.
pub mod Sweep
pub mod Ready
pub mod Directed
pub mod Home
pub mod Sound
mod Tests
use robot_arm_2d.Aim.{Errors, target_to_arm_quiet}
use robot_arm_2d.Arm.{rotation_to_cartesian}
use robot_arm_2d.Double.{Double}
use robot_arm_2d.Motion.{
  Machine, put_motor, check_motion_status, step_n_motion, move_by_command, stepper_by_command,
}
use robot_arm_2d.Motor.{MotorDriver, run_action, current_rotation}
use robot_arm_2d.Motor.Serial.{Port}
use robot_arm_2d.Pattern.{deliver, target_parameter}
use robot_arm_2d.Prelude.{
  ℕ, zero, suc, ◌+◌, ◌*◌, ◌/◌, Bool, true, false, List, [], ◌∷◌, Option, none, some, ◌>>=◌, Bytes,
  codes, get_elem?, if◌then◌else◌,
}
use robot_arm_2d.Prelude.Int.{ℤ, pos, negsuc, pos_part, neg_part, ◌+ℤ◌, ◌-ℤ◌, negate, ltb_ℤ}
use robot_arm_2d.Scene.{Scene, clear_targets, point_in_time_best_match}
use robot_arm_2d.StdMap

-- The reports that come in before each look at the targets.
abbrev pub Events : Type 0
Events = List (List (Bytes × Bytes))

-- What a search has at hand: `t_acquired`, `x_hat` and `y_hat`, the reports still to come, the stores
-- and the machine.
pub record Hunt {ℓ} (D : Type ℓ) : Type ℓ where
  pub t_acquired : Option ℕ
  pub hat : D × D
  pub events : Events
  pub scene : Scene D
  pub machine : Machine D

module _ {ℓ} {D : Type ℓ} where
  -- `md->run_action(action_key)` on the motor at a place of the array.
  unfoldable pub act : ℕ → Bytes → Machine D → Option (Machine D)
  act i action_key m = get_elem? m.motors i >>= λ md.
      (run_action m.use_simulations action_key md m.port >>= λ r. some (put_motor i m r))

module _ {ℓ} {D : Type ℓ} ⦃d : Double D⦄ where
  -- `md->current_rotation()`
  unfoldable pub rotation_of : ℕ → Machine D → Option (D × Machine D)
  rotation_of i m = get_elem? m.motors i >>= λ md.
      (current_rotation m.use_simulations md m.port >>= λ r. some (r.0, put_motor i m (r.1, r.2)))

  -- `wait_for_any_pattern`: the place of the match that ends the loop. The function has no `return`,
  -- so there is no pointer. `none` means that no target has been matched by the end of the events.
  unfoldable pub wait_for_any_pattern : Events → D × D → Scene D → Option ((D × D) × Scene D)
  unfolding deliver
  wait_for_any_pattern [] hat scene = none
  wait_for_any_pattern (reports ∷ events) hat scene =
      point_in_time_best_match hat.0 hat.1 (deliver reports scene) >>= λ best.
      (let rest = wait_for_any_pattern events best.1 best.2 in
        elim (best.0) [ none ↦ rest | some t ↦ some (best.1, best.2) ])

  -- `while ( in_motion ) { … }`: the motor is asked, then the targets; a match stops the first motor
  -- if the one that was asked is in motion. `none` means that the loop goes on at the end of the
  -- events.
  unfoldable pub acquire_loop : Bool → ℕ → Events → D × D → Scene D → Machine D → Option (Hunt D)
  unfolding deliver
  acquire_loop noisy motor [] hat scene m = none
  acquire_loop noisy motor (reports ∷ events) hat scene m =
      check_motion_status noisy motor m >>= λ r.
      (point_in_time_best_match hat.0 hat.1 (deliver reports scene) >>= λ best.
      (let rest = acquire_loop noisy motor events best.1 best.2 r.1 in
        let seen : Machine D → Hunt D = λ m'. record {
          t_acquired = best.0;
          hat = best.1;
          events = events;
          scene = best.2;
          machine = m';
        } in
        elim (best.0) [
          | some t ↦
              (if r.0 then act 0 (codes "stop_motion") r.1 else some r.1) >>= λ m'. some (seen m')
          | none ↦ if r.0 then rest else some (seen r.1)
        ]))

  -- The search after a step: in a simulation nothing is looked at.
  unfoldable pub acquire : Bool → ℕ → Hunt D → Option (Hunt D)
  unfolding acquire_loop
  acquire noisy motor hunt =
      if hunt.machine.use_simulations
      then some hunt
      else acquire_loop noisy motor hunt.events hunt.hat hunt.scene hunt.machine

  -- `go_to_max_edge_test`
  unfoldable pub go_to_max_edge_test : ℕ → D → Machine D → Option (Machine D)
  go_to_max_edge_test fuel current_r m = move_by_command fuel (d.lit 0 0) current_r m

  -- `(int)(CANISTER_STEP/2.0)`
  abbrev pub half_turn : Machine D → ℤ
  half_turn m = d.to_int (d.div m.size.canister_step (d.lit 2 0))

  -- `(int)(end_r - start_r)`
  abbrev pub edge_count : Machine D → ℤ
  edge_count m = d.to_int (d.sub m.arm.max_r m.arm.start_radius)

  -- `for ( int i = 0; i < n; i++ ) { … }` for the rounds that are left.
  unfoldable pub directed_loop : ℕ → ℕ → D → ℤ → Hunt D → Option (Hunt D)
  unfolding go_to_max_edge_test
  directed_loop fuel zero current_r base_steps hunt = some hunt
  directed_loop fuel (suc rounds) current_r base_steps hunt =
      go_to_max_edge_test fuel current_r hunt.machine >>= λ m₁.
      (step_n_motion 1 base_steps m₁ >>= λ m₂.
      (acquire true 1 (record hunt { machine = m₂ }) >>= λ hunt'. elim (hunt'.t_acquired) [
        | some t ↦ some hunt'
        | none ↦ directed_loop fuel rounds (d.add current_r (d.lit 1 0)) base_steps hunt'
      ]))

  -- Where the motors say that the arm is, and from there to the match.
  unfoldable pub go_to_match : ℕ → Hunt D → Option (Hunt D)
  go_to_match fuel hunt = get_elem? hunt.machine.motors 0 >>= λ md₁.
      (get_elem? hunt.machine.motors 1 >>= λ md₂.
      (rotation_of 0 hunt.machine >>= λ r₁.
      (rotation_of 1 r₁.1 >>= λ r₂.
      (let xy =
          rotation_to_cartesian r₂.1.size (d.mul r₁.0 md₁.gear_ratio) (d.mul r₂.0 md₂.gear_ratio)
            r₂.1.arm in
        move_by_command fuel (d.add xy.0 hunt.hat.0) (d.add xy.1 hunt.hat.1) r₂.1 >>= λ m.
        some (record hunt { machine = m })))))

  -- `scan_for_pattern_with_directed_motion`
  unfoldable pub scan_for_pattern_with_directed_motion :
      ℕ → Events → Scene D → Machine D → Option (Hunt D)
  unfolding directed_loop go_to_match
  scan_for_pattern_with_directed_motion fuel events scene m =
      directed_loop fuel (pos_part (edge_count m)) m.arm.start_radius (half_turn m) (record {
        t_acquired = none;
        hat = (d.lit 0 0, d.lit 0 0);
        events = events;
        scene = scene;
        machine = m;
      })
      >>= go_to_match fuel
