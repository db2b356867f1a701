-- ===== src/Scan/Ready.antt =====
-- release/build/arm_2d.cpp: the motions by command in a simulation with the two motors.
use robot_arm_2d.Arm.{set_target}
use robot_arm_2d.Double.{Double}
use robot_arm_2d.Motion.{
  Machine, motor_index, put_motor, step_n_motion, move_by_command, stepper_by_command,
}
use robot_arm_2d.Motion.Laws.{Ends, run_sequence_total, step_n_motion_total}
use robot_arm_2d.Motor.{MotorDriver, parameter, run_action, current_rotation}
use robot_arm_2d.Motor.Serial.{Port}
use robot_arm_2d.Prelude.{
  ℕ, ◌<◌, ◌≡◌, refl, Bool, true, arith, Bytes, codes, length, length-set, get_elem-below,
}
use robot_arm_2d.Prelude.Int.{ℤ}
use robot_arm_2d.Prelude.Results.{
  Anything, Gives, gives, Gives-any, Gives-bind, Gives-eq, Gives-true,
}
use robot_arm_2d.Scan.{act, rotation_of}

module _ {ℓ} {D : Type ℓ} where
  -- A simulation, with the two motors of the arm.
  abbrev pub IsReady : Machine D → Type 0
  IsReady m = (m.use_simulations ≡ true) × (1 < length m.motors)

  pub put_motor-IsReady :
      (i : ℕ) (m : Machine D) (r : MotorDriver D × Port) → IsReady m → IsReady (put_motor i m r)
  put_motor-IsReady i m r (sim, lt) = (sim, rw (length-set m.motors i (r.0)) lt)

  run_action_total :
      (sim : Bool) (action_key : Bytes) (md : MotorDriver D) (port : Port)
      → Ends (run_action sim action_key md port)
  run_action_total sim action_key md port =
      unfold run_action in run_sequence_total sim (parameter action_key md.sink).0 _ port

  run_action-Gives :
      (sim : Bool) (action_key : Bytes) (md : MotorDriver D) (port : Port)
      → Gives Anything (run_action sim action_key md port)
  run_action-Gives sim action_key md port =
      Gives-eq {P = Anything} (run_action_total sim action_key md port).1 tt

module _ {ℓ} {D : Type ℓ} ⦃d : Double D⦄ where
  -- A step of one of the two motors.
  pub step_n_motion-IsReady :
      (motor : ℕ) (n_steps : ℤ) (m : Machine D)
      → motor < 3
      → IsReady m
      → Gives IsReady (step_n_motion motor n_steps m)
  step_n_motion-IsReady motor n_steps m lt ready =
      let (md, e) = get_elem-below m.motors (motor_index motor) (omega (arith, ready.1)) in
      let (r, s) = step_n_motion_total motor n_steps m md e in
      Gives-eq s (put_motor-IsReady (motor_index motor) m r ready)

  pub stepper_by_command-IsReady :
      (fuel motor : ℕ) (steps : ℤ) (m : Machine D)
      → motor < 3
      → IsReady m
      → Gives IsReady (stepper_by_command fuel motor steps m)
  stepper_by_command-IsReady fuel motor steps m lt ready =
      unfold stepper_by_command in
      Gives-bind (step_n_motion-IsReady motor steps m lt ready)
        (λ m₁ ready₁. Gives-true m₁.use_simulations _ (ready₁.0) (gives ready₁))

  pub move_by_command-IsReady :
      (fuel : ℕ) (x y : D) (m : Machine D)
      → IsReady m
      → Gives
          (λ m'. IsReady m' × (m'.current_x ≡ x) × (m'.current_y ≡ y))
          (move_by_command fuel x y m)
  move_by_command-IsReady fuel x y m ready =
      unfold move_by_command in
      (let arm = set_target m.size x y m.arm in
        let aimed : Machine D = record m { arm = arm } in
        Gives-bind (step_n_motion-IsReady 1 arm.canister_current_steps aimed (omega arith) ready)
          (λ m₁ ready₁.
            Gives-bind (step_n_motion-IsReady 2 arm.elbow_current_steps m₁ (omega arith) ready₁)
              (λ m₂ ready₂.
                Gives-bind (Gives-true {P = IsReady} m₂.use_simulations _ (ready₂.0) (gives ready₂))
                  (λ m₃ ready₃. gives (ready₃, refl, refl)))))

  pub act-IsReady :
      (i : ℕ) (action_key : Bytes) (m : Machine D)
      → i < 2
      → IsReady m
      → Gives IsReady (act i action_key m)
  act-IsReady i action_key m lt ready =
      unfold act in
      (let (md, e) = get_elem-below m.motors i (omega (arith, ready.1)) in
        Gives-bind (Gives-eq {P = Anything} e tt) (λ md' _.
          Gives-bind (run_action-Gives m.use_simulations action_key md' m.port)
            (λ r' _. gives (put_motor-IsReady i m r' ready))))

  pub rotation_of-IsReady :
      (i : ℕ) (m : Machine D) → i < 2 → IsReady m → Gives (λ r. IsReady r.1) (rotation_of i m)
  rotation_of-IsReady i m lt ready =
      unfold rotation_of current_rotation in
      (let (md, e) = get_elem-below m.motors i (omega (arith, ready.1)) in
        Gives-bind (Gives-eq {P = Anything} e tt) (λ md' _.
          Gives-bind
            (Gives-bind
              (run_action-Gives m.use_simulations (codes "rotation_query")
                (record md' { checking_position = true }) m.port)
              (λ r _. Gives-any _))
            (λ r' _. gives (put_motor-IsReady i m (r'.1, r'.2) ready))))
