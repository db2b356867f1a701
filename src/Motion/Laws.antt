-- ===== src/Motion/Laws.antt =====
-- release/build/arm_2d.cpp: step_n_motion and move_by_command, on the line and in a simulation.
use robot_arm_2d.Arm.{ArmConfiguration, set_target}
use robot_arm_2d.Double.{Double}
use robot_arm_2d.Motion.{
  Machine, motor_index, put_motor, geared_steps, step_n_motion, move_by_command,
}
use robot_arm_2d.Motor.{
  MotorDriver, run_queue, run_commands2, lines_loop, run_lines, add_commands, parameter,
  run_sequence, run_action_var,
}
use robot_arm_2d.Motor.Queue.{run_lines-Runs}
use robot_arm_2d.Motor.Serial.{Port}
use robot_arm_2d.Motor.Transcript.{Runs}
use robot_arm_2d.Prelude.{
  ℕ, zero, suc, ◌≡◌, refl, ap, ◌∙◌, Bool, true, false, List, [], ◌∷◌, ◌++◌, Option, none, some,
  ◌>>=◌, arith, Bytes, codes, get_elem?,
}
use robot_arm_2d.Prelude.Int.{ℤ}
use robot_arm_2d.Scene.Round.{get_elem-set_other}
use robot_arm_2d.Text.Decimal.{format_int}
use robot_arm_2d.Text.Split.{to_items}
use robot_arm_2d.Text.Split.Laws.{to_items_total}
use robot_arm_2d.Text.Subst.{subst}
use robot_arm_2d.Text.Subst.Laws.{replace_all, subst-eq-replace_all}

-- The computation gives a result.
abbrev pub Ends {ℓ} : {A : Type ℓ} → Option A → Type ℓ
Ends {A = A} o = (a : A) × (o ≡ some a)

pub bind-Ends {ℓ κ} :
    {A : Type ℓ} {B : Type κ} (o : Option A) (f : A → Option B)
    → Ends o
    → ((a : A) → Ends (f a))
    → Ends (o >>= f)
bind-Ends none f (a, e) h = absurd (cc)
bind-Ends (some a) f _ h = h a

module _ {ℓ} {D : Type ℓ} where
  Runs-Ends :
      (texts : List Bytes) (md : MotorDriver D) (port : Port) (o : Option (MotorDriver D × Port))
      → Runs texts md port o
      → Ends o
  Runs-Ends texts md port none h = absurd h
  Runs-Ends texts md port (some r) h = (r, refl)

  lines_loop_simulated :
      (n : ℕ) (md : MotorDriver D) (port : Port) → Ends (lines_loop n true md port)
  unfolding lines_loop run_commands2 run_queue
  lines_loop_simulated zero md port = ((md, port), refl)
  lines_loop_simulated (suc n) md port = go (lines_loop_simulated n) md.short_command_list
    where
      go :
          ((md : MotorDriver D) (port : Port) → Ends (lines_loop n true md port))
          → (queue : List Bytes)
          → Ends (run_queue true queue md port >>= λ r. lines_loop n true r.0 r.1)
      go ih [] = ih md port
      go ih (next_com ∷ queue) = ih _ port

  run_lines_total : (sim : Bool) (md : MotorDriver D) (port : Port) → Ends (run_lines sim md port)
  run_lines_total true md port = unfold run_lines in lines_loop_simulated _ md port
  run_lines_total false md port =
      Runs-Ends md.short_command_list md port (run_lines false md port) (run_lines-Runs md port)

  -- Every sequence of commands is sent.
  pub run_sequence_total :
      (sim : Bool) (seq : Bytes) (md : MotorDriver D) (port : Port)
      → Ends (run_sequence sim seq md port)
  unfolding run_sequence
  run_sequence_total sim seq md port =
      let (items, e, _) = to_items_total seq b';' refl in
      bind-Ends (to_items seq b';') (λ is. run_lines sim (add_commands is md) port) (items, e)
        (λ is. run_lines_total sim (add_commands is md) port)

  run_action_var_total :
      (sim : Bool) (action_key var value : Bytes) (md : MotorDriver D) (port : Port)
      → Ends (run_action_var sim action_key var value md port)
  unfolding run_action_var
  run_action_var_total sim action_key var value md port =
      let seq = parameter action_key md.sink in
      let marker = codes "{" ++ (var ++ codes "}") in
      bind-Ends (subst marker value seq.0)
        (λ text. run_sequence sim text (record md { sink = seq.1 }) port)
        (replace_all marker value 0 seq.0, subst-eq-replace_all marker value seq.0 (cc))
        (λ text. run_sequence_total sim text (record md { sink = seq.1 }) port)

module _ {ℓ} {D : Type ℓ} ⦃d : Double D⦄ where
  -- A step of a motor that is there ends, on the line and in a simulation, whatever the line
  -- answers. It changes that motor and the line, and nothing else of the machine.
  pub step_n_motion_total :
      (motor : ℕ) (n_steps : ℤ) (m : Machine D) (md : MotorDriver D)
      → get_elem? m.motors (motor_index motor) ≡ some md
      → (r : MotorDriver D × Port) × (step_n_motion motor n_steps m
          ≡ some (put_motor (motor_index motor) m r))
  unfolding step_n_motion
  step_n_motion_total motor n_steps m md e =
      let value = format_int (geared_steps n_steps md) in
      go (
        run_action_var_total m.use_simulations (codes "single_motion_var") (codes "STEPS") value md
          m.port)
    where
      go :
          Ends (
            run_action_var m.use_simulations
              (codes "single_motion_var")
              (codes "STEPS")
              (format_int (geared_steps n_steps md))
              md
              m.port)
          → (r : MotorDriver D × Port) × (step_n_motion motor n_steps m
              ≡ some (put_motor (motor_index motor) m r))
      go (r, s) = (
        r,
        rw (e, step_n_motion) (ap (λ o. o >>= λ r'. some (put_motor (motor_index motor) m r')) s),
      )

  -- In a simulation a move ends if the two motors are there, without a wait: the arm has been aimed
  -- at the place, and the place is the machine's current one, also where it is out of the arm's
  -- range.
  pub move_by_command_simulated :
      (fuel : ℕ) (x y : D) (m : Machine D) (first second : MotorDriver D)
      → m.use_simulations ≡ true
      → get_elem? m.motors 0 ≡ some first
      → get_elem? m.motors 1 ≡ some second
      → (m' : Machine D) × (move_by_command fuel x y m ≡ some m')
        × (m'.arm ≡ set_target m.size x y m.arm)
        × (m'.current_x ≡ x)
        × (m'.current_y ≡ y)
  unfolding move_by_command
  move_by_command_simulated fuel x y m first second sim e₁ e₂ =
      go (step_n_motion_total 1 aimed.canister_current_steps (record m { arm = aimed }) first e₁)
        (λ r.
          step_n_motion_total 2 aimed.elbow_current_steps (put_motor 0 (record m { arm = aimed }) r)
            second (get_elem-set_other m.motors 0 1 (r.0) (omega arith) ∙ e₂))
    where
      aimed : ArmConfiguration D
      aimed = set_target m.size x y m.arm

      go :
          ((r : MotorDriver D × Port) × (step_n_motion 1 aimed.canister_current_steps
                (record m { arm = aimed })
              ≡ some (put_motor 0 (record m { arm = aimed }) r)))
          → ((r : MotorDriver D × Port)
              → (r' : MotorDriver D × Port) × (step_n_motion 2 aimed.elbow_current_steps
                    (put_motor 0 (record m { arm = aimed }) r)
                  ≡ some (put_motor 1 (put_motor 0 (record m { arm = aimed }) r) r')))
          → (m' : Machine D) × (move_by_command fuel x y m ≡ some m')
            × (m'.arm ≡ set_target m.size x y m.arm)
            × (m'.current_x ≡ x)
            × (m'.current_y ≡ y)
      go (r, s) h =
          let (r', s') = h r in
          (
            record (put_motor 1 (put_motor 0 (record m { arm = aimed }) r) r') {
              current_x = x;
              current_y = y;
            },
            rw s (rw s' (rw sim refl)),
            refl,
            refl,
            refl,
          )
