-- ===== src/Motion.antt =====
-- release/build/arm_2d.cpp: the motions, from step_n_motion to move_to_position_list.
pub mod Laws
mod Tests
use robot_arm_2d.Arm.{ArmSize, ArmConfiguration, set_target}
use robot_arm_2d.Config.{Params}
use robot_arm_2d.Double.{Double}
use robot_arm_2d.Motor.{max_drive_count, MotorDriver, run_action_var, check_status}
use robot_arm_2d.Motor.Serial.{Port}
use robot_arm_2d.Prelude.{
  ℕ, zero, suc, ◌-◌, Bool, true, false, not, ◌||◌, List, [], ◌∷◌, Option, none, some, ◌>>=◌, Bytes,
  codes, get_elem?, set, ltb, ◌==◌, if◌then◌else◌,
}
use robot_arm_2d.Prelude.Int.{ℤ}
use robot_arm_2d.StdMap
use robot_arm_2d.Text.Decimal.{format_int}
use robot_arm_2d.Text.Find.{behind}
use robot_arm_2d.Text.Split.{split_string, to_items}

-- The arm with its motors. `use_simulations` is sg_use_simulations.
pub record Machine {ℓ} (D : Type ℓ) : Type ℓ where
  pub use_simulations : Bool
  pub motors : List (MotorDriver D)
  pub port : Port
  pub size : ArmSize D
  pub arm : ArmConfiguration D
  pub current_x : D
  pub current_y : D

-- `if ( motor > 0 ) motor--`, for a number that is not negative.
abbrev pub motor_index : ℕ → ℕ
motor_index motor = motor - 1

-- The text of a coordinate pair: `X` in front, a `(` goes.
abbrev pub drop_paren : Bytes → Bytes
drop_paren [] = []
drop_paren (c ∷ s) = if c == b'(' then s else c ∷ s

module _ {ℓ} {D : Type ℓ} where
  -- A motor and the line after an action.
  abbrev pub put_motor : ℕ → Machine D → MotorDriver D × Port → Machine D
  put_motor i m r = record m { motors = set m.motors i (r.0); port = r.1 }

  -- `!(md->check_status(19,noisy))`. A place of the array without a motor holds NULL, and then the
  -- answer is false; `none` stands for an index behind the array.
  unfoldable pub check_motion_status : Bool → ℕ → Machine D → Option (Bool × Machine D)
  check_motion_status noisy motor m = elim (get_elem? m.motors (motor_index motor)) [
    | none ↦ if ltb (motor_index motor) max_drive_count then some (false, m) else none
    | some md ↦ check_status m.use_simulations noisy md m.port >>= λ r.
        some (not r.0, put_motor (motor_index motor) m (r.1, r.2))
  ]

  -- `while ( in_motion ) { … }` of `move_by_command`: the two motors are asked in turn, as long as one
  -- of them is in motion. `none` means that the fuel ran out.
  unfoldable pub wait_both : ℕ → Machine D → Option (Machine D)
  wait_both zero m = none
  wait_both (suc fuel) m = check_motion_status true 1 m >>= λ r₁.
      (check_motion_status true 2 r₁.1 >>= λ r₂.
      (let rest = wait_both fuel r₂.1 in if r₁.0 || r₂.0 then rest else some r₂.1))

  -- The loop of `stepper_by_command`.
  unfoldable pub wait_one : ℕ → ℕ → Machine D → Option (Machine D)
  wait_one zero motor m = none
  wait_one (suc fuel) motor m = check_motion_status true motor m >>= λ r.
      (let rest = wait_one fuel motor r.1 in if r.0 then rest else some r.1)

module _ {ℓ} {D : Type ℓ} ⦃d : Double D⦄ where
  -- `n_steps = (int)(n_steps*md->gear_ratio())`
  abbrev pub geared_steps : ℤ → MotorDriver D → ℤ
  geared_steps n_steps md = d.to_int (d.mul (d.of_int n_steps) md.gear_ratio)

  unfoldable pub step_n_motion : ℕ → ℤ → Machine D → Option (Machine D)
  step_n_motion motor n_steps m = elim (get_elem? m.motors (motor_index motor)) [
    | none ↦ none
    | some md ↦
        run_action_var m.use_simulations (codes "single_motion_var") (codes "STEPS")
          (format_int (geared_steps n_steps md)) md m.port
        >>= λ r. some (put_motor (motor_index motor) m r)
  ]

  -- In a simulation there is no wait.
  unfoldable pub move_by_command : ℕ → D → D → Machine D → Option (Machine D)
  move_by_command fuel x y m =
      let arm = set_target m.size x y m.arm in
      step_n_motion 1 arm.canister_current_steps (record m { arm = arm }) >>= λ m₁.
      (step_n_motion 2 arm.elbow_current_steps m₁ >>= λ m₂.
      ((if m₂.use_simulations then some m₂ else wait_both fuel m₂) >>= λ m₃.
      some (record m₃ { current_x = x; current_y = y })))

  unfoldable pub stepper_by_command : ℕ → ℕ → ℤ → Machine D → Option (Machine D)
  stepper_by_command fuel motor steps m = step_n_motion motor steps m >>= λ m₁.
      if m₁.use_simulations then some m₁ else wait_one fuel motor m₁

  unfoldable pub move_by_vector : ℕ → D → D → Machine D → Option (Machine D)
  unfolding move_by_command
  move_by_vector fuel radius theta m =
      move_by_command fuel (d.add (d.mul radius (d.cos theta)) m.current_x)
        (d.add (d.mul radius (d.sin theta)) m.current_y) m

  -- `move_to_position` on the text that was typed, without the report.
  unfoldable pub move_to_position : ℕ → Bytes → Machine D → Option (Machine D)
  unfolding move_by_command
  move_to_position fuel xy_pair m =
      let pair = drop_paren xy_pair in
      move_by_command fuel (d.atof pair) (d.atof (behind b',' pair)) m

  -- The loop of `move_to_position_list`.
  unfoldable pub move_to_coords : ℕ → List Bytes → Machine D → Option (Machine D)
  move_to_coords fuel [] m = some m
  move_to_coords fuel (coord ∷ coords) m =
      let pair = split_string coord [] b',' in
      move_by_command fuel (d.atof pair.0) (d.atof pair.1) m >>= λ m'. move_to_coords fuel coords m'

  -- `move_to_position_list` on the text of `TEST_POSITIONS`.
  unfoldable pub move_to_position_list : ℕ → Bytes → Machine D → Option (Machine D)
  move_to_position_list fuel positions m =
      to_items positions 32 >>= λ coords. move_to_coords fuel coords m
