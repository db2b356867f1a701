-- ===== src/Arm.antt =====
-- release/build/m_commands.xpp: Arm_Configuration, the geometry of the arm.
pub mod Laws
mod Tests
use robot_arm_2d.Double.{Double}
use robot_arm_2d.Prelude.{Bool, Bytes, if◌then◌else◌}
use robot_arm_2d.Prelude.Int.{ℤ, pos, ◌-ℤ◌, negate}
use robot_arm_2d.Target.{pi}
use robot_arm_2d.Text.Decimal.{format_int}

-- The sizes of the arm, globals that the parameters may change. The step counts are `unsigned int` and
-- enter every formula as `double`.
pub record ArmSize {ℓ} (D : Type ℓ) : Type ℓ where
  pub arm_1_length : D
  pub arm_2_length : D
  pub canister_radius : D
  pub canister_step : D
  pub elbow_step : D

pub record ArmConfiguration {ℓ} (D : Type ℓ) : Type ℓ where
  pub target_x : D
  pub target_y : D
  -- the rotation that is wanted of the canister
  pub theta : D
  pub alpha : D
  pub base_radius : D
  pub max_r : D
  pub beta : D
  pub canister_delta : D
  pub elbow_delta : D
  pub epsilon : D
  pub canister_current_steps : ℤ
  pub elbow_current_steps : ℤ
  pub canister_prev_steps : ℤ
  pub elbow_prev_steps : ℤ
  pub start_angle : D
  pub start_radius : D
  pub canister_origin_steps : ℤ
  pub canister_radial_delta : D
  pub elbow_radial_delta : D

module _ {ℓ} {D : Type ℓ} where
  unfoldable pub canister_relative_steps : ArmConfiguration D → ℤ
  canister_relative_steps arm = arm.canister_current_steps -ℤ arm.canister_prev_steps

  unfoldable pub elbow_relative_steps : ArmConfiguration D → ℤ
  elbow_relative_steps arm = arm.elbow_current_steps -ℤ arm.elbow_prev_steps

  abbrev pub canister_current_steps_str : ArmConfiguration D → Bytes
  canister_current_steps_str arm = format_int arm.canister_current_steps

  abbrev pub elbow_current_steps_str : ArmConfiguration D → Bytes
  elbow_current_steps_str arm = format_int arm.elbow_current_steps

  unfoldable pub handle_point_out_of_range : ArmConfiguration D → ArmConfiguration D
  handle_point_out_of_range arm = record arm {
    canister_current_steps = pos 0;
    elbow_current_steps = pos 0;
  }

module _ {ℓ} {D : Type ℓ} ⦃d : Double D⦄ where
  abbrev pub default_size : ArmSize D
  default_size = record {
    arm_1_length = d.lit 24 0;
    arm_2_length = d.lit 22 0;
    canister_radius = d.lit 15 0;
    canister_step = d.lit 20_000 0;
    elbow_step = d.lit 20_000 0;
  }

  -- TWO_PI
  abbrev pub two_pi : D
  two_pi = d.mul pi (d.lit 2 0)

  -- The first part of the arm, from the middle of the canister.
  abbrev pub first_part : ArmSize D → D
  first_part size = d.add size.arm_1_length size.canister_radius

  -- The constructor. It does not set `_beta`, the start and the origin, which stay as they are in
  -- the memory: `junk` and `junk_steps`.
  unfoldable pub new_arm : ArmSize D → D → ℤ → ArmConfiguration D
  new_arm size junk junk_steps = record {
    target_x = d.lit 0 0;
    target_y = d.lit 0 0;
    theta = d.lit 0 0;
    alpha = d.lit 0 0;
    base_radius = d.lit 0 0;
    max_r = d.add (d.add size.arm_1_length size.arm_2_length) size.canister_radius;
    beta = junk;
    canister_delta = d.div size.canister_step two_pi;
    elbow_delta = d.div size.elbow_step two_pi;
    epsilon = d.lit 5 3;
    canister_current_steps = pos 0;
    elbow_current_steps = pos 0;
    canister_prev_steps = pos 0;
    elbow_prev_steps = pos 0;
    start_angle = junk;
    start_radius = junk;
    canister_origin_steps = junk_steps;
    canister_radial_delta = d.div (d.lit 1 0) (d.div size.canister_step two_pi);
    elbow_radial_delta = d.div (d.lit 1 0) (d.div size.elbow_step two_pi);
  }

  unfoldable pub rotation_to_cartesian : ArmSize D → D → D → ArmConfiguration D → D × D
  rotation_to_cartesian size rad1 rad2 arm =
      let theta1 = d.mul rad1 arm.canister_radial_delta in
      let theta2 = d.mul rad2 arm.elbow_radial_delta in
      let gama = d.sub (d.sub pi theta1) theta2 in
      let l1 = d.add size.canister_radius size.arm_1_length in
      (
        d.add (d.mul size.arm_2_length (d.cos gama)) (d.mul l1 (d.cos theta1)),
        d.add (d.mul size.arm_2_length (d.sin gama)) (d.mul l1 (d.sin theta1)),
      )

  -- The angle of the target, at a radius that is not 0.
  abbrev pub angle_of : D → D → D → D
  angle_of x y radius =
      let angle = d.acos (d.div x radius) in
      if d.lt y (d.lit 0 0) then d.sub two_pi angle else angle

  unfoldable pub to_circular : ArmConfiguration D → ArmConfiguration D
  to_circular arm =
      let radius =
        d.sqrt (d.add (d.mul arm.target_x arm.target_x) (d.mul arm.target_y arm.target_y)) in
      record arm {
        base_radius = radius;
        theta =
            if d.eq radius (d.lit 0 0)
            then d.lit 0 0
            else angle_of arm.target_x arm.target_y radius;
      }

  -- The angles between A and C, B and C, and A and B.
  unfoldable pub sides_to_angles : D → D → D → D × D × D
  sides_to_angles a b base =
      let x =
        d.div (d.add (d.sub (d.mul a a) (d.mul b b)) (d.mul base base)) (d.mul (d.lit 2 0) base) in
      let angle_ac = d.acos (d.div x a) in
      let angle_bc = d.acos (d.div (d.sub base x) b) in
      (angle_ac, angle_bc, d.sub (d.sub pi angle_ac) angle_bc)

  unfoldable pub canister_steps : ArmConfiguration D → ArmConfiguration D
  canister_steps arm = record arm {
    canister_prev_steps = arm.canister_current_steps;
    canister_current_steps =
        negate (d.to_int (d.floor (d.mul (d.add arm.alpha arm.theta) arm.canister_delta)));
  }

  unfoldable pub elbow_steps : ArmConfiguration D → ArmConfiguration D
  elbow_steps arm = record arm {
    elbow_prev_steps = arm.elbow_current_steps;
    elbow_current_steps = negate (d.to_int (d.floor (d.mul arm.beta arm.elbow_delta)));
  }

  -- The angles at the base radius: cases A, B and C.
  unfoldable pub choose_angles : ArmSize D → D → D × D
  choose_angles size radius =
      let far = sides_to_angles (first_part size) size.arm_2_length radius in
      let near = sides_to_angles size.arm_2_length radius (first_part size) in
      if d.le (first_part size) radius
      then (far.0, far.2)
      else if d.lt size.arm_2_length radius
      then (near.1, near.0)
      else if d.le (d.add size.arm_2_length radius) (first_part size)
      then (d.lit 0 0, d.lit 0 0)
      else (near.1, near.0)

  -- The base radius is at least the start radius.
  unfoldable pub limit_radius : ArmConfiguration D → ArmConfiguration D
  limit_radius arm =
      if d.lt arm.base_radius arm.start_radius
      then record arm { base_radius = arm.start_radius }
      else arm

  -- `(_max_r - _epsilon) < _base_radius`
  abbrev pub out_of_range : ArmConfiguration D → Bool
  out_of_range arm = d.lt (d.sub arm.max_r arm.epsilon) arm.base_radius

  -- `set_target` behind the test of the range.
  unfoldable pub aim : ArmSize D → ArmConfiguration D → ArmConfiguration D
  unfolding choose_angles
  aim size arm =
      let angles = choose_angles size arm.base_radius in
      elbow_steps (canister_steps (record arm { alpha = angles.0; beta = angles.1 }))

  unfoldable pub set_target : ArmSize D → D → D → ArmConfiguration D → ArmConfiguration D
  set_target size x y arm =
      let placed = limit_radius (to_circular (record arm { target_x = x; target_y = y })) in
      if out_of_range placed then handle_point_out_of_range placed else aim size placed

  -- `set_mininum_radius`: both assignments write `_canister_origin_steps`.
  unfoldable pub set_mininum_radius : ArmSize D → D → ArmConfiguration D → ArmConfiguration D
  unfolding set_target
  set_mininum_radius size radius arm =
      let started = record arm { start_radius = radius; start_angle = d.lit 0 0 } in
      let aimed = set_target size radius (d.lit 0 0) started in
      record aimed { canister_origin_steps = aimed.elbow_current_steps }
