-- ===== src/Aim.antt =====
-- release/build/arm_2d.cpp: target_to_arm, target_to_arm_quiet and report_arm_position; the two angles
-- from release/build/m_commands.xpp; release/build/app_errors.h.
pub mod Laws
mod Tests
use robot_arm_2d.Arm.{ArmConfiguration}
use robot_arm_2d.Double.{Double}
use robot_arm_2d.Motion.{Machine}
use robot_arm_2d.Pattern.{travel, sensor_of}
use robot_arm_2d.Prelude.{
  ℕ, Bool, true, false, List, [], ◌∷◌, ◌++◌, Option, none, some, ◌>>=◌, Bytes, codes, get_elem?,
  if◌then◌else◌,
}
use robot_arm_2d.Scene.{Scene}
use robot_arm_2d.Target.{Target, pi, fov_center_offset}
use robot_arm_2d.Transform.{rotate_2d}

-- software_error_type
pub data SoftwareErrorType : Type 0 where
  arm_soft_error_none : SoftwareErrorType
  arm_soft_error_null_pointer : SoftwareErrorType
  arm_soft_error_max : SoftwareErrorType

-- sg_error_is_soft and sg_soft_error
pub record Errors : Type 0 where
  pub is_soft : Bool
  pub soft_error : SoftwareErrorType

abbrev pub no_error : Errors
no_error = record { is_soft = false; soft_error = arm_soft_error_none }

-- `software_error`, without the print.
abbrev pub software_error : SoftwareErrorType → Errors → Errors
software_error sert errors = record errors { is_soft = true; soft_error = sert }

-- The place of `x` and `y`, what was printed, the errors and the stores. A line of
-- print is its heading and its numbers.
pub record Aimed {ℓ} (D : Type ℓ) : Type ℓ where
  pub place : D × D
  pub printed : List (Bytes × List D)
  pub errors : Errors
  pub scene : Scene D

module _ {ℓ} {D : Type ℓ} where
  abbrev pub elbow_angle : ArmConfiguration D → D
  elbow_angle arm = arm.beta

  -- `goal_offset` of a target.
  abbrev pub goal_offset : Target D → D × D
  goal_offset t = (t.goal_x, t.goal_y)

module _ {ℓ} {D : Type ℓ} ⦃d : Double D⦄ where
  abbrev pub base_angle : ArmConfiguration D → D
  base_angle arm = d.add arm.alpha arm.theta

  -- `x += dx; y += dy`
  abbrev pub shift : D × D → D × D → D × D
  shift (x, y) (dx, dy) = (d.add x dx, d.add y dy)

  -- What is printed if `g_config_noisy` is set.
  abbrev noisy : Bool → Bytes → List D → List (Bytes × List D)
  noisy g_config_noisy heading numbers = if g_config_noisy then (heading, numbers) ∷ [] else []

  -- The lines that `target_to_arm` prints, from the places it goes through.
  abbrev report_aim :
      Bool
      → Machine D
      → Target D
      → D × D
      → D × D
      → D × D
      → D × D
      → D × D
      → D × D
      → List (Bytes × List D)
  report_aim g m t turned_1 turned_2 focus goal goal_turned place =
      let c₁ = d.sub pi (elbow_angle m.arm) in
      let c₂ = d.sub (d.div pi (d.lit 2 0)) (base_angle m.arm) in
      noisy g (codes "FROM CAMERA") (t.fov_x ∷ t.fov_y ∷ t.fov_theta ∷ t.fov_match ∷ [])
      ++ (noisy g (codes "CURRENT") (m.current_x ∷ m.current_y ∷ [])
          ++ (noisy g (codes "(rotate_2d)") (turned_1.0 ∷ turned_1.1 ∷ c₁ ∷ elbow_angle m.arm ∷ [])
              ++ (noisy g (codes "(rotate_2d)")
                    (turned_2.0 ∷ turned_2.1 ∷ c₂ ∷ base_angle m.arm ∷ [])
                  ++ (noisy g (codes "(translate to focus)") (focus.0 ∷ focus.1 ∷ [])
                      ++ (noisy g (codes "(goal_offset)") (goal.0 ∷ goal.1 ∷ t.fov_theta ∷ [])
                          ++ (noisy g (codes "(goal_offset after rotation)")
                                (goal_turned.0 ∷ goal_turned.1 ∷ [])
                              ++ noisy g (codes "(translate to goal)")
                                  (place.0 ∷ place.1 ∷ [])))))))

  -- `target_to_arm`. An unknown pattern is a software error, and the place stays as it is; `none`
  -- stands for a target that is not there or has no sensor.
  unfoldable pub target_to_arm :
      Bool → Bytes → D × D → Scene D → Machine D → Errors → Option (Aimed D)
  target_to_arm g_config_noisy pattern_id xy scene m errors =
      let found = travel pattern_id scene in
      elim (found.0) [
        | none ↦ some (record {
          place = xy;
          printed = (codes "NULL target to target_to_arm", []) ∷ [];
          errors = software_error arm_soft_error_null_pointer errors;
          scene = found.1;
        })
        | some r ↦ get_elem? found.1.targets r >>= λ t.
            (sensor_of t found.1 >>= λ s.
            (let seen = fov_center_offset s t.fov_x t.fov_y in
              let coord_rotate_1 = d.sub pi (elbow_angle m.arm) in
              let turned_1 = rotate_2d (d.neg coord_rotate_1) seen in
              let coord_rotate_2 = d.sub (d.div pi (d.lit 2 0)) (base_angle m.arm) in
              let turned_2 = rotate_2d (d.neg coord_rotate_2) turned_1 in
              let focus = shift turned_2 (m.current_x, m.current_y) in
              let goal_1 = rotate_2d t.fov_theta (goal_offset t) in
              let goal_2 = rotate_2d (d.neg coord_rotate_1) goal_1 in
              let goal_3 = rotate_2d (d.neg coord_rotate_2) goal_2 in
              let place = shift focus goal_3 in
              some (record {
                place = place;
                printed =
                    report_aim g_config_noisy m t turned_1 turned_2 focus (goal_offset t) goal_3
                      place;
                errors = errors;
                scene = found.1;
              })))
      ]

  -- `target_to_arm_quiet`: the place, the errors and the stores; what it prints is left out.
  unfoldable pub target_to_arm_quiet :
      Bytes → D × D → Scene D → Machine D → Errors → Option ((D × D) × Errors × Scene D)
  target_to_arm_quiet pattern_id xy scene m errors =
      let found = travel pattern_id scene in
      elim (found.0) [
        | none ↦ some (xy, software_error arm_soft_error_null_pointer errors, found.1)
        | some r ↦ get_elem? found.1.targets r >>= λ t.
            (sensor_of t found.1 >>= λ s.
            (let first = d.neg (d.sub pi (elbow_angle m.arm)) in
              let second = d.neg (d.sub (d.div pi (d.lit 2 0)) (base_angle m.arm)) in
              let seen = rotate_2d second (rotate_2d first (fov_center_offset s t.fov_x t.fov_y)) in
              let goal =
                rotate_2d second (rotate_2d first (rotate_2d t.fov_theta (goal_offset t))) in
              some (shift (shift seen (m.current_x, m.current_y)) goal, errors, found.1)))
      ]
