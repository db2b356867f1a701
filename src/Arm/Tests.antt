-- ===== src/Arm/Tests.antt =====
-- set_target twice for a place in the range of the arm.
use robot_arm_2d.Arm.{
  ArmSize, ArmConfiguration, default_size, new_arm, set_target, canister_relative_steps,
  elbow_relative_steps,
}
use robot_arm_2d.Arm.Laws.{set_target-set_target}
use robot_arm_2d.Double.Naturals.{naturals}
use robot_arm_2d.Prelude.{ℕ, ◌≡◌, refl}
use robot_arm_2d.Prelude.Int.{pos}

abbrev arm : ArmConfiguration ℕ
arm = new_arm default_size 0 (pos 0)

set_target-set_target_example :
    (canister_relative_steps (set_target default_size 3 4 (set_target default_size 3 4 arm))
      ≡ pos 0)
    × (elbow_relative_steps (set_target default_size 3 4 (set_target default_size 3 4 arm)) ≡ pos 0)
unfolding robot_arm_2d.Arm.limit_radius robot_arm_2d.Arm.to_circular new_arm
set_target-set_target_example = set_target-set_target default_size 3 4 arm refl
