-- ===== src/Arm/Laws.antt =====
-- release/build/m_commands.xpp: set_target, called again for the same place.
use robot_arm_2d.Arm.{
  ArmSize, ArmConfiguration, to_circular, limit_radius, out_of_range, aim, set_target,
  canister_relative_steps, elbow_relative_steps, canister_steps, elbow_steps,
  handle_point_out_of_range,
}
use robot_arm_2d.Double.{Double}
use robot_arm_2d.Prelude.{◌≡◌, refl, ap, ◌∙◌, true, false, arith}
use robot_arm_2d.Prelude.Int.{ℤ, pos, ◌-ℤ◌, sub_self}

module _ {ℓ} {D : Type ℓ} ⦃d : Double D⦄ where
  -- The arm with its target placed, before the range is tested.
  abbrev placed : D → D → ArmConfiguration D → ArmConfiguration D
  placed x y arm = limit_radius (to_circular (record arm { target_x = x; target_y = y }))

  set_target-in :
      (size : ArmSize D) (x y : D) (arm : ArmConfiguration D)
      → out_of_range (placed x y arm) ≡ false
      → set_target size x y arm ≡ aim size (placed x y arm)
  unfolding set_target
  set_target-in size x y arm e = rw e refl

  set_target-out :
      (size : ArmSize D) (x y : D) (arm : ArmConfiguration D)
      → out_of_range (placed x y arm) ≡ true
      → set_target size x y arm ≡ handle_point_out_of_range (placed x y arm)
  unfolding set_target
  set_target-out size x y arm e = rw e refl

  aim_again :
      (size : ArmSize D) (x y : D) (arm : ArmConfiguration D)
      → let once = aim size (placed x y arm) in
        let twice = aim size (placed x y once) in
        (out_of_range (placed x y once) ≡ out_of_range (placed x y arm))
        × (twice.canister_current_steps ≡ twice.canister_prev_steps)
        × (twice.elbow_current_steps ≡ twice.elbow_prev_steps)
  unfolding limit_radius to_circular aim canister_steps elbow_steps
  aim_again size x y arm = ground arith

  -- In the arm's range a second call of `set_target` for the same place asks for no steps: both
  -- relative step counts are 0.
  pub set_target-set_target :
      (size : ArmSize D) (x y : D) (arm : ArmConfiguration D)
      → out_of_range (limit_radius (to_circular (record arm { target_x = x; target_y = y })))
        ≡ false
      → (canister_relative_steps (set_target size x y (set_target size x y arm)) ≡ pos 0)
        × (elbow_relative_steps (set_target size x y (set_target size x y arm)) ≡ pos 0)
  unfolding canister_relative_steps elbow_relative_steps
  set_target-set_target size x y arm e =
      let (same, c, l) = aim_again size x y arm in
      rw (set_target-in size x y arm e) (
        rw (set_target-in size x y (aim size (placed x y arm)) (same ∙ e))
          (relative_zero c, relative_zero l))
    where
      relative_zero : {i j : ℤ} → i ≡ j → i -ℤ j ≡ pos 0
      relative_zero {i} {j} p = ap (λ k. k -ℤ j) p ∙ sub_self j
