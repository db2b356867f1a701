-- ===== src/Aim/Laws.antt =====
-- release/build/arm_2d.cpp: target_to_arm and target_to_arm_quiet, laws.
use robot_arm_2d.Aim.{Aimed, Errors, target_to_arm, target_to_arm_quiet}
use robot_arm_2d.Double.{Double}
use robot_arm_2d.Motion.{Machine}
use robot_arm_2d.Pattern.{travel, sensor_of}
use robot_arm_2d.Prelude.{◌≡◌, refl, Bool, some, inl, inr, ◌>>=◌, Bytes, get_elem?, Option-cases}
use robot_arm_2d.Scene.{Scene}

module _ {ℓ} {D : Type ℓ} ⦃d : Double D⦄ where
  -- What `target_to_arm` leaves behind, without its prints.
  abbrev pub silent : Aimed D → (D × D) × Errors × Scene D
  silent aimed = (aimed.place, aimed.errors, aimed.scene)

  -- `target_to_arm` and `target_to_arm_quiet` compute the same place, raise the same errors and leave
  -- the same stores behind, whether the configuration is noisy or not, and one needs a sensor
  -- exactly where the other does.
  pub target_to_arm-quiet :
      (g_config_noisy : Bool) (pattern_id : Bytes) (xy : D × D) (scene : Scene D) (m : Machine D)
      (errors : Errors)
      → (target_to_arm g_config_noisy pattern_id xy scene m errors >>= λ aimed. some (silent aimed))
        ≡ target_to_arm_quiet pattern_id xy scene m errors
  target_to_arm-quiet g pattern_id xy scene m errors =
      elim (Option-cases (travel pattern_id scene).0) [
        | inl e ↦
            unfold target_to_arm target_to_arm_quiet in
            rw (e, target_to_arm, target_to_arm_quiet) refl
        | inr (r, e) ↦ elim (Option-cases (get_elem? (travel pattern_id scene).1.targets r)) [
          | inl k ↦
              unfold target_to_arm target_to_arm_quiet in
              rw (e, k, target_to_arm, target_to_arm_quiet) refl
          | inr (t, k) ↦ elim (Option-cases (sensor_of t (travel pattern_id scene).1)) [
            | inl l ↦
                unfold target_to_arm target_to_arm_quiet in
                rw (e, k, l, target_to_arm, target_to_arm_quiet) refl
            | inr (s, l) ↦
                unfold target_to_arm target_to_arm_quiet in
                rw (e, k, l, target_to_arm, target_to_arm_quiet) refl
          ]
        ]
      ]
