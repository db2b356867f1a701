-- ===== src/Scan/Home.antt =====
-- release/build/arm_2d.cpp: arm_to_home in a simulation.
use robot_arm_2d.Double.{Double}
use robot_arm_2d.Motion.{Machine}
use robot_arm_2d.Prelude.{ℕ, ◌<◌, ◌≡◌, refl, sym, subst, true, none, some, arith, length, All}
use robot_arm_2d.Prelude.Int.{pos}
use robot_arm_2d.Prelude.Results.{gives, Gives, Gives-bind, Gives-result}
use robot_arm_2d.Scan.Ready.{IsReady, stepper_by_command-IsReady}
use robot_arm_2d.Scan.Sweep.{arm_to_home}
use robot_arm_2d.Scene.{Scene, clear_targets, point_in_time_best_match}
use robot_arm_2d.Scene.Cleared.{clear_targets-unmatched}

module _ {ℓ} {D : Type ℓ} ⦃d : Double D⦄ where
  -- The stores have no match of the moment, and a look at them leaves the place as it is.
  abbrev pub IsUnmatched : D → D → Scene D → Type ℓ
  IsUnmatched x_hat y_hat scene =
      (scene' : Scene D) × (point_in_time_best_match x_hat y_hat scene
        ≡ some (none, (x_hat, y_hat), scene'))

  pub arm_to_home-IsReady :
      (fuel : ℕ) (scene : Scene D) (m : Machine D)
      → IsReady m
      → Gives (λ r. (r.0 ≡ clear_targets scene) × IsReady r.1) (arm_to_home fuel scene m)
  arm_to_home-IsReady fuel scene m ready =
      unfold arm_to_home in
      Gives-bind (stepper_by_command-IsReady fuel 1 (pos 0) m (omega arith) ready) (λ m₁ ready₁.
        Gives-bind (stepper_by_command-IsReady fuel 2 (pos 0) m₁ (omega arith) ready₁)
          (λ m₂ ready₂. gives (refl, ready₂)))

  -- In a simulation with the two motors the way home ends, the machine is still one with two
  -- motors, and what the targets had seen is forgotten: until a report comes no target matches, and
  -- a look for a match leaves the place as it is. Every pointer of the storage is that of a target
  -- that was made.
  pub arm_to_home_total :
      (fuel : ℕ) (x_hat y_hat : D) (scene : Scene D) (m : Machine D)
      → m.use_simulations ≡ true
      → 1 < length m.motors
      → All (λ r. r < length scene.targets) scene.storage
      → (r : Scene D × Machine D) × (arm_to_home fuel scene m ≡ some r)
        × IsUnmatched x_hat y_hat r.0
        × IsReady r.1
  arm_to_home_total fuel x_hat y_hat scene m sim two made =
      let (r, e, (same, ready)) = Gives-result (arm_to_home-IsReady fuel scene m (sim, two)) in
      (
        r,
        e,
        subst (IsUnmatched x_hat y_hat) (sym same) (clear_targets-unmatched x_hat y_hat scene made),
        ready,
      )
