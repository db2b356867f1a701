-- ===== src/Pattern/Laws.antt =====
-- release/build/arm_2d.cpp: the loop of to_target.
use robot_arm_2d.Double.{Double}
use robot_arm_2d.Motion.{Machine, move_by_command}
use robot_arm_2d.Pattern.{to_loop, to_target, locate_in_cell, or_goal}
use robot_arm_2d.Prelude.{ℕ, zero, suc, ◌≡◌, refl, false, List, [], Option, none, some, ◌>>=◌}
use robot_arm_2d.Scene.{
  Scene, goal_setup, at_goal, schedule_relative_targets, prepare_first_tier_targets,
}

bind-none {ℓ κ} :
    {A : Type ℓ} {B : Type κ} (o : Option A) (f : A → Option B)
    → ((a : A) → f a ≡ none)
    → (o >>= f) ≡ none
bind-none none f h = refl
bind-none (some a) f h = h a

at_goal-false : (goal current_target : Option ℕ) → at_goal goal current_target ≡ false
unfolding at_goal
at_goal-false goal none = refl
at_goal-false goal (some r) = refl

module _ {ℓ} {D : Type ℓ} ⦃d : Double D⦄ where
  to_loop-none :
      (fuel goal : ℕ) (current_target : Option ℕ) (t_set : List ℕ) (xy : D × D) (scene : Scene D)
      (m : Machine D)
      → to_loop fuel goal current_target t_set xy scene m ≡ none
  unfolding to_loop
  to_loop-none zero goal current_target t_set xy scene m = refl
  to_loop-none (suc fuel) goal current_target t_set xy scene m =
      rw (at_goal-false (some goal) current_target) (
        bind-none (locate_in_cell (or_goal goal current_target) t_set xy scene) _ (λ found.
          bind-none (move_by_command fuel found.1.0 found.1.1 m) _ (λ m'.
            to_loop-none fuel goal found.0 (schedule_relative_targets found.2 found.0 t_set) found.1
              found.2 m')))

  -- Where a target has the id `goal`, `to_target` does not come back: no fuel is enough.
  pub to_target_endless :
      (fuel goal : ℕ) (scene : Scene D) (m : Machine D)
      → goal_setup scene ≡ some (some goal)
      → to_target fuel scene m ≡ none
  unfolding to_target
  to_target_endless fuel goal scene m e =
      rw (e, to_target)
        (to_loop-none fuel goal none (prepare_first_tier_targets scene []) (d.lit 0 0, d.lit 0 0)
          scene m)
