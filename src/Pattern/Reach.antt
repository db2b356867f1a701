-- ===== src/Pattern/Reach.antt =====
-- release/build/arm_2d.cpp: the stores of targets and sensors as a state machine. The threads' reports
-- and the commands that use the stores are its steps, in any order.
use robot_arm_2d.Config.{Params}
use robot_arm_2d.Double.{Double}
use robot_arm_2d.Motion.{Machine}
use robot_arm_2d.Pattern.{travel, locate_in_cell, move_to_pattern, move_relative_to_pattern}
use robot_arm_2d.Pattern.Pointers.{
  travel-IsSound, move_to_pattern-IsSound, move_relative_to_pattern-IsSound, locate_in_cell-IsSound,
}
use robot_arm_2d.Prelude.{ℕ, ◌≡◌, List, Option, some, Bytes}
use robot_arm_2d.Prelude.Results.{Holds-some}
use robot_arm_2d.Scene.{Scene, clear_targets, emit_to_target, point_in_time_best_match}
use robot_arm_2d.Scene.Pointers.{IsSound}
use robot_arm_2d.Scene.Operations.{
  clear_targets-IsSound, emit_to_target-IsSound, point_in_time_best_match-IsSound,
}
use robot_arm_2d.Startup.{no_stores, init_sensor_descriptions}
use robot_arm_2d.Startup.Pointers.{init_sensor_descriptions-IsSound}

-- One operation on the stores.
pub data Step {ℓ} {D : Type ℓ} ⦃d : Double D⦄ (scene : Scene D) : Scene D → Type ℓ where
  report_comes : (key report : Bytes) → Step scene (emit_to_target key report scene)
  targets_cleared : Step scene (clear_targets scene)
  targets_matched :
      (x_hat y_hat : D) {o : Option ℕ × (D × D) × Scene D}
      → point_in_time_best_match x_hat y_hat scene ≡ some o
      → Step scene o.2
  pattern_looked_up : (pattern_id : Bytes) → Step scene (travel pattern_id scene).1
  moved_to_pattern :
      (fuel : ℕ) (events : List (List (Bytes × Bytes))) (pattern_id : Bytes) (m : Machine D)
      {r : Scene D × Machine D}
      → move_to_pattern fuel events pattern_id scene m ≡ some r
      → Step scene r.0
  moved_relative :
      (fuel : ℕ) (events : List (List (Bytes × Bytes))) (pattern_id : Bytes) (m : Machine D)
      {r : Scene D × Machine D}
      → move_relative_to_pattern fuel events pattern_id scene m ≡ some r
      → Step scene r.0
  cell_located :
      (current_target : ℕ) (refs : List ℕ) (xy : D × D) {o : Option ℕ × (D × D) × Scene D}
      → locate_in_cell current_target refs xy scene ≡ some o
      → Step scene o.2

-- What a start with these parameters and then any steps reach.
pub data Reach {ℓ} {D : Type ℓ} ⦃d : Double D⦄ (params : Params) : Scene D → Type ℓ where
  started :
      (junk : D) (canister elbow : Bytes) {scene : Scene D}
      → init_sensor_descriptions junk canister elbow (no_stores params) ≡ some scene
      → Reach params scene
  later : {scene scene' : Scene D} → Reach params scene → Step scene scene' → Reach params scene'

module _ {ℓ} {D : Type ℓ} ⦃d : Double D⦄ where
  Step-IsSound : {scene scene' : Scene D} → Step scene scene' → IsSound scene → IsSound scene'
  Step-IsSound {scene} (report_comes key report) h = emit_to_target-IsSound key report scene h
  Step-IsSound {scene} targets_cleared h = clear_targets-IsSound scene h
  Step-IsSound {scene} (targets_matched x_hat y_hat e) h =
      Holds-some (λ o. IsSound o.2) _ _ (point_in_time_best_match-IsSound x_hat y_hat scene h) e
  Step-IsSound {scene} (pattern_looked_up pattern_id) h = travel-IsSound pattern_id scene h
  Step-IsSound {scene} (moved_to_pattern fuel events pattern_id m e) h =
      Holds-some (λ r. IsSound r.0) _ _ (move_to_pattern-IsSound fuel events pattern_id scene m h) e
  Step-IsSound {scene} (moved_relative fuel events pattern_id m e) h =
      Holds-some (λ r. IsSound r.0) _ _
        (move_relative_to_pattern-IsSound fuel events pattern_id scene m h) e
  Step-IsSound {scene} (cell_located current_target refs xy e) h =
      Holds-some (λ o. IsSound o.2) _ _ (locate_in_cell-IsSound current_target refs xy scene h) e

  -- In every state of the stores that a start and any operations after it reach, no matter in which
  -- order the threads' reports come: each pointer of the storage is that of a target that was made,
  -- each pointer of the two maps of targets is that or NULL, and each pointer of the map of the
  -- sensors and each target's own pointer is that of a sensor that was made, or NULL.
  pub Reach-IsSound : {params : Params} {scene : Scene D} → Reach params scene → IsSound scene
  Reach-IsSound {params} (started junk canister elbow e) =
      Holds-some IsSound _ _ (init_sensor_descriptions-IsSound junk canister elbow params) e
  Reach-IsSound (later reach step) = Step-IsSound step (Reach-IsSound reach)
