-- ===== src/Console/TestSound.antt =====
-- release/build/arm_2d.cpp: test_target_to_arm, and the pointers of the stores.
use robot_arm_2d.Aim.{Aimed, Errors, target_to_arm}
use robot_arm_2d.Console.TargetTest.{
  Measured, Choice, is_yes, given_up, chosen, use_measures, ask_measures, ask_camera, use_camera,
  choose_pattern, set_vars, repeat_moves, test_target_to_arm,
}
use robot_arm_2d.Console.Words.{read_word, first_char}
use robot_arm_2d.Double.{Double}
use robot_arm_2d.Motion.{Machine, move_by_command}
use robot_arm_2d.Pattern.{travel, sensor_of, deliver}
use robot_arm_2d.Pattern.Pointers.{deliver-IsSound, travel-IsSound}
use robot_arm_2d.Prelude.{
  ℕ, zero, suc, Bool, true, List, [], ◌∷◌, some, Bytes, codes, length, get_elem?, ◌==◌,
}
use robot_arm_2d.Prelude.Results.{
  Holds, Holds-bind, Holds-then, Holds-if, Holds-cases, Holds-get_elem,
}
use robot_arm_2d.Scan.{Events}
use robot_arm_2d.Scene.{Scene}
use robot_arm_2d.Scene.Pointers.{InRange, IsSound, IsSound-set}
use robot_arm_2d.Scene.Operations.{acquired_target-sensor}
use robot_arm_2d.Target.{acquired_target, set_test_measurements}
use robot_arm_2d.Text.Split.{to_items}

module _ {ℓ} {D : Type ℓ} ⦃d : Double D⦄ where
  use_measures-IsSound :
      (test : Measured D) (r : ℕ) (scene : Scene D)
      → IsSound scene
      → Holds IsSound (use_measures test r scene)
  use_measures-IsSound test r scene h =
      unfold use_measures set_test_measurements in
      (Holds-bind (λ t. InRange (length scene.sensor_array) t.sensor) IsSound
        (get_elem? scene.targets r) _ (Holds-get_elem _ scene.targets r h.sensor_made)
        (λ t p. IsSound-set scene r _ h p))

  target_to_arm-IsSound :
      (g : Bool) (pattern_id : Bytes) (xy : D × D) (scene : Scene D) (m : Machine D)
      (errors : Errors)
      → IsSound scene
      → Holds (λ aimed. IsSound aimed.scene) (target_to_arm g pattern_id xy scene m errors)
  target_to_arm-IsSound g pattern_id xy scene m errors h =
      unfold target_to_arm in
      (let P : Aimed D → Type 0 = λ aimed. IsSound aimed.scene in
        let found = travel pattern_id scene in
        let sound = travel-IsSound pattern_id scene h in
        Holds-cases P found.0 _ _ sound (λ r.
          Holds-then P (get_elem? found.1.targets r) _
            (λ t. Holds-then P (sensor_of t found.1) _ (λ s. sound))))

  -- The stores behind a test of target_to_arm.
  abbrev pub IsSoundTest : List Bytes × Scene D × Machine D × Errors → Type 0
  IsSoundTest o = IsSound o.1

  repeat_moves-IsSound :
      (fuel : ℕ) (pattern_id : Bytes) (r : ℕ) (controller : Bytes) (test : Measured D)
      (input : List Bytes) (scene : Scene D) (m : Machine D) (errors : Errors)
      → IsSound scene
      → Holds IsSoundTest (repeat_moves fuel pattern_id r controller test input scene m errors)
  unfolding repeat_moves
  repeat_moves-IsSound zero pattern_id r controller test input scene m errors h = tt
  repeat_moves-IsSound (suc fuel) pattern_id r controller test input scene m errors h =
      Holds-bind (λ aimed. IsSound aimed.scene) IsSoundTest
        (target_to_arm true pattern_id (d.lit 0 0, d.lit 0 0) scene m errors) _
        (target_to_arm-IsSound true pattern_id (d.lit 0 0, d.lit 0 0) scene m errors h)
        (λ aimed k.
          Holds-then IsSoundTest (move_by_command fuel aimed.place.0 aimed.place.1 m) _ (λ m'.
            (let word = read_word controller input in
              let camera = ask_camera m' word.1 in
              let var_set = read_word [] camera.1 in
              Holds-if IsSoundTest (first_char word.0 == b'q') _ _ k (
                Holds-if IsSoundTest camera.0 _ _
                  (repeat_moves-IsSound fuel pattern_id r word.0 test camera.1 aimed.scene m'
                    aimed.errors k)
                  (Holds-then IsSoundTest (to_items var_set.0 b',') _ (λ var_list.
                    (let asked = set_vars var_list var_set.1 test in
                      Holds-bind IsSound IsSoundTest (use_measures asked.0 r aimed.scene) _
                        (use_measures-IsSound asked.0 r aimed.scene k)
                        (λ scene' k'.
                          repeat_moves-IsSound fuel pattern_id r word.0 asked.0 asked.1 scene' m'
                            aimed.errors k'))))))))

  abbrev IsSoundChoice : Choice D → Type 0
  IsSoundChoice (given_up words scene) = IsSound scene
  IsSoundChoice (chosen pattern_id r test words events scene) = IsSound scene

  use_camera-IsSound :
      (pattern_id : Bytes) (r : ℕ) (words : List Bytes) (events : Events) (scene : Scene D)
      → IsSound scene
      → Holds IsSoundChoice (use_camera pattern_id r words events scene)
  unfolding use_camera
  use_camera-IsSound pattern_id r words [] scene h = tt
  use_camera-IsSound pattern_id r words (reports ∷ events) scene h =
      let seen = deliver reports scene in
      let h' = deliver-IsSound reports scene h in
      Holds-bind (λ t. InRange (length seen.sensor_array) t.sensor) IsSoundChoice
        (get_elem? seen.targets r) _ (Holds-get_elem _ seen.targets r h'.sensor_made)
        (λ t p.
          (let sound =
              IsSound-set seen r (acquired_target t).1 h' (rw (acquired_target-sensor t) p) in
            Holds-if IsSoundChoice (acquired_target t).0 _ _ sound
              (Holds-if IsSoundChoice (is_yes (read_word [] words).0) _ _ sound sound)))

  choose_pattern-IsSound :
      (fuel : ℕ) (pattern_id : Bytes) (input : List Bytes) (events : Events) (scene : Scene D)
      (m : Machine D)
      → IsSound scene
      → Holds IsSoundChoice (choose_pattern fuel pattern_id input events scene m)
  unfolding choose_pattern
  choose_pattern-IsSound zero pattern_id input events scene m h = tt
  choose_pattern-IsSound (suc fuel) pattern_id input events scene m h =
      let typed = read_word pattern_id input in
      let found = travel typed.0 scene in
      let sound = travel-IsSound typed.0 scene h in
      let camera = ask_camera m typed.1 in
      let asked = ask_measures {D = D} camera.1 in
      let answer = read_word [] typed.1 in
      Holds-cases IsSoundChoice found.0 _ _
        (Holds-if IsSoundChoice (is_yes answer.0) _ _
          (choose_pattern-IsSound fuel typed.0 answer.1 events found.1 m sound) sound)
        (λ r.
          Holds-if IsSoundChoice camera.0 _ _
            (use_camera-IsSound typed.0 r camera.1 events found.1 sound)
            (Holds-bind IsSound IsSoundChoice (use_measures asked.0 r found.1) _
              (use_measures-IsSound asked.0 r found.1 sound) (λ scene' k. k)))

  pub test_target_to_arm-IsSound :
      (fuel : ℕ) (events : Events) (input : List Bytes) (scene : Scene D) (m : Machine D)
      (errors : Errors)
      → IsSound scene
      → Holds IsSoundTest (test_target_to_arm fuel events input scene m errors)
  test_target_to_arm-IsSound fuel events input scene m errors h =
      unfold test_target_to_arm in
      (Holds-bind IsSoundChoice IsSoundTest
        (choose_pattern fuel (codes "alpha_Q") input events scene m) _
        (choose_pattern-IsSound fuel (codes "alpha_Q") input events scene m h) go)
    where
      go :
          (choice : Choice D)
          → IsSoundChoice choice
          → Holds IsSoundTest (elim choice [
            | given_up words scene' ↦ some (words, scene', m, errors)
            | chosen pattern_id r test words events' scene' ↦
                repeat_moves fuel pattern_id r (codes "yes") test words scene' m errors
          ])
      go (given_up words scene') k = k
      go (chosen pattern_id r test words events' scene') k =
          repeat_moves-IsSound fuel pattern_id r (codes "yes") test words scene' m errors k
