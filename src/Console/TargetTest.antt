-- ===== src/Console/TargetTest.antt =====
-- release/build/arm_2d.cpp: test_target_to_arm.
use robot_arm_2d.Aim.{Errors, target_to_arm}
use robot_arm_2d.Console.Words.{read_word, first_char}
use robot_arm_2d.Double.{Double}
use robot_arm_2d.Motion.{Machine, move_by_command}
use robot_arm_2d.Pattern.{travel, deliver}
use robot_arm_2d.Prelude.{
  ℕ, zero, suc, Bool, true, false, List, [], ◌∷◌, Option, none, some, ◌>>=◌, Bytes, codes,
  get_elem?, set, ◌==◌, if◌then◌else◌, equal,
}
use robot_arm_2d.Scan.{Events}
use robot_arm_2d.Scene.{Scene}
use robot_arm_2d.Target.{acquired_target, set_test_measurements}
use robot_arm_2d.Text.Split.{to_items}

-- test_x, test_y, test_theta and test_match, and the last word that was read for a number.
pub record Measured {ℓ} (D : Type ℓ) : Type ℓ where
  pub test_x : D
  pub test_y : D
  pub test_theta : D
  pub test_match : D
  pub value : Bytes

-- How the choice of a pattern ends: the function returns, or it goes on with a pattern, the number of
-- its target and the test values.
pub data Choice {ℓ} (D : Type ℓ) : Type ℓ where
  given_up : List Bytes → Scene D → Choice D
  chosen : Bytes → ℕ → Measured D → List Bytes → Events → Scene D → Choice D

-- `answer[0] == 'y'`
abbrev pub is_yes : Bytes → Bool
is_yes answer = first_char answer == b'y'

module _ {ℓ} {D : Type ℓ} ⦃d : Double D⦄ where
  abbrev pub no_measures : Measured D
  no_measures = record {
    test_x = d.lit 0 0;
    test_y = d.lit 0 0;
    test_theta = d.lit 0 0;
    test_match = d.lit 0 0;
    value = [];
  }

  -- The test values go to the target.
  unfoldable pub use_measures : Measured D → ℕ → Scene D → Option (Scene D)
  use_measures test r scene = get_elem? scene.targets r >>= λ t. some (record scene {
    targets =
        set scene.targets r
          (set_test_measurements test.test_x test.test_y test.test_theta test.test_match t);
  })

  -- The four questions for `X`, `Y`, `Theta` and `Match`.
  unfoldable pub ask_measures : List Bytes → Measured D × List Bytes
  ask_measures input =
      let x = read_word [] input in
      let y = read_word (x.0) x.1 in
      let theta = read_word (y.0) y.1 in
      let match_ = read_word (theta.0) theta.1 in
      (
        record {
          test_x = d.atof x.0;
          test_y = d.atof y.0;
          test_theta = d.atof theta.0;
          test_match = d.atof match_.0;
          value = match_.0;
        },
        match_.1,
      )

  -- Whether the data of the camera are to be used, and the words behind the answer. A simulation
  -- does not ask.
  abbrev pub ask_camera : Machine D → List Bytes → Bool × List Bytes
  ask_camera m input =
      let answer = read_word [] input in
      if m.use_simulations then (false, input) else (is_yes answer.0, answer.1)

  -- The data of the camera, behind the reports that come in before the look at the target. Where the
  -- target is not in view, `continue` goes to the test of a `t` that is not NULL, so that the loop ends
  -- with that target.
  unfoldable pub use_camera : Bytes → ℕ → List Bytes → Events → Scene D → Option (Choice D)
  unfolding deliver
  use_camera pattern_id r words [] scene = none
  use_camera pattern_id r words (reports ∷ events) scene =
      let seen = deliver reports scene in
      get_elem? seen.targets r >>= λ t.
      (let looked = acquired_target t in
        let scene' : Scene D = record seen { targets = set seen.targets r (looked.1) } in
        let answer = read_word [] words in
        if looked.0
        then some (chosen pattern_id r no_measures words events scene')
        else if is_yes answer.0
        then some (chosen pattern_id r no_measures answer.1 events scene')
        else some (given_up answer.1 scene'))

  -- `while ( t == NULL ) { … }`: `events` are the reports that come in before a look at the target of
  -- the camera. `none` means that the fuel ran out, or the reports did.
  unfoldable pub choose_pattern :
      ℕ → Bytes → List Bytes → Events → Scene D → Machine D → Option (Choice D)
  unfolding ask_measures use_measures use_camera
  choose_pattern zero pattern_id input events scene m = none
  choose_pattern (suc fuel) pattern_id input events scene m =
      let typed = read_word pattern_id input in
      let found = travel typed.0 scene in
      let answer = read_word [] typed.1 in
      let again = choose_pattern fuel typed.0 answer.1 events found.1 m in
      elim (found.0) [
        | none ↦ if is_yes answer.0 then again else some (given_up answer.1 found.1)
        | some r ↦
            let camera = ask_camera m typed.1 in
            let asked = ask_measures camera.1 in
            let by_hand = use_measures asked.0 r found.1 >>= λ scene'.
            some (chosen typed.0 r asked.0 asked.1 events scene') in
            let by_camera = use_camera typed.0 r camera.1 events found.1 in
            if camera.0 then by_camera else by_hand
      ]

  -- The loop over the list of variables.
  unfoldable pub set_vars : List Bytes → List Bytes → Measured D → Measured D × List Bytes
  set_vars [] input test = (test, input)
  set_vars (var ∷ vars) input test =
      let value = read_word test.value input in
      let kept : Measured D = record test { value = value.0 } in
      let number = d.atof value.0 in
      set_vars vars value.1 (
        if equal var (codes "X")
        then record kept { test_x = number }
        else if equal var (codes "Y")
        then record kept { test_y = number }
        else if equal var (codes "T")
        then record kept { test_theta = number }
        else if equal var (codes "M")
        then record kept { test_match = number }
        else kept)

  -- `do { … } while ( !quit )`: a move to the pattern, and then new values for the target. The
  -- controller's word stays as it is behind the end of the input.
  unfoldable pub repeat_moves :
      ℕ
      → Bytes
      → ℕ
      → Bytes
      → Measured D
      → List Bytes
      → Scene D
      → Machine D
      → Errors
      → Option (List Bytes × Scene D × Machine D × Errors)
  unfolding set_vars use_measures
  repeat_moves zero pattern_id r controller test input scene m errors = none
  repeat_moves (suc fuel) pattern_id r controller test input scene m errors =
      target_to_arm true pattern_id (d.lit 0 0, d.lit 0 0) scene m errors >>= λ aimed.
      (move_by_command fuel aimed.place.0 aimed.place.1 m >>= λ m'.
      (let word = read_word controller input in
        let camera = ask_camera m' word.1 in
        let var_set = read_word [] camera.1 in
        let by_hand = to_items var_set.0 b',' >>= λ var_list.
        (let asked = set_vars var_list var_set.1 test in
          use_measures asked.0 r aimed.scene >>= λ scene'.
          repeat_moves fuel pattern_id r word.0 asked.0 asked.1 scene' m' aimed.errors) in
        let by_camera =
          repeat_moves fuel pattern_id r word.0 test camera.1 aimed.scene m' aimed.errors in
        if first_char word.0 == b'q'
        then some (word.1, aimed.scene, m', aimed.errors)
        else if camera.0
        then by_camera
        else by_hand))

  -- `test_target_to_arm`
  unfoldable pub test_target_to_arm :
      ℕ
      → Events
      → List Bytes
      → Scene D
      → Machine D
      → Errors
      → Option (List Bytes × Scene D × Machine D × Errors)
  unfolding choose_pattern repeat_moves
  test_target_to_arm fuel events input scene m errors =
      choose_pattern fuel (codes "alpha_Q") input events scene m >>= λ choice. elim choice [
        | given_up words scene' ↦ some (words, scene', m, errors)
        | chosen pattern_id r test words events' scene' ↦
            repeat_moves fuel pattern_id r (codes "yes") test words scene' m errors
      ]
