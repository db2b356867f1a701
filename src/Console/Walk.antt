-- ===== src/Console/Walk.antt =====
-- release/build/arm_2d.cpp: walk_a_line.
use robot_arm_2d.Console.Words.{read_word, first_char}
use robot_arm_2d.Double.{Double}
use robot_arm_2d.Motion.{Machine, move_by_command}
use robot_arm_2d.Prelude.{
  ℕ, zero, suc, ◌+◌, ◌/◌, Bool, true, false, List, [], Option, none, some, ◌>>=◌, Bytes, leb, ltb,
  ◌==◌, if◌then◌else◌,
}
use robot_arm_2d.Prelude.Int.{pos}
use robot_arm_2d.Text.Chars.{isalpha}
use robot_arm_2d.Text.Decimal.{atoi}
use robot_arm_2d.Text.Unsigned.{to_unsigned}

-- TEST2_TRIALS, sg_test_start_x and sg_test_delta_x
pub record Line {ℓ} (D : Type ℓ) : Type ℓ where
  pub trials : ℕ
  pub start_x : D
  pub delta_x : D

-- The number of trials that was typed, 30 for 0.
abbrev pub typed_trials : Bytes → ℕ
typed_trials test_trials_str =
    let typed = to_unsigned (atoi test_trials_str) in if typed == 0 then 30 else typed

module _ {ℓ} {D : Type ℓ} ⦃d : Double D⦄ where
  -- `sg_test_start_x + trials*sg_test_delta_x`
  abbrev pub station : Line D → ℕ → D
  station line i = d.add line.start_x (d.mul (d.of_int (pos i)) line.delta_x)

  -- The start and the width of the steps, where `line` holds the number of trials.
  unfoldable pub line_of : Machine D → D → Line D → Line D
  line_of m y line =
      let r = m.arm.start_radius in
      let end_x = m.arm.max_r in
      let x = d.sqrt (d.sub (d.mul r r) (d.mul y y)) in
      let far = if d.eq y (d.lit 0 0) then end_x else d.mul (d.div x r) end_x in
      if d.lt end_x y
      then record line { start_x = d.lit 0 0; delta_x = d.lit 0 0 }
      else record line { start_x = x; delta_x = d.div (d.sub far x) (d.of_int (pos line.trials)) }

  -- `for ( int trials = 0; trials < TEST2_TRIALS; trials++ ) { … }`, where half of the trials ends the
  -- function. The answer says whether the loop ends by its own test, so that the report is reached;
  -- the first number is the fuel of the loop.
  unfoldable pub walk_loop : ℕ → ℕ → ℕ → D → Line D → Machine D → Option (Bool × Machine D)
  walk_loop zero fuel trials y line m = none
  walk_loop (suc rounds) fuel trials y line m =
      let more = move_by_command fuel (station line trials) y m >>= λ m'.
      walk_loop rounds fuel (trials + 1) y line m' in
      if ltb trials line.trials
      then (if leb (line.trials / 2) trials then some (false, m) else more)
      else some (true, m)

  -- `walk_a_line`, from the words that are typed. A letter in place of the first number ends it.
  unfoldable pub walk_a_line :
      ℕ → List Bytes → Line D → Machine D → Option (Bool × List Bytes × Line D × Machine D)
  walk_a_line fuel input line m =
      let num_str = read_word [] input in
      let test_trials_str = read_word [] num_str.1 in
      let trials = typed_trials test_trials_str.0 in
      let y = d.atof num_str.0 in
      let line' = line_of m y (record line { trials = trials }) in
      if isalpha (first_char num_str.0)
      then some (false, num_str.1, line, m)
      else (walk_loop (suc trials) fuel 0 y line' m >>= λ r.
          some (r.0, test_trials_str.1, line', r.1))
