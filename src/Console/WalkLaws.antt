-- ===== src/Console/WalkLaws.antt =====
-- release/build/arm_2d.cpp: walk_a_line, the moves that it makes.
use robot_arm_2d.Console.Walk.{Line, station, line_of, walk_loop, typed_trials, walk_a_line}
use robot_arm_2d.Console.Words.{first_char}
use robot_arm_2d.Double.{Double}
use robot_arm_2d.Motion.{Machine, move_by_command}
use robot_arm_2d.Prelude.{
  ℕ, zero, suc, ◌+◌, ◌/◌, ◌<◌, ◌≡◌, refl, inl, inr, true, false, List, [], ◌∷◌, Option, none, some,
  ◌>>=◌, arith, Bytes, leb, ltb, ◌==◌, if◌then◌else◌, Bool-cases,
}
use robot_arm_2d.Text.Chars.{isalpha}
use robot_arm_2d.Text.Decimal.{atoi}
use robot_arm_2d.Text.Unsigned.{to_unsigned}

-- The result of a first computation goes through two more, or through both at once.
bind-bind {ℓ κ κ'} :
    {A : Type ℓ} {B : Type κ} {C : Type κ'} (o : Option A) (h : A → Option C) (f : A → Option B)
    (g : B → Option C)
    → ((a : A) → h a ≡ (f a >>= g))
    → (o >>= h) ≡ ((o >>= f) >>= g)
bind-bind none h f g e = refl
bind-bind (some a) h f g e = e a

-- A result that is named twice.
bind-some {ℓ κ κ'} :
    {A : Type ℓ} {B : Type κ} {C : Type κ'} (o : Option A) (f : A → B) (g : B → C)
    → ((o >>= λ a. some (f a)) >>= λ b. some (g b)) ≡ (o >>= λ a. some (g (f a)))
bind-some none f g = refl
bind-some (some a) f g = refl

pub typed_trials-positive : (s : Bytes) → 0 < typed_trials s
typed_trials-positive s = go (to_unsigned (atoi s))
  where
    go : (n : ℕ) → 0 < (if n == 0 then 30 else n)
    go n = ground arith

module _ {ℓ} {D : Type ℓ} ⦃d : Double D⦄ where
  -- Moves to the given places, one after the other.
  abbrev pub move_along : ℕ → List (D × D) → Machine D → Option (Machine D)
  move_along fuel [] m = some m
  move_along fuel ((x, y) ∷ places) m =
      move_by_command fuel x y m >>= λ m'. move_along fuel places m'

  -- The stations from the `i`-th on.
  abbrev pub stations : ℕ → ℕ → D → Line D → List (D × D)
  stations zero i y line = []
  stations (suc n) i y line = (station line i, y) ∷ stations n (i + 1) y line

  walk_loop-stations :
      (left rounds fuel trials : ℕ) (y : D) (line : Line D) (m : Machine D)
      → left + trials ≡ line.trials / 2
      → left < rounds
      → 0 < line.trials
      → walk_loop rounds fuel trials y line m
        ≡ (move_along fuel (stations left trials y line) m >>= λ m'. some (false, m'))
  unfolding walk_loop
  walk_loop-stations left zero fuel trials y line m e h k = absurd (omega arith)
  walk_loop-stations zero (suc rounds) fuel trials y line m e h k = rw (goes_on, half_way) refl
    where
      goes_on : ltb trials line.trials ≡ true
      goes_on = ground arith

      half_way : leb (line.trials / 2) trials ≡ true
      half_way = ground arith
  walk_loop-stations (suc left) (suc rounds) fuel trials y line m e h k =
      rw (goes_on, half_way)
        (bind-bind (move_by_command fuel (station line trials) y m) _ _ _ (λ m'.
          walk_loop-stations left rounds fuel (trials + 1) y line m' (omega arith) (omega arith) k))
    where
      goes_on : ltb trials line.trials ≡ true
      goes_on = ground arith

      half_way : leb (line.trials / 2) trials ≡ false
      half_way = ground arith

  pub walk_loop-half :
      (fuel trials : ℕ) (y : D) (line : Line D) (m : Machine D)
      → line.trials ≡ trials
      → 0 < trials
      → walk_loop (suc trials) fuel 0 y line m
        ≡ (move_along fuel (stations (trials / 2) 0 y line) m >>= λ m'. some (false, m'))
  walk_loop-half fuel trials y line m e k =
      walk_loop-stations (trials / 2) (suc trials) fuel 0 y line m (omega arith) (omega arith)
        (omega arith)

  -- The line that is walked for a first word and a second one.
  abbrev pub typed_line : Bytes → Bytes → Line D → Machine D → Line D
  typed_line num_str test_trials_str line m =
      line_of m (d.atof num_str) (record line { trials = typed_trials test_trials_str })

  pub line_of-trials :
      (m : Machine D) (y : D) (line : Line D) → (line_of m y line).trials ≡ line.trials
  unfolding line_of
  line_of-trials m y line = elim (Bool-cases (d.lt m.arm.max_r y)) [
    | inl e ↦ rw e refl
    | inr e ↦ rw e refl
  ]

  -- A walk along a line, with a first word that does not begin with a letter and a number of trials,
  -- makes a move to each station of the first half of the line, in order, and ends there: the other
  -- half is not walked, and the report behind the loop is not reached.
  pub walk_a_line-half :
      (fuel : ℕ) (num_str test_trials_str : Bytes) (input : List Bytes) (line : Line D)
      (m : Machine D)
      → isalpha (first_char num_str) ≡ false
      → walk_a_line fuel (num_str ∷ test_trials_str ∷ input) line m ≡ (
          move_along fuel
            (stations
              (typed_trials test_trials_str / 2)
              0
              (d.atof num_str)
              (typed_line num_str test_trials_str line m))
            m
          >>= λ m'. some (false, input, typed_line num_str test_trials_str line m, m'))
  walk_a_line-half fuel num_str test_trials_str input line m e =
      let trials = typed_trials test_trials_str in
      let line' = typed_line num_str test_trials_str line m in
      let half =
        walk_loop-half fuel trials (d.atof num_str) line' m
          (line_of-trials m (d.atof num_str) (record line { trials = trials }))
          (typed_trials-positive test_trials_str) in
      unfold walk_a_line in
      rw e (
        rw half
          (bind-some (move_along fuel (stations (trials / 2) 0 (d.atof num_str) line') m) _ _))
