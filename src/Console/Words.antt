-- ===== src/Console/Words.antt =====
-- `cin >> word` of release/build/arm_2d.cpp: the words that are typed.
use robot_arm_2d.Prelude.{ℕ, List, [], ◌∷◌, Bytes}

-- `cin >> word`: behind the end of the input the word stays as it is.
abbrev pub read_word : Bytes → List Bytes → Bytes × List Bytes
read_word word [] = (word, [])
read_word word (typed ∷ input) = (typed, input)

-- `word[0]`
abbrev pub first_char : Bytes → ℕ
first_char [] = 0
first_char (c ∷ s) = c
