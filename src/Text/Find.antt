-- ===== src/Text/Find.antt =====
-- The idioms `s.substr(0,s.find(c))` and `s.substr(s.find(c)+1)`. Where `c` is missing `find` gives
-- `npos`: the first takes all of the text, and so does the second, since `npos + 1` is 0.
use robot_arm_2d.Prelude.{ℕ, none, some, Bytes}
use robot_arm_2d.Text.Split.{cut_at}

unfoldable pub before : ℕ → Bytes → Bytes
unfolding cut_at
before c s = elim (cut_at c s) [ none ↦ s | some (a, b) ↦ a ]

unfoldable pub behind : ℕ → Bytes → Bytes
unfolding cut_at
behind c s = elim (cut_at c s) [ none ↦ s | some (a, b) ↦ b ]
