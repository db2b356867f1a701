-- ===== src/Text/Halves/Laws.antt =====
-- release/common/static_utils.h: split_string_end at a character and at white space.
use robot_arm_2d.Prelude.{
  ℕ, zero, suc, ◌≡◌, ◌≢◌, refl, ap, ◌∙◌, true, false, [], ◌∷◌, ◌++◌, none, some, arith, Bytes,
  Lacks, length, length-append, ltb, take, drop,
}
use robot_arm_2d.Text.Chars.{isspace}
use robot_arm_2d.Text.Halves.{
  next_white, last_white, written_or, split_end_char, split_end_white, split_string_end,
}
use robot_arm_2d.Text.Trim.{skip_white, skip_to_white, trim}
use robot_arm_2d.Text.Words.{cut_last}
use robot_arm_2d.Text.Trim.Laws.{IsTrimmed, trim-IsTrimmed, trim-eq}

cut_last-Lacks : (c : ℕ) (r : Bytes) → Lacks c r → cut_last c r ≡ none
unfolding cut_last
cut_last-Lacks c [] h = refl
cut_last-Lacks c (x ∷ r) (h, k) = rw (cut_last-Lacks c r k) (ground arith)

cut_last-append : (c : ℕ) (p r : Bytes) → Lacks c r → cut_last c (p ++ c ∷ r) ≡ some (p, r)
unfolding cut_last
cut_last-append c [] r h = rw (cut_last-Lacks c r h) (ground arith)
cut_last-append c (x ∷ p) r h = rw (cut_last-append c p r h) refl

take-append : (p s : Bytes) → take (length p) (p ++ s) ≡ p
take-append [] s = refl
take-append (c ∷ p) s = ap (c ∷◌) (take-append p s)

drop-append : (p s : Bytes) (c : ℕ) → drop (suc (length p)) (p ++ c ∷ s) ≡ s
drop-append [] s c = refl
drop-append (d ∷ p) s c = drop-append p s c

-- A trimmed text is divided at the last separator, if this is no white space and something stands
-- behind it.
pub split_string_end-append :
    (fuel : ℕ) (p : Bytes) (c : ℕ) (r accessor : Bytes)
    → isspace c ≡ false
    → IsTrimmed (p ++ c ∷ r)
    → Lacks c r
    → r ≢ []
    → split_string_end fuel (p ++ c ∷ r) accessor c ≡ some (p, r)
unfolding split_string_end split_end_char
split_string_end-append fuel p c [] accessor h t k n = absurd (n refl)
split_string_end-append fuel p c (d ∷ r) accessor h t k n =
    let text : Bytes = p ++ c ∷ d ∷ r in
    let e : ltb (length p) (length text) ≡ true = ground (arith, length-append p (c ∷ d ∷ r)) in
    rw h (
      rw (cut_last-append c p (d ∷ r) k, trim-eq text t, e, split_end_char)
        (ap (λ a. some (a, written_or (drop (suc (length p)) text) accessor))
            (take-append p (c ∷ d ∷ r))
          ∙ ap (λ b. some (p, written_or b accessor)) (drop-append p (d ∷ r) c)
          ∙ unfold written_or in refl))

round-endless :
    (fuel c : ℕ) (s prev next : Bytes)
    → isspace c ≡ false
    → ((mark : Bytes) → last_white fuel (c ∷ s) mark ≡ none)
    → elim (next_white (c ∷ s) next) [
      | [] ↦ some (elim next as (λ x. Bytes) [ [] ↦ [] | x ∷ xs ↦ prev ])
      | y ∷ ys ↦ last_white fuel (c ∷ s) (elim next as (λ x. Bytes) [ [] ↦ [] | x ∷ xs ↦ prev ])
    ]
      ≡ none
unfolding next_white skip_white
round-endless fuel c s prev [] h loop = rw h (loop [])
round-endless fuel c s prev (x ∷ next) h loop = loop prev

last_white-endless :
    (fuel c : ℕ) (s prev : Bytes) → isspace c ≡ false → last_white fuel (c ∷ s) prev ≡ none
unfolding last_white
last_white-endless zero c s prev h = refl
last_white-endless (suc fuel) c s prev h =
    round-endless fuel c s prev (skip_to_white (c ∷ s)) h
      (λ mark. last_white-endless fuel c s mark h)

split_end_white-endless :
    (fuel : ℕ) (tmp : Bytes) → IsTrimmed tmp → tmp ≢ [] → split_end_white fuel tmp ≡ none
unfolding split_end_white
split_end_white-endless fuel [] t h = absurd (h refl)
split_end_white-endless fuel (c ∷ s) t h = rw (last_white-endless fuel c s (c ∷ s) t.0) refl

-- At white space the loop does not end on a text that has anything but white space: no fuel is enough.
pub split_string_end-endless :
    (fuel : ℕ) (text accessor : Bytes) (c : ℕ)
    → isspace c ≡ true
    → trim text ≢ []
    → split_string_end fuel text accessor c ≡ none
unfolding split_string_end
split_string_end-endless fuel text accessor c h k =
    rw h (split_end_white-endless fuel (trim text) (trim-IsTrimmed text) k)
