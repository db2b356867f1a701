-- ===== src/Text/Subst/Laws.antt =====
-- release/common/static_utils.h: subst against a description in one pass.
use robot_arm_2d.Prelude.{
  ℕ, zero, suc, ◌-◌, ◌<◌, ◌≡◌, ◌≢◌, refl, sym, ◌∙◌, ap, true, false, inl, inr, [], ◌∷◌, ◌++◌,
  append_assoc, Option, none, some, arith, Bytes, length, length-drop, drop, Bool-cases,
  Option-cases,
}
use robot_arm_2d.Text.Subst.{starts_with, find_in, subst_loop, subst}

-- One pass from left to right: where the key stands the value is written and the key's characters
-- are skipped.
unfoldable pub replace_all : Bytes → Bytes → ℕ → Bytes → Bytes
unfolding starts_with
replace_all key value skip [] = []
replace_all key value (suc skip) (c ∷ s) = replace_all key value skip s
replace_all key value zero (c ∷ s) = elim (starts_with key (c ∷ s)) [
  | true ↦ value ++ replace_all key value (length key - 1) s
  | false ↦ c ∷ replace_all key value 0 s
]

replace_all-drop :
    (key value : Bytes) (n : ℕ) (s : Bytes)
    → replace_all key value n s ≡ replace_all key value 0 (drop n s)
unfolding replace_all
replace_all-drop key value zero s = refl
replace_all-drop key value (suc n) [] = refl
replace_all-drop key value (suc n) (c ∷ s) = replace_all-drop key value n s

-- What the code finds, and what the one pass does there.
abbrev Agrees : Bytes → Bytes → Bytes → Option (Bytes × Bytes) → Type 0
Agrees key value s none = replace_all key value 0 s ≡ s
Agrees key value s (some (a, b)) =
    (replace_all key value 0 s ≡ a ++ (value ++ replace_all key value 0 b)) × (length b < length s)

Agrees-cons :
    (key value : Bytes) (c : ℕ) (s : Bytes) (o : Option (Bytes × Bytes))
    → starts_with key (c ∷ s) ≡ false
    → Agrees key value s o
    → Agrees key value (c ∷ s) (elim o [ none ↦ none | some (a, b) ↦ some (c ∷ a, b) ])
unfolding replace_all
Agrees-cons key value c s none h k = rw (h, replace_all) (ap (◌∷◌ c) k)
Agrees-cons key value c s (some (a, b)) h (k, l) = (rw (h, replace_all) (ap (◌∷◌ c) k), omega arith)

skip_one : (n : ℕ) → suc n - 1 ≡ n
skip_one n = omega arith

replace_all_here :
    (k : ℕ) (key value : Bytes) (c : ℕ) (s : Bytes)
    → starts_with (k ∷ key) (c ∷ s) ≡ true
    → replace_all (k ∷ key) value 0 (c ∷ s)
      ≡ value ++ replace_all (k ∷ key) value 0 (drop (length key) s)
unfolding replace_all
replace_all_here k key value c s e =
    rw (e, replace_all)
      (ap (λ t. value ++ t)
        (rw (skip_one (length key)) (replace_all-drop (k ∷ key) value (length key) s)))

find_in-Agrees : (k : ℕ) (key value s : Bytes) → Agrees (k ∷ key) value s (find_in (k ∷ key) s)
unfolding find_in replace_all
find_in-Agrees k key value [] = refl
find_in-Agrees k key value (c ∷ s) = elim (Bool-cases (starts_with (k ∷ key) (c ∷ s))) [
  | inl e ↦
      rw (e, find_in)
        (replace_all_here k key value c s e, omega (arith, length-drop (length key) s))
  | inr e ↦
      rw (e, find_in)
        (Agrees-cons (k ∷ key) value c s (find_in (k ∷ key) s) e (find_in-Agrees k key value s))
]

subst_loop-eq-replace_all :
    (fuel k : ℕ) (key value done rest : Bytes)
    → length rest < fuel
    → subst_loop fuel (k ∷ key) value done rest ≡ some (done ++ replace_all (k ∷ key) value 0 rest)
unfolding subst_loop
subst_loop-eq-replace_all zero k key value done rest h = absurd (omega arith)
subst_loop-eq-replace_all (suc fuel) k key value done rest h =
    elim (Option-cases (find_in (k ∷ key) rest)) [
      | inl e ↦
          rw (e, subst_loop)
            (ap (λ t. some (done ++ t)) (sym (rw e at (find_in-Agrees k key value rest))))
      | inr ((a, b), e) ↦
          let (all, shorter) = found a b e in
          rw (e, subst_loop)
            (subst_loop-eq-replace_all fuel k key value (done ++ (a ++ value)) b (omega arith)
              ∙ ap some (rw (append_assoc, append_assoc) (ap (λ t. done ++ t) (sym all))))
    ]
  where
    found :
        (a b : Bytes)
        → find_in (k ∷ key) rest ≡ some (a, b)
        → Agrees (k ∷ key) value rest (some (a, b))
    found a b e = rw e at (find_in-Agrees k key value rest)

-- For a key that is not empty `subst` ends, and its result is the form with the value written for
-- every occurrence of the key, from left to right and never inside a value that it wrote.
pub subst-eq-replace_all :
    (key value form : Bytes) → key ≢ [] → subst key value form ≡ some (replace_all key value 0 form)
unfolding subst
subst-eq-replace_all [] value form h = absurd (h refl)
subst-eq-replace_all (k ∷ key) value form h =
    subst_loop-eq-replace_all (suc (length form)) k key value [] form (omega arith)

-- With an empty key the loop of `subst` makes rounds without end: no fuel is enough.
pub subst_loop-nil :
    (fuel : ℕ) (value done rest : Bytes) → subst_loop fuel [] value done rest ≡ none
unfolding subst_loop find_in
subst_loop-nil zero value done rest = refl
subst_loop-nil (suc fuel) value done rest = subst_loop-nil fuel value (done ++ value) rest
