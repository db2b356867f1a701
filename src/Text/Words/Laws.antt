-- ===== src/Text/Words/Laws.antt =====
-- release/common/static_utils.h: isnumber, all_digits, isfloat, identifier_stem, remove_stem, get_stem
-- and last_item, laws.
use robot_arm_2d.Prelude.{
  ℕ, ◌≡◌, ◌⊎◌, refl, ap, subst, inl, inr, Bool, true, false, ◌&&◌, ◌||◌, [], ◌∷◌, ◌++◌, Option,
  none, some, arith, Bytes, All, Lacks, ◌==◌, if◌then◌else◌, Bool-cases, Option-cases,
}
use robot_arm_2d.Text.Edit.{in_set}
use robot_arm_2d.Text.Split.{split_string}
use robot_arm_2d.Text.Words.{
  isnumber, skip_digits, is_empty, all_digits, float_parts, isfloat, outset, identifier_stem,
  cut_last, last_item, remove_stem, get_stem,
}

isnumber-skip : (s : Bytes) → isnumber s ≡ is_empty (skip_digits s)
unfolding isnumber skip_digits
isnumber-skip [] = refl
isnumber-skip (c ∷ s) = ground (arith, isnumber-skip s)

same_twice : (a b : Bool) → (if a then b || b else false) ≡ a && b
same_twice a b = ground arith

-- `isnumber` and `all_digits` are the same test. `isfloat` looks at no exponent: it holds of the texts
-- in which the part before the first point and the part behind it are digits, or are empty.
pub isfloat-digits :
    (s : Bytes)
    → (isnumber s ≡ all_digits s)
      × (isfloat s ≡ isnumber (split_string s [] b'.').0 && isnumber (split_string s [] b'.').1)
isfloat-digits s = (same s, digits)
  where
    same : (s : Bytes) → isnumber s ≡ all_digits s
    same s = unfold all_digits in isnumber-skip s

    digits : isfloat s ≡ isnumber (split_string s [] b'.').0 && isnumber (split_string s [] b'.').1
    digits =
        rw (same (split_string s [] b'.').0, same (split_string s [] b'.').1)
          (unfold isfloat float_parts in
            same_twice (all_digits (split_string s [] b'.').0)
              (all_digits (split_string s [] b'.').1))

-- What is left of a text behind its stem begins with a character that ends identifiers.
abbrev pub StartsOut : Bytes → Type 0
StartsOut [] = Unit
StartsOut (c ∷ s) = in_set c outset ≡ true

-- The stem of an identifier is the longest front of the text without one of the characters that end
-- identifiers.
pub identifier_stem_lem :
    (s : Bytes)
    → (rest : Bytes) × (identifier_stem s ++ rest ≡ s)
      × All (λ c. in_set c outset ≡ false) (identifier_stem s)
      × StartsOut rest
unfolding identifier_stem
identifier_stem_lem [] = ([], refl, tt, tt)
identifier_stem_lem (c ∷ s) = elim (Bool-cases (in_set c outset)) [
  | inl e ↦ rw e (c ∷ s, refl, tt, e)
  | inr e ↦
      let (rest, same, plain, out) = identifier_stem_lem s in
      rw e (rest, ap (λ r. c ∷ r) same, (e, plain), out)
]

-- Where the last `c` divides a text.
abbrev Cut : ℕ → Bytes → Option (Bytes × Bytes) → Type 0
Cut c s none = Lacks c s
Cut c s (some (a, b)) = (a ++ c ∷ b ≡ s) × Lacks c b

cut_last-Cut : (c : ℕ) (s : Bytes) → Cut c s (cut_last c s)
unfolding cut_last
cut_last-Cut c [] = tt
cut_last-Cut c (x ∷ s) = go (cut_last c s) (cut_last-Cut c s)
  where
    here : Lacks c s → Cut c (x ∷ s) (if x == c then some ([], s) else none)
    here h = elim (Bool-cases (x == c)) [
      | inl e ↦ rw e (ap (λ y. y ∷ s) (ground arith), h)
      | inr e ↦ rw e ((λ k. ground arith), h)
    ]

    go :
        (o : Option (Bytes × Bytes))
        → Cut c s o
        → Cut c (x ∷ s) (elim o [
          | some (a, b) ↦ some (x ∷ a, b)
          | none ↦ if x == c then some ([], s) else none
        ])
    go none h = here h
    go (some (a, b)) (e, h) = (ap (λ r. x ∷ r) e, h)

-- The parts of a text at its last `c`: `remove_stem` is what stands before it, and `get_stem` and
-- `last_item` are what stands behind it, so that they make up the text. Where `c` is missing the
-- first two are empty, and the last item is the text.
pub stem_parts :
    (s : Bytes) (c : ℕ)
    → ((remove_stem s c ++ c ∷ get_stem s c ≡ s)
        × Lacks c (get_stem s c)
        × (last_item s c ≡ get_stem s c))
      ⊎ (Lacks c s × (remove_stem s c ≡ []) × (get_stem s c ≡ []) × (last_item s c ≡ s))
unfolding remove_stem get_stem last_item
stem_parts s c = elim (Option-cases (cut_last c s)) [
  | inl e ↦ inr (
    subst (Cut c s) e (cut_last-Cut c s),
    rw (e, remove_stem) refl,
    rw (e, get_stem) refl,
    rw (e, last_item) refl,
  )
  | inr (p, e) ↦
      let (same, lacks) = subst (Cut c s) e (cut_last-Cut c s) in
      inl (
        rw (e, remove_stem, get_stem) same,
        rw (e, get_stem) lacks,
        rw (e, last_item, get_stem) refl,
      )
]
