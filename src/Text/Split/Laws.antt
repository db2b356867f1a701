-- ===== src/Text/Split/Laws.antt =====
-- release/common/static_utils.h: split_string and to_items, their parts and the length of what is left.
use robot_arm_2d.Prelude.{
  ℕ, zero, suc, ◌≤◌, ◌<◌, ◌≡◌, ◌≢◌, refl, ap, inl, inr, true, false, List, [], ◌∷◌, ◌++◌, Option,
  none, some, arith, Bytes, All, Lacks, length, length-append, ◌==◌, Bool-cases, Option-cases, ◌⊎◌,
}
use robot_arm_2d.Text.Trim.{skip_white, skip_to_white, trim, trim_string}
use robot_arm_2d.Text.Trim.Laws.{
  IsTrimmed, EndsBlack, EndsBlack-tail, skip_white-length, trim-IsTrimmed, trim-length, trim-Lacks,
}
use robot_arm_2d.Text.Chars.{isspace}
use mathlib.Core.Option.{some-injective}
use robot_arm_2d.Text.Split.{
  cut_at, split_at, split_white, write_rest, split_string, items_loop, to_items,
}

-- What `strchr` finds: the first `c`.
abbrev pub IsCut : ℕ → Bytes → Option (Bytes × Bytes) → Type 0
IsCut c s none = Lacks c s
IsCut c s (some (a, b)) = (s ≡ a ++ c ∷ b) × Lacks c a

cons-IsCut :
    (c x : ℕ) (s : Bytes) (o : Option (Bytes × Bytes))
    → x ≢ c
    → IsCut c s o
    → IsCut c (x ∷ s) (elim o [ none ↦ none | some (a, b) ↦ some (x ∷ a, b) ])
cons-IsCut c x s none h k = (h, k)
cons-IsCut c x s (some (a, b)) h (e, k) = (ap (◌∷◌ x) e, (h, k))

pub cut_at-IsCut : (c : ℕ) (s : Bytes) → IsCut c s (cut_at c s)
unfolding cut_at
cut_at-IsCut c [] = tt
cut_at-IsCut c (x ∷ s) = elim (Bool-cases (x == c)) [
  | inl e ↦ rw e ((ground arith), tt)
  | inr e ↦ rw e (cons-IsCut c x s (cut_at c s) (ground arith) (cut_at-IsCut c s))
]

-- Where a character divides, the name and the accessor are the trimmed text with that character
-- between them, or the name is all of it.
abbrev pub IsSplit : ℕ → Bytes → Bytes × Bytes → Type 0
IsSplit c t (name, accessor) =
    Lacks c name × ((t ≡ name ++ c ∷ accessor) ⊎ ((t ≡ name) × (accessor ≡ [])))

split_at-IsSplit :
    (c : ℕ) (t : Bytes) (o : Option (Bytes × Bytes)) → IsCut c t o → IsSplit c t (split_at o t)
unfolding split_at
split_at-IsSplit c t none h = (h, inr (refl, refl))
split_at-IsSplit c t (some (a, b)) (e, h) = (h, inl e)

-- Splitting at a character other than a space trims the text and divides it at the first such
-- character, which neither part keeps; without one the name is the whole trimmed text.
pub split_string-IsSplit :
    (text accessor : Bytes) (c : ℕ)
    → (c == 32) ≡ false
    → IsSplit c (trim text) (split_string text accessor c)
unfolding split_string
split_string-IsSplit text accessor c h =
    rw h (split_at-IsSplit c (trim text) (cut_at c (trim text)) (cut_at-IsCut c (trim text)))

skip_to_white-EndsBlack : (s : Bytes) → EndsBlack s → EndsBlack (skip_to_white s)
unfolding skip_to_white
skip_to_white-EndsBlack [] h = tt
skip_to_white-EndsBlack (c ∷ s) h = elim (Bool-cases (isspace c)) [
  | inl e ↦ rw e h
  | inr e ↦ rw e (skip_to_white-EndsBlack s (EndsBlack-tail c s h))
]

-- The text begins with a space, if it is not empty.
abbrev StartsWhite : Bytes → Type 0
StartsWhite [] = Unit
StartsWhite (c ∷ s) = isspace c ≡ true

skip_to_white-StartsWhite : (s : Bytes) → StartsWhite (skip_to_white s)
unfolding skip_to_white
skip_to_white-StartsWhite [] = tt
skip_to_white-StartsWhite (c ∷ s) = ground (arith, skip_to_white-StartsWhite s)

skip_to_white-length : (s : Bytes) → length (skip_to_white s) ≤ length s
unfolding skip_to_white
skip_to_white-length [] = omega arith
skip_to_white-length (c ∷ s) = ground (arith, skip_to_white-length s)

-- Behind a space inside a trimmed text something is left.
skip_white-ne-nil : (x : ℕ) (s : Bytes) → isspace x ≡ true → EndsBlack (x ∷ s) → skip_white s ≢ []
unfolding skip_white
skip_white-ne-nil x [] h k = cc
skip_white-ne-nil x (d ∷ s) h k = elim (Bool-cases (isspace d)) [
  | inl e ↦ rw e (skip_white-ne-nil d s e k)
  | inr e ↦ rw e (cc)
]

write_rest-eq : (r accessor : Bytes) → r ≢ [] → write_rest r accessor ≡ r
unfolding write_rest
write_rest-eq [] accessor h = absurd (h refl)
write_rest-eq (c ∷ r) accessor h = refl

split_white-length :
    (t next accessor : Bytes) (n : ℕ)
    → StartsWhite next
    → EndsBlack next
    → length next ≤ suc n
    → length (split_white t next accessor).1 < suc n
unfolding split_white
split_white-length t [] accessor n w b h = omega arith
split_white-length t (x ∷ next) accessor n w b h =
    rw (write_rest-eq (skip_white next) accessor (skip_white-ne-nil x next w b))
      (omega (arith, skip_white-length next))

split_at-length :
    (c : ℕ) (t : Bytes) (o : Option (Bytes × Bytes)) (n : ℕ)
    → IsCut c t o
    → length t ≤ suc n
    → length (split_at o t).1 < suc n
unfolding split_at
split_at-length c t none n h k = omega arith
split_at-length c t (some (a, b)) n (e, h) k = omega (arith, ap length e, length-append a (c ∷ b))

-- What is left to split is shorter than the text.
pub split_string-length :
    (x : ℕ) (s accessor : Bytes) (c : ℕ)
    → length (split_string (x ∷ s) accessor c).1 < length (x ∷ s)
unfolding split_string
split_string-length x s accessor c =
    let t = trim (x ∷ s) in
    let short = trim-length (x ∷ s) in
    elim (Bool-cases (c == 32)) [
      | inl e ↦ rw e (
          split_white-length t (skip_to_white t) accessor (length s) (skip_to_white-StartsWhite t)
            (skip_to_white-EndsBlack t (trim-IsTrimmed (x ∷ s)).1)
            (omega (arith, short, skip_to_white-length t)))
      | inr e ↦ rw e (split_at-length c t (cut_at c t) (length s) (cut_at-IsCut c t) short)
    ]

-- The loop of `to_items` ends: one round for each character is enough, for every separator.
pub items_loop_total :
    (fuel : ℕ) (s : Bytes) (c : ℕ)
    → length s ≤ fuel
    → (items : List Bytes) × (items_loop fuel s c ≡ some items)
unfolding items_loop
items_loop_total fuel [] c h = ([], refl)
items_loop_total zero (x ∷ s) c h = absurd (omega arith)
items_loop_total (suc fuel) (x ∷ s) c h =
    let pair = split_string (x ∷ s) (x ∷ s) c in
    let (rest, e) =
      items_loop_total fuel pair.1 c (omega (arith, split_string-length x s (x ∷ s) c)) in
    (trim_string pair.0 ∷ rest, rw (e, items_loop))

-- An item as `to_items` returns it: trimmed, and without the separator.
abbrev pub IsItem : ℕ → Bytes → Type 0
IsItem c item = IsTrimmed item × Lacks c item

split_string-Lacks :
    (text accessor : Bytes) (c : ℕ) → (c == 32) ≡ false → Lacks c (split_string text accessor c).0
split_string-Lacks text accessor c h = (split_string-IsSplit text accessor c h).0

items_loop-All :
    (fuel : ℕ) (s : Bytes) (c : ℕ)
    → (c == 32) ≡ false
    → {items : List Bytes} → items_loop fuel s c ≡ some items
    → All (IsItem c) items
unfolding items_loop trim_string
items_loop-All fuel [] c h e = rw (← some-injective _ _ e) tt
items_loop-All zero (x ∷ s) c h e = cc
items_loop-All (suc fuel) (x ∷ s) c h {items} e =
    let pair = split_string (x ∷ s) (x ∷ s) c in
    elim (Option-cases (items_loop fuel pair.1 c)) [
      | inl stuck ↦ cc (rw (stuck, items_loop) at e)
      | inr (rest, r) ↦
          rw (← some-injective _ _ (rw (r, items_loop) at e))
            (item pair.0 (split_string-Lacks (x ∷ s) (x ∷ s) c h), items_loop-All fuel pair.1 c h r)
    ]
  where
    item : (name : Bytes) → Lacks c name → IsItem c (trim_string name)
    item name k = (trim-IsTrimmed name, trim-Lacks c name k)

-- `to_items` ends on every text, and at a separator other than a space every item that it returns
-- is trimmed and holds no separator.
pub to_items_total :
    (s : Bytes) (c : ℕ)
    → (c == 32) ≡ false
    → (items : List Bytes) × (to_items s c ≡ some items) × All (IsItem c) items
unfolding to_items
to_items_total s c h =
    let (items, e) = items_loop_total (length s) s c (omega arith) in
    (items, e, items_loop-All (length s) s c h e)
