-- ===== src/Text/Trim/Laws.antt =====
-- release/common/static_utils.h: what trim does to a text.
use robot_arm_2d.Prelude.{
  ℕ, ◌≤◌, ◌≡◌, refl, ap, ◌∙◌, inl, inr, true, false, [], ◌∷◌, ◌++◌, arith, Bytes, All, Lacks,
  length, length-append, Bool-cases,
}
use mathlib.Core.Path.{subst}
use robot_arm_2d.Text.Chars.{isspace}
use robot_arm_2d.Text.Trim.{skip_white, cut_cons, cut_end, trim_front, trim_from_end, trim}

abbrev pub IsSpace : ℕ → Type 0
IsSpace c = isspace c ≡ true

-- The text does not begin with a space.
abbrev pub StartsBlack : Bytes → Type 0
StartsBlack [] = Unit
StartsBlack (c ∷ s) = isspace c ≡ false

-- The text does not end with a space.
abbrev pub EndsBlack : Bytes → Type 0
EndsBlack [] = Unit
EndsBlack (c ∷ []) = isspace c ≡ false
EndsBlack (c ∷ d ∷ s) = EndsBlack (d ∷ s)

-- Nothing is left to trim.
abbrev pub IsTrimmed : Bytes → Type 0
IsTrimmed s = StartsBlack s × EndsBlack s

skip_white_split : (s : Bytes) → (front : Bytes) × All IsSpace front × (s ≡ front ++ skip_white s)
unfolding skip_white
skip_white_split [] = ([], tt, refl)
skip_white_split (c ∷ s) = elim (Bool-cases (isspace c)) [
  | inl e ↦ let (f, h, p) = skip_white_split s in (c ∷ f, (e, h), rw e (ground (arith, p)))
  | inr e ↦ ([], tt, rw e)
]

pub skip_white-StartsBlack : (s : Bytes) → StartsBlack (skip_white s)
unfolding skip_white
skip_white-StartsBlack [] = tt
skip_white-StartsBlack (c ∷ s) = ground (arith, skip_white-StartsBlack s)

cut_cons_split :
    (c : ℕ) (s r back : Bytes)
    → All IsSpace back
    → s ≡ r ++ back
    → (b : Bytes) × All IsSpace b × (c ∷ s ≡ cut_cons c r ++ b)
unfolding cut_cons
cut_cons_split c s [] back h e = elim (Bool-cases (isspace c)) [
  | inl white ↦ (c ∷ back, (white, h), rw (white, e))
  | inr black ↦ (back, h, rw (black, e))
]
cut_cons_split c s (d ∷ r) back h e = (back, h, rw e)

cut_end_split : (s : Bytes) → (back : Bytes) × All IsSpace back × (s ≡ cut_end s ++ back)
unfolding cut_end
cut_end_split [] = ([], tt, refl)
cut_end_split (c ∷ s) = let (b, h, p) = cut_end_split s in cut_cons_split c s (cut_end s) b h p

cut_cons-EndsBlack : (c : ℕ) (r : Bytes) → EndsBlack r → EndsBlack (cut_cons c r)
unfolding cut_cons
cut_cons-EndsBlack c [] h = ground arith
cut_cons-EndsBlack c (d ∷ r) h = h

cut_end-EndsBlack : (s : Bytes) → EndsBlack (cut_end s)
unfolding cut_end
cut_end-EndsBlack [] = tt
cut_end-EndsBlack (c ∷ s) = cut_cons-EndsBlack c (cut_end s) (cut_end-EndsBlack s)

cut_end-EndsBlack_cons : (c : ℕ) (s : Bytes) → isspace c ≡ false → EndsBlack (c ∷ cut_end s)
cut_end-EndsBlack_cons c s h = go (cut_end s) (cut_end-EndsBlack s)
  where
    go : (r : Bytes) → EndsBlack r → EndsBlack (c ∷ r)
    go [] _ = h
    go (d ∷ r) k = k

trim_from_end-IsTrimmed : (s : Bytes) → StartsBlack s → IsTrimmed (trim_from_end s)
unfolding trim_from_end
trim_from_end-IsTrimmed [] h = (tt, tt)
trim_from_end-IsTrimmed (c ∷ s) h = (h, cut_end-EndsBlack_cons c s h)

-- The result of `trim` neither begins nor ends with a space.
pub trim-IsTrimmed : (s : Bytes) → IsTrimmed (trim s)
unfolding trim
trim-IsTrimmed s = trim_from_end-IsTrimmed (skip_white s) (skip_white-StartsBlack s)

trim_from_end_split :
    (s : Bytes) → (back : Bytes) × All IsSpace back × (s ≡ trim_from_end s ++ back)
unfolding trim_from_end
trim_from_end_split [] = ([], tt, refl)
trim_from_end_split (c ∷ s) = let (b, h, p) = cut_end_split s in (b, h, ap (◌∷◌ c) p)

-- A text is its trimmed form between two runs of spaces, and the trimmed form neither begins nor
-- ends with a space.
pub trim_lem :
    (s : Bytes)
    → (front back : Bytes) × All IsSpace front
      × All IsSpace back
      × (s ≡ front ++ (trim s ++ back))
      × IsTrimmed (trim s)
unfolding trim
trim_lem s =
    let (f, hf, p) = skip_white_split s in
    let (b, hb, q) = trim_from_end_split (skip_white s) in
    (f, b, hf, hb, p ∙ ap (λ t. f ++ t) q, trim-IsTrimmed s)

skip_white-eq : (s : Bytes) → StartsBlack s → skip_white s ≡ s
unfolding skip_white
skip_white-eq [] h = refl
skip_white-eq (c ∷ s) h = rw h

cut_cons-eq : (c : ℕ) (s : Bytes) → EndsBlack (c ∷ s) → cut_cons c s ≡ c ∷ s
unfolding cut_cons
cut_cons-eq c [] h = rw h
cut_cons-eq c (d ∷ s) h = refl

pub EndsBlack-tail : (c : ℕ) (s : Bytes) → EndsBlack (c ∷ s) → EndsBlack s
EndsBlack-tail c [] h = tt
EndsBlack-tail c (d ∷ s) h = h

cut_end-eq : (s : Bytes) → EndsBlack s → cut_end s ≡ s
unfolding cut_end
cut_end-eq [] h = refl
cut_end-eq (c ∷ s) h = rw (cut_end-eq s (EndsBlack-tail c s h)) (cut_cons-eq c s h)

-- `trim` leaves a trimmed text alone.
pub trim-eq : (s : Bytes) → IsTrimmed s → trim s ≡ s
unfolding trim trim_from_end trim_front
trim-eq [] h = unfold skip_white in refl
trim-eq (c ∷ s) (h, k) =
    rw (skip_white-eq (c ∷ s) h) (ap (◌∷◌ c) (cut_end-eq s (EndsBlack-tail c s k)))

-- Trimming a second time changes nothing.
pub trim-trim : (s : Bytes) → trim (trim s) ≡ trim s
trim-trim s = trim-eq (trim s) (trim-IsTrimmed s)

pub skip_white-length : (s : Bytes) → length (skip_white s) ≤ length s
unfolding skip_white
skip_white-length [] = omega arith
skip_white-length (c ∷ s) = ground (arith, skip_white-length s)

pub trim-length : (s : Bytes) → length (trim s) ≤ length s
trim-length s =
    let (f, b, _, _, e, _) = trim_lem s in
    omega (arith, ap length e, length-append f (trim s ++ b), length-append (trim s) b)

pub trim-Lacks : (b : ℕ) (s : Bytes) → Lacks b s → Lacks b (trim s)
trim-Lacks b s h = let (f, k, _, _, e, _) = trim_lem s in go f (trim s) k (subst (Lacks b) e h)
  where
    left : (x y : Bytes) → Lacks b (x ++ y) → Lacks b x
    left [] y _ = tt
    left (c ∷ x) y (p, q) = (p, left x y q)

    right : (x y : Bytes) → Lacks b (x ++ y) → Lacks b y
    right [] y q = q
    right (c ∷ x) y (_, q) = right x y q

    go : (x y z : Bytes) → Lacks b (x ++ (y ++ z)) → Lacks b y
    go x y z q = left y z (right x (y ++ z) q)
