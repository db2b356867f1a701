-- ===== src/Text/Decimal.antt =====
-- `sprintf("%d",i)` and `atoi`, the two conversions between texts and `int` values.
use robot_arm_2d.Prelude.{
  ℕ, zero, suc, ◌+◌, ◌-◌, ◌*◌, ◌/◌, ◌%◌, ◌≤◌, ◌<◌, ◌≡◌, refl, ap, ◌∙◌, inl, inr, true, false, [],
  ◌∷◌, arith, Bytes, ◌==◌, if◌then◌else◌, Bool-cases,
}
use robot_arm_2d.Prelude.Int.{ℤ, pos, negsuc, negate}
use robot_arm_2d.Text.Chars.{isdigit}
use robot_arm_2d.Text.Trim.{skip_white}

-- The digits of a number in front of `out`; the number itself is fuel enough.
digits : ℕ → ℕ → Bytes → Bytes
digits zero n out = out
digits (suc fuel) n out =
    let more = digits fuel (n / 10) ((b'0' + n % 10) ∷ out) in if n == 0 then out else more

unfoldable pub format_unsigned : ℕ → Bytes
unfolding digits
format_unsigned n = if n == 0 then b'0' ∷ [] else digits n n []

unfoldable pub format_int : ℤ → Bytes
unfolding format_unsigned
format_int (pos n) = format_unsigned n
format_int (negsuc n) = b'-' ∷ format_unsigned (suc n)

-- The number that the digits at the front spell behind `n`.
scan : ℕ → Bytes → ℕ
scan n [] = n
scan n (c ∷ s) = if isdigit c then scan (n * 10 + (c - b'0')) s else n

signed : Bytes → ℤ
unfolding scan
signed [] = pos 0
signed (c ∷ s) =
    if c == b'-'
    then negate (pos (scan 0 s))
    else if c == b'+'
    then pos (scan 0 s)
    else pos (scan 0 (c ∷ s))

-- For texts whose number fits an `int`.
unfoldable pub atoi : Bytes → ℤ
unfolding signed
atoi s = signed (skip_white s)

scan-digits : (fuel n : ℕ) (out : Bytes) → n ≤ fuel → scan 0 (digits fuel n out) ≡ scan n out
unfolding digits
scan-digits zero n out h = ap (λ k. scan k out) (omega arith)
scan-digits (suc fuel) n out h = elim (Bool-cases (n == 0)) [
  | inl e ↦ rw e (ap (λ k. scan k out) (ground arith))
  | inr e ↦ rw e (scan-digits fuel (n / 10) ((b'0' + n % 10) ∷ out) (ground arith) ∙ last n out)
]
  where
    last : (n : ℕ) (out : Bytes) → scan (n / 10) ((b'0' + n % 10) ∷ out) ≡ scan n out
    last n out = unfold scan in ground arith

abbrev StartsDigit : Bytes → Type 0
StartsDigit [] = ⊥
StartsDigit (c ∷ s) = isdigit c ≡ true

digits_keep : (fuel n : ℕ) (out : Bytes) → StartsDigit out → StartsDigit (digits fuel n out)
unfolding digits
digits_keep zero n out h = h
digits_keep (suc fuel) n out h = elim (Bool-cases (n == 0)) [
  | inl e ↦ rw e h
  | inr e ↦ rw e (digits_keep fuel (n / 10) ((b'0' + n % 10) ∷ out) (ground arith))
]

digits-StartsDigit : (fuel n : ℕ) (out : Bytes) → 0 < n → n ≤ fuel → StartsDigit (digits fuel n out)
unfolding digits
digits-StartsDigit zero n out h k = absurd (omega arith)
digits-StartsDigit (suc fuel) n out h k =
    rw (nonzero n h) (digits_keep fuel (n / 10) ((b'0' + n % 10) ∷ out) (ground arith))
  where
    nonzero : (n : ℕ) → 0 < n → (n == 0) ≡ false
    nonzero n h = ground arith

format_unsigned-StartsDigit : (n : ℕ) → StartsDigit (format_unsigned n)
unfolding format_unsigned
format_unsigned-StartsDigit n = elim (Bool-cases (n == 0)) [
  | inl e ↦ rw e refl
  | inr e ↦ rw e (digits-StartsDigit n n [] (ground arith) (omega arith))
]

scan-format_unsigned : (n : ℕ) → scan 0 (format_unsigned n) ≡ n
unfolding format_unsigned
scan-format_unsigned n = elim (Bool-cases (n == 0)) [
  | inl e ↦ rw e (unfold scan in ground arith)
  | inr e ↦ rw e (scan-digits n n [] (omega arith) ∙ unfold scan in refl)
]

atoi-StartsDigit : (s : Bytes) → StartsDigit s → atoi s ≡ pos (scan 0 s)
unfolding atoi
atoi-StartsDigit [] h = absurd h
atoi-StartsDigit (c ∷ s) h = unfold skip_white in ground arith

-- `atoi` reads every number back from its decimal print.
pub atoi-format_int : (i : ℤ) → atoi (format_int i) ≡ i
unfolding format_int
atoi-format_int (pos n) =
    atoi-StartsDigit (format_unsigned n) (format_unsigned-StartsDigit n)
    ∙ ap pos (scan-format_unsigned n)
atoi-format_int (negsuc n) =
    unfold atoi skip_white in rw (scan-format_unsigned (suc n)) (ground arith)
