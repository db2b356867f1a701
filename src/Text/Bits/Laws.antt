-- ===== src/Text/Bits/Laws.antt =====
-- release/common/static_utils.h: the value of mask.
use robot_arm_2d.Prelude.{
  ℕ, zero, suc, ◌+◌, ◌-◌, ◌*◌, ◌%◌, ◌^◌, ◌≡◌, ◌≤◌, ◌<◌, refl, ap, inl, inr, ◌∙◌, arith, ltb,
  Bool-cases, if◌then◌else◌,
}
use native.Mathlib.Nat.{pow-suc}
use robot_arm_2d.Text.Bits.{mask_loop, mask}

pow_eq : (k m : ℕ) → k ≡ m → 2 ^ k ≡ 2 ^ m
pow_eq k m e = ap (λ n. 2 ^ n) e

pow_pos : (k : ℕ) → 1 ≤ 2 ^ k
pow_pos zero = omega arith
pow_pos (suc k) = omega (arith, pow_pos k, pow-suc 2 k)

pow_le : (k j m : ℕ) → k + j ≡ m → 2 ^ k ≤ 2 ^ m
pow_le k zero m e = omega (arith, pow_eq k m (omega arith))
pow_le k (suc j) m e = omega (arith, pow_le (suc k) j m (omega arith), pow-suc 2 k)

-- A round while there is room for one bit more.
round_below : (k : ℕ) → k < 64 → (2 ^ k - 1) * 2 % 2 ^ 64 + 1 ≡ 2 ^ suc k - 1
round_below k h = omega (arith, pow_le (suc k) (63 - k) 64 (omega arith), pow-suc 2 k, pow_pos k)

mask_loop-below : (n k m : ℕ) → k + n ≡ m → m ≤ 64 → mask_loop n (2 ^ k - 1) ≡ 2 ^ m - 1
unfolding mask_loop
mask_loop-below zero k m e h = ap (λ n. 2 ^ n - 1) (omega arith)
mask_loop-below (suc n) k m e h =
    ap (mask_loop n) (round_below k (omega arith)) ∙ mask_loop-below n (suc k) m (omega arith) h

-- A round when all bits are set.
mask_loop-full : (n : ℕ) → mask_loop n (2 ^ 64 - 1) ≡ 2 ^ 64 - 1
unfolding mask_loop
mask_loop-full zero = refl
mask_loop-full (suc n) = mask_loop-full n

mask_loop-append : (n m r out : ℕ) → n + m ≡ r → mask_loop r out ≡ mask_loop m (mask_loop n out)
unfolding mask_loop
mask_loop-append zero m r out e = let f : r ≡ m = omega arith in ap (λ n. mask_loop n out) f
mask_loop-append (suc n) m zero out e = absurd (omega arith)
mask_loop-append (suc n) m (suc r) out e = mask_loop-append n m r _ (omega arith)

mask_loop-above : (r : ℕ) → 64 ≤ r → mask_loop r 0 ≡ 2 ^ 64 - 1
mask_loop-above r h =
    mask_loop-append 64 (r - 64) r 0 (omega arith)
    ∙ ap (mask_loop (r - 64)) (mask_loop-below 64 0 64 (omega arith) (omega arith))
    ∙ mask_loop-full (r - 64)

-- `mask` sets the lowest `r` bits, and all 64 if `r` is more than that.
pub mask_lem : (r : ℕ) → mask r ≡ (if ltb r 64 then 2 ^ r - 1 else 2 ^ 64 - 1)
unfolding mask
mask_lem r = elim (Bool-cases (ltb r 64)) [
  | inl e ↦ rw e (mask_loop-below r 0 r (omega arith) (ground arith))
  | inr e ↦ rw e (mask_loop-above r (ground arith))
]
