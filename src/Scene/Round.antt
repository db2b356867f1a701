-- ===== src/Scene/Round.antt =====
-- release/build/arm_2d.cpp: point_in_time_best_match, the flags of the targets in its loop.
use robot_arm_2d.Double.{Double}
use robot_arm_2d.Prelude.{
  ℕ, zero, suc, ◌≡◌, ◌≢◌, ◌⊎◌, refl, sym, ap, ◌∙◌, Bool, true, false, ◌&&◌, inl, inr, List, [], ◌∷◌,
  Option, none, some, arith, get_elem?, set, Bool-cases, ◌==◌,
}
use robot_arm_2d.Target.{Target, acquired_target}

module _ {ℓ} {A : Type ℓ} where
  pub get_elem-set :
      (xs : List A) (i : ℕ) (v x : A) → get_elem? xs i ≡ some x → get_elem? (set xs i v) i ≡ some v
  get_elem-set [] i v x h = cc
  get_elem-set (y ∷ xs) zero v x h = refl
  get_elem-set (y ∷ xs) (suc i) v x h = get_elem-set xs i v x h

  pub get_elem-set_other :
      (xs : List A) (i j : ℕ) (v : A) → i ≢ j → get_elem? (set xs i v) j ≡ get_elem? xs j
  get_elem-set_other [] i j v h = refl
  get_elem-set_other (y ∷ xs) zero zero v h = absurd (h refl)
  get_elem-set_other (y ∷ xs) zero (suc j) v h = refl
  get_elem-set_other (y ∷ xs) (suc i) zero v h = refl
  get_elem-set_other (y ∷ xs) (suc i) (suc j) v h = get_elem-set_other xs i j v (λ e. h (ap suc e))

-- The pointer is in the list.
abbrev pub IsIn : ℕ → List ℕ → Type 0
IsIn r [] = ⊥
IsIn r (q ∷ refs) = (r ≡ q) ⊎ IsIn r refs

module _ {ℓ} {D : Type ℓ} ⦃d : Double D⦄ where
  -- The pointer's target is there and has been acquired.
  abbrev pub IsPresent : List (Target D) → ℕ → Target D → Type ℓ
  IsPresent targets r t = (get_elem? targets r ≡ some t) × (t.target_present ≡ true)

  -- The target with its flag down.
  abbrev pub lowered : Target D → Target D
  lowered t = record t { target_present = false }

  abbrev present_of : Option (Target D) → Bool
  present_of none = false
  present_of (some t) = t.target_present

  acquired-eq : (t : Target D) → (acquired_target t).0 ≡ t.target_present
  unfolding acquired_target
  acquired-eq t = ground arith

  pub acquired-lowered : (t : Target D) → (acquired_target t).1 ≡ lowered t
  unfolding acquired_target
  acquired-lowered t = elim (Bool-cases t.target_present) [ inl e ↦ rw e refl | inr e ↦ rw e refl ]

  pub IsPresent-kept :
      (targets : List (Target D)) (q r : ℕ) (v u : Target D)
      → IsPresent targets r u
      → (r ≡ q) ⊎ IsPresent (set targets q v) r u
  IsPresent-kept targets q r v u (h, k) = elim (Bool-cases (r == q)) [
    | inl e ↦ inl (ground arith)
    | inr e ↦ inr (get_elem-set_other targets q r v (ground arith) ∙ h, k)
  ]

  pub IsPresent-back :
      (targets : List (Target D)) (q r : ℕ) (t u : Target D)
      → get_elem? targets q ≡ some t
      → IsPresent (set targets q (lowered t)) r u
      → (r ≢ q) × IsPresent targets r u
  IsPresent-back targets q r t u e (h, k) = elim (Bool-cases (r == q)) [
    | inl s ↦ absurd (lowered_absurd (get_elem-set targets q (lowered t) t e) (ground arith))
    | inr s ↦
        ((ground arith), (sym (get_elem-set_other targets q r (lowered t) (ground arith)) ∙ h, k))
  ]
    where
      lowered_absurd : get_elem? (set targets q (lowered t)) q ≡ some (lowered t) → r ≡ q → ⊥
      lowered_absurd p s =
          let low = ap present_of p in
          let high = ap present_of h ∙ k in
          let same = ap (λ i. present_of (get_elem? (set targets q (lowered t)) i)) s in cc

  -- Whether the target is taken.
  abbrev pub is_taken : D → Target D → Bool
  is_taken percent t = (acquired_target t).0 && d.lt percent t.fov_match

  pub taken_present :
      (percent : D) (t : Target D) → is_taken percent t ≡ true → t.target_present ≡ true
  taken_present percent t k = let e = acquired-eq t in ground arith

  pub taken_less :
      (percent : D) (t : Target D) → is_taken percent t ≡ true → d.lt percent t.fov_match ≡ true
  taken_less percent t k = ground arith

  pub passed_less :
      (percent : D) (t : Target D)
      → is_taken percent t ≡ false
      → t.target_present ≡ true
      → d.lt percent t.fov_match ≡ false
  passed_less percent t k h = let e = acquired-eq t in ground arith

  pub same_target :
      (targets : List (Target D)) (q r : ℕ) (t u : Target D)
      → get_elem? targets q ≡ some t
      → get_elem? targets r ≡ some u
      → r ≡ q
      → u ≡ t
  same_target targets q r t u e h s = let at_q = ap (get_elem? targets) s in cc
