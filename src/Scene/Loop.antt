-- ===== src/Scene/Loop.antt =====
-- release/build/arm_2d.cpp: point_in_time_best_match, the rounds of its loop.
use robot_arm_2d.Double.{Double}
use robot_arm_2d.Prelude.{
  ℕ, ◌≡◌, refl, sym, ap, true, false, ◌&&◌, inl, inr, List, [], ◌∷◌, Option, none, some, get_elem?,
  set, Bool-cases, Option-cases, All, length, length-set, get_elem-below, ◌<◌, subst, if◌then◌else◌,
}
use robot_arm_2d.Prelude.Results.{Holds}
use robot_arm_2d.Scene.{best_among}
use robot_arm_2d.Target.{Target, acquired_target}
use robot_arm_2d.Scene.Round.{IsIn, IsPresent, IsPresent-back, lowered, acquired-lowered, is_taken}

module _ {ℓ} {D : Type ℓ} ⦃d : Double D⦄ where
  -- The loop as it goes where every pointer can be followed; any other pointer is passed.
  unfoldable pub best_loop :
      List ℕ → D → Option ℕ → List (Target D) → Option ℕ × D × List (Target D)
  best_loop [] percent best targets = (best, percent, targets)
  best_loop (r ∷ refs) percent best targets = elim (get_elem? targets r) [
    | none ↦ best_loop refs percent best targets
    | some t ↦
        let acquired = acquired_target t in
        let targets' = set targets r acquired.1 in
        if acquired.0 && d.lt percent t.fov_match
        then best_loop refs t.fov_match (some r) targets'
        else best_loop refs percent best targets'
  ]

  -- One round of the loop.
  pub best_loop-missing :
      (q : ℕ) (refs : List ℕ) (percent : D) (best : Option ℕ) (targets : List (Target D))
      → get_elem? targets q ≡ none
      → best_loop (q ∷ refs) percent best targets ≡ best_loop refs percent best targets
  unfolding best_loop
  best_loop-missing q refs percent best targets e = rw (e, best_loop) refl

  pub best_loop-taken :
      (q : ℕ) (refs : List ℕ) (percent : D) (best : Option ℕ) (targets : List (Target D))
      (t : Target D)
      → get_elem? targets q ≡ some t
      → is_taken percent t ≡ true
      → best_loop (q ∷ refs) percent best targets
        ≡ best_loop refs t.fov_match (some q) (set targets q (lowered t))
  unfolding best_loop
  best_loop-taken q refs percent best targets t e k =
      rw (e, best_loop) (rw (k, acquired-lowered t) refl)

  pub best_loop-passed :
      (q : ℕ) (refs : List ℕ) (percent : D) (best : Option ℕ) (targets : List (Target D))
      (t : Target D)
      → get_elem? targets q ≡ some t
      → is_taken percent t ≡ false
      → best_loop (q ∷ refs) percent best targets
        ≡ best_loop refs percent best (set targets q (lowered t))
  unfolding best_loop
  best_loop-passed q refs percent best targets t e k =
      rw (e, best_loop) (rw (k, acquired-lowered t) refl)

  -- The loop of the program, where it has a result; and it has one where the pointers are those of
  -- targets.
  pub best_among-loop :
      (refs : List ℕ) (percent : D) (best : Option ℕ) (targets : List (Target D))
      → Holds (λ o. o ≡ best_loop refs percent best targets) (best_among refs percent best targets)
  unfolding best_among
  best_among-loop [] percent best targets = unfold best_loop in refl
  best_among-loop (q ∷ refs) percent best targets = elim (Option-cases (get_elem? targets q)) [
    | inl e ↦ rw (e, best_among) tt
    | inr (t, e) ↦ elim (Bool-cases (is_taken percent t)) [
      | inl k ↦ rw (best_loop-taken q refs percent best targets t e k) (
          rw (e, best_among)
            (rw (k, acquired-lowered t)
              (best_among-loop refs t.fov_match (some q) (set targets q (lowered t)))))
      | inr k ↦ rw (best_loop-passed q refs percent best targets t e k) (
          rw (e, best_among)
            (rw (k, acquired-lowered t)
              (best_among-loop refs percent best (set targets q (lowered t)))))
    ]
  ]

  pub best_among-total :
      (refs : List ℕ) (percent : D) (best : Option ℕ) (targets : List (Target D))
      → All (λ r. r < length targets) refs
      → best_among refs percent best targets ≡ some (best_loop refs percent best targets)
  unfolding best_among
  best_among-total [] percent best targets h = unfold best_loop in refl
  best_among-total (q ∷ refs) percent best targets (l, h) =
      let (t, e) = get_elem-below targets q l in
      let h' = subst (λ n. All (λ r. r < n) refs) (sym (length-set targets q (lowered t))) h in
      elim (Bool-cases (is_taken percent t)) [
        | inl k ↦ rw (best_loop-taken q refs percent best targets t e k) (
            rw (e, best_among)
              (rw (k, acquired-lowered t)
                (best_among-total refs t.fov_match (some q) (set targets q (lowered t)) h')))
        | inr k ↦ rw (best_loop-passed q refs percent best targets t e k) (
            rw (e, best_among)
              (rw (k, acquired-lowered t)
                (best_among-total refs percent best (set targets q (lowered t)) h')))
      ]

  -- The loop raises no flag.
  best_loop-back :
      (refs : List ℕ) (percent : D) (best : Option ℕ) (targets : List (Target D)) (r : ℕ)
      (u : Target D)
      → IsPresent (best_loop refs percent best targets).2 r u
      → IsPresent targets r u
  best_loop-back [] percent best targets r u = unfold best_loop in λ h. h
  best_loop-back (q ∷ refs) percent best targets r u = elim (Option-cases (get_elem? targets q)) [
    | inl e ↦
        rw (best_loop-missing q refs percent best targets e)
          (best_loop-back refs percent best targets r u)
    | inr (t, e) ↦ elim (Bool-cases (is_taken percent t)) [
      | inl k ↦ rw (best_loop-taken q refs percent best targets t e k) (λ h.
          (IsPresent-back targets q r t u e
            (best_loop-back refs t.fov_match (some q) (set targets q (lowered t)) r u h)).1)
      | inr k ↦ rw (best_loop-passed q refs percent best targets t e k) (λ h.
          (IsPresent-back targets q r t u e
            (best_loop-back refs percent best (set targets q (lowered t)) r u h)).1)
    ]
  ]

  -- Behind the loop no target of the list has its flag up.
  pub best_loop-lowered :
      (refs : List ℕ) (percent : D) (best : Option ℕ) (targets : List (Target D)) (r : ℕ)
      (u : Target D)
      → IsIn r refs
      → IsPresent (best_loop refs percent best targets).2 r u
      → ⊥
  best_loop-lowered [] percent best targets r u i = absurd i
  best_loop-lowered (q ∷ refs) percent best targets r u i =
      elim (Option-cases (get_elem? targets q)) [
        | inl e ↦ rw (best_loop-missing q refs percent best targets e) (λ h.
            missing (best_loop-back refs percent best targets r u h) e i
              (λ j. best_loop-lowered refs percent best targets r u j h))
        | inr (t, e) ↦ elim (Bool-cases (is_taken percent t)) [
          | inl k ↦ rw (best_loop-taken q refs percent best targets t e k) (λ h.
              found t e (best_loop-back refs t.fov_match (some q) (set targets q (lowered t)) r u h)
                i
                (λ j.
                  best_loop-lowered refs t.fov_match (some q) (set targets q (lowered t)) r u j h))
          | inr k ↦ rw (best_loop-passed q refs percent best targets t e k) (λ h.
              found t e (best_loop-back refs percent best (set targets q (lowered t)) r u h) i
                (λ j. best_loop-lowered refs percent best (set targets q (lowered t)) r u j h))
        ]
      ]
    where
      missing :
          IsPresent targets r u
          → get_elem? targets q ≡ none
          → IsIn r (q ∷ refs)
          → (IsIn r refs → ⊥)
          → ⊥
      missing p e (inl s) k = let at_q = ap (get_elem? targets) s in cc (p.0)
      missing p e (inr j) k = k j

      found :
          (t : Target D)
          → get_elem? targets q ≡ some t
          → IsPresent (set targets q (lowered t)) r u
          → IsIn r (q ∷ refs)
          → (IsIn r refs → ⊥)
          → ⊥
      found t e p (inl s) k = (IsPresent-back targets q r t u e p).0 s
      found t e p (inr j) k = k j
