-- ===== src/Scene/Cleared.antt =====
-- release/build/arm_2d.cpp: clear_targets, and the match of the moment behind it.
use robot_arm_2d.Double.{Double}
use robot_arm_2d.Prelude.{
  ℕ, zero, suc, ◌≡◌, ◌⊎◌, refl, Bool, sym, ap, subst, ◌∙◌, inl, inr, true, false, List, [], ◌∷◌,
  Option, none, some, some-injective, arith, get_elem?, set, All, length, length-set, ◌<◌,
  Bool-cases, Option-cases, ◌==◌,
}
use robot_arm_2d.Scene.{Scene, clear_among, clear_targets, best_place, point_in_time_best_match}
use robot_arm_2d.Scene.Round.{IsIn, get_elem-set_other, lowered, is_taken, taken_present}
use robot_arm_2d.Scene.Loop.{best_loop, best_among-total, best_loop-missing, best_loop-passed}
use robot_arm_2d.Target.{Target, set_target_not_acquired}

set_only {ℓ} :
    {A : Type ℓ} (xs : List A) (i : ℕ) (v x : A) → get_elem? (set xs i v) i ≡ some x → x ≡ v
set_only [] i v x h = absurd (cc)
set_only (y ∷ xs) zero v x h = sym (some-injective v x h)
set_only (y ∷ xs) (suc i) v x h = set_only xs i v x h

module _ {ℓ} {D : Type ℓ} where
  -- The target, if there is one, has its flag down.
  abbrev pub IsAbsent : List (Target D) → ℕ → Type ℓ
  IsAbsent targets r = (t : Target D) → get_elem? targets r ≡ some t → t.target_present ≡ false

  pub set-IsAbsent :
      (targets : List (Target D)) (q r : ℕ) (u : Target D)
      → u.target_present ≡ false
      → (r ≡ q) ⊎ IsAbsent targets r
      → IsAbsent (set targets q u) r
  set-IsAbsent targets q r u down h t e = elim (Bool-cases (r == q)) [
    | inl s ↦ at_q (ground arith)
    | inr s ↦ other (ground arith) h
  ]
    where
      at_q : r ≡ q → t.target_present ≡ false
      at_q s =
          ap (λ w. w.target_present)
            (set_only targets q u t (subst (λ i. get_elem? (set targets q u) i ≡ some t) s e))
          ∙ down

      other : (r ≡ q → ⊥) → (r ≡ q) ⊎ IsAbsent targets r → t.target_present ≡ false
      other n (inl s) = absurd (n s)
      other n (inr k) = k t (sym (get_elem-set_other targets q r u (λ s. n (sym s))) ∙ e)

  length-clear_among :
      (refs : List ℕ) (targets : List (Target D))
      → length (clear_among refs targets) ≡ length targets
  unfolding clear_among
  length-clear_among [] targets = refl
  length-clear_among (q ∷ refs) targets = elim (Option-cases (get_elem? targets q)) [
    | inl e ↦ rw (e, clear_among) (length-clear_among refs targets)
    | inr (t, e) ↦
        rw (e, clear_among)
          (length-clear_among refs (set targets q (set_target_not_acquired t))
            ∙ length-set targets q (set_target_not_acquired t))
  ]

  clear_among-keeps :
      (refs : List ℕ) (targets : List (Target D)) (r : ℕ)
      → IsAbsent targets r ⊎ IsIn r refs
      → IsAbsent (clear_among refs targets) r
  unfolding clear_among set_target_not_acquired
  clear_among-keeps [] targets r (inl h) = h
  clear_among-keeps [] targets r (inr i) = absurd i
  clear_among-keeps (q ∷ refs) targets r h = elim (Option-cases (get_elem? targets q)) [
    | inl e ↦ rw (e, clear_among) (clear_among-keeps refs targets r (passed e h))
    | inr (t, e) ↦
        rw (e, clear_among)
          (clear_among-keeps refs (set targets q (set_target_not_acquired t)) r (cleared t h))
  ]
    where
      passed :
          get_elem? targets q ≡ none
          → IsAbsent targets r ⊎ IsIn r (q ∷ refs)
          → IsAbsent targets r ⊎ IsIn r refs
      passed e (inl k) = inl k
      passed e (inr (inl s)) =
          inl (λ t k. absurd (gone e (subst (λ i. get_elem? targets i ≡ some t) s k)))
        where
          gone : {t : Target D} → get_elem? targets q ≡ none → get_elem? targets q ≡ some t → ⊥
          gone a b = cc
      passed e (inr (inr i)) = inr i

      cleared :
          (t : Target D)
          → IsAbsent targets r ⊎ IsIn r (q ∷ refs)
          → IsAbsent (set targets q (set_target_not_acquired t)) r ⊎ IsIn r refs
      cleared t (inl k) = inl (set-IsAbsent targets q r _ refl (inr k))
      cleared t (inr (inl s)) = inl (set-IsAbsent targets q r _ refl (inl s))
      cleared t (inr (inr i)) = inr i

module _ {ℓ} {D : Type ℓ} ⦃d : Double D⦄ where
  best_loop-absent :
      (refs : List ℕ) (percent : D) (best : Option ℕ) (targets : List (Target D))
      → ((r : ℕ) → IsIn r refs → IsAbsent targets r)
      → (best_loop refs percent best targets).0 ≡ best
  best_loop-absent [] percent best targets h = unfold best_loop in refl
  best_loop-absent (q ∷ refs) percent best targets h = elim (Option-cases (get_elem? targets q)) [
    | inl e ↦
        rw (best_loop-missing q refs percent best targets e)
          (best_loop-absent refs percent best targets (λ r i. h r (inr i)))
    | inr (t, e) ↦ elim (Bool-cases (is_taken percent t)) [
      | inl k ↦ absurd (both (taken_present percent t k) (h q (inl refl) t e))
      | inr k ↦ rw (best_loop-passed q refs percent best targets t e k) (
          best_loop-absent refs percent best (set targets q (lowered t))
            (λ r i. set-IsAbsent targets q r (lowered t) refl (inr (h r (inr i)))))
    ]
  ]
    where
      both : {b : Bool} → b ≡ true → b ≡ false → ⊥
      both a c = cc

  -- Behind `clear_targets`, until a report comes, there is no match of the moment: the pointer is NULL,
  -- and the place stays as it is.
  pub clear_targets-unmatched :
      (x_hat y_hat : D) (scene : Scene D)
      → All (λ r. r < length scene.targets) scene.storage
      → (scene' : Scene D) × (point_in_time_best_match x_hat y_hat (clear_targets scene)
          ≡ some (none, (x_hat, y_hat), scene'))
  unfolding clear_targets point_in_time_best_match
  clear_targets-unmatched x_hat y_hat scene made = (
    last,
    rw (best_among-total scene.storage (d.lit 0 0) none targets' made')
        (unfold best_place in (ap outcome nothing)),
  )
    where
      targets' : List (Target D)
      targets' = clear_among scene.storage scene.targets

      found : Option ℕ × D × List (Target D)
      found = best_loop scene.storage (d.lit 0 0) none targets'

      last : Scene D
      last = record scene { targets = found.2 }

      made' : All (λ r. r < length targets') scene.storage
      made' =
          subst (λ n. All (λ r. r < n) scene.storage)
            (sym (length-clear_among scene.storage scene.targets)) made

      outcome : Option ℕ → Option (Option ℕ × (D × D) × Scene D)
      outcome b = some (b, best_place b found.2 x_hat y_hat, last)

      absent : (r : ℕ) → IsIn r scene.storage → IsAbsent targets' r
      absent r i = clear_among-keeps scene.storage scene.targets r (inr i)

      nothing : found.0 ≡ none
      nothing = best_loop-absent scene.storage (d.lit 0 0) none targets' absent
