-- ===== src/Scene/Match.antt =====
-- release/build/arm_2d.cpp: point_in_time_best_match, what it finds.
use robot_arm_2d.Double.{Double, IsStrict}
use robot_arm_2d.Prelude.{
  ℕ, ◌≡◌, ◌⊎◌, refl, sym, ap, ◌∙◌, true, false, inl, inr, List, [], ◌∷◌, Option, none, some,
  get_elem?, set, All, length, ◌<◌, Bool-cases, Option-cases,
}
use robot_arm_2d.Scene.{Scene, best_place, point_in_time_best_match}
use robot_arm_2d.Target.{Target}
use robot_arm_2d.Scene.Round.{
  IsIn, IsPresent, IsPresent-kept, IsPresent-back, lowered, is_taken, taken_present, taken_less,
  passed_less, same_target,
}
use robot_arm_2d.Scene.Loop.{
  best_loop, best_among-total, best_loop-missing, best_loop-taken, best_loop-passed,
  best_loop-lowered,
}

module _ {ℓ} {D : Type ℓ} ⦃d : Double D⦄ ⦃strict : IsStrict D⦄ where
  -- No present target of the list matches better than `percent`.
  abbrev pub IsLeast : List ℕ → List (Target D) → D → Type ℓ
  IsLeast refs targets percent =
      (r : ℕ) (t : Target D)
      → IsIn r refs
      → IsPresent targets r t
      → d.lt percent t.fov_match ≡ false

  -- The target found is a present one of the list, its match is `percent'`, and `percent` is less.
  abbrev pub IsFound : List ℕ → List (Target D) → D → D → Option ℕ → Type ℓ
  IsFound refs targets percent percent' best =
      (r : ℕ) × (t : Target D) × (best ≡ some r)
      × IsIn r refs
      × IsPresent targets r t
      × (t.fov_match ≡ percent')
      × (d.lt percent percent' ≡ true)

  -- The loop went on with what it had, or it found a target.
  abbrev Outcome : List ℕ → List (Target D) → D → Option ℕ → D → Option ℕ → Type ℓ
  Outcome refs targets percent best percent' best' =
      ((percent' ≡ percent) × (best' ≡ best)) ⊎ IsFound refs targets percent percent' best'

  abbrev Reached : List ℕ → List (Target D) → D → Option ℕ → Option ℕ × D × List (Target D) → Type ℓ
  Reached refs targets percent best o =
      IsLeast refs targets o.1 × Outcome refs targets percent best o.1 o.0

  not_less : (x y z : D) → d.lt x y ≡ false → d.lt x z ≡ true → d.lt z y ≡ false
  not_less x y z h k = elim (Bool-cases (d.lt z y)) [
    | inl e ↦ absurd (cc (strict.lt_trans x z y k e))
    | inr e ↦ e
  ]

  -- The match that was reached is not below one that it is, or that it is better than.
  reached_least : (x y : D) → (x ≡ y) ⊎ (d.lt y x ≡ true) → d.lt x y ≡ false
  reached_least x y (inl e) = ap (λ z. d.lt z y) e ∙ strict.lt_irrefl y
  reached_least x y (inr l) = not_less y y x (strict.lt_irrefl y) l

  module _ (targets : List (Target D)) (q : ℕ) (refs : List ℕ) (percent : D) (best : Option ℕ)
      (o : Option ℕ × D × List (Target D)) where
    Reached-missing :
        get_elem? targets q ≡ none
        → Reached refs targets percent best o
        → Reached (q ∷ refs) targets percent best o
    Reached-missing e h = (first, outcome (h.1))
      where
        first : IsLeast (q ∷ refs) targets o.1
        first r u (inl s) p = let at_q = ap (get_elem? targets) s in absurd (cc (p.0))
        first r u (inr i) p = h.0 r u i p

        outcome :
            Outcome refs targets percent best o.1 o.0
            → Outcome (q ∷ refs) targets percent best o.1 o.0
        outcome (inl same) = inl same
        outcome (inr (r, u, b, i, p, m, l)) = inr (r, u, b, inr i, p, m, l)

    Reached-taken :
        (t : Target D)
        → get_elem? targets q ≡ some t
        → t.target_present ≡ true
        → d.lt percent t.fov_match ≡ true
        → Reached refs (set targets q (lowered t)) t.fov_match (some q) o
        → Reached (q ∷ refs) targets percent best o
    Reached-taken t e present less h = (first, outcome (h.1))
      where
        better :
            Outcome refs (set targets q (lowered t)) t.fov_match (some q) o.1 o.0
            → (o.1 ≡ t.fov_match) ⊎ (d.lt t.fov_match o.1 ≡ true)
        better (inl (s, b)) = inl s
        better (inr (r, u, b, i, p, m, l)) = inr l

        here : (r : ℕ) (u : Target D) → r ≡ q → IsPresent targets r u → d.lt o.1 u.fov_match ≡ false
        here r u s p =
            ap (λ v. d.lt o.1 v.fov_match) (same_target targets q r t u e (p.0) s)
            ∙ reached_least o.1 t.fov_match (better (h.1))

        first : IsLeast (q ∷ refs) targets o.1
        first r u (inl s) p = here r u s p
        first r u (inr i) p = elim (IsPresent-kept targets q r (lowered t) u p) [
          | inl s ↦ here r u s p
          | inr p' ↦ h.0 r u i p'
        ]

        outcome :
            Outcome refs (set targets q (lowered t)) t.fov_match (some q) o.1 o.0
            → Outcome (q ∷ refs) targets percent best o.1 o.0
        outcome (inl (s, b)) =
            inr (q, t, b, inl refl, (e, present), sym s, ap (d.lt percent) s ∙ less)
        outcome (inr (r, u, b, i, p, m, l)) = inr (
          r,
          u,
          b,
          inr i,
          (IsPresent-back targets q r t u e p).1,
          m,
          strict.lt_trans percent t.fov_match o.1 less l,
        )

    Reached-passed :
        (t : Target D)
        → get_elem? targets q ≡ some t
        → (t.target_present ≡ true → d.lt percent t.fov_match ≡ false)
        → Reached refs (set targets q (lowered t)) percent best o
        → Reached (q ∷ refs) targets percent best o
    Reached-passed t e passed h = (first, outcome (h.1))
      where
        after :
            Outcome refs (set targets q (lowered t)) percent best o.1 o.0
            → d.lt percent t.fov_match ≡ false
            → d.lt o.1 t.fov_match ≡ false
        after (inl (s, b)) k = ap (λ z. d.lt z t.fov_match) s ∙ k
        after (inr (r, u, b, i, p, m, l)) k = not_less percent t.fov_match o.1 k l

        here : (r : ℕ) (u : Target D) → r ≡ q → IsPresent targets r u → d.lt o.1 u.fov_match ≡ false
        here r u s p =
            let same = same_target targets q r t u e (p.0) s in
            ap (λ v. d.lt o.1 v.fov_match) same
            ∙ after (h.1) (passed (ap (λ v. v.target_present) (sym same) ∙ p.1))

        first : IsLeast (q ∷ refs) targets o.1
        first r u (inl s) p = here r u s p
        first r u (inr i) p = elim (IsPresent-kept targets q r (lowered t) u p) [
          | inl s ↦ here r u s p
          | inr p' ↦ h.0 r u i p'
        ]

        outcome :
            Outcome refs (set targets q (lowered t)) percent best o.1 o.0
            → Outcome (q ∷ refs) targets percent best o.1 o.0
        outcome (inl same) = inl same
        outcome (inr (r, u, b, i, p, m, l)) =
            inr (r, u, b, inr i, (IsPresent-back targets q r t u e p).1, m, l)

  best_loop-Reached :
      (refs : List ℕ) (percent : D) (best : Option ℕ) (targets : List (Target D))
      → Reached refs targets percent best (best_loop refs percent best targets)
  best_loop-Reached [] percent best targets =
      unfold best_loop in ((λ r t h. absurd h), inl (refl, refl))
  best_loop-Reached (q ∷ refs) percent best targets = elim (Option-cases (get_elem? targets q)) [
    | inl e ↦ rw (best_loop-missing q refs percent best targets e) (
        Reached-missing targets q refs percent best (best_loop refs percent best targets) e
          (best_loop-Reached refs percent best targets))
    | inr (t, e) ↦ elim (Bool-cases (is_taken percent t)) [
      | inl k ↦ rw (best_loop-taken q refs percent best targets t e k) (
          Reached-taken targets q refs percent best
            (best_loop refs t.fov_match (some q) (set targets q (lowered t))) t e
            (taken_present percent t k) (taken_less percent t k)
            (best_loop-Reached refs t.fov_match (some q) (set targets q (lowered t))))
      | inr k ↦ rw (best_loop-passed q refs percent best targets t e k) (
          Reached-passed targets q refs percent best
            (best_loop refs percent best (set targets q (lowered t))) t e (passed_less percent t k)
            (best_loop-Reached refs percent best (set targets q (lowered t))))
    ]
  ]

  -- Where every pointer of the storage is that of a target that was made,
  -- `point_in_time_best_match` has a result. It finds a target of the storage that is present,
  -- matches better than 0, and than which no present one matches better; or it finds none, and then
  -- no present target matches better than 0. Either way no target of the storage is present behind
  -- it. The order of the numbers is strict.
  pub point_in_time_best_match-IsBest :
      (x_hat y_hat : D) (scene : Scene D)
      → All (λ r. r < length scene.targets) scene.storage
      → (best : Option ℕ) × (place : D × D) × (scene' : Scene D) × (point_in_time_best_match x_hat
            y_hat scene
          ≡ some (best, place, scene'))
        × ((percent : D) × IsLeast scene.storage scene.targets percent
            × (((percent ≡ d.lit 0 0) × (best ≡ none))
                ⊎ IsFound scene.storage scene.targets (d.lit 0 0) percent best))
        × ((r : ℕ) (t : Target D) → IsIn r scene.storage → IsPresent scene'.targets r t → ⊥)
  unfolding point_in_time_best_match
  point_in_time_best_match-IsBest x_hat y_hat scene made =
      let found = best_loop scene.storage (d.lit 0 0) none scene.targets in
      let reached = best_loop-Reached scene.storage (d.lit 0 0) none scene.targets in
      (
        found.0,
        best_place found.0 found.2 x_hat y_hat,
        record scene { targets = found.2 },
        rw (best_among-total scene.storage (d.lit 0 0) none scene.targets made) refl,
        (found.1, reached.0, reached.1),
        best_loop-lowered scene.storage (d.lit 0 0) none scene.targets,
      )
