-- ===== src/Transform/Laws.antt =====
-- release/build/transformations.h: the turns by quarters, and compile_transforms.
use robot_arm_2d.Double.{Double}
use robot_arm_2d.Prelude.{◌≡◌, refl, List, [], ◌∷◌, ◌++◌, none, some}
use robot_arm_2d.Transform.{
  Matrix2D, rotate_90_cck, rotate_180_cck, rotate_270_cck, reversed, compile_reversed,
  compile_transforms,
}

module _ {ℓ} {D : Type ℓ} ⦃d : Double D⦄ where
  -- Where the negation of a number's negation is the number, a half turn is two quarter turns,
  -- three quarters are a quarter turn behind a half turn, and a quarter turn behind these three
  -- ends where it began.
  pub rotate_90-cycle :
      ((x : D) → d.neg (d.neg x) ≡ x)
      → (p : D × D)
      → (rotate_180_cck p ≡ rotate_90_cck (rotate_90_cck p))
        × (rotate_270_cck p ≡ rotate_90_cck (rotate_180_cck p))
        × (rotate_90_cck (rotate_270_cck p) ≡ p)
  unfolding rotate_90_cck rotate_180_cck rotate_270_cck
  rotate_90-cycle neg_neg (x, y) = (refl, rw (neg_neg y) refl, rw (neg_neg x) refl)

  compile_reversed-append :
      (ms : List (Matrix2D D)) (m m' : Matrix2D D)
      → compile_reversed ((ms ++ m ∷ []) ++ m' ∷ []) ≡ none
  unfolding compile_reversed robot_arm_2d.Transform.compile_back
  compile_reversed-append [] m m' = refl
  compile_reversed-append (l ∷ []) m m' = refl
  compile_reversed-append (l ∷ k ∷ ms) m m' = refl

  -- `compile_transforms` gives back a single matrix as it is. With two or more it moves its iterator in
  -- front of the first one, and has no defined result.
  pub compile_transforms_lem :
      (m m' : Matrix2D D) (ms : List (Matrix2D D))
      → (compile_transforms (some (m ∷ [])) ≡ some (some m))
        × (compile_transforms (some (m ∷ m' ∷ ms)) ≡ none)
  unfolding compile_transforms reversed compile_reversed
  compile_transforms_lem m m' ms = (refl, compile_reversed-append (reversed ms) m' m)
