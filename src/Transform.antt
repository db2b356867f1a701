-- ===== src/Transform.antt =====
-- release/build/transformations.h: Matrix2D and JointTransformation.
pub mod Laws
mod Tests
use robot_arm_2d.Double.{Double}
use robot_arm_2d.Prelude.{◌≡◌, List, [], ◌∷◌, ◌++◌, Option, none, some}
use robot_arm_2d.Prelude.Int.{ℤ}

pub record Matrix2D {ℓ} (D : Type ℓ) : Type ℓ where
  pub a11 : D
  pub a12 : D
  pub a21 : D
  pub a22 : D

module _ {ℓ} {D : Type ℓ} ⦃d : Double D⦄ where
  -- The constructor.
  abbrev pub new_matrix : Matrix2D D
  new_matrix = record { a11 = d.lit 0 0; a12 = d.lit 0 0; a21 = d.lit 0 0; a22 = d.lit 0 0 }

  unfoldable pub matrix_transform : Matrix2D D → D × D → D × D
  matrix_transform m (x, y) =
      (d.add (d.mul m.a11 x) (d.mul m.a12 y), d.add (d.mul m.a21 x) (d.mul m.a22 y))

  -- `m * m2`, which works on `m` itself: the first column goes to `_x11` and `_x21`; then, with the
  -- new values in place, the second row of `m2` goes to `_x21` and `_x22`.
  unfoldable pub times : Matrix2D D → Matrix2D D → Matrix2D D
  times m m2 =
      let first = matrix_transform m (m2.a11, m2.a21) in
      let half = record m { a11 = first.0; a21 = first.1 } in
      let second = matrix_transform half (m2.a21, m2.a22) in
      record half { a21 = second.0; a22 = second.1 }

  -- `m * scale`
  unfoldable pub times_scale : Matrix2D D → D → Matrix2D D
  times_scale m scale = record {
    a11 = d.mul scale m.a11;
    a12 = d.mul scale m.a12;
    a21 = d.mul scale m.a21;
    a22 = d.mul scale m.a22;
  }

  -- `matrix_2d_transform`, on the four numbers of `M`.
  unfoldable pub matrix_2d_transform : D → D → D → D → D × D → D × D
  matrix_2d_transform m0 m1 m2 m3 (x, y) =
      (d.add (d.mul x m0) (d.mul y m1), d.add (d.mul x m2) (d.mul y m3))

  unfoldable pub rotate_2d : D → D × D → D × D
  unfolding matrix_2d_transform
  rotate_2d theta p =
      matrix_2d_transform (d.cos theta) (d.neg (d.sin theta)) (d.sin theta) (d.cos theta) p

  unfoldable pub rotate_2d_sign : D → ℤ → D × D → D × D
  unfolding matrix_2d_transform
  rotate_2d_sign theta sign p =
      matrix_2d_transform (d.cos theta) (d.mul (d.neg (d.sin theta)) (d.of_int sign))
        (d.mul (d.sin theta) (d.of_int sign)) (d.cos theta) p

  unfoldable pub rotate_90_cck : D × D → D × D
  rotate_90_cck (x, y) = (d.neg y, x)

  unfoldable pub rotate_180_cck : D × D → D × D
  rotate_180_cck (x, y) = (d.neg x, d.neg y)

  unfoldable pub rotate_270_cck : D × D → D × D
  rotate_270_cck (x, y) = (y, d.neg x)

  unfoldable pub scaling_transform : D → D × D → D × D
  scaling_transform scale (x, y) = (d.mul scale x, d.mul scale y)

  unfoldable pub translation_transform : D × D → D × D → D × D
  translation_transform (a, b) (x, y) = (d.add a x, d.add b y)

  unfoldable pub translation_point_to_point_transform : D × D → D × D → D × D → D × D
  unfolding translation_transform
  translation_point_to_point_transform end_point start_point p =
      translation_transform
        (d.sub (end_point.0) (start_point.0), d.sub (end_point.1) (start_point.1)) p

  unfoldable pub y_axis_translation_transform : D → D × D → D × D
  y_axis_translation_transform translator (x, y) = (x, d.add translator y)

  unfoldable pub reversed : List (Matrix2D D) → List (Matrix2D D)
  reversed [] = []
  reversed (m ∷ ms) = reversed ms ++ m ∷ []

  -- `for ( ; lmit != composition->end(); lmit-- )`, with the elements from the iterator back to the
  -- first. In front of the first element the iterator has no defined value: `none`.
  unfoldable pub compile_back : List (Matrix2D D) → Matrix2D D → Option (Matrix2D D)
  unfolding times
  compile_back [] holder = none
  compile_back (next ∷ before) holder = compile_back before (times next holder)

  -- What stands behind `composition->reverse()`: the first element, and the loop from the second one.
  unfoldable pub compile_reversed : List (Matrix2D D) → Option (Option (Matrix2D D))
  unfolding compile_back
  compile_reversed [] = some none
  compile_reversed (prev ∷ []) = some (some prev)
  compile_reversed (prev ∷ next ∷ ms) = elim (compile_back (next ∷ prev ∷ []) prev) [
    | none ↦ none
    | some holder ↦ some (some holder)
  ]

  -- `compile_transforms`; the argument and the inner result are `none` where the pointer is NULL.
  unfoldable pub compile_transforms : Option (List (Matrix2D D)) → Option (Option (Matrix2D D))
  unfolding reversed compile_reversed
  compile_transforms none = some none
  compile_transforms (some composition) = compile_reversed (reversed composition)
