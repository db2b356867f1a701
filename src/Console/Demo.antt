-- ===== src/Console/Demo.antt =====
-- release/build/arm_2d.cpp: transformation_tests, report_arm_position, and the places of the
-- demonstrations test_coords and test_extender_coords.
use robot_arm_2d.Aim.{base_angle, elbow_angle}
use robot_arm_2d.Arm.{two_pi}
use robot_arm_2d.Console.Words.{read_word}
use robot_arm_2d.Double.{Double}
use robot_arm_2d.Motion.{Machine, drop_paren}
use robot_arm_2d.Prelude.{ℕ, ◌+◌, ◌%◌, ◌&&◌, ◌||◌, List, [], ◌∷◌, Bytes, ◌==◌, if◌then◌else◌}
use robot_arm_2d.Target.{pi}
use robot_arm_2d.Text.Find.{behind}
use robot_arm_2d.Transform.{rotate_2d}

-- The static variables of `test_coords` and of `test_extender_coords`.
pub record Spiral {ℓ} (D : Type ℓ) : Type ℓ where
  pub i : ℕ
  pub current_theta : D
  pub current_radius : D

-- What `transformation_tests` prints of a place: the length, the angle and its part of PI.
pub record Polar {ℓ} (D : Type ℓ) : Type ℓ where
  pub place : D × D
  pub radius : D
  pub theta : D
  pub pi_part : D

module _ {ℓ} {D : Type ℓ} ⦃d : Double D⦄ where
  -- `report_arm_position`: the numbers that are printed.
  unfoldable pub report_arm_position : Machine D → List D
  report_arm_position m = m.current_x ∷ m.current_y ∷ base_angle m.arm ∷ elbow_angle m.arm ∷ []

  abbrev pub fabs : D → D
  fabs x = if d.lt x (d.lit 0 0) then d.neg x else x

  -- The angle of a place by its quadrant; `PI/2` of the code is added in the second one.
  unfoldable pub polar_of : D × D → Polar D
  polar_of (x, y) =
      let r1 = d.sqrt (d.add (d.mul x x) (d.mul y y)) in
      let first = d.acos (d.div (fabs x) r1) in
      let half_pi = d.div pi (d.lit 2 0) in
      let below = d.lt x (d.lit 0 0) || d.lt y (d.lit 0 0) in
      let theta =
        if below
        then (if d.lt (d.lit 0 0) x
            then d.neg first
            else if d.lt (d.lit 0 0) y
            then d.add half_pi first
            else d.sub (d.neg first) half_pi)
        else first in
      record { place = (x, y); radius = r1; theta = theta; pi_part = d.div pi theta }

  -- The angle of the turn; a part that is too small or too large turns by nothing.
  abbrev pub turn_of : D → D
  turn_of pi_part =
      if d.lt (d.lit 5 4) (fabs pi_part) && d.lt (fabs pi_part) (d.lit 50_000 0)
      then d.div pi pi_part
      else d.lit 0 0

  -- `transformation_tests`: the two reports, and the words that are left.
  unfoldable pub transformation_tests : List Bytes → Polar D × Polar D × List Bytes
  unfolding polar_of
  transformation_tests input =
      let xy_pair = read_word [] input in
      let pipart = read_word [] xy_pair.1 in
      let pair = drop_paren xy_pair.0 in
      let place : D × D = (d.atof pair, d.atof (behind b',' pair)) in
      let turned = rotate_2d (turn_of (d.neg (d.atof pipart.0))) place in
      (polar_of place, polar_of turned, pipart.1)

  -- `current_radius*cos(current_theta)` and `current_radius*sin(current_theta)`
  abbrev pub place_of : Spiral D → D × D
  place_of s = (
    d.mul s.current_radius (d.cos s.current_theta),
    d.mul s.current_radius (d.sin s.current_theta),
  )

  abbrev pub first_coords : Spiral D
  first_coords = record { i = 0; current_theta = d.lit 0 0; current_radius = d.lit 1 0 }

  -- `test_coords`: the place, and the static variables behind it.
  unfoldable pub test_coords : Spiral D → (D × D) × Spiral D
  test_coords s =
      let begun : Spiral D = if s.i % 20000 == 0 then s else record {
        i = 0;
        current_theta = d.lit 0 0;
        current_radius = d.add s.current_radius (d.lit 3 0);
      } in
      (
        place_of begun,
        record begun {
          i = begun.i + 1;
          current_theta = d.add begun.current_theta (d.div two_pi (d.lit 20_000 0));
        },
      )

  abbrev pub first_extender_coords : Spiral D
  first_extender_coords = record { i = 0; current_theta = d.lit 0 0; current_radius = d.lit 30 0 }

  -- `test_extender_coords`
  unfoldable pub test_extender_coords : Spiral D → (D × D) × Spiral D
  test_extender_coords s =
      let begun : Spiral D =
        if s.i % 20 == 0
        then record s {
          current_theta = d.lit 0 0;
          current_radius = d.add s.current_radius (d.lit 1 1);
        }
        else s in
      (
        place_of begun,
        record begun {
          i = begun.i + 1;
          current_theta = d.add begun.current_theta (d.div two_pi (d.lit 20 0));
        },
      )
