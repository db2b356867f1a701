-- ===== src/Scan/Sweep.antt =====
-- release/build/arm_2d.cpp: stepper_by_commands_acquire, scan_for_pattern_with_rotation_motion and
-- arm_to_home.
use robot_arm_2d.Aim.{Errors, target_to_arm_quiet}
use robot_arm_2d.Arm.{rotation_to_cartesian}
use robot_arm_2d.Double.{Double}
use robot_arm_2d.Motion.{Machine, step_n_motion, move_by_command, stepper_by_command}
use robot_arm_2d.Pattern.{target_parameter}
use robot_arm_2d.Prelude.{
  ℕ, zero, suc, ◌+◌, ◌/◌, false, [], Option, none, some, ◌>>=◌, Bytes, codes, get_elem?,
  if◌then◌else◌,
}
use robot_arm_2d.Prelude.Int.{ℤ, pos, negsuc, pos_part, ◌+ℤ◌, ◌-ℤ◌, negate, ltb_ℤ}
use robot_arm_2d.Scan.{Events, Hunt, acquire, half_turn, edge_count, rotation_of}
use robot_arm_2d.Scene.{Scene, clear_targets}
use robot_arm_2d.StdMap

-- The quotient of two `int` values, rounded towards 0; `none` stands for a division by 0.
unfoldable pub quotient : ℤ → ℤ → Option ℤ
quotient a (pos zero) = none
quotient (pos a) (pos (suc b)) = some (pos (a / suc b))
quotient (negsuc a) (pos (suc b)) = some (negate (pos (suc a / suc b)))
quotient (pos a) (negsuc b) = some (negate (pos (a / suc b)))
quotient (negsuc a) (negsuc b) = some (pos (suc a / suc b))

-- What a scan by rotation computes before it moves: the bounds of a sweep, the width of its steps,
-- and the rows with the elbow's start and the distance of the rows.
pub record Field {ℓ} (D : Type ℓ) : Type ℓ where
  pub base_steps : ℤ
  pub base_steps_delta : ℤ
  pub rows : ℕ
  pub elbow_start : D
  pub extend_delta : D

module _ {ℓ} {D : Type ℓ} ⦃d : Double D⦄ where
  -- `stepper_by_commands_acquire`
  unfoldable pub stepper_by_commands_acquire : ℕ → ℤ → Hunt D → Option (Hunt D)
  stepper_by_commands_acquire motor steps hunt = step_n_motion motor steps hunt.machine >>= λ m.
      acquire false motor
        (record hunt { t_acquired = none; hat = (d.lit 0 0, d.lit 0 0); machine = m })

  -- `while ( step_pos > -base_steps ) { step_pos -= base_steps_delta; … }`; `none` means that the fuel
  -- ran out, too.
  unfoldable pub sweep_down : ℕ → Field D → ℤ → Hunt D → Option (ℤ × Hunt D)
  unfolding stepper_by_commands_acquire
  sweep_down zero field step_pos hunt = none
  sweep_down (suc fuel) field step_pos hunt =
      let next = step_pos -ℤ field.base_steps_delta in
      let more = stepper_by_commands_acquire 1 next hunt >>= λ hunt'. elim (hunt'.t_acquired) [
        | some t ↦ some (next, hunt')
        | none ↦ sweep_down fuel field next hunt'
      ] in
      if ltb_ℤ (negate field.base_steps) step_pos then more else some (step_pos, hunt)

  -- `while ( step_pos < base_steps ) { step_pos += base_steps_delta; … }`
  unfoldable pub sweep_up : ℕ → Field D → ℤ → Hunt D → Option (ℤ × Hunt D)
  unfolding stepper_by_commands_acquire
  sweep_up zero field step_pos hunt = none
  sweep_up (suc fuel) field step_pos hunt =
      let next = step_pos +ℤ field.base_steps_delta in
      let more = stepper_by_commands_acquire 1 next hunt >>= λ hunt'. elim (hunt'.t_acquired) [
        | some t ↦ some (next, hunt')
        | none ↦ sweep_up fuel field next hunt'
      ] in
      if ltb_ℤ step_pos field.base_steps then more else some (step_pos, hunt)

  -- `stepper_by_command(2,elbow_steps)` for a row.
  unfoldable pub go_to_row : ℕ → Field D → ℕ → Hunt D → Option (Hunt D)
  go_to_row fuel field i hunt =
      let along = d.add (d.mul (d.of_int (pos i)) field.extend_delta) field.elbow_start in
      stepper_by_command fuel 2 (d.to_int (d.neg along)) hunt.machine >>= λ m.
      some (record hunt { machine = m })

  -- The loop over the rows, two in a round: down one, up the next. The first number is that of the
  -- rounds that are left.
  unfoldable pub sweep_loop : ℕ → ℕ → Field D → ℕ → ℤ → Hunt D → Option (Hunt D)
  sweep_loop fuel zero field i step_pos hunt = some hunt
  sweep_loop fuel (suc rounds) field i step_pos hunt = go_to_row fuel field i hunt >>= λ at_row.
      (sweep_down fuel field step_pos at_row >>= λ down. elim (down.1.t_acquired) [
        | some t ↦ some down.1
        | none ↦ go_to_row fuel field (i + 1) down.1 >>= λ at_next.
            (sweep_up fuel field down.0 at_next >>= λ up. elim (up.1.t_acquired) [
              | some t ↦ some up.1
              | none ↦ sweep_loop fuel rounds field (i + 2) up.0 up.1
            ])
      ])

  -- `sg_server_parameters[key]`
  abbrev pub server_parameter : Bytes → Scene D → Bytes × Scene D
  server_parameter key scene =
      let found = StdMap.at key [] scene.server_parameters in
      (found.0, record scene { server_parameters = found.1 })

  -- The numbers of the scan, and the stores with the parameters that were read.
  unfoldable pub field_of : Scene D → Machine D → Option (Field D × Scene D)
  unfolding quotient
  field_of scene m =
      let range = server_parameter (codes "FIELD_RANGE_FACTOR") scene in
      let arc = server_parameter (codes "FIELD_ARC_PARTITIONS") range.1 in
      let n = edge_count m +ℤ edge_count m in
      let base_steps = d.to_int (d.div (d.of_int (half_turn m)) (d.atof range.0)) in
      let elbow_start = d.of_int m.arm.elbow_current_steps in
      quotient base_steps (d.to_int (d.atof arc.0)) >>= λ base_steps_delta. some (
        record {
          base_steps = base_steps;
          base_steps_delta = base_steps_delta;
          rows = pos_part n;
          elbow_start = elbow_start;
          extend_delta = d.div (d.sub m.size.elbow_step elbow_start) (d.of_int (n +ℤ n));
        },
        arc.1,
      )

  -- Behind the loop: to the place that the motors report, and from there to the target's goal. `none`
  -- stands for the NULL pointer if no target was acquired.
  unfoldable pub go_to_acquired : ℕ → Errors → Hunt D → Option (Hunt D × Errors)
  go_to_acquired fuel errors hunt = rotation_of 0 hunt.machine >>= λ r₁.
      (rotation_of 1 r₁.1 >>= λ r₂.
      (let xy = rotation_to_cartesian r₂.1.size (d.neg r₁.0) (d.neg r₂.0) r₂.1.arm in
        move_by_command fuel xy.0 xy.1 r₂.1 >>= λ m.
        (hunt.t_acquired >>= λ r.
        (get_elem? hunt.scene.targets r >>= λ t.
        (let id = target_parameter (codes "id") r t hunt.scene in
          target_to_arm_quiet id.0 xy id.1 m errors >>= λ aimed.
          (move_by_command fuel aimed.0.0 aimed.0.1 m >>= λ m'.
          some (record hunt { scene = aimed.2; machine = m' }, aimed.1)))))))

  -- `clear_targets(); stepper_by_command(1,0); stepper_by_command(2,0);`
  unfoldable pub arm_to_home : ℕ → Scene D → Machine D → Option (Scene D × Machine D)
  arm_to_home fuel scene m =
      let cleared = clear_targets scene in
      stepper_by_command fuel 1 (pos 0) m >>= λ m₁.
      (stepper_by_command fuel 2 (pos 0) m₁ >>= λ m₂. some (cleared, m₂))

  -- `scan_for_pattern_with_rotation_motion`. Two rows make a round; there is one round more if the
  -- number of rows is odd.
  unfoldable pub scan_for_pattern_with_rotation_motion :
      ℕ → Events → Scene D → Machine D → Errors → Option (Hunt D × Errors)
  unfolding sweep_loop arm_to_home field_of
  scan_for_pattern_with_rotation_motion fuel events scene m errors =
      arm_to_home fuel scene m >>= λ home.
      (field_of home.0 home.1 >>= λ field.
      (stepper_by_command fuel 1 field.0.base_steps home.1 >>= λ m₁.
      (sweep_loop fuel ((field.0.rows + 1) / 2) field.0 0 field.0.base_steps (record {
        t_acquired = none;
        hat = (d.lit 0 0, d.lit 0 0);
        events = events;
        scene = field.1;
        machine = m₁;
      })
        >>= go_to_acquired fuel errors)))
