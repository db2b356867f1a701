-- ===== src/Scan/Sound.antt =====
-- release/build/arm_2d.cpp: the scans, and the pointers of the stores.
pub mod Steps
use robot_arm_2d.Aim.{Errors, target_to_arm_quiet}
use robot_arm_2d.Arm.{rotation_to_cartesian}
use robot_arm_2d.Double.{Double}
use robot_arm_2d.Motion.{
  Machine, check_motion_status, step_n_motion, stepper_by_command, move_by_command,
}
use robot_arm_2d.Pattern.{travel, target_parameter, sensor_of, deliver}
use robot_arm_2d.Pattern.Pointers.{deliver-IsSound, travel-IsSound, target_parameter-IsSound}
use robot_arm_2d.Prelude.{
  ℕ, zero, suc, ◌+◌, ◌/◌, Bool, true, false, [], ◌∷◌, none, some, Bytes, codes, length, get_elem?,
  if◌then◌else◌,
}
use robot_arm_2d.Prelude.Int.{ℤ, pos, pos_part, ◌-ℤ◌, ◌+ℤ◌, negate, ltb_ℤ}
use robot_arm_2d.Prelude.Results.{
  Holds, Holds-bind, Holds-then, Holds-if, Holds-cases, Holds-get_elem,
}
use robot_arm_2d.Scan.{
  Events, Hunt, half_turn, edge_count, act, acquire_loop, acquire, go_to_max_edge_test,
  directed_loop, go_to_match, rotation_of, scan_for_pattern_with_directed_motion,
}
use robot_arm_2d.Scan.Sweep.{
  Field, stepper_by_commands_acquire, sweep_down, sweep_up, go_to_row, sweep_loop, server_parameter,
  field_of, quotient, go_to_acquired, arm_to_home, scan_for_pattern_with_rotation_motion,
}
use robot_arm_2d.Scene.{Scene, point_in_time_best_match}
use robot_arm_2d.Scene.Operations.{clear_targets-IsSound, point_in_time_best_match-IsSound}
use robot_arm_2d.Scene.Pointers.{InRange, IsSound}
use robot_arm_2d.Scan.Sound.Steps.{IsSoundHunt, sweep_loop-IsSound}

module _ {ℓ} {D : Type ℓ} ⦃d : Double D⦄ where
  pub server_parameter-IsSound :
      (key : Bytes) (scene : Scene D) → IsSound scene → IsSound (server_parameter key scene).1
  server_parameter-IsSound key scene h = record {
    storage_made = h.storage_made;
    travel_made = h.travel_made;
    reported_made = h.reported_made;
    sensors_made = h.sensors_made;
    sensor_made = h.sensor_made;
  }

  target_to_arm_quiet-IsSound :
      (pattern_id : Bytes) (xy : D × D) (scene : Scene D) (m : Machine D) (errors : Errors)
      → IsSound scene
      → Holds (λ o. IsSound o.2) (target_to_arm_quiet pattern_id xy scene m errors)
  target_to_arm_quiet-IsSound pattern_id xy scene m errors h =
      unfold target_to_arm_quiet in
      (let P : (D × D) × Errors × Scene D → Type 0 = λ o. IsSound o.2 in
        let found = travel pattern_id scene in
        let sound = travel-IsSound pattern_id scene h in
        Holds-cases P found.0 _ _ sound (λ r.
          Holds-then P (get_elem? found.1.targets r) _
            (λ t. Holds-then P (sensor_of t found.1) _ (λ s. sound))))

  pub arm_to_home-IsSound :
      (fuel : ℕ) (scene : Scene D) (m : Machine D)
      → IsSound scene
      → Holds (λ o. IsSound o.0) (arm_to_home fuel scene m)
  arm_to_home-IsSound fuel scene m h =
      unfold arm_to_home in
      (let P : Scene D × Machine D → Type 0 = λ o. IsSound o.0 in
        Holds-then P (stepper_by_command fuel 1 (pos 0) m) _ (λ m₁.
          Holds-then P (stepper_by_command fuel 2 (pos 0) m₁) _
            (λ m₂. clear_targets-IsSound scene h)))

  go_to_acquired-IsSound :
      (fuel : ℕ) (errors : Errors) (hunt : Hunt D)
      → IsSoundHunt hunt
      → Holds (λ o. IsSound o.0.scene) (go_to_acquired fuel errors hunt)
  go_to_acquired-IsSound fuel errors hunt h =
      unfold go_to_acquired in
      (let P : Hunt D × Errors → Type 0 = λ o. IsSound o.0.scene in
        let elem =
          Holds-get_elem (λ t. InRange (length hunt.scene.sensor_array) t.sensor)
            hunt.scene.targets in
        Holds-then P (rotation_of 0 hunt.machine) _ (λ r₁.
          Holds-then P (rotation_of 1 r₁.1) _ (λ r₂.
            Holds-then P (move_by_command fuel _ _ r₂.1) _ (λ m.
              Holds-then P hunt.t_acquired _ (λ r.
                Holds-bind (λ t. InRange (length hunt.scene.sensor_array) t.sensor) P
                  (get_elem? hunt.scene.targets r) _ (elem r h.sensor_made)
                  (λ t p.
                    (let id = target_parameter (codes "id") r t hunt.scene in
                      let xy = rotation_to_cartesian r₂.1.size (d.neg r₁.0) (d.neg r₂.0) r₂.1.arm in
                      let sound = target_parameter-IsSound (codes "id") r t hunt.scene h p in
                      Holds-bind (λ o. IsSound o.2) P (target_to_arm_quiet id.0 xy id.1 m errors) _
                        (target_to_arm_quiet-IsSound id.0 xy id.1 m errors sound)
                        (λ aimed k.
                          Holds-then P (move_by_command fuel aimed.0.0 aimed.0.1 m) _
                            (λ m'. k)))))))))

  field_of-IsSound :
      (scene : Scene D) (m : Machine D)
      → IsSound scene
      → Holds (λ o. IsSound o.1) (field_of scene m)
  field_of-IsSound scene m h =
      unfold field_of in
      (let P : Field D × Scene D → Type 0 = λ o. IsSound o.1 in
        let range = server_parameter (codes "FIELD_RANGE_FACTOR") scene in
        let arc = server_parameter (codes "FIELD_ARC_PARTITIONS") range.1 in
        let base_steps = d.to_int (d.div (d.of_int (half_turn m)) (d.atof range.0)) in
        Holds-then P (quotient base_steps (d.to_int (d.atof arc.0))) _ (λ delta.
          server_parameter-IsSound (codes "FIELD_ARC_PARTITIONS") range.1
            (server_parameter-IsSound (codes "FIELD_RANGE_FACTOR") scene h)))

  pub scan_rotation-IsSound :
      (fuel : ℕ) (events : Events) (scene : Scene D) (m : Machine D) (errors : Errors)
      → IsSound scene
      → Holds
          (λ o. IsSound o.0.scene)
          (scan_for_pattern_with_rotation_motion fuel events scene m errors)
  scan_rotation-IsSound fuel events scene m errors h =
      unfold scan_for_pattern_with_rotation_motion in
      (let P : Hunt D × Errors → Type 0 = λ o. IsSound o.0.scene in
        Holds-bind (λ o. IsSound o.0) P (arm_to_home fuel scene m) _
          (arm_to_home-IsSound fuel scene m h)
          (λ home k.
            Holds-bind (λ o. IsSound o.1) P (field_of home.0 home.1) _
              (field_of-IsSound home.0 home.1 k)
              (λ field k'.
                Holds-then P (stepper_by_command fuel 1 field.0.base_steps home.1) _ (λ m₁.
                  (let begun : Hunt D = record {
                    t_acquired = none;
                    hat = (d.lit 0 0, d.lit 0 0);
                    events = events;
                    scene = field.1;
                    machine = m₁;
                  } in
                    let rounds = (field.0.rows + 1) / 2 in
                    Holds-bind IsSoundHunt P
                      (sweep_loop fuel rounds field.0 0 field.0.base_steps begun)
                      (go_to_acquired fuel errors)
                      (sweep_loop-IsSound fuel rounds field.0 0 field.0.base_steps begun k')
                      (go_to_acquired-IsSound fuel errors))))))
