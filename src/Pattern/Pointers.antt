-- ===== src/Pattern/Pointers.antt =====
-- release/build/arm_2d.cpp: the motions to patterns, and the pointers of the stores they work on.
use robot_arm_2d.Double.{Double}
use robot_arm_2d.Motion.{Machine, move_by_command}
use robot_arm_2d.Motor.{parameter}
use robot_arm_2d.Pattern.{
  Focus, no_focus, travel, target_parameter, sensor_of, deliver, deliver_all, await_target,
  offset_of, nearest, or_current, locate_in_cell, move_to_pattern, move_relative_to_pattern,
}
use robot_arm_2d.Prelude.{
  ℕ, ◌≡◌, inl, inr, List, [], ◌∷◌, Option, some, Bytes, codes, length, get_elem?, Bool-cases,
  Option-cases,
}
use robot_arm_2d.Prelude.Results.{Holds, Holds-then, Holds-bind, Holds-get_elem}
use robot_arm_2d.Scene.{Scene}
use robot_arm_2d.Scene.Pointers.{
  InRange, MapInRange-at, IsSound, IsSound-Kept, IsSound-targets, IsSound-set, sensor-InRange, Kept,
  Kept-set,
}
use robot_arm_2d.Scene.Operations.{emit_to_target-IsSound, acquired_target-sensor}
use robot_arm_2d.Target.{Target, acquired_target}

module _ {ℓ} {D : Type ℓ} where
  pub travel-IsSound :
      (key : Bytes) (scene : Scene D) → IsSound scene → IsSound (travel key scene).1
  travel-IsSound key scene h = record {
    storage_made = h.storage_made;
    travel_made = (MapInRange-at (length scene.targets) key scene.travel_map h.travel_made).1;
    reported_made = h.reported_made;
    sensors_made = h.sensors_made;
    sensor_made = h.sensor_made;
  }

  pub target_parameter-IsSound :
      (key : Bytes) (r : ℕ) (t : Target D) (scene : Scene D)
      → IsSound scene
      → InRange (length scene.sensor_array) t.sensor
      → IsSound (target_parameter key r t scene).1
  target_parameter-IsSound key r t scene h p = IsSound-set scene r _ h p

module _ {ℓ} {D : Type ℓ} ⦃d : Double D⦄ where
  -- The stores are sound, and so is the sensor of the target at hand.
  abbrev Sound : Target D × Scene D → Type 0
  Sound (t, scene) = IsSound scene × InRange (length scene.sensor_array) t.sensor

  pub deliver-IsSound :
      (reports : List (Bytes × Bytes)) (scene : Scene D)
      → IsSound scene
      → IsSound (deliver reports scene)
  unfolding deliver
  deliver-IsSound [] scene h = h
  deliver-IsSound ((key, report) ∷ reports) scene h =
      deliver-IsSound reports _ (emit_to_target-IsSound key report scene h)

  pub deliver_all-IsSound :
      (events : List (List (Bytes × Bytes))) (scene : Scene D)
      → IsSound scene
      → IsSound (deliver_all events scene)
  unfolding deliver_all
  deliver_all-IsSound [] scene h = h
  deliver_all-IsSound (reports ∷ events) scene h =
      deliver_all-IsSound events (deliver reports scene) (deliver-IsSound reports scene h)

  await_target-Sound :
      (events : List (List (Bytes × Bytes))) (r : ℕ) (scene : Scene D)
      → IsSound scene
      → Holds Sound (await_target events r scene)
  unfolding await_target
  await_target-Sound [] r scene h = tt
  await_target-Sound (reports ∷ events) r scene h =
      elim (Option-cases (get_elem? (deliver reports scene).targets r)) [
        | inl e ↦ rw (e, await_target) tt
        | inr (t, e) ↦
            rw (e, await_target)
              (elim (Bool-cases (acquired_target t).0) [
                | inr k ↦ rw k (await_target-Sound events r _ h')
                | inl k ↦ rw k (IsSound-set (deliver reports scene) r _ h' (sound t e), sound t e)
              ])
      ]
    where
      h' : IsSound (deliver reports scene)
      h' = deliver-IsSound reports scene h

      sound :
          (t : Target D)
          → get_elem? (deliver reports scene).targets r ≡ some t
          → InRange (length (deliver reports scene).sensor_array) (acquired_target t).1.sensor
      sound t e = rw (acquired_target-sensor t) (sensor-InRange (deliver reports scene) r t h' e)

  pub move_to_pattern-IsSound :
      (fuel : ℕ) (events : List (List (Bytes × Bytes))) (pattern_id : Bytes) (scene : Scene D)
      (m : Machine D)
      → IsSound scene
      → Holds (λ r. IsSound r.0) (move_to_pattern fuel events pattern_id scene m)
  move_to_pattern-IsSound fuel events pattern_id scene m h =
      elim (Option-cases (travel pattern_id scene).0) [
        | inl e ↦
            unfold move_to_pattern in (rw (e, move_to_pattern) (travel-IsSound pattern_id scene h))
        | inr (r, e) ↦
            unfold move_to_pattern in
            (rw (e, move_to_pattern)
              (Holds-bind Sound _ (await_target events r (travel pattern_id scene).1) _
                (await_target-Sound events r _ (travel-IsSound pattern_id scene h))
                (λ seen k.
                  Holds-then _ (sensor_of seen.0 seen.1) _
                    (λ s. Holds-then _ (move_by_command fuel _ _ m) _ (λ m'. k.0)))))
      ]

  pub move_relative_to_pattern-IsSound :
      (fuel : ℕ) (events : List (List (Bytes × Bytes))) (pattern_id : Bytes) (scene : Scene D)
      (m : Machine D)
      → IsSound scene
      → Holds (λ r. IsSound r.0) (move_relative_to_pattern fuel events pattern_id scene m)
  move_relative_to_pattern-IsSound fuel events pattern_id scene m h =
      elim (Option-cases (travel pattern_id scene).0) [
        | inl e ↦
            unfold move_relative_to_pattern in
            (rw (e, move_relative_to_pattern) (travel-IsSound pattern_id scene h))
        | inr (r, e) ↦
            unfold move_relative_to_pattern in
            (rw (e, move_relative_to_pattern)
              (Holds-bind Sound _ (await_target events r (travel pattern_id scene).1) _
                (await_target-Sound events r _ (travel-IsSound pattern_id scene h))
                (λ seen k.
                  let next = target_parameter (codes "travel_next") r seen.0 seen.1 in
                  let moved = travel next.0 next.1 in
                  let offset = target_parameter (codes "travel_offset") r in
                  let sound =
                    travel-IsSound next.0 next.1
                      (target_parameter-IsSound (codes "travel_next") r seen.0 seen.1 k.0 k.1) in
                  Holds-bind (λ t. InRange (length moved.1.sensor_array) t.sensor)
                    (λ o. IsSound {D = D} o.0) (get_elem? moved.1.targets r) _
                    (Holds-get_elem _ moved.1.targets r sound.sensor_made)
                    (λ t p.
                      Holds-then (λ o. IsSound {D = D} o.0) (sensor_of t (offset t moved.1).1) _
                        (λ s.
                          Holds-then (λ o. IsSound {D = D} o.0)
                            (move_by_command fuel
                              (d.add (d.add t.x_offset_total (offset_of (offset t moved.1).0).0)
                                m.current_x)
                              (d.add (d.add t.y_offset_total (offset_of (offset t moved.1).0).1)
                                m.current_y)
                              m)
                            _
                            (λ m'.
                              target_parameter-IsSound (codes "travel_offset") r t moved.1 sound
                                p))))))
      ]

  nearest-Kept :
      (n made : ℕ) (mid_x mid_y : D) (refs : List ℕ) (focus : Focus D) (targets : List (Target D))
      → Kept n made targets
      → Kept n made (nearest mid_x mid_y refs focus targets).1
  unfolding nearest
  nearest-Kept n made mid_x mid_y [] focus targets h = h
  nearest-Kept n made mid_x mid_y (r ∷ refs) focus targets h =
      elim (Option-cases (get_elem? targets r)) [
        | inl e ↦ rw (e, nearest) (nearest-Kept n made mid_x mid_y refs focus targets h)
        | inr (t, e) ↦
            rw (e, nearest)
              (nearest-Kept n made mid_x mid_y refs _ _
                (Kept-set n made r targets t _ e (acquired_target-sensor t) h))
      ]

  pub locate_in_cell-IsSound :
      (current_target : ℕ) (refs : List ℕ) (xy : D × D) (scene : Scene D)
      → IsSound scene
      → Holds (λ o. IsSound o.2) (locate_in_cell current_target refs xy scene)
  unfolding locate_in_cell
  locate_in_cell-IsSound current_target [] xy scene h = h
  locate_in_cell-IsSound current_target (q ∷ refs) xy scene h =
      Holds-then P (get_elem? scene.targets current_target) _ (λ current.
        Holds-then P (sensor_of current scene) _ (λ s.
          (let mid_x = d.atof (parameter (codes "fov_w") s.sink).0 in
            let mid_y = d.atof (parameter (codes "fov_h") s.sink).0 in
            let found = nearest mid_x mid_y (q ∷ refs) no_focus scene.targets in
            let r = or_current current_target found.0.new_focus in
            let sound = IsSound-targets scene found.1 h (
              nearest-Kept _ _ mid_x mid_y (q ∷ refs) no_focus scene.targets
                (IsSound-Kept scene h)) in
            Holds-bind (λ t. InRange (length scene.sensor_array) t.sensor) P (get_elem? found.1 r) _
              (Holds-get_elem _ found.1 r sound.sensor_made)
              (λ t p.
                (let next =
                    target_parameter (codes "travel_next") r t
                      (record scene { targets = found.1 }) in
                  let moved = travel next.0 next.1 in
                  let sound' = travel-IsSound next.0 next.1 (
                    target_parameter-IsSound (codes "travel_next") r t
                      (record scene { targets = found.1 }) sound p) in
                  Holds-bind (λ t'. InRange (length moved.1.sensor_array) t'.sensor) P
                    (get_elem? moved.1.targets r) _
                    (Holds-get_elem _ moved.1.targets r sound'.sensor_made)
                    (λ t' p'.
                      target_parameter-IsSound (codes "travel_offset") r t' moved.1 sound' p'))))))
    where
      P : Option ℕ × (D × D) × Scene D → Type 0
      P o = IsSound o.2
