-- ===== src/Scene/Operations.antt =====
-- release/build/arm_2d.cpp: the operations on the stores of targets, and the pointers.
use robot_arm_2d.Double.{Double}
use robot_arm_2d.Prelude.Results.{Holds, Holds-bind}
use robot_arm_2d.Prelude.{
  sym, subst, ℕ, ◌≡◌, refl, inl, inr, List, [], ◌∷◌, Option, none, some, Bytes, length, get_elem?,
  Bool-cases, Option-cases,
}
use robot_arm_2d.Scene.{
  Scene, clear_among, clear_targets, test_target, emit_to_target, best_among,
  point_in_time_best_match,
}
use robot_arm_2d.StdMap.{at}
use robot_arm_2d.Scene.Round.{lowered, is_taken}
use robot_arm_2d.Scene.Loop.{
  best_loop, best_among-loop, best_loop-missing, best_loop-taken, best_loop-passed,
}
use robot_arm_2d.Target.{
  Target, acquired_target, set_target_not_acquired, measure, read_report, use_report, data_test,
}
use robot_arm_2d.Target.Report.{has_gap}
use robot_arm_2d.Scene.Pointers.{
  MapInRange-at, IsSound, Kept, Kept-set, IsSound-Kept, IsSound-targets,
}

module _ {ℓ} {D : Type ℓ} where
  clear_among-Kept :
      (n made : ℕ) (refs : List ℕ) (targets : List (Target D))
      → Kept n made targets
      → Kept n made (clear_among refs targets)
  unfolding clear_among set_target_not_acquired
  clear_among-Kept n made [] targets h = h
  clear_among-Kept n made (r ∷ refs) targets h = elim (Option-cases (get_elem? targets r)) [
    | inl e ↦ rw (e, clear_among) (clear_among-Kept n made refs targets h)
    | inr (t, e) ↦
        rw (e, clear_among)
          (clear_among-Kept n made refs _ (Kept-set n made r targets t _ e refl h))
  ]

  pub clear_targets-IsSound : (scene : Scene D) → IsSound scene → IsSound (clear_targets scene)
  unfolding clear_targets
  clear_targets-IsSound scene h =
      IsSound-targets scene _ h
        (clear_among-Kept _ _ scene.storage scene.targets (IsSound-Kept scene h))

module _ {ℓ} {D : Type ℓ} ⦃d : Double D⦄ where
  data_test-sensor : (data_str : Bytes) (t : Target D) → (data_test data_str t).sensor ≡ t.sensor
  unfolding data_test use_report read_report measure
  data_test-sensor data_str t = elim (Bool-cases (has_gap data_str)) [
    | inl e ↦ rw e refl
    | inr e ↦ rw e refl
  ]

  pub acquired_target-sensor : (t : Target D) → (acquired_target t).1.sensor ≡ t.sensor
  unfolding acquired_target
  acquired_target-sensor t = elim (Bool-cases t.target_present) [
    | inl e ↦ rw e refl
    | inr e ↦ rw e refl
  ]

  test_target-Kept :
      (n made : ℕ) (target : Option ℕ) (data_str : Bytes) (targets : List (Target D))
      → Kept n made targets
      → Kept n made (test_target target data_str targets)
  unfolding test_target
  test_target-Kept n made none data_str targets h = h
  test_target-Kept n made (some r) data_str targets h = elim (Option-cases (get_elem? targets r)) [
    | inl e ↦ rw (e, test_target) h
    | inr (t, e) ↦
        rw (e, test_target) (Kept-set n made r targets t _ e (data_test-sensor data_str t) h)
  ]

  pub emit_to_target-IsSound :
      (key report : Bytes) (scene : Scene D)
      → IsSound scene
      → IsSound (emit_to_target key report scene)
  unfolding emit_to_target
  emit_to_target-IsSound key report scene h =
      IsSound-targets (record scene { target_map = (at key none scene.target_map).1 }) _
        (record {
          storage_made = h.storage_made;
          travel_made = h.travel_made;
          reported_made =
              (MapInRange-at (length scene.targets) key scene.target_map h.reported_made).1;
          sensors_made = h.sensors_made;
          sensor_made = h.sensor_made;
        })
        (test_target-Kept _ _ (at key none scene.target_map).0 report scene.targets
          (IsSound-Kept scene h))

  pub best_loop-Kept :
      (n made : ℕ) (refs : List ℕ) (percent : D) (best : Option ℕ) (targets : List (Target D))
      → Kept n made targets
      → Kept n made (best_loop refs percent best targets).2
  best_loop-Kept n made [] percent best targets h = unfold best_loop in h
  best_loop-Kept n made (r ∷ refs) percent best targets h =
      elim (Option-cases (get_elem? targets r)) [
        | inl e ↦
            rw (best_loop-missing r refs percent best targets e)
              (best_loop-Kept n made refs percent best targets h)
        | inr (t, e) ↦ elim (Bool-cases (is_taken percent t)) [
          | inl k ↦ rw (best_loop-taken r refs percent best targets t e k) (
              best_loop-Kept n made refs t.fov_match (some r) _
                (Kept-set n made r targets t (lowered t) e refl h))
          | inr k ↦ rw (best_loop-passed r refs percent best targets t e k) (
              best_loop-Kept n made refs percent best _
                (Kept-set n made r targets t (lowered t) e refl h))
        ]
      ]

  pub point_in_time_best_match-IsSound :
      (x_hat y_hat : D) (scene : Scene D)
      → IsSound scene
      → Holds (λ o. IsSound o.2) (point_in_time_best_match x_hat y_hat scene)
  unfolding point_in_time_best_match
  point_in_time_best_match-IsSound x_hat y_hat scene h =
      let loop = best_loop scene.storage (d.lit 0 0) none scene.targets in
      Holds-bind (λ o. o ≡ loop) (λ o. IsSound o.2)
        (best_among scene.storage (d.lit 0 0) none scene.targets) _
        (best_among-loop scene.storage (d.lit 0 0) none scene.targets)
        (λ o e. IsSound-targets scene o.2 h (
          subst (λ p. Kept (length scene.sensor_array) (length scene.targets) p.2) (sym e)
            (best_loop-Kept _ _ scene.storage (d.lit 0 0) none scene.targets
              (IsSound-Kept scene h))))
