-- ===== src/Scene.antt =====
-- release/build/arm_2d.cpp: the stores of targets and sensors and what finds, updates and selects
-- targets in them.
pub mod Round
pub mod Loop
pub mod Match
pub mod Pointers
pub mod Operations
pub mod Cleared
mod Tests
use robot_arm_2d.Config.{Params}
use robot_arm_2d.Double.{Double}
use robot_arm_2d.Prelude.{
  ℕ, Bool, true, false, ◌&&◌, List, [], ◌∷◌, Option, none, some, ◌>>=◌, Bytes, codes, get_elem?,
  set, ltb, ◌==◌, if◌then◌else◌, equal,
}
use robot_arm_2d.Sensor.{SensorController}
use robot_arm_2d.StdMap
use robot_arm_2d.StdMap.{StdMap}
use robot_arm_2d.Target.{Target, acquired_target, set_target_not_acquired, data_test}

-- A pointer to a target is the number of the target among those that were made; NULL is `none`.
-- The storage may hold one target at several places.
pub record Scene {ℓ} (D : Type ℓ) : Type ℓ where
  pub server_parameters : Params
  pub sensor_array : List (SensorController D)
  pub sensor_map : StdMap (Option ℕ)
  -- the targets that were made
  pub targets : List (Target D)
  -- sg_target_storage
  pub storage : List ℕ
  pub travel_map : StdMap (Option ℕ)
  pub target_map : StdMap (Option ℕ)

-- `at_goal(goal,current_target)`: in both branches the answer is false.
unfoldable pub at_goal : Option ℕ → Option ℕ → Bool
at_goal goal none = false
at_goal goal (some current_target) = false

-- `t_set->insert(t)`: the set is ordered by address. The model takes a target that was made earlier
-- to stand lower.
unfoldable pub insert : ℕ → List ℕ → List ℕ
insert r [] = r ∷ []
insert r (q ∷ refs) =
    let rest = insert r refs in
    if r == q then q ∷ refs else if ltb r q then r ∷ q ∷ refs else q ∷ rest

module _ {ℓ} {D : Type ℓ} where
  -- `find_target` over a list of pointers: the first target with the id, or NULL. `none` stands for a
  -- pointer that cannot be followed.
  unfoldable pub find_among : Bytes → List (Target D) → List ℕ → Option (Option ℕ)
  find_among id_match targets [] = some none
  find_among id_match targets (r ∷ refs) =
      let rest = find_among id_match targets refs in
      elim (get_elem? targets r) [
        | none ↦ none
        | some t ↦ if equal t.id id_match then some (some r) else rest
      ]

  unfoldable pub find_target : Bytes → Scene D → Option (Option ℕ)
  unfolding find_among
  find_target id_match scene = find_among id_match scene.targets scene.storage

  -- `goal_setup`
  unfoldable pub goal_setup : Scene D → Option (Option ℕ)
  unfolding find_target
  goal_setup scene = find_target (codes "goal") scene

  -- `clear_targets` over a list of pointers.
  unfoldable pub clear_among : List ℕ → List (Target D) → List (Target D)
  unfolding set_target_not_acquired
  clear_among [] targets = targets
  clear_among (r ∷ refs) targets = clear_among refs (elim (get_elem? targets r) [
    | none ↦ targets
    | some t ↦ set targets r (set_target_not_acquired t)
  ])

  unfoldable pub clear_targets : Scene D → Scene D
  unfolding clear_among
  clear_targets scene = record scene { targets = clear_among scene.storage scene.targets }

  -- The loops that put the targets of the storage for which a test holds into a set.
  unfoldable pub insert_where : (Target D → Bool) → List (Target D) → List ℕ → List ℕ → List ℕ
  unfolding insert
  insert_where test targets [] t_set = t_set
  insert_where test targets (r ∷ refs) t_set =
      insert_where test targets refs (elim (get_elem? targets r) [
        | none ↦ t_set
        | some t ↦ if test t then insert r t_set else t_set
      ])

  -- `perpare_first_tier_targets`
  unfoldable pub prepare_first_tier_targets : Scene D → List ℕ → List ℕ
  unfolding insert_where
  prepare_first_tier_targets scene t_set =
      insert_where (λ t. t.level == 1) scene.targets scene.storage t_set

  -- `init_target_list`
  unfoldable pub init_target_list : Scene D → Option (List ℕ) → Bool × Option (List ℕ)
  unfolding prepare_first_tier_targets
  init_target_list scene none = (false, none)
  init_target_list scene (some t_set) = (true, some (prepare_first_tier_targets scene t_set))

  -- `schedule_relative_targets`
  unfoldable pub schedule_relative_targets : Scene D → Option ℕ → List ℕ → List ℕ
  unfolding insert_where
  schedule_relative_targets scene none t_set = t_set
  schedule_relative_targets scene (some target) t_set =
      insert_where (λ t. t.target_present) scene.targets scene.storage t_set

module _ {ℓ} {D : Type ℓ} ⦃d : Double D⦄ where
  -- `target->data_test(data)` where the pointer is not NULL.
  unfoldable pub test_target : Option ℕ → Bytes → List (Target D) → List (Target D)
  test_target none data_str targets = targets
  test_target (some r) data_str targets = elim (get_elem? targets r) [
    | none ↦ targets
    | some t ↦ set targets r (data_test data_str t)
  ]

  -- `emit_to_target`: a key that is unknown stays in the map, with NULL.
  unfoldable pub emit_to_target : Bytes → Bytes → Scene D → Scene D
  unfolding test_target
  emit_to_target key data_str scene =
      let found = StdMap.at key none scene.target_map in
      record scene { target_map = found.1; targets = test_target found.0 data_str scene.targets }

  -- The loop of `point_in_time_best_match`: the best target so far, its match, and the targets. `none`
  -- stands for a pointer that cannot be followed.
  unfoldable pub best_among :
      List ℕ → D → Option ℕ → List (Target D) → Option (Option ℕ × D × List (Target D))
  unfolding acquired_target
  best_among [] percent_match best targets = some (best, percent_match, targets)
  best_among (r ∷ refs) percent_match best targets = elim (get_elem? targets r) [
    | none ↦ none
    | some t ↦
        let acquired = acquired_target t in
        let targets' = set targets r acquired.1 in
        if acquired.0 && d.lt percent_match t.fov_match
        then best_among refs t.fov_match (some r) targets'
        else best_among refs percent_match best targets'
  ]

  -- `x_hat` and `y_hat` at the best target; they stay as they were if there is none.
  unfoldable pub best_place : Option ℕ → List (Target D) → D → D → D × D
  best_place none targets x_hat y_hat = (x_hat, y_hat)
  best_place (some r) targets x_hat y_hat = elim (get_elem? targets r) [
    | none ↦ (x_hat, y_hat)
    | some t ↦ (t.fov_x, t.fov_y)
  ]

  unfoldable pub point_in_time_best_match : D → D → Scene D → Option (Option ℕ × (D × D) × Scene D)
  unfolding best_among best_place
  point_in_time_best_match x_hat y_hat scene =
      best_among scene.storage (d.lit 0 0) none scene.targets >>= λ found.
      (let scene' = record scene { targets = found.2 } in
        some (found.0, best_place found.0 scene'.targets x_hat y_hat, scene'))
