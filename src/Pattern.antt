-- ===== src/Pattern.antt =====
-- release/build/arm_2d.cpp: the motions that follow targets: locate_in_cell, to_target,
-- move_to_pattern and move_relative_to_pattern.
pub mod Laws
pub mod Pointers
pub mod Reach
mod Tests
mod Start
use robot_arm_2d.Double.{Double}
use robot_arm_2d.Motion.{Machine, move_by_command}
use robot_arm_2d.Motor.{parameter}
use robot_arm_2d.Prelude.{
  ℕ, zero, suc, Bool, true, false, ◌&&◌, List, [], ◌∷◌, Option, none, some, ◌>>=◌, Bytes, codes,
  get_elem?, set, if◌then◌else◌,
}
use robot_arm_2d.Scene.{
  Scene, at_goal, goal_setup, prepare_first_tier_targets, schedule_relative_targets, emit_to_target,
}
use robot_arm_2d.Sensor.{SensorController}
use robot_arm_2d.StdMap
use robot_arm_2d.Target.{Target, acquired_target, fov_center_offset}
use robot_arm_2d.Text.Find.{before, behind}

-- What the search of `locate_in_cell` keeps: the distance, the target, and the two differences.
pub record Focus {ℓ} (D : Type ℓ) : Type ℓ where
  pub distance : D
  pub new_focus : Option ℕ
  pub save_delta_x : D
  pub save_delta_y : D

-- The target that was found, or the current one.
abbrev pub or_current : ℕ → Option ℕ → ℕ
or_current current_target none = current_target
or_current current_target (some r) = r

-- The target that the round begins with: the goal, if there is none yet.
abbrev pub or_goal : ℕ → Option ℕ → ℕ
or_goal goal none = goal
or_goal goal (some r) = r

module _ {ℓ} {D : Type ℓ} where
  -- `sg_travel_map[key]`: a key that is unknown stays in the map, with NULL.
  abbrev pub travel : Bytes → Scene D → Option ℕ × Scene D
  travel key scene =
      let found = StdMap.at key none scene.travel_map in
      (found.0, record scene { travel_map = found.1 })

  -- `t->parameter(key)`, which leaves an empty value behind where the key is missing.
  abbrev pub target_parameter : Bytes → ℕ → Target D → Scene D → Bytes × Scene D
  target_parameter key r t scene =
      let found = parameter key t.sink in
      (found.0, record scene { targets = set scene.targets r (record t { sink = found.1 }) })

  -- The sensor of a target; `none` for NULL.
  abbrev pub sensor_of : Target D → Scene D → Option (SensorController D)
  sensor_of t scene = t.sensor >>= get_elem? scene.sensor_array

module _ {ℓ} {D : Type ℓ} ⦃d : Double D⦄ where
  -- Reports that the other threads put into the targets.
  unfoldable pub deliver : List (Bytes × Bytes) → Scene D → Scene D
  unfolding emit_to_target
  deliver [] scene = scene
  deliver ((key, report) ∷ reports) scene = deliver reports (emit_to_target key report scene)

  -- The reports that come in while nothing looks at the targets.
  unfoldable pub deliver_all : List (List (Bytes × Bytes)) → Scene D → Scene D
  unfolding deliver
  deliver_all [] scene = scene
  deliver_all (reports ∷ events) scene = deliver_all events (deliver reports scene)

  -- `while ( !( t->acquired_target() ) ) { … }`: `events` are the reports before each look at the flag.
  -- `none` means that the flag has not come up by the end of the events.
  unfoldable pub await_target :
      List (List (Bytes × Bytes)) → ℕ → Scene D → Option (Target D × Scene D)
  unfolding deliver acquired_target
  await_target [] r scene = none
  await_target (reports ∷ events) r scene =
      let scene' = deliver reports scene in
      let rest = await_target events r scene' in
      elim (get_elem? scene'.targets r) [
        | none ↦ none
        | some t ↦
            let acquired = acquired_target t in
            if acquired.0
            then some (acquired.1, record scene' { targets = set scene'.targets r acquired.1 })
            else rest
      ]

  -- A pair of numbers with a comma, as `travel_offset` holds it.
  abbrev pub offset_of : Bytes → D × D
  offset_of next_target_offset =
      (d.atof (before b',' next_target_offset), d.atof (behind b',' next_target_offset))

  -- `move_to_pattern`. An unknown pattern moves nothing.
  unfoldable pub move_to_pattern :
      ℕ → List (List (Bytes × Bytes)) → Bytes → Scene D → Machine D → Option (Scene D × Machine D)
  unfolding await_target fov_center_offset
  move_to_pattern fuel events pattern_id scene m =
      let found = travel pattern_id scene in
      elim (found.0) [
        | none ↦ some (found.1, m)
        | some r ↦ await_target events r found.1 >>= λ seen.
            (sensor_of seen.0 seen.1 >>= λ s.
            (let xy = fov_center_offset s seen.0.x_offset_total seen.0.y_offset_total in
              move_by_command fuel (d.add xy.0 m.current_x) (d.add xy.1 m.current_y) m >>= λ m'.
              some (seen.1, m')))
      ]

  -- `move_relative_to_pattern`: what `fov_center_offset` gives is written over, but the sensor must be
  -- there.
  unfoldable pub move_relative_to_pattern :
      ℕ → List (List (Bytes × Bytes)) → Bytes → Scene D → Machine D → Option (Scene D × Machine D)
  unfolding await_target
  move_relative_to_pattern fuel events pattern_id scene m =
      let found = travel pattern_id scene in
      elim (found.0) [
        | none ↦ some (found.1, m)
        | some r ↦ await_target events r found.1 >>= λ seen.
            (let next = target_parameter (codes "travel_next") r seen.0 seen.1 in
              let moved = travel next.0 next.1 in
              get_elem? moved.1.targets r >>= λ t.
              (let offset = target_parameter (codes "travel_offset") r t moved.1 in
                let xy = offset_of offset.0 in
                sensor_of t offset.1 >>= λ s.
                (move_by_command fuel (d.add (d.add t.x_offset_total xy.0) m.current_x)
                    (d.add (d.add t.y_offset_total xy.1) m.current_y) m
                  >>= λ m'. some (offset.1, m'))))
      ]

  -- The search of `locate_in_cell` over the list of targets: the acquired target nearest to the middle.
  unfoldable pub nearest : D → D → List ℕ → Focus D → List (Target D) → Focus D × List (Target D)
  unfolding acquired_target
  nearest mid_x mid_y [] focus targets = (focus, targets)
  nearest mid_x mid_y (r ∷ refs) focus targets = elim (get_elem? targets r) [
    | none ↦ nearest mid_x mid_y refs focus targets
    | some t ↦
        let acquired = acquired_target t in
        let delta_x = d.sub mid_x t.fov_x in
        let delta_y = d.sub mid_y t.fov_y in
        let dd = d.sqrt (d.add (d.mul delta_x delta_x) (d.mul delta_y delta_y)) in
        let nearer : Focus D = record {
          distance = dd;
          new_focus = some r;
          save_delta_x = delta_x;
          save_delta_y = delta_y;
        } in
        nearest mid_x mid_y refs (if acquired.0 && d.lt dd focus.distance then nearer else focus)
          (set targets r acquired.1)
  ]

  -- The start of the search.
  abbrev pub no_focus : Focus D
  no_focus = record {
    distance = d.lit 10_000 0;
    new_focus = none;
    save_delta_x = d.lit 0 0;
    save_delta_y = d.lit 0 0;
  }

  -- `locate_in_cell`: the target to go to and the place, which stays as it is if the list is empty.
  -- `none` stands for a target without a sensor. The start has read the sensor's parameters, so that
  -- the reads here leave them as they are.
  unfoldable pub locate_in_cell :
      ℕ → List ℕ → D × D → Scene D → Option (Option ℕ × (D × D) × Scene D)
  unfolding nearest
  locate_in_cell current_target [] xy scene = some (none, xy, scene)
  locate_in_cell current_target (q ∷ refs) xy scene =
      get_elem? scene.targets current_target >>= λ current.
      (sensor_of current scene >>= λ s.
      (let mid_x = d.atof (parameter (codes "fov_w") s.sink).0 in
        let mid_y = d.atof (parameter (codes "fov_h") s.sink).0 in
        let found = nearest mid_x mid_y (q ∷ refs) no_focus scene.targets in
        let r = or_current current_target found.0.new_focus in
        get_elem? found.1 r >>= λ t.
        (let x_hat = d.mul (d.add t.fov_x found.0.save_delta_x) s.scale_x in
          let y_hat = d.mul (d.add t.fov_y found.0.save_delta_y) s.scale_y in
          let next =
            target_parameter (codes "travel_next") r t (record scene { targets = found.1 }) in
          let moved = travel next.0 next.1 in
          get_elem? moved.1.targets r >>= λ t'.
          (let offset = target_parameter (codes "travel_offset") r t' moved.1 in
            let by = offset_of offset.0 in
            some (some r, (d.add x_hat by.0, d.add y_hat by.1), offset.1)))))

  -- `while ( !(at_goal(goal,current_target)) ) { … }` of `to_target`. The inner loop is left after one
  -- round, since `target_accuracy` is true. `none` means that the fuel ran out, too.
  unfoldable pub to_loop :
      ℕ → ℕ → Option ℕ → List ℕ → D × D → Scene D → Machine D → Option (Bool × Scene D × Machine D)
  to_loop zero goal current_target t_set xy scene m = none
  to_loop (suc fuel) goal current_target t_set xy scene m =
      let next = locate_in_cell (or_goal goal current_target) t_set xy scene >>= λ found.
      (move_by_command fuel found.1.0 found.1.1 m >>= λ m'.
      to_loop fuel goal found.0 (schedule_relative_targets found.2 found.0 t_set) found.1 found.2
        m') in
      if at_goal (some goal) current_target then some (true, scene, m) else next

  -- `to_target`; `allignment`, `engagement` and `handoff` are true.
  unfoldable pub to_target : ℕ → Scene D → Machine D → Option (Bool × Scene D × Machine D)
  unfolding goal_setup
  to_target fuel scene m = goal_setup scene >>= λ found. elim found [
    | none ↦ some (true, scene, m)
    | some goal ↦
        to_loop fuel goal none (prepare_first_tier_targets scene []) (d.lit 0 0, d.lit 0 0) scene m
  ]
