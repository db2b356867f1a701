-- ===== src/Startup/Pointers.antt =====
-- release/build/arm_2d.cpp: init_sensor_descriptions and the pointers of the stores it fills.
use robot_arm_2d.Config.{Params}
use robot_arm_2d.Double.{Double}
use robot_arm_2d.Motor.{parameter, add_parameter}
use robot_arm_2d.Prelude.{
  leb, ℕ, zero, suc, ◌+◌, ◌-◌, ◌<◌, ◌≡◌, refl, inl, inr, List, [], ◌∷◌, ◌++◌, Option, none, some,
  ◌>>=◌, arith, Bytes, codes, All-append, All-map, length, length-append, length-set, get_elem?,
  set, drop, replicate, Bool-cases, Option-cases, if◌then◌else◌,
}
use robot_arm_2d.Prelude.Results.{Holds-if, Holds, Holds-then, Holds-bind}
use robot_arm_2d.Scene.{Scene}
use robot_arm_2d.Scene.Pointers.{
  InRange, MapInRange, MapInRange-at, MapInRange-put, IsSound, Kept-set, IsSound-Kept,
  IsSound-targets,
}
use robot_arm_2d.Sensor.{SensorController, describe_sensor, new_sensor}
use robot_arm_2d.Startup.{
  max_sensor_count, index_of, check_vars, plain_key, store_target, describe_sensors, enter_target,
  define_target, no_stores, extend_target, describe_targets, can_start, init_sensor_descriptions,
}
use robot_arm_2d.Startup.Laws.{store_target_lem}
use robot_arm_2d.StdMap
use robot_arm_2d.StdMap.{StdMap, put}
use robot_arm_2d.Target.{Target, new_target}
use robot_arm_2d.Target.Specialize.{describe_target}
use robot_arm_2d.Text.Decimal.{atoi}
use robot_arm_2d.Text.Subst.{starts_with}
use robot_arm_2d.Text.Unsigned.{to_unsigned}

InRange-wider : (n k : ℕ) (p : Option ℕ) → InRange n p → InRange (n + k) p
InRange-wider n k none h = tt
InRange-wider n k (some r) h = omega arith

get_elem-length {ℓ} :
    {A : Type ℓ} (xs : List A) (i : ℕ) (a : A) → get_elem? xs i ≡ some a → i < length xs
get_elem-length [] i a e = absurd (cc)
get_elem-length (x ∷ xs) zero a e = omega arith
get_elem-length (x ∷ xs) (suc i) a e = omega (arith, get_elem-length xs i a e)

module _ {ℓ} {D : Type ℓ} where
  -- One more target at the end, with a sensor that is there.
  grown :
      (scene : Scene D) (t : Target D) → length (scene.targets ++ t ∷ []) ≡ length scene.targets + 1
  grown scene t = length-append scene.targets (t ∷ [])

  MapInRange-grown :
      (scene : Scene D) (t : Target D) (m : StdMap (Option ℕ)) (key : Bytes)
      → MapInRange (length scene.targets) m
      → MapInRange (length (scene.targets ++ t ∷ [])) (put key (some (length scene.targets)) m)
  MapInRange-grown scene t m key h =
      MapInRange-put (length (scene.targets ++ t ∷ [])) key (some (length scene.targets)) m
        (omega (arith, grown scene t))
        (All-map m
          (λ entry p. rw (grown scene t) (InRange-wider (length scene.targets) 1 entry.1 p)) h)

  IsSound-entered :
      (index : ℕ) (t : Target D) (scene : Scene D) (sensors : StdMap (Option ℕ))
      (name label : Bytes)
      → IsSound scene
      → InRange (length scene.sensor_array) t.sensor
      → MapInRange (length scene.sensor_array) sensors
      → IsSound (record scene {
        sensor_map = sensors;
        targets = scene.targets ++ t ∷ [];
        storage = store_target index (length scene.targets) scene.storage;
        travel_map = put name (some (length scene.targets)) scene.travel_map;
        target_map = put label (some (length scene.targets)) scene.target_map;
      })
  IsSound-entered index t scene sensors name label h own rest = record {
    storage_made =
        (store_target_lem (λ r. r < length (scene.targets ++ t ∷ [])) index (length scene.targets)
          scene.storage (All-map scene.storage (λ r p. omega (arith, grown scene t)) h.storage_made)
          (omega (arith, grown scene t))).1;
    travel_made = MapInRange-grown scene t scene.travel_map name h.travel_made;
    reported_made = MapInRange-grown scene t scene.target_map label h.reported_made;
    sensors_made = rest;
    sensor_made = All-append _ scene.targets _ h.sensor_made (own, tt);
  }

module _ {ℓ} {D : Type ℓ} ⦃d : Double D⦄ where
  extend_target-IsSound :
      (canister elbow key line : Bytes) (index : ℕ) (scene : Scene D)
      → IsSound scene
      → Holds IsSound (extend_target canister elbow key line index scene)
  unfolding extend_target
  extend_target-IsSound canister elbow key line index scene h =
      Holds-then IsSound (check_vars canister elbow line) _ (λ value.
        Holds-then IsSound (get_elem? scene.storage (index - 1)) _ (λ r. extended value r))
    where
      extended :
          (value : Bytes) (r : ℕ)
          → Holds IsSound (
              get_elem? scene.targets r >>= λ t. some (record scene {
                targets =
                    set scene.targets r
                      (record t { sink = add_parameter (plain_key key) value t.sink });
              }))
      extended value r = elim (Option-cases (get_elem? scene.targets r)) [
        | inl e ↦ rw e tt
        | inr (t, e) ↦ rw e (
            IsSound-targets scene _ h
              (Kept-set _ _ r scene.targets t _ e refl (IsSound-Kept scene h)))
      ]

  enter_target-IsSound :
      (index : ℕ) (t : Target D) (scene : Scene D)
      → IsSound scene
      → IsSound (enter_target index t scene)
  unfolding enter_target
  enter_target-IsSound index t scene h =
      let source = parameter (codes "source") t.sink in
      let sensor =
        MapInRange-at (length scene.sensor_array) source.0 scene.sensor_map h.sensors_made in
      IsSound-entered index _ scene _ _ _ h sensor.0 sensor.1

  define_target-IsSound :
      (junk : D) (index : ℕ) (line : Bytes) (scene : Scene D)
      → IsSound scene
      → Holds IsSound (define_target junk index line scene)
  unfolding define_target
  define_target-IsSound junk index line scene h =
      Holds-then IsSound (describe_target line (new_target junk)) _
        (λ t. enter_target-IsSound index t scene h)

  describe_sensors-IsSound :
      (entries : Params) (scene : Scene D)
      → IsSound scene
      → Holds IsSound (describe_sensors entries scene)
  unfolding describe_sensors
  describe_sensors-IsSound [] scene h = h
  describe_sensors-IsSound ((key, line) ∷ entries) scene h =
      elim (Bool-cases (starts_with (codes "(s)") key)) [
        | inr s ↦ rw s (describe_sensors-IsSound entries scene h)
        | inl s ↦ rw s (elim (Option-cases (get_elem? scene.sensor_array (index_of key))) [
          | inl e ↦ rw (e, describe_sensors) tt
          | inr (c, e) ↦
              rw (e, describe_sensors)
                (Holds-then IsSound (describe_sensor line c) _ (λ c'.
                  describe_sensors-IsSound entries _ (described c' (get_elem-length _ _ c e))))
        ])
      ]
    where
      described :
          (c : SensorController D)
          → index_of key < length scene.sensor_array
          → IsSound (record scene {
            sensor_array = set scene.sensor_array (index_of key) c;
            sensor_map = put (drop 3 key) (some (index_of key)) scene.sensor_map;
          })
      described c lt = record {
        storage_made = h.storage_made;
        travel_made = h.travel_made;
        reported_made = h.reported_made;
        sensors_made = rw (length-set scene.sensor_array (index_of key) c) (
            MapInRange-put (length scene.sensor_array) (drop 3 key) (some (index_of key))
              scene.sensor_map lt h.sensors_made);
        sensor_made = rw (length-set scene.sensor_array (index_of key) c) (h.sensor_made);
      }

  describe_targets-IsSound :
      (junk : D) (canister elbow : Bytes) (entries : Params) (scene : Scene D)
      → IsSound scene
      → Holds IsSound (describe_targets junk canister elbow entries scene)
  unfolding describe_targets
  describe_targets-IsSound junk canister elbow [] scene h = h
  describe_targets-IsSound junk canister elbow ((key, line) ∷ entries) scene h =
      elim (Bool-cases (starts_with (codes "(t)") key)) [
        | inr s ↦ rw s (describe_targets-IsSound junk canister elbow entries scene h)
        | inl s ↦ rw s (
            Holds-bind IsSound IsSound _ _ entered
              (λ scene' h'. describe_targets-IsSound junk canister elbow entries scene' h'))
      ]
    where
      entered : Holds IsSound (
          if starts_with (codes "(t)defin") key
          then define_target junk (index_of key) line scene
          else extend_target canister elbow key line (index_of key) scene)
      entered = elim (Bool-cases (starts_with (codes "(t)defin") key)) [
        | inl e ↦ rw e (define_target-IsSound junk (index_of key) line scene h)
        | inr e ↦ rw e (extend_target-IsSound canister elbow key line (index_of key) scene h)
      ]

  -- Whatever the server's parameters are, the stores that a start comes back with hold no pointer but
  -- NULL and pointers to targets and sensors that were made.
  pub init_sensor_descriptions-IsSound :
      (junk : D) (canister elbow : Bytes) (params : Params)
      → Holds IsSound (init_sensor_descriptions junk canister elbow (no_stores params))
  unfolding init_sensor_descriptions
  init_sensor_descriptions-IsSound junk canister elbow [] = record {
    storage_made = tt;
    travel_made = tt;
    reported_made = tt;
    sensors_made = tt;
    sensor_made = tt;
  }
  init_sensor_descriptions-IsSound junk canister elbow (entry ∷ entries) =
      let counted = StdMap.at (codes "SENSOR_COUNT") [] (entry ∷ entries) in
      let sensors = replicate (to_unsigned (atoi counted.0)) (new_sensor junk) in
      let begun : Scene D = record (no_stores (entry ∷ entries)) {
        server_parameters = counted.1;
        sensor_array = sensors;
      } in
      let sound : IsSound begun = record {
        storage_made = tt;
        travel_made = tt;
        reported_made = tt;
        sensors_made = tt;
        sensor_made = tt;
      } in
      Holds-if IsSound (leb (to_unsigned (atoi counted.0)) max_sensor_count) _ _
        (Holds-bind IsSound (IsSound {D = D}) (describe_sensors counted.1 begun) _
          (describe_sensors-IsSound counted.1 begun sound)
          (λ scene h.
            Holds-bind IsSound (IsSound {D = D})
              (describe_targets junk canister elbow counted.1 scene) _
              (describe_targets-IsSound junk canister elbow counted.1 scene h)
              (λ scene' h'. Holds-if IsSound (can_start scene'.sensor_map) _ _ h' tt)))
        tt
