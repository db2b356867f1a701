-- ===== src/Startup.antt =====
-- release/build/arm_2d.cpp: init_motor_descriptions and init_sensor_descriptions, which make the
-- motors, the sensors and the targets from the server's parameters.
pub mod Laws
pub mod Pointers
mod Tests
use robot_arm_2d.Config.{Params}
use robot_arm_2d.Double.{Double}
use robot_arm_2d.Motor.{
  max_drive_count, MotorDriver, add_parameter, parameter, new_motor, process_parameters,
}
use robot_arm_2d.Motor.Serial.{Port}
use robot_arm_2d.Prelude.{
  ℕ, zero, suc, ◌+◌, ◌-◌, ◌%◌, Bool, true, false, not, ◌&&◌, List, [], ◌∷◌, ◌++◌, Option, none,
  some, ◌>>=◌, Bytes, codes, length, get_elem?, set, drop, replicate, leb, ltb, ◌==◌, if◌then◌else◌,
  equal,
}
use robot_arm_2d.Prelude.Int.{ℤ, pos, negsuc}
use robot_arm_2d.Scene.{Scene}
use robot_arm_2d.Sensor.{SensorController, new_sensor, describe_sensor}
use robot_arm_2d.StdMap
use robot_arm_2d.StdMap.{StdMap, put}
use robot_arm_2d.Target.{Target, new_target}
use robot_arm_2d.Target.Specialize.{describe_target}
use robot_arm_2d.Text.Decimal.{atoi}
use robot_arm_2d.Text.Find.{before}
use robot_arm_2d.Text.Split.{cut_at}
use robot_arm_2d.Text.Subst.{starts_with, find_in, subst}
use robot_arm_2d.Text.Unsigned.{to_unsigned}

-- MAX_SENSOR_COUNT
abbrev pub max_sensor_count : ℕ
max_sensor_count = 200

-- `if ( i > 0 ) i--; return((unsigned char)i)`
abbrev pub index_char : ℤ → ℕ
index_char (pos zero) = 0
index_char (pos (suc n)) = n % 256
index_char (negsuc n) = 255 - n % 256

-- `index_of`: the number behind the first `[`, counted from 0.
unfoldable pub index_of : Bytes → ℕ
unfolding cut_at
index_of key = elim (cut_at b'[' key) [ none ↦ 0 | some (a, b) ↦ index_char (atoi b) ]

-- `if ( strstr(line,name) != NULL ) line = subst(name,value,line)`
unfoldable pub subst_var : Bytes → Bytes → Bytes → Option Bytes
subst_var name value line = elim (find_in name line) [
  | none ↦ some line
  | some found ↦ subst name value line
]

-- `check_vars`, on the step counts of the arm.
unfoldable pub check_vars : Bytes → Bytes → Bytes → Option Bytes
check_vars canister elbow line =
    subst_var (codes "{CANISTER_STEPS}") canister line >>= subst_var (codes "{ELBOW_STEPS}") elbow

-- `key = key.substr(3); key = key.substr(0,key.find("["))`
abbrev pub plain_key : Bytes → Bytes
plain_key key = before b'[' (drop 3 key)

-- `key.find("[")` as a condition: false only where the key begins with `[`.
abbrev pub refers : Bytes → Bool
refers key = not (starts_with (codes "[") key)

-- `storage.push_back(target)` up to the index, or the place is written over.
unfoldable pub store_target : ℕ → ℕ → List ℕ → List ℕ
store_target index target storage =
    if leb (length storage) index
    then storage ++ replicate (index + 1 - length storage) target
    else set storage index target

-- The last loop, `s->start_ports()` for each sensor of the map: `s` must not be NULL.
unfoldable pub can_start : StdMap (Option ℕ) → Bool
can_start [] = true
can_start ((key, none) ∷ entries) = false
can_start ((key, some s) ∷ entries) = can_start entries

module _ {ℓ} {D : Type ℓ} where
  -- The globals before the start: the parameters have been read, and every store is empty.
  abbrev pub no_stores : Params → Scene D
  no_stores params = record {
    server_parameters = params;
    sensor_array = [];
    sensor_map = [];
    targets = [];
    storage = [];
    travel_map = [];
    target_map = [];
  }

  -- The loop of `init_motor_descriptions` over the parameters; `none` stands for an index that no
  -- motor has. The first number is sg_actual_drive_count.
  unfoldable pub describe_motors :
      Bytes → Bytes → Params → ℕ → List (MotorDriver D) → Option (ℕ × List (MotorDriver D))
  describe_motors canister elbow [] drives motors = some (drives, motors)
  describe_motors canister elbow ((key, line) ∷ entries) drives motors =
      if equal key (codes "drive_count")
      then describe_motors canister elbow entries (to_unsigned (atoi line)) motors
      else if starts_with (codes "(m)") key && refers key
      then check_vars canister elbow line >>= (λ value. elim (get_elem? motors (index_of key)) [
        | none ↦ none
        | some md ↦ describe_motors canister elbow entries drives (
            set motors (index_of key)
              (record md { sink = add_parameter (plain_key key) value md.sink }))
      ])
      else describe_motors canister elbow entries drives motors

module _ {ℓ} {D : Type ℓ} ⦃d : Double D⦄ where
  -- `new MotorDriver(i+1)` for each `i`.
  unfoldable pub new_motors : ℕ → ℕ → List (MotorDriver D)
  new_motors zero i = []
  new_motors (suc left) i = new_motor (pos (i + 1)) ∷ new_motors left (suc i)

  -- `md->process_parameters()` for the first drives.
  unfoldable pub process_motors :
      Bool → ℕ → ℕ → List (MotorDriver D) → Port → Option (List (MotorDriver D) × Port)
  process_motors use_simulations zero i motors port = some (motors, port)
  process_motors use_simulations (suc left) i motors port = elim (get_elem? motors i) [
    | none ↦ none
    | some md ↦ process_parameters use_simulations md port >>= λ r.
        process_motors use_simulations left (suc i) (set motors i (r.0)) r.1
  ]

  -- `init_motor_descriptions`, with the drives counted before; no parameters, no motors. `none` where
  -- the motors run over the end of their array.
  unfoldable pub init_motor_descriptions :
      Bool → Bytes → Bytes → Params → ℕ → Port → Option (ℕ × List (MotorDriver D) × Port)
  init_motor_descriptions use_simulations canister elbow [] drives port = some (drives, [], port)
  init_motor_descriptions use_simulations canister elbow (entry ∷ entries) drives port =
      let counted = StdMap.at (codes "MOTOR_COUNT") [] (entry ∷ entries) in
      let count = to_unsigned (atoi counted.0) in
      if leb count max_drive_count
      then (describe_motors canister elbow counted.1 drives (new_motors count 0) >>= λ r.
          (process_motors use_simulations r.0 0 r.1 port >>= λ r'. some (r.0, r'.0, r'.1)))
      else none

  -- The first loop of `init_sensor_descriptions`: sensors.
  unfoldable pub describe_sensors : Params → Scene D → Option (Scene D)
  describe_sensors [] scene = some scene
  describe_sensors ((key, line) ∷ entries) scene =
      if starts_with (codes "(s)") key
      then (elim (get_elem? scene.sensor_array (index_of key)) [
        | none ↦ none
        | some s ↦ describe_sensor line s >>= λ s'. describe_sensors entries (record scene {
          sensor_array = set scene.sensor_array (index_of key) s';
          sensor_map = put (drop 3 key) (some (index_of key)) scene.sensor_map;
        })
      ])
      else describe_sensors entries scene

  -- The described target is stored. A source that is no sensor's name stays in the map of the
  -- sensors, with NULL.
  unfoldable pub enter_target : ℕ → Target D → Scene D → Scene D
  unfolding store_target parameter
  enter_target index t scene =
      let target = length scene.targets in
      let source = parameter (codes "source") t.sink in
      let s = StdMap.at source.0 none scene.sensor_map in
      let name = parameter (codes "id") source.1 in
      let label = parameter (codes "report_id") name.1 in
      record scene {
        sensor_map = s.1;
        targets = scene.targets ++ record t { sink = label.1; sensor = s.0 } ∷ [];
        storage = store_target index target scene.storage;
        travel_map = put name.0 (some target) scene.travel_map;
        target_map = put label.0 (some target) scene.target_map;
      }

  -- A definition: the target is made, described and stored.
  unfoldable pub define_target : D → ℕ → Bytes → Scene D → Option (Scene D)
  define_target junk index line scene =
      describe_target line (new_target junk) >>= λ t. some (enter_target index t scene)

  -- Any other entry of a target: its index is counted down once more. `none` stands for an index
  -- behind the storage.
  unfoldable pub extend_target : Bytes → Bytes → Bytes → Bytes → ℕ → Scene D → Option (Scene D)
  extend_target canister elbow key line index scene = check_vars canister elbow line >>= λ value.
      (get_elem? scene.storage (index - 1) >>= λ r.
      (get_elem? scene.targets r >>= λ t. some (record scene {
        targets =
            set scene.targets r (record t { sink = add_parameter (plain_key key) value t.sink });
      })))

  -- The second loop: targets. `strncmp` compares the first 8 characters.
  unfoldable pub describe_targets : D → Bytes → Bytes → Params → Scene D → Option (Scene D)
  describe_targets junk canister elbow [] scene = some scene
  describe_targets junk canister elbow ((key, line) ∷ entries) scene =
      if starts_with (codes "(t)") key
      then ((if starts_with (codes "(t)defin") key
            then define_target junk (index_of key) line scene
            else extend_target canister elbow key line (index_of key) scene)
          >>= λ scene'. describe_targets junk canister elbow entries scene')
      else describe_targets junk canister elbow entries scene

  -- `none` where the code goes behind an array or uses a NULL pointer.
  unfoldable pub init_sensor_descriptions : D → Bytes → Bytes → Scene D → Option (Scene D)
  unfolding describe_sensors describe_targets can_start
  init_sensor_descriptions junk canister elbow scene = elim (scene.server_parameters) [
    | [] ↦ some scene
    | entry ∷ entries ↦
        let counted = StdMap.at (codes "SENSOR_COUNT") [] (entry ∷ entries) in
        let count = to_unsigned (atoi counted.0) in
        let sensors = replicate count (new_sensor junk) in
        if leb count max_sensor_count
        then (describe_sensors counted.1
              (record scene { server_parameters = counted.1; sensor_array = sensors })
            >>= λ with_sensors.
                (describe_targets junk canister elbow counted.1 with_sensors >>= λ with_targets.
                if can_start with_targets.sensor_map then some with_targets else none))
        else none
  ]
