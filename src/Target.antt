-- ===== src/Target.antt =====
-- release/build/arm_configuration.h: Target; release/build/arm_2d.cpp: acquired_target,
-- unpack_mapped_values, parse_data, data_test, fov_center_offset.
pub mod Report
pub mod Specialize
pub mod Laws
mod Tests
use robot_arm_2d.Config.{Params}
use robot_arm_2d.Double.{Double}
use robot_arm_2d.Motor.{ParameterSink, new_sink, parameter, set_descriptor}
use robot_arm_2d.Prelude.{
  ℕ, zero, suc, Bool, true, false, List, [], ◌∷◌, ◌++◌, Option, none, some, ◌>>=◌, ◌&&◌, Bytes,
  codes, take, ◌==◌, if◌then◌else◌,
}
use robot_arm_2d.Sensor.{SensorController}
use robot_arm_2d.StdMap
use robot_arm_2d.StdMap.{StdMap, find, put}
use robot_arm_2d.Target.Report.{
  is_value, has_gap, point_text, behind_point, possible_measurements_keys,
}
use robot_arm_2d.Text.Decimal.{atoi}
use robot_arm_2d.Text.Find.{before, behind}
use robot_arm_2d.Text.Split.{cut_at, split_string, to_tokens}
use robot_arm_2d.Text.Unsigned.{to_unsigned}

pub record Target {ℓ} (D : Type ℓ) : Type ℓ where
  pub sink : ParameterSink
  pub open sink use *
  pub id : Bytes
  -- the number of the sensor, or NULL
  pub sensor : Option ℕ
  pub level : ℕ
  -- `none` for the pointer that the constructor does not set
  pub fields : Option (List Bytes)
  pub report_id : Bytes
  pub report_fields : Bytes
  pub reported_values : Params
  pub measurements : StdMap D
  pub target_present : Bool
  pub target_was_present : Bool
  pub x_offset_total : D
  pub y_offset_total : D
  pub fov_x : D
  pub fov_y : D
  pub fov_theta : D
  pub fov_match : D
  pub goal_x : D
  pub goal_y : D

module _ {ℓ} {D : Type ℓ} where
  -- `acquired_target` consumes the flag.
  unfoldable pub acquired_target : Target D → Bool × Target D
  acquired_target t =
      if t.target_present then (true, record t { target_present = false }) else (false, t)

  unfoldable pub set_target_not_acquired : Target D → Target D
  set_target_not_acquired t = record t { target_present = false; target_was_present = false }

  -- `_reported_values[field_name] = value`, and the flag.
  unfoldable pub report_value : Bytes → Bytes → Target D → Target D
  report_value field_name value t = record t {
    target_present = is_value value;
    reported_values = put field_name value t.reported_values;
  }

  -- The point `(value,value2)`.
  unfoldable pub report_point : Bytes → Bytes → Bytes → Target D → Target D
  report_point field_name value value2 t = record t {
    reported_values =
        put (field_name ++ codes "_y") (before b')' value2)
          (put (field_name ++ codes "_x") value t.reported_values);
  }

  mutual
    -- The loop of `parse_data` over the fields and the values; `none` means that the iterator of the
    -- values runs past their end.
    pub parse_fields : List Bytes → List Bytes → Target D → Option (Target D)
    parse_fields [] values t = some t
    parse_fields (field_name ∷ names) [] t = none
    parse_fields (field_name ∷ names) ([] ∷ values) t =
        parse_fields names values (report_value field_name [] t)
    parse_fields (field_name ∷ names) ((c ∷ value) ∷ values) t = elim (c == b'(') [
      | true ↦ parse_point field_name names value values t
      | false ↦ parse_fields names values (report_value field_name (c ∷ value) t)
    ]

    -- A value that begins with `(`: the next value belongs to it.
    parse_point : Bytes → List Bytes → Bytes → List Bytes → Target D → Option (Target D)
    parse_point field_name names value [] t = none
    parse_point field_name names value (value2 ∷ values) t =
        parse_fields names values
          (report_value field_name value (report_point field_name value value2 t))

  -- The first field is the name of the report. `none` stands for fields that are not set, or of
  -- which there is none.
  unfoldable pub parse_data : Bytes → Target D → Option (Target D)
  parse_data data_str t = to_tokens data_str >>= λ values. elim (t.fields) [
    | none ↦ none
    | some names ↦ elim names [ [] ↦ none | reporting_element ∷ rest ↦ parse_fields rest values t ]
  ]

module _ {ℓ} {D : Type ℓ} ⦃d : Double D⦄ where
  -- PI
  abbrev pub pi : D
  pi = d.lit 314159 5

  -- The constructor. It leaves the goal as it is in the memory, `junk`, and `_fields` not set.
  unfoldable pub new_target : D → Target D
  new_target junk = record {
    sink = new_sink;
    id = codes "nada";
    sensor = none;
    level = 0;
    fields = none;
    report_id = [];
    report_fields = [];
    reported_values = [];
    measurements = [];
    target_present = false;
    target_was_present = false;
    x_offset_total = d.lit 0 0;
    y_offset_total = d.lit 0 0;
    fov_x = d.lit 0 0;
    fov_y = d.lit 0 0;
    fov_theta = d.lit 0 0;
    fov_match = d.lit 0 0;
    goal_x = junk;
    goal_y = junk;
  }

  -- Degrees to radians.
  unfoldable pub to_radians : D → D
  to_radians angle = d.mul (d.div angle (d.lit 180 0)) pi

  unfoldable pub set_test_measurements : D → D → D → D → Target D → Target D
  set_test_measurements x y theta match t = record t {
    fov_x = x;
    fov_y = y;
    fov_theta = to_radians theta;
    fov_match = match;
  }

  -- The second number of `sscanf(values,"%f, %f",&p1,&p2)`.
  unfoldable pub scan_second : Bytes → D → D
  scan_second [] p2 = p2
  scan_second (c ∷ s) p2 =
      if c == b',' then elim (d.scan_float s) [ none ↦ p2 | some (y, rest) ↦ y ] else p2

  -- `set_double_pair`: the two numbers are kept as far as the text does not spell them.
  unfoldable pub scan_pair : Bytes → D → D → D × D
  unfolding scan_second
  scan_pair values p1 p2 = elim (d.scan_float values) [
    | none ↦ (p1, p2)
    | some (x, rest) ↦ (x, scan_second rest p2)
  ]

  -- `_measurements[key] = atof(text)`
  unfoldable pub measure : Bytes → Bytes → Target D → Target D
  measure key text t = record t { measurements = put key (d.atof text) t.measurements }

  -- `_measurements[key]`
  unfoldable pub measurement : Bytes → Target D → D
  measurement key t = (StdMap.at key (d.lit 0 0) t.measurements).0

  -- The four measurements of a report.
  unfoldable pub read_report : Bytes → Target D → Target D
  unfolding measure point_text behind_point
  read_report data_str t =
      let pair = point_text data_str in
      let angles = split_string (behind_point data_str) [] b',' in
      measure (codes "MATCH") angles.1 (
        measure (codes "THETA") angles.0
          (measure (codes "Y") (behind b',' pair) (measure (codes "X") (before b',' pair) t)))

  -- `_fov_x = _measurements["X"]` and the other three.
  unfoldable pub use_report : Target D → Target D
  use_report t = record t {
    fov_x = measurement (codes "X") t;
    fov_y = measurement (codes "Y") t;
    fov_theta = to_radians (measurement (codes "THETA") t);
    fov_match = measurement (codes "MATCH") t;
  }

  unfoldable pub data_test : Bytes → Target D → Target D
  unfolding has_gap read_report use_report
  data_test data_str t =
      if has_gap data_str
      then record t { target_present = false }
      else use_report (read_report data_str (record t { target_present = true }))

  -- The loop of `unpack_mapped_values`.
  unfoldable pub unpack_keys : List Bytes → Target D → Target D
  unfolding measure
  unpack_keys [] t = t
  unpack_keys (key ∷ keys) t =
      unpack_keys keys
        (elim (find key t.reported_values) [ none ↦ t | some value ↦ measure key value t ])

  unfoldable pub unpack_mapped_values : Target D → Target D
  unfolding unpack_keys
  unpack_mapped_values t = if t.target_present then unpack_keys possible_measurements_keys t else t

  -- `fov_center_offset` on the target's sensor.
  unfoldable pub fov_center_offset : SensorController D → D → D → D × D
  fov_center_offset s x y =
      (d.mul (d.sub x s.fov_center_x) s.scale_x, d.mul (d.sub s.fov_center_y y) s.scale_y)
