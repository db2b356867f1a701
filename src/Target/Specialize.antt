-- ===== src/Target/Specialize.antt =====
-- release/build/arm_configuration.h: what a target takes from its definition.
use robot_arm_2d.Double.{Double}
use robot_arm_2d.Motor.{parameter, set_descriptor}
use robot_arm_2d.Prelude.{List, [], ◌∷◌, Option, some, ◌>>=◌, Bytes, codes}
use robot_arm_2d.StdMap.{put}
use robot_arm_2d.Text.Decimal.{atoi}
use robot_arm_2d.Text.Find.{before, behind}
use robot_arm_2d.Text.Split.{to_tokens}
use robot_arm_2d.Text.Unsigned.{to_unsigned}
use robot_arm_2d.Target.{scan_pair, Target}

module _ {ℓ} {D : Type ℓ} ⦃d : Double D⦄ where
  -- The offset and the level.
  unfoldable pub target_offset : Target D → Target D
  unfolding parameter scan_pair
  target_offset t =
      let o = parameter (codes "offset_total(x,y)") t.sink in
      let xy = scan_pair o.0 t.x_offset_total t.y_offset_total in
      let l = parameter (codes "level") o.1 in
      record t {
        sink = l.1;
        x_offset_total = xy.0;
        y_offset_total = xy.1;
        level = to_unsigned (atoi l.0);
      }

  -- `_reported_values[field_name] = "0"; _measurements[field_name] = 0.0` for each field.
  unfoldable pub clear_fields : List Bytes → Target D → Target D
  clear_fields [] t = t
  clear_fields (field_name ∷ names) t = clear_fields names (record t {
    reported_values = put field_name (codes "0") t.reported_values;
    measurements = put field_name (d.lit 0 0) t.measurements;
  })

  -- The names and the fields of the report.
  unfoldable pub target_fields : Target D → Option (Target D)
  unfolding parameter clear_fields
  target_fields t =
      let i = parameter (codes "id") t.sink in
      let r = parameter (codes "report_id") i.1 in
      let f = parameter (codes "fields") r.1 in
      to_tokens f.0 >>= λ names. some (
        clear_fields names (record t {
          sink = f.1;
          id = i.0;
          report_id = r.0;
          report_fields = f.0;
          fields = some names;
        }))

  unfoldable pub target_goal : Target D → Target D
  unfolding parameter
  target_goal t =
      let goal_offset = parameter (codes "goal_offset") t.sink in
      record t {
        sink = goal_offset.1;
        goal_x = d.atof (before b',' goal_offset.0);
        goal_y = d.atof (behind b',' goal_offset.0);
      }

  -- `specialization`
  unfoldable pub specialize_target : Target D → Option (Target D)
  unfolding target_offset target_fields target_goal
  specialize_target t = target_fields (target_offset t) >>= λ t'. some (target_goal t')

  -- `set_descriptor` of a target.
  unfoldable pub describe_target : Bytes → Target D → Option (Target D)
  unfolding specialize_target
  describe_target goal_description t =
      set_descriptor (λ k. specialize_target (record t { sink = k })) goal_description t.sink
