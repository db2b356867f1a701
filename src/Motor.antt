-- ===== src/Motor.antt =====
-- release/build/arm_configuration.h: ParameterSink and MotorDriver; release/build/serialback.xpp:
-- run_commands2, which sends the queued commands and hands the responses back.
pub mod Serial
pub mod Transcript
pub mod Responds
pub mod Queue
pub mod Sink
pub mod Commands
mod Tests
use robot_arm_2d.Config.{Params}
use robot_arm_2d.Double.{Double}
use robot_arm_2d.Motor.Serial.{Port, write, command, read_response, carriage_return}
use robot_arm_2d.Prelude.Int.{ℤ}
use robot_arm_2d.Prelude.{
  ℕ, zero, suc, ◌+◌, Bool, true, false, not, List, [], ◌∷◌, ◌++◌, Option, none, some, ◌>>=◌, Bytes,
  codes, length, ◌==◌, if◌then◌else◌, equal,
}
use robot_arm_2d.StdMap
use robot_arm_2d.StdMap.{find, put}
use robot_arm_2d.Text.Decimal.{format_int}
use robot_arm_2d.Text.Find.{behind}
use robot_arm_2d.Text.Split.{split_string, to_items}
use robot_arm_2d.Text.Subst.{subst}
use robot_arm_2d.Text.Trim.{trim_string}

-- The fields of ParameterSink.
pub record ParameterSink : Type 0 where
  pub short_command_list : List Bytes
  pub parameters : Params

abbrev pub new_sink : ParameterSink
new_sink = record { short_command_list = []; parameters = [] }

unfoldable pub add_line : Bytes → ParameterSink → ParameterSink
add_line line sink = record sink { short_command_list = sink.short_command_list ++ line ∷ [] }

unfoldable pub add_parameter : Bytes → Bytes → ParameterSink → ParameterSink
add_parameter key line sink = record sink { parameters = put key line sink.parameters }

unfoldable pub has_parameters : Bytes → ParameterSink → Bool
has_parameters key sink = elim (find key sink.parameters) [ none ↦ false | some _ ↦ true ]

-- `_parameters[key]`, which leaves an empty value behind where the key is missing.
unfoldable pub parameter : Bytes → ParameterSink → Bytes × ParameterSink
parameter key sink =
    let read = StdMap.at key [] sink.parameters in (read.0, record sink { parameters = read.1 })

-- The loop of `set_descriptor` over the items.
unfoldable pub add_items : List Bytes → ParameterSink → ParameterSink
unfolding add_parameter
add_items [] sink = sink
add_items (pardef ∷ items) sink =
    let pair = split_string pardef [] b':' in
    add_items items (add_parameter (trim_string pair.0) (trim_string pair.1) sink)

-- `set_descriptor`. `specialize` is the class's own `specialization`, which the last line calls.
unfoldable pub set_descriptor {ℓ} :
    {A : Type ℓ} → (ParameterSink → Option A) → Bytes → ParameterSink → Option A
unfolding add_items
set_descriptor specialize goal_description sink =
    (to_items goal_description b';' >>= λ items. specialize (add_items items sink))

pub record MotorDriver {ℓ} (D : Type ℓ) : Type ℓ where
  pub sink : ParameterSink
  pub open sink use *
  pub index_str : Bytes
  -- the last response
  pub response : Bytes
  pub checking_status : Bool
  pub checking_position : Bool
  pub reported_steps : Bytes
  pub gear_ratio : D

-- `unsigned int tries = 10`
abbrev pub max_tries : ℕ
max_tries = 10

-- MAX_DRIVE_COUNT
abbrev pub max_drive_count : ℕ
max_drive_count = 200

-- `next_com[0] == 'q'`
abbrev pub is_quit : Bytes → Bool
is_quit [] = false
is_quit (c ∷ s) = c == b'q'

module _ {ℓ} {D : Type ℓ} where
  -- `handle_command_response`, without the print.
  unfoldable pub handle_command_response : Bytes → MotorDriver D → MotorDriver D
  handle_command_response text md =
      if md.checking_position
      then record md {
        response = text;
        reported_steps = trim_string (split_string text md.reported_steps b'=').1;
      }
      else record md { response = text }

  -- The loop that reads responses: `while ( ( motor_driver_response.size() > 0 ) || ( tries-- > 0 ))`.
  -- `none` means that the fuel ran out.
  unfoldable pub respond_loop : ℕ → ℕ → MotorDriver D → Port → Option (MotorDriver D × Port)
  respond_loop zero tries md port = none
  respond_loop (suc fuel) tries md port =
      let read = read_response port in
      let polled = write carriage_return read.1 in
      elim (read.0) [
        | [] ↦ elim tries [ zero ↦ some (md, polled) | suc left ↦ respond_loop fuel left md polled ]
        | c ∷ s ↦ respond_loop fuel 0 (handle_command_response (c ∷ s) md) polled
      ]

  -- `run_commands2` on the queue: its first command is taken. A command that begins with `q` is
  -- sent, and no response is read; a simulation sends and reads nothing.
  unfoldable pub run_queue :
      Bool → List Bytes → MotorDriver D → Port → Option (MotorDriver D × Port)
  run_queue use_simulations [] md port = some (md, port)
  run_queue use_simulations (next_com ∷ queue) md port =
      let popped = record md { sink = record (md.sink) { short_command_list = queue } } in
      let sent = command next_com port in
      let fuel = length port.polls + (max_tries + 2) in
      let answered = respond_loop fuel max_tries popped sent in
      if use_simulations
      then some (popped, port)
      else if is_quit next_com
      then some (popped, sent)
      else answered

  unfoldable pub run_commands2 : Bool → MotorDriver D → Port → Option (MotorDriver D × Port)
  unfolding run_queue
  run_commands2 use_simulations md port = run_queue use_simulations md.short_command_list md port

  unfoldable pub lines_loop : ℕ → Bool → MotorDriver D → Port → Option (MotorDriver D × Port)
  lines_loop zero use_simulations md port = some (md, port)
  lines_loop (suc queued) use_simulations md port =
      run_commands2 use_simulations md port >>= λ r. lines_loop queued use_simulations r.0 r.1

  -- `while ( !(_short_command_list->empty() ) ) { … }`: each round takes one command from the queue.
  unfoldable pub run_lines : Bool → MotorDriver D → Port → Option (MotorDriver D × Port)
  unfolding lines_loop
  run_lines use_simulations md port =
      lines_loop (length md.short_command_list) use_simulations md port

  -- `add_line(_index_str + item)` for each item.
  unfoldable pub add_commands : List Bytes → MotorDriver D → MotorDriver D
  unfolding add_line
  add_commands [] md = md
  add_commands (item ∷ items) md =
      add_commands items (record md { sink = add_line (md.index_str ++ item) md.sink })

  -- The commands of a sequence, queued and run.
  unfoldable pub run_sequence : Bool → Bytes → MotorDriver D → Port → Option (MotorDriver D × Port)
  unfolding add_commands
  run_sequence use_simulations seq md port =
      to_items seq b';' >>= λ items. run_lines use_simulations (add_commands items md) port

  -- `run_action(action_key)`
  unfoldable pub run_action : Bool → Bytes → MotorDriver D → Port → Option (MotorDriver D × Port)
  unfolding parameter run_sequence
  run_action use_simulations action_key md port =
      let seq = parameter action_key md.sink in
      run_sequence use_simulations seq.0 (record md { sink = seq.1 }) port

  -- `run_action(action_key,var,value)`
  unfoldable pub run_action_var :
      Bool → Bytes → Bytes → Bytes → MotorDriver D → Port → Option (MotorDriver D × Port)
  unfolding parameter run_sequence
  run_action_var use_simulations action_key var value md port =
      let seq = parameter action_key md.sink in
      let var_marker = codes "{" ++ (var ++ codes "}") in
      subst var_marker value seq.0 >>= λ text.
      run_sequence use_simulations text (record md { sink = seq.1 }) port

  -- `check_status(code,check_noisy)`; the code is not used.
  unfoldable pub check_status :
      Bool → Bool → MotorDriver D → Port → Option (Bool × MotorDriver D × Port)
  unfolding add_line
  check_status use_simulations check_noisy md port =
      let line = md.index_str ++ codes "SC" in
      run_lines use_simulations
        (record md { sink = add_line line md.sink; checking_status = check_noisy }) port
      >>= λ r. some (equal (trim_string (behind b'=' r.0.response)) (codes "0001"), r.0, r.1)

module _ {ℓ} {D : Type ℓ} ⦃d : Double D⦄ where
  -- The constructor.
  unfoldable pub new_motor : ℤ → MotorDriver D
  new_motor index = record {
    sink = new_sink;
    index_str = format_int index;
    response = [];
    checking_status = true;
    checking_position = false;
    reported_steps = [];
    gear_ratio = d.lit 1 0;
  }

  -- TOO_SMALL
  abbrev pub too_small : D
  too_small = d.lit 5 3

  unfoldable pub gear_ratio_of : Bytes → D
  gear_ratio_of value =
      let ratio = d.atof value in if d.lt ratio too_small then d.lit 1 0 else ratio

  unfoldable pub specialization : MotorDriver D → MotorDriver D
  unfolding has_parameters gear_ratio_of parameter
  specialization md =
      if has_parameters (codes "gear_ratio") md.sink
      then record md { gear_ratio = gear_ratio_of (parameter (codes "gear_ratio") md.sink).0 }
      else md

  unfoldable pub process_parameters : Bool → MotorDriver D → Port → Option (MotorDriver D × Port)
  process_parameters use_simulations md port =
      run_action use_simulations (codes "read_power_up") (specialization md) port >>= (λ r.
        run_action use_simulations (codes "set_run_parameters") r.0 r.1 >>= λ r'.
        run_action use_simulations (codes "read_reset") r'.0 r'.1)

  unfoldable pub current_rotation : Bool → MotorDriver D → Port → Option (D × MotorDriver D × Port)
  current_rotation use_simulations md port =
      run_action use_simulations (codes "rotation_query") (record md { checking_position = true })
        port
      >>= λ r. some (
        d.div (d.atof r.0.reported_steps) r.0.gear_ratio,
        record (r.0) { checking_position = false },
        r.1,
      )
