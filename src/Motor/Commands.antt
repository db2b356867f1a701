-- ===== src/Motor/Commands.antt =====
-- release/build/serialback.xpp: run_motor_command_list, and run_commands with the commands that are
-- typed for a test of the serial line.
pub mod Laws
mod Tests
use robot_arm_2d.Console.Words.{read_word, first_char}
use robot_arm_2d.Motor.{MotorDriver, is_quit, respond_loop}
use robot_arm_2d.Motor.Serial.{Port, write, command, read_response, carriage_return}
use robot_arm_2d.Prelude.{
  ℕ, zero, suc, ◌+◌, Bool, true, false, not, ◌&&◌, ◌||◌, List, [], ◌∷◌, ◌++◌, Option, none, some,
  ◌>>=◌, Bytes, codes, length, take, drop, ◌==◌, if◌then◌else◌, equal,
}

-- The tries of run_motor_command_list and of run_commands.
abbrev pub list_tries : ℕ
list_tries = 5

-- Every command of a queue is written, with its carriage return.
unfoldable pub write_all : List Bytes → Port → Port
unfolding command
write_all [] port = port
write_all (next_com ∷ queue) port = write_all queue (command next_com port)

module _ {ℓ} {D : Type ℓ} where
  -- `run_motor_command_list`: the whole queue is sent before a response is read.
  unfoldable pub run_motor_command_list : MotorDriver D → Port → Option (MotorDriver D × Port)
  unfolding write_all
  run_motor_command_list md port =
      let sent = write_all md.short_command_list port in
      respond_loop (length port.polls + (list_tries + 1)) list_tries
        (record md { sink = record (md.sink) { short_command_list = [] } }) sent

-- The globals sg_short_command_list, sg_parse_results, sg_save_last_parameter_request and
-- sg_metrics_acquired, and the words that are typed.
pub record CommandTest : Type 0 where
  pub short_commands : List Bytes
  pub parse_results : Bool
  pub save_last_parameter_request : Bytes
  pub metrics_acquired : Bool
  pub typed : List Bytes

unfoldable pub check_command_response_usage : Bytes → CommandTest → CommandTest
check_command_response_usage text c =
    if equal text (codes "EG")
    then record c { parse_results = true; save_last_parameter_request = text }
    else c

-- `while ( typed_command != "}" ) { … }`: the words up to `}` are queued. At the end of the input the
-- word stays and is queued for ever, which `none` stands for.
unfoldable pub add_short_commands :
    Bytes → List Bytes → List Bytes → Option (List Bytes × List Bytes)
add_short_commands typed_command [] short_commands =
    if equal typed_command (codes "}") then some (short_commands, []) else none
add_short_commands typed_command (word ∷ input) short_commands =
    let rest = add_short_commands word input (
      if equal typed_command (codes "{")
      then short_commands
      else short_commands ++ typed_command ∷ []) in
    if equal typed_command (codes "}") then some (short_commands, word ∷ input) else rest

-- A command that is not `{`: it is the last one.
unfoldable pub typed_com : Bytes → CommandTest → Option (Bytes × Bool × CommandTest)
unfolding check_command_response_usage add_short_commands
typed_com typed_command c =
    if equal typed_command (codes "{")
    then (add_short_commands typed_command c.typed c.short_commands >>= λ o.
        some (codes "n", true, record c { short_commands = o.0; typed = o.1 }))
    else some (typed_command, false, check_command_response_usage typed_command c)

-- `get_next_com`, on the queue of short commands: the command, and whether `commanding` stays true.
unfoldable pub next_com_of : List Bytes → CommandTest → Option (Bytes × Bool × CommandTest)
unfolding typed_com
next_com_of [] c = let word = read_word [] c.typed in typed_com word.0 (record c { typed = word.1 })
next_com_of (one_line ∷ short_commands) c =
    some (one_line, true, record c { short_commands = short_commands })

unfoldable pub get_next_com : CommandTest → Option (Bytes × Bool × CommandTest)
unfolding next_com_of
get_next_com c = next_com_of c.short_commands c

-- `sink_drive_response`; `set_motor_parameter` does nothing.
unfoldable pub sink_drive_response : Bytes → CommandTest → CommandTest
sink_drive_response response c =
    if c.parse_results
    then record c {
      parse_results = false;
      metrics_acquired =
          if equal c.save_last_parameter_request (take 2 (drop 1 response))
          then true
          else c.metrics_acquired;
    }
    else c

-- The command that the loop takes first: from the queue, or the next one.
unfoldable pub take_com :
    List Bytes → CommandTest → Option (List Bytes × Bytes × Bool × CommandTest)
unfolding get_next_com
take_com [] c = get_next_com c >>= λ o. some ([], o.0, o.1, o.2)
take_com (next_com ∷ queue) c = some (queue, next_com, false, c)

-- What is written for a command: `n` is not written.
unfoldable pub send_com : Bool → Bytes → Port → Port
unfolding command
send_com true next_com port = port
send_com false next_com port =
    if first_char next_com == b'n' then write carriage_return port else command next_com port

-- `while ( commanding ) { … }`: the queue, `going`, the globals and the line. `none` means that the
-- fuel ran out, too.
unfoldable pub commanding_loop :
    ℕ
    → Bool
    → List Bytes
    → Bool
    → CommandTest
    → Port
    → Option (List Bytes × Bool × CommandTest × Port)
unfolding take_com send_com
commanding_loop zero use_simulations queue going c port = none
commanding_loop (suc fuel) use_simulations queue going c port = take_com queue c >>= λ o.
    (let going' = going && not (is_quit o.1) in
      let sent = send_com use_simulations o.1 port in
      let commanding = o.2 && (use_simulations || not (first_char o.1 == b'n')) in
      let rest = commanding_loop fuel use_simulations o.0 going' o.3 sent in
      if commanding then rest else some (o.0, going', o.3, sent))

-- `get_simulation_response`; the command is not used.
unfoldable pub get_simulation_response : Bytes
get_simulation_response =
    let response = codes "response1234567890" in if equal response (codes ".") then [] else response

-- The loop over the responses, `while ( ( motor_driver_response.size() > 0 ) || ( tries-- > 0 ))`.
-- `none` means that the fuel ran out.
unfoldable pub test_respond_loop : ℕ → Bool → ℕ → CommandTest → Port → Option (CommandTest × Port)
unfolding sink_drive_response get_simulation_response
test_respond_loop zero use_simulations tries c port = none
test_respond_loop (suc fuel) true tries c port = elim get_simulation_response [
  | [] ↦ some (c, port)
  | b ∷ s ↦ test_respond_loop fuel true 0 c port
]
test_respond_loop (suc fuel) false tries c port =
    let read = read_response port in
    let polled = write carriage_return read.1 in
    elim (read.0) [
      | [] ↦ elim tries [
        | zero ↦ some (c, polled)
        | suc left ↦ test_respond_loop fuel false left c polled
      ]
      | b ∷ s ↦ test_respond_loop fuel false 0 (sink_drive_response (b ∷ s) c) polled
    ]

-- `run_commands`: the queue that is left, `going`, the globals and the line.
unfoldable pub run_commands :
    ℕ
    → Bool
    → List Bytes
    → Bool
    → CommandTest
    → Port
    → Option (List Bytes × Bool × CommandTest × Port)
unfolding commanding_loop test_respond_loop
run_commands fuel use_simulations queue going c port =
    commanding_loop fuel use_simulations queue going c port >>= λ o.
    (let answered = test_respond_loop fuel use_simulations list_tries o.2 o.3 >>= λ r.
    some (o.0, o.1, r.0, r.1) in
      if o.1 then answered else some o)
