-- ===== src/Motor/Commands/Laws.antt =====
-- release/build/serialback.xpp: what run_motor_command_list writes, and run_commands in a simulation.
use robot_arm_2d.Motor.{MotorDriver, is_quit}
use robot_arm_2d.Motor.Commands.{
  list_tries, write_all, run_motor_command_list, CommandTest, test_respond_loop, run_commands,
}
use robot_arm_2d.Motor.Serial.{Port, carriage_return, command, write}
use robot_arm_2d.Motor.Transcript.{popped, Answered, last_response}
use robot_arm_2d.Motor.Responds.{Responds, respond_loop-Responds}
use robot_arm_2d.Prelude.{
  ℕ, zero, suc, ◌+◌, ◌≡◌, refl, ap, ◌∙◌, true, List, [], ◌∷◌, ◌++◌, append_assoc, append-nil,
  Option, none, some, arith, Bytes, length, replicate, Bool-cases, inl, inr, if◌then◌else◌, Bool,
  ◌&&◌, not,
}

-- The writes for a queue: each command with its carriage return.
abbrev pub lines_of : List Bytes → List Bytes
lines_of [] = []
lines_of (text ∷ texts) = text ∷ carriage_return ∷ lines_of texts

write_all-eq :
    (queue : List Bytes) (port : Port)
    → write_all queue port ≡ record port { written = port.written ++ lines_of queue }
unfolding write_all command write
write_all-eq [] port = rw append-nil refl
write_all-eq (text ∷ queue) port =
    write_all-eq queue (command text port)
    ∙ ap (λ w. record port { written = w })
        (append_assoc (port.written ++ text ∷ []) (carriage_return ∷ []) (lines_of queue)
          ∙ append_assoc port.written (text ∷ []) (carriage_return ∷ lines_of queue))

module _ {ℓ} {D : Type ℓ} where
  -- What sending the whole queue comes to.
  abbrev pub Sends : MotorDriver D → Port → Option (MotorDriver D × Port) → Type 0
  Sends md port none = ⊥
  Sends md port (some (md', port')) =
      (looks : ℕ) × (answers : List Bytes) × (port'.written
        ≡ port.written ++ (lines_of md.short_command_list ++ replicate looks carriage_return))
      × Answered list_tries port.polls looks answers port'.polls
      × (md'.response ≡ last_response md.response answers)
      × (md'.short_command_list ≡ [])
      × (md'.parameters ≡ md.parameters)
      × (md'.index_str ≡ md.index_str)

  Responds-Sends :
      (md : MotorDriver D) (port : Port) (o : Option (MotorDriver D × Port))
      → Responds list_tries
          (popped md [])
          port.polls
          (port.written ++ lines_of md.short_command_list)
          o
      → Sends md port o
  Responds-Sends md port none h = h
  Responds-Sends md port (some (md', port')) (looks, answers, w, heard, r, same) = (
    looks,
    answers,
    w
        ∙ append_assoc port.written (lines_of md.short_command_list)
            (replicate looks carriage_return),
    heard,
    r,
    ap (λ k. k.short_command_list) same.0,
    ap (λ k. k.parameters) same.0,
    same.1,
  )

  -- `run_motor_command_list` ends, whatever the line answers. It has written every queued command
  -- with its carriage return, in their order, and then one carriage return for each look at the
  -- responses: first looks that find nothing, at most five, then looks that each find an answer,
  -- and one that finds nothing; without an answer there are five and one. The answers are what the
  -- line has at these looks, and the last one is the motor's response, which stays as it was if
  -- there is none. The queue is empty then; the parameters and the index are as they were.
  pub run_motor_command_list-Sends :
      (md : MotorDriver D) (port : Port) → Sends md port (run_motor_command_list md port)
  unfolding run_motor_command_list
  run_motor_command_list-Sends md port =
      let sent : Port = record port { written = port.written ++ lines_of md.short_command_list } in
      rw (write_all-eq md.short_command_list port) (
        Responds-Sends md port _
          (respond_loop-Responds (length port.polls + 6) 5 (popped md []) sent (omega arith)))

test_respond_loop-endless :
    (fuel tries : ℕ) (c : CommandTest) (port : Port)
    → test_respond_loop fuel true tries c port ≡ none
unfolding test_respond_loop
test_respond_loop-endless zero tries c port = refl
test_respond_loop-endless (suc fuel) tries c port = test_respond_loop-endless fuel 0 c port

-- In a simulation `run_commands` on a queued command comes back at once where `going` is false or
-- the command begins with `q`, with the queue behind it, with `going` false and with the line as it
-- was; else it does not come back: no fuel is enough.
pub run_commands-simulated :
    (fuel : ℕ) (text : Bytes) (queue : List Bytes) (going : Bool) (c : CommandTest) (port : Port)
    → run_commands (suc fuel) true (text ∷ queue) going c port ≡ (
        if going && not (is_quit text)
        then none
        else some (queue, going && not (is_quit text), c, port))
unfolding run_commands
run_commands-simulated fuel text queue going c port =
    elim (Bool-cases (going && not (is_quit text))) [
      | inl e ↦ rw e (rw (test_respond_loop-endless (suc fuel) list_tries c port) refl)
      | inr e ↦ rw e refl
    ]
