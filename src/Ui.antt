-- ===== src/Ui.antt =====
-- release/build/uiinterfacethread.cpp: command_from_ui_response_function, clear_out_queue,
-- UIInterfaceReaderThread, and the messages that UIInterfaceWriterThread puts into the queue. The calls
-- of mq_getattr are taken to succeed.
pub mod Laws
pub mod Queue
mod Tests
use robot_arm_2d.Message.{OutputMessage, action_panel, action_fast_control}
use robot_arm_2d.Prelude.{
  ℕ, ◌+◌, ◌-◌, Bool, true, false, List, [], ◌∷◌, ◌++◌, Option, none, some, ◌>>=◌, Bytes, codes,
  length, drop, replicate, leb, ◌==◌, if◌then◌else◌,
}
use robot_arm_2d.Text.Subst.{starts_with}

-- The values of `errno` that the loops tell apart.
pub data Errno : Type 0 where
  eintr ebadf emsgsize eagain other_errno : Errno

-- What a call of mq_receive gives: a message, or -1 and `errno`.
pub data Receipt : Type 0 where
  received : Bytes → Receipt
  failed : Errno → Receipt

-- `TCPStream`: the lines that were sent, and for each wait for an answer what comes in.
pub record Connection : Type 0 where
  pub sent : List Bytes
  pub answers : List (Option Bytes)

-- sg_current_panel, `_tcp` and `_ui_ready_for_data` of the reader, and g_user_interface_writer_thread:
-- NULL, or a writer with its `_ui_ready_for_data`.
pub record Ui : Type 0 where
  pub current_panel : Bytes
  pub reader_ready : Bool
  pub writer : Option Bool
  pub tcp : Option Connection

-- The state behind the constructors of the reader and of the writer.
abbrev pub new_ui : Option Connection → Ui
new_ui tcp = record {
  current_panel = codes "MAIN";
  reader_ready = false;
  writer = some false;
  tcp = tcp;
}

-- INPUT_BUFFER_SIZE
abbrev pub input_buffer_size : ℕ
input_buffer_size = 2048

-- The buffer is cleared before a message is written into it.
unfoldable pub response_buffer : Bytes → Bytes
response_buffer message = message ++ replicate (input_buffer_size - length message) 0

-- The text at a pointer into a buffer, up to its NUL. Without one the text runs out of the buffer.
unfoldable pub c_text : Bytes → Option Bytes
c_text [] = none
c_text (c ∷ buf) =
    let rest = c_text buf in if c == 0 then some [] else (rest >>= λ text. some (c ∷ text))

-- The next answer is read and dropped, if one comes.
unfoldable pub wait_acknowledge : Ui → Bool × Ui
wait_acknowledge ui = elim (ui.tcp) [
  | none ↦ (false, ui)
  | some tcp ↦ (true, record ui { tcp = some (record tcp { answers = drop 1 tcp.answers }) })
]

-- `none` stands for the use of a writer that is NULL.
unfoldable pub set_panel_parameters : Ui → Option Ui
set_panel_parameters ui = elim (ui.writer) [
  | none ↦ none
  | some _ ↦ some (record ui { reader_ready = true; writer = some true })
]

unfoldable pub ui_shutdown : Ui → Option Ui
ui_shutdown ui = elim (ui.writer) [
  | none ↦ none
  | some _ ↦ some (record ui { reader_ready = false; writer = some false })
]

unfoldable pub command_transformer : Bytes → Bytes
command_transformer tmp = tmp

-- `*_tcp << tmp << endl`, and the wait for the answer.
unfoldable pub send_object : Bytes → Ui → Ui
unfolding wait_acknowledge
send_object tmp ui = elim (ui.tcp) [
  | none ↦ ui
  | some tcp ↦
      (wait_acknowledge (record ui { tcp = some (record tcp { sent = tcp.sent ++ tmp ∷ [] }) })).1
]

unfoldable pub handle_user_command : Bytes → Ui → Option Ui
unfolding set_panel_parameters ui_shutdown command_transformer send_object
handle_user_command buf ui =
    if starts_with (codes "PANEL:") buf
    then (c_text (drop 6 buf) >>= λ tmp. set_panel_parameters (record ui { current_panel = tmp }))
    else if starts_with (codes "HNGUP:") buf
    then ui_shutdown (record ui { current_panel = codes "MAIN" })
    else if starts_with (codes "OBJCT:") buf
    then (c_text (drop 6 buf) >>= λ tmp. some (send_object (command_transformer tmp) ui))
    else (c_text (drop 6 buf) >>= λ tmp. some ui)

-- `while ( nr > -1 ) { … }`, with the receipts that are left. `continue` goes to the test of an `nr`
-- that is -1, so that every failure ends the loop. `none` stands for die, for a writer that is NULL,
-- for a message that is written over the buffer's end, and for receipts that do not tell what comes next.
unfoldable pub command_from_ui_response_function : List Receipt → Ui → Option (List Receipt × Ui)
unfolding handle_user_command response_buffer
command_from_ui_response_function [] ui = none
command_from_ui_response_function (failed ebadf ∷ receipts) ui = none
command_from_ui_response_function (failed eintr ∷ receipts) ui = some (receipts, ui)
command_from_ui_response_function (failed emsgsize ∷ receipts) ui = some (receipts, ui)
command_from_ui_response_function (failed eagain ∷ receipts) ui = some (receipts, ui)
command_from_ui_response_function (failed other_errno ∷ receipts) ui = some (receipts, ui)
command_from_ui_response_function (received message ∷ receipts) ui =
    if leb (length message) input_buffer_size
    then (handle_user_command (response_buffer message) ui >>= λ ui'.
        command_from_ui_response_function receipts ui')
    else none

-- The messages from before the start are read into 256 bytes and dropped.
unfoldable pub clear_out_queue : List Receipt → Option (List Receipt)
clear_out_queue [] = none
clear_out_queue (failed ebadf ∷ receipts) = none
clear_out_queue (failed eintr ∷ receipts) = some receipts
clear_out_queue (failed emsgsize ∷ receipts) = some receipts
clear_out_queue (failed eagain ∷ receipts) = some receipts
clear_out_queue (failed other_errno ∷ receipts) = some receipts
clear_out_queue (received message ∷ receipts) =
    let rest = clear_out_queue receipts in if leb (length message) 256 then rest else none

-- `data_queue_writer`, which writes only where the panel wants data, as the writer's `_ui_ready_for_data` tells: `now` is the time in seconds, and
-- `accepted` tells whether mq_timedsend puts the message into the queue. The seconds are added to those
-- of the message.
unfoldable pub data_queue_writer :
    ℕ → Bool → OutputMessage → List OutputMessage → Bool → Bool × OutputMessage × List OutputMessage
data_queue_writer now accepted om queue ui_ready =
    let timed : OutputMessage = record om { tv_sec = om.tv_sec + (now + 5); tv_nsec = 1500 } in
    if ui_ready
    then (if accepted then (true, timed, queue ++ timed ∷ []) else (false, timed, queue))
    else (true, om, queue)

unfoldable pub data_ready_to_ui :
    ℕ → Bool → OutputMessage → List OutputMessage → Bool → Bool × OutputMessage × List OutputMessage
unfolding data_queue_writer
data_ready_to_ui now accepted om queue ui_ready =
    data_queue_writer now accepted (record om { action = action_panel }) queue ui_ready

unfoldable pub alert_to_ui :
    ℕ → Bool → OutputMessage → List OutputMessage → Bool → Bool × OutputMessage × List OutputMessage
unfolding data_queue_writer
alert_to_ui now accepted om queue ui_ready =
    data_queue_writer now accepted (record om { action = action_fast_control }) queue ui_ready
