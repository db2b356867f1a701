-- ===== src/Stream.antt =====
-- release/build/uiinterfacethread.cpp: is_header, emit_record and UIInterfaceWriterThread::run, which
-- puts the records of the camera's reports together from the texts that the socket delivers.
pub mod Records
pub mod Messages
mod Tests
use robot_arm_2d.Message.{EventType, max_data_handler_events, max_tcp_message_size}
use robot_arm_2d.Prelude.{
  ℕ, zero, suc, Bool, true, false, ◌&&◌, List, [], ◌∷◌, ◌++◌, Option, none, some, Bytes, codes,
  length, ltb, ◌==◌, if◌then◌else◌,
}
use robot_arm_2d.Text.Chars.{isalpha}
use robot_arm_2d.Text.Split.{cut_at}
use robot_arm_2d.Text.Trim.{trim_string}

-- `token[i]`: at the end of the text it is NUL. (`is_header` also reads behind the NUL of a text of
-- less than two characters; its answer does not depend on what stands there.)
abbrev pub char_at : Bytes → ℕ → ℕ
char_at [] i = 0
char_at (c ∷ s) zero = c
char_at (c ∷ s) (suc i) = char_at s i

-- A header is two letters and an underscore.
unfoldable pub is_header : Bytes → Bool
is_header token =
    isalpha (char_at token 0) && isalpha (char_at token 1) && (char_at token 2 == b'_')

-- The fields of the thread that `run` works with.
pub record WriterThread : Type 0 where
  pub running : Bool
  pub previous_partial : Bytes
  pub found_header : Bool

-- The constructor.
abbrev pub new_thread : WriterThread
new_thread = record { running = false; previous_partial = []; found_header = false }

-- `initialize_tcp`: a simulation without TCP opens no connection; else the connection is tried until
-- it is there. `attempts` tells how the tries end; `none` means that the wait goes on behind them.
unfoldable pub initialize_tcp : Bool → Bool → List Bool → Option Bool
initialize_tcp true false attempts = some false
initialize_tcp use_simulations tcp_with_simulation [] = none
initialize_tcp use_simulations tcp_with_simulation (true ∷ attempts) = some true
initialize_tcp use_simulations tcp_with_simulation (false ∷ attempts) =
    initialize_tcp use_simulations tcp_with_simulation attempts

-- What a wait of 20 seconds on the socket finds; `none` stands for a `_tcp` that is NULL.
abbrev pub Socket : Type 0
Socket = Option (Option Bytes)

-- `wait_on_data`: nothing where nothing comes in. A simulation without a connection makes a report up.
unfoldable pub wait_on_data : Bool → Socket → Bytes
wait_on_data use_simulations (some none) = []
wait_on_data use_simulations (some (some server_input)) = server_input
wait_on_data true none = codes "MT_ABC,3.9,4.9,(5.9,10),9.0,0.123"
wait_on_data false none = []

-- `wait_on_data_event`: what the message's text is behind it, and the number of the event, which
-- nothing sets. `none` stands for a text that runs over the message's end.
unfoldable pub wait_on_data_event : Bool → Socket → Bytes → Option (Bytes × EventType)
wait_on_data_event use_simulations (some none) message = some (message, max_data_handler_events)
wait_on_data_event use_simulations (some (some server_input)) message =
    if ltb (length server_input) max_tcp_message_size
    then some (server_input, max_data_handler_events)
    else none
wait_on_data_event true none message =
    some (codes "MT_ABC,3.9,4.9,(5.9,10),9.0,0.123", max_data_handler_events)
wait_on_data_event false none message = some (message, max_data_handler_events)

-- `completion`, without the socket.
unfoldable pub completion : WriterThread → WriterThread
completion w = record w { running = false }

-- One token: the thread behind it, and the records that were emitted.
unfoldable pub take_token : WriterThread → Bytes → WriterThread × List Bytes
take_token w token =
    if is_header token
    then (
      record w { previous_partial = token; found_header = true },
      if w.found_header then w.previous_partial ∷ [] else [],
    )
    else if w.found_header
    then (record w { previous_partial = w.previous_partial ++ (codes "," ++ token) }, [])
    else (w, [])

-- `data.substr(0,data.find(','))`, and what `data` becomes.
unfoldable pub next_token : Bytes → Bytes × Bytes
unfolding cut_at
next_token text = elim (cut_at b',' text) [ none ↦ (text, []) | some (a, b) ↦ (a, b) ]

-- `while ( data.size() > 0 ) { … }`; `none` means that the fuel ran out.
unfoldable pub token_loop : ℕ → WriterThread → Bytes → Option (WriterThread × List Bytes)
token_loop fuel w [] = some (w, [])
token_loop zero w (c ∷ s) = none
token_loop (suc fuel) w (c ∷ s) =
    let pair = next_token (c ∷ s) in
    let one = take_token w pair.0 in
    elim (token_loop fuel one.0 pair.1) [ none ↦ none | some (w', rest) ↦ some (w', one.1 ++ rest) ]

-- `if ( data[data.size()-1] == ',' ) data = data.substr(0,data.size()-1)`
unfoldable pub drop_comma : Bytes → Bytes
drop_comma [] = []
drop_comma (c ∷ []) = if c == b',' then [] else c ∷ []
drop_comma (c ∷ d ∷ s) = c ∷ drop_comma (d ∷ s)

-- The body of `while ( _running )` on the text that `wait_on_data` returns.
unfoldable pub take_data : WriterThread → Bytes → Option (WriterThread × List Bytes)
take_data w text = let tokens = drop_comma (trim_string text) in token_loop (length tokens) w tokens

-- `run` on the texts that arrive before the thread is stopped.
unfoldable pub run : WriterThread → List Bytes → Option (WriterThread × List Bytes)
run w [] = some (w, [])
run w (text ∷ texts) = elim (take_data w text) [
  | none ↦ none
  | some (w', first) ↦ elim (run w' texts) [
    | none ↦ none
    | some (w'', rest) ↦ some (w'', first ++ rest)
  ]
]

-- `emit_record`: the key and the report that go to the target. Without a comma both are the record.
unfoldable pub emit_record : Bytes → Bytes × Bytes
unfolding cut_at
emit_record record_text = elim (cut_at b',' record_text) [
  | none ↦ (record_text, record_text)
  | some (a, b) ↦ (a, b)
]
