-- ===== src/Ui/Laws.antt =====
-- The queue of the commands that come from the user interface.
use robot_arm_2d.Prelude.{
  ℕ, zero, suc, ◌+◌, ◌-◌, ◌<◌, ◌≡◌, ◌≢◌, refl, ◌∙◌, Bool, true, false, List, [], ◌∷◌, ◌++◌, map,
  Option, none, some, arith, Bytes, codes, length, drop, replicate, leb, ◌==◌, All, inl, inr,
  Option-cases,
}
use robot_arm_2d.Prelude.Results.{
  Holds, Holds-then, Holds-if, Holds-some, Gives, gives, Gives-bind, Gives-if, Anything,
  Gives-result, Holds-then,
}
use robot_arm_2d.Text.Subst.{starts_with}
use robot_arm_2d.Ui.{
  Errno, eintr, ebadf, emsgsize, eagain, other_errno, Receipt, received, failed, Ui,
  response_buffer, input_buffer_size, Connection, c_text, handle_user_command, send_object,
  set_panel_parameters, ui_shutdown, command_from_ui_response_function,
}

c_text-replicate : (n : ℕ) → 0 < n → Gives Anything (c_text (replicate n 0))
unfolding c_text
c_text-replicate zero h = absurd (omega arith)
c_text-replicate (suc n) h = gives tt

drop-replicate : (n k : ℕ) → n < k → Gives Anything (c_text (drop n (replicate k 0)))
drop-replicate zero k h = c_text-replicate k h
drop-replicate (suc n) zero h = absurd (omega arith)
drop-replicate (suc n) (suc k) h = drop-replicate n k (omega arith)

-- The rest of a text with zeros behind it, from a place inside.
c_text-drop :
    (n : ℕ) (message : Bytes) (k : ℕ)
    → n < length message + k
    → 0 < k
    → Gives Anything (c_text (drop n (message ++ replicate k 0)))
unfolding c_text
c_text-drop n [] k h p = drop-replicate n k (omega arith)
c_text-drop zero (c ∷ message) k h p =
    Gives-if (c == 0) (λ e. gives tt)
      (λ e. Gives-bind (c_text-drop zero message k (omega arith) p) (λ _ _. gives tt))
c_text-drop (suc n) (c ∷ message) k h p = c_text-drop n message k (omega arith) p

-- The writer has been made.
abbrev pub HasWriter : Ui → Type 0
HasWriter ui = (ready : Bool) × (ui.writer ≡ some ready)

set_panel_parameters-HasWriter :
    (ui : Ui) → HasWriter ui → Gives HasWriter (set_panel_parameters ui)
unfolding set_panel_parameters
set_panel_parameters-HasWriter ui (_, e) = rw e (gives (true, refl))

ui_shutdown-HasWriter : (ui : Ui) → HasWriter ui → Gives HasWriter (ui_shutdown ui)
unfolding ui_shutdown
ui_shutdown-HasWriter ui (_, e) = rw e (gives (false, refl))

send_object-writer : (tmp : Bytes) (ui : Ui) → (send_object tmp ui).writer ≡ ui.writer
unfolding send_object robot_arm_2d.Ui.wait_acknowledge
send_object-writer tmp ui = elim (Option-cases (ui.tcp)) [
  | inl e ↦ rw (e, send_object) refl
  | inr (tcp, e) ↦ rw (e, send_object) refl
]

-- A message that leaves room for a NUL is handled.
handle_user_command_total :
    (message : Bytes) (ui : Ui)
    → length message < input_buffer_size
    → HasWriter ui
    → Gives HasWriter (handle_user_command (response_buffer message) ui)
unfolding handle_user_command response_buffer
handle_user_command_total message ui h made =
    let text =
      c_text-drop 6 message (input_buffer_size - length message) (omega arith) (omega arith) in
    Gives-if (starts_with (codes "PANEL:") (response_buffer message))
      (λ e.
        Gives-bind text
          (λ tmp _. set_panel_parameters-HasWriter (record ui { current_panel = tmp }) made))
      (λ e.
        Gives-if (starts_with (codes "HNGUP:") (response_buffer message))
          (λ e. ui_shutdown-HasWriter (record ui { current_panel = codes "MAIN" }) made)
          (λ e.
            Gives-if (starts_with (codes "OBJCT:") (response_buffer message))
              (λ e. Gives-bind text (λ tmp _. gives (made.0, send_object-writer _ ui ∙ made.1)))
              (λ e. Gives-bind text (λ _ _. gives made))))

-- The commands, one after the other.
pub data Handled : List Bytes → Ui → Ui → Type 0 where
  handled_all : {ui : Ui} → Handled [] ui ui
  handled_next :
      {message : Bytes} {messages : List Bytes} {ui ui₁ ui₂ : Ui}
      → handle_user_command (response_buffer message) ui ≡ some ui₁
      → Handled messages ui₁ ui₂
      → Handled (message ∷ messages) ui ui₂

-- The buffer has room for a message and its NUL.
abbrev pub FitsBuffer : Bytes → Type 0
FitsBuffer message = length message < input_buffer_size

pub ends_at_failure :
    (failure : Errno) (receipts : List Receipt) (ui : Ui)
    → failure ≢ ebadf
    → command_from_ui_response_function (failed failure ∷ receipts) ui ≡ some (receipts, ui)
unfolding command_from_ui_response_function
ends_at_failure eintr receipts ui h = refl
ends_at_failure ebadf receipts ui h = absurd (h refl)
ends_at_failure emsgsize receipts ui h = refl
ends_at_failure eagain receipts ui h = refl
ends_at_failure other_errno receipts ui h = refl

handles_next :
    (message : Bytes) (receipts : List Receipt) (ui ui₁ : Ui)
    → FitsBuffer message
    → handle_user_command (response_buffer message) ui ≡ some ui₁
    → command_from_ui_response_function (received message ∷ receipts) ui
      ≡ command_from_ui_response_function receipts ui₁
unfolding command_from_ui_response_function
handles_next message receipts ui ui₁ h e = rw (within, e) refl
  where
    within : leb (length message) input_buffer_size ≡ true
    within = ground arith

-- Where a writer has been made, and messages that leave room for a NUL in the buffer are followed
-- by a failure of mq_receive that is not EBADF, each message is handled to its end, in order, and
-- the loop ends there with the receipts behind the failure left: after an interruption, too.
pub command_from_ui-Handled :
    (messages : List Bytes) (failure : Errno) (receipts : List Receipt) (ui : Ui)
    → All FitsBuffer messages
    → failure ≢ ebadf
    → HasWriter ui
    → (ui' : Ui) × Handled messages ui ui'
      × (command_from_ui_response_function (map received messages ++ failed failure ∷ receipts) ui
          ≡ some (receipts, ui'))
command_from_ui-Handled [] failure receipts ui h k made =
    (ui, handled_all, ends_at_failure failure receipts ui k)
command_from_ui-Handled (message ∷ messages) failure receipts ui (h, hs) k made =
    let (ui₁, e, made₁) = Gives-result (handle_user_command_total message ui h made) in
    let (ui', steps, e') = command_from_ui-Handled messages failure receipts ui₁ hs k made₁ in
    (ui', handled_next e steps, handles_next message _ ui ui₁ h e ∙ e')

-- The reader and the writer agree, and without a panel the panel is the main one. Before there is a
-- writer the reader wants no data.
abbrev pub Agrees : Bool → Option Bool → Type 0
Agrees reader none = reader ≡ false
Agrees reader (some writer) = reader ≡ writer

abbrev pub IsShown : Ui → Type 0
IsShown ui =
    Agrees ui.reader_ready ui.writer × (ui.reader_ready ≡ false → ui.current_panel ≡ codes "MAIN")

abbrev ui_of : Bytes → Bool → Option Bool → Option Connection → Ui
ui_of panel reader writer tcp = record {
  current_panel = panel;
  reader_ready = reader;
  writer = writer;
  tcp = tcp;
}

send_object-IsShown :
    (tmp panel : Bytes) (reader : Bool) (writer : Option Bool) (tcp : Option Connection)
    → IsShown (ui_of panel reader writer tcp)
    → IsShown (send_object tmp (ui_of panel reader writer tcp))
unfolding send_object robot_arm_2d.Ui.wait_acknowledge
send_object-IsShown tmp panel reader writer none h = h
send_object-IsShown tmp panel reader writer (some tcp) h = h

set_panel_parameters-IsShown :
    (panel : Bytes) (reader : Bool) (writer : Option Bool) (tcp : Option Connection)
    → Holds IsShown (set_panel_parameters (ui_of panel reader writer tcp))
unfolding set_panel_parameters
set_panel_parameters-IsShown panel reader none tcp = tt
set_panel_parameters-IsShown panel reader (some ready) tcp = (refl, λ e. absurd (cc))

ui_shutdown-IsShown :
    (reader : Bool) (writer : Option Bool) (tcp : Option Connection)
    → Holds IsShown (ui_shutdown (ui_of (codes "MAIN") reader writer tcp))
unfolding ui_shutdown
ui_shutdown-IsShown reader none tcp = tt
ui_shutdown-IsShown reader (some ready) tcp = (refl, λ e. refl)

handle_user_command-IsShown :
    (buf : Bytes) (ui : Ui) → IsShown ui → Holds IsShown (handle_user_command buf ui)
unfolding handle_user_command
handle_user_command-IsShown buf ui h =
    Holds-if IsShown (starts_with (codes "PANEL:") buf) _ _
      (Holds-then IsShown (c_text (drop 6 buf)) _
        (λ tmp. set_panel_parameters-IsShown tmp ui.reader_ready ui.writer ui.tcp))
      (Holds-if IsShown (starts_with (codes "HNGUP:") buf) _ _
        (ui_shutdown-IsShown ui.reader_ready ui.writer ui.tcp)
        (Holds-if IsShown (starts_with (codes "OBJCT:") buf) _ _
          (Holds-then IsShown (c_text (drop 6 buf)) _
            (λ tmp. send_object-IsShown tmp ui.current_panel ui.reader_ready ui.writer ui.tcp h))
          (Holds-then IsShown (c_text (drop 6 buf)) _ (λ tmp. h))))

-- Whatever commands of the user interface are handled: the reader and the writer agree whether a
-- panel wants data, where a writer has been made, and none does before; and where none does the
-- current panel is MAIN, if that held before.
pub Handled-IsShown :
    {messages : List Bytes} {ui ui' : Ui} → Handled messages ui ui' → IsShown ui → IsShown ui'
Handled-IsShown handled_all h = h
Handled-IsShown (handled_next {ui} e steps) h =
    Handled-IsShown steps (Holds-some IsShown _ _ (handle_user_command-IsShown _ ui h) e)
