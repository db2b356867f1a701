-- ===== src/Ui/Tests.antt =====
-- Commands of the user interface at concrete messages.
use robot_arm_2d.Prelude.{
  ◌≡◌, ◌≢◌, refl, arith, false, List, [], ◌∷◌, ◌++◌, map, none, some, Bytes, codes, replicate,
}
use robot_arm_2d.Ui.{
  Errno, eintr, ebadf, eagain, Receipt, received, failed, Ui, new_ui,
  command_from_ui_response_function, clear_out_queue, c_text,
}
use robot_arm_2d.Ui.Laws.{
  Handled, handled_all, handled_next, IsShown, command_from_ui-Handled, Handled-IsShown,
}

abbrev connected : Ui
connected = new_ui (some (record { sent = []; answers = some (codes "OK") ∷ [] }))

-- A panel and a command for the device; the interruption leaves the last message in the queue.
abbrev typed_commands : List Bytes
typed_commands = codes "PANEL:arm" ∷ codes "OBJCT:home" ∷ []

eintr_is_no_ebadf : eintr ≢ ebadf
eintr_is_no_ebadf e = absurd (cc)

command_from_ui-Handled_example :
    (ui' : Ui) × Handled typed_commands connected ui'
    × (command_from_ui_response_function
          (map received typed_commands ++ failed eintr ∷ received (codes "HNGUP:") ∷ [])
          connected
        ≡ some (received (codes "HNGUP:") ∷ [], ui'))
command_from_ui-Handled_example =
    command_from_ui-Handled typed_commands eintr (received (codes "HNGUP:") ∷ []) connected
      (omega arith, (omega arith, tt)) eintr_is_no_ebadf (false, refl)

panel_then_hangup : (ui' : Ui) × Handled (codes "PANEL:arm" ∷ codes "HNGUP:" ∷ []) connected ui'
unfolding robot_arm_2d.Ui.handle_user_command robot_arm_2d.Ui.response_buffer robot_arm_2d.Ui.c_text
    robot_arm_2d.Ui.set_panel_parameters robot_arm_2d.Ui.ui_shutdown
    robot_arm_2d.Text.Subst.starts_with
panel_then_hangup = (_, handled_next refl (handled_next refl handled_all))

Handled-IsShown_example : IsShown panel_then_hangup.0
Handled-IsShown_example = Handled-IsShown panel_then_hangup.1 (refl, λ e. refl)

short_message : c_text (codes "home" ++ replicate 2 0) ≡ some (codes "home")
unfolding c_text
short_message = refl

long_message : clear_out_queue (received (replicate 300 7) ∷ failed eagain ∷ []) ≡ none
unfolding clear_out_queue
long_message = refl
