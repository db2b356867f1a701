-- ===== src/Message/Tests.antt =====
-- A message that is filled and parsed.
use robot_arm_2d.Message.{
  OutputMessage, new_message, append_data, max_tcp_message_size, service_of, dh_timer_event,
  action_undefined, action_override_all,
}
use robot_arm_2d.Message.Laws.{append_data_lem}
use robot_arm_2d.Prelude.{◌+◌, ◌≤◌, ◌<◌, ◌≡◌, ◌⊎◌, ◌++◌, refl, true, codes, length, arith}

timer_service : service_of (codes "TIM 5") action_undefined ≡ (dh_timer_event, action_override_all)
unfolding service_of robot_arm_2d.Text.Subst.starts_with
timer_service = refl

abbrev empty_message : OutputMessage
empty_message = new_message 0

append_data_lem_example :
    (length (append_data length (codes "ab") empty_message).1.message < max_tcp_message_size)
    × (((append_data length (codes "ab") empty_message).1.message
          ≡ empty_message.message ++ codes "ab")
        ⊎ (((append_data length (codes "ab") empty_message).1 ≡ empty_message)
            × (max_tcp_message_size ≤ length empty_message.message + length (codes "ab"))))
    × ((append_data length (codes "ab") empty_message).0 ≡ true)
append_data_lem_example = append_data_lem length (codes "ab") empty_message (omega arith)
