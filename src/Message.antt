-- ===== src/Message.antt =====
-- release/common/parameters.h: OutputMessage; release/build/program_parameters.cpp:
-- extract_service_type and parse_data.
pub mod Laws
mod Tests
use robot_arm_2d.Prelude.{
  List, [], ◌∷◌, ℕ, ◌+◌, ◌-◌, ◌<◌, Bool, true, false, [], ◌∷◌, ◌++◌, Option, none, some, ◌>>=◌,
  Bytes, codes, length, drop, ltb, leb, ◌==◌, if◌then◌else◌,
}
use robot_arm_2d.Text.QuasiUrl.{quasi_url_decode}
use robot_arm_2d.Text.Subst.{starts_with}

-- data_handler_event_type
pub data EventType : Type 0 where
  dh_critical_error_event : EventType
  dh_timer_event : EventType
  dh_fast_gauge_event : EventType
  dh_fast_panel_change : EventType
  dh_slow_gauge_event : EventType
  dh_error_event : EventType
  dh_status_on_demand : EventType
  dh_state_report : EventType
  dh_panel_change : EventType
  dh_panel_simple_message : EventType
  dh_client_control_click : EventType
  dh_client_control_slide : EventType
  dh_client_control_set_max : EventType
  dh_client_control_set_min : EventType
  dh_client_control_dismiss : EventType
  max_data_handler_events : EventType

-- action_type
pub data ActionType : Type 0 where
  action_panel : ActionType
  action_ajax : ActionType
  action_fast_control : ActionType
  action_override_all : ActionType
  action_undefined : ActionType
  action_needs_actuation : ActionType
  action_needs_set_value : ActionType
  action_needs_report : ActionType
  action_needs_abort : ActionType
  action_max_action_types : ActionType

-- The conversions to `int`.
abbrev pub event_number : EventType → ℕ
event_number dh_critical_error_event = 0
event_number dh_timer_event = 1
event_number dh_fast_gauge_event = 2
event_number dh_fast_panel_change = 3
event_number dh_slow_gauge_event = 4
event_number dh_error_event = 5
event_number dh_status_on_demand = 6
event_number dh_state_report = 7
event_number dh_panel_change = 8
event_number dh_panel_simple_message = 9
event_number dh_client_control_click = 10
event_number dh_client_control_slide = 11
event_number dh_client_control_set_max = 12
event_number dh_client_control_set_min = 13
event_number dh_client_control_dismiss = 14
event_number max_data_handler_events = 15

abbrev pub action_number : ActionType → ℕ
action_number action_panel = 0
action_number action_ajax = 1
action_number action_fast_control = 2
action_number action_override_all = 3
action_number action_undefined = 4
action_number action_needs_actuation = 5
action_number action_needs_set_value = 6
action_number action_needs_report = 7
action_number action_needs_abort = 8
action_number action_max_action_types = 9

-- MAX_TCP_MESSAGE_SIZE
abbrev pub max_tcp_message_size : ℕ
max_tcp_message_size = 64_000

-- `message` is the first `msg_len` bytes, and `tv_sec` and `tv_nsec` are those of `abs_timeout`.
pub record OutputMessage : Type 0 where
  pub service_type : EventType
  pub action : ActionType
  pub message : Bytes
  pub panel : Bytes
  pub expected_length : ℕ
  pub priority : ℕ
  pub tv_sec : ℕ
  pub tv_nsec : ℕ
  pub hit_count : ℕ
  pub source_string : Bytes

-- The constructor; `junk` is what `expected_length` holds.
abbrev pub new_message : ℕ → OutputMessage
new_message junk = record {
  service_type = max_data_handler_events;
  action = action_undefined;
  message = [];
  panel = codes "PANEL";
  expected_length = junk;
  priority = 0;
  tv_sec = 0;
  tv_nsec = 0;
  hit_count = 0;
  source_string = [];
}

-- The constructor from another message. It takes the data and the source over, and leaves the panel,
-- the priority and the number of hits as the storage had them, which `junk` stands for.
unfoldable pub copy_message : OutputMessage → OutputMessage → OutputMessage
copy_message junk message = record {
  service_type = max_data_handler_events;
  action = action_undefined;
  message = message.message;
  panel = junk.panel;
  expected_length = message.expected_length;
  priority = junk.priority;
  tv_sec = 0;
  tv_nsec = 0;
  hit_count = junk.hit_count;
  source_string = message.source_string;
}

unfoldable pub set_source : Bytes → Bytes → OutputMessage → OutputMessage
set_source s1 s2 m = record m { source_string = s1 ++ codes ":" ++ s2 }

-- `append_data`: what does not fit is dropped, and the answer is true all the same. The first data
-- tell the expected length.
unfoldable pub append_data : (Bytes → ℕ) → Bytes → OutputMessage → Bool × OutputMessage
append_data calc_expected_length text m =
    if ltb (length m.message + length text) max_tcp_message_size
    then (
      true,
      record m {
        message = m.message ++ text;
        expected_length =
            if length m.message == 0 then calc_expected_length text else m.expected_length;
      },
    )
    else (true, m)

unfoldable pub clear_data : OutputMessage → OutputMessage
clear_data m = record m { message = [] }

-- The table of `extract_service_type`.
unfoldable pub service_of : Bytes → ActionType → EventType × ActionType
service_of tmp action =
    if starts_with (codes "CEE") tmp
    then (dh_critical_error_event, action_override_all)
    else if starts_with (codes "TIM") tmp
    then (dh_timer_event, action_override_all)
    else if starts_with (codes "FGE") tmp
    then (dh_fast_gauge_event, action_fast_control)
    else if starts_with (codes "FPC") tmp
    then (dh_fast_panel_change, action_fast_control)
    else if starts_with (codes "SGE") tmp
    then (dh_slow_gauge_event, action_panel)
    else if starts_with (codes "EEV") tmp
    then (dh_error_event, action_ajax)
    else if starts_with (codes "SOD") tmp
    then (dh_status_on_demand, action_ajax)
    else if starts_with (codes "SRP") tmp
    then (dh_state_report, action_panel)
    else if starts_with (codes "PAN") tmp
    then (dh_panel_change, action_panel)
    else (max_data_handler_events, action)

-- `extract_service_type`, and the text behind the first four characters. `none` means that the text
-- ends before them.
unfoldable pub extract_service_type : Bytes → OutputMessage → Option (Bytes × OutputMessage)
unfolding service_of
extract_service_type tmp m =
    let service = service_of tmp m.action in
    if leb 4 (length tmp)
    then some (drop 4 tmp, record m { service_type = service.0; action = service.1 })
    else none

-- `parse_data`; the priority is 20 less the service's number, and the action's number more.
unfoldable pub parse_message : Bytes → OutputMessage → Option OutputMessage
unfolding extract_service_type
parse_message text m = quasi_url_decode text >>= λ tmp.
    (extract_service_type tmp m >>= λ r.
    if leb max_tcp_message_size (length r.0)
    then none
    else some (record (r.1) {
      message = r.0;
      priority = 20 - event_number r.1.service_type + action_number r.1.action;
    }))

-- `status_message`: what is written to `cerr` so far, and the message if the reporter is noisy.
unfoldable pub status_message : Bool → Bytes → List Bytes → List Bytes
status_message noisy message_command written =
    if noisy then written ++ message_command ∷ [] else written
