-- ===== src/Ui/Queue.antt =====
-- release/build/uiinterfacethread.cpp and .h: the opening of the queue of the user interface, and the
-- start of UIInterfaceReaderThread. What mq_open and mq_notify give are arguments.
use robot_arm_2d.Prelude.{
  ℕ, Bool, true, false, List, [], ◌++◌, Option, none, some, ◌>>=◌, Bytes, codes, if◌then◌else◌,
}
use robot_arm_2d.StdMap.{StdMap, at}
use robot_arm_2d.Stream.{initialize_tcp}
use robot_arm_2d.Ui.{Receipt, clear_out_queue}

-- What a step ends with: `die(msg)`, which throws, or a result.
pub data Outcome {ℓ} (A : Type ℓ) : Type ℓ where
  died : Bytes → Outcome A
  goes : A → Outcome A

-- `_queue_name`, `_mq_io`, and whether the notifier is set.
pub record QueueReader : Type 0 where
  pub queue_name : Bytes
  pub mq_io : ℕ
  pub notified : Bool

-- `initialize_queue`. The text with the reason is put together and dropped: die gets the name alone.
unfoldable pub initialize_queue : (Bytes → Option ℕ) → Bytes → Outcome QueueReader
initialize_queue mq_open q_name = elim (mq_open (codes "/" ++ q_name)) [
  | none ↦ died q_name
  | some mq ↦ goes (record { queue_name = q_name; mq_io = mq; notified = false })
]

-- `reset_notifier`, with the same loss.
unfoldable pub reset_notifier : (ℕ → Bool) → QueueReader → Outcome QueueReader
reset_notifier mq_notify q =
    if mq_notify q.mq_io then goes (record q { notified = true }) else died q.queue_name

-- The parameters that `initialize_tcp` and then the constructor of the reader look up; a key that is
-- missing is put in.
unfoldable pub reader_parameters : StdMap Bytes → Bytes × StdMap Bytes
unfolding at
reader_parameters server_parameters =
    at (codes "UI_READER_QUEUE") []
      (at (codes "port") [] (at (codes "address") [] server_parameters).1).1

-- The constructor of UIInterfaceReaderThread: the connection, and then the queue. `none` means that the
-- wait for the connection goes on.
unfoldable pub new_reader :
    Bool
    → Bool
    → List Bool
    → (Bytes → Option ℕ)
    → StdMap Bytes
    → Option (StdMap Bytes × Outcome QueueReader)
unfolding reader_parameters initialize_queue initialize_tcp
new_reader use_simulations tcp_with_simulation attempts mq_open server_parameters =
    initialize_tcp use_simulations tcp_with_simulation attempts >>= λ connected.
    let looked_up = reader_parameters server_parameters in
    some (looked_up.1, initialize_queue mq_open looked_up.0)

-- `start`: the messages from before go, and the notifier is set.
unfoldable pub start :
    (ℕ → Bool) → List Receipt → QueueReader → Option (List Receipt × Outcome QueueReader)
unfolding clear_out_queue reset_notifier
start mq_notify receipts q =
    clear_out_queue receipts >>= λ rest. some (rest, reset_notifier mq_notify q)
