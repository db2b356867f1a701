-- ===== src/Message/Laws.antt =====
-- The bounds of a message.
use robot_arm_2d.Message.{OutputMessage, append_data, max_tcp_message_size}
use robot_arm_2d.Prelude.{
  ℕ, ◌+◌, ◌≤◌, ◌<◌, ◌≡◌, ◌⊎◌, refl, true, inl, inr, ◌++◌, arith, Bytes, length, length-append, ltb,
  Bool-cases,
}

-- `append_data` keeps the message shorter than its buffer: it writes all of the data behind what
-- was there, or, where the two would fill the buffer, nothing at all. The answer is true either
-- way.
pub append_data_lem :
    (calc_expected_length : Bytes → ℕ) (text : Bytes) (m : OutputMessage)
    → length m.message < max_tcp_message_size
    → (length (append_data calc_expected_length text m).1.message < max_tcp_message_size)
      × (((append_data calc_expected_length text m).1.message ≡ m.message ++ text)
          ⊎ (((append_data calc_expected_length text m).1 ≡ m)
              × (max_tcp_message_size ≤ length m.message + length text)))
      × ((append_data calc_expected_length text m).0 ≡ true)
unfolding append_data
append_data_lem calc_expected_length text m h =
    elim (Bool-cases (ltb (length m.message + length text) max_tcp_message_size)) [
      | inl e ↦ rw e (fits e, inl refl, refl)
      | inr e ↦ rw e (h, inr (refl, ground arith), refl)
    ]
  where
    fits :
        ltb (length m.message + length text) max_tcp_message_size ≡ true
        → length (m.message ++ text) < max_tcp_message_size
    fits e = rw (length-append m.message text) (ground arith)
