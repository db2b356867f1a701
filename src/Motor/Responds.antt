-- ===== src/Motor/Responds.antt =====
-- release/build/serialback.xpp: reading the responses behind a command ends, and what it reads.
use robot_arm_2d.Motor.Serial.{Port, carriage_return, write, take_bytes, read_response}
use robot_arm_2d.Motor.{MotorDriver, handle_command_response, respond_loop}
use robot_arm_2d.Prelude.{
  ℕ, zero, suc, ◌+◌, ◌≤◌, ◌<◌, ◌≡◌, ◌≢◌, refl, ◌∙◌, inl, inr, List, [], ◌∷◌, ◌++◌, append_assoc,
  Option, none, some, arith, Bytes, length, replicate, ap, ◌==◌, Bool-cases,
}
use robot_arm_2d.Motor.Transcript.{
  Looked, all_read, none_there, line_ended, byte_read, over, look, Answered, last_response,
}

take_bytes-Looked :
    (polls : List (Option ℕ)) → Looked polls (take_bytes polls).0 (take_bytes polls).1
unfolding take_bytes
take_bytes-Looked [] = all_read
take_bytes-Looked (none ∷ polls) = none_there
take_bytes-Looked (some b ∷ polls) = elim (Bool-cases (b == b'\r')) [
  | inl e ↦ rw e (line_ended e)
  | inr e ↦ rw e (byte_read e (take_bytes-Looked polls))
]

take_bytes-length :
    (polls : List (Option ℕ))
    → (length (take_bytes polls).1 ≤ length polls)
      × ((take_bytes polls).0 ≢ [] → length (take_bytes polls).1 < length polls)
unfolding take_bytes
take_bytes-length [] = (omega arith, λ h. absurd (h refl))
take_bytes-length (none ∷ polls) = (omega arith, λ h. absurd (h refl))
take_bytes-length (some b ∷ polls) = elim (Bool-cases (b == b'\r')) [
  | inl e ↦ rw e (omega arith, λ _. omega arith)
  | inr e ↦
      rw e (
        omega (arith, (take_bytes-length polls).0),
        λ _. omega (arith, (take_bytes-length polls).0),
      )
]

module _ {ℓ} {D : Type ℓ} where
  -- The motor's queue and parameters, and its index, are as they were.
  abbrev pub SameQueue : MotorDriver D → MotorDriver D → Type 0
  SameQueue md md' = (md'.sink ≡ md.sink) × (md'.index_str ≡ md.index_str)

  handle-SameQueue :
      (text : Bytes) (md : MotorDriver D) → SameQueue md (handle_command_response text md)
  unfolding handle_command_response
  handle-SameQueue text md = ground arith

  handle-response :
      (text : Bytes) (md : MotorDriver D) → (handle_command_response text md).response ≡ text
  unfolding handle_command_response
  handle-response text md = ground arith

  -- What reading the responses comes to, from what is to come and what has been written.
  abbrev pub Responds :
      ℕ → MotorDriver D → List (Option ℕ) → List Bytes → Option (MotorDriver D × Port) → Type 0
  Responds tries md polls written none = ⊥
  Responds tries md polls written (some (md', port)) =
      (looks : ℕ) × (answers : List Bytes) × (port.written
        ≡ written ++ replicate looks carriage_return)
      × Answered tries polls looks answers port.polls
      × (md'.response ≡ last_response md.response answers)
      × SameQueue md md'

  Responds-silent :
      (left : ℕ) (md : MotorDriver D) (polls between : List (Option ℕ)) (written : List Bytes)
      (o : Option (MotorDriver D × Port))
      → Looked polls [] between
      → Responds left md between (written ++ carriage_return ∷ []) o
      → Responds (suc left) md polls written o
  Responds-silent left md polls between written none t h = h
  Responds-silent left md polls between written (some (md', port)) t
        (looks, answers, w, (silent, e, reads, full, le, exact), r, same) =
      (
        suc looks,
        answers,
        w ∙ append_assoc written (carriage_return ∷ []) (replicate looks carriage_return),
        (suc silent, omega arith, look t reads, full, omega arith, λ k. ap suc (exact k)),
        r,
        same,
      )

  Responds-answer :
      (tries c : ℕ) (s : Bytes) (md md₁ : MotorDriver D) (polls between : List (Option ℕ))
      (written : List Bytes) (o : Option (MotorDriver D × Port))
      → Looked polls (c ∷ s) between
      → md₁.response ≡ c ∷ s
      → SameQueue md md₁
      → Responds 0 md₁ between (written ++ carriage_return ∷ []) o
      → Responds tries md polls written o
  Responds-answer tries c s md md₁ polls between written none t q same h = h
  Responds-answer tries c s md md₁ polls between written (some (md', port)) t q same
        (looks, answers, w, (suc silent, e, reads, full, le, exact), r, same') =
      absurd (omega arith)
  Responds-answer tries c s md md₁ polls between written (some (md', port)) t q same
        (looks, answers, w, (zero, e, reads, full, le, exact), r, same') =
      (
        suc looks,
        (c ∷ s) ∷ answers,
        w ∙ append_assoc written (carriage_return ∷ []) (replicate looks carriage_return),
        (0, omega arith, look t reads, ((λ k. cc k), full), omega arith, λ k. absurd (cc k)),
        r ∙ ap (λ b. last_response b answers) q,
        (same'.0 ∙ same.0, same'.1 ∙ same.1),
      )

  -- The rest of a round, on the bytes that were read and the port behind the look.
  abbrev round : ℕ → ℕ → MotorDriver D → Port → Bytes → Option (MotorDriver D × Port)
  round fuel tries md polled text = elim text [
    | [] ↦ elim tries [ zero ↦ some (md, polled) | suc left ↦ respond_loop fuel left md polled ]
    | c ∷ s ↦ respond_loop fuel 0 (handle_command_response (c ∷ s) md) polled
  ]

  module _ (fuel : ℕ)
      (ih : (tries : ℕ) (md : MotorDriver D) (port : Port)
        → length port.polls + tries < fuel
        → Responds tries md port.polls port.written (respond_loop fuel tries md port)) where
    round-Responds :
        (text : Bytes) (tries : ℕ) (md : MotorDriver D) (port : Port) (polls : List (Option ℕ))
        (written : List Bytes)
        → Looked polls text port.polls
        → length port.polls ≤ length polls
        → (text ≢ [] → length port.polls < length polls)
        → length polls + tries < suc fuel
        → port.written ≡ written ++ carriage_return ∷ []
        → Responds tries md polls written (round fuel tries md port text)
    round-Responds [] zero md port polls written t h k l e =
        (1, [], e, (0, refl, look t over, tt, omega arith, λ _. refl), refl, (refl, refl))
    round-Responds [] (suc left) md port polls written t h k l e =
        Responds-silent left md polls port.polls written (respond_loop fuel left md port) t
          (rw (← e) (ih left md port (omega arith)))
    round-Responds (c ∷ s) tries md port polls written t h k l e =
        let md₁ = handle_command_response (c ∷ s) md in
        let less = k (cc) in
        Responds-answer tries c s md md₁ polls port.polls written (respond_loop fuel 0 md₁ port) t
          (handle-response (c ∷ s) md) (handle-SameQueue (c ∷ s) md)
          (rw (← e) (ih 0 md₁ port (omega arith)))

  -- Reading the responses ends: there are at most as many rounds as bytes to come and tries.
  pub respond_loop-Responds :
      (fuel tries : ℕ) (md : MotorDriver D) (port : Port)
      → length port.polls + tries < fuel
      → Responds tries md port.polls port.written (respond_loop fuel tries md port)
  unfolding respond_loop read_response write
  respond_loop-Responds zero tries md port h = absurd (omega arith)
  respond_loop-Responds (suc fuel) tries md port h =
      let taken = take_bytes port.polls in
      let short = take_bytes-length port.polls in
      round-Responds fuel (respond_loop-Responds fuel) taken.0 tries md
        (record { written = port.written ++ carriage_return ∷ []; polls = taken.1 }) port.polls
        port.written (take_bytes-Looked port.polls) short.0 short.1 (omega arith) refl
