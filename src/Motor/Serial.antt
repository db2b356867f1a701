-- ===== src/Motor/Serial.antt =====
-- The serial line as run_commands2 of release/build/serialback.xpp use it.
use robot_arm_2d.Prelude.{ℕ, List, [], ◌∷◌, ◌++◌, Option, none, some, Bytes, ◌==◌, if◌then◌else◌}

-- What was written, one text for each call of `write`, and what each later look at `in_avail` finds:
-- the next byte or nothing. Behind the end of the list nothing arrives any more.
pub record Port : Type 0 where
  pub written : List Bytes
  pub polls : List (Option ℕ)

abbrev pub carriage_return : Bytes
carriage_return = b'\r' ∷ []

unfoldable pub write : Bytes → Port → Port
write text port = record port { written = port.written ++ text ∷ [] }

-- A command and the carriage return behind it.
unfoldable pub command : Bytes → Port → Port
unfolding write
command text port = write carriage_return (write text port)

-- The inner loop: bytes up to a carriage return, or until none is there.
unfoldable pub take_bytes : List (Option ℕ) → Bytes × List (Option ℕ)
take_bytes [] = ([], [])
take_bytes (none ∷ polls) = ([], polls)
take_bytes (some next_byte ∷ polls) =
    let rest = take_bytes polls in
    if next_byte == b'\r' then (next_byte ∷ [], polls) else (next_byte ∷ rest.0, rest.1)

unfoldable pub read_response : Port → Bytes × Port
unfolding take_bytes
read_response port = let taken = take_bytes port.polls in (taken.0, record port { polls = taken.1 })
