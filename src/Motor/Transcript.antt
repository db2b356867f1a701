-- ===== src/Motor/Transcript.antt =====
-- release/build/serialback.xpp: what run_commands2 writes to the serial line
-- and reads from it, as a relation.
use robot_arm_2d.Motor.Serial.{Port, carriage_return}
use robot_arm_2d.Motor.{MotorDriver, max_tries, is_quit}
use robot_arm_2d.Prelude.{
  ℕ, suc, ◌+◌, ◌≤◌, ◌≡◌, ◌≢◌, refl, true, false, List, [], ◌∷◌, ◌++◌, Option, none, some, Bytes,
  length, replicate, All, ◌==◌,
}

-- A look at the responses: the bytes up to a carriage return, with it, or up to where none is there.
pub data Looked : List (Option ℕ) → Bytes → List (Option ℕ) → Type 0 where
  all_read : Looked [] [] []
  none_there : {polls : List (Option ℕ)} → Looked (none ∷ polls) [] polls
  line_ended :
      {b : ℕ} {polls : List (Option ℕ)}
      → (b == b'\r') ≡ true
      → Looked (some b ∷ polls) (b ∷ []) polls
  byte_read :
      {b : ℕ} {polls after : List (Option ℕ)} {text : Bytes}
      → (b == b'\r') ≡ false
      → Looked polls text after
      → Looked (some b ∷ polls) (b ∷ text) after

-- The looks at the responses: what each of them finds, and what is left to come.
pub data Reads : List (Option ℕ) → List Bytes → List (Option ℕ) → Type 0 where
  over : {polls : List (Option ℕ)} → Reads polls [] polls
  look :
      {polls between after : List (Option ℕ)} {text : Bytes} {texts : List Bytes}
      → Looked polls text between
      → Reads between texts after
      → Reads polls (text ∷ texts) after

-- The looks behind a command: at most `tries` of them find nothing, then come the answers, and then
-- one look that finds nothing. Without an answer all of the tries are used.
abbrev pub Answered : ℕ → List (Option ℕ) → ℕ → List Bytes → List (Option ℕ) → Type 0
Answered tries polls looks answers after =
    (silent : ℕ) × (looks ≡ suc (silent + length answers))
    × Reads polls (replicate silent [] ++ (answers ++ [] ∷ [])) after
    × All (λ a. a ≢ []) answers
    × (silent ≤ tries)
    × (answers ≡ [] → silent ≡ tries)

-- Behind a command that begins with `q` there is no look.
abbrev pub Heard : Bytes → List (Option ℕ) → ℕ → List Bytes → List (Option ℕ) → Type 0
Heard text polls looks answers after =
    (is_quit text ≡ true → (looks ≡ 0) × (answers ≡ []) × (after ≡ polls))
    × (is_quit text ≡ false → Answered max_tries polls looks answers after)

-- A list of commands on a line: the answers to them and the writes, which are each command, its
-- carriage return, and then a carriage return for each look; and what is left to come.
pub data Transcript
    : List (Option ℕ) → List Bytes → List Bytes → List Bytes → List (Option ℕ) → Type 0 where
  done : {polls : List (Option ℕ)} → Transcript polls [] [] [] polls
  sent :
      {polls between after : List (Option ℕ)} {text : Bytes} {texts answers writes : List Bytes}
      (looks : ℕ) (own : List Bytes)
      → Heard text polls looks own between
      → Transcript between texts answers writes after
      → Transcript polls
          (text ∷ texts)
          (own ++ answers)
          (text ∷ carriage_return ∷ (replicate looks carriage_return ++ writes))
          after

-- The last response behind some answers.
abbrev pub last_response : Bytes → List Bytes → Bytes
last_response response [] = response
last_response response (answer ∷ answers) = last_response answer answers

pub last_response-append :
    (response : Bytes) (xs ys : List Bytes)
    → last_response response (xs ++ ys) ≡ last_response (last_response response xs) ys
last_response-append response [] ys = refl
last_response-append response (answer ∷ answers) ys = last_response-append answer answers ys

module _ {ℓ} {D : Type ℓ} where
  -- The motor with its first command taken from the queue.
  abbrev pub popped : MotorDriver D → List Bytes → MotorDriver D
  popped md queue = record md { sink = record (md.sink) { short_command_list = queue } }

  -- What running the queue comes to.
  abbrev pub Runs : List Bytes → MotorDriver D → Port → Option (MotorDriver D × Port) → Type 0
  Runs texts md port none = ⊥
  Runs texts md port (some (md', port')) =
      (writes : List Bytes) × (answers : List Bytes) × (port'.written ≡ port.written ++ writes)
      × Transcript port.polls texts answers writes port'.polls
      × (md'.response ≡ last_response md.response answers)
      × (md'.short_command_list ≡ [])
      × (md'.parameters ≡ md.parameters)
      × (md'.index_str ≡ md.index_str)
