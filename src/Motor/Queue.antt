-- ===== src/Motor/Queue.antt =====
-- release/build/arm_configuration.h: run_lines and run_action, against the writes for a list of commands.
use robot_arm_2d.Motor.Serial.{Port, carriage_return, command, write}
use robot_arm_2d.Motor.Transcript.{
  done, sent, Heard, Runs, popped, last_response, last_response-append,
}
use robot_arm_2d.Motor.Responds.{Responds, respond_loop-Responds}
use robot_arm_2d.Motor.{
  MotorDriver, max_tries, is_quit, run_queue, run_commands2, lines_loop, run_lines, add_line,
  add_commands, parameter, run_sequence, run_action,
}
use robot_arm_2d.Prelude.{
  ℕ, ◌+◌, ◌<◌, ◌≡◌, refl, sym, ap, ◌∙◌, false, inl, inr, List, [], ◌∷◌, ◌++◌, map, append_assoc,
  append-nil, Option, none, some, ◌>>=◌, arith, Bytes, All, length, replicate, Bool-cases,
}
use mathlib.Core.Path.{subst}
use robot_arm_2d.StdMap.{find}
use robot_arm_2d.StdMap.Laws.{at-found}
use robot_arm_2d.Text.Split.Join.{join, EndsFull, to_items-join}
use robot_arm_2d.Text.Split.Laws.{IsItem}

module _ {ℓ} {D : Type ℓ} where
  -- What sending the first command comes to.
  abbrev First : Bytes → List Bytes → MotorDriver D → Port → Option (MotorDriver D × Port) → Type 0
  First text queue md port none = ⊥
  First text queue md port (some (md', port')) =
      (looks : ℕ) × (answers : List Bytes) × (port'.written
        ≡ port.written ++ (text ∷ carriage_return ∷ replicate looks carriage_return))
      × Heard text port.polls looks answers port'.polls
      × (md'.response ≡ last_response md.response answers)
      × (md'.short_command_list ≡ queue)
      × (md'.parameters ≡ md.parameters)
      × (md'.index_str ≡ md.index_str)

  Responds-First :
      (text : Bytes) (queue : List Bytes) (md : MotorDriver D) (port : Port)
      (o : Option (MotorDriver D × Port))
      → is_quit text ≡ false
      → Responds max_tries (popped md queue) port.polls (command text port).written o
      → First text queue md port o
  unfolding command write
  Responds-First text queue md port none q h = h
  Responds-First text queue md port (some (md', port')) q (looks, answers, w, heard, r, s) = (
    looks,
    answers,
    w
        ∙ append_assoc (port.written ++ text ∷ []) (carriage_return ∷ [])
            (replicate looks carriage_return)
        ∙ append_assoc port.written (text ∷ []) (carriage_return ∷ replicate looks carriage_return),
    ((λ e. absurd (cc)), (λ _. heard)),
    r,
    ap (λ k. k.short_command_list) s.0,
    ap (λ k. k.parameters) s.0,
    s.1,
  )

  run_queue-First :
      (text : Bytes) (queue : List Bytes) (md : MotorDriver D) (port : Port)
      → First text queue md port (run_queue false (text ∷ queue) md port)
  unfolding run_queue command write
  run_queue-First text queue md port = elim (Bool-cases (is_quit text)) [
    | inl e ↦
        rw e (0, [], quit, ((λ _. (refl, refl, refl)), (λ f. absurd (cc))), refl, refl, refl, refl)
    | inr e ↦ rw e (
        Responds-First text queue md port _ e (
          respond_loop-Responds (length port.polls + (max_tries + 2)) max_tries (popped md queue)
            (command text port) fuel))
  ]
    where
      quit : (command text port).written ≡ port.written ++ text ∷ carriage_return ∷ []
      quit = unfold command write in append_assoc port.written (text ∷ []) (carriage_return ∷ [])

      fuel : length (command text port).polls + max_tries < length port.polls + (max_tries + 2)
      fuel = unfold command write in omega arith

  Runs-next :
      (text : Bytes) (queue : List Bytes) (md md₁ : MotorDriver D) (port port₁ : Port)
      (o : Option (MotorDriver D × Port))
      → First text queue md port (some (md₁, port₁))
      → Runs queue md₁ port₁ o
      → Runs (text ∷ queue) md port o
  Runs-next text queue md md₁ port port₁ none h k = k
  Runs-next text queue md md₁ port port₁ (some (md', port')) (looks, own, w, heard, r, _, p, x)
        (writes, answers, w', t, r', empty, p', x') =
      (
        text ∷ carriage_return ∷ (replicate looks carriage_return ++ writes),
        own ++ answers,
        w'
            ∙ ap (λ k. k ++ writes) w
            ∙ append_assoc port.written (text ∷ carriage_return ∷ replicate looks carriage_return)
                writes,
        sent looks own heard t,
        r'
            ∙ ap (λ b. last_response b answers) r
            ∙ sym (last_response-append md.response own answers),
        empty,
        p' ∙ p,
        x' ∙ x,
      )

  lines_loop-Runs :
      (queue : List Bytes) (md : MotorDriver D) (port : Port)
      → md.short_command_list ≡ queue
      → Runs queue md port (lines_loop (length queue) false md port)
  unfolding lines_loop run_commands2
  lines_loop-Runs [] md port e = ([], [], sym (append-nil port.written), done, refl, e, refl, refl)
  lines_loop-Runs (text ∷ queue) md port e =
      go (lines_loop-Runs queue) (run_commands2 false md port) (
        subst (λ l. First text queue md port (run_queue false l md port)) (sym e)
          (run_queue-First text queue md port))
    where
      go :
          ((md₁ : MotorDriver D) (port₁ : Port)
            → md₁.short_command_list ≡ queue
            → Runs queue md₁ port₁ (lines_loop (length queue) false md₁ port₁))
          → (o : Option (MotorDriver D × Port)) → First text queue md port o
          → Runs (text ∷ queue) md port (o >>= λ r. lines_loop (length queue) false r.0 r.1)
      go ih none h = h
      go ih (some (md₁, port₁)) h =
          Runs-next text queue md md₁ port port₁ (lines_loop (length queue) false md₁ port₁) h
            (ih md₁ port₁ (h.5))

  -- On a real line `run_lines` ends, and it has sent every queued command, each once and in the
  -- order of the queue, with its carriage return behind it and one more carriage return for each
  -- look at the responses. Behind a command that begins with `q` there is no look. Behind any other
  -- there are looks that find nothing, at most ten, then looks that each find an answer, and one
  -- that finds nothing; without an answer there are ten and one. The answers are what the line has
  -- at these looks, and the last of all is the motor's response, which stays as it was if there is
  -- none. The queue is empty then; the parameters and the index are as they were.
  pub run_lines-Runs :
      (md : MotorDriver D) (port : Port)
      → Runs md.short_command_list md port (run_lines false md port)
  unfolding run_lines
  run_lines-Runs md port = lines_loop-Runs md.short_command_list md port refl

  add_commands-queue :
      (items : List Bytes) (md : MotorDriver D)
      → add_commands items md ≡ record md {
        sink = record (md.sink) {
          short_command_list = md.short_command_list ++ map (λ item. md.index_str ++ item) items;
        };
      }
  unfolding add_commands add_line
  add_commands-queue [] md = rw (append-nil md.short_command_list) refl
  add_commands-queue (item ∷ items) md =
      rw (add_commands-queue items (record md { sink = add_line (md.index_str ++ item) md.sink })) (
        rw
          (append_assoc md.short_command_list ((md.index_str ++ item) ∷ [])
            (map (λ i. md.index_str ++ i) items))
          refl)

  -- If the parameter `action_key` is the list of commands `items` with `;` between them, no command
  -- has white space at an end or a `;`, the last one is not empty, and the queue is empty, then on
  -- a real line `run_action` ends and has sent each command with the motor's index before it, in
  -- their order, and read the answers to each before the next, as `run_lines` does.
  pub run_action-Runs :
      (items : List Bytes) (action_key : Bytes) (md : MotorDriver D) (port : Port)
      → find action_key md.parameters ≡ some (join b';' items)
      → All (IsItem b';') items
      → EndsFull items
      → md.short_command_list ≡ []
      → Runs
          (map (λ item. md.index_str ++ item) items)
          md
          port
          (run_action false action_key md port)
  unfolding run_action run_sequence parameter
  run_action-Runs items action_key md port e h k q =
      rw
        (
          at-found action_key [] (join b';' items) md.parameters e,
          to_items-join b';' items refl h k,
        )
        (rw (add_commands-queue items md) (
          subst (λ queue. Runs queue md port (run_lines false filled port)) (ap (λ l. l ++ coms) q)
            (run_lines-Runs filled port)))
    where
      coms : List Bytes
      coms = map (λ item. md.index_str ++ item) items

      filled : MotorDriver D
      filled = record md {
        sink = record (md.sink) { short_command_list = md.short_command_list ++ coms };
      }
