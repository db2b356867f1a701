-- ===== src/Stream/Messages.antt =====
-- release/build/uiinterfacethread.cpp: run and emit_record on whole messages of a camera.
use robot_arm_2d.Prelude.{
  ℕ, zero, suc, ◌≤◌, ◌≡◌, ◌≢◌, refl, ap, ◌∙◌, true, false, List, [], ◌∷◌, ◌++◌, map, append_assoc,
  append-nil, Option, none, some, arith, Bytes, All, Lacks, length, length-append,
}
use robot_arm_2d.Stream.{
  is_header, WriterThread, take_token, next_token, token_loop, drop_comma, take_data, run,
  emit_record,
}
use robot_arm_2d.Stream.Records.{pending}
use robot_arm_2d.Text.Split.Join.{separated, join, EndsFull, cut_at-append, cut_at-Lacks, join-trim}
use robot_arm_2d.Text.Split.Laws.{IsItem}
use robot_arm_2d.Text.Trim.{trim_string}

-- A message is a key, and the fields of a report.
abbrev pub Message : Type 0
Message = Bytes × List Bytes

abbrev pub text_of : Message → Bytes
text_of m = join b',' (m.0 ∷ m.1)

-- The entry that the message makes: its key and its report.
abbrev pub entry_of : Message → Bytes × Bytes
entry_of m = (m.0, join b',' m.1)

-- The key is a header and no field is one; no part holds a comma or has white space at an end; there
-- is a field, and the last one is not empty.
pub record IsMessage (m : Message) : Type 0 where
  pub headed : is_header m.0 ≡ true
  pub plain : All (λ f. is_header f ≡ false) m.1
  pub items : All (IsItem b',') (m.0 ∷ m.1)
  pub full : EndsFull (m.0 ∷ m.1)
  pub some_field : m.1 ≢ []

-- The thread that holds a record.
abbrev pub holding : Bytes → WriterThread → WriterThread
holding text w = record w { previous_partial = text; found_header = true }

-- What the loop gives behind a token that has been taken.
abbrev looped : ℕ → WriterThread × List Bytes → Bytes → Option (WriterThread × List Bytes)
looped fuel taken rest = elim (token_loop fuel taken.0 rest) [
  | none ↦ none
  | some (w', out) ↦ some (w', taken.1 ++ out)
]

token_loop-looped :
    (fuel : ℕ) (w : WriterThread) (s token rest : Bytes)
    → s ≢ []
    → next_token s ≡ (token, rest)
    → token_loop (suc fuel) w s ≡ looped fuel (take_token w token) rest
unfolding token_loop
token_loop-looped fuel w [] token rest h e = absurd (h refl)
token_loop-looped fuel w (c ∷ s) token rest h e =
    ap (λ pair. looped fuel (take_token w pair.0) pair.1) e

take_token-plain :
    (w : WriterThread) (f : Bytes)
    → w.found_header ≡ true
    → is_header f ≡ false
    → take_token w f ≡ (record w { previous_partial = w.previous_partial ++ b',' ∷ f }, [])
unfolding take_token
take_token-plain w f h k = ground arith

-- A field goes behind the record that was begun, and the loop goes on with the rest.
token_loop-field :
    (fuel : ℕ) (w w' : WriterThread) (s f rest : Bytes)
    → s ≢ []
    → next_token s ≡ (f, rest)
    → w.found_header ≡ true
    → is_header f ≡ false
    → token_loop fuel (record w { previous_partial = w.previous_partial ++ b',' ∷ f }) rest
      ≡ some (w', [])
    → token_loop (suc fuel) w s ≡ some (w', [])
token_loop-field fuel w w' s f rest n e h k l =
    token_loop-looped fuel w s f rest n e
    ∙ ap (λ taken. looped fuel taken rest) (take_token-plain w f h k)
    ∙ ap (λ o. elim o [ none ↦ none | some (w₂, out) ↦ some (w₂, out) ]) l

next_token-last : (p : Bytes) → Lacks b',' p → next_token (p ++ []) ≡ (p, [])
unfolding next_token
next_token-last p h = rw append-nil (rw (cut_at-Lacks b',' p h, next_token) refl)

next_token-separated :
    (p q : Bytes) (qs : List Bytes)
    → Lacks b',' p
    → next_token (p ++ separated b',' (q ∷ qs)) ≡ (p, q ++ separated b',' qs)
unfolding next_token
next_token-separated p q qs h =
    rw (cut_at-append b',' p (q ++ separated b',' qs) h, next_token) refl

drop_comma-append : (p q : Bytes) → q ≢ [] → drop_comma (p ++ q) ≡ p ++ drop_comma q
unfolding drop_comma
drop_comma-append [] q h = refl
drop_comma-append (c ∷ []) [] h = absurd (h refl)
drop_comma-append (c ∷ []) (x ∷ q) h = refl
drop_comma-append (c ∷ e ∷ p) q h = ap (λ s. c ∷ s) (drop_comma-append (e ∷ p) q h)

drop_comma-Lacks : (p : Bytes) → Lacks b',' p → drop_comma p ≡ p
unfolding drop_comma
drop_comma-Lacks [] h = refl
drop_comma-Lacks (c ∷ []) h = ground arith
drop_comma-Lacks (c ∷ e ∷ p) (h, k) = ap (λ s. c ∷ s) (drop_comma-Lacks (e ∷ p) k)

join-ne-nil : (p : Bytes) (ps : List Bytes) → EndsFull (p ∷ ps) → p ++ separated b',' ps ≢ []
join-ne-nil [] [] h e = h refl
join-ne-nil [] (q ∷ qs) h e = cc
join-ne-nil (c ∷ p) ps h e = cc

-- A text whose last part is not empty keeps its last character.
drop_comma-join :
    (p : Bytes) (ps : List Bytes)
    → All (IsItem b',') (p ∷ ps)
    → EndsFull (p ∷ ps)
    → drop_comma (p ++ separated b',' ps) ≡ p ++ separated b',' ps
drop_comma-join p [] (h, _) k = rw append-nil (drop_comma-Lacks p h.1)
drop_comma-join p (q ∷ qs) (h, hs) k =
    let rest = q ++ separated b',' qs in
    drop_comma-append p (b',' ∷ rest) (λ e. cc)
    ∙ ap (λ t. p ++ t)
        (drop_comma-append (b',' ∷ []) rest (join-ne-nil q qs k)
          ∙ ap (λ t. b',' ∷ t) (drop_comma-join q qs hs k))

nil_of_length : (s : Bytes) → length s ≤ 0 → s ≡ []
nil_of_length [] h = refl
nil_of_length (c ∷ s) h = absurd (omega arith)

shorter : (p r : Bytes) (n : ℕ) → length (p ++ b',' ∷ r) ≤ suc n → length r ≤ n
shorter p r n h = omega (arith, length-append p (b',' ∷ r))

-- The loop puts fields that are no headers behind the record that was begun.
token_loop-fields :
    (fuel : ℕ) (w : WriterThread) (f : Bytes) (fs : List Bytes)
    → w.found_header ≡ true
    → All (λ g. is_header g ≡ false) (f ∷ fs)
    → All (IsItem b',') (f ∷ fs)
    → EndsFull (f ∷ fs)
    → length (f ++ separated b',' fs) ≤ fuel
    → token_loop fuel w (f ++ separated b',' fs)
      ≡ some (record w { previous_partial = w.previous_partial ++ separated b',' (f ∷ fs) }, [])
unfolding token_loop
token_loop-fields zero w f fs h p i e l =
    absurd (join-ne-nil f fs e (nil_of_length (f ++ separated b',' fs) l))
token_loop-fields (suc fuel) w f [] h (p, _) (i, _) e l =
    token_loop-field fuel w _ (f ++ []) f [] (join-ne-nil f [] e) (next_token-last f i.1) h p
      (rw (append-nil f) refl)
token_loop-fields (suc fuel) w f (q ∷ qs) h (p, ps) (i, is) e l =
    let w' : WriterThread = record w { previous_partial = w.previous_partial ++ b',' ∷ f } in
    token_loop-field fuel w _ (f ++ separated b',' (q ∷ qs)) f (q ++ separated b',' qs)
      (join-ne-nil f (q ∷ qs) e) (next_token-separated f q qs i.1) h p
      (token_loop-fields fuel w' q qs h ps is e (shorter f (q ++ separated b',' qs) fuel l)
        ∙ ap (λ t. some (record w { previous_partial = t }, []))
            (append_assoc w.previous_partial (b',' ∷ f) (separated b',' (q ∷ qs))))

take_token-header :
    (w : WriterThread) (key : Bytes)
    → is_header key ≡ true
    → take_token w key ≡ (holding key w, pending w)
unfolding take_token
take_token-header w key h = ground arith

message_loop :
    (fuel : ℕ) (w : WriterThread) (key f : Bytes) (fs : List Bytes)
    → IsMessage (key, f ∷ fs)
    → length (text_of (key, f ∷ fs)) ≤ fuel
    → token_loop fuel w (text_of (key, f ∷ fs))
      ≡ some (holding (text_of (key, f ∷ fs)) w, pending w)
message_loop zero w key f fs h l =
    absurd (join-ne-nil key (f ∷ fs) h.full (nil_of_length (text_of (key, f ∷ fs)) l))
message_loop (suc fuel) w key f fs h l =
    let rest = f ++ separated b',' fs in
    token_loop-looped fuel w (text_of (key, f ∷ fs)) key rest (join-ne-nil key (f ∷ fs) h.full)
      (next_token-separated key f fs h.items.0.1)
    ∙ ap (λ taken. looped fuel taken rest) (take_token-header w key h.headed)
    ∙ ap (λ o. elim o [ none ↦ none | some (w', out) ↦ some (w', pending w ++ out) ])
        (token_loop-fields fuel (holding key w) f fs refl h.plain h.items.1 h.full
          (shorter key rest fuel l))
    ∙ ap (λ out. some (holding (text_of (key, f ∷ fs)) w, out)) (append-nil (pending w))

-- A message makes the thread emit what it held, and hold the message.
pub take_data-message :
    (w : WriterThread) (m : Message)
    → IsMessage m
    → take_data w (text_of m) ≡ some (holding (text_of m) w, pending w)
unfolding take_data trim_string
take_data-message w (key, []) h = absurd (h.some_field refl)
take_data-message w (key, f ∷ fs) h =
    ap (λ tokens. token_loop (length tokens) w tokens)
      (ap drop_comma (join-trim b',' refl key (f ∷ fs) h.items)
        ∙ drop_comma-join key (f ∷ fs) h.items h.full)
    ∙ message_loop (length (text_of (key, f ∷ fs))) w key f fs h (omega arith)

-- The texts of messages: each one is emitted by the next.
pub run-messages :
    (w : WriterThread) (messages : List Message) (last : Message)
    → All IsMessage messages
    → IsMessage last
    → run w (map text_of (messages ++ last ∷ []))
      ≡ some (holding (text_of last) w, pending w ++ map text_of messages)
unfolding run
run-messages w [] last h k =
    ap (λ o. elim o [ none ↦ none | some (w', first) ↦ some (w', first ++ []) ])
      (take_data-message w last k)
run-messages w (m ∷ messages) last (h, hs) k =
    ap
      (λ o. elim o [
        | none ↦ none
        | some (w', first) ↦ elim (run w' (map text_of (messages ++ last ∷ []))) [
          | none ↦ none
          | some (w'', rest) ↦ some (w'', first ++ rest)
        ]
      ])
      (take_data-message w m h)
    ∙ ap (λ o. elim o [ none ↦ none | some (w'', rest) ↦ some (w'', pending w ++ rest) ])
        (run-messages (holding (text_of m) w) messages last hs k)

pub emit_record-message : (m : Message) → IsMessage m → emit_record (text_of m) ≡ entry_of m
unfolding emit_record
emit_record-message (key, []) h = absurd (h.some_field refl)
emit_record-message (key, f ∷ fs) h =
    rw (cut_at-append b',' key (f ++ separated b',' fs) h.items.0.1, emit_record) refl
