-- ===== src/Stream/Records.antt =====
-- release/build/uiinterfacethread.cpp: run, against the records that a sequence of tokens spells.
use robot_arm_2d.Prelude.{
  ℕ, zero, suc, ◌≤◌, ◌<◌, ◌≡◌, refl, sym, ap, ◌∙◌, List, [], ◌∷◌, ◌++◌, map, append_assoc,
  append-nil, Option, none, some, arith, Bytes, codes, Lacks, length, length-append, ◌==◌,
  if◌then◌else◌,
}
use robot_arm_2d.Stream.{
  is_header, WriterThread, new_thread, take_token, next_token, token_loop, drop_comma, take_data,
  run,
}
use robot_arm_2d.Text.Split.{cut_at}
use robot_arm_2d.Text.Split.Join.{separated, join}
use robot_arm_2d.Text.Split.Laws.{IsCut, cut_at-IsCut}
use robot_arm_2d.Text.Trim.{trim_string}

-- The tokens up to the next header.
abbrev pub body : List Bytes → List Bytes
body [] = []
body (t ∷ ts) = if is_header t then [] else t ∷ body ts

-- Each header with the tokens up to the next header; what stands before the first is dropped.
abbrev pub groups : List Bytes → List (List Bytes)
groups [] = []
groups (t ∷ ts) = if is_header t then (t ∷ body ts) ∷ groups ts else groups ts

-- The records that a sequence of tokens spells, the last one included.
abbrev pub records : List Bytes → List Bytes
records tokens = map (join b',') (groups tokens)

-- The record that the thread has begun and not emitted.
abbrev pub pending : WriterThread → List Bytes
pending w = if w.found_header then w.previous_partial ∷ [] else []

-- A character in front of the first token.
abbrev pub grow : ℕ → List Bytes → List Bytes
grow c [] = (c ∷ []) ∷ []
grow c (t ∷ ts) = (c ∷ t) ∷ ts

-- The tokens of a text: a piece for each comma, and one behind the last comma if it is not empty.
abbrev pub tokens : Bytes → List Bytes
tokens [] = []
tokens (c ∷ s) = if c == b',' then [] ∷ tokens s else grow c (tokens s)

-- The tokens of all texts, in their order.
abbrev pub all_tokens : List Bytes → List Bytes
all_tokens [] = []
all_tokens (text ∷ texts) = tokens (drop_comma (trim_string text)) ++ all_tokens texts

tokens-Lacks : (c : ℕ) (s : Bytes) → Lacks b',' (c ∷ s) → tokens (c ∷ s) ≡ (c ∷ s) ∷ []
tokens-Lacks c [] h = ground arith
tokens-Lacks c (d ∷ s) (h, k) = ground (arith, tokens-Lacks d s k)

tokens-append : (a b : Bytes) → Lacks b',' a → tokens (a ++ b',' ∷ b) ≡ a ∷ tokens b
tokens-append [] b h = refl
tokens-append (c ∷ a) b (h, k) = ground (arith, tokens-append a b k)

-- What the loop takes from a text is its first token, and it leaves the text of the other ones.
IsNext : Bytes → Bytes × Bytes → Type 0
IsNext s (token, rest) = (tokens s ≡ token ∷ tokens rest) × (length rest < length s)

IsNext-cut :
    (c : ℕ) (s : Bytes) (o : Option (Bytes × Bytes))
    → IsCut b',' (c ∷ s) o
    → IsNext (c ∷ s) (elim o [ none ↦ (c ∷ s, []) | some (a, b) ↦ (a, b) ])
unfolding IsNext
IsNext-cut c s none h = (tokens-Lacks c s h, omega arith)
IsNext-cut c s (some (a, b)) (e, h) =
    (ap tokens e ∙ tokens-append a b h, omega (arith, ap length e, length-append a (b',' ∷ b)))

next_token-IsNext : (c : ℕ) (s : Bytes) → IsNext (c ∷ s) (next_token (c ∷ s))
unfolding next_token
next_token-IsNext c s = IsNext-cut c s (cut_at b',' (c ∷ s)) (cut_at-IsCut b',' (c ∷ s))

-- All records that the thread has begun, once it has taken the tokens.
abbrev begun : WriterThread → List Bytes → List Bytes
begun w ts =
    if w.found_header
    then (w.previous_partial ++ separated b',' (body ts)) ∷ records ts
    else records ts

begun-take_token :
    (w : WriterThread) (t : Bytes) (ts : List Bytes)
    → (take_token w t).1 ++ begun (take_token w t).0 ts ≡ begun w (t ∷ ts)
unfolding take_token
begun-take_token w t ts = ground (
  arith,
  append-nil w.previous_partial,
  append_assoc w.previous_partial (codes "," ++ t) (separated b',' (body ts)),
)

begun-nil : (w : WriterThread) → pending w ≡ begun w []
begun-nil w = ground (arith, append-nil w.previous_partial)

-- A run of the machine over the tokens `ts`: with the records that come later, it emits and keeps
-- exactly the records that were begun.
abbrev Emits : WriterThread → List Bytes → Option (WriterThread × List Bytes) → Type 0
Emits w ts none = ⊥
Emits w ts (some (w', out)) = (later : List Bytes) → out ++ begun w' later ≡ begun w (ts ++ later)

Emits-then :
    (w w' : WriterThread) (ts us out : List Bytes) (o : Option (WriterThread × List Bytes))
    → Emits w ts (some (w', out))
    → Emits w' us o
    → Emits w (ts ++ us) (elim o [ none ↦ none | some (w'', rest) ↦ some (w'', out ++ rest) ])
Emits-then w w' ts us out none h k = k
Emits-then w w' ts us out (some (w'', rest)) h k = λ later.
    append_assoc out rest (begun w'' later)
    ∙ ap (λ t. out ++ t) (k later)
    ∙ h (us ++ later)
    ∙ ap (begun w) (sym (append_assoc ts us later))

token_loop-Emits :
    (fuel : ℕ) (w : WriterThread) (s : Bytes)
    → length s ≤ fuel
    → Emits w (tokens s) (token_loop fuel w s)
unfolding token_loop IsNext
token_loop-Emits fuel w [] h = λ later. refl
token_loop-Emits zero w (c ∷ s) h = absurd (omega arith)
token_loop-Emits (suc fuel) w (c ∷ s) h =
    let pair = next_token (c ∷ s) in
    let one = take_token w pair.0 in
    let (e, shorter) = next_token-IsNext c s in
    rw e (
      Emits-then w one.0 (pair.0 ∷ []) (tokens pair.1) one.1 (token_loop fuel one.0 pair.1)
        (λ later. begun-take_token w pair.0 later)
        (token_loop-Emits fuel one.0 pair.1 (omega arith)))

take_data-Emits :
    (w : WriterThread) (text : Bytes)
    → Emits w (tokens (drop_comma (trim_string text))) (take_data w text)
unfolding take_data
take_data-Emits w text =
    let s = drop_comma (trim_string text) in token_loop-Emits (length s) w s (omega arith)

run-Emits : (w : WriterThread) (texts : List Bytes) → Emits w (all_tokens texts) (run w texts)
unfolding run
run-Emits w [] = λ later. refl
run-Emits w (text ∷ texts) =
    go (take_data w text) (take_data-Emits w text) (λ w'. run-Emits w' texts)
  where
    go :
        (o : Option (WriterThread × List Bytes))
        → Emits w (tokens (drop_comma (trim_string text))) o
        → ((w' : WriterThread) → Emits w' (all_tokens texts) (run w' texts))
        → Emits w (all_tokens (text ∷ texts)) (elim o [
          | none ↦ none
          | some (w', first) ↦ elim (run w' texts) [
            | none ↦ none
            | some (w'', rest) ↦ some (w'', first ++ rest)
          ]
        ])
    go none h k = h
    go (some (w', first)) h k =
        Emits-then w w' (tokens (drop_comma (trim_string text))) (all_tokens texts) first
          (run w' texts) h (k w')

-- What a run over some texts from the start of the thread must give.
abbrev pub IsRun : List Bytes → Option (WriterThread × List Bytes) → Type 0
IsRun texts none = ⊥
IsRun texts (some (w, out)) = out ++ pending w ≡ records (all_tokens texts)

-- From its start the writer thread ends its work on any texts, and the records that it has emitted,
-- with the one that it has begun, are the records that the tokens of all texts spell in a row: each
-- header with the tokens up to the next header, and no token before the first header.
pub run-IsRun : (texts : List Bytes) → IsRun texts (run new_thread texts)
run-IsRun texts = go (run new_thread texts) (run-Emits new_thread texts)
  where
    go :
        (o : Option (WriterThread × List Bytes))
        → Emits new_thread (all_tokens texts) o
        → IsRun texts o
    go none h = h
    go (some (w, out)) h =
        ap (λ t. out ++ t) (begun-nil w) ∙ h [] ∙ ap records (append-nil (all_tokens texts))
