-- ===== src/Text/Dates/Tokens.antt =====
-- release/common/static_utils.h: token on words with spaces between them, and the four words of a date.
use robot_arm_2d.Prelude.{
  ◌≡◌, ◌≢◌, refl, ap, ◌∙◌, Bool, true, false, [], ◌∷◌, ◌++◌, Bytes, if◌then◌else◌, All,
}
use robot_arm_2d.Text.Chars.{isspace}
use robot_arm_2d.Text.Dates.{MailDate, token, read_date}
use robot_arm_2d.Text.Trim.{skip_white, skip_to_white, to_white}

-- A word: not empty, and without white space.
abbrev pub IsWord : Bytes → Type 0
IsWord word = (word ≢ []) × All (λ c. isspace c ≡ false) word

-- What may follow a word.
abbrev pub EndsWord : Bytes → Type 0
EndsWord [] = Unit
EndsWord (c ∷ s) = isspace c ≡ true

to_white-append :
    (word s : Bytes)
    → All (λ c. isspace c ≡ false) word
    → EndsWord s
    → (to_white (word ++ s) ≡ word) × (skip_to_white (word ++ s) ≡ s)
unfolding to_white skip_to_white
to_white-append [] [] h k = (refl, refl)
to_white-append [] (c ∷ s) h k = (rw k refl, rw k refl)
to_white-append (c ∷ word) s (h, hs) k =
    let (e, f) = to_white-append word s hs k in (rw h (ap (c ∷◌) e), rw h f)

token-word : (word s : Bytes) → IsWord word → EndsWord s → token (word ++ s) ≡ (word, s)
unfolding token skip_white
token-word [] s (h, hs) k = absurd (h refl)
token-word (c ∷ word) s (h, hs) k =
    let (e, f) = to_white-append (c ∷ word) s hs k in
    rw (hs.0, token)
      (ap (λ (a : Bytes). (a, skip_to_white (c ∷ word ++ s))) e
        ∙ ap (λ (b : Bytes). (c ∷ word, b)) f)

token-space : (s : Bytes) → token (b' ' ∷ s) ≡ token s
unfolding token skip_white
token-space s = refl

-- Four words and what follows them.
abbrev pub words : Bytes → Bytes → Bytes → Bytes → Bytes → Bytes
words a b c d zone = a ++ b' ' ∷ (b ++ b' ' ∷ (c ++ b' ' ∷ (d ++ zone)))

abbrev pub date_of : Bool → Bytes → Bytes → Bytes → Bytes → MailDate
date_of first a b c d = record {
  day = if first then b else a;
  month = if first then a else b;
  year = c;
  time_format = d;
}

-- The next token is what the rest of the last one begins with.
next_token :
    (s : Bytes) (a b r : Bytes)
    → token s ≡ (a, b' ' ∷ (b ++ r))
    → IsWord b
    → EndsWord r
    → token (token s).1 ≡ (b, r)
next_token s a b r e h k =
    ap (λ (x : Bytes × Bytes). token x.1) e ∙ token-space (b ++ r) ∙ token-word b r h k

pub read_date-words :
    (first : Bool) (a b c d zone : Bytes)
    → IsWord a
    → IsWord b
    → IsWord c
    → IsWord d
    → EndsWord zone
    → read_date first (words a b c d zone) ≡ date_of first a b c d
unfolding read_date
read_date-words first a b c d zone ha hb hc hd h =
    let tmp : Bytes = words a b c d zone in
    let ea : token tmp ≡ (a, b' ' ∷ (b ++ b' ' ∷ (c ++ b' ' ∷ (d ++ zone)))) =
      token-word a (b' ' ∷ (b ++ b' ' ∷ (c ++ b' ' ∷ (d ++ zone)))) ha refl in
    let eb : token (token tmp).1 ≡ (b, b' ' ∷ (c ++ b' ' ∷ (d ++ zone))) =
      next_token tmp a b (b' ' ∷ (c ++ b' ' ∷ (d ++ zone))) ea hb refl in
    let ec : token (token (token tmp).1).1 ≡ (c, b' ' ∷ (d ++ zone)) =
      next_token (token tmp).1 b c (b' ' ∷ (d ++ zone)) eb hc refl in
    let ed : token (token (token (token tmp).1).1).1 ≡ (d, zone) =
      next_token (token (token tmp).1).1 c d zone ec hd h in
    let A : Bytes × Bytes = token tmp in
    let B : Bytes × Bytes = token A.1 in
    let C : Bytes × Bytes = token B.1 in
    ap (λ (x : Bytes × Bytes). date_of first x.0 B.0 C.0 (token C.1).0) ea
    ∙ ap (λ (x : Bytes × Bytes). date_of first a x.0 C.0 (token C.1).0) eb
    ∙ ap (λ (x : Bytes × Bytes). date_of first a b x.0 (token C.1).0) ec
    ∙ ap (λ (x : Bytes × Bytes). date_of first a b c x.0) ed
