-- ===== src/Target/Report/Texts.antt =====
-- release/build/arm_2d.cpp and arm_configuration.h: the texts that a well-formed report is cut into.
use robot_arm_2d.Prelude.{
  ℕ, ◌≡◌, ◌≢◌, refl, sym, ap, ◌∙◌, true, false, [], ◌∷◌, ◌++◌, append_assoc, append-nil, some,
  arith, ◌>>=◌, Bytes, Lacks, All-append, length, take,
}
use robot_arm_2d.Target.Report.{
  has_gap, index_of_char, take_before, point_text, behind_point, rest_of,
}
use robot_arm_2d.Text.Find.{before, behind}
use robot_arm_2d.Text.Split.{split_string, cut_at}
use robot_arm_2d.Text.Split.Join.{cut_at-append, split_string-join}
use robot_arm_2d.Text.Split.Laws.{IsItem}

-- A report.
abbrev pub report : Bytes → Bytes → Bytes → Bytes → Bytes
report x y theta match = b'(' ∷ (x ++ b',' ∷ (y ++ b')' ∷ b',' ∷ (theta ++ b',' ∷ match)))

-- The text does not begin with a comma.
abbrev StartsPlain : Bytes → Type 0
StartsPlain [] = Unit
StartsPlain (c ∷ s) = c ≢ b','

StartsPlain-append : (p r : Bytes) → Lacks b',' p → StartsPlain r → StartsPlain (p ++ r)
StartsPlain-append [] r h k = k
StartsPlain-append (c ∷ p) r h k = h.0

StartsPlain-Lacks : (p r : Bytes) → Lacks b',' p → p ≢ [] → StartsPlain (p ++ r)
StartsPlain-Lacks [] r h k = absurd (k refl)
StartsPlain-Lacks (c ∷ p) r h k = h.0

has_gap-cons : (c : ℕ) (s : Bytes) → c ≢ b',' → has_gap (c ∷ s) ≡ has_gap s
unfolding has_gap
has_gap-cons c [] h = refl
has_gap-cons c (d ∷ s) h = ground arith

has_gap-append : (p r : Bytes) → Lacks b',' p → has_gap (p ++ r) ≡ has_gap r
has_gap-append [] r h = refl
has_gap-append (c ∷ p) r h = has_gap-cons c (p ++ r) h.0 ∙ has_gap-append p r h.1

has_gap-comma : (s : Bytes) → StartsPlain s → has_gap (b',' ∷ s) ≡ has_gap s
unfolding has_gap
has_gap-comma [] h = refl
has_gap-comma (c ∷ s) h = ground arith

has_gap-Lacks : (p : Bytes) → Lacks b',' p → has_gap p ≡ false
has_gap-Lacks [] h = unfold has_gap in refl
has_gap-Lacks (c ∷ p) h = has_gap-cons c p h.0 ∙ has_gap-Lacks p h.1

plain : (p : Bytes) → Lacks b',' p → StartsPlain p
plain [] h = tt
plain (c ∷ p) h = h.0

pub has_gap-report :
    (x y theta match : Bytes)
    → Lacks b',' x
    → Lacks b',' y
    → Lacks b',' theta
    → theta ≢ []
    → Lacks b',' match
    → has_gap (report x y theta match) ≡ false
has_gap-report x y theta match hx hy ht ne hm =
    has_gap-cons b'(' _ (omega arith)
    ∙ has_gap-append x _ hx
    ∙ has_gap-comma _ (StartsPlain-append y _ hy (omega arith))
    ∙ has_gap-append y _ hy
    ∙ has_gap-cons b')' _ (omega arith)
    ∙ has_gap-comma _ (StartsPlain-Lacks theta _ ht ne)
    ∙ has_gap-append theta _ ht
    ∙ has_gap-comma match (plain match hm)
    ∙ has_gap-Lacks match hm

index_of_char-append :
    (c : ℕ) (p r : Bytes) → Lacks c p → index_of_char c (p ++ c ∷ r) ≡ some (length p)
unfolding index_of_char
index_of_char-append c [] r h = ground arith
index_of_char-append c (x ∷ p) r h = let e = index_of_char-append c p r h.1 in ground arith

take-append : (p r : Bytes) → take (length p) (p ++ r) ≡ p
take-append [] r = refl
take-append (c ∷ p) r = ap (λ s. c ∷ s) (take-append p r)

pub point_text-report :
    (x y rest : Bytes)
    → Lacks b')' x
    → Lacks b')' y
    → point_text (b'(' ∷ (x ++ b',' ∷ (y ++ b')' ∷ rest))) ≡ x ++ b',' ∷ y
unfolding point_text take_before behind
point_text-report x y rest hx hy =
    rw
      (
        ← append_assoc x (b',' ∷ y) (b')' ∷ rest),
        index_of_char-append b')' (x ++ b',' ∷ y) rest lacks,
      )
      (take-append (x ++ b',' ∷ y) (b')' ∷ rest))
  where
    lacks : Lacks b')' (x ++ b',' ∷ y)
    lacks = All-append (λ c. c ≢ b')') x (b',' ∷ y) hx (omega arith, hy)

pub behind_point-report :
    (x y rest : Bytes)
    → Lacks b',' x
    → Lacks b',' y
    → behind_point (b'(' ∷ (x ++ b',' ∷ (y ++ b')' ∷ b',' ∷ rest))) ≡ rest
unfolding behind_point
behind_point-report x y rest hx hy =
    ap (λ o. rest_of whole (o >>= λ p. cut_at b',' p.1))
      (cut_at-append b',' (b'(' ∷ x) (y ++ b')' ∷ b',' ∷ rest) (omega arith, hx))
    ∙ ap (λ s. rest_of whole (cut_at b',' s)) (sym (append_assoc y (b')' ∷ []) (b',' ∷ rest)))
    ∙ ap (rest_of whole) (cut_at-append b',' (y ++ b')' ∷ []) rest lacks)
  where
    whole : Bytes
    whole = b'(' ∷ (x ++ b',' ∷ (y ++ b')' ∷ b',' ∷ rest))

    lacks : Lacks b',' (y ++ b')' ∷ [])
    lacks = All-append (λ c. c ≢ b',') y (b')' ∷ []) hy (omega arith, tt)

pub split_string-angles :
    (theta match : Bytes)
    → IsItem b',' theta
    → theta ≢ []
    → IsItem b',' match
    → split_string (theta ++ b',' ∷ match) [] b',' ≡ (theta, match)
split_string-angles theta match h ne k =
    ap (λ s. split_string (theta ++ b',' ∷ s) [] b',') (sym (append-nil match))
    ∙ split_string-join b',' refl theta match [] [] (h, (k, tt))
    ∙ ap (λ s. (theta, s)) (append-nil match)

pub before-append : (c : ℕ) (p r : Bytes) → Lacks c p → before c (p ++ c ∷ r) ≡ p
unfolding before
before-append c p r h = rw (cut_at-append c p r h, before) refl

pub behind-append : (c : ℕ) (p r : Bytes) → Lacks c p → behind c (p ++ c ∷ r) ≡ r
unfolding behind
behind-append c p r h = rw (cut_at-append c p r h, behind) refl

pub has_gap-comma_twice : (a b : Bytes) → has_gap (a ++ b',' ∷ b',' ∷ b) ≡ true
unfolding has_gap
has_gap-comma_twice [] b = refl
has_gap-comma_twice (c ∷ []) b = ground arith
has_gap-comma_twice (c ∷ e ∷ a) b = let h = has_gap-comma_twice (e ∷ a) b in ground arith
