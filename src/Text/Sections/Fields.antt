-- ===== src/Text/Sections/Fields.antt =====
-- release/common/static_utils.h: string_extract_field on a text with nested tags.
use robot_arm_2d.Prelude.{
  ℕ, suc, ◌-◌, ◌≡◌, ◌≢◌, refl, sym, ap, ◌∙◌, true, [], ◌∷◌, ◌++◌, append_assoc, Option, none, some,
  arith, Bytes, codes, Lacks, length, length-append, get_elem?, take, ltb, leb,
}
use robot_arm_2d.Text.Sections.{
  Section, between, char_before, close_tag, cut_large_field, end_or_last, large_field,
  extract_large_field, string_extract_field,
}
use robot_arm_2d.Text.Sections.Laws.{Nest, print, IsPlain, mark_section-before}

get_elem?-append : (s : Bytes) (c : ℕ) (r : Bytes) → get_elem? (s ++ c ∷ r) (length s) ≡ some c
get_elem?-append [] c r = refl
get_elem?-append (d ∷ s) c r = get_elem?-append s c r

take-append : (s r : Bytes) → take (length s) (s ++ r) ≡ s
take-append [] r = refl
take-append (c ∷ s) r = ap (c ∷◌) (take-append s r)

char_before-append : (s : Bytes) (c : ℕ) (r : Bytes) → char_before (s ++ c ∷ r) r ≡ c
unfolding char_before
char_before-append s c r =
    let e : length (s ++ c ∷ r) - length r - 1 ≡ length s =
      omega (arith, length-append s (c ∷ r)) in
    ap (λ (o : Option ℕ). elim o [ none ↦ 0 | some d ↦ d ])
      (ap (get_elem? (s ++ c ∷ r)) e ∙ get_elem?-append s c r)

between-append : (s r : Bytes) → between (s ++ r) r ≡ s
unfolding between
between-append s r =
    let e : length (s ++ r) - length r ≡ length s = omega (arith, length-append s r) in
    ap (λ n. take n (s ++ r)) e ∙ take-append s r

close_tag-append : (s r : Bytes) → close_tag (s ++ b'>' ∷ r) r ≡ some r
unfolding close_tag
close_tag-append s r = rw (char_before-append s b'>' r, close_tag) refl

cut_large_field-append : (s r : Bytes) → cut_large_field (s ++ r) r ≡ some s
unfolding cut_large_field
cut_large_field-append s r =
    let e : leb (length r) (suc (length (s ++ r))) ≡ true = ground (arith, length-append s r) in
    rw (e, cut_large_field) (ap some (between-append s r))

large_field-append :
    (s field r : Bytes)
    → large_field (s ++ b'>' ∷ (field ++ r)) (record { begin_text = field ++ r; end_text = some r })
      ≡ some field
unfolding large_field end_or_last
large_field-append s field r =
    let nb : Bytes = field ++ r in
    let e : ltb (length nb) (length (s ++ b'>' ∷ nb)) ≡ true =
      ground (arith, length-append s (b'>' ∷ nb)) in
    rw (e, close_tag-append s nb, large_field) (cut_large_field-append field r)

-- The tags `<c…>` and `</c…>`.
abbrev pub opening : ℕ → Bytes → Bytes
opening c n = b'<' ∷ c ∷ n ++ codes ">"

abbrev pub closing : ℕ → Bytes → Bytes
closing c n = b'<' ∷ b'/' ∷ c ∷ n ++ codes ">"

append-opening :
    (before : Bytes) (c : ℕ) (n m : Bytes)
    → (before ++ b'<' ∷ c ∷ n) ++ b'>' ∷ m ≡ before ++ (opening c n ++ m)
append-opening before c n m = simp append_assoc

-- Where a text without `<` is followed by a tag `<c…>`, a text with sections in this tag, and the
-- closing tag, `string_extract_field` returns the text between these two, with the sections in it. The
-- tag does not begin with `</`, and no `<` stands in the text but that of its tags.
pub string_extract_field-print :
    (before : Bytes) (c : ℕ) (n : Bytes) (body : Nest) (behind : Bytes)
    → Lacks b'<' before
    → c ≢ b'/'
    → IsPlain body
    → string_extract_field
        (before
          ++ (opening c n ++ (print (opening c n) (closing c n) body ++ (closing c n ++ behind))))
        (opening c n)
      ≡ some (print (opening c n) (closing c n) body)
unfolding string_extract_field extract_large_field
string_extract_field-print before c n body behind h k p =
    let field : Bytes = print (opening c n) (closing c n) body in
    let ne : Bytes = closing c n ++ behind in
    let marks : Section = record { begin_text = field ++ ne; end_text = some ne } in
    rw (mark_section-before c (n ++ codes ">") k before body behind h p, extract_large_field)
      (ap (λ t. large_field t marks) (sym (append-opening before c n (field ++ ne)))
        ∙ large_field-append (before ++ b'<' ∷ c ∷ n) field ne)
