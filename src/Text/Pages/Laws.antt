-- ===== src/Text/Pages/Laws.antt =====
-- release/common/static_utils.h: the ways to read a page as lines, against one another.
use robot_arm_2d.Prelude.{
  ℕ, zero, suc, ◌≤◌, ◌≡◌, ◌⊎◌, refl, ap, ◌∙◌, inl, inr, List, [], ◌∷◌, ◌++◌, map, some, arith,
  Bytes, All, Lacks, length, ◌==◌, Bool-cases, sym, ◌≢◌, append_assoc,
}
use robot_arm_2d.Text.Lines.{extract_line, keep_line, lines_loop, to_no_empty_lines}
use robot_arm_2d.Text.Lines.Laws.{unlines, extract_line-length}
use robot_arm_2d.Text.Pages.{each_line, to_nontrimmed_lines, to_lines}
use robot_arm_2d.Text.Trim.{trim}

-- The lines that are not empty.
abbrev pub non_empty : List Bytes → List Bytes
non_empty [] = []
non_empty ([] ∷ lines) = non_empty lines
non_empty ((c ∷ s) ∷ lines) = (c ∷ s) ∷ non_empty lines

-- The lines spell the page, with a line end that may be missing behind the last one.
abbrev pub Spells : List Bytes → Bytes → Type 0
Spells lines page = (unlines lines ≡ page) ⊎ ((page ≢ []) × (unlines lines ≡ page ++ b'\n' ∷ []))

abbrev pub fold {ℓ} : {A : Type ℓ} → (Bytes → A → A) → A → List Bytes → A
fold add start [] = start
fold add start (line ∷ lines) = add line (fold add start lines)

-- What a cut at the first line end gives.
abbrev IsCut : Bytes → Bytes × Bytes → Type 0
IsCut s pair =
    Lacks b'\n' pair.0 × ((pair.0 ++ b'\n' ∷ pair.1 ≡ s) ⊎ ((pair.0 ≡ s) × (pair.1 ≡ [])))

extract_line-IsCut : (s : Bytes) → IsCut s (extract_line s)
unfolding extract_line
extract_line-IsCut [] = (tt, inr (refl, refl))
extract_line-IsCut (c ∷ s) = elim (Bool-cases (c == b'\n')) [
  | inl e ↦ rw e (tt, inl (ground arith))
  | inr e ↦ rw e (
    ((ground arith), (extract_line-IsCut s).0),
    elim (extract_line-IsCut s).1 [ inl k ↦ inl (ap (c ∷◌) k) | inr (k, m) ↦ inr (ap (c ∷◌) k, m) ],
  )
]

Spells-cons :
    (line rest page : Bytes) (lines : List Bytes)
    → page ≢ []
    → (line ++ b'\n' ∷ rest ≡ page) ⊎ ((line ≡ page) × (rest ≡ []))
    → Spells lines rest
    → Spells (line ∷ lines) page
Spells-cons line rest page lines h (inl k) (inl m) = inl (ap (λ t. line ++ b'\n' ∷ t) m ∙ k)
Spells-cons line rest page lines h (inl k) (inr (_, m)) = inr (
  h,
  ap (λ t. line ++ b'\n' ∷ t) m
      ∙ sym (append_assoc line (b'\n' ∷ rest) (b'\n' ∷ []))
      ∙ ap (λ t. t ++ b'\n' ∷ []) k,
)
Spells-cons line rest page lines h (inr (k, e)) (inl m) =
    inr (h, ap (λ t. line ++ b'\n' ∷ t) (m ∙ e) ∙ ap (λ t. t ++ b'\n' ∷ []) k)
Spells-cons line rest page lines h (inr (k, e)) (inr (n, m)) = absurd (n e)

-- A loop over the lines of a page, whatever is done with each.
pub each_line_total :
    (fuel : ℕ) (page : Bytes)
    → length page ≤ fuel
    → (lines : List Bytes) × All (Lacks b'\n') lines
      × Spells lines page
      × ((A : Type 0) (add : Bytes → A → A) (start : A)
          → each_line add start fuel page ≡ some (fold add start lines))
unfolding each_line
each_line_total fuel [] h = ([], tt, inl refl, λ A add start. refl)
each_line_total zero (c ∷ s) h = absurd (omega arith)
each_line_total (suc fuel) (c ∷ s) h =
    let pair = extract_line (c ∷ s) in
    let cut = extract_line-IsCut (c ∷ s) in
    let (lines, lacks, spells, run) =
      each_line_total fuel pair.1 (omega (arith, extract_line-length c s)) in
    (
      pair.0 ∷ lines,
      (cut.0, lacks),
      Spells-cons pair.0 pair.1 (c ∷ s) lines (cc) cut.1 spells,
      λ A add start. rw (run A add start, each_line) refl,
    )

lines_loop-each_line :
    (fuel : ℕ) (page : Bytes)
    → lines_loop fuel page ≡ each_line (λ line lines. keep_line (trim line) lines) [] fuel page
unfolding lines_loop each_line
lines_loop-each_line fuel [] = refl
lines_loop-each_line zero (c ∷ s) = refl
lines_loop-each_line (suc fuel) (c ∷ s) =
    rw (lines_loop-each_line fuel (extract_line (c ∷ s)).1, lines_loop, each_line) refl

fold-cons : (lines : List Bytes) → fold ◌∷◌ [] lines ≡ lines
fold-cons [] = refl
fold-cons (l ∷ ls) = ap (l ∷◌) (fold-cons ls)

fold-trim : (lines : List Bytes) → fold (λ l ls. trim l ∷ ls) [] lines ≡ map trim lines
fold-trim [] = refl
fold-trim (l ∷ ls) = ap (trim l ∷◌) (fold-trim ls)

keep_line-non_empty :
    (line : Bytes) (lines : List Bytes)
    → keep_line line (non_empty lines) ≡ non_empty (line ∷ lines)
unfolding keep_line
keep_line-non_empty [] lines = refl
keep_line-non_empty (c ∷ s) lines = refl

fold-keep_line :
    (lines : List Bytes)
    → fold (λ l ls. keep_line (trim l) ls) [] lines ≡ non_empty (map trim lines)
fold-keep_line [] = refl
fold-keep_line (l ∷ ls) =
    ap (keep_line (trim l)) (fold-keep_line ls) ∙ keep_line-non_empty (trim l) (map trim ls)

-- Every page is read to its end. It has lines without a line end in them, which spell the page, at most
-- with a line end more behind the last; `to_nontrimmed_lines` returns them, `to_lines` returns them
-- trimmed, and `to_no_empty_lines` returns those of the trimmed lines that are not empty.
pub to_lines_lem :
    (page : Bytes)
    → (lines : List Bytes) × All (Lacks b'\n') lines
      × Spells lines page
      × (to_nontrimmed_lines page ≡ some lines)
      × (to_lines page ≡ some (map trim lines))
      × (to_no_empty_lines page ≡ some (non_empty (map trim lines)))
unfolding to_nontrimmed_lines to_lines to_no_empty_lines
to_lines_lem page =
    let (lines, lacks, spells, run) = each_line_total (length page) page (omega arith) in
    (
      lines,
      lacks,
      spells,
      run (List Bytes) ◌∷◌ [] ∙ ap some (fold-cons lines),
      run (List Bytes) (λ l ls. trim l ∷ ls) [] ∙ ap some (fold-trim lines),
      lines_loop-each_line (length page) page
          ∙ run (List Bytes) (λ l ls. keep_line (trim l) ls) []
          ∙ ap some (fold-keep_line lines),
    )
