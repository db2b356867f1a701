-- ===== src/Text/Lines/Laws.antt =====
-- release/common/static_utils.h: to_no_empty_lines, its lines, and pages made of lines.
use robot_arm_2d.Prelude.{
  ℕ, zero, suc, ◌≤◌, ◌<◌, ◌≡◌, ◌≢◌, refl, ap, ◌∙◌, List, [], ◌∷◌, ◌++◌, some, arith, Bytes, All,
  Lacks, length, length-append,
}
use robot_arm_2d.Text.Trim.{trim}
use robot_arm_2d.Text.Trim.Laws.{IsTrimmed, trim-IsTrimmed, trim-eq}
use robot_arm_2d.Text.Lines.{extract_line, keep_line, lines_loop, to_no_empty_lines}

-- A line as it is kept: trimmed and not empty.
abbrev pub IsKept : Bytes → Type 0
IsKept line = IsTrimmed line × (line ≢ [])

pub extract_line-length : (c : ℕ) (s : Bytes) → length (extract_line (c ∷ s)).1 < length (c ∷ s)
unfolding extract_line
extract_line-length c [] = ground arith
extract_line-length c (d ∷ s) = ground (arith, extract_line-length d s)

keep_line-All :
    (line : Bytes) (lines : List Bytes)
    → IsTrimmed line
    → All IsKept lines
    → All IsKept (keep_line line lines)
unfolding keep_line
keep_line-All [] lines h k = k
keep_line-All (c ∷ s) lines h k = ((h, (cc)), k)

lines_loop_total :
    (fuel : ℕ) (page : Bytes)
    → length page ≤ fuel
    → (lines : List Bytes) × (lines_loop fuel page ≡ some lines) × All IsKept lines
unfolding lines_loop
lines_loop_total fuel [] h = ([], refl, tt)
lines_loop_total zero (c ∷ s) h = absurd (omega arith)
lines_loop_total (suc fuel) (c ∷ s) h =
    let pair = extract_line (c ∷ s) in
    let (rest, e, k) = lines_loop_total fuel pair.1 (omega (arith, extract_line-length c s)) in
    (
      keep_line (trim pair.0) rest,
      rw (e, lines_loop),
      keep_line-All (trim pair.0) rest (trim-IsTrimmed pair.0) k,
    )

-- `to_no_empty_lines` ends on every page, and each line that it returns is trimmed and not empty.
pub to_no_empty_lines_total :
    (page : Bytes) → (lines : List Bytes) × (to_no_empty_lines page ≡ some lines) × All IsKept lines
unfolding to_no_empty_lines
to_no_empty_lines_total page = lines_loop_total (length page) page (omega arith)

-- The lines as a page, each with its line end.
abbrev pub unlines : List Bytes → Bytes
unlines [] = []
unlines (l ∷ ls) = l ++ b'\n' ∷ unlines ls

abbrev pub IsLine : Bytes → Type 0
IsLine line = IsKept line × Lacks b'\n' line

extract_line-append : (l r : Bytes) → Lacks b'\n' l → extract_line (l ++ b'\n' ∷ r) ≡ (l, r)
unfolding extract_line
extract_line-append [] r h = refl
extract_line-append (c ∷ l) r (h, k) = ground (arith, extract_line-append l r k)

lines_loop-cons :
    (fuel : ℕ) (page line rest : Bytes) {lines : List Bytes}
    → page ≢ []
    → extract_line page ≡ (line, rest)
    → lines_loop fuel rest ≡ some lines
    → lines_loop (suc fuel) page ≡ some (keep_line (trim line) lines)
unfolding lines_loop
lines_loop-cons fuel [] line rest h e r = absurd (h refl)
lines_loop-cons fuel (c ∷ s) line rest {lines} h e r =
    rw (ap (λ (t : Bytes × Bytes). lines_loop fuel t.1) e ∙ r, lines_loop)
      (ap (λ (t : Bytes × Bytes). some (keep_line (trim t.0) lines)) e)

keep_line-eq :
    (line : Bytes) (lines : List Bytes) → IsKept line → keep_line (trim line) lines ≡ line ∷ lines
unfolding keep_line
keep_line-eq [] lines h = absurd (h.1 refl)
keep_line-eq (c ∷ s) lines h = rw (trim-eq (c ∷ s) h.0)

append-ne-nil : (l : Bytes) (c : ℕ) (r : Bytes) → l ++ c ∷ r ≢ []
append-ne-nil [] c r = cc
append-ne-nil (x ∷ l) c r = cc

lines_loop-unlines :
    (fuel : ℕ) (lines : List Bytes)
    → All IsLine lines
    → length (unlines lines) ≤ fuel
    → lines_loop fuel (unlines lines) ≡ some lines
lines_loop-unlines fuel [] h k = unfold lines_loop in refl
lines_loop-unlines zero (l ∷ ls) h k = absurd (omega (arith, length-append l (b'\n' ∷ unlines ls)))
lines_loop-unlines (suc fuel) (l ∷ ls) ((kept, lacks), h) k =
    lines_loop-cons fuel (unlines (l ∷ ls)) l (unlines ls) (append-ne-nil l b'\n' (unlines ls))
      (extract_line-append l (unlines ls) lacks)
      (lines_loop-unlines fuel ls h (omega (arith, length-append l (b'\n' ∷ unlines ls))))
    ∙ ap some (keep_line-eq l ls kept)

-- A page that was written from lines, each trimmed, not empty and without a line end, is read as
-- these lines.
pub to_no_empty_lines-unlines :
    (lines : List Bytes) → All IsLine lines → to_no_empty_lines (unlines lines) ≡ some lines
unfolding to_no_empty_lines
to_no_empty_lines-unlines lines h =
    lines_loop-unlines (length (unlines lines)) lines h (omega arith)
