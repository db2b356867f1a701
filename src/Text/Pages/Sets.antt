-- ===== src/Text/Pages/Sets.antt =====
-- release/common/static_utils.h: the set of the lines of a page.
use robot_arm_2d.Prelude.{
  ◌≡◌, refl, ap, ◌∙◌, inl, inr, Bool, true, false, ◌||◌, List, [], ◌∷◌, map, some, arith, Bytes,
  All, Lacks, length, equal, equal_iff, Bool-cases,
}
use robot_arm_2d.StdMap.{less}
use robot_arm_2d.StdMap.Laws.{less_total}
use robot_arm_2d.Text.Pages.{insert_line, to_line_set}
use robot_arm_2d.Text.Pages.Laws.{Spells, fold, each_line_total}
use robot_arm_2d.Text.Trim.{trim}

abbrev pub member : Bytes → List Bytes → Bool
member line [] = false
member line (other ∷ lines) = equal line other || member line lines

-- The line stands before the first of the set.
abbrev pub Precedes : Bytes → List Bytes → Type 0
Precedes line [] = Unit
Precedes line (other ∷ lines) = less line other ≡ true

-- The lines ascend, so that each stands there once.
abbrev pub IsAscending : List Bytes → Type 0
IsAscending [] = Unit
IsAscending (line ∷ lines) = Precedes line lines × IsAscending lines

equal_sym : (a b : Bytes) → equal a b ≡ equal b a
equal_sym [] [] = refl
equal_sym [] (y ∷ b) = refl
equal_sym (x ∷ a) [] = refl
equal_sym (x ∷ a) (y ∷ b) = ground (arith, equal_sym a b)

insert_line-member :
    (x line : Bytes) (lines : List Bytes)
    → member x (insert_line line lines) ≡ (equal x line || member x lines)
unfolding insert_line
insert_line-member x line [] = refl
insert_line-member x line (other ∷ lines) = ground (
  arith,
  equal_iff line other,
  equal_iff x line,
  equal_iff x other,
  insert_line-member x line lines,
)

insert_line-Precedes :
    (first line : Bytes) (lines : List Bytes)
    → less first line ≡ true
    → Precedes first lines
    → Precedes first (insert_line line lines)
unfolding insert_line
insert_line-Precedes first line [] h k = h
insert_line-Precedes first line (other ∷ lines) h k = ground arith

insert_line-IsAscending :
    (line : Bytes) (lines : List Bytes) → IsAscending lines → IsAscending (insert_line line lines)
unfolding insert_line
insert_line-IsAscending line [] h = (tt, tt)
insert_line-IsAscending line (other ∷ lines) (b, s) = elim (Bool-cases (equal line other)) [
  | inl e ↦ rw e (b, s)
  | inr e ↦ rw e (elim (Bool-cases (less line other)) [
    | inl l ↦ rw l (l, (b, s))
    | inr l ↦ rw l (
      insert_line-Precedes other line lines (less_total line other (equal_sym other line ∙ e) l) b,
      insert_line-IsAscending line lines s,
    )
  ])
]

fold-set :
    (lines : List Bytes)
    → IsAscending (fold (λ l ls. insert_line (trim l) ls) [] lines)
      × ((x : Bytes)
          → member x (fold (λ l ls. insert_line (trim l) ls) [] lines) ≡ member x (map trim lines))
fold-set [] = (tt, λ x. refl)
fold-set (l ∷ ls) =
    let (asc, same) = fold-set ls in
    let rest : List Bytes = fold (λ l ls. insert_line (trim l) ls) [] ls in
    (
      insert_line-IsAscending (trim l) rest asc,
      λ x. insert_line-member x (trim l) rest ∙ ap (λ b. equal x (trim l) || b) (same x),
    )

-- Every page is read to its end, and its lines spell it, at most with a line end more behind the last.
-- `to_line_set` returns the trimmed lines in ascending order, each once: a line is in the set if and
-- only if it is one of them.
pub to_line_set_lem :
    (page : Bytes)
    → (lines set : List Bytes) × All (Lacks b'\n') lines
      × Spells lines page
      × (to_line_set page ≡ some set)
      × IsAscending set
      × ((x : Bytes) → member x set ≡ member x (map trim lines))
unfolding to_line_set
to_line_set_lem page =
    let (lines, lacks, spells, run) = each_line_total (length page) page (omega arith) in
    let add : Bytes → List Bytes → List Bytes = λ l ls. insert_line (trim l) ls in
    (
      lines,
      fold add [] lines,
      lacks,
      spells,
      run (List Bytes) add [],
      (fold-set lines).0,
      (fold-set lines).1,
    )
