-- ===== src/Text/Copies/Laws.antt =====
-- release/common/static_utils.h: lines_to_list on a page of lines.
use robot_arm_2d.Prelude.{
  ℕ, zero, suc, ◌+◌, ◌≡◌, ◌≤◌, ◌<◌, refl, ap, ◌∙◌, true, List, [], ◌∷◌, ◌++◌, map, append_assoc,
  none, some, arith, Bytes, All, Lacks, length, length-append, ltb,
}
use robot_arm_2d.Text.Copies.{copy_loop, copied, end_line_copy, list_loop, lines_to_list}
use robot_arm_2d.Text.Lines.Laws.{unlines}

-- A line that is copied as it is, and fits the buffer with its line end and a 0.
abbrev pub IsCopied : Bytes → Type 0
IsCopied line = Lacks b'\n' line × Lacks b'\r' line × (length line < 1023)

copy_loop-line :
    (line rest : Bytes)
    → Lacks b'\n' line
    → Lacks b'\r' line
    → copy_loop (line ++ b'\n' ∷ rest) ≡ some (line ++ b'\n' ∷ [], rest)
unfolding copy_loop
copy_loop-line [] rest h k = refl
copy_loop-line (c ∷ line) rest (h, hs) (k, ks) = rw (copy_loop-line line rest hs ks) (ground arith)

copied-line :
    (line rest : Bytes)
    → Lacks b'\n' line
    → Lacks b'\r' line
    → copied (line ++ b'\n' ∷ rest) ≡ length line + 2
unfolding copied
copied-line [] rest h k = refl
copied-line (c ∷ line) rest (h, hs) (k, ks) = ground (arith, copied-line line rest hs ks)

copy_loop-last : (rest : Bytes) → Lacks b'\n' rest → copy_loop rest ≡ none
unfolding copy_loop
copy_loop-last [] h = refl
copy_loop-last (c ∷ rest) (h, hs) = rw (copy_loop-last rest hs) (ground arith)

copied-last : (rest : Bytes) → Lacks b'\n' rest → copied rest ≤ length rest
unfolding copied
copied-last [] h = omega arith
copied-last (c ∷ rest) (h, hs) = ground (arith, copied-last rest hs)

end_line_copy-line :
    (line rest : Bytes)
    → IsCopied line
    → end_line_copy (line ++ b'\n' ∷ rest) ≡ some (some (line ++ b'\n' ∷ [], rest))
unfolding end_line_copy
end_line_copy-line line rest (h, k, l) =
    let e : ltb (copied (line ++ b'\n' ∷ rest)) 1025 ≡ true =
      ground (arith, copied-line line rest h k) in
    rw e (ap some (copy_loop-line line rest h k))

end_line_copy-last :
    (rest : Bytes) → Lacks b'\n' rest → length rest ≤ 1024 → end_line_copy rest ≡ some none
unfolding end_line_copy
end_line_copy-last rest h l =
    let e : ltb (copied rest) 1025 ≡ true = ground (arith, copied-last rest h) in
    rw e (ap some (copy_loop-last rest h))

list_loop-lines :
    (fuel : ℕ) (lines : List Bytes) (rest : Bytes)
    → All IsCopied lines
    → Lacks b'\n' rest
    → length rest ≤ 1024
    → length (unlines lines ++ rest) < fuel
    → list_loop fuel (unlines lines ++ rest) ≡ some (map (λ l. l ++ b'\n' ∷ []) lines)
unfolding list_loop
list_loop-lines zero lines rest h k l m = absurd (omega arith)
list_loop-lines (suc fuel) [] rest h k l m = rw (end_line_copy-last rest k l, list_loop) refl
list_loop-lines (suc fuel) (line ∷ lines) rest (h, hs) k l m =
    ap (list_loop (suc fuel)) (append_assoc line (b'\n' ∷ unlines lines) rest)
    ∙ rw
        (
          end_line_copy-line line (unlines lines ++ rest) h,
          list_loop-lines fuel lines rest hs k l (
              omega (
                arith,
                length-append (unlines lines) rest,
                length-append (unlines (line ∷ lines)) rest,
                length-append line (b'\n' ∷ unlines lines),
              )),
          list_loop,
        )
        refl

-- `lines_to_list` returns each line with its line end. What stands behind the last line end is lost.
-- No line holds a carriage return, and each fits the buffer.
pub lines_to_list-unlines :
    (lines : List Bytes) (rest : Bytes)
    → All IsCopied lines
    → Lacks b'\n' rest
    → length rest ≤ 1024
    → lines_to_list (unlines lines ++ rest) ≡ some (map (λ l. l ++ b'\n' ∷ []) lines)
unfolding lines_to_list
lines_to_list-unlines lines rest h k l =
    list_loop-lines (suc (length (unlines lines ++ rest))) lines rest h k l (omega arith)
