-- ===== src/Text/Sections/Total.antt =====
-- release/common/static_utils.h: the end of mark_section.
use robot_arm_2d.Prelude.{
  ℕ, zero, suc, ◌+◌, ◌≤◌, ◌<◌, ◌≡◌, refl, [], ◌∷◌, Option, none, some, arith, Bytes, length,
  length-drop,
}
use robot_arm_2d.Text.Subst.{starts_with}
use robot_arm_2d.Text.Sections.{
  Section, Mark, stop, go, first_mark, marked, mark_step, mark_loop, mark_section,
}

-- The characters that are left count twice, for the one that a round adds to the counter.
abbrev weight : Mark → ℕ
weight (stop found) = 0
weight (go k b s) = k + (length s + length s)

mark_step-weight :
    (t : ℕ) (tag e : Bytes) (k : ℕ) (b : Option Bytes) (c : ℕ) (s : Bytes)
    → weight (mark_step (t ∷ tag) e k b c s) < k + (length (c ∷ s) + length (c ∷ s))
unfolding mark_step starts_with
mark_step-weight t tag e k b c s =
    ground (arith, length-drop (length tag) s, length-drop (length e) (c ∷ s))

mark_step_total :
    (tag_b tag_e : Bytes) (fuel : ℕ) (m : Mark)
    → weight m ≤ fuel
    → ((k : ℕ) (b : Option Bytes) (s : Bytes)
        → k + (length s + length s) ≤ fuel
        → (found : Option Section) × (mark_loop fuel tag_b tag_e k b s ≡ some found))
    → (found : Option Section) × (elim m [
      | stop found ↦ some found
      | go k b s ↦ mark_loop fuel tag_b tag_e k b s
    ]
        ≡ some found)
mark_step_total tag_b tag_e fuel (stop found) h loop = (found, refl)
mark_step_total tag_b tag_e fuel (go k b s) h loop = loop k b s h

mark_loop_total :
    (t : ℕ) (tag e : Bytes) (fuel k : ℕ) (b : Option Bytes) (s : Bytes)
    → k + (length s + length s) ≤ fuel
    → (found : Option Section) × (mark_loop fuel (t ∷ tag) e k b s ≡ some found)
unfolding mark_loop
mark_loop_total t tag e fuel k b [] h = (marked b none, refl)
mark_loop_total t tag e zero k b (c ∷ s) h = absurd (omega arith)
mark_loop_total t tag e (suc fuel) k b (c ∷ s) h =
    mark_step_total (t ∷ tag) e fuel (mark_step (t ∷ tag) e k b c s)
      (omega (arith, mark_step-weight t tag e k b c s))
      (λ k' b' s' l. mark_loop_total t tag e fuel k' b' s' l)

-- `mark_section` ends for every opening tag that is not empty, whatever the closing tag is.
pub mark_section_total :
    (text : Bytes) (t : ℕ) (tag tag_e : Bytes)
    → (found : Option Section) × (mark_section text (t ∷ tag) tag_e ≡ some found)
unfolding mark_section
mark_section_total text t tag tag_e =
    mark_loop_total t tag tag_e (length text + length text) 0 none text (omega arith)

-- An opening tag that is empty is found at the same place again and again: no fuel is enough.
pub mark_loop_endless :
    (fuel k : ℕ) (tag_e : Bytes) (b : Option Bytes) (c : ℕ) (s : Bytes)
    → mark_loop fuel [] tag_e k b (c ∷ s) ≡ none
unfolding mark_loop mark_step starts_with
mark_loop_endless zero k tag_e b c s = refl
mark_loop_endless (suc fuel) k tag_e b c s =
    mark_loop_endless fuel (suc k) tag_e (first_mark b (c ∷ s)) c s
