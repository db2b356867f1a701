-- ===== src/Text/Split/Join.antt =====
-- release/common/static_utils.h: to_items on items that are joined by a separator.
use robot_arm_2d.Prelude.{
  ℕ, zero, suc, ◌≤◌, ◌≡◌, ◌≢◌, refl, ap, ◌∙◌, false, List, [], ◌∷◌, ◌++◌, append-nil, none, some,
  arith, Bytes, All, Lacks, length, length-append, ◌==◌, ==-refl,
}
use robot_arm_2d.Text.Chars.{isspace}
use robot_arm_2d.Text.Trim.{trim, trim_string}
use robot_arm_2d.Text.Trim.Laws.{StartsBlack, EndsBlack, trim-eq}
use robot_arm_2d.Text.Split.{cut_at, split_at, split_string, items_loop, to_items}
use robot_arm_2d.Text.Split.Laws.{IsItem}

-- Every item behind a separator.
abbrev pub separated : ℕ → List Bytes → Bytes
separated c [] = []
separated c (q ∷ qs) = c ∷ (q ++ separated c qs)

-- The items with the separator between them.
abbrev pub join : ℕ → List Bytes → Bytes
join c [] = []
join c (p ∷ ps) = p ++ separated c ps

-- The last item, if there is one, is not empty.
abbrev pub EndsFull : List Bytes → Type 0
EndsFull [] = Unit
EndsFull (p ∷ []) = p ≢ []
EndsFull (p ∷ q ∷ ps) = EndsFull (q ∷ ps)

pub cut_at-append : (c : ℕ) (p r : Bytes) → Lacks c p → cut_at c (p ++ c ∷ r) ≡ some (p, r)
unfolding cut_at
cut_at-append c [] r h = rw ==-refl
cut_at-append c (x ∷ p) r (h, k) = ground (arith, cut_at-append c p r k)

pub cut_at-Lacks : (c : ℕ) (p : Bytes) → Lacks c p → cut_at c p ≡ none
unfolding cut_at
cut_at-Lacks c [] h = refl
cut_at-Lacks c (x ∷ p) (h, k) = ground (arith, cut_at-Lacks c p k)

pub EndsBlack-append : (x y : Bytes) → y ≢ [] → EndsBlack y → EndsBlack (x ++ y)
EndsBlack-append [] y h k = k
EndsBlack-append (a ∷ []) [] h k = absurd (h refl)
EndsBlack-append (a ∷ []) (b ∷ y) h k = k
EndsBlack-append (a ∷ b ∷ x) y h k = EndsBlack-append (b ∷ x) y h k

pub EndsBlack-cons : (c : ℕ) (y : Bytes) → isspace c ≡ false → EndsBlack y → EndsBlack (c ∷ y)
EndsBlack-cons c [] h k = h
EndsBlack-cons c (b ∷ y) h k = k

module _ (c : ℕ) (black : isspace c ≡ false) where
  join-EndsBlack :
      (p : Bytes) (ps : List Bytes) → All (IsItem c) (p ∷ ps) → EndsBlack (p ++ separated c ps)
  join-EndsBlack p [] (h, _) = rw append-nil h.0.1
  join-EndsBlack p (q ∷ qs) (h, k) =
      EndsBlack-append p (separated c (q ∷ qs)) (cc)
        (EndsBlack-cons c (q ++ separated c qs) black (join-EndsBlack q qs k))

  join-StartsBlack :
      (p : Bytes) (ps : List Bytes) → StartsBlack p → StartsBlack (p ++ separated c ps)
  join-StartsBlack [] [] h = tt
  join-StartsBlack [] (q ∷ qs) h = black
  join-StartsBlack (x ∷ p) ps h = h

  pub join-trim :
      (p : Bytes) (ps : List Bytes)
      → All (IsItem c) (p ∷ ps)
      → trim (p ++ separated c ps) ≡ p ++ separated c ps
  join-trim p ps h = trim-eq _ (join-StartsBlack p ps h.0.0.0, join-EndsBlack p ps h)

  not_space : (c == 32) ≡ false
  not_space = ground arith

  split_string-last : (p accessor : Bytes) → IsItem c p → split_string p accessor c ≡ (p, [])
  unfolding split_string split_at
  split_string-last p accessor (t, k) = rw (not_space, trim-eq p t, cut_at-Lacks c p k)

  pub split_string-join :
      (p q accessor : Bytes) (qs : List Bytes)
      → All (IsItem c) (p ∷ q ∷ qs)
      → split_string (p ++ separated c (q ∷ qs)) accessor c ≡ (p, q ++ separated c qs)
  unfolding split_string split_at
  split_string-join p q accessor qs h =
      rw (not_space, join-trim p (q ∷ qs) h, cut_at-append c p (q ++ separated c qs) h.0.1)

  items_loop-cons :
      (fuel : ℕ) (s name rest : Bytes) {items : List Bytes}
      → s ≢ []
      → split_string s s c ≡ (name, rest)
      → items_loop fuel rest c ≡ some items
      → items_loop (suc fuel) s c ≡ some (trim_string name ∷ items)
  unfolding items_loop
  items_loop-cons fuel [] name rest h e r = absurd (h refl)
  items_loop-cons fuel (x ∷ s) name rest {items} h e r =
      rw (ap (λ (t : Bytes × Bytes). items_loop fuel t.1 c) e ∙ r, items_loop)
        (ap (λ (t : Bytes × Bytes). some (trim_string t.0 ∷ items)) e)

  items_loop-nil : (fuel : ℕ) → items_loop fuel [] c ≡ some []
  unfolding items_loop
  items_loop-nil fuel = refl

  trim_string-eq : (p : Bytes) → IsItem c p → trim_string p ≡ p
  unfolding trim_string
  trim_string-eq p h = trim-eq p h.0

  append-ne-nil : (p : Bytes) (x : ℕ) (r : Bytes) → p ++ x ∷ r ≢ []
  append-ne-nil [] x r = cc
  append-ne-nil (y ∷ p) x r = cc

  join-ne-nil :
      (p : Bytes) (ps : List Bytes) → EndsFull (p ∷ ps) → length (p ++ separated c ps) ≤ 0 → ⊥
  join-ne-nil [] [] k h = k refl
  join-ne-nil (x ∷ p) ps k h = omega arith
  join-ne-nil [] (q ∷ qs) k h = omega arith

  items_loop-join :
      (fuel : ℕ) (p : Bytes) (ps : List Bytes)
      → All (IsItem c) (p ∷ ps)
      → EndsFull (p ∷ ps)
      → length (p ++ separated c ps) ≤ fuel
      → items_loop fuel (p ++ separated c ps) c ≡ some (p ∷ ps)
  items_loop-join zero p ps h k f = absurd (join-ne-nil p ps k (omega arith))
  items_loop-join (suc fuel) p [] h k f = rw append-nil (
      rw (items_loop-cons fuel p p [] k (split_string-last p p h.0) (items_loop-nil fuel))
        (rw (trim_string-eq p h.0)))
  items_loop-join (suc fuel) p (q ∷ qs) h k f =
      let more = separated c (q ∷ qs) in
      let shorter : length (q ++ separated c qs) ≤ fuel = omega (arith, length-append p more) in
      rw
        (items_loop-cons fuel (p ++ more) p (q ++ separated c qs)
          (append-ne-nil p c (q ++ separated c qs)) (split_string-join p q (p ++ more) qs h)
          (items_loop-join fuel q qs h.1 k shorter))
        (rw (trim_string-eq p h.0))

-- `to_items` gives back the items that were joined, if each of them is trimmed and holds no
-- separator, the last one is not empty, and the separator is no space.
pub to_items-join :
    (c : ℕ) (items : List Bytes)
    → isspace c ≡ false
    → All (IsItem c) items
    → EndsFull items
    → to_items (join c items) c ≡ some items
unfolding to_items
to_items-join c [] black h k = unfold items_loop in refl
to_items-join c (p ∷ ps) black h k =
    items_loop-join c black (length (join c (p ∷ ps))) p ps h k (omega arith)
