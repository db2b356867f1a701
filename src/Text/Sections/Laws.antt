-- ===== src/Text/Sections/Laws.antt =====
-- release/common/static_utils.h: mark_section and string_extract_field on texts with nested tags.
use robot_arm_2d.Prelude.{
  ℕ, zero, suc, ◌+◌, ◌≤◌, ◌<◌, ◌≡◌, ◌≢◌, refl, sym, ap, subst, ◌∙◌, true, false, [], ◌∷◌, ◌++◌,
  append_assoc, Option, none, some, arith, Bytes, Lacks, length, length-append, drop,
}
use robot_arm_2d.Text.Subst.{starts_with}
use robot_arm_2d.Text.Sections.{stop, go, first_mark, marked, mark_step, mark_loop, mark_section}

-- A text with sections in it: characters, and sections between an opening and a closing tag.
pub data Nest : Type 0 where
  ending : Nest
  character : ℕ → Nest → Nest
  section : Nest → Nest → Nest

abbrev pub print : Bytes → Bytes → Nest → Bytes
print tag_b tag_e ending = []
print tag_b tag_e (character c rest) = c ∷ print tag_b tag_e rest
print tag_b tag_e (section body rest) =
    tag_b ++ (print tag_b tag_e body ++ (tag_e ++ print tag_b tag_e rest))

-- No character of the text begins a tag.
abbrev pub IsPlain : Nest → Type 0
IsPlain ending = Unit
IsPlain (character c rest) = (c ≢ b'<') × IsPlain rest
IsPlain (section body rest) = IsPlain body × IsPlain rest

starts_with-append : (key s : Bytes) → starts_with key (key ++ s) ≡ true
unfolding starts_with
starts_with-append [] s = refl
starts_with-append (k ∷ key) s = ground (arith, starts_with-append key s)

drop-append : (key s : Bytes) → drop (length key) (key ++ s) ≡ s
drop-append [] s = refl
drop-append (k ∷ key) s = drop-append key s

-- A tag `<c…>` that does not begin with `</`, and the closing tag that goes with it.
module _ (c : ℕ) (n : Bytes) (h : c ≢ b'/') where
  abbrev tag : Bytes
  tag = b'<' ∷ c ∷ n

  abbrev e_tag : Bytes
  e_tag = b'<' ∷ b'/' ∷ c ∷ n

  mark_step-character :
      (k : ℕ) (b : Option Bytes) (d : ℕ) (s : Bytes)
      → d ≢ b'<'
      → mark_step tag e_tag k b d s ≡ go k b s
  unfolding mark_step starts_with
  mark_step-character k b d s e = ground arith

  mark_step-tag :
      (k : ℕ) (b : Option Bytes) (s : Bytes)
      → mark_step tag e_tag k b b'<' (c ∷ n ++ s) ≡ go (suc k) (first_mark b s) s
  unfolding mark_step first_mark
  mark_step-tag k b s = rw (starts_with-append tag s, drop-append tag s, mark_step) refl

  starts_with-e_tag : (s : Bytes) → starts_with tag (e_tag ++ s) ≡ false
  unfolding starts_with
  starts_with-e_tag s = ground arith

  mark_step-e_tag :
      (k : ℕ) (b : Option Bytes) (s : Bytes)
      → mark_step tag e_tag (suc (suc k)) b b'<' (b'/' ∷ c ∷ n ++ s) ≡ go (suc k) b s
  unfolding mark_step
  mark_step-e_tag k b s =
      rw (starts_with-e_tag s, starts_with-append e_tag s, drop-append e_tag s, mark_step)
        (ground arith)

  mark_step-last :
      (b : Option Bytes) (s : Bytes)
      → mark_step tag e_tag 1 b b'<' (b'/' ∷ c ∷ n ++ s) ≡ stop (marked b (some (e_tag ++ s)))
  unfolding mark_step
  mark_step-last b s = rw (starts_with-e_tag s, starts_with-append e_tag s, mark_step) refl

  -- The loop goes on with less fuel, which is enough for what is left.
  Leads : ℕ × Option Bytes × Bytes → ℕ × Option Bytes × Bytes → Type 0
  Leads x y =
      (fuel : ℕ)
      → length x.2 ≤ fuel
      → (left : ℕ) × (length y.2 ≤ left)
        × (mark_loop fuel tag e_tag x.0 x.1 x.2 ≡ mark_loop left tag e_tag y.0 y.1 y.2)

  -- A round that does not return.
  Leads-step :
      (k : ℕ) (b : Option Bytes) (d : ℕ) (s : Bytes) (k' : ℕ) (b' : Option Bytes) (s' : Bytes)
      → length s' ≤ length s
      → mark_step tag e_tag k b d s ≡ go k' b' s'
      → Leads (k, b, d ∷ s) (k', b', s')
  unfolding mark_loop Leads
  Leads-step k b d s k' b' s' l e zero m = absurd (omega arith)
  Leads-step k b d s k' b' s' l e (suc fuel) m = (fuel, omega arith, rw (e, mark_loop) refl)

  Leads-Leads : (x y z : ℕ × Option Bytes × Bytes) → Leads x y → Leads y z → Leads x z
  unfolding Leads
  Leads-Leads x y z f g fuel m =
      let (left, l, e) = f fuel m in let (less, l', e') = g left l in (less, l', e ∙ e')

  Leads-refl : (x : ℕ × Option Bytes × Bytes) → Leads x x
  unfolding Leads
  Leads-refl x fuel l = (fuel, l, refl)

  Leads-tag :
      (k : ℕ) (b : Option Bytes) (s : Bytes) → Leads (k, b, tag ++ s) (suc k, first_mark b s, s)
  Leads-tag k b s =
      Leads-step k b b'<' (c ∷ n ++ s) (suc k) (first_mark b s) s (omega (arith, length-append n s))
        (mark_step-tag k b s)

  Leads-e_tag :
      (k : ℕ) (b : Option Bytes) (s : Bytes) → Leads (suc (suc k), b, e_tag ++ s) (suc k, b, s)
  Leads-e_tag k b s =
      Leads-step (suc (suc k)) b b'<' (b'/' ∷ c ∷ n ++ s) (suc k) b s
        (omega (arith, length-append n s)) (mark_step-e_tag k b s)

  Leads-character :
      (k : ℕ) (b : Option Bytes) (d : ℕ) (s : Bytes) → d ≢ b'<' → Leads (k, b, d ∷ s) (k, b, s)
  Leads-character k b d s h = Leads-step k b d s k b s (omega arith) (mark_step-character k b d s h)

  -- The text before what follows it.
  before : Nest → Bytes → Bytes
  before ending s = s
  before (character d rest) s = d ∷ before rest s
  before (section body rest) s = tag ++ before body (e_tag ++ before rest s)

  before-eq : (body : Nest) (s : Bytes) → before body s ≡ print tag e_tag body ++ s
  unfolding before
  before-eq ending s = refl
  before-eq (character d rest) s = ap (d ∷◌) (before-eq rest s)
  before-eq (section body rest) s =
      ap (λ t. tag ++ before body (e_tag ++ t)) (before-eq rest s)
      ∙ ap (tag ++◌) (before-eq body (e_tag ++ (print tag e_tag rest ++ s)))
      ∙ simp append_assoc

  -- Inside a section the loop passes over a text with sections in it.
  Leads-before :
      (body : Nest) (k : ℕ) (m : Bytes) (s : Bytes)
      → IsPlain body
      → Leads (suc k, some m, before body s) (suc k, some m, s)
  unfolding before first_mark
  Leads-before ending k m s p = Leads-refl (suc k, some m, s)
  Leads-before (character d rest) k m s (p, q) =
      Leads-Leads _ _ _ (Leads-character (suc k) (some m) d (before rest s) p)
        (Leads-before rest k m s q)
  Leads-before (section body rest) k m s (p, q) =
      let behind = before rest s in
      Leads-Leads _ _ _ (Leads-tag (suc k) (some m) (before body (e_tag ++ behind))) (
        Leads-Leads _ _ _ (Leads-before body (suc k) m (e_tag ++ behind) p)
          (Leads-Leads _ _ _ (Leads-e_tag k (some m) behind) (Leads-before rest k m s q)))

  -- Before the first tag the loop looks for it.
  Leads-Lacks : (text s : Bytes) → Lacks b'<' text → Leads (0, none, text ++ s) (0, none, s)
  Leads-Lacks [] s h = Leads-refl (0, none, s)
  Leads-Lacks (d ∷ text) s (h, k) =
      Leads-Leads _ _ _ (Leads-character 0 none d (text ++ s) h) (Leads-Lacks text s k)

  marked-start :
      (s : Bytes) (e : Option Bytes)
      → 0 < length s
      → marked (some s) e ≡ some (record { begin_text = s; end_text = e })
  unfolding marked
  marked-start [] e h = absurd (omega arith)
  marked-start (d ∷ s) e h = refl

  mark_loop-last :
      (fuel : ℕ) (m s : Bytes)
      → length (e_tag ++ s) ≤ fuel
      → 0 < length m
      → mark_loop fuel tag e_tag 1 (some m) (e_tag ++ s)
        ≡ some (some (record { begin_text = m; end_text = some (e_tag ++ s) }))
  unfolding mark_loop
  mark_loop-last zero m s l p = absurd (omega arith)
  mark_loop-last (suc fuel) m s l p =
      rw (mark_step-last (some m) s, mark_loop) (ap some (marked-start m (some (e_tag ++ s)) p))

  Leads-inside :
      (body : Nest) (m s : Bytes)
      → m ≡ before body (e_tag ++ s)
      → IsPlain body
      → Leads (1, some m, m) (1, some m, e_tag ++ s)
  Leads-inside body m s e p =
      subst (λ (t : Bytes). Leads (1, some m, t) (1, some m, e_tag ++ s)) (sym e)
        (Leads-before body 0 m (e_tag ++ s) p)

  Leads-section :
      (text : Bytes) (body : Nest) (m s : Bytes)
      → Lacks b'<' text
      → m ≡ before body (e_tag ++ s)
      → IsPlain body
      → Leads (0, none, text ++ (tag ++ m)) (1, some m, e_tag ++ s)
  unfolding first_mark
  Leads-section text body m s h e p =
      Leads-Leads (0, none, text ++ (tag ++ m)) (0, none, tag ++ m) (1, some m, e_tag ++ s)
        (Leads-Lacks text (tag ++ m) h)
        (Leads-Leads (0, none, tag ++ m) (1, some m, m) (1, some m, e_tag ++ s) (Leads-tag 0 none m)
          (Leads-inside body m s e p))

  pub mark_section-before :
      (text : Bytes) (body : Nest) (s : Bytes)
      → Lacks b'<' text
      → IsPlain body
      → mark_section (text ++ (tag ++ (print tag e_tag body ++ (e_tag ++ s)))) tag e_tag
        ≡ some (
            some (record {
              begin_text = print tag e_tag body ++ (e_tag ++ s);
              end_text = some (e_tag ++ s);
            }))
  unfolding mark_section Leads
  mark_section-before text body s h p =
      let m : Bytes = print tag e_tag body ++ (e_tag ++ s) in
      let whole : Bytes = text ++ (tag ++ m) in
      let (left, k, r) =
        Leads-section text body m s h (sym (before-eq body (e_tag ++ s))) p
          (length whole + length whole) (omega arith) in
      r
      ∙ mark_loop-last left m s k (omega (arith, length-append (print tag e_tag body) (e_tag ++ s)))
