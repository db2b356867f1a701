-- ===== src/Text/Implode/Laws.antt =====
-- release/common/static_utils.h: what implode puts together, and its way back by to_items.
use robot_arm_2d.Prelude.{
  ℕ, ◌≡◌, refl, sym, ap, ◌∙◌, true, false, List, [], ◌∷◌, ◌++◌, append_assoc, append-nil, map, drop,
  some, Bytes, All,
}
use robot_arm_2d.Text.Chars.{isspace}
use robot_arm_2d.Text.Implode.{accum_string, for_each, implode, nullop}
use robot_arm_2d.Text.Split.{to_items}
use robot_arm_2d.Text.Split.Join.{join, separated, EndsFull, to_items-join}
use robot_arm_2d.Text.Split.Laws.{IsItem}

-- Every text behind a separator.
abbrev pub behind : Bytes → List Bytes → Bytes
behind sep [] = []
behind sep (q ∷ qs) = sep ++ (q ++ behind sep qs)

for_each-behind {ℓ} :
    {A : Type ℓ} (sep : Bytes) (op : A → Bytes) (text : Bytes) (olist : List A)
    → for_each sep op text olist ≡ text ++ behind sep (map op olist)
unfolding for_each accum_string
for_each-behind sep op text [] = sym (append-nil text)
for_each-behind sep op text (pi ∷ olist) =
    for_each-behind sep op (text ++ (sep ++ op pi)) olist ∙ simp append_assoc

-- `implode` of a list that is not empty takes the first character of the separator away, and what is
-- left of it stands before the texts, which have the whole separator between them.
pub implode_lem {ℓ} :
    {A : Type ℓ} (c : ℕ) (r : Bytes) (op : A → Bytes) (pi : A) (olist : List A)
    → implode (c ∷ r) (pi ∷ olist) op true ≡ r ++ (op pi ++ behind (c ∷ r) (map op olist))
unfolding implode
implode_lem c r op pi olist = ap (drop 1) (for_each-behind (c ∷ r) op [] (pi ∷ olist))

behind-separated : (c : ℕ) (qs : List Bytes) → behind (c ∷ []) qs ≡ separated c qs
behind-separated c [] = refl
behind-separated c (q ∷ qs) = ap (λ t. c ∷ (q ++ t)) (behind-separated c qs)

map-nullop : (qs : List Bytes) → map nullop qs ≡ qs
unfolding nullop
map-nullop [] = refl
map-nullop (q ∷ qs) = ap (q ∷◌) (map-nullop qs)

nullop-eq : (s : Bytes) → nullop s ≡ s
unfolding nullop
nullop-eq s = refl

implode-nil : (sep : Bytes) → implode sep [] nullop true ≡ []
unfolding implode for_each
implode-nil sep = refl

implode-join : (c : ℕ) (items : List Bytes) → implode (c ∷ []) items nullop true ≡ join c items
implode-join c [] = implode-nil (c ∷ [])
implode-join c (q ∷ qs) =
    implode_lem c [] nullop q qs
    ∙ ap (λ (ts : List Bytes). nullop q ++ behind (c ∷ []) ts) (map-nullop qs)
    ∙ ap (nullop q ++◌) (behind-separated c qs)
    ∙ ap (λ t. t ++ separated c qs) (nullop-eq q)

-- `to_items` gives back the texts that `implode` has put together with a separator of one character, if
-- this is no white space, each text is trimmed and holds no separator, and the last is not empty.
pub to_items-implode :
    (c : ℕ) (items : List Bytes)
    → isspace c ≡ false
    → All (IsItem c) items
    → EndsFull items
    → to_items (implode (c ∷ []) items nullop true) c ≡ some items
to_items-implode c items h k l =
    ap (λ t. to_items t c) (implode-join c items) ∙ to_items-join c items h k l
