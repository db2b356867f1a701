-- ===== src/Text/Sections.antt =====
-- release/common/static_utils.h: mark_section and the fields that are cut out between two tags.
pub mod Total
pub mod Fields
pub mod Laws
use robot_arm_2d.Prelude.{
  ℕ, zero, suc, ◌+◌, ◌-◌, get_elem?, [], ◌∷◌, ◌++◌, Option, none, some, ◌>>=◌, Bytes, codes, length,
  drop, take, ltb, leb, ◌==◌, if◌then◌else◌,
}
use robot_arm_2d.Text.Subst.{starts_with}
use robot_arm_2d.Text.Trim.{trim}

-- What `mark_section` finds: `*begin`, the text behind the first opening tag, and `*end`, the text
-- from the closing tag that belongs to it, which is NULL where there is none.
pub record Section : Type 0 where
  pub begin_text : Bytes
  pub end_text : Option Bytes

-- `if ( b == NULL ) b = tmp;`
unfoldable pub first_mark : Option Bytes → Bytes → Option Bytes
first_mark none tmp = some tmp
first_mark (some b) tmp = some b

-- Behind the loop: a section has a start, and something behind its start.
unfoldable pub marked : Option Bytes → Option Bytes → Option Section
marked none e = none
marked (some []) e = none
marked (some (c ∷ b)) e = some (record { begin_text = c ∷ b; end_text = e })

-- A round of the loop: the section that the function returns, where there is one, or the counter, the
-- mark and the pointer that it goes on with.
pub data Mark : Type 0 where
  stop : Option Section → Mark
  go : ℕ → Option Bytes → Bytes → Mark

-- The counter is 0 or more at the start of a round.
unfoldable pub mark_step : Bytes → Bytes → ℕ → Option Bytes → ℕ → Bytes → Mark
unfolding first_mark marked starts_with
mark_step tag_b tag_e start_count b c s =
    let tmp = drop (length tag_b) (c ∷ s) in
    if starts_with tag_b (c ∷ s)
    then go (suc start_count) (first_mark b tmp) tmp
    else if starts_with tag_e (c ∷ s)
    then if start_count == 0
      then stop none
      else if start_count == 1
      then stop (marked b (some (c ∷ s)))
      else go (start_count - 1) b (drop (length tag_e) (c ∷ s))
    else go start_count b s

-- `while ( *tmp ) { … }` and what follows it. The outer `none` means that the fuel ran out.
unfoldable pub mark_loop : ℕ → Bytes → Bytes → ℕ → Option Bytes → Bytes → Option (Option Section)
unfolding mark_step marked
mark_loop fuel tag_b tag_e start_count b [] = some (marked b none)
mark_loop zero tag_b tag_e start_count b (c ∷ s) = none
mark_loop (suc fuel) tag_b tag_e start_count b (c ∷ s) =
    elim (mark_step tag_b tag_e start_count b c s) [
      | stop found ↦ some found
      | go count mark tmp ↦ mark_loop fuel tag_b tag_e count mark tmp
    ]

-- A round takes a character at least or, at a closing tag that is empty, one from the counter, which a
-- round adds one to at most. An opening tag that is empty is found for ever, and the fuel runs out.
unfoldable pub mark_section : Bytes → Bytes → Bytes → Option (Option Section)
unfolding mark_loop
mark_section begin_text tag_b tag_e =
    mark_loop (length begin_text + length begin_text) tag_b tag_e 0 none begin_text

-- The characters that a pointer passes on its way to another one.
unfoldable pub between : Bytes → Bytes → Bytes
between nb ne = take (length nb - length ne) nb

unfoldable pub field_text : Section → Bytes
unfolding between
field_text marks = elim (marks.end_text) [ none ↦ [] | some ne ↦ between marks.begin_text ne ]

-- `none` stands for a field that runs over the buffer's 512 characters, its final 0 included.
unfoldable pub cut_field : Bytes → Section → Option Bytes
unfolding field_text
cut_field begin_text marks =
    let field = field_text marks in
    if ltb (length marks.begin_text) (length begin_text)
    then if ltb (length field) 512 then some (trim field) else none
    else some []

unfoldable pub extract_field : Bytes → Bytes → Bytes → Option Bytes
unfolding mark_section cut_field
extract_field begin_text p_name e_p_name = mark_section begin_text p_name e_p_name >>= λ found.
    elim found [ none ↦ some [] | some marks ↦ cut_field begin_text marks ]

-- `skip_to_char`; `none` is NULL.
unfoldable pub skip_to_char : Bytes → ℕ → Option Bytes
skip_to_char [] c = none
skip_to_char (d ∷ s) c = if d == c then some (d ∷ s) else skip_to_char s c

-- `*(nb - 1)`
unfoldable pub char_before : Bytes → Bytes → ℕ
char_before begin_text nb = elim (get_elem? begin_text (length begin_text - length nb - 1)) [
  | none ↦ 0
  | some c ↦ c
]

-- `if ( *(nb - 1) != '>' ) { nb = skip_to_char(nb,'>'); if ( *nb ) nb++; }`; `none` is the use of NULL.
unfoldable pub close_tag : Bytes → Bytes → Option Bytes
unfolding char_before skip_to_char
close_tag begin_text nb =
    if char_before begin_text nb == b'>'
    then some nb
    else skip_to_char nb b'>' >>= λ at_end. some (drop 1 at_end)

-- The size `(size_t)(ne - nb) + 2` leaves room for a 0 if `nb` is at most one character behind `ne`;
-- `none` stands for what happens behind that.
unfoldable pub cut_large_field : Bytes → Bytes → Option Bytes
unfolding between
cut_large_field nb ne = if leb (length ne) (suc (length nb)) then some (between nb ne) else none

-- `if ( ne == NULL ) ne = nb + strlen(nb);`
unfoldable pub end_or_last : Option Bytes → Bytes
end_or_last none = []
end_or_last (some e) = e

unfoldable pub large_field : Bytes → Section → Option Bytes
unfolding close_tag cut_large_field end_or_last
large_field begin_text marks =
    if ltb (length marks.begin_text) (length begin_text)
    then close_tag begin_text marks.begin_text
      >>= (λ nb. cut_large_field nb (end_or_last marks.end_text))
    else some []

unfoldable pub extract_large_field : Bytes → Bytes → Bytes → Option Bytes
unfolding mark_section large_field
extract_large_field begin_text p_name e_p_name =
    mark_section begin_text p_name e_p_name >>= λ found. elim found [
      | none ↦ some []
      | some marks ↦ large_field begin_text marks
    ]

-- `tag.substr(1)` throws where the tag is empty.
unfoldable pub string_extract_field : Bytes → Bytes → Option Bytes
unfolding extract_large_field
string_extract_field text [] = none
string_extract_field text (c ∷ tag) = extract_large_field text (c ∷ tag) (codes "</" ++ tag)
