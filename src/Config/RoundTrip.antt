-- ===== src/Config/RoundTrip.antt =====
-- release/common/parameters.h: read_parameters on files that are written from a list of entries.
use robot_arm_2d.Prelude.{
  ℕ, ◌<◌, ◌≡◌, ◌≢◌, refl, sym, ap, ◌∙◌, true, false, List, [], ◌∷◌, ◌++◌, append_assoc, append-nil,
  some, arith, Bytes, codes, All, All-append, Lacks, length, leb, equal, equal_iff, equal_refl,
}
use robot_arm_2d.Config.{
  Params, open_brace, close_brace, is_comment, read_lines, read_block, buffer_size, read_parameters,
}
use robot_arm_2d.StdMap.{put}
use robot_arm_2d.Text.Lines.Laws.{IsLine, unlines, to_no_empty_lines-unlines}
use robot_arm_2d.Text.Split.{split_string, split_at}
use robot_arm_2d.Text.Split.Join.{separated, join, cut_at-append, EndsBlack-append, EndsBlack-cons}
use robot_arm_2d.Text.Split.Laws.{IsItem}
use robot_arm_2d.Text.Trim.{trim_string}
use robot_arm_2d.Text.Trim.Laws.{IsTrimmed, StartsBlack, trim-eq}

-- An entry of parameters.ini: `key: term` on a line, or `key: {` with lines up to `}`.
pub data Entry : Type 0 where
  value : Bytes → Bytes → Entry
  block : Bytes → List Bytes → Entry

abbrev pub entry_lines : Entry → List Bytes
entry_lines (value key term) = (key ++ b':' ∷ term) ∷ []
entry_lines (block key items) = (key ++ b':' ∷ open_brace) ∷ (items ++ close_brace ∷ [])

abbrev pub file_lines : List Entry → List Bytes
file_lines [] = []
file_lines (e ∷ es) = entry_lines e ++ file_lines es

-- What the entry adds to the parameters: a block's lines are joined by `;`.
abbrev pub put_entry : Entry → Params → Params
put_entry (value key term) params = put key term params
put_entry (block key items) params = put key (join b';' items) params

abbrev pub put_entries : List Entry → Params → Params
put_entries [] params = params
put_entries (e ∷ es) params = put_entries es (put_entry e params)

-- A key: trimmed, not empty, with no colon and no line end, and not the start of a comment.
abbrev pub IsKey : Bytes → Type 0
IsKey key = IsItem b':' key × (key ≢ []) × Lacks b'\n' key × (is_comment key ≡ false)

-- A line of a block: kept by the reader, no comment, and not the closing brace.
abbrev pub IsBlockLine : Bytes → Type 0
IsBlockLine line = IsLine line × (is_comment line ≡ false) × (line ≢ close_brace)

abbrev pub IsEntry : Entry → Type 0
IsEntry (value key term) = IsKey key × IsTrimmed term × Lacks b'\n' term × (term ≢ open_brace)
IsEntry (block key items) = IsKey key × All IsBlockLine items

key-StartsBlack : (key rest : Bytes) → IsTrimmed key → key ≢ [] → StartsBlack (key ++ rest)
key-StartsBlack [] rest h k = absurd (k refl)
key-StartsBlack (c ∷ s) rest h k = h.0

entry-IsTrimmed : (key term : Bytes) → IsKey key → IsTrimmed term → IsTrimmed (key ++ b':' ∷ term)
entry-IsTrimmed key term (item, ne, _, _) t = (
  key-StartsBlack key (b':' ∷ term) item.0 ne,
  EndsBlack-append key (b':' ∷ term) (cc) (EndsBlack-cons b':' term refl t.1),
)

pub split_string-entry :
    (key term : Bytes)
    → IsKey key
    → IsTrimmed term
    → split_string (key ++ b':' ∷ term) [] b':' ≡ (key, term)
unfolding split_string split_at
split_string-entry key term k t =
    rw (
      trim-eq (key ++ b':' ∷ term) (entry-IsTrimmed key term k t),
      cut_at-append b':' key term k.0.1,
    )

is_comment-append : (key rest : Bytes) → IsKey key → is_comment (key ++ rest) ≡ false
is_comment-append [] rest k = absurd (k.1 refl)
is_comment-append (c ∷ s) rest k = k.3

pub trim_string-eq : (s : Bytes) → IsTrimmed s → trim_string s ≡ s
unfolding trim_string
trim_string-eq s h = trim-eq s h

not_equal : (a b : Bytes) → a ≢ b → equal a b ≡ false
not_equal a b h = ground (arith, equal_iff a b)

fits_test : (n : ℕ) → n < buffer_size → leb buffer_size n ≡ false
fits_test n h = ground arith

pub append-ne-nil : (l : Bytes) (c : ℕ) (r : Bytes) → l ++ c ∷ r ≢ []
append-ne-nil [] c r = cc
append-ne-nil (x ∷ l) c r = cc

-- The lines of a block behind what was read of it.
abbrev blocked : Bytes → List Bytes → Bytes
blocked sep [] = []
blocked sep (i ∷ is) = sep ++ (i ++ separated b';' is)

read_block-line :
    (line : Bytes) (rest : List Bytes) (key term sep : Bytes) (params : Params)
    → trim_string line ≡ line
    → is_comment line ≡ false
    → equal line close_brace ≡ false
    → read_block (line ∷ rest) true key term sep params
      ≡ read_block rest true key (term ++ (sep ++ line)) (codes ";") params
unfolding read_block
read_block-line line rest key term sep params t c e = ground arith

read_block-close :
    (rest : List Bytes) (key term sep : Bytes) (params : Params)
    → read_block (close_brace ∷ rest) true key term sep params
      ≡ read_lines rest true (put key term params)
unfolding read_block
read_block-close rest key term sep params =
    ground (arith, trim_string-eq close_brace (refl, refl), equal_refl close_brace)

read_block-items :
    (items rest : List Bytes) (key term sep : Bytes) (params : Params)
    → All IsBlockLine items
    → read_block (items ++ close_brace ∷ rest) true key term sep params
      ≡ read_lines rest true (put key (term ++ blocked sep items) params)
read_block-items [] rest key term sep params h =
    read_block-close rest key term sep params
    ∙ ap (λ t. read_lines rest true (put key t params)) (sym (append-nil term))
read_block-items (i ∷ is) rest key term sep params ((line, plain, ne), h) =
    read_block-line i (is ++ close_brace ∷ rest) key term sep params (trim_string-eq i line.0.0)
      plain (not_equal i close_brace ne)
    ∙ read_block-items is rest key (term ++ (sep ++ i)) (codes ";") params h
    ∙ ap (λ t. read_lines rest true (put key t params)) (regroup is)
  where
    regroup :
        (is : List Bytes)
        → (term ++ (sep ++ i)) ++ blocked (codes ";") is ≡ term ++ (sep ++ (i ++ separated b';' is))
    regroup [] = simp append_assoc
    regroup (j ∷ js) = simp append_assoc

blocked-join : (items : List Bytes) → blocked [] items ≡ join b';' items
blocked-join [] = refl
blocked-join (i ∷ is) = refl

read_lines-value :
    (line key term : Bytes) (rest : List Bytes) (params : Params)
    → is_comment line ≡ false
    → split_string line [] b':' ≡ (key, term)
    → trim_string key ≡ key
    → trim_string term ≡ term
    → equal term open_brace ≡ false
    → read_lines (line ∷ rest) true params ≡ read_lines rest true (put key term params)
unfolding read_lines
read_lines-value line key term rest params c e k t b = ground arith

read_lines-block :
    (line key : Bytes) (rest : List Bytes) (params : Params)
    → is_comment line ≡ false
    → split_string line [] b':' ≡ (key, open_brace)
    → trim_string key ≡ key
    → trim_string open_brace ≡ open_brace
    → read_lines (line ∷ rest) true params ≡ read_block rest true key [] [] params
unfolding read_lines
read_lines-block line key rest params c e k t = ground arith

-- A list of entries is read back from its lines.
pub read_lines-file_lines :
    (entries : List Entry) (params : Params)
    → All IsEntry entries
    → read_lines (file_lines entries) true params ≡ some (put_entries entries params)
read_lines-file_lines [] params h = unfold read_lines in refl
read_lines-file_lines (value key term ∷ es) params ((k, t, _, ne), h) =
    read_lines-value (key ++ b':' ∷ term) key term (file_lines es) params
      (is_comment-append key (b':' ∷ term) k) (split_string-entry key term k t)
      (trim_string-eq key k.0.0) (trim_string-eq term t) (not_equal term open_brace ne)
    ∙ read_lines-file_lines es (put key term params) h
read_lines-file_lines (block key items ∷ es) params ((k, lines), h) =
    read_lines-block (key ++ b':' ∷ open_brace) key _ params
      (is_comment-append key (b':' ∷ open_brace) k)
      (split_string-entry key open_brace k (refl, refl)) (trim_string-eq key k.0.0)
      (trim_string-eq open_brace (refl, refl))
    ∙ ap (λ t. read_block t true key [] [] params)
        (append_assoc items (close_brace ∷ []) (file_lines es))
    ∙ read_block-items items (file_lines es) key [] [] params lines
    ∙ ap (λ t. read_lines (file_lines es) true (put key t params)) (blocked-join items)
    ∙ read_lines-file_lines es (put key (join b';' items) params) h

entry_lines-All : (e : Entry) → IsEntry e → All IsLine (entry_lines e)
entry_lines-All (value key term) (k, t, lacks, _) = (
  (
    (entry-IsTrimmed key term k t, append-ne-nil key b':' term),
    All-append (λ c. c ≢ b'\n') key (b':' ∷ term) k.2 ((omega arith), lacks),
  ),
  tt,
)
entry_lines-All (block key items) (k, lines) = (
  (
    (entry-IsTrimmed key open_brace k (refl, refl), append-ne-nil key b':' open_brace),
    All-append (λ c. c ≢ b'\n') key (b':' ∷ open_brace) k.2 (omega arith),
  ),
  All-append IsLine items (close_brace ∷ []) (plain items lines)
      ((((refl, refl), (cc)), (omega arith)), tt),
)
  where
    plain : (is : List Bytes) → All IsBlockLine is → All IsLine is
    plain [] h = tt
    plain (i ∷ is) ((line, _, _), h) = (line, plain is h)

file_lines-All : (es : List Entry) → All IsEntry es → All IsLine (file_lines es)
file_lines-All [] h = tt
file_lines-All (e ∷ es) (he, h) =
    All-append IsLine (entry_lines e) (file_lines es) (entry_lines-All e he) (file_lines-All es h)

-- A parameter file that fits the buffer and was written from a list of well-formed entries is read
-- as those entries, put into the parameters in their order; the lines of a block come back joined
-- by `;`.
pub read_parameters-file_lines :
    (entries : List Entry) (params : Params)
    → All IsEntry entries
    → length (unlines (file_lines entries)) < buffer_size
    → read_parameters (some (unlines (file_lines entries))) true params
      ≡ some (put_entries entries params)
unfolding read_parameters
read_parameters-file_lines entries params h fits =
    let read = to_no_empty_lines-unlines (file_lines entries) (file_lines-All entries h) in
    let parsed = read_lines-file_lines entries params h in
    rw (fits_test (length (unlines (file_lines entries))) fits) (rw read parsed)
