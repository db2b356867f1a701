-- ===== src/Text/Dates.antt =====
-- release/common/static_utils.h: token, and the date of an e-mail.
pub mod Laws
pub mod Tokens
pub mod Months
use robot_arm_2d.Prelude.{
  Bool, true, false, ◌||◌, [], ◌∷◌, ◌++◌, none, some, Bytes, codes, length, ltb, ◌==◌, equal,
  if◌then◌else◌,
}
use robot_arm_2d.Text.Chars.{isspace, isdigit}
use robot_arm_2d.Text.Split.{cut_at}
use robot_arm_2d.Text.Subst.{starts_with}
use robot_arm_2d.Text.Trim.{skip_white, skip_to_white, to_white}

-- `token(&tmp)`: the word, and where the pointer stands behind it.
unfoldable pub token : Bytes → Bytes × Bytes
unfolding skip_white skip_to_white to_white
token str_ptr = let tmp = skip_white str_ptr in (to_white tmp, skip_to_white tmp)

unfoldable pub convert_month : Bytes → Bytes
convert_month month =
    if equal month (codes "Jan")
    then codes "01"
    else if equal month (codes "Feb")
    then codes "02"
    else if equal month (codes "Mar")
    then codes "03"
    else if equal month (codes "Apr")
    then codes "04"
    else if equal month (codes "May")
    then codes "05"
    else if equal month (codes "Jun")
    then codes "06"
    else if equal month (codes "Jul")
    then codes "07"
    else if equal month (codes "Aug")
    then codes "08"
    else if equal month (codes "Sep")
    then codes "09"
    else if equal month (codes "Oct")
    then codes "10"
    else if equal month (codes "Nov")
    then codes "11"
    else if equal month (codes "Dec")
    then codes "12"
    else codes "11"

unfoldable pub is_month : Bytes → Bool
unfolding starts_with
is_month [] = false
is_month (c ∷ s) =
    if isspace c
    then false
    else if c == b'J'
    then starts_with (codes "an") s || starts_with (codes "un") s || starts_with (codes "ul") s
    else if c == b'A'
    then starts_with (codes "ug") s || starts_with (codes "pr") s
    else if c == b'M'
    then starts_with (codes "ay") s || starts_with (codes "ar") s
    else if c == b'N'
    then starts_with (codes "ov") s
    else if c == b'F'
    then starts_with (codes "eb") s
    else if c == b'D'
    then starts_with (codes "ec") s
    else if c == b'S'
    then starts_with (codes "ep") s
    else if c == b'O'
    then starts_with (codes "ct") s
    else false

pub record MailDate : Type 0 where
  pub day : Bytes
  pub month : Bytes
  pub year : Bytes
  pub time_format : Bytes

-- `while ( !isdigit(*tmp) && *tmp )`: whether a month was found, and where the loop stops.
unfoldable pub find_date : Bytes → Bool × Bytes
unfolding is_month
find_date [] = (false, [])
find_date (c ∷ s) =
    let rest = find_date s in
    if isdigit c then (false, c ∷ s) else if is_month (c ∷ s) then (true, c ∷ s) else rest

-- The four words, with the month first if it was found.
unfoldable pub read_date : Bool → Bytes → MailDate
unfolding token
read_date month_first tmp =
    let a = token tmp in
    let b = token a.1 in
    let c = token b.1 in
    let d = token c.1 in
    record {
      day = if month_first then b.0 else a.0;
      month = if month_first then a.0 else b.0;
      year = c.0;
      time_format = d.0;
    }

-- `i = year.find(':')` is more than 0.
unfoldable pub is_time : Bytes → Bool
unfolding cut_at
is_time year = ltb 0 (elim (cut_at b':' year) [ none ↦ 0 | some (a, b) ↦ length a ])

-- Year and time are sometimes switched; then the day gets two digits and the month its number.
unfoldable pub finish_date : MailDate → MailDate
unfolding is_time convert_month
finish_date d = record {
  day = if length d.day == 1 then codes "0" ++ d.day else d.day;
  month = convert_month d.month;
  year = if is_time d.year then d.time_format else d.year;
  time_format = if is_time d.year then d.year else d.time_format;
}

-- The text has no digit and no month: the four strings stay empty.
abbrev pub no_date : MailDate
no_date = record { day = []; month = []; year = []; time_format = [] }

unfoldable pub date_at : Bool × Bytes → MailDate
unfolding read_date finish_date
date_at (true, tmp) = finish_date (read_date true tmp)
date_at (false, []) = no_date
date_at (false, c ∷ s) = finish_date (read_date false (c ∷ s))

unfoldable pub extract_e_mail_date : Bytes → MailDate
unfolding find_date date_at
extract_e_mail_date date_str = date_at (find_date date_str)

unfoldable pub e_mail_date_to_odbc_format : Bytes → Bytes
unfolding extract_e_mail_date
e_mail_date_to_odbc_format date_str =
    let d = extract_e_mail_date date_str in
    d.year ++ codes "-" ++ d.month ++ codes "-" ++ d.day ++ codes " " ++ d.time_format
