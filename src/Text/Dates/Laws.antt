-- ===== src/Text/Dates/Laws.antt =====
-- release/common/static_utils.h: the date of an e-mail in the four orders of its words.
use robot_arm_2d.Prelude.{
  ◌≡◌, ◌≢◌, refl, ap, ◌∙◌, Bool, true, false, [], ◌∷◌, ◌++◌, Option, some, none, arith, Bytes,
  codes, length, ltb, ◌==◌, if◌then◌else◌, All, All-append, Lacks, ℕ,
}
use robot_arm_2d.Text.Chars.{isspace, isdigit}
use robot_arm_2d.Text.Dates.{
  MailDate, is_month, find_date, read_date, is_time, finish_date, date_at, extract_e_mail_date,
  e_mail_date_to_odbc_format,
}
use robot_arm_2d.Text.Split.Join.{cut_at-append, cut_at-Lacks}
use robot_arm_2d.Text.Dates.Tokens.{IsWord, EndsWord, words, date_of, read_date-words}
use robot_arm_2d.Text.Dates.Months.{Month, month_name, month_name-IsRead}

-- Neither a digit nor a month stands before the rest of the text.
abbrev pub NoDate : Bytes → Bytes → Type 0
NoDate [] rest = Unit
NoDate (c ∷ s) rest = (isdigit c ≡ false) × (is_month (c ∷ s ++ rest) ≡ false) × NoDate s rest

find_date-NoDate :
    (intro rest : Bytes) → NoDate intro rest → find_date (intro ++ rest) ≡ find_date rest
unfolding find_date
find_date-NoDate [] rest h = refl
find_date-NoDate (c ∷ s) rest (h, k, hs) = rw (h, k) (find_date-NoDate s rest hs)

-- A time is hours, a colon and the rest of it, without white space.
abbrev pub IsClock : Bytes → Bytes → Type 0
IsClock hours rest =
    (hours ≢ [])
    × Lacks b':' hours
    × All (λ c. isspace c ≡ false) hours
    × All (λ c. isspace c ≡ false) rest

abbrev pub clock : Bytes → Bytes → Bytes
clock hours rest = hours ++ b':' ∷ rest

-- The words of a date: the month before or behind the day, and the year before or behind the time.
abbrev pub written : Bool → Bool → Month → Bytes → Bytes → Bytes → Bytes → Bytes
written month_first year_last m day year time zone =
    words (if month_first then (month_name m).0 else day)
      (if month_first then day else (month_name m).0) (if year_last then time else year)
      (if year_last then year else time) zone

abbrev pub two_digits : Bytes → Bytes
two_digits day = if length day == 1 then codes "0" ++ day else day

clock-IsWord : (hours rest : Bytes) → IsClock hours rest → IsWord (clock hours rest)
clock-IsWord [] rest (h, _, _, _) = absurd (h refl)
clock-IsWord (c ∷ hours) rest (h, _, k, l) =
    ((cc), All-append (λ d. isspace d ≡ false) (c ∷ hours) (b':' ∷ rest) k (refl, l))

clock-is_time : (hours rest : Bytes) → IsClock hours rest → is_time (clock hours rest) ≡ true
unfolding is_time
clock-is_time [] rest (h, _, _, _) = absurd (h refl)
clock-is_time (c ∷ hours) rest (h, k, _, _) =
    ap (λ (o : Option (Bytes × Bytes)). ltb 0 (elim o [ none ↦ 0 | some (a, b) ↦ length a ]))
      (cut_at-append b':' (c ∷ hours) rest k)
    ∙ ground arith

year-is_time : (year : Bytes) → Lacks b':' year → is_time year ≡ false
unfolding is_time
year-is_time year h =
    ap (λ (o : Option (Bytes × Bytes)). ltb 0 (elim o [ none ↦ 0 | some (a, b) ↦ length a ]))
      (cut_at-Lacks b':' year h)

abbrev finished : Bytes → Bytes → Bytes → Bytes → Bool → MailDate
finished day month c d time = record {
  day = two_digits day;
  month = month;
  year = if time then d else c;
  time_format = if time then c else d;
}

finish_date-eq :
    (time : Bool) (m : Month) (day c d : Bytes)
    → is_time c ≡ time
    → finish_date (record { day = day; month = (month_name m).0; year = c; time_format = d })
      ≡ finished day (month_name m).1 c d time
unfolding finish_date
finish_date-eq time m day c d e =
    ap (λ n. finished day n c d (is_time c)) (month_name-IsRead m).1
    ∙ ap (finished day (month_name m).1 c d) e

-- The result for the four words, whichever of the two is first.
finish_date-date_of :
    (month_first year_last : Bool) (m : Month) (day year hours rest : Bytes)
    → Lacks b':' year
    → IsClock hours rest
    → finish_date (
        date_of month_first
          (if month_first then (month_name m).0 else day)
          (if month_first then day else (month_name m).0)
          (if year_last then clock hours rest else year)
          (if year_last then year else clock hours rest))
      ≡ finished day (month_name m).1 year (clock hours rest) false
finish_date-date_of true true m day year hours rest h k =
    finish_date-eq true m day (clock hours rest) year (clock-is_time hours rest k)
finish_date-date_of true false m day year hours rest h k =
    finish_date-eq false m day year (clock hours rest) (year-is_time year h)
finish_date-date_of false true m day year hours rest h k =
    finish_date-eq true m day (clock hours rest) year (clock-is_time hours rest k)
finish_date-date_of false false m day year hours rest h k =
    finish_date-eq false m day year (clock hours rest) (year-is_time year h)

find_date-written :
    (first year_last : Bool) (m : Month) (d : ℕ) (ay year time zone : Bytes)
    → isdigit d ≡ true
    → find_date (written first year_last m (d ∷ ay) year time zone)
      ≡ (first, written first year_last m (d ∷ ay) year time zone)
unfolding find_date
find_date-written true year_last m d ay year time zone h = (month_name-IsRead m).2 (
    b' '
    ∷ ((d ∷ ay)
        ++ b' '
          ∷ ((if year_last then time else year)
              ++ b' ' ∷ ((if year_last then year else time) ++ zone))))
find_date-written false year_last m d ay year time zone h = rw h refl

date_at-written :
    (first year_last : Bool) (m : Month) (d : ℕ) (ay year time zone : Bytes)
    → date_at (first, written first year_last m (d ∷ ay) year time zone)
      ≡ finish_date (read_date first (written first year_last m (d ∷ ay) year time zone))
unfolding date_at
date_at-written true year_last m d ay year time zone = refl
date_at-written false year_last m d ay year time zone = refl

IsWord-if : (b : Bool) (x y : Bytes) → IsWord x → IsWord y → IsWord (if b then x else y)
IsWord-if true x y h k = h
IsWord-if false x y h k = k

read_date-written :
    (first year_last : Bool) (m : Month) (day year time zone : Bytes)
    → IsWord day
    → IsWord year
    → IsWord time
    → EndsWord zone
    → read_date first (written first year_last m day year time zone)
      ≡ date_of first
          (if first then (month_name m).0 else day)
          (if first then day else (month_name m).0)
          (if year_last then time else year)
          (if year_last then year else time)
read_date-written first year_last m day year time zone hd hy ht hz =
    let hm = (month_name-IsRead m).0 in
    read_date-words first (if first then (month_name m).0 else day)
      (if first then day else (month_name m).0) (if year_last then time else year)
      (if year_last then year else time) zone (IsWord-if first (month_name m).0 day hm hd)
      (IsWord-if first day (month_name m).0 hd hm) (IsWord-if year_last time year ht hy)
      (IsWord-if year_last year time hy ht) hz

abbrev odbc : MailDate → Bytes
odbc d = d.year ++ codes "-" ++ d.month ++ codes "-" ++ d.day ++ codes " " ++ d.time_format

digit-IsWord :
    (d : ℕ) (ay : Bytes) → isdigit d ≡ true → All (λ c. isspace c ≡ false) ay → IsWord (d ∷ ay)
digit-IsWord d ay h k = ((cc), (ground arith, k))

-- The date stands behind a text with neither a digit nor a month in it: a day that begins with a digit,
-- a month, a year without a colon and a time with hours before its first colon, in any of the four
-- orders `written`, and then nothing or white space. The result is the year, the number of the month
-- and the day with two digits, with dashes, and the time.
pub e_mail_date_to_odbc_format-written :
    (month_first year_last : Bool) (intro : Bytes) (m : Month) (d : ℕ)
    (ay year hours rest zone : Bytes)
    → isdigit d ≡ true
    → All (λ c. isspace c ≡ false) ay
    → IsWord year
    → Lacks b':' year
    → IsClock hours rest
    → EndsWord zone
    → NoDate intro (written month_first year_last m (d ∷ ay) year (clock hours rest) zone)
    → e_mail_date_to_odbc_format
        (intro ++ written month_first year_last m (d ∷ ay) year (clock hours rest) zone)
      ≡ year
        ++ codes "-"
        ++ (month_name m).1
        ++ codes "-"
        ++ two_digits (d ∷ ay)
        ++ codes " "
        ++ clock hours rest
unfolding e_mail_date_to_odbc_format extract_e_mail_date
e_mail_date_to_odbc_format-written month_first year_last intro m d ay year hours rest zone hd ha hy
      hl hc hz hn =
    let time : Bytes = clock hours rest in
    let text : Bytes = written month_first year_last m (d ∷ ay) year time zone in
    ap (λ (x : Bool × Bytes). odbc (date_at x))
      (find_date-NoDate intro text hn
        ∙ find_date-written month_first year_last m d ay year time zone hd)
    ∙ ap odbc (
        date_at-written month_first year_last m d ay year time zone
        ∙ ap finish_date (
            read_date-written month_first year_last m (d ∷ ay) year time zone
              (digit-IsWord d ay hd ha) hy (clock-IsWord hours rest hc) hz)
        ∙ finish_date-date_of month_first year_last m (d ∷ ay) year hours rest hl hc)
