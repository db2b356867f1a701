-- ===== src/Text/Dates/Months.antt =====
-- release/common/static_utils.h: the names of the months.
use robot_arm_2d.Prelude.{◌≡◌, refl, true, ◌++◌, Bytes, codes}
use robot_arm_2d.Text.Dates.{convert_month, is_month, find_date}
use robot_arm_2d.Text.Dates.Tokens.{IsWord}

pub data Month : Type 0 where
  january : Month
  february : Month
  march : Month
  april : Month
  may : Month
  june : Month
  july : Month
  august : Month
  september : Month
  october : Month
  november : Month
  december : Month

-- The month as it is written in an e-mail, and its number with two digits.
abbrev pub month_name : Month → Bytes × Bytes
month_name january = (codes "Jan", codes "01")
month_name february = (codes "Feb", codes "02")
month_name march = (codes "Mar", codes "03")
month_name april = (codes "Apr", codes "04")
month_name may = (codes "May", codes "05")
month_name june = (codes "Jun", codes "06")
month_name july = (codes "Jul", codes "07")
month_name august = (codes "Aug", codes "08")
month_name september = (codes "Sep", codes "09")
month_name october = (codes "Oct", codes "10")
month_name november = (codes "Nov", codes "11")
month_name december = (codes "Dec", codes "12")

-- A month is read as what it is.
abbrev pub IsRead : Month → Type 0
IsRead m =
    IsWord (month_name m).0
    × (convert_month (month_name m).0 ≡ (month_name m).1)
    × ((s : Bytes) → find_date ((month_name m).0 ++ s) ≡ (true, (month_name m).0 ++ s))

pub month_name-IsRead : (m : Month) → IsRead m
unfolding convert_month find_date is_month robot_arm_2d.Text.Subst.starts_with
month_name-IsRead january = (((cc), (refl, (refl, (refl, tt)))), refl, λ s. refl)
month_name-IsRead february = (((cc), (refl, (refl, (refl, tt)))), refl, λ s. refl)
month_name-IsRead march = (((cc), (refl, (refl, (refl, tt)))), refl, λ s. refl)
month_name-IsRead april = (((cc), (refl, (refl, (refl, tt)))), refl, λ s. refl)
month_name-IsRead may = (((cc), (refl, (refl, (refl, tt)))), refl, λ s. refl)
month_name-IsRead june = (((cc), (refl, (refl, (refl, tt)))), refl, λ s. refl)
month_name-IsRead july = (((cc), (refl, (refl, (refl, tt)))), refl, λ s. refl)
month_name-IsRead august = (((cc), (refl, (refl, (refl, tt)))), refl, λ s. refl)
month_name-IsRead september = (((cc), (refl, (refl, (refl, tt)))), refl, λ s. refl)
month_name-IsRead october = (((cc), (refl, (refl, (refl, tt)))), refl, λ s. refl)
month_name-IsRead november = (((cc), (refl, (refl, (refl, tt)))), refl, λ s. refl)
month_name-IsRead december = (((cc), (refl, (refl, (refl, tt)))), refl, λ s. refl)
