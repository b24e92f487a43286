-- ===== src/Calendar.antt =====
-- The civil calendar behind `Date` in UTC, from 1970 to 9999: days since 1970-01-01, a year, a month
-- and a day, and the text of `toISOString().slice(0, 10)`.
pub mod Days
pub mod Found
use Prim.Native.Char.{Char}
use Prim.Native.String.{[], ◌∷◌}
use koranco.Base.{
  ℕ, zero, suc, ◌+◌, ◌-◌, ◌/◌, ◌%◌, String, Bool, not, ◌&&◌, ◌||◌, eqb, ltb, if◌then◌else◌,
}

pub record Civil : Type 0 where
  pub year : ℕ
  pub month : ℕ
  pub day : ℕ

unfoldable pub is_leap : ℕ → Bool
is_leap y = eqb (y % 4) 0 && (not (eqb (y % 100) 0) || eqb (y % 400) 0)

unfoldable pub year_length : ℕ → ℕ
unfolding is_leap
year_length y = if is_leap y then 366 else 365

unfoldable pub month_length : ℕ → ℕ → ℕ
unfolding is_leap
month_length y m =
    if eqb m 2
    then (if is_leap y then 29 else 28)
    else if eqb m 4 || eqb m 6 || eqb m 9 || eqb m 11
    then 30
    else 31

-- The days from the first of January of `y` to that of `y + n`.
unfoldable pub years_span : ℕ → ℕ → ℕ
unfolding year_length
years_span y zero = 0
years_span y (suc n) = year_length y + years_span (y + 1) n

unfoldable pub months_span : ℕ → ℕ → ℕ → ℕ
unfolding month_length
months_span y m zero = 0
months_span y m (suc n) = month_length y m + months_span y (m + 1) n

-- `Date.UTC(y, m - 1, d)`, in days.
unfoldable pub day_number : Civil → ℕ
unfolding years_span months_span
day_number c = years_span 1970 (c.year - 1970) + months_span c.year 1 (c.month - 1) + (c.day - 1)

-- The month of the year and the day of the month, from the day of the year.
unfoldable pub civil_in_year : ℕ → ℕ → ℕ → ℕ → Civil
unfolding month_length
civil_in_year y m zero rest = record { year = y; month = m; day = rest + 1 }
civil_in_year y m (suc fuel) rest =
    let later = civil_in_year y (m + 1) fuel (rest - month_length y m) in
    if ltb rest (month_length y m) then record { year = y; month = m; day = rest + 1 } else later

-- `fuel` years are tried at most; a year has more than no days, so `rest` years are enough.
unfoldable pub civil_from : ℕ → ℕ → ℕ → Civil
unfolding civil_in_year year_length
civil_from y zero rest = civil_in_year y 1 11 rest
civil_from y (suc fuel) rest =
    let later = civil_from (y + 1) fuel (rest - year_length y) in
    if ltb rest (year_length y) then civil_in_year y 1 11 rest else later

unfoldable pub civil_of_day : ℕ → Civil
unfolding civil_from
civil_of_day n = civil_from 1970 n n

unfoldable pub digit : ℕ → Char
digit zero = "0"
digit (suc zero) = "1"
digit (suc (suc zero)) = "2"
digit (suc (suc (suc zero))) = "3"
digit (suc (suc (suc (suc zero)))) = "4"
digit (suc (suc (suc (suc (suc zero))))) = "5"
digit (suc (suc (suc (suc (suc (suc zero)))))) = "6"
digit (suc (suc (suc (suc (suc (suc (suc zero))))))) = "7"
digit (suc (suc (suc (suc (suc (suc (suc (suc zero)))))))) = "8"
digit _ = "9"

-- A date as `YYYY-MM-DD`.
unfoldable pub iso_date : Civil → String
unfolding digit
iso_date c =
    digit (c.year / 1000 % 10)
    ∷ digit (c.year / 100 % 10)
    ∷ digit (c.year / 10 % 10)
    ∷ digit (c.year % 10)
    ∷ "-"
    ∷ digit (c.month / 10 % 10)
    ∷ digit (c.month % 10)
    ∷ "-"
    ∷ digit (c.day / 10 % 10)
    ∷ digit (c.day % 10)
    ∷ []

-- `new Date(86_400_000 * n).toISOString().slice(0, 10)`.
unfoldable pub iso_day : ℕ → String
unfolding iso_date civil_of_day
iso_day n = iso_date (civil_of_day n)
