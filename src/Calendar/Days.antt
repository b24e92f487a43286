-- ===== src/Calendar/Days.antt =====
-- A date is found again from its number of days since 1970.
use koranco.Base.{ℕ, zero, suc, ◌+◌, ◌-◌, ◌≤◌, ◌<◌, ◌≡◌, refl, ap, ◌∙◌, ltb, true, false, arith}
use koranco.Calendar.{
  Civil, year_length, month_length, years_span, months_span, day_number, civil_in_year, civil_from,
  civil_of_day,
}

-- A date of the calendar from 1970 on.
pub record IsDate (c : Civil) : Type 0 where
  pub since : 1970 ≤ c.year
  pub month_in : (1 ≤ c.month) × (c.month ≤ 12)
  pub day_in : (1 ≤ c.day) × (c.day ≤ month_length c.year c.month)

pub year_length_pos : (y : ℕ) → 1 ≤ year_length y
unfolding year_length
year_length_pos y = ground arith

month_length_pos : (y m : ℕ) → 1 ≤ month_length y m
unfolding month_length
month_length_pos y m = ground arith

years_span-suc : (y n : ℕ) → years_span y (suc n) ≡ years_span y n + year_length (y + n)
unfolding years_span
years_span-suc y zero = let e : y + 0 ≡ y = omega arith in omega (arith, ap year_length e)
years_span-suc y (suc n) =
    let e : y + 1 + n ≡ y + suc n = omega arith in
    omega (arith, years_span-suc (y + 1) n, ap year_length e)

pub months_span-suc :
    (y m n : ℕ) → months_span y m (suc n) ≡ months_span y m n + month_length y (m + n)
unfolding months_span
months_span-suc y m zero = let e : m + 0 ≡ m = omega arith in omega (arith, ap (month_length y) e)
months_span-suc y m (suc n) =
    let e : m + 1 + n ≡ m + suc n = omega arith in
    omega (arith, months_span-suc y (m + 1) n, ap (month_length y) e)

years_span-ge : (y n : ℕ) → n ≤ years_span y n
unfolding years_span
years_span-ge y zero = omega arith
years_span-ge y (suc n) = omega (arith, years_span-ge (y + 1) n, year_length_pos y)

pub twelve_months : (y : ℕ) → months_span y 1 12 ≡ year_length y
unfolding months_span month_length year_length
twelve_months y = ground arith

-- The months before a month, and the days of it, are within the year.
months_span_mono : (y k n : ℕ) → months_span y 1 k ≤ months_span y 1 (k + n)
months_span_mono y k zero = let e : k + 0 ≡ k = omega arith in omega (arith, ap (months_span y 1) e)
months_span_mono y k (suc n) =
    let e : k + suc n ≡ suc (k + n) = omega arith in
    omega (arith, months_span_mono y k n, months_span-suc y 1 (k + n), ap (months_span y 1) e)

within_year :
    (y k r : ℕ) → k < 12 → r < month_length y (1 + k) → months_span y 1 k + r < year_length y
within_year y k r h lt =
    let e : suc k + (11 - k) ≡ 12 = omega arith in
    omega (
      arith,
      months_span-suc y 1 k,
      months_span_mono y (suc k) (11 - k),
      ap (months_span y 1) e,
      twelve_months y,
    )

pub month_found :
    (y m fuel rest : ℕ)
    → rest < month_length y m
    → civil_in_year y m fuel rest ≡ record { year = y; month = m; day = rest + 1 }
unfolding civil_in_year
month_found y m zero rest lt = refl
month_found y m (suc fuel) rest lt = ground arith

pub month_passed :
    (y m fuel rest : ℕ)
    → civil_in_year y m (suc fuel) (month_length y m + rest) ≡ civil_in_year y (m + 1) fuel rest
unfolding civil_in_year
month_passed y m fuel rest =
    let e : month_length y m + rest - month_length y m ≡ rest = omega arith in
    let passed : ltb (month_length y m + rest) (month_length y m) ≡ false = ground arith in
    rw (passed, e) refl

-- The search for the month finds the k-th month on.
civil_in_year-eq :
    (y m fuel k r : ℕ)
    → k ≤ fuel
    → r < month_length y (m + k)
    → civil_in_year y m fuel (months_span y m k + r)
      ≡ record { year = y; month = m + k; day = r + 1 }
unfolding months_span
civil_in_year-eq y m fuel zero r h lt =
    let e : m + 0 ≡ m = omega arith in
    let e' : 0 + r ≡ r = omega arith in rw (e, e') (month_found y m fuel r (rw e at lt))
civil_in_year-eq y m zero (suc k) r h lt = absurd (omega arith)
civil_in_year-eq y m (suc fuel) (suc k) r h lt =
    let e : month_length y m + months_span y (m + 1) k + r
        ≡ month_length y m + (months_span y (m + 1) k + r) =
      omega arith in
    let e' : m + suc k ≡ m + 1 + k = omega arith in
    rw (e, e')
      (month_passed y m fuel _ ∙ civil_in_year-eq y (m + 1) fuel k r (omega arith) (rw e' at lt))

pub year_found :
    (y fuel rest : ℕ) → rest < year_length y → civil_from y fuel rest ≡ civil_in_year y 1 11 rest
unfolding civil_from
year_found y zero rest lt = refl
year_found y (suc fuel) rest lt =
    let found : ltb rest (year_length y) ≡ true = ground arith in rw found refl

pub year_passed :
    (y fuel rest : ℕ)
    → civil_from y (suc fuel) (year_length y + rest) ≡ civil_from (y + 1) fuel rest
unfolding civil_from
year_passed y fuel rest =
    let e : year_length y + rest - year_length y ≡ rest = omega arith in
    let passed : ltb (year_length y + rest) (year_length y) ≡ false = ground arith in
    rw (passed, e) refl

-- The search for the year finds the n-th year on.
civil_from-eq :
    (y fuel n r : ℕ)
    → n ≤ fuel
    → r < year_length (y + n)
    → civil_from y fuel (years_span y n + r) ≡ civil_in_year (y + n) 1 11 r
unfolding years_span
civil_from-eq y fuel zero r h lt =
    let e : y + 0 ≡ y = omega arith in
    let e' : 0 + r ≡ r = omega arith in rw (e, e') (year_found y fuel r (rw e at lt))
civil_from-eq y zero (suc n) r h lt = absurd (omega arith)
civil_from-eq y (suc fuel) (suc n) r h lt =
    let e : year_length y + years_span (y + 1) n + r ≡ year_length y + (years_span (y + 1) n + r) =
      omega arith in
    let e' : y + suc n ≡ y + 1 + n = omega arith in
    rw (e, e') (year_passed y fuel _ ∙ civil_from-eq (y + 1) fuel n r (omega arith) (rw e' at lt))

-- A date from 1970 on is found again from its number of days since 1970-01-01.
pub civil_of_day-day_number : (c : Civil) → IsDate c → civil_of_day (day_number c) ≡ c
unfolding civil_of_day day_number
civil_of_day-day_number c v =
    let n = c.year - 1970 in
    let k = c.month - 1 in
    let r = c.day - 1 in
    let year : 1970 + n ≡ c.year = omega (arith, v.since) in
    let month : 1 + k ≡ c.month = omega (arith, v.month_in) in
    let fits : r < month_length c.year (1 + k) =
      omega (arith, v.day_in, ap (month_length c.year) month) in
    let inside : months_span c.year 1 k + r < year_length (1970 + n) =
      omega (arith, within_year c.year k r (omega (arith, v.month_in)) fits, ap year_length year) in
    let regroup : years_span 1970 n + months_span c.year 1 k + r
        ≡ years_span 1970 n + (months_span c.year 1 k + r) =
      omega arith in
    ap (civil_from 1970 (day_number c)) regroup
    ∙ civil_from-eq 1970 (day_number c) n _ (omega (arith, years_span-ge 1970 n)) inside
    ∙ ap (λ y. civil_in_year y 1 11 (months_span c.year 1 k + r)) year
    ∙ civil_in_year-eq c.year 1 11 k r (omega (arith, v.month_in)) fits
    ∙ ground (arith, v.month_in, v.day_in)
