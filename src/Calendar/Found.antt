-- ===== src/Calendar/Found.antt =====
-- Every number of days since 1970 is that of a date.
use koranco.Base.{
  ℕ, zero, suc, ◌+◌, ◌-◌, ◌≤◌, ◌<◌, ◌≡◌, refl, sym, ap, ◌∙◌, Bool-cases, inl, inr, ltb, arith,
}
use koranco.Calendar.{
  Civil, year_length, month_length, years_span, months_span, day_number, civil_in_year, civil_from,
  civil_of_day,
}
use koranco.Calendar.Days.{
  IsDate, year_length_pos, months_span-suc, twelve_months, month_found, month_passed, year_found,
  year_passed,
}

-- The date `c` of year `y` that has `rest` days of the year before it.
record IsDayOf (y rest : ℕ) (c : Civil) : Type 0 where
  year_is : c.year ≡ y
  month_is : (1 ≤ c.month) × (c.month ≤ 12)
  day_is : (1 ≤ c.day) × (c.day ≤ month_length y c.month)
  before : months_span y 1 (c.month - 1) + (c.day - 1) ≡ rest

month_added : (y j : ℕ) → months_span y 1 (suc j) ≡ months_span y 1 j + month_length y (suc j)
month_added y j =
    let e : 1 + j ≡ suc j = omega arith in
    months_span-suc y 1 j ∙ ap (λ m. months_span y 1 j + month_length y m) e

month_here :
    (y j fuel rest : ℕ)
    → j + fuel ≡ 11
    → rest < month_length y (suc j)
    → IsDayOf y (months_span y 1 j + rest) (civil_in_year y (suc j) fuel rest)
month_here y j fuel rest sum here =
    let e : suc j - 1 ≡ j = omega arith in
    rw (month_found y (suc j) fuel rest here) (record {
      year_is = refl;
      month_is = omega arith;
      day_is = omega arith;
      before = omega (arith, ap (months_span y 1) e);
    })

civil_in_year-IsDayOf :
    (y j fuel rest : ℕ)
    → j + fuel ≡ 11
    → months_span y 1 j + rest < year_length y
    → IsDayOf y (months_span y 1 j + rest) (civil_in_year y (suc j) fuel rest)
civil_in_year-IsDayOf y j zero rest sum inside =
    let e : suc j ≡ 12 = omega arith in
    month_here y j zero rest sum
      (omega (arith, twelve_months y, month_added y j, ap (months_span y 1) e))
civil_in_year-IsDayOf y j (suc fuel) rest sum inside =
    elim (Bool-cases (ltb rest (month_length y (suc j)))) [
      | inl here ↦ month_here y j (suc fuel) rest sum (ground arith)
      | inr later ↦
          let left = rest - month_length y (suc j) in
          let enough : month_length y (suc j) ≤ rest = ground arith in
          let split : month_length y (suc j) + left ≡ rest = omega arith in
          let e : suc j + 1 ≡ suc (suc j) = omega arith in
          let before : months_span y 1 (suc j) + left ≡ months_span y 1 j + rest =
            omega (arith, month_added y j) in
          let next = civil_in_year-IsDayOf y (suc j) fuel left (omega arith) (omega arith) in
          let passed : civil_in_year y (suc j) (suc fuel) rest
              ≡ civil_in_year y (suc (suc j)) fuel left =
            ap (civil_in_year y (suc j) (suc fuel)) (sym split)
            ∙ month_passed y (suc j) fuel left
            ∙ ap (λ m. civil_in_year y m fuel left) e in
          rw (passed, ← before) next
    ]

-- A date with `rest` days before it, of those from the first of January of `y`.
record IsDayFrom (y rest : ℕ) (c : Civil) : Type 0 where
  years : ℕ
  year_is : c.year ≡ y + years
  month_is : (1 ≤ c.month) × (c.month ≤ 12)
  day_is : (1 ≤ c.day) × (c.day ≤ month_length c.year c.month)
  before : years_span y years + months_span c.year 1 (c.month - 1) + (c.day - 1) ≡ rest

in_this_year : (y fuel rest : ℕ) → rest < year_length y → IsDayFrom y rest (civil_from y fuel rest)
unfolding years_span months_span
in_this_year y fuel rest here =
    let d = civil_in_year-IsDayOf y 0 11 rest (omega arith) (omega arith) in
    let c = civil_in_year y 1 11 rest in
    rw (year_found y fuel rest here) (record {
      years = 0;
      year_is = omega (arith, d.year_is);
      month_is = d.month_is;
      day_is = omega (arith, d.day_is, ap (λ x. month_length x c.month) d.year_is);
      before = omega (arith, d.before, ap (λ x. months_span x 1 (c.month - 1)) d.year_is);
    })

civil_from-IsDayFrom : (y fuel rest : ℕ) → rest ≤ fuel → IsDayFrom y rest (civil_from y fuel rest)
unfolding years_span
civil_from-IsDayFrom y zero rest h = in_this_year y zero rest (omega (arith, year_length_pos y))
civil_from-IsDayFrom y (suc fuel) rest h = elim (Bool-cases (ltb rest (year_length y))) [
  | inl here ↦ in_this_year y (suc fuel) rest (ground arith)
  | inr later ↦
      let left = rest - year_length y in
      let enough : year_length y ≤ rest = ground arith in
      let split : year_length y + left ≡ rest = omega arith in
      let d = civil_from-IsDayFrom (y + 1) fuel left (omega (arith, year_length_pos y)) in
      let passed : civil_from y (suc fuel) rest ≡ civil_from (y + 1) fuel left =
        ap (civil_from y (suc fuel)) (sym split) ∙ year_passed y fuel left in
      rw passed (record {
        years = suc d.years;
        year_is = omega (arith, d.year_is);
        month_is = d.month_is;
        day_is = d.day_is;
        before = omega (arith, d.before);
      })
]

-- The n-th day since 1970-01-01 is a date of the calendar, and n days lie before it.
pub civil_of_day_sound : (n : ℕ) → IsDate (civil_of_day n) × (day_number (civil_of_day n) ≡ n)
unfolding civil_of_day day_number
civil_of_day_sound n =
    let d = civil_from-IsDayFrom 1970 n n (omega arith) in
    let years : (civil_from 1970 n n).year - 1970 ≡ d.years = omega (arith, d.year_is) in
    (
      record { since = omega (arith, d.year_is); month_in = d.month_is; day_in = d.day_is },
      omega (arith, d.before, ap (years_span 1970) years),
    )
