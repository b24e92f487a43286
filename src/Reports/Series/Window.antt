-- ===== src/Reports/Series/Window.antt =====
-- The days that a chart shows.
use koranco.Base.{
  ℕ, zero, suc, ◌+◌, ◌-◌, ◌≤◌, String, ◌≡◌, refl, sym, ap, ◌∙◌, inl, inr, true, false, ◌||◌, ltb,
  some, Option-cases, List, [], ◌∷◌, map, Has, Bool-cases, arith,
}
use koranco.Calendar.{Civil, day_number, civil_of_day}
use koranco.Calendar.Days.{IsDate, civil_of_day-day_number}
use koranco.Calendar.Found.{civil_of_day_sound}
use koranco.Reports.Series.{
  Numbers, ChartDatum, or_zeros, same_date, next_day, row_of, fill_from, day_width,
  fill_date_window, days_before, range_ending_today, overview_window, attendance_chart_data,
  harvest_chart_data, AttendanceDateTotal, HarvestDateUnitTotal,
}
use koranco.Types.Server.{HarvestUnit}

-- The days from the k-th since 1970-01-01 on.
abbrev pub days_from : ℕ → ℕ → List Civil
days_from k zero = []
days_from k (suc n) = civil_of_day k ∷ days_from (suc k) n

pub same_date-eq : (a b : Civil) → same_date a b ≡ true → a ≡ b
unfolding same_date
same_date-eq a b h = ground arith

pub same_date_refl : (a : Civil) → same_date a a ≡ true
unfolding same_date
same_date_refl a = ground arith

pub next_day-civil_of_day : (k : ℕ) → next_day (civil_of_day k) ≡ civil_of_day (suc k)
unfolding next_day
next_day-civil_of_day k =
    let e : day_number (civil_of_day k) + 1 ≡ suc k = omega (arith, (civil_of_day_sound k).1) in
    ap civil_of_day e

module _ (N : Numbers) where
  -- What is found is a row of that day.
  pub row_of-Has :
      (date : Civil) (rows : List (ChartDatum N)) (x : ChartDatum N)
      → row_of N date rows ≡ some x
      → Has x rows × (x.label ≡ date)
  unfolding row_of
  row_of-Has date [] x h = cc
  row_of-Has date (r ∷ rs) x h = elim (Option-cases (row_of N date rs)) [
    | inl gone ↦ elim (Bool-cases (same_date r.label date)) [
      | inl same ↦
          let e : x ≡ r = cc (rw (gone, same) at h) in
          (inl e, ap (λ (d : ChartDatum N). d.label) e ∙ same_date-eq r.label date same)
      | inr other ↦ cc (rw (gone, other) at h)
    ]
    | inr (y, found) ↦
        let e : y ≡ x = cc (rw found at h) in
        let (m, day) = row_of-Has date rs x (found ∙ ap some e) in (inr m, day)
  ]

  label-or_zeros :
      (date : Civil) (rows : List (ChartDatum N)) (zeros : List (String × N.Number))
      → (or_zeros N date zeros (row_of N date rows)).label ≡ date
  label-or_zeros date rows zeros = elim (Option-cases (row_of N date rows)) [
    | inl gone ↦ rw gone refl
    | inr (x, found) ↦ rw found (row_of-Has date rows x found).1
  ]

  labels-fill_from :
      (n k : ℕ) (rows : List (ChartDatum N)) (zeros : List (String × N.Number))
      → map (λ (r : ChartDatum N). r.label) (fill_from N n rows zeros (civil_of_day k))
        ≡ days_from k n
  unfolding fill_from
  labels-fill_from zero k rows zeros = refl
  labels-fill_from (suc n) k rows zeros = cc (
    label-or_zeros (civil_of_day k) rows zeros,
    next_day-civil_of_day k,
    labels-fill_from n (suc k) rows zeros,
  )

  -- In a window from 1 to 62 days wide, between two dates from 1970 on, a chart has one row for each
  -- day, the first and the last included, in their order.
  pub labels-fill_date_window :
      (rows : List (ChartDatum N)) (keys : List String) (start end_ : Civil)
      → IsDate start
      → 1 ≤ day_width start end_
      → day_width start end_ ≤ 62
      → map (λ (r : ChartDatum N). r.label) (fill_date_window N rows keys (some start) (some end_))
        ≡ days_from (day_number start) (suc (day_width start end_))
  unfolding fill_date_window
  labels-fill_date_window rows keys start end_ valid lo hi =
      let inside : (ltb (day_width start end_) 1 || ltb 62 (day_width start end_)) ≡ false =
        ground arith in
      let width = day_width start end_ in
      let zeros = map (λ k. (k, N.nothing)) keys in
      let labels = map (λ (r : ChartDatum N). r.label) in
      rw inside (
        ap (λ c. labels (fill_from N (suc width) rows zeros c))
          (sym (civil_of_day-day_number start valid))
        ∙ labels-fill_from (suc width) (day_number start) rows zeros)

days_before_sound :
    (n : ℕ) (c : Civil)
    → n ≤ day_number c
    → IsDate (days_before n c) × (day_number (days_before n c) + n ≡ day_number c)
unfolding days_before
days_before_sound n c h =
    let (valid, number) = civil_of_day_sound (day_number c - n) in (valid, omega arith)

-- A range of `days` days that ends today has that many days, today included, if the first is not
-- before 1970.
pub range_ending_today_days :
    (days : ℕ) (today : Civil)
    → 1 ≤ days
    → days ≤ day_number today + 1
    → IsDate (range_ending_today days today).from
      × ((range_ending_today days today).to ≡ today)
      × (day_width (range_ending_today days today).from (range_ending_today days today).to + 1
          ≡ days)
unfolding range_ending_today day_width
range_ending_today_days days today lo hi =
    let (valid, number) = days_before_sound (days - 1) today (omega arith) in
    (valid, refl, omega (arith, number))

module _ (N : Numbers) where
  -- For a date of which the thirteenth day before is not before 1970, both charts of the overview
  -- have one row for each of the fourteen days that end with the date, in their order, whatever rows
  -- the server sent.
  pub overview_chart_days :
      (attendance : List AttendanceDateTotal) (harvest : List HarvestDateUnitTotal)
      (unit : HarvestUnit) (date : Civil)
      → 13 ≤ day_number date
      → (map
            (λ (r : ChartDatum N). r.label)
            (attendance_chart_data N attendance
              (some (overview_window date).from)
              (some (overview_window date).to))
          ≡ days_from (day_number date - 13) 14)
        × (map
              (λ (r : ChartDatum N). r.label)
              (harvest_chart_data N harvest unit
                (some (overview_window date).from)
                (some (overview_window date).to))
            ≡ days_from (day_number date - 13) 14)
  unfolding attendance_chart_data harvest_chart_data overview_window day_width
  overview_chart_days attendance harvest unit date h =
      let (valid, number) = days_before_sound 13 date h in
      let start : day_number (days_before 13 date) ≡ day_number date - 13 = omega (arith, number) in
      let width : suc (day_number date - day_number (days_before 13 date)) ≡ 14 =
        omega (arith, number) in
      let days = λ (rows : List (ChartDatum N)) (keys : List String).
        labels-fill_date_window N rows keys (days_before 13 date) date valid (omega (arith, number))
          (omega (arith, number))
        ∙ ap (λ k. days_from k (suc (day_number date - day_number (days_before 13 date)))) start
        ∙ ap (days_from (day_number date - 13)) width in
      (days _ ("present" ∷ "absent" ∷ []), days _ ("quantity" ∷ []))
