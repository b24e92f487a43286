-- ===== src/Reports/Series/Complete.antt =====
-- The totals of a unit that fall into a window are plotted.
use mathlib.Core.Path.{subst}
use koranco.Base.{
  ℕ, zero, suc, ◌+◌, ◌-◌, ◌≤◌, ◌<◌, String, ◌≡◌, refl, sym, ap, ◌∙◌, inl, inr, Bool, true, false,
  ◌||◌, ltb, some, Option-cases, List, [], ◌∷◌, map, Has, Has-map, Has-map_of, Has-keep,
  Has-keep_of, Bool-cases, arith,
}
use koranco.Calendar.{Civil, day_number, civil_of_day}
use koranco.Calendar.Days.{IsDate, civil_of_day-day_number}
use koranco.Types.Server.{HarvestUnit}
use koranco.Reports.Series.{
  Numbers, ChartDatum, or_zeros, same_date, same_unit, insert_sorted, sorted, row_of, fill_from,
  day_width, fill_date_window, HarvestDateUnitTotal, harvest_datum, rows_of_unit,
  harvest_chart_data,
}
use koranco.Reports.Series.Window.{row_of-Has, same_date_refl, next_day-civil_of_day}
use koranco.Reports.Series.Units.{Has-sorted, same_unit-eq, same_unit_refl}

module _ {A : Type 0} (before : A → A → Bool) where
  inserted : (x : A) (ys : List A) → Has x (insert_sorted before x ys)
  unfolding insert_sorted
  inserted x [] = inl refl
  inserted x (y ∷ ys) = elim (Bool-cases (before y x)) [
    | inl first ↦ rw first (inr (inserted x ys))
    | inr last ↦ rw last (inl refl)
  ]

  still_there : (x : A) (ys : List A) (a : A) → Has a ys → Has a (insert_sorted before x ys)
  unfolding insert_sorted
  still_there x [] a m = elim m [ ]
  still_there x (y ∷ ys) a (inl e) = elim (Bool-cases (before y x)) [
    | inl first ↦ rw first (inl e)
    | inr last ↦ rw last (inr (inl e))
  ]
  still_there x (y ∷ ys) a (inr m) = elim (Bool-cases (before y x)) [
    | inl first ↦ rw first (inr (still_there x ys a m))
    | inr last ↦ rw last (inr (inr m))
  ]

  Has-sorted_of : (xs : List A) (a : A) → Has a xs → Has a (sorted before xs)
  unfolding sorted
  Has-sorted_of [] a m = elim m [ ]
  Has-sorted_of (x ∷ xs) a (inl e) =
      subst (λ y. Has y (insert_sorted before x (sorted before xs))) (sym e)
        (inserted x (sorted before xs))
  Has-sorted_of (x ∷ xs) a (inr m) = still_there x (sorted before xs) a (Has-sorted_of xs a m)

module _ (N : Numbers) where
  -- A row whose day has no other row is found.
  row_of-some :
      (rows : List (ChartDatum N)) (x : ChartDatum N)
      → Has x rows
      → ((y : ChartDatum N) → Has y rows → y.label ≡ x.label → y ≡ x)
      → row_of N x.label rows ≡ some x
  unfolding row_of
  row_of-some [] x m only = elim m [ ]
  row_of-some (y ∷ ys) x m only = elim (Option-cases (row_of N x.label ys)) [
    | inr (z, found) ↦
        let (there, day) = row_of-Has N x.label ys z found in
        rw found (ap some (only z (inr there) day))
    | inl gone ↦ elim m [
      | inl e ↦
          let same : same_date y.label x.label ≡ true =
            ap (λ (d : ChartDatum N). same_date y.label d.label) e ∙ same_date_refl y.label in
          rw (gone, same) (ap some (sym e))
      | inr n ↦ let found = row_of-some ys x n (λ z k. only z (inr k)) in cc (found, gone)
    ]
  ]

  fill_from-at :
      (n k i j : ℕ) (rows : List (ChartDatum N)) (zeros : List (String × N.Number))
      → i < n
      → j ≡ k + i
      → Has
          (or_zeros N (civil_of_day j) zeros (row_of N (civil_of_day j) rows))
          (fill_from N n rows zeros (civil_of_day k))
  unfolding fill_from
  fill_from-at zero k i j rows zeros h sum = absurd (omega arith)
  fill_from-at (suc n) k zero j rows zeros h sum =
      let e : j ≡ k = omega arith in
      inl (ap (λ x. or_zeros N (civil_of_day x) zeros (row_of N (civil_of_day x) rows)) e)
  fill_from-at (suc n) k (suc i) j rows zeros h sum = inr (
      subst
        (λ c.
          Has (or_zeros N (civil_of_day j) zeros (row_of N (civil_of_day j) rows))
            (fill_from N n rows zeros c))
        (sym (next_day-civil_of_day k))
        (fill_from-at n (suc k) i j rows zeros (omega arith) (omega arith)))

  -- A row with a date in the window is in the filled window, if no other row has its day.
  filled :
      (rows : List (ChartDatum N)) (keys : List String) (start end_ : Civil) (x : ChartDatum N)
      → IsDate start
      → IsDate x.label
      → 1 ≤ day_width start end_
      → day_width start end_ ≤ 62
      → day_number start ≤ day_number x.label
      → day_number x.label ≤ day_number end_
      → Has x rows
      → ((y : ChartDatum N) → Has y rows → y.label ≡ x.label → y ≡ x)
      → Has x (fill_date_window N rows keys (some start) (some end_))
  unfolding fill_date_window day_width
  filled rows keys start end_ x from_1970 dated lo hi after before there only =
      let inside : (ltb (day_width start end_) 1 || ltb 62 (day_width start end_)) ≡ false =
        ground arith in
      let zeros : List (String × N.Number) = map (λ k. (k, N.nothing)) keys in
      let chart =
        fill_from N (suc (day_width start end_)) rows zeros (civil_of_day (day_number start)) in
      let day = civil_of_day-day_number x.label dated in
      let here =
        fill_from-at (suc (day_width start end_)) (day_number start)
          (day_number x.label - day_number start) (day_number x.label) rows zeros (omega arith)
          (omega arith) in
      let found : or_zeros N (civil_of_day (day_number x.label)) zeros
            (row_of N (civil_of_day (day_number x.label)) rows)
          ≡ x =
        ap (λ c. or_zeros N c zeros (row_of N c rows)) day
        ∙ ap (or_zeros N x.label zeros) (row_of-some rows x there only) in
      rw inside (
        subst (λ c. Has x (fill_from N (suc (day_width start end_)) rows zeros c))
          (civil_of_day-day_number start from_1970) (subst (λ y. Has y chart) found here))

  -- In a window from 1 to 62 days wide, between two dates from 1970 on, each total of the unit whose
  -- date lies in the window is plotted with its date and its quantity, if the totals of the unit for
  -- that date all name the same quantity.
  pub harvest_chart_data_complete :
      (by_date : List HarvestDateUnitTotal) (unit : HarvestUnit) (start end_ : Civil)
      (r : HarvestDateUnitTotal)
      → IsDate start
      → IsDate r.date
      → 1 ≤ day_width start end_
      → day_width start end_ ≤ 62
      → day_number start ≤ day_number r.date
      → day_number r.date ≤ day_number end_
      → Has r by_date
      → r.unit ≡ unit
      → ((r' : HarvestDateUnitTotal)
          → Has r' by_date
          → r'.unit ≡ unit
          → r'.date ≡ r.date
          → r'.quantity ≡ r.quantity)
      → Has (harvest_datum N r) (harvest_chart_data N by_date unit (some start) (some end_))
  unfolding harvest_chart_data harvest_datum
  harvest_chart_data_complete by_date unit start end_ r from_1970 dated lo hi after before there
        kind only =
      filled (map (harvest_datum N) (rows_of_unit N unit by_date)) ("quantity" ∷ []) start end_
        (harvest_datum N r) from_1970 dated lo hi after before
        (Has-map_of (harvest_datum N) (rows_of_unit N unit by_date) r (
          Has-sorted_of _ _ r (
            Has-keep_of (λ row. same_unit row.unit unit) by_date r there
              (ap (λ u. same_unit u unit) kind ∙ same_unit_refl unit))))
        alone
    where
      alone :
          (y : ChartDatum N)
          → Has y (map (harvest_datum N) (rows_of_unit N unit by_date))
          → y.label ≡ (harvest_datum N r).label
          → y ≡ harvest_datum N r
      alone y m day =
          let (r', kept, e) = Has-map (harvest_datum N) (rows_of_unit N unit by_date) y m in
          let (place, same) =
            Has-keep (λ row. same_unit row.unit unit) by_date r' (Has-sorted _ _ r' kept) in
          let date : r'.date ≡ r.date = sym (ap (λ (d : ChartDatum N). d.label) e) ∙ day in
          cc (e, date, only r' place (same_unit-eq r'.unit unit same) date)
