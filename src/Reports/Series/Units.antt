-- ===== src/Reports/Series/Units.antt =====
-- The units of harvest quantities stay apart in charts.
use koranco.Base.{
  ℕ, zero, suc, String, ◌≡◌, ◌⊎◌, refl, sym, ap, ◌∙◌, inl, inr, Bool, true, ◌||◌, ltb, Option, none,
  some, Option-cases, List, [], ◌∷◌, map, Has, Has-map, Has-keep, Bool-cases,
}
use koranco.Calendar.{Civil}
use koranco.Types.Server.{HarvestUnit, fruit_count, kilograms}
use koranco.Reports.Series.{
  Numbers, ChartDatum, same_unit, insert_sorted, sorted, next_day, row_of, fill_from, day_width,
  fill_date_window, HarvestDateUnitTotal, harvest_datum, rows_of_unit, harvest_chart_data,
}
use koranco.Reports.Series.Window.{row_of-Has}

pub same_unit-eq : (u v : HarvestUnit) → same_unit u v ≡ true → u ≡ v
unfolding same_unit
same_unit-eq fruit_count fruit_count h = refl
same_unit-eq kilograms kilograms h = refl
same_unit-eq fruit_count kilograms h = cc
same_unit-eq kilograms fruit_count h = cc

pub same_unit_refl : (u : HarvestUnit) → same_unit u u ≡ true
unfolding same_unit
same_unit_refl fruit_count = refl
same_unit_refl kilograms = refl

module _ {A : Type 0} (before : A → A → Bool) where
  Has-insert_sorted :
      (x : A) (ys : List A) (a : A) → Has a (insert_sorted before x ys) → (a ≡ x) ⊎ Has a ys
  unfolding insert_sorted
  Has-insert_sorted x [] a (inl e) = inl e
  Has-insert_sorted x [] a (inr m) = elim m [ ]
  Has-insert_sorted x (y ∷ ys) a m = elim (Bool-cases (before y x)) [
    | inl first ↦
        let place : (a ≡ y) ⊎ Has a (insert_sorted before x ys) = rw first at m in
        elim place [
          | inl e ↦ inr (inl e)
          | inr n ↦ elim (Has-insert_sorted x ys a n) [ inl e ↦ inl e | inr k ↦ inr (inr k) ]
        ]
    | inr last ↦ rw last at m
  ]

  pub Has-sorted : (xs : List A) (a : A) → Has a (sorted before xs) → Has a xs
  unfolding sorted
  Has-sorted [] a m = m
  Has-sorted (x ∷ xs) a m = elim (Has-insert_sorted x (sorted before xs) a m) [
    | inl e ↦ inl e
    | inr n ↦ inr (Has-sorted xs a n)
  ]

module _ (N : Numbers) where
  -- The rows of a window are rows of the data, or have the zeros.
  Has-fill_from :
      (n : ℕ) (rows : List (ChartDatum N)) (zeros : List (String × N.Number)) (cursor : Civil)
      (x : ChartDatum N)
      → Has x (fill_from N n rows zeros cursor)
      → Has x rows ⊎ (x.values ≡ zeros)
  unfolding fill_from
  Has-fill_from zero rows zeros cursor x m = elim m [ ]
  Has-fill_from (suc n) rows zeros cursor x (inr m) =
      Has-fill_from n rows zeros (next_day cursor) x m
  Has-fill_from (suc n) rows zeros cursor x (inl e) = elim (Option-cases (row_of N cursor rows)) [
    | inl gone ↦ inr (ap (λ (d : ChartDatum N). d.values) (rw gone at e))
    | inr (y, found) ↦
        let same : x ≡ y = rw found at e in
        inl (row_of-Has N cursor rows x (found ∙ ap some (sym same))).0
  ]

  Has-fill_date_window :
      (rows : List (ChartDatum N)) (keys : List String) (start end_ : Option Civil)
      (x : ChartDatum N)
      → Has x (fill_date_window N rows keys start end_)
      → Has x rows ⊎ (x.values ≡ map (λ k. (k, N.nothing)) keys)
  unfolding fill_date_window
  Has-fill_date_window rows keys none end_ x m = inl m
  Has-fill_date_window rows keys (some start) none x m = inl m
  Has-fill_date_window rows keys (some start) (some end_) x m =
      elim (Bool-cases (ltb (day_width start end_) 1 || ltb 62 (day_width start end_))) [
        | inl wide ↦ inl (rw wide at m)
        | inr inside ↦ Has-fill_from (suc (day_width start end_)) rows _ start x (rw inside at m)
      ]

  -- Whatever window is asked for, each row of the chart of a unit is that of a total of this very
  -- unit, with its date and its quantity, or it shows nothing: no quantity of another unit and no sum
  -- gets in.
  pub harvest_chart_data_separate :
      (by_date : List HarvestDateUnitTotal) (unit : HarvestUnit) (start end_ : Option Civil)
      (x : ChartDatum N)
      → Has x (harvest_chart_data N by_date unit start end_)
      → ((r : HarvestDateUnitTotal) × Has r by_date
          × (r.unit ≡ unit)
          × (x.label ≡ r.date)
          × (x.values ≡ ("quantity", N.of_text r.quantity) ∷ []))
        ⊎ (x.values ≡ ("quantity", N.nothing) ∷ [])
  unfolding harvest_chart_data harvest_datum
  harvest_chart_data_separate by_date unit start end_ x m =
      elim (Has-fill_date_window (map (harvest_datum N) (rows_of_unit N unit by_date))
        ("quantity" ∷ []) start end_ x m) [
          | inr empty ↦ inr empty
          | inl row ↦
              let (r, kept, e) = Has-map (harvest_datum N) (rows_of_unit N unit by_date) x row in
              let (there, same) =
                Has-keep (λ row. same_unit row.unit unit) by_date r (Has-sorted _ _ r kept) in
              inl (
                r,
                there,
                same_unit-eq r.unit unit same,
                ap (λ (d : ChartDatum N). d.label) e,
                ap (λ (d : ChartDatum N). d.values) e,
              )
        ]
