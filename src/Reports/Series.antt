-- ===== src/Reports/Series.antt =====
-- modules/reports/series.ts, and the ranges of modules/reports/units.ts and of the report pages. A date,
-- in the source an ISO text `YYYY-MM-DD`, is its year, month and day: such texts are ordered as these
-- are.
pub mod Window
pub mod Units
pub mod Complete
use koranco.Base.{
  ℕ, zero, suc, ◌+◌, ◌-◌, String, Bool, true, false, not, ◌&&◌, ◌||◌, Option, none, some, List, [],
  ◌∷◌, ◌++◌, map, keep, eqb, ltb, if◌then◌else◌,
}
use koranco.Calendar.{Civil, day_number, civil_of_day}
use koranco.Types.Server.{HarvestUnit, fruit_count, kilograms}

-- The numbers of the language, as far as charts use them: a count, what `Number` makes of a quantity,
-- and whether `b - a` is above 0.
pub record Numbers : Type 1 where
  pub Number : Type 0
  pub nothing : Number
  pub of_count : ℕ → Number
  pub of_text : String → Number
  pub above : (b a : Number) → Bool

pub record AttendanceDateTotal : Type 0 where
  pub date : Civil
  pub submitted_sessions : ℕ
  pub present_count : ℕ
  pub absent_count : ℕ
  pub roster_count : ℕ

pub record HarvestDateUnitTotal : Type 0 where
  pub date : Civil
  pub unit : HarvestUnit
  pub record_count : ℕ
  pub quantity : String

pub record HarvestUnitTotal : Type 0 where
  pub unit : HarvestUnit
  pub record_count : ℕ
  pub quantity : String

pub record HarvestFarmUnitTotal : Type 0 where
  pub farm_unit_id : String
  pub farm_unit_code : String
  pub farm_unit_name : String
  pub farm_unit_type : String
  pub record_count : ℕ
  pub by_unit : List HarvestUnitTotal

unfoldable pub same_unit : HarvestUnit → HarvestUnit → Bool
same_unit fruit_count fruit_count = true
same_unit kilograms kilograms = true
same_unit _ _ = false

unfoldable pub same_date : Civil → Civil → Bool
same_date a b = eqb a.year b.year && eqb a.month b.month && eqb a.day b.day

-- `a.localeCompare(b) < 0`
unfoldable pub earlier : Civil → Civil → Bool
earlier a b =
    ltb a.year b.year
    || (eqb a.year b.year && (ltb a.month b.month || (eqb a.month b.month && ltb a.day b.day)))

-- `sort`, which is stable: `before y x` says that y comes before x.
module _ {A : Type 0} (before : A → A → Bool) where
  unfoldable pub insert_sorted : A → List A → List A
  insert_sorted x [] = x ∷ []
  insert_sorted x (y ∷ ys) =
      let rest = insert_sorted x ys in if before y x then y ∷ rest else x ∷ y ∷ ys

  unfoldable pub sorted : List A → List A
  unfolding insert_sorted
  sorted [] = []
  sorted (x ∷ xs) = insert_sorted x (sorted xs)

unfoldable pub next_day : Civil → Civil
next_day c = civil_of_day (day_number c + 1)

-- `addDays(c, -n)`
unfoldable pub days_before : ℕ → Civil → Civil
days_before n c = civil_of_day (day_number c - n)

pub record DateRange : Type 0 where
  pub from : Civil
  pub to : Civil

-- `days` is at least 1 in every call.
unfoldable pub range_ending_today : ℕ → Civil → DateRange
unfolding days_before
range_ending_today days today = record { from = days_before (days - 1) today; to = today }

-- A width below 0 is 0 here; both are below 1.
unfoldable pub day_width : Civil → Civil → ℕ
day_width start end_ = day_number end_ - day_number start

module _ (N : Numbers) where
  open N use {Number, nothing, of_count, of_text, above}

  pub record ChartDatum : Type 0 where
    pub label : Civil
    pub full_label : Civil
    pub values : List (String × Number)

  abbrev pub datum : Civil → List (String × Number) → ChartDatum
  datum date values = record { label = date; full_label = date; values = values }

  -- `byDate.get(cursor)`: a later row replaces an earlier one of the same label.
  unfoldable pub row_of : Civil → List ChartDatum → Option ChartDatum
  unfolding same_date
  row_of date [] = none
  row_of date (r ∷ rs) = elim (row_of date rs) [
    | some x ↦ some x
    | none ↦ if same_date r.label date then some r else none
  ]

  abbrev pub or_zeros : Civil → List (String × Number) → Option ChartDatum → ChartDatum
  or_zeros date zeros none = datum date zeros
  or_zeros date zeros (some r) = r

  -- The loop, with as many rounds as the first argument says.
  unfoldable pub fill_from :
      ℕ → List ChartDatum → List (String × Number) → (cursor : Civil) → List ChartDatum
  unfolding row_of next_day
  fill_from zero rows zeros cursor = []
  fill_from (suc n) rows zeros cursor =
      or_zeros cursor zeros (row_of cursor rows) ∷ fill_from n rows zeros (next_day cursor)

  unfoldable pub fill_date_window :
      List ChartDatum → (keys : List String) → Option Civil → Option Civil → List ChartDatum
  unfolding fill_from day_width
  fill_date_window rows keys none window_end = rows
  fill_date_window rows keys (some start) none = rows
  fill_date_window rows keys (some start) (some end_) =
      let width = day_width start end_ in
      if ltb width 1 || ltb 62 width
      then rows
      else fill_from (suc width) rows (map (λ k. (k, nothing)) keys) start

  unfoldable pub attendance_datum : AttendanceDateTotal → ChartDatum
  attendance_datum row =
      datum row.date
        (("present", of_count row.present_count) ∷ ("absent", of_count row.absent_count) ∷ [])

  unfoldable pub attendance_chart_data :
      List AttendanceDateTotal → Option Civil → Option Civil → List ChartDatum
  unfolding attendance_datum sorted earlier fill_date_window
  attendance_chart_data by_date window_start window_end =
      fill_date_window (map attendance_datum (sorted (λ y x. earlier y.date x.date) by_date))
        ("present" ∷ "absent" ∷ []) window_start window_end

  unfoldable pub harvest_datum : HarvestDateUnitTotal → ChartDatum
  harvest_datum row = datum row.date (("quantity", of_text row.quantity) ∷ [])

  abbrev pub rows_of_unit : HarvestUnit → List HarvestDateUnitTotal → List HarvestDateUnitTotal
  rows_of_unit unit by_date =
      sorted (λ y x. earlier y.date x.date) (keep (λ row. same_unit row.unit unit) by_date)

  unfoldable pub harvest_chart_data :
      List HarvestDateUnitTotal → HarvestUnit → Option Civil → Option Civil → List ChartDatum
  unfolding harvest_datum sorted earlier same_unit fill_date_window
  harvest_chart_data by_date unit window_start window_end =
      fill_date_window (map harvest_datum (rows_of_unit unit by_date)) ("quantity" ∷ [])
        window_start window_end

  pub record HorizontalBar : Type 0 where
    pub label : String
    pub record_count : ℕ
    pub farm_unit_name : String
    pub value : Number

  unfoldable pub bars_of : HarvestUnit → HarvestFarmUnitTotal → List HorizontalBar
  unfolding same_unit
  bars_of unit group =
      map
        (λ (total : HarvestUnitTotal). record {
          label = group.farm_unit_code;
          record_count = group.record_count;
          farm_unit_name = group.farm_unit_name;
          value = of_text total.quantity;
        })
        (keep (λ total. same_unit total.unit unit) group.by_unit)

  unfoldable pub all_bars : HarvestUnit → List HarvestFarmUnitTotal → List HorizontalBar
  unfolding bars_of
  all_bars unit [] = []
  all_bars unit (group ∷ groups) = bars_of unit group ++ all_bars unit groups

  -- `context` is a text of the count and the name.
  unfoldable pub harvest_farm_unit_comparison :
      List HarvestFarmUnitTotal → HarvestUnit → List HorizontalBar
  unfolding all_bars sorted
  harvest_farm_unit_comparison by_farm_unit unit =
      sorted (λ y x. above y.value x.value) (all_bars unit by_farm_unit)

abbrev any_of : HarvestUnit → List HarvestDateUnitTotal → Bool
any_of unit [] = false
any_of unit (row ∷ rows) = same_unit row.unit unit || any_of unit rows

-- The set of the units, sorted by their texts.
unfoldable pub harvest_units_in_series : List HarvestDateUnitTotal → List HarvestUnit
unfolding same_unit
harvest_units_in_series by_date =
    (if any_of fruit_count by_date then fruit_count ∷ [] else [])
    ++ (if any_of kilograms by_date then kilograms ∷ [] else [])

abbrev is_in : HarvestUnit → List HarvestUnit → Bool
is_in u [] = false
is_in u (v ∷ vs) = same_unit v u || is_in u vs

abbrev pub first_of : List HarvestUnit → Option HarvestUnit
first_of [] = none
first_of (u ∷ us) = some u

-- The unit that a page plots: the chosen one if it has data, or else the first that has.
unfoldable pub selected_unit : Option HarvestUnit → List HarvestUnit → Option HarvestUnit
unfolding same_unit
selected_unit none units = first_of units
selected_unit (some u) units = if is_in u units then some u else first_of units

abbrev pub overview_series_days : ℕ
overview_series_days = 14

-- The window of the overview, for the date that the server reports.
unfoldable pub overview_window : Civil → DateRange
unfolding days_before
overview_window date = record { from = days_before (overview_series_days - 1) date; to = date }
