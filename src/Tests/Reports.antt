-- ===== src/Tests/Reports.antt =====
-- Examples for the charts and the pages of the reports.
use koranco.Base.{
  ℕ, ◌+◌, ◌*◌, ◌-◌, ◌≡◌, ◌⊎◌, refl, ap, String, false, none, some, List, [], ◌∷◌, map, Has, inl,
  inr, ok, err, api_error, ltb, codes, arith,
}
use koranco.Types.Server.{fruit_count, kilograms}
use koranco.Calendar.{Civil, month_length, day_number, civil_of_day}
use koranco.Calendar.Days.{IsDate}
use koranco.Reports.Series.{
  Numbers, ChartDatum, datum, HarvestDateUnitTotal, day_width, attendance_chart_data,
  harvest_chart_data, harvest_datum, harvest_farm_unit_comparison, harvest_units_in_series,
  selected_unit, overview_window,
}
use koranco.Reports.Series.Window.{days_from, overview_chart_days}
use koranco.Reports.Series.Units.{harvest_chart_data_separate}
use koranco.Reports.Series.Complete.{harvest_chart_data_complete}
use koranco.Reports.Pages.{
  Page, choose, answer, overview_step, run_all, settled, chosen, overview_message,
}
use koranco.Reports.Pages.Latest.{overview_shows_latest}

abbrev value_from : ℕ → List ℕ → ℕ
value_from n [] = n
value_from n (c ∷ cs) = value_from (n * 10 + (c - 48)) cs

-- Whole numbers, and texts of decimal digits.
abbrev whole : Numbers
whole = record {
  Number = ℕ;
  nothing = 0;
  of_count = λ n. n;
  of_text = λ t. value_from 0 (codes t);
  above = λ b a. ltb a b;
}

abbrev leap_day : Civil
leap_day = record { year = 2024; month = 2; day = 29 }

abbrev march_1 : Civil
march_1 = record { year = 2024; month = 3; day = 1 }

abbrev march_3 : Civil
march_3 = record { year = 2024; month = 3; day = 3 }

abbrev leap_day-IsDate : IsDate leap_day
leap_day-IsDate = record {
  since = omega arith;
  month_in = (omega arith, omega arith);
  day_in = (omega arith, unfold month_length in omega arith);
}

abbrev march_1-IsDate : IsDate march_1
march_1-IsDate = record {
  since = omega arith;
  month_in = (omega arith, omega arith);
  day_in = (omega arith, unfold month_length in omega arith);
}

abbrev by_date : List HarvestDateUnitTotal
by_date =
    record { date = march_1; unit = kilograms; record_count = 2; quantity = "70" }
    ∷ record { date = march_1; unit = fruit_count; record_count = 1; quantity = "500" }
    ∷ record { date = leap_day; unit = kilograms; record_count = 1; quantity = "12" }
    ∷ []

abbrev march_1_kilograms : HarvestDateUnitTotal
march_1_kilograms = record { date = march_1; unit = kilograms; record_count = 2; quantity = "70" }

abbrev march_1_datum : ChartDatum whole
march_1_datum = datum whole march_1 (("quantity", 70) ∷ [])

only_march_1 :
    (r : HarvestDateUnitTotal)
    → Has r by_date
    → r.unit ≡ kilograms
    → r.date ≡ march_1
    → r.quantity ≡ "70"
only_march_1 r (inl e) kind day = ap (λ (x : HarvestDateUnitTotal). x.quantity) e
only_march_1 r (inr (inl e)) kind day = absurd cc
only_march_1 r (inr (inr (inl e))) kind day =
    let month : r.date.month ≡ 2 = ap (λ (x : HarvestDateUnitTotal). x.date.month) e in
    absurd (omega (arith, month, ap (λ (c : Civil). c.month) day))
only_march_1 r (inr (inr (inr m))) kind day = elim m [ ]

chart :
    map
      (λ (r : ChartDatum whole). r.values)
      (harvest_chart_data whole by_date kilograms (some leap_day) (some march_3))
    ≡ (("quantity", 12) ∷ [])
      ∷ (("quantity", 70) ∷ [])
      ∷ (("quantity", 0) ∷ [])
      ∷ (("quantity", 0) ∷ [])
      ∷ []
unfolding harvest_chart_data day_number civil_of_day
chart = refl

units : harvest_units_in_series by_date ≡ fruit_count ∷ kilograms ∷ []
unfolding harvest_units_in_series
units = refl

fallback : selected_unit (some kilograms) (fruit_count ∷ []) ≡ some fruit_count
unfolding selected_unit
fallback = refl

largest_first :
    map
      (λ b. b.value)
      (harvest_farm_unit_comparison whole
        (record {
          farm_unit_id = "a";
          farm_unit_code = "A";
          farm_unit_name = "A";
          farm_unit_type = "field";
          record_count = 1;
          by_unit = record { unit = kilograms; record_count = 1; quantity = "5" } ∷ [];
        }
          ∷ record {
            farm_unit_id = "b";
            farm_unit_code = "B";
            farm_unit_name = "B";
            farm_unit_type = "block";
            record_count = 1;
            by_unit = record { unit = kilograms; record_count = 1; quantity = "9" } ∷ [];
          }
          ∷ [])
        kilograms)
    ≡ 9 ∷ 5 ∷ []
unfolding harvest_farm_unit_comparison
largest_first = refl

overview_chart_days_example :
    (map
        (λ (r : ChartDatum whole). r.label)
        (attendance_chart_data whole []
          (some (overview_window march_3).from)
          (some (overview_window march_3).to))
      ≡ days_from (day_number march_3 - 13) 14)
    × (map
          (λ (r : ChartDatum whole). r.label)
          (harvest_chart_data whole by_date kilograms
            (some (overview_window march_3).from)
            (some (overview_window march_3).to))
        ≡ days_from (day_number march_3 - 13) 14)
unfolding day_number
overview_chart_days_example = overview_chart_days whole [] by_date kilograms march_3 (omega arith)

harvest_chart_data_separate_example :
    ((r : HarvestDateUnitTotal) × Has r by_date
      × (r.unit ≡ kilograms)
      × (march_1 ≡ r.date)
      × (march_1_datum.values ≡ ("quantity", whole.of_text r.quantity) ∷ []))
    ⊎ (march_1_datum.values ≡ ("quantity", 0) ∷ [])
unfolding harvest_chart_data day_number civil_of_day
harvest_chart_data_separate_example =
    harvest_chart_data_separate whole by_date kilograms (some leap_day) (some march_3) march_1_datum
      (inr (inl refl))

harvest_chart_data_complete_example :
    Has
      (harvest_datum whole march_1_kilograms)
      (harvest_chart_data whole by_date kilograms (some leap_day) (some march_3))
unfolding day_width day_number
harvest_chart_data_complete_example =
    harvest_chart_data_complete whole by_date kilograms leap_day march_3 march_1_kilograms
      leap_day-IsDate march_1-IsDate (omega arith) (omega arith) (omega arith) (omega arith)
      (inl refl) refl only_march_1

-- The overview, with nothing chosen.
abbrev page : Page String ℕ
page = record {
  user = none;
  filter = "";
  runs = 1;
  data_shown = none;
  error_text = "";
  exporting = false;
}

overview_shows_latest_example :
    run_all overview_step
      (choose "2024-03-01"
        ∷ answer 1 (ok 5)
        ∷ choose "2024-03-02"
        ∷ answer 2 (ok 6)
        ∷ answer 3 (ok 7)
        ∷ answer 1 (err (api_error "" 500))
        ∷ [])
      page
    ≡ settled overview_message (ok 7) (
        chosen "2024-03-02"
          (run_all overview_step (choose "2024-03-01" ∷ answer 1 (ok 5) ∷ []) page))
unfolding run_all overview_step
overview_shows_latest_example =
    overview_shows_latest (choose "2024-03-01" ∷ answer 1 (ok 5) ∷ []) (answer 2 (ok 6) ∷ [])
      (answer 1 (err (api_error "" 500)) ∷ []) "2024-03-02" (ok 7) page (omega arith, tt)
      (omega arith, tt)
