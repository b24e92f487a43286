-- ===== src/Reports/Pages/Latest.antt =====
-- Answers that arrive late.
use koranco.Base.{
  ℕ, ◌≡◌, refl, ap, ◌∙◌, ◌≢◌, true, false, some, List, [], ◌∷◌, ◌++◌, All, eqb, Result, ok, err,
  if◌then◌else◌, arith, suc, String,
}
use koranco.Reports.Pages.{
  Page, Event, choose, answer, settled, chosen, overview_message, overview_step, report_step,
  run_all,
}

module _ {F R : Type 0} where
  -- Answers to runs other than this one.
  abbrev pub AnswersTo : (run : ℕ) → Event F R → Type 0
  AnswersTo run (choose f) = ⊥
  AnswersTo run (answer n r) = n ≢ run

  late_answers :
      (es : List (Event F R)) (p : Page F R)
      → All (AnswersTo p.runs) es
      → run_all overview_step es p ≡ p
  unfolding run_all overview_step
  late_answers [] p others = refl
  late_answers (choose f ∷ es) p others = absurd others.0
  late_answers (answer n r ∷ es) p others =
      let other : eqb n p.runs ≡ false = ground (arith, others.0) in
      ap (λ q. run_all overview_step es (if q then settled overview_message r p else p)) other
      ∙ late_answers es p others.1

  run_all-append :
      (step : Event F R → Page F R → Page F R) (es fs : List (Event F R)) (p : Page F R)
      → run_all step (es ++ fs) p ≡ run_all step fs (run_all step es p)
  unfolding run_all
  run_all-append step [] fs p = refl
  run_all-append step (e ∷ es) fs p = run_all-append step es fs (step e p)

  late_after :
      (late : List (Event F R)) (r : Result R) (p : Page F R)
      → All (AnswersTo p.runs) late
      → run_all overview_step late (settled overview_message r p) ≡ settled overview_message r p
  unfolding settled
  late_after late (ok x) p others = late_answers late (settled overview_message (ok x) p) others
  late_after late (err e) p others = late_answers late (settled overview_message (err e) p) others

  own_answer :
      (r : Result R) (p : Page F R)
      → overview_step (answer p.runs r) p ≡ settled overview_message r p
  unfolding overview_step
  own_answer r p = let same : eqb p.runs p.runs ≡ true = ground arith in rw same refl

  chosen_then_late :
      (f : F) (mid late : List (Event F R)) (r : Result R) (p : Page F R)
      → All (AnswersTo (suc p.runs)) mid
      → All (AnswersTo (suc p.runs)) late
      → run_all overview_step (choose f ∷ (mid ++ answer (suc p.runs) r ∷ late)) p
        ≡ settled overview_message r (chosen f p)
  unfolding run_all overview_step
  chosen_then_late f mid late r p before after =
      let q = chosen f p in
      run_all-append overview_step mid (answer (suc p.runs) r ∷ late) q
      ∙ ap (run_all overview_step (answer (suc p.runs) r ∷ late)) (late_answers mid q before)
      ∙ ap (run_all overview_step late) (own_answer r q)
      ∙ late_after late r q after

  -- On the overview, after whatever happened, a date is chosen, and its answer comes, with any answers
  -- to earlier requests before it and after it. The page is left as that answer alone leaves it.
  pub overview_shows_latest :
      (es mid late : List (Event F R)) (f : F) (r : Result R) (p : Page F R)
      → All (AnswersTo (suc (run_all overview_step es p).runs)) mid
      → All (AnswersTo (suc (run_all overview_step es p).runs)) late
      → run_all overview_step
          (es ++ choose f ∷ (mid ++ answer (suc (run_all overview_step es p).runs) r ∷ late))
          p
        ≡ settled overview_message r (chosen f (run_all overview_step es p))
  overview_shows_latest es mid late f r p before after =
      run_all-append overview_step es _ p
      ∙ chosen_then_late f mid late r (run_all overview_step es p) before after

  -- On the two reports, when a filter is chosen and then another, and the answer to the first comes
  -- last, the page shows the first answer under the second filter.
  pub report_shows_stale :
      (message : String) (f g : F) (a b : R) (p : Page F R)
      → ((run_all
            (report_step message)
            (choose f
              ∷ choose g
              ∷ answer (suc (suc p.runs)) (ok b)
              ∷ answer (suc p.runs) (ok a)
              ∷ [])
            p).data_shown
          ≡ some a)
        × ((run_all
              (report_step message)
              (choose f
                ∷ choose g
                ∷ answer (suc (suc p.runs)) (ok b)
                ∷ answer (suc p.runs) (ok a)
                ∷ [])
              p).filter
            ≡ g)
  unfolding run_all report_step
  report_shows_stale message f g a b p = (refl, refl)
