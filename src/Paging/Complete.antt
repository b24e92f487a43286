-- ===== src/Paging/Complete.antt =====
-- The loop ends, and it brings the whole list.
use koranco.Base.{
  ℕ, zero, suc, ◌+◌, ◌≤◌, ◌<◌, ◌||◌, ◌≡◌, refl, sym, ◌∙◌, ap, some, List, [], ◌++◌, length,
  length-append, take, drop, take-drop, drop_add, take_empty, append_assoc, append_short, leb, eqb,
  if◌then◌else◌, Result, ok, err, Result-cases, arith, inl, inr, Bool-cases, Failure,
}
use koranco.Client.{Fetched, api_request, defined}
use koranco.Types.Server.{Worker, FarmUnit}
use koranco.Paging.{Page, collect, active_workers_for_roster, active_farm_units_for_offline}

module _ {A : Type 0} (server : ℕ → Result (Page A)) where
  -- The totals of the pages are at most `bound`.
  abbrev Bounded : ℕ → Type 0
  Bounded bound = (offset : ℕ) (page : Page A) → server offset ≡ ok page → page.total ≤ bound

  collect_err :
      (fuel : ℕ) (got : List A) (offset : ℕ) (e : Failure)
      → server offset ≡ err e
      → collect (suc fuel) server got offset ≡ some (err e)
  unfolding collect
  collect_err fuel got offset e h = rw (h, collect)

  collect_ok :
      (fuel : ℕ) (got : List A) (offset : ℕ) (page : Page A)
      → server offset ≡ ok page
      → collect (suc fuel) server got offset ≡ (
          if leb page.total (length (got ++ page.items)) || eqb (length page.items) 0
          then some (ok (got ++ page.items))
          else collect fuel server (got ++ page.items) (offset + length page.items))
  unfolding collect
  collect_ok fuel got offset page h = rw (h, collect)

  collect_ends :
      (fuel bound : ℕ) (got : List A) (offset : ℕ)
      → Bounded bound
      → bound < fuel + length got
      → 0 < fuel
      → (r : Result (List A)) × (collect fuel server got offset ≡ some r)
  collect_ends zero bound got offset bounded enough pos = absurd (omega arith)
  collect_ends (suc fuel) bound got offset bounded enough pos =
      elim (Result-cases (server offset)) [
        | inr (e, h) ↦ (err e, collect_err fuel got offset e h)
        | inl (page, h) ↦
            elim (Bool-cases
              (leb page.total (length (got ++ page.items)) || eqb (length page.items) 0)) [
                | inl stop ↦ (ok (got ++ page.items), rw (collect_ok fuel got offset page h, stop))
                | inr more ↦
                    let appended = length-append got page.items in
                    let (r, e) =
                      collect_ends fuel bound (got ++ page.items) (offset + length page.items)
                        bounded (ground (arith, appended, more))
                        (ground (arith, appended, more, bounded offset page h)) in
                    (r, rw (collect_ok fuel got offset page h, more) e)
              ]
      ]

  -- The server holds the list `rows` and sends pages of at most `limit` of it.
  abbrev pub Serves : List A → ℕ → Type 0
  Serves rows limit =
      (offset : ℕ)
      → (page : Page A) × (server offset ≡ ok page)
        × (page.items ≡ take limit (drop offset rows))
        × (page.total ≡ length rows)

  collect_all :
      (fuel limit : ℕ) (rows got : List A) (offset : ℕ)
      → Serves rows limit
      → 0 < limit
      → got ++ drop offset rows ≡ rows
      → length rows < fuel + length got
      → collect fuel server got offset ≡ some (ok rows)
  collect_all zero limit rows got offset serves pos whole enough =
      let n = sym (length-append got (drop offset rows)) ∙ ap length whole in absurd (omega arith)
  collect_all (suc fuel) limit rows got offset serves pos whole enough =
      let (page, h, items, total) = serves offset in
      let left : page.items ++ drop (length page.items) (drop offset rows) ≡ drop offset rows =
        rw items (take-drop limit (drop offset rows)) in
      let whole' : (got ++ page.items) ++ drop (length page.items) (drop offset rows) ≡ rows =
        append_assoc got page.items _ ∙ ap (λ r. got ++ r) left ∙ whole in
      let none_left : length page.items ≡ 0 → length (drop offset rows) ≡ 0 =
        λ z. take_empty limit (drop offset rows) pos (sym (ap length items) ∙ z) in
      let all = sym (length-append got (drop offset rows)) ∙ ap length whole in
      let appended = length-append got page.items in
      elim (Bool-cases (leb page.total (length (got ++ page.items)) || eqb (length page.items) 0)) [
        | inl stop ↦
            let short : length rows ≤ length (got ++ page.items) =
              ground (arith, stop, total, appended, all, none_left) in
            rw (collect_ok fuel got offset page h, stop)
              (ap (λ r. some (ok r)) (sym (append_short (got ++ page.items) _ rows whole' short)))
        | inr more ↦
            rw (collect_ok fuel got offset page h, more)
              (collect_all fuel limit rows (got ++ page.items) (offset + length page.items) serves
                pos
                (ap (λ r. (got ++ page.items) ++ r) (drop_add offset (length page.items) rows)
                  ∙ whole')
                (ground (arith, appended, more, enough)))
      ]

-- What a page request comes to.
abbrev pub reply : {A : Type 0} → (ℕ → Fetched (Page A)) → ℕ → Result (Page A)
reply fetch offset = defined (api_request (fetch offset))

-- The request loop for workers ends: when no page names a total above a bound, one request more
-- than the bound is enough, whatever the pages hold and whatever fails.
pub active_workers_for_roster_ends :
    (fetch : ℕ → Fetched (Page Worker)) (bound : ℕ)
    → ((offset : ℕ) (page : Page Worker) → reply fetch offset ≡ ok page → page.total ≤ bound)
    → (r : Result (List Worker)) × (active_workers_for_roster (suc bound) fetch ≡ some r)
unfolding active_workers_for_roster
active_workers_for_roster_ends fetch bound bounded =
    collect_ends (reply fetch) (suc bound) bound [] 0 bounded (omega arith) (omega arith)

-- From a server that holds a list and sends its pages, of a limit that is not zero, both loops bring
-- the whole list in its order, each worker and each farm unit once.
pub collected_whole :
    (fetch : ℕ → Fetched (Page Worker)) (fetch' : ℕ → Fetched (Page FarmUnit)) (limit : ℕ)
    (workers : List Worker) (units : List FarmUnit)
    → 0 < limit
    → Serves (reply fetch) workers limit
    → Serves (reply fetch') units limit
    → (active_workers_for_roster (suc (length workers)) fetch ≡ some (ok workers))
      × (active_farm_units_for_offline (suc (length units)) fetch' ≡ some (ok units))
unfolding active_workers_for_roster active_farm_units_for_offline drop
collected_whole fetch fetch' limit workers units pos serves serves' = (
  collect_all (reply fetch) (suc (length workers)) limit workers [] 0 serves pos refl (omega arith),
  collect_all (reply fetch') (suc (length units)) limit units [] 0 serves' pos refl (omega arith),
)
