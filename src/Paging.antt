-- ===== src/Paging.antt =====
-- activeWorkersForRoster of modules/attendance/api.ts and activeFarmUnitsForOffline of
-- modules/farm-structure/api.ts: all pages of a list that the server sends in pages.
pub mod Complete
use koranco.Base.{
  ℕ, zero, suc, ◌+◌, ◌||◌, Option, none, some, List, [], ◌++◌, length, leb, eqb, if◌then◌else◌,
  Result, ok, err,
}
use koranco.Client.{Fetched, api_request, defined}
use koranco.Types.Server.{Worker, FarmUnit}

pub record Page (A : Type 0) : Type 0 where
  pub items : List A
  pub total : ℕ

-- The loop, with the items so far and the offset of the next page; none when the fuel is used up.
unfoldable pub collect :
    {A : Type 0} → ℕ → (ℕ → Result (Page A)) → List A → ℕ → Option (Result (List A))
collect zero server got offset = none
collect (suc fuel) server got offset = elim (server offset) [
  | err e ↦ some (err e)
  | ok page ↦
      let got' = got ++ page.items in
      let rest = collect fuel server got' (offset + length page.items) in
      if leb page.total (length got') || eqb (length page.items) 0 then some (ok got') else rest
]

-- `fetch` answers the request of the page at an offset.
unfoldable pub active_workers_for_roster :
    ℕ → (ℕ → Fetched (Page Worker)) → Option (Result (List Worker))
unfolding collect api_request
active_workers_for_roster fuel fetch =
    collect fuel (λ offset. defined (api_request (fetch offset))) [] 0

unfoldable pub active_farm_units_for_offline :
    ℕ → (ℕ → Fetched (Page FarmUnit)) → Option (Result (List FarmUnit))
unfolding collect api_request
active_farm_units_for_offline fuel fetch =
    collect fuel (λ offset. defined (api_request (fetch offset))) [] 0
