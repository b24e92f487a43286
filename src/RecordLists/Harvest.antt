-- ===== src/RecordLists/Harvest.antt =====
-- The component HarvestList of modules/harvest/harvest-list.tsx, while the page stays open.
use koranco.Base.{
  String, Bool, true, false, not, Option, none, some, List, [], if◌then◌else◌, Result, ok, err,
}
use koranco.Dexie.{Dexie}
use koranco.Types.Server.{Instant, AuthenticatedUser, FarmUnit, HarvestRecord}
use koranco.Types.Local.{LocalHarvestDraft}
use koranco.Offline.Db.{Db}
use koranco.Offline.Lease.{harvest, includes, record_offline_lease, valid_offline_lease}
use koranco.Offline.Reference.{cache_farm_units, cached_farm_units}
use koranco.Offline.Harvest.{owner_harvest_drafts}
use koranco.HarvestPage.Load.{offline_user}
use koranco.RecordLists.Attendance.{is_empty}

pub record ListState : Type 0 where
  pub user : Option AuthenticatedUser
  pub verified_online : Bool
  pub items : Option (List HarvestRecord)
  pub local_items : List LocalHarvestDraft
  pub error_text : String
  pub status : String
  pub unit : String
  pub date_from : String
  pub date_to : String
  pub preparing : Bool
  pub prepared_at : Option Instant

module _ ⦃dexie : Dexie⦄ where
  -- `current` is what getCurrentSession comes to.
  unfoldable pub check_session :
      Result AuthenticatedUser → Instant → ListState → Db → ListState × Db
  unfolding offline_user
  check_session (ok user) now s db =
      if not (includes user.permissions "harvest.read")
      then (record s { error_text = "You do not have permission to access Harvest." }, db)
      else (record s { verified_online = true; user = some user }, record_offline_lease user now db)
  check_session (err _) now s db = elim (valid_offline_lease none harvest now db) [
    | none ↦ (
      record s {
        error_text = "Your session could not be verified and offline Harvest is unavailable.";
      },
      db,
    )
    | some lease ↦ (record s { user = some (offline_user lease) }, db)
  ]

  abbrev pub lists_of : Result (List HarvestRecord) → AuthenticatedUser → ListState → Db → ListState
  lists_of (ok items) user s db = record s {
    items = some items;
    local_items = owner_harvest_drafts user.id db;
  }
  lists_of (err _) user s db = record s {
    items = some [];
    local_items = owner_harvest_drafts user.id db;
    error_text = "Official Harvest records could not be loaded. Device drafts remain available.";
  }

  -- `listed` is what listHarvest comes to; a page that is not verified online does not ask.
  unfoldable pub load_lists : Result (List HarvestRecord) → ListState → Db → ListState
  load_lists listed s db = elim s.user [
    | none ↦ s
    | some user ↦ lists_of (if s.verified_online then listed else ok []) user s db
  ]

  -- The rest of `prepareFarmUnits`, for a user; `fetched` is what activeFarmUnitsForOffline comes to.
  unfoldable pub prepare_farm_units_for :
      Result (List FarmUnit) → Instant → AuthenticatedUser → ListState → Db → ListState × Db
  prepare_farm_units_for (ok units) now user s db =
      let (fetched_at, db') = cache_farm_units user.id units now db in
      (record s { prepared_at = some fetched_at; error_text = ""; preparing = false }, db')
  prepare_farm_units_for (err _) now user s db = (
    record s {
      error_text =
          if is_empty (cached_farm_units user.id db)
          then "FarmUnit preparation requires a working connection."
          else "FarmUnits could not be refreshed. The existing device copy remains available.";
      preparing = false;
    },
    db,
  )

  unfoldable pub prepare_farm_units :
      Result (List FarmUnit) → Instant → ListState → Db → ListState × Db
  prepare_farm_units fetched now s db = elim s.user [
    | none ↦ (s, db)
    | some user ↦ prepare_farm_units_for fetched now user s db
  ]
