-- ===== src/RecordLists/Refines.antt =====
-- What the pages that list records do to the stores, and what they show of the device.
use mathlib.Core.Path.{subst}
use koranco.Base.{
  String, ◌≡◌, refl, sym, not, some, List, [], Result, ok, err, if_either, truthy, if◌then◌else◌,
}
use koranco.Dexie.{Dexie}
use koranco.Types.Server.{Instant, AuthenticatedUser, Worker, FarmUnit, HarvestRecord}
use koranco.Types.Local.{LocalAttendanceDraft}
use koranco.Offline.Db.{Db}
use koranco.Offline.Attendance.{create_local_draft, owner_drafts}
use koranco.Offline.Harvest.{owner_harvest_drafts}
use koranco.Device.{step, cache_workers, cache_farm_units, create_attendance}
use koranco.Device.OnBehalf.{ByUser, none_done, one_done}
use koranco.RecordLists.Attendance as A
use koranco.RecordLists.Harvest as H

module _ ⦃dexie : Dexie⦄ where
  started-db :
      (constraint : String) (s : A.ListState) (r : Result LocalAttendanceDraft × Db)
      → (A.started constraint s r).1 ≡ r.1
  started-db constraint s (ok d, db) = refl
  started-db constraint s (err e, db) = refl

  start-ByUser :
      (constraint date uuid : String) (now : Instant) (user : AuthenticatedUser) (s : A.ListState)
      (db : Db)
      → s.user ≡ some user
      → ByUser user.id db (A.start constraint date uuid now s db).1
  unfolding A.start step
  start-ByUser constraint date uuid now user s db signed =
      rw (signed, A.start)
        (if_either (λ (r : A.ListState × Db). ByUser user.id db r.1) (not (truthy date)) _ _
          (none_done user.id db)
          (subst (ByUser user.id db)
            (sym (started-db constraint s (create_local_draft user.id date uuid now db)))
            (one_done user.id (create_attendance user.id date uuid now) db refl)))

  prepare_roster-ByUser :
      (fetched : Result (List Worker)) (now : Instant) (user : AuthenticatedUser) (s : A.ListState)
      (db : Db)
      → ByUser user.id db (A.prepare_roster_for fetched now user s db).1
  unfolding A.prepare_roster_for step
  prepare_roster-ByUser (ok workers) now user s db =
      one_done user.id (cache_workers user.id workers now) db refl
  prepare_roster-ByUser (err e) now user s db = none_done user.id db

  prepare_farm_units-ByUser :
      (fetched : Result (List FarmUnit)) (now : Instant) (user : AuthenticatedUser)
      (s : H.ListState) (db : Db)
      → ByUser user.id db (H.prepare_farm_units_for fetched now user s db).1
  unfolding H.prepare_farm_units_for step
  prepare_farm_units-ByUser (ok units) now user s db =
      one_done user.id (cache_farm_units user.id units now) db refl
  prepare_farm_units-ByUser (err e) now user s db = none_done user.id db

  -- For a page with a user, whatever starting a draft and preparing a roster or farm units do to the
  -- local stores, with every answer of the server and of the stores, is a sequence of calls on the
  -- device on behalf of that user.
  pub lists-ByUser :
      (constraint date uuid : String) (workers : Result (List Worker))
      (units : Result (List FarmUnit)) (now : Instant) (user : AuthenticatedUser) (s : A.ListState)
      (t : H.ListState) (db : Db)
      → s.user ≡ some user
      → t.user ≡ some user
      → ByUser user.id db (A.start constraint date uuid now s db).1
        × ByUser user.id db (A.prepare_roster workers now s db).1
        × ByUser user.id db (H.prepare_farm_units units now t db).1
  unfolding A.prepare_roster H.prepare_farm_units
  lists-ByUser constraint date uuid workers units now user s t db signed signed' = (
    start-ByUser constraint date uuid now user s db signed,
    rw (signed, A.prepare_roster) (prepare_roster-ByUser workers now user s db),
    rw (signed', H.prepare_farm_units) (prepare_farm_units-ByUser units now user t db),
  )

  lists_of-drafts :
      (listed : Result (List A.AttendanceListItem)) (user : AuthenticatedUser) (s : A.ListState)
      (db : Db)
      → (A.lists_of listed user s db).local_items ≡ owner_drafts user.id db
  lists_of-drafts (ok items) user s db = refl
  lists_of-drafts (err e) user s db = refl

  lists_of-harvest_drafts :
      (listed : Result (List HarvestRecord)) (user : AuthenticatedUser) (s : H.ListState) (db : Db)
      → (H.lists_of listed user s db).local_items ≡ owner_harvest_drafts user.id db
  lists_of-harvest_drafts (ok items) user s db = refl
  lists_of-harvest_drafts (err e) user s db = refl

  -- For a page with a user, whatever the server answers and whether or not it is asked, both lists
  -- show all drafts of the user that are on the device.
  pub lists_show_drafts :
      (listed : Result (List A.AttendanceListItem)) (records : Result (List HarvestRecord))
      (user : AuthenticatedUser) (s : A.ListState) (t : H.ListState) (db : Db)
      → s.user ≡ some user
      → t.user ≡ some user
      → ((A.load_lists listed s db).local_items ≡ owner_drafts user.id db)
        × ((H.load_lists records t db).local_items ≡ owner_harvest_drafts user.id db)
  unfolding A.load_lists H.load_lists
  lists_show_drafts listed records user s t db signed signed' = (
    rw (signed, A.load_lists) (lists_of-drafts listed user s db),
    rw (signed', H.load_lists)
        (lists_of-harvest_drafts (if t.verified_online then records else ok []) user t db),
  )
