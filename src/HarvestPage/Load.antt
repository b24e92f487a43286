-- ===== src/HarvestPage/Load.antt =====
-- How modules/harvest/harvest-workspace.tsx checks the session, opens a record, and finds farm units.
-- The effects are those of a page that stays open.
use koranco.Base.{
  String, Bool, true, false, not, ◌&&◌, ◌||◌, ◌==◌, Option, none, some, List, [], ◌∷◌, map, keep,
  truthy, trim, contains, if◌then◌else◌, Result, ok, err, Failure, error, api_error,
  constraint_error,
}
use Prim.Native.String.{◌++◌}
use koranco.Dexie.{Dexie}
use koranco.Types.Server.{
  Instant, AuthenticatedUser, supervisor, FarmUnit, HarvestRecord, SessionStatus, submitted, draft,
}
use koranco.Types.Local.{
  LocalDraftState, CachedFarmUnit, LocalHarvestDraft, HarvestOutboxOperation, OfflineLease,
}
use koranco.Offline.Db.{Db}
use koranco.Offline.Lease.{harvest, includes, record_offline_lease, valid_offline_lease}
use koranco.Offline.Reference.{cached_farm_units}
use koranco.Offline.Harvest.{
  create_local_harvest_draft, cache_server_harvest_draft, owner_harvest_draft,
}
use koranco.Sync.Answers.{SyncOutcome, Answer}
use koranco.Sync.Harvest.{sync_harvest}
use koranco.HarvestPage.State.{HarvestState, cached_to_farm_unit, apply_local, apply_record}
use koranco.HarvestPage.Handlers.{Replies, undefined_read, failed, refreshed_state}

-- The user that a page without a verified session works for.
unfoldable pub offline_user : OfflineLease → AuthenticatedUser
offline_user lease = record {
  id = lease.owner_id;
  login_identifier = "offline";
  display_name = lease.display_name;
  permissions = "harvest.read" ∷ "harvest.record" ∷ [];
  role = supervisor;
  password_change_required = false;
}

abbrev is_active : CachedFarmUnit → Bool
is_active u = u.active

abbrev pub is_unsent : LocalDraftState → Bool
is_unsent LocalDraftState.pending_submission = true
is_unsent LocalDraftState.syncing = true
is_unsent _ = false

abbrev pub unsent_draft : Option LocalHarvestDraft → Bool
unsent_draft none = false
unsent_draft (some d) = is_unsent d.state

-- `if (!local) setError(...)`
abbrev pub if_no_draft : Option LocalHarvestDraft → Failure → HarvestState → HarvestState
if_no_draft none e s = failed e s
if_no_draft (some _) e s = s

module _ ⦃dexie : Dexie⦄ where
  -- `current` is what getCurrentSession comes to.
  unfoldable pub check_session :
      Result AuthenticatedUser → Instant → HarvestState → Db → HarvestState × Db
  unfolding offline_user
  check_session (ok user) now s db =
      if not (includes user.permissions "harvest.read")
      then (record s { error_text = "You do not have permission to access Harvest." }, db)
      else (record s { verified_online = true; user = some user }, record_offline_lease user now db)
  check_session (err _) now s db = elim (valid_offline_lease none harvest now db) [
    | none ↦ (
      record s {
        error_text = "Your session could not be verified and offline Harvest is unavailable.";
      },
      db,
    )
    | some lease ↦ (record s { user = some (offline_user lease) }, db)
  ]

  unfoldable pub active_units : (owner : String) → Db → List FarmUnit
  unfolding cached_to_farm_unit
  active_units owner db = map cached_to_farm_unit (keep is_active (cached_farm_units owner db))

  abbrev audited : Replies → Option LocalHarvestDraft → SessionStatus → HarvestState → HarvestState
  audited replies local draft s = s
  audited replies local submitted s = elim replies.audit [
    | err e ↦ if_no_draft local e s
    | ok events ↦ elim events [
      | none ↦ if_no_draft local undefined_read s
      | some items ↦ record s { history = items }
    ]
  ]

  abbrev pub copied :
      Replies
      → Option LocalHarvestDraft
      → HarvestRecord
      → HarvestState
      → Result LocalHarvestDraft × Db
      → HarvestState × Db
  copied replies local item s (err e, db) = (if_no_draft local e s, db)
  copied replies local item s (ok saved, db) =
      (audited replies local item.status (record s { local_draft = some saved }), db)

  -- The record of the server, and its copy on the device.
  unfoldable pub load_record :
      Replies
      → (owner : String) → Option LocalHarvestDraft
      → Instant
      → HarvestState
      → Db
      → HarvestState × Db
  unfolding apply_record
  load_record replies owner local now s db = elim replies.fetched [
    | err e ↦ (if_no_draft local e s, db)
    | ok r ↦ elim r [
      | none ↦ (if_no_draft local undefined_read (record s { official = none }), db)
      | some item ↦
          copied replies local item (apply_record item s)
            (cache_server_harvest_draft owner item now db)
    ]
  ]

  abbrev pub after_load_sync :
      Replies
      → (owner : String) → Option LocalHarvestDraft
      → Instant
      → SyncOutcome
      → HarvestState
      → Db
      → HarvestState × Db
  after_load_sync replies owner local now SyncOutcome.synced s db =
      load_record replies owner local now s db
  after_load_sync replies owner local now _ s db = (s, db)

  -- A record that is there already.
  unfoldable pub load_existing :
      (HarvestOutboxOperation → Answer HarvestRecord)
      → Replies
      → (id owner : String) → Instant
      → HarvestState
      → Db
      → HarvestState × Db
  unfolding load_record
  load_existing server replies id owner now s db =
      let local = owner_harvest_draft owner id db in
      let opened = refreshed_state local s in
      if not s.verified_online
      then (
        elim local [
          | none ↦ record opened {
            error_text = "This Harvest record is not available on this device.";
          }
          | some _ ↦ opened
        ],
        db,
      )
      else if unsent_draft local
      then (let (outcome, db') = sync_harvest server owner db in
          after_load_sync replies owner local now outcome
            (refreshed_state (owner_harvest_draft owner id db') opened) db')
      else load_record replies owner local now opened db

-- `constraint_message` is the message of a rejection by the database.
module _ ⦃dexie : Dexie⦄ (constraint_message : String) where
  abbrev creation_message : Failure → String
  creation_message (error m) = m
  creation_message (api_error m _) = m
  creation_message constraint_error = constraint_message

  -- The draft that the page began with, or a new one: the ref keeps the first.
  abbrev pub creation :
      Option (Result LocalHarvestDraft)
      → (owner uuid : String) → Instant
      → Db
      → Result LocalHarvestDraft × Db
  creation (some begun) owner uuid now db = (begun, db)
  creation none owner uuid now db = create_local_harvest_draft owner uuid now db

  abbrev pub created : HarvestState → Result LocalHarvestDraft × Db → HarvestState × Db
  created s (err e, db) =
      (record s { local_creation = some (err e); error_text = creation_message e }, db)
  created s (ok d, db) = (
    record (apply_local d s.units s) {
      local_creation = some (ok d);
      replaced_by = some ("/harvest/" ++ d.id);
    },
    db,
  )

  unfoldable pub load :
      (HarvestOutboxOperation → Answer HarvestRecord)
      → Replies
      → (id uuid : String) → Instant
      → HarvestState
      → Db
      → HarvestState × Db
  unfolding load_existing active_units
  load server replies id uuid now s db = elim s.user [
    | none ↦ (s, db)
    | some user ↦
        let known = record s { units = active_units user.id db } in
        if id == "new"
        then created known (creation s.local_creation user.id uuid now db)
        else load_existing server replies id user.id now known db
  ]

-- `lower` is toLocaleLowerCase in the locale of the browser.
module _ ⦃dexie : Dexie⦄ (lower : String → String) where
  abbrev matches : String → CachedFarmUnit → Bool
  matches term u =
      u.active
      && (not (truthy term) || contains (lower u.code) term || contains (lower u.name) term)

  abbrev no_rows {ℓ} : {A : Type ℓ} → List A → Bool
  no_rows [] = true
  no_rows (_ ∷ _) = false

  abbrev is_submitted : Option HarvestRecord → Bool
  is_submitted none = false
  is_submitted (some r) = elim r.status [ submitted ↦ true | draft ↦ false ]

  abbrev units_found : Result (List FarmUnit) → (owner : String) → HarvestState → Db → HarvestState
  units_found (ok items) owner s db = record s { units = items }
  units_found (err _) owner s db =
      let cached = record s { units = active_units owner db } in
      if no_rows (cached_farm_units owner db)
      then record cached { error_text = "Active FarmUnits could not be loaded." }
      else cached

  -- The search behind the farm units, once it runs; `listed` is what listFarmUnits comes to.
  unfoldable pub search_units : Result (List FarmUnit) → HarvestState → Db → HarvestState
  unfolding cached_to_farm_unit active_units
  search_units listed s db = elim s.user [
    | none ↦ s
    | some user ↦
        if is_submitted s.official
        then s
        else if not s.verified_online
        then record s {
          units =
              map cached_to_farm_unit
                (keep (matches (lower (trim s.search))) (cached_farm_units user.id db));
        }
        else units_found listed user.id s db
  ]
