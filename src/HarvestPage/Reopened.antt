-- ===== src/HarvestPage/Reopened.antt =====
-- A harvest draft that the page saved, and a page that opens it from the device; a page that begins a
-- draft.
use koranco.Base.{
  String, ◌≡◌, refl, ap, ◌∙◌, ◌≢◌, true, false, ==-eq-false, Bool-cases, inl, inr, Option, some,
  List, [], ◌∷◌, truthy, trim, Result, ok, err, arith, eq_iff, eq_refl,
}
use koranco.Base.Texts.Trimmed.{trim_twice}
use koranco.Dexie.{Dexie}
use koranco.Types.Server.{Instant, AuthenticatedUser, FarmUnit, HarvestRecord}
use koranco.Types.Local.{
  LocalHarvestDraft, HarvestOutboxOperation, HarvestDraftValues, OfflineLease,
}
use koranco.Offline.Db.{Db}
use koranco.Offline.Attendance.{is_editing}
use koranco.Offline.Reference.{cached_farm_units}
use koranco.Offline.Harvest.{save_local_harvest_draft, owner_harvest_draft, edited}
use koranco.Offline.Harvest.Queueing.{licensed, owned_by, save_local_harvest_draft_editing}
use koranco.Sync.Answers.{Answer}
use koranco.HarvestPage.State.{
  HarvestState, text_of, null_if_empty, find_unit, apply_local, values, draft_values, validate,
}
use koranco.HarvestPage.Handlers.{Replies, save_form, save_draft}
use koranco.HarvestPage.Load.{active_units, creation, created, load, load_existing}

find_unit-id :
    (id : String) (us : List FarmUnit) (u : FarmUnit) → find_unit id us ≡ some u → u.id ≡ id
unfolding find_unit
find_unit-id id [] u h = cc
find_unit-id id (x ∷ us) u h = ground (arith, eq_iff x.id id, find_unit-id id us u)

-- The notes that were saved give the same notes again.
notes_again :
    (t : String) → null_if_empty (trim (text_of (null_if_empty (trim t)))) ≡ null_if_empty (trim t)
unfolding trim
notes_again t = elim (Bool-cases (truthy (trim t))) [
  | inl given ↦ rw (given, trim_twice t, given) refl
  | inr empty ↦ rw empty refl
]

module _ ⦃dexie : Dexie⦄ where
  saved_form :
      (now : Instant) (user : AuthenticatedUser) (d d' : LocalHarvestDraft) (s : HarvestState)
      (db db' : Db)
      → validate s ≡ ""
      → save_local_harvest_draft user.id d.id (draft_values s) now db ≡ (ok d', db')
      → (save_form now user d s db).2 ≡ db'
  unfolding save_form
  saved_form now user d d' s db db' valid saved = rw (valid, saved) refl

  -- The draft with new values is the user's draft.
  written :
      (owner id : String) (v : HarvestDraftValues) (now : Instant) (row : LocalHarvestDraft)
      (db : Db)
      → dexie.get id db.harvest_drafts ≡ some row
      → row.owner_id ≡ owner
      → owner_harvest_draft owner id
          (record db { harvest_drafts = dexie.put (edited v now row) db.harvest_drafts })
        ≡ some (edited v now row)
  unfolding owner_harvest_draft edited
  written owner id v now row db found own =
      owned_by owner _ (edited v now row)
        (dexie.get-put id (edited v now row) db.harvest_drafts
          ∙ (simp (dexie.key-get id row db.harvest_drafts found, eq_refl)))
        own

  save_draft-of :
      (now : Instant) (user : AuthenticatedUser) (d : LocalHarvestDraft) (s : HarvestState)
      (db : Db)
      → s.user ≡ some user
      → s.local_draft ≡ some d
      → save_draft now s db ≡ save_form now user d s db
  unfolding save_draft
  save_draft-of now user d s db signed opened = simp (signed, opened, save_draft)

  -- The form that a page shows of a draft on the device.
  values-apply_local :
      (d : LocalHarvestDraft) (u u' : FarmUnit) (available : List FarmUnit) (s p : HarvestState)
      → s.farm_unit ≡ some u
      → find_unit u.id available ≡ some u'
      → d.harvest_date ≡ s.date
      → d.farm_unit_id ≡ u.id
      → d.quantity ≡ s.quantity
      → d.unit ≡ s.unit
      → d.notes ≡ null_if_empty (trim s.notes)
      → values (apply_local d available p) ≡ values s
  unfolding values apply_local
  values-apply_local d u u' available s p chosen there date unit quantity kind notes =
      let found = ap (λ k. find_unit k available) unit ∙ there in
      cc (
        found,
        find_unit-id u.id available u' there,
        ap (λ n. null_if_empty (trim (text_of n))) notes ∙ notes_again s.notes,
      )

  load_existing_unverified :
      (server : HarvestOutboxOperation → Answer HarvestRecord) (replies : Replies)
      (id owner : String) (now : Instant) (d : LocalHarvestDraft) (p : HarvestState) (db : Db)
      → p.verified_online ≡ false
      → owner_harvest_draft owner id db ≡ some d
      → load_existing server replies id owner now p db ≡ (apply_local d p.units p, db)
  unfolding load_existing
  load_existing_unverified server replies id owner now d p db offline found = simp (offline, found)

  load_existing-of_load :
      (constraint : String) (server : HarvestOutboxOperation → Answer HarvestRecord)
      (replies : Replies) (id uuid : String) (now : Instant) (user : AuthenticatedUser)
      (p : HarvestState) (db : Db)
      → p.user ≡ some user
      → id ≢ "new"
      → load constraint server replies id uuid now p db
        ≡ load_existing server replies id user.id now
            (record p { units = active_units user.id db })
            db
  unfolding load
  load_existing-of_load constraint server replies id uuid now user p db signed other =
      simp (signed, load, ==-eq-false id "new" other)

  -- A user with a lease saves a form with nothing wrong to his own draft that is open for editing,
  -- whose id is not "new", and the farm unit of the form is among his active units on the device. A
  -- page of his that is not verified online and opens the draft after that shows the same values as
  -- the form, the notes trimmed, in the state of the draft, and leaves the stores as they are.
  pub load-save_draft :
      (constraint : String) (server : HarvestOutboxOperation → Answer HarvestRecord)
      (replies : Replies) (uuid : String) (now later : Instant) (user : AuthenticatedUser)
      (d row : LocalHarvestDraft) (u u' : FarmUnit) (s p : HarvestState) (db : Db)
      (l : OfflineLease)
      → s.user ≡ some user
      → s.local_draft ≡ some d
      → s.farm_unit ≡ some u
      → validate s ≡ ""
      → d.id ≢ "new"
      → licensed user.id now db ≡ some l
      → dexie.get d.id db.harvest_drafts ≡ some row
      → row.owner_id ≡ user.id
      → is_editing row.state ≡ true
      → find_unit u.id (active_units user.id db) ≡ some u'
      → p.user ≡ some user
      → p.verified_online ≡ false
      → (values (load constraint server replies d.id uuid later p (save_draft now s db).2).0
          ≡ values s)
        × ((load constraint server replies d.id uuid later p (save_draft now s db).2).0.local_state
            ≡ row.state)
        × ((load constraint server replies d.id uuid later p (save_draft now s db).2).1
            ≡ (save_draft now s db).2)
  unfolding edited active_units cached_farm_units draft_values
  load-save_draft constraint server replies uuid now later user d row u u' s p db l signed opened
        chosen valid other lease found own open_ known reader offline =
      rw (stored_eq, opens)
        (
          values-apply_local row' u u' units s page chosen known refl unit_id refl refl refl,
          unfold apply_local in refl,
          refl,
        )
    where
      row' : LocalHarvestDraft
      row' = edited (draft_values s) now row

      stored : Db
      stored = record db { harvest_drafts = dexie.put row' db.harvest_drafts }

      units : List FarmUnit
      units = active_units user.id db

      page : HarvestState
      page = record p { units = units }

      unit_id : row'.farm_unit_id ≡ u.id
      unit_id = rw chosen refl

      stored_eq : (save_draft now s db).2 ≡ stored
      stored_eq =
          ap (λ (r : Option LocalHarvestDraft × HarvestState × Db). r.2)
            (save_draft-of now user d s db signed opened)
          ∙ saved_form now user d row' s db stored valid (
              save_local_harvest_draft_editing user.id d.id (draft_values s) now db l row lease
                found own open_)

      opens :
          load constraint server replies d.id uuid later p stored
          ≡ (apply_local row' units page, stored)
      opens =
          load_existing-of_load constraint server replies d.id uuid later user p stored reader other
          ∙ load_existing_unverified server replies d.id user.id later row' page stored offline
              (written user.id d.id (draft_values s) now row db found own)

  load-new :
      (constraint : String) (server : HarvestOutboxOperation → Answer HarvestRecord)
      (replies : Replies) (uuid : String) (now : Instant) (user : AuthenticatedUser)
      (s : HarvestState) (db : Db)
      → s.user ≡ some user
      → load constraint server replies "new" uuid now s db
        ≡ created constraint
            (record s { units = active_units user.id db })
            (creation constraint s.local_creation user.id uuid now db)
  unfolding load
  load-new constraint server replies uuid now user s db signed = simp (signed, load)

  created-local_creation :
      (constraint : String) (s : HarvestState) (r : Result LocalHarvestDraft × Db)
      → (created constraint s r).0.local_creation ≡ some r.0
  created-local_creation constraint s (ok d, db) = refl
  created-local_creation constraint s (err e, db) = refl

  begun_once :
      (constraint owner uuid : String) (now : Instant) (p : HarvestState) (db : Db)
      (c : Option (Result LocalHarvestDraft)) (r : Result LocalHarvestDraft)
      → c ≡ some r
      → (created constraint p (creation constraint c owner uuid now db)).1 ≡ db
  begun_once constraint owner uuid now p db c (ok d) begun = rw begun refl
  begun_once constraint owner uuid now p db c (err e) begun = rw begun refl

  -- A page with a user is opened at "new", which begins a draft or fails to. Whatever else has become
  -- of the page since then, opening it at "new" again, at whatever time, begins no other draft: the
  -- stores stay as they are.
  pub load_new_once :
      (constraint : String) (server : HarvestOutboxOperation → Answer HarvestRecord)
      (replies replies' : Replies) (uuid uuid' : String) (now later : Instant)
      (user user' : AuthenticatedUser) (s p : HarvestState) (db db' : Db)
      → s.user ≡ some user
      → p.user ≡ some user'
      → p.local_creation ≡ (load constraint server replies "new" uuid now s db).0.local_creation
      → (load constraint server replies' "new" uuid' later p db').1 ≡ db'
  load_new_once constraint server replies replies' uuid uuid' now later user user' s p db db' signed
        reader same =
      let first = load-new constraint server replies uuid now user s db signed in
      let begun =
        same
        ∙ ap (λ (r : HarvestState × Db). r.0.local_creation) first
        ∙ created-local_creation constraint (record s { units = active_units user.id db })
            (creation constraint s.local_creation user.id uuid now db) in
      ap (λ (r : HarvestState × Db). r.1)
        (load-new constraint server replies' uuid' later user' p db' reader)
      ∙ begun_once constraint user'.id uuid' later (record p { units = active_units user'.id db' })
          db' p.local_creation _ begun
