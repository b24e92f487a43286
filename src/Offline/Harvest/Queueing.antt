-- ===== src/Offline/Harvest/Queueing.antt =====
-- How a harvest draft becomes one queued operation.
use mathlib.Core.Option
use koranco.Base.{
  String, ◌≡◌, refl, ap, ◌∙◌, true, false, not, ◌&&◌, ◌||◌, Option, none, some, ◌==◌, eq_iff,
  eq_refl, truthy, arith, ok,
}
use koranco.Dexie.{Dexie}
use koranco.Dexie.Laws.{get-update_self, first_of_only, get-put_self}
use koranco.Types.Server.{Instant}
use koranco.Types.Local.{
  OutboxState, LocalHarvestDraft, HarvestOutboxOperation, HarvestDraftValues, OfflineLease,
}
use koranco.Offline.Db.{Db}
use koranco.Offline.Lease.{harvest, valid_offline_lease}
use koranco.Offline.Harvest.{
  edited, new_operation, waiting_draft, owned, queue_harvest_submission, queue_found,
  queue_complete, enqueue, save_local_harvest_draft, save_found, is_editing,
}

-- A farm unit and a quantity are given.
abbrev pub IsComplete : LocalHarvestDraft → Type 0
IsComplete d = (not (truthy d.farm_unit_id) || not (truthy d.quantity)) ≡ false

-- A first operation that is the owner's submission of the draft `d` of this id.
pub record IsSubmission (owner id uuid : String) (d : LocalHarvestDraft)
    (o : HarvestOutboxOperation) : Type 0 where
  pub owned : o.owner_id ≡ owner
  pub aggregate : o.aggregate_id ≡ id
  pub record_named : o.payload.harvest_record_id ≡ id
  pub named : (o.operation_id ≡ uuid) × (o.payload.operation_id ≡ uuid)
  pub based : o.payload.base_server_version ≡ d.base_server_version
  pub is_waiting : (o.state ≡ OutboxState.pending) × (o.attempt_count ≡ 0)

module _ ⦃dexie : Dexie⦄ where
  abbrev pub licensed : String → Instant → Db → Option OfflineLease
  licensed owner now db = valid_offline_lease (some owner) harvest now db

  pub owned_by :
      (owner : String) (o : Option LocalHarvestDraft) (d : LocalHarvestDraft)
      → o ≡ some d
      → d.owner_id ≡ owner
      → owned owner o ≡ some d
  owned_by owner o d found own = rw found (rw own (rw eq_refl))

  pub queue_harvest_submission_existing :
      (owner id uuid : String) (now : Instant) (db : Db) (l : OfflineLease) (d : LocalHarvestDraft)
      (o : HarvestOutboxOperation)
      → licensed owner now db ≡ some l
      → dexie.get id db.harvest_drafts ≡ some d
      → d.owner_id ≡ owner
      → IsComplete d
      → dexie.first (λ x. x.aggregate_id == id && x.owner_id == owner) db.harvest_outbox ≡ some o
      → queue_harvest_submission owner id uuid now db ≡ (ok o, db)
  unfolding queue_harvest_submission
  queue_harvest_submission_existing owner id uuid now db l d o lease found own full e = rw (
    lease,
    queue_harvest_submission,
    owned_by owner _ d found own,
    queue_found,
    full,
    queue_complete,
    e,
  )

  -- The database after a draft was queued.
  abbrev pub queued_db : String → String → String → Instant → LocalHarvestDraft → Db → Db
  queued_db owner id uuid now d db = record db {
    harvest_outbox = dexie.put (new_operation owner id uuid d now) db.harvest_outbox;
    harvest_drafts = dexie.update id (waiting_draft now) db.harvest_drafts;
  }

  pub queue_harvest_submission_new :
      (owner id uuid : String) (now : Instant) (db : Db) (l : OfflineLease) (d : LocalHarvestDraft)
      → licensed owner now db ≡ some l
      → dexie.get id db.harvest_drafts ≡ some d
      → d.owner_id ≡ owner
      → IsComplete d
      → dexie.first (λ x. x.aggregate_id == id && x.owner_id == owner) db.harvest_outbox ≡ none
      → dexie.get uuid db.harvest_outbox ≡ none
      → queue_harvest_submission owner id uuid now db
        ≡ (ok (new_operation owner id uuid d now), queued_db owner id uuid now d db)
  unfolding queue_harvest_submission
  queue_harvest_submission_new owner id uuid now db l d lease found own full none_yet fresh = rw (
    lease,
    queue_harvest_submission,
    owned_by owner _ d found own,
    queue_found,
    full,
    queue_complete,
    none_yet,
    dexie.add_fresh (new_operation owner id uuid d now) db.harvest_outbox fresh,
    enqueue,
  )

  -- A user with a lease at both times submits his own complete harvest draft that has no operation
  -- of his yet, under an operation id that is free. Submitting again, under whatever id, queues
  -- nothing more: the call returns the operation of the first submission and leaves the database
  -- as it is.
  pub queue_harvest_submission_twice :
      (owner id uuid uuid' : String) (now now' : Instant) (db : Db) (l l' : OfflineLease)
      (d : LocalHarvestDraft)
      → licensed owner now db ≡ some l
      → licensed owner now' db ≡ some l'
      → dexie.get id db.harvest_drafts ≡ some d
      → d.owner_id ≡ owner
      → IsComplete d
      → dexie.first (λ x. x.aggregate_id == id && x.owner_id == owner) db.harvest_outbox ≡ none
      → dexie.get uuid db.harvest_outbox ≡ none
      → queue_harvest_submission owner id uuid' now'
          (queue_harvest_submission owner id uuid now db).1
        ≡ queue_harvest_submission owner id uuid now db
  unfolding new_operation waiting_draft valid_offline_lease
  queue_harvest_submission_twice owner id uuid uuid' now now' db l l' d lease lease' found own full
        none_yet fresh =
      rw (queue_harvest_submission_new owner id uuid now db l d lease found own full none_yet fresh)
        (queue_harvest_submission_existing owner id uuid' now' (queued_db owner id uuid now d db) l'
          (waiting_draft now d) (new_operation owner id uuid d now) lease'
          (dexie_update ∙ ap (Option.map (waiting_draft now)) found) own full only)
    where
      dexie_update :
          dexie.get id (dexie.update id (waiting_draft now) db.harvest_drafts)
          ≡ Option.map (waiting_draft now) (dexie.get id db.harvest_drafts)
      dexie_update = get-update_self id _ db.harvest_drafts (λ r. refl)

      only :
          dexie.first
            (λ x. x.aggregate_id == id && x.owner_id == owner)
            (queued_db owner id uuid now d db).harvest_outbox
          ≡ some (new_operation owner id uuid d now)
      only =
          first_of_only uuid (new_operation owner id uuid d now) _ _
            (get-put_self _ db.harvest_outbox) ((rw (eq_refl id, eq_refl owner)))
            (λ j s. rw dexie.get-put (
              ground (arith, dexie.first_complete j s _ db.harvest_outbox none_yet, eq_iff uuid j)))

  pub save_local_harvest_draft_editing :
      (owner id : String) (values : HarvestDraftValues) (now : Instant) (db : Db) (l : OfflineLease)
      (d : LocalHarvestDraft)
      → licensed owner now db ≡ some l
      → dexie.get id db.harvest_drafts ≡ some d
      → d.owner_id ≡ owner
      → is_editing d.state ≡ true
      → save_local_harvest_draft owner id values now db ≡ (
        ok (edited values now d),
        record db { harvest_drafts = dexie.put (edited values now d) db.harvest_drafts },
      )
  unfolding save_local_harvest_draft
  save_local_harvest_draft_editing owner id values now db l d lease found own open_ =
      rw (lease, save_local_harvest_draft, owned_by owner _ d found own, save_found, open_)

  -- A user with a lease at both times saves his own open harvest draft that has no operation of
  -- his yet, with a farm unit and a quantity that are not empty, and submits it under a free
  -- operation id. The operation that is queued carries the values saved and the server version
  -- that the draft is based on; it is in the outbox, and the draft waits for the server.
  pub queue_harvest_submission-save :
      (owner id uuid : String) (values : HarvestDraftValues) (now now' : Instant) (db : Db)
      (l l' : OfflineLease) (d : LocalHarvestDraft)
      → licensed owner now db ≡ some l
      → licensed owner now' db ≡ some l'
      → dexie.get id db.harvest_drafts ≡ some d
      → d.owner_id ≡ owner
      → is_editing d.state ≡ true
      → truthy values.farm_unit_id ≡ true
      → truthy values.quantity ≡ true
      → dexie.first (λ x. x.aggregate_id == id && x.owner_id == owner) db.harvest_outbox ≡ none
      → dexie.get uuid db.harvest_outbox ≡ none
      → (o : HarvestOutboxOperation) × (db' : Db) × (queue_harvest_submission owner id uuid now'
            (save_local_harvest_draft owner id values now db).1
          ≡ (ok o, db'))
        × IsSubmission owner id uuid d o
        × (o.payload.harvest_date ≡ values.harvest_date)
        × (o.payload.farm_unit_id ≡ values.farm_unit_id)
        × (o.payload.quantity ≡ values.quantity)
        × (o.payload.unit ≡ values.unit)
        × (o.payload.notes ≡ values.notes)
        × (dexie.get uuid db'.harvest_outbox ≡ some o)
        × (dexie.get id db'.harvest_drafts ≡ some (waiting_draft now' (edited values now d)))
  unfolding new_operation waiting_draft valid_offline_lease edited
  queue_harvest_submission-save owner id uuid values now now' db l l' d lease lease' found own open_
        has_unit has_quantity none_yet fresh =
      (
        new_operation owner id uuid (edited values now d) now',
        queued_db owner id uuid now' (edited values now d) stored,
        rw (save_local_harvest_draft_editing owner id values now db l d lease found own open_) (
            queue_harvest_submission_new owner id uuid now' stored l' (edited values now d) lease'
              saved own (rw (has_unit, has_quantity) refl) none_yet fresh),
        record {
          owned = refl;
          aggregate = refl;
          record_named = refl;
          named = (refl, refl);
          based = refl;
          is_waiting = (refl, refl);
        },
        refl,
        refl,
        refl,
        refl,
        refl,
        get-put_self _ db.harvest_outbox,
        get-update_self id _ stored.harvest_drafts (λ r. refl)
            ∙ ap (Option.map (waiting_draft now')) saved,
      )
    where
      stored : Db
      stored = record db { harvest_drafts = dexie.put (edited values now d) db.harvest_drafts }

      saved : dexie.get id stored.harvest_drafts ≡ some (edited values now d)
      saved =
          dexie.get-put id (edited values now d) db.harvest_drafts
          ∙ (simp (dexie.key-get id d db.harvest_drafts found, eq_refl))
