-- ===== src/Offline/Harvest/Effects.antt =====
-- What each harvest operation does to the database, on every branch.
use koranco.Base.{
  String, not, truthy, ◌&&◌, ◌||◌, ◌≡◌, refl, false, Option, none, some, ◌==◌, eq_iff, arith,
  Bool-cases, Option-cases, inl, inr,
}
use koranco.Dexie.{Dexie}
use koranco.Dexie.Laws.{get_own_key}
use koranco.Types.Server.{Instant, HarvestRecord}
use koranco.Types.Local.{LocalHarvestDraft, HarvestDraftValues}
use koranco.Offline.Db.{Db}
use koranco.Offline.Lease.{harvest, valid_offline_lease}
use koranco.Offline.Harvest.{
  cache_server_harvest_draft, create_local_harvest_draft, save_local_harvest_draft,
  queue_harvest_submission, server_copy, new_draft, new_operation, waiting_draft, add_draft,
  save_found, enqueue, queue_found, queue_complete, edited, of_other, owned, is_editing,
}

owned_sound :
    (owner : String) (o : Option LocalHarvestDraft) (d : LocalHarvestDraft)
    → owned owner o ≡ some d
    → (o ≡ some d) × (d.owner_id ≡ owner)
owned_sound owner none d h = cc
owned_sound owner (some x) d h = ground (arith, eq_iff x.owner_id owner)

pub of_other_self :
    (owner : String) (d : LocalHarvestDraft) → d.owner_id ≡ owner → of_other owner (some d) ≡ false
of_other_self owner d own = ground (arith, eq_iff d.owner_id owner)

module _ ⦃dexie : Dexie⦄ where
  -- What a call on behalf of `owner` may do to the stores of drafts and operations.
  pub data Effect (owner : String) (db db' : Db) : Type 0 where
    nothing : db' ≡ db → Effect owner db db'
    write :
        (d : LocalHarvestDraft)
        → d.owner_id ≡ owner
        → of_other owner (dexie.get d.id db.harvest_drafts) ≡ false
        → db' ≡ record db { harvest_drafts = dexie.put d db.harvest_drafts }
        → Effect owner db db'
    enqueued :
        (id uuid : String) (now : Instant) (d : LocalHarvestDraft)
        → dexie.get id db.harvest_drafts ≡ some d
        → d.owner_id ≡ owner
        → dexie.get uuid db.harvest_outbox ≡ none
        → dexie.first (λ o. o.aggregate_id == id && o.owner_id == owner) db.harvest_outbox ≡ none
        → db' ≡ record db {
          harvest_outbox = dexie.put (new_operation owner id uuid d now) db.harvest_outbox;
          harvest_drafts = dexie.update id (waiting_draft now) db.harvest_drafts;
        }
        → Effect owner db db'

  pub cache_server_harvest_draft-Effect :
      (owner : String) (r : HarvestRecord) (now : Instant) (db : Db)
      → Effect owner db (cache_server_harvest_draft owner r now db).1
  unfolding cache_server_harvest_draft
  cache_server_harvest_draft-Effect owner r now db =
      elim (Bool-cases (of_other owner (dexie.get r.id db.harvest_drafts))) [
        | inl e ↦ nothing (rw e refl)
        | inr e ↦
            write (server_copy owner r (dexie.get r.id db.harvest_drafts) now) refl e (rw e refl)
      ]

  add_draft-Effect :
      (owner : String) (d : LocalHarvestDraft) (db : Db)
      → d.owner_id ≡ owner
      → Effect owner db (add_draft d db).1
  unfolding add_draft
  add_draft-Effect owner d db own = elim (Option-cases (dexie.get d.id db.harvest_drafts)) [
    | inl fresh ↦
        write d own (rw fresh) (rw (dexie.add_fresh d db.harvest_drafts fresh, add_draft) refl)
    | inr (x, taken) ↦ nothing (rw (dexie.add_taken d x db.harvest_drafts taken, add_draft) refl)
  ]

  pub create_local_harvest_draft-Effect :
      (owner uuid : String) (now : Instant) (db : Db)
      → Effect owner db (create_local_harvest_draft owner uuid now db).1
  unfolding create_local_harvest_draft
  create_local_harvest_draft-Effect owner uuid now db =
      elim (Option-cases (valid_offline_lease (some owner) harvest now db)) [
        | inl e ↦ nothing (rw (e, create_local_harvest_draft) refl)
        | inr (l, e) ↦
            rw (e, create_local_harvest_draft)
              (add_draft-Effect owner (new_draft owner uuid now) db refl)
      ]

  save_found-Effect :
      (owner id : String) (values : HarvestDraftValues) (now : Instant)
      (o : Option LocalHarvestDraft) (db : Db)
      → owned owner (dexie.get id db.harvest_drafts) ≡ o
      → Effect owner db (save_found values now o db).1
  unfolding save_found edited
  save_found-Effect owner id values now none db h = nothing refl
  save_found-Effect owner id values now (some d) db h = elim (Bool-cases (is_editing d.state)) [
    | inl e ↦
        let (found, own) = owned_sound owner (dexie.get id db.harvest_drafts) d h in
        let at : dexie.get d.id db.harvest_drafts ≡ some d =
          get_own_key id d db.harvest_drafts found in
        write (edited values now d) own (rw at (of_other_self owner d own))
          (rw (e, save_found) refl)
    | inr e ↦ nothing (rw (e, save_found) refl)
  ]

  pub save_local_harvest_draft-Effect :
      (owner id : String) (values : HarvestDraftValues) (now : Instant) (db : Db)
      → Effect owner db (save_local_harvest_draft owner id values now db).1
  unfolding save_local_harvest_draft
  save_local_harvest_draft-Effect owner id values now db =
      elim (Option-cases (valid_offline_lease (some owner) harvest now db)) [
        | inl e ↦ nothing (rw (e, save_local_harvest_draft) refl)
        | inr (l, e) ↦
            rw (e, save_local_harvest_draft) (save_found-Effect owner id values now _ db refl)
      ]

  enqueue-Effect :
      (owner id uuid : String) (now : Instant) (d : LocalHarvestDraft) (db : Db)
      → owned owner (dexie.get id db.harvest_drafts) ≡ some d
      → dexie.first (λ o. o.aggregate_id == id && o.owner_id == owner) db.harvest_outbox ≡ none
      → Effect owner db (enqueue owner id uuid now d db).1
  unfolding enqueue
  enqueue-Effect owner id uuid now d db h none_yet =
      let operation = new_operation owner id uuid d now in
      let (found, own) = owned_sound owner (dexie.get id db.harvest_drafts) d h in
      elim (Option-cases (dexie.get uuid db.harvest_outbox)) [
        | inl fresh ↦
            enqueued id uuid now d found own fresh none_yet
              (rw (dexie.add_fresh operation db.harvest_outbox fresh, enqueue) refl)
        | inr (x, taken) ↦
            nothing (rw (dexie.add_taken operation x db.harvest_outbox taken, enqueue) refl)
      ]

  queue_complete-Effect :
      (owner id uuid : String) (now : Instant) (d : LocalHarvestDraft) (db : Db)
      → owned owner (dexie.get id db.harvest_drafts) ≡ some d
      → Effect owner db (queue_complete owner id uuid now d db).1
  unfolding queue_complete
  queue_complete-Effect owner id uuid now d db h =
      elim (Option-cases
        (dexie.first (λ o. o.aggregate_id == id && o.owner_id == owner) db.harvest_outbox)) [
          | inl e ↦ rw (e, queue_complete) (enqueue-Effect owner id uuid now d db h e)
          | inr (x, e) ↦ nothing (rw (e, queue_complete) refl)
        ]

  queue_found-Effect :
      (owner id uuid : String) (now : Instant) (o : Option LocalHarvestDraft) (db : Db)
      → owned owner (dexie.get id db.harvest_drafts) ≡ o
      → Effect owner db (queue_found owner id uuid now o db).1
  unfolding queue_found
  queue_found-Effect owner id uuid now none db h = nothing refl
  queue_found-Effect owner id uuid now (some d) db h =
      elim (Bool-cases (not (truthy d.farm_unit_id) || not (truthy d.quantity))) [
        | inl e ↦ nothing (rw (e, queue_found) refl)
        | inr e ↦ rw (e, queue_found) (queue_complete-Effect owner id uuid now d db h)
      ]

  pub queue_harvest_submission-Effect :
      (owner id uuid : String) (now : Instant) (db : Db)
      → Effect owner db (queue_harvest_submission owner id uuid now db).1
  unfolding queue_harvest_submission
  queue_harvest_submission-Effect owner id uuid now db =
      elim (Option-cases (valid_offline_lease (some owner) harvest now db)) [
        | inl e ↦ nothing (rw (e, queue_harvest_submission) refl)
        | inr (l, e) ↦
            rw (e, queue_harvest_submission) (queue_found-Effect owner id uuid now _ db refl)
      ]
