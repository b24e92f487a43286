-- ===== src/Offline/Attendance/Effects.antt =====
-- What each attendance operation does to the database, on every branch.
use koranco.Base.{
  String, ◌≡◌, refl, false, Option, none, some, List, ◌==◌, eq_iff, arith, Bool-cases, Option-cases,
  inl, inr,
}
use koranco.Dexie.{Dexie}
use koranco.Dexie.Laws.{get_own_key}
use koranco.Types.Server.{Instant, AttendanceSession, DraftEntry}
use koranco.Types.Local.{LocalAttendanceDraft}
use koranco.Offline.Db.{Db}
use koranco.Offline.Lease.{attendance, valid_offline_lease}
use koranco.Offline.Attendance.{
  cache_server_draft, create_local_draft, save_local_draft, queue_submission, server_copy,
  new_draft, new_operation, waiting_draft, add_draft, save_found, enqueue, queue_found, of_other,
  owned, is_editing,
}

owned_sound :
    (owner : String) (o : Option LocalAttendanceDraft) (d : LocalAttendanceDraft)
    → owned owner o ≡ some d
    → (o ≡ some d) × (d.owner_id ≡ owner)
owned_sound owner none d h = cc
owned_sound owner (some x) d h = ground (arith, eq_iff x.owner_id owner)

pub of_other_self :
    (owner : String) (d : LocalAttendanceDraft)
    → d.owner_id ≡ owner
    → of_other owner (some d) ≡ false
of_other_self owner d own = ground (arith, eq_iff d.owner_id owner)

module _ ⦃dexie : Dexie⦄ where
  -- What a call on behalf of `owner` may do to the stores of drafts and operations.
  pub data Effect (owner : String) (db db' : Db) : Type 0 where
    nothing : db' ≡ db → Effect owner db db'
    write :
        (d : LocalAttendanceDraft)
        → d.owner_id ≡ owner
        → of_other owner (dexie.get d.id db.drafts) ≡ false
        → db' ≡ record db { drafts = dexie.put d db.drafts }
        → Effect owner db db'
    enqueued :
        (id uuid : String) (now : Instant) (d : LocalAttendanceDraft)
        → dexie.get id db.drafts ≡ some d
        → d.owner_id ≡ owner
        → dexie.get uuid db.outbox ≡ none
        → dexie.first (λ o. o.aggregate_id == id) db.outbox ≡ none
        → db' ≡ record db {
          outbox = dexie.put (new_operation owner id uuid d now) db.outbox;
          drafts = dexie.update id (waiting_draft now) db.drafts;
        }
        → Effect owner db db'

  pub cache_server_draft-Effect :
      (owner : String) (session : AttendanceSession) (now : Instant) (db : Db)
      → Effect owner db (cache_server_draft owner session now db).1
  unfolding cache_server_draft
  cache_server_draft-Effect owner session now db =
      elim (Bool-cases (of_other owner (dexie.get session.id db.drafts))) [
        | inl e ↦ nothing (rw e refl)
        | inr e ↦
            write (server_copy owner session (dexie.get session.id db.drafts) now) refl e
              (rw e refl)
      ]

  add_draft-Effect :
      (owner : String) (d : LocalAttendanceDraft) (db : Db)
      → d.owner_id ≡ owner
      → Effect owner db (add_draft d db).1
  unfolding add_draft
  add_draft-Effect owner d db own = elim (Option-cases (dexie.get d.id db.drafts)) [
    | inl fresh ↦ write d own (rw fresh) (rw (dexie.add_fresh d db.drafts fresh, add_draft) refl)
    | inr (x, taken) ↦ nothing (rw (dexie.add_taken d x db.drafts taken, add_draft) refl)
  ]

  pub create_local_draft-Effect :
      (owner date uuid : String) (now : Instant) (db : Db)
      → Effect owner db (create_local_draft owner date uuid now db).1
  unfolding create_local_draft
  create_local_draft-Effect owner date uuid now db =
      elim (Option-cases (valid_offline_lease (some owner) attendance now db)) [
        | inl e ↦ nothing (rw (e, create_local_draft) refl)
        | inr (l, e) ↦
            rw (e, create_local_draft)
              (add_draft-Effect owner (new_draft owner date uuid now) db refl)
      ]

  save_found-Effect :
      (owner id : String) (entries : List DraftEntry) (now : Instant)
      (o : Option LocalAttendanceDraft) (db : Db)
      → owned owner (dexie.get id db.drafts) ≡ o
      → Effect owner db (save_found entries now o db).1
  unfolding save_found
  save_found-Effect owner id entries now none db h = nothing refl
  save_found-Effect owner id entries now (some d) db h = elim (Bool-cases (is_editing d.state)) [
    | inl e ↦
        let (found, own) = owned_sound owner (dexie.get id db.drafts) d h in
        let at : dexie.get d.id db.drafts ≡ some d = get_own_key id d db.drafts found in
        write (record d { entries = entries; updated_at = now; last_message = none }) own
          (rw at (of_other_self owner d own)) (rw (e, save_found) refl)
    | inr e ↦ nothing (rw (e, save_found) refl)
  ]

  pub save_local_draft-Effect :
      (owner id : String) (entries : List DraftEntry) (now : Instant) (db : Db)
      → Effect owner db (save_local_draft owner id entries now db).1
  unfolding save_local_draft
  save_local_draft-Effect owner id entries now db =
      elim (Option-cases (valid_offline_lease (some owner) attendance now db)) [
        | inl e ↦ nothing (rw (e, save_local_draft) refl)
        | inr (l, e) ↦ rw (e, save_local_draft) (save_found-Effect owner id entries now _ db refl)
      ]

  enqueue-Effect :
      (owner id uuid : String) (now : Instant) (d : LocalAttendanceDraft) (db : Db)
      → owned owner (dexie.get id db.drafts) ≡ some d
      → dexie.first (λ o. o.aggregate_id == id) db.outbox ≡ none
      → Effect owner db (enqueue owner id uuid now d db).1
  unfolding enqueue
  enqueue-Effect owner id uuid now d db h none_yet =
      let operation = new_operation owner id uuid d now in
      let (found, own) = owned_sound owner (dexie.get id db.drafts) d h in
      elim (Option-cases (dexie.get uuid db.outbox)) [
        | inl fresh ↦
            enqueued id uuid now d found own fresh none_yet
              (rw (dexie.add_fresh operation db.outbox fresh, enqueue) refl)
        | inr (x, taken) ↦ nothing (rw (dexie.add_taken operation x db.outbox taken, enqueue) refl)
      ]

  queue_found-Effect :
      (owner id uuid : String) (now : Instant) (o : Option LocalAttendanceDraft) (db : Db)
      → owned owner (dexie.get id db.drafts) ≡ o
      → Effect owner db (queue_found owner id uuid now o db).1
  unfolding queue_found
  queue_found-Effect owner id uuid now none db h = nothing refl
  queue_found-Effect owner id uuid now (some d) db h =
      elim (Option-cases (dexie.first (λ o. o.aggregate_id == id) db.outbox)) [
        | inl e ↦ rw (e, queue_found) (enqueue-Effect owner id uuid now d db h e)
        | inr (x, e) ↦ nothing (rw (e, queue_found) refl)
      ]

  pub queue_submission-Effect :
      (owner id uuid : String) (now : Instant) (db : Db)
      → Effect owner db (queue_submission owner id uuid now db).1
  unfolding queue_submission
  queue_submission-Effect owner id uuid now db =
      elim (Option-cases (valid_offline_lease (some owner) attendance now db)) [
        | inl e ↦ nothing (rw (e, queue_submission) refl)
        | inr (l, e) ↦ rw (e, queue_submission) (queue_found-Effect owner id uuid now _ db refl)
      ]
