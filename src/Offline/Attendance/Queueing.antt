-- ===== src/Offline/Attendance/Queueing.antt =====
-- How an attendance draft becomes one queued operation.
use mathlib.Core.Option
use koranco.Base.{
  String, ◌≡◌, refl, ap, ◌∙◌, true, false, Option, none, some, List, ◌==◌, eq_iff, eq_refl, arith,
  ok, err,
}
use koranco.Dexie.{Dexie}
use koranco.Dexie.Laws.{get-update_self, first_of_only, get-put_self}
use koranco.Types.Server.{Instant, DraftEntry}
use koranco.Types.Local.{LocalAttendanceDraft, OutboxOperation, OfflineLease}
use koranco.Offline.Db.{Db}
use koranco.Offline.Lease.{attendance, valid_offline_lease}
use koranco.Offline.Attendance.{
  new_operation, waiting_draft, owned, queue_submission, queue_found, enqueue, save_local_draft,
  save_found, is_editing, not_editable,
}

module _ ⦃dexie : Dexie⦄ where
  abbrev pub licensed : String → Instant → Db → Option OfflineLease
  licensed owner now db = valid_offline_lease (some owner) attendance now db

  pub owned_by :
      (owner : String) (o : Option LocalAttendanceDraft) (d : LocalAttendanceDraft)
      → o ≡ some d
      → d.owner_id ≡ owner
      → owned owner o ≡ some d
  owned_by owner o d found own = rw found (rw own (rw eq_refl))

  pub queue_submission_existing :
      (owner id uuid : String) (now : Instant) (db : Db) (l : OfflineLease)
      (d : LocalAttendanceDraft) (o : OutboxOperation)
      → licensed owner now db ≡ some l
      → dexie.get id db.drafts ≡ some d
      → d.owner_id ≡ owner
      → dexie.first (λ x. x.aggregate_id == id) db.outbox ≡ some o
      → queue_submission owner id uuid now db ≡ (ok o, db)
  unfolding queue_submission
  queue_submission_existing owner id uuid now db l d o lease found own e =
      rw (lease, queue_submission, owned_by owner _ d found own, e, queue_found)

  -- The database after a draft was queued.
  abbrev pub queued_db : String → String → String → Instant → LocalAttendanceDraft → Db → Db
  queued_db owner id uuid now d db = record db {
    outbox = dexie.put (new_operation owner id uuid d now) db.outbox;
    drafts = dexie.update id (waiting_draft now) db.drafts;
  }

  pub queue_submission_new :
      (owner id uuid : String) (now : Instant) (db : Db) (l : OfflineLease)
      (d : LocalAttendanceDraft)
      → licensed owner now db ≡ some l
      → dexie.get id db.drafts ≡ some d
      → d.owner_id ≡ owner
      → dexie.first (λ x. x.aggregate_id == id) db.outbox ≡ none
      → dexie.get uuid db.outbox ≡ none
      → queue_submission owner id uuid now db
        ≡ (ok (new_operation owner id uuid d now), queued_db owner id uuid now d db)
  unfolding queue_submission
  queue_submission_new owner id uuid now db l d lease found own none_yet fresh = rw (
    lease,
    queue_submission,
    owned_by owner _ d found own,
    none_yet,
    queue_found,
    dexie.add_fresh (new_operation owner id uuid d now) db.outbox fresh,
    enqueue,
  )

  -- A user with a lease at both times submits his own draft that has no operation yet, under an
  -- operation id that is free. Submitting again, under whatever id, queues nothing more: the call
  -- returns the operation of the first submission and leaves the database as it is.
  pub queue_submission_twice :
      (owner id uuid uuid' : String) (now now' : Instant) (db : Db) (l l' : OfflineLease)
      (d : LocalAttendanceDraft)
      → licensed owner now db ≡ some l
      → licensed owner now' db ≡ some l'
      → dexie.get id db.drafts ≡ some d
      → d.owner_id ≡ owner
      → dexie.first (λ x. x.aggregate_id == id) db.outbox ≡ none
      → dexie.get uuid db.outbox ≡ none
      → queue_submission owner id uuid' now' (queue_submission owner id uuid now db).1
        ≡ queue_submission owner id uuid now db
  unfolding new_operation waiting_draft valid_offline_lease
  queue_submission_twice owner id uuid uuid' now now' db l l' d lease lease' found own none_yet
        fresh =
      rw (queue_submission_new owner id uuid now db l d lease found own none_yet fresh) (
        queue_submission_existing owner id uuid' now' (queued_db owner id uuid now d db) l'
          (waiting_draft now d) (new_operation owner id uuid d now) lease'
          (dexie_update ∙ ap (Option.map (waiting_draft now)) found) own only)
    where
      dexie_update :
          dexie.get id (dexie.update id (waiting_draft now) db.drafts)
          ≡ Option.map (waiting_draft now) (dexie.get id db.drafts)
      dexie_update = get-update_self id _ db.drafts (λ r. refl)

      only :
          dexie.first (λ x. x.aggregate_id == id) (queued_db owner id uuid now d db).outbox
          ≡ some (new_operation owner id uuid d now)
      only =
          first_of_only uuid (new_operation owner id uuid d now) _ _ (get-put_self _ db.outbox)
            (eq_refl id)
            (λ j s.
              rw dexie.get-put
                (ground (arith, dexie.first_complete j s _ db.outbox none_yet, eq_iff uuid j)))

  -- The draft with the entries of the form.
  abbrev pub edited : List DraftEntry → Instant → LocalAttendanceDraft → LocalAttendanceDraft
  edited entries now d = record d { entries = entries; updated_at = now; last_message = none }

  pub save_local_draft_editing :
      (owner id : String) (entries : List DraftEntry) (now : Instant) (db : Db) (l : OfflineLease)
      (d : LocalAttendanceDraft)
      → licensed owner now db ≡ some l
      → dexie.get id db.drafts ≡ some d
      → d.owner_id ≡ owner
      → is_editing d.state ≡ true
      → save_local_draft owner id entries now db ≡ (
        ok (edited entries now d),
        record db { drafts = dexie.put (edited entries now d) db.drafts },
      )
  unfolding save_local_draft
  save_local_draft_editing owner id entries now db l d lease found own open_ =
      rw (lease, save_local_draft, owned_by owner _ d found own, save_found, open_)

  save_local_draft_refused :
      (owner id : String) (entries : List DraftEntry) (now : Instant) (db : Db) (l : OfflineLease)
      (d : LocalAttendanceDraft)
      → licensed owner now db ≡ some l
      → dexie.get id db.drafts ≡ some d
      → d.owner_id ≡ owner
      → is_editing d.state ≡ false
      → save_local_draft owner id entries now db ≡ (err not_editable, db)
  unfolding save_local_draft
  save_local_draft_refused owner id entries now db l d lease found own shut =
      rw (lease, save_local_draft, owned_by owner _ d found own, save_found, shut)

  -- A user with a lease at both times saves his own open draft that has no operation yet and then
  -- submits it under a free operation id. The operation that is queued carries the entries saved,
  -- the draft's date and the server version that the draft is based on; it is in the outbox, and
  -- the draft waits for the server.
  pub queue_submission-save_local_draft :
      (owner id uuid : String) (entries : List DraftEntry) (now now' : Instant) (db : Db)
      (l l' : OfflineLease) (d : LocalAttendanceDraft)
      → licensed owner now db ≡ some l
      → licensed owner now' db ≡ some l'
      → dexie.get id db.drafts ≡ some d
      → d.owner_id ≡ owner
      → is_editing d.state ≡ true
      → dexie.first (λ x. x.aggregate_id == id) db.outbox ≡ none
      → dexie.get uuid db.outbox ≡ none
      → (o : OutboxOperation) × (db' : Db) × (queue_submission owner id uuid now'
            (save_local_draft owner id entries now db).1
          ≡ (ok o, db'))
        × (o.payload.entries ≡ entries)
        × (o.payload.attendance_date ≡ d.attendance_date)
        × (o.payload.base_server_version ≡ d.base_server_version)
        × (dexie.get uuid db'.outbox ≡ some o)
        × (dexie.get id db'.drafts ≡ some (waiting_draft now' (edited entries now d)))
  unfolding new_operation waiting_draft valid_offline_lease
  queue_submission-save_local_draft owner id uuid entries now now' db l l' d lease lease' found own
        open_ none_yet fresh =
      (
        new_operation owner id uuid (edited entries now d) now',
        queued_db owner id uuid now' (edited entries now d)
            (record db { drafts = dexie.put (edited entries now d) db.drafts }),
        rw (save_local_draft_editing owner id entries now db l d lease found own open_) (
            queue_submission_new owner id uuid now'
              (record db { drafts = dexie.put (edited entries now d) db.drafts }) l'
              (edited entries now d) lease' saved own none_yet fresh),
        refl,
        refl,
        refl,
        get-put_self _ db.outbox,
        get-update_self id _ (dexie.put (edited entries now d) db.drafts) (λ r. refl)
            ∙ ap (Option.map (waiting_draft now')) saved,
      )
    where
      saved :
          dexie.get id (dexie.put (edited entries now d) db.drafts) ≡ some (edited entries now d)
      saved =
          dexie.get-put id (edited entries now d) db.drafts
          ∙ (simp (dexie.key-get id d db.drafts found, eq_refl))

  -- A user with a lease at both times submits his own draft that has no operation yet under a free
  -- operation id. The draft cannot be edited after that: a save is refused and changes nothing.
  pub save_local_draft-queue_submission :
      (owner id uuid : String) (entries : List DraftEntry) (now now' : Instant) (db : Db)
      (l l' : OfflineLease) (d : LocalAttendanceDraft)
      → licensed owner now db ≡ some l
      → licensed owner now' db ≡ some l'
      → dexie.get id db.drafts ≡ some d
      → d.owner_id ≡ owner
      → dexie.first (λ x. x.aggregate_id == id) db.outbox ≡ none
      → dexie.get uuid db.outbox ≡ none
      → save_local_draft owner id entries now' (queue_submission owner id uuid now db).1
        ≡ (err not_editable, (queue_submission owner id uuid now db).1)
  unfolding waiting_draft valid_offline_lease
  save_local_draft-queue_submission owner id uuid entries now now' db l l' d lease lease' found own
        none_yet fresh =
      rw (queue_submission_new owner id uuid now db l d lease found own none_yet fresh) (
        save_local_draft_refused owner id entries now' (queued_db owner id uuid now d db) l'
          (waiting_draft now d) lease'
          (get-update_self id _ db.drafts (λ r. refl) ∙ ap (Option.map (waiting_draft now)) found)
          own refl)
