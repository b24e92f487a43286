-- ===== src/Offline/Attendance/Stale.antt =====
-- What a copy of the server's session does to a draft that is queued.
use koranco.Base.{String, ◌≡◌, refl, some, List, ◌==◌, ok}
use koranco.Dexie.{Dexie}
use koranco.Dexie.Laws.{get-put_self}
use koranco.Types.Server.{SessionStatus, Instant, AttendanceSession, DraftEntry}
use koranco.Types.Local.{LocalAttendanceDraft, OutboxOperation, OfflineLease}
use koranco.Offline.Db.{Db}
use koranco.Offline.Lease.{valid_offline_lease}
use koranco.Offline.Attendance.Effects.{of_other_self}
use koranco.Offline.Attendance.{queue_submission, save_local_draft, cache_server_draft, server_copy}
use koranco.Offline.Attendance.Queueing.{
  licensed, queue_submission_existing, save_local_draft_editing, edited,
}

module _ ⦃dexie : Dexie⦄ where
  cache_server_draft_own :
      (owner : String) (session : AttendanceSession) (now : Instant) (db : Db)
      (d : LocalAttendanceDraft)
      → dexie.get session.id db.drafts ≡ some d
      → d.owner_id ≡ owner
      → cache_server_draft owner session now db ≡ (
        ok (server_copy owner session (some d) now),
        record db { drafts = dexie.put (server_copy owner session (some d) now) db.drafts },
      )
  unfolding cache_server_draft
  cache_server_draft_own owner session now db d found own =
      rw (found, cache_server_draft, of_other_self owner d own)

  -- A user with a lease at both later times has a draft with an operation. A copy of the server's
  -- session, still a draft, opens it for editing again and a save of new entries is accepted, and
  -- yet a submission returns the old operation and changes nothing.
  pub requeue_stale :
      (owner uuid : String) (session : AttendanceSession) (entries : List DraftEntry)
      (t t' t'' : Instant) (db : Db) (l' l'' : OfflineLease) (d : LocalAttendanceDraft)
      (o : OutboxOperation)
      → licensed owner t' db ≡ some l'
      → licensed owner t'' db ≡ some l''
      → session.status ≡ SessionStatus.draft
      → dexie.get session.id db.drafts ≡ some d
      → d.owner_id ≡ owner
      → dexie.first (λ x. x.aggregate_id == session.id) db.outbox ≡ some o
      → (d' : LocalAttendanceDraft) × (db' : Db) × (save_local_draft owner session.id entries t'
            (cache_server_draft owner session t db).1
          ≡ (ok d', db'))
        × (d'.entries ≡ entries)
        × (queue_submission owner session.id uuid t'' db' ≡ (ok o, db'))
  unfolding server_copy valid_offline_lease
  requeue_stale owner uuid session entries t t' t'' db l' l'' d o lease' lease'' is_draft found own
        queued =
      (
        edited entries t' copy,
        stored,
        rw (cache_server_draft_own owner session t db d found own) (
            save_local_draft_editing owner session.id entries t'
              (record db { drafts = dexie.put copy db.drafts }) l' copy lease'
              (get-put_self copy db.drafts) refl (rw is_draft refl)),
        refl,
        queue_submission_existing owner session.id uuid t'' stored l'' (edited entries t' copy) o
            lease'' (get-put_self (edited entries t' copy) (dexie.put copy db.drafts)) refl queued,
      )
    where
      copy : LocalAttendanceDraft
      copy = server_copy owner session (some d) t

      stored : Db
      stored = record db { drafts = dexie.put (edited entries t' copy) (dexie.put copy db.drafts) }
