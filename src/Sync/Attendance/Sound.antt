-- ===== src/Sync/Attendance/Sound.antt =====
-- A sync keeps the invariant of the attendance stores, and the drafts of other owners.
use mathlib.Core.Option
use koranco.Base.{
  and_left, String, ◌≡◌, ◌≢◌, refl, sym, ap, ◌∙◌, inl, inr, Option, none, some, Has, eq_iff,
}
use koranco.Dexie.{Dexie}
use koranco.Dexie.Laws.{get-update_view, get-update_ne}
use koranco.Types.Server.{Instant, AttendanceSession}
use koranco.Types.Local.{OutboxOperation, LocalAttendanceDraft}
use koranco.Offline.Db.{Db, draft_key}
use koranco.Offline.Attendance.Sound.{IsSound, SameOwners, owner_of, owners_follow}
use koranco.Sync.Answers.{Answer, Verdict, confirm, attention, sign_in, retry}
use koranco.Sync.Attendance.{mark_syncing, settle, verdict, sync_one, queue, sync_attendance}
use koranco.Sync.Attendance.Keeps.{snapshot, after, get-sync_one, sync_loop-inv}

pub snapshot-some :
    (m : Option OutboxOperation) (w : OutboxOperation)
    → Option.map snapshot m ≡ some w
    → (x : OutboxOperation) × (m ≡ some x) × (snapshot x ≡ w)
snapshot-some none w h = cc
snapshot-some (some x) w h = (x, refl, cc)

module _ ⦃dexie : Dexie⦄ where
  -- An operation under its key, as it was but for its state and attempts, or gone.
  abbrev Shrinks : Db → Db → Type 0
  Shrinks db db' =
      (k : String) (o' : OutboxOperation)
      → dexie.get k db'.outbox ≡ some o'
      → (o : OutboxOperation) × (dexie.get k db.outbox ≡ some o) × (snapshot o' ≡ snapshot o)

  Shrinks-IsSound : (db db' : Db) → SameOwners db db' → Shrinks db db' → IsSound db → IsSound db'
  Shrinks-IsSound db db' owners shrinks s = record {
    owners = λ k. owners_follow _ _ (owners k) (s.owners k);
    backed = λ k o' h.
        let (o, found, e) = shrinks k o' h in
        rw (owners o'.aggregate_id) (cc (s.backed k o found, e));
    addressed = λ k o' h.
        let (o, found, e) = shrinks k o' h in
        let (a, t) = s.addressed k o found in (cc (a, e), cc (t, e));
    single = λ k j o' p' h g e.
        let (o, found, eo) = shrinks k o' h in
        let (p, found', ep) = shrinks j p' g in s.single k j o p found found' (cc (eo, ep, e));
  }

  settle-drafts :
      (o : OutboxOperation) (v : Verdict AttendanceSession) (at : Instant) (db : Db)
      → (f : LocalAttendanceDraft → LocalAttendanceDraft) × ((d : LocalAttendanceDraft)
          → draft_key (f d) ≡ draft_key d)
        × ((d : LocalAttendanceDraft) → owner_of (f d) ≡ owner_of d)
        × ((after (settle o v at db)).drafts ≡ dexie.update o.aggregate_id f db.drafts)
  unfolding settle
  settle-drafts o (confirm r) at db = (_, (λ d. refl), (λ d. refl), refl)
  settle-drafts o (attention c m) at db = (_, (λ d. refl), (λ d. refl), refl)
  settle-drafts o sign_in at db = (_, (λ d. refl), (λ d. refl), refl)
  settle-drafts o retry at db = (_, (λ d. refl), (λ d. refl), refl)

  module _ (server : OutboxOperation → Answer AttendanceSession) where
    sync_one-SameOwners :
        (o : OutboxOperation) (db : Db) → SameOwners db (after (sync_one server o db))
    unfolding sync_one mark_syncing
    sync_one-SameOwners o db k =
        let (f, keeps, same, e) =
          settle-drafts o (verdict (server o).reply) (server o).at (mark_syncing o db) in
        ap (λ t. Option.map owner_of (dexie.get k t)) e
        ∙ get-update_view owner_of f same k o.aggregate_id (mark_syncing o db).drafts keeps
        ∙ get-update_view owner_of _ (λ d. refl) k o.aggregate_id db.drafts (λ d. refl)

    sync_one-Shrinks : (o : OutboxOperation) (db : Db) → Shrinks db (after (sync_one server o db))
    sync_one-Shrinks o db k o' h = elim (get-sync_one server o k db) [
      | inl e ↦
          let (x, found, same) =
            snapshot-some (dexie.get k db.outbox) (snapshot o')
              (sym e ∙ ap (Option.map snapshot) h) in
          (x, found, sym same)
      | inr (_, gone, _) ↦ cc (gone, h)
    ]

    pub sync_one-IsSound :
        (o : OutboxOperation) (db : Db) → IsSound db → IsSound (after (sync_one server o db))
    sync_one-IsSound o db = Shrinks-IsSound db _ (sync_one-SameOwners o db) (sync_one-Shrinks o db)

    -- Whatever the server answers, the invariant holds after a sync.
    pub sync_attendance-IsSound :
        (owner : String) (db : Db) → IsSound db → IsSound (sync_attendance server owner db).1
    unfolding sync_attendance
    sync_attendance-IsSound owner db =
        sync_loop-inv server IsSound (queue owner db) db (λ o db' m. sync_one-IsSound o db')

    get-sync_one_draft_ne :
        (o : OutboxOperation) (k : String) (db : Db)
        → o.aggregate_id ≢ k
        → dexie.get k (after (sync_one server o db)).drafts ≡ dexie.get k db.drafts
    unfolding sync_one mark_syncing
    get-sync_one_draft_ne o k db n =
        let (f, keeps, same, e) =
          settle-drafts o (verdict (server o).reply) (server o).at (mark_syncing o db) in
        ap (dexie.get k) e
        ∙ get-update_ne k o.aggregate_id f (mark_syncing o db).drafts keeps n
        ∙ get-update_ne k o.aggregate_id _ db.drafts (λ d. refl) n

    -- A sync of one owner leaves the drafts of every other owner as they are.
    pub sync_attendance-draft_of_other :
        (owner k : String) (db : Db) (d : LocalAttendanceDraft)
        → IsSound db
        → d.owner_id ≢ owner
        → dexie.get k db.drafts ≡ some d
        → dexie.get k (sync_attendance server owner db).1.drafts ≡ some d
    unfolding sync_attendance
    sync_attendance-draft_of_other owner k db d s n found =
        sync_loop-inv server (λ db'. dexie.get k db'.drafts ≡ some d) (queue owner db) db
          (λ o db' m h. get-sync_one_draft_ne o k db' (apart o m) ∙ h) found
      where
        apart : (o : OutboxOperation) → Has o (queue owner db) → o.aggregate_id ≢ k
        apart o m at =
            let (row, p) = (dexie.Has-select o _ _).0 ((dexie.Has-sort_by o _ _).0 m) in
            let own = (eq_iff o.owner_id owner).0 (and_left _ _ p) in
            n (cc (s.backed o.operation_id o row, own, at, found))

-- A sync of the attendance stores leaves those of harvest alone.
module _ ⦃dexie : Dexie⦄ (server : OutboxOperation → Answer AttendanceSession) where
  abbrev SameStores : Db → Db → Type 0
  SameStores db db' =
      (db'.harvest_drafts ≡ db.harvest_drafts) × (db'.harvest_outbox ≡ db.harvest_outbox)

  settle-SameStores :
      (o : OutboxOperation) (v : Verdict AttendanceSession) (at : Instant) (db : Db)
      → SameStores db (after (settle o v at db))
  unfolding settle
  settle-SameStores o (confirm r) at db = (refl, refl)
  settle-SameStores o (attention category message) at db = (refl, refl)
  settle-SameStores o sign_in at db = (refl, refl)
  settle-SameStores o retry at db = (refl, refl)

  pub sync_attendance-SameStores :
      (owner : String) (db : Db)
      → ((sync_attendance server owner db).1.harvest_drafts ≡ db.harvest_drafts)
        × ((sync_attendance server owner db).1.harvest_outbox ≡ db.harvest_outbox)
  unfolding sync_attendance sync_one mark_syncing
  sync_attendance-SameStores owner db =
      sync_loop-inv server (SameStores db) (queue owner db) db
        (λ o db' m (drafts, outbox).
          let (d, b) =
            settle-SameStores o (verdict (server o).reply) (server o).at (mark_syncing o db') in
          (d ∙ drafts, b ∙ outbox))
        (refl, refl)
