-- ===== src/Sync/Attendance/Attempts.antt =====
-- Attendance syncs one after another, each with a server of its own: modules/attendance/offline/sync.ts.
use mathlib.Core.Option
use mathlib.Core.Path.{subst}
use koranco.Base.{
  String, ◌≡◌, refl, sym, ap, ◌∙◌, ◌⊎◌, inl, inr, true, false, ◌&&◌, ◌==◌, eq_iff, Bool-cases,
  Option, none, some, List, [], ◌∷◌, Has,
}
use koranco.Dexie.{Dexie}
use koranco.Types.Server.{AttendanceSession}
use koranco.Types.Local.{OutboxState, OutboxOperation}
use koranco.Offline.Db.{Db}
use koranco.Sync.Answers.{Answer, is_queued}
use koranco.Sync.Attendance.{sync_attendance, queue}
use koranco.Sync.Attendance.Keeps.{snapshot, confirmed, sync_attendance-Fate}
use koranco.Sync.Attendance.Queue.{
  sync_attendance-synced_iff, sync_attendance_untouched, sync_attendance-none, queued_gone,
}

abbrev pub Server : Type 0
Server = OutboxOperation → Answer AttendanceSession

module _ ⦃dexie : Dexie⦄ where
  -- The stores after a sync with each server in turn.
  unfoldable pub attempts : List Server → String → Db → Db
  attempts [] owner db = db
  attempts (server ∷ servers) owner db = attempts servers owner (sync_attendance server owner db).1

  -- An operation was confirmed: at the start of one of the syncs it was in the outbox under its key, as
  -- it was queued, the server of that sync confirmed it as it was there, and that sync removed it.
  abbrev pub WasConfirmed : List Server → (owner k : String) → OutboxOperation → Db → Type 0
  WasConfirmed [] owner k o db = ⊥
  WasConfirmed (server ∷ servers) owner k o db =
      ((x : OutboxOperation) × (dexie.get k db.outbox ≡ some x)
        × (snapshot x ≡ snapshot o)
        × (confirmed server x ≡ true)
        × (dexie.get k (sync_attendance server owner db).1.outbox ≡ none))
      ⊎ WasConfirmed servers owner k o (sync_attendance server owner db).1

  -- The operation is there, as it was queued, or it was confirmed by one of the syncs from `db` on.
  abbrev Kept :
      List Server → (owner k : String) → OutboxOperation → Db → Option OutboxOperation → Type 0
  Kept servers owner k o db kept =
      ((x : OutboxOperation) × (kept ≡ some x) × (snapshot x ≡ snapshot o))
      ⊎ ((kept ≡ none) × WasConfirmed servers owner k o db)

  some_of_map :
      (r : Option OutboxOperation) (s : OutboxOperation)
      → Option.map snapshot r ≡ some s
      → (x : OutboxOperation) × (r ≡ some x) × (snapshot x ≡ s)
  some_of_map none s h = absurd cc
  some_of_map (some x) s h = (x, refl, cc)

  attempts-none :
      (servers : List Server) (owner k : String) (db : Db)
      → dexie.get k db.outbox ≡ none
      → dexie.get k (attempts servers owner db).outbox ≡ none
  unfolding attempts
  attempts-none [] owner k db h = h
  attempts-none (s ∷ servers) owner k db h =
      attempts-none servers owner k _ (sync_attendance-none s owner k db h)

  attempts-Kept :
      (servers : List Server) (owner k : String) (o x : OutboxOperation) (db : Db)
      → dexie.get k db.outbox ≡ some x
      → snapshot x ≡ snapshot o
      → Kept servers owner k o db (dexie.get k (attempts servers owner db).outbox)
  unfolding attempts
  attempts-Kept [] owner k o x db found same = inl (x, found, same)
  attempts-Kept (s ∷ servers) owner k o x db found same =
      elim (sync_attendance-Fate s owner k x db found) [
        | inr (gone, c) ↦ inr (
          attempts-none servers owner k (sync_attendance s owner db).1 gone,
          inl (x, found, same, c, gone),
        )
        | inl kept ↦
            let (y, now, alike) = some_of_map _ (snapshot x) kept in
            elim (attempts-Kept servers owner k o y (sync_attendance s owner db).1 now
              (alike ∙ same)) [ inl later ↦ inl later | inr (gone, by) ↦ inr (gone, inr by) ]
      ]

  not_queued : (s : OutboxState) → is_queued s ≡ false → s ≡ OutboxState.needs_attention
  not_queued OutboxState.pending h = absurd cc
  not_queued OutboxState.syncing h = absurd cc
  not_queued OutboxState.needs_attention h = refl

  idle-needs_attention :
      (owner : String) (x : OutboxOperation)
      → x.owner_id ≡ owner
      → (x.owner_id == owner && is_queued x.state) ≡ false
      → x.state ≡ OutboxState.needs_attention
  idle-needs_attention owner x own idle =
      let same : (x.owner_id == owner) ≡ true = (eq_iff x.owner_id owner).1 own in
      not_queued x.state (sym (ap (λ b. b && is_queued x.state) same) ∙ idle)

  queue-Has :
      (owner k : String) (x : OutboxOperation) (db : Db)
      → dexie.get k db.outbox ≡ some x
      → (x.owner_id == owner && is_queued x.state) ≡ true
      → Has x (queue owner db)
  queue-Has owner k x db found p =
      let found' =
        subst (λ j. dexie.get j db.outbox ≡ some x) (sym (dexie.key-get k x db.outbox found))
          found in
      (dexie.Has-sort_by x (λ o. o.sequence) _).1 ((dexie.Has-select x _ db.outbox).1 (found', p))

  -- After any number of syncs with any servers, the owner syncs with a server that confirms every
  -- operation that is queued for him then. Each operation of his that was in the outbox at first is now
  -- settled. Either it is gone, and one of these syncs found it in the outbox with the payload it was
  -- queued with, had it confirmed by its server and removed it; or it is there with that payload and
  -- needs attention.
  pub attempts_settle :
      (before : List Server) (last : Server) (owner k : String) (o : OutboxOperation) (db : Db)
      → dexie.get k db.outbox ≡ some o
      → o.owner_id ≡ owner
      → ((x : OutboxOperation)
          → Has x (queue owner (attempts before owner db))
          → confirmed last x ≡ true)
      → ((dexie.get k (sync_attendance last owner (attempts before owner db)).1.outbox ≡ none)
          × (WasConfirmed before owner k o db
              ⊎ WasConfirmed (last ∷ []) owner k o (attempts before owner db)))
        ⊎ ((x : OutboxOperation) × (dexie.get k
                (sync_attendance last owner (attempts before owner db)).1.outbox
              ≡ some x)
            × (x.state ≡ OutboxState.needs_attention)
            × (snapshot x ≡ snapshot o))
  attempts_settle before last owner k o db found own reliable =
      let db' = attempts before owner db in
      elim (attempts-Kept before owner k o o db found refl) [
        | inr (gone, by) ↦ inl (sync_attendance-none last owner k db' gone, inl by)
        | inl (x, now, same) ↦ elim (Bool-cases (x.owner_id == owner && is_queued x.state)) [
          | inl queued ↦
              let synced = (sync_attendance-synced_iff last owner db').1 reliable in
              let gone = queued_gone last owner k x db' synced now queued in
              let c = reliable x (queue-Has owner k x db' now queued) in
              inl (gone, inr (inl (x, now, same, c, gone)))
          | inr idle ↦ inr (
            x,
            sync_attendance_untouched last owner k x db' now idle,
            idle-needs_attention owner x (ap (λ (y : OutboxOperation). y.owner_id) same ∙ own) idle,
            same,
          )
        ]
      ]
