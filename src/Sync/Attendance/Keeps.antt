-- ===== src/Sync/Attendance/Keeps.antt =====
-- No queued attendance is lost by a sync: an operation stays in the outbox until the server has
-- confirmed it.
use mathlib.Core.Option
use mathlib.Core.Path.{subst}
use koranco.Base.{
  ap, ◌∙◌, Bool-cases, String, ◌≡◌, refl, ◌⊎◌, inl, inr, Bool, true, false, Option, none, some,
  List, [], ◌∷◌, ◌==◌, eq_iff, Has,
}
use koranco.Dexie.{Dexie}
use koranco.Dexie.Laws.{get-update_view, select_unique, eq-none_of_map}
use koranco.Types.Server.{Instant, AttendanceSession}
use koranco.Types.Local.{OutboxState, OutboxOperation}
use koranco.Offline.Db.{Db, operation_key}
use koranco.Sync.Answers.{SyncOutcome, Answer, Verdict, confirm, attention, sign_in, retry}
use koranco.Sync.Attendance.{
  Step, proceed, stop, mark_syncing, settle, verdict, sync_one, sync_loop, queue, sync_attendance,
  moved,
}

-- What never changes in an operation: all but its state and what is recorded of its attempts.
abbrev pub snapshot : OutboxOperation → OutboxOperation
snapshot o = record o {
  state = OutboxState.pending;
  attempt_count = 0;
  last_error_category = none;
  last_message = none;
}

abbrev pub is_confirm : Verdict AttendanceSession → Bool
is_confirm (confirm _) = true
is_confirm _ = false

module _ ⦃dexie : Dexie⦄ where
  -- The database that an iteration leaves.
  abbrev pub after : Step → Db
  after (proceed db) = db
  after (stop _ db) = db

  abbrev pub resume : (Db → SyncOutcome × Db) → Step → SyncOutcome × Db
  resume later s = elim s [ proceed db ↦ later db | stop outcome db ↦ (outcome, db) ]

  resume-inv :
      (P : Db → Type 0) (s : Step) (later : Db → SyncOutcome × Db)
      → P (after s)
      → ((db : Db) → P db → P (later db).1)
      → P (resume later s).1
  resume-inv P (proceed db) later h keeps = keeps db h
  resume-inv P (stop outcome db) later h keeps = h

module _ ⦃dexie : Dexie⦄ (server : OutboxOperation → Answer AttendanceSession) where
  abbrev pub confirmed : OutboxOperation → Bool
  confirmed o = is_confirm (verdict (server o).reply)

  -- The fate of the operation `o`: it is kept, or gone with the server's confirmation.
  abbrev pub Fate : OutboxOperation → Option OutboxOperation → Type 0
  Fate o kept =
      (Option.map snapshot kept ≡ some (snapshot o)) ⊎ ((kept ≡ none) × (confirmed o ≡ true))

  get-moved :
      (state : OutboxState) (category message j k : String)
      (t : dexie.Table OutboxOperation operation_key)
      → Option.map snapshot (dexie.get k (dexie.update j (moved state category message) t))
        ≡ Option.map snapshot (dexie.get k t)
  unfolding moved
  get-moved state category message j k t = get-update_view snapshot _ (λ r. refl) k j t (λ r. refl)

  get-settle :
      (o : OutboxOperation) (v : Verdict AttendanceSession) (at : Instant) (k : String) (db : Db)
      → (Option.map snapshot (dexie.get k (after (settle o v at db)).outbox)
          ≡ Option.map snapshot (dexie.get k db.outbox))
        ⊎ ((o.operation_id ≡ k)
            × (dexie.get k (after (settle o v at db)).outbox ≡ none)
            × (is_confirm v ≡ true))
  unfolding settle
  get-settle o (confirm r) at k db = elim (Bool-cases (o.operation_id == k)) [
    | inl e ↦ inr ((eq_iff _ _).0 e, rw (dexie.get-delete, e), refl)
    | inr e ↦ inl (rw (dexie.get-delete, e))
  ]
  get-settle o (attention category message) at k db = inl (get-moved _ _ _ _ k db.outbox)
  get-settle o sign_in at k db = inl (get-moved _ _ _ _ k db.outbox)
  get-settle o retry at k db = inl (get-moved _ _ _ _ k db.outbox)

  get-mark_syncing :
      (o : OutboxOperation) (k : String) (db : Db)
      → Option.map snapshot (dexie.get k (mark_syncing o db).outbox)
        ≡ Option.map snapshot (dexie.get k db.outbox)
  unfolding mark_syncing
  get-mark_syncing o k db =
      get-update_view snapshot _ (λ r. refl) k o.operation_id db.outbox (λ r. refl)

  -- One iteration keeps every snapshot, but for the operation that it confirms.
  pub get-sync_one :
      (o : OutboxOperation) (k : String) (db : Db)
      → (Option.map snapshot (dexie.get k (after (sync_one server o db)).outbox)
          ≡ Option.map snapshot (dexie.get k db.outbox))
        ⊎ ((o.operation_id ≡ k)
            × (dexie.get k (after (sync_one server o db)).outbox ≡ none)
            × (confirmed o ≡ true))
  get-sync_one o k db =
      unfold sync_one in
      elim (get-settle o (verdict (server o).reply) (server o).at k (mark_syncing o db)) [
        | inl e ↦ inl (e ∙ get-mark_syncing o k db)
        | inr h ↦ inr h
      ]

  sync_one-Fate :
      (o x : OutboxOperation) (k : String) (db : Db)
      → (o.operation_id ≡ k → o ≡ x)
      → Fate x (dexie.get k db.outbox)
      → Fate x (dexie.get k (after (sync_one server o db)).outbox)
  sync_one-Fate o x k db same fate = elim (get-sync_one o k db) [
    | inl e ↦ elim fate [
      | inl p ↦ inl (e ∙ p)
      | inr (gone, c) ↦ inr (eq-none_of_map snapshot _ (e ∙ ap (Option.map snapshot) gone), c)
    ]
    | inr (at_k, gone, c) ↦ inr (gone, subst (λ y. confirmed y ≡ true) (same at_k) c)
  ]

  -- What every iteration keeps, the loop keeps.
  pub sync_loop-inv :
      (P : Db → Type 0) (os : List OutboxOperation) (db : Db)
      → ((o : OutboxOperation) (db' : Db) → Has o os → P db' → P (after (sync_one server o db')))
      → P db
      → P (sync_loop server os db).1
  unfolding sync_loop
  sync_loop-inv P [] db step h = h
  sync_loop-inv P (o ∷ os) db step h =
      resume-inv P (sync_one server o db) (sync_loop server os) (step o db (inl refl) h)
        (λ db' h'. sync_loop-inv P os db' (λ o' db'' m. step o' db'' (inr m)) h')

  -- the operations of the queue are rows of the store
  pub queue_unique :
      (owner k : String) (x : OutboxOperation) (db : Db)
      → dexie.get k db.outbox ≡ some x
      → (o : OutboxOperation) → Has o (queue owner db)
      → o.operation_id ≡ k
      → o ≡ x
  queue_unique owner k x db found o m =
      select_unique k x o _ db.outbox found ((dexie.Has-sort_by o _ _).0 m)

  -- Whatever the server answers, an operation of the outbox is still there after a sync, with its
  -- payload, owner and identity as they were, unless the server confirmed that very operation.
  pub sync_attendance-Fate :
      (owner k : String) (o : OutboxOperation) (db : Db)
      → dexie.get k db.outbox ≡ some o
      → Fate o (dexie.get k (sync_attendance server owner db).1.outbox)
  unfolding sync_attendance
  sync_attendance-Fate owner k o db found =
      sync_loop-inv (λ db'. Fate o (dexie.get k db'.outbox)) (queue owner db) db
        (λ o' db' m. sync_one-Fate o' o k db' (queue_unique owner k o db found o' m))
        (inl (ap (Option.map snapshot) found))
