-- ===== src/Sync/Harvest/Queue.antt =====
-- Which harvest operations a sync touches, and what its outcome "synced" means.
use mathlib.Core.Option
use mathlib.Core.Path.{subst}
use koranco.Base.{
  String, ◌≡◌, ◌≢◌, ◌↔◌, refl, sym, ap, ◌∙◌, ◌⊎◌, inl, inr, true, false, not, ◌&&◌, Option, none,
  some, List, [], ◌∷◌, ◌==◌, eq_refl, ==-eq-false, All, All-of, All-at, Has, Bool-cases,
  length-zero_of_empty,
}
use koranco.Dexie.{Dexie}
use koranco.Dexie.Laws.{get-update_ne, eq-none_of_map}
use koranco.Types.Server.{Instant, HarvestRecord}
use koranco.Types.Local.{OutboxState, HarvestOutboxOperation}
use koranco.Offline.Db.{Db}
use koranco.Offline.Pending.{harvest_pending_count, needs_care}
use koranco.Sync.Answers.{
  SyncOutcome, Answer, Verdict, confirm, attention, sign_in, retry, is_queued,
}
use koranco.Sync.Harvest.{
  Step, proceed, stop, mark_syncing, settle, verdict, sync_one, sync_loop, queue, sync_harvest,
}
use koranco.Sync.Harvest.Keeps.{
  snapshot, is_confirm, confirmed, after, get-sync_one, sync_loop-inv, queue_unique,
}

module _ ⦃dexie : Dexie⦄ where
  get-settle_ne :
      (o : HarvestOutboxOperation) (v : Verdict HarvestRecord) (at : Instant) (k : String) (db : Db)
      → o.operation_id ≢ k
      → dexie.get k (after (settle o v at db)).harvest_outbox ≡ dexie.get k db.harvest_outbox
  unfolding settle
  get-settle_ne o (confirm r) at k db n = rw (dexie.get-delete, ==-eq-false _ k n)
  get-settle_ne o (attention c m) at k db n = get-update_ne k _ _ db.harvest_outbox (λ r. refl) n
  get-settle_ne o sign_in at k db n = get-update_ne k _ _ db.harvest_outbox (λ r. refl) n
  get-settle_ne o retry at k db n = get-update_ne k _ _ db.harvest_outbox (λ r. refl) n

  module _ (server : HarvestOutboxOperation → Answer HarvestRecord) where
    get-sync_one_ne :
        (o : HarvestOutboxOperation) (k : String) (db : Db)
        → o.operation_id ≢ k
        → dexie.get k (after (sync_one server o db)).harvest_outbox ≡ dexie.get k db.harvest_outbox
    get-sync_one_ne o k db n =
        unfold sync_one mark_syncing in
        get-settle_ne o (verdict (server o).reply) (server o).at k (mark_syncing o db) n
        ∙ get-update_ne k o.operation_id _ db.harvest_outbox (λ r. refl) n

    -- A sync leaves every other row of the outbox as it is: one of another owner, and one that needs
    -- attention.
    pub sync_harvest_untouched :
        (owner k : String) (o : HarvestOutboxOperation) (db : Db)
        → dexie.get k db.harvest_outbox ≡ some o
        → (o.owner_id == owner && is_queued o.state) ≡ false
        → dexie.get k (sync_harvest server owner db).1.harvest_outbox ≡ some o
    unfolding sync_harvest
    sync_harvest_untouched owner k o db found idle =
        sync_loop-inv server (λ db'. dexie.get k db'.harvest_outbox ≡ some o) (queue owner db) db
          (λ o' db' m h. get-sync_one_ne o' k db' (other o' m) ∙ h) found
      where
        other : (o' : HarvestOutboxOperation) → Has o' (queue owner db) → o'.operation_id ≢ k
        other o' m at_k = cc (
          queue_unique server owner k o db found o' m at_k,
          idle,
          ((dexie.Has-select o' _ _).0 ((dexie.Has-sort_by o' _ _).0 m)).1,
        )

    -- no row appears
    get-sync_one-none :
        (o : HarvestOutboxOperation) (k : String) (db : Db)
        → dexie.get k db.harvest_outbox ≡ none
        → dexie.get k (after (sync_one server o db)).harvest_outbox ≡ none
    get-sync_one-none o k db h = elim (get-sync_one server o k db) [
      | inl e ↦ eq-none_of_map snapshot _ (e ∙ ap (Option.map snapshot) h)
      | inr (_, gone, _) ↦ gone
    ]

    pub sync_loop-none :
        (os : List HarvestOutboxOperation) (k : String) (db : Db)
        → dexie.get k db.harvest_outbox ≡ none
        → dexie.get k (sync_loop server os db).1.harvest_outbox ≡ none
    sync_loop-none os k db =
        sync_loop-inv server (λ db'. dexie.get k db'.harvest_outbox ≡ none) os db
          (λ o db' m. get-sync_one-none o k db')

    sync_harvest-none :
        (owner k : String) (db : Db)
        → dexie.get k db.harvest_outbox ≡ none
        → dexie.get k (sync_harvest server owner db).1.harvest_outbox ≡ none
    unfolding sync_harvest
    sync_harvest-none owner k db = sync_loop-none (queue owner db) k db

is_queued_lem : (s : OutboxState) → is_queued s ≡ not (needs_care s)
is_queued_lem OutboxState.pending = refl
is_queued_lem OutboxState.syncing = refl
is_queued_lem OutboxState.needs_attention = refl

-- The two ways in which an iteration ends.
module _ ⦃dexie : Dexie⦄ where
  abbrev pub Ends : HarvestOutboxOperation → Verdict HarvestRecord → Step → Type 0
  Ends o v s =
      ((db : Db) × (s ≡ proceed db)
        × (is_confirm v ≡ true)
        × (dexie.get o.operation_id db.harvest_outbox ≡ none))
      ⊎ ((outcome : SyncOutcome) × (db : Db) × (s ≡ stop outcome db)
          × (outcome ≢ SyncOutcome.synced)
          × (is_confirm v ≡ false))

  settle-Ends :
      (o : HarvestOutboxOperation) (v : Verdict HarvestRecord) (at : Instant) (db : Db)
      → Ends o v (settle o v at db)
  unfolding settle
  settle-Ends o (confirm r) at db = inl (_, refl, refl, rw (dexie.get-delete, eq_refl))
  settle-Ends o (attention c m) at db = inr (_, _, refl, cc, refl)
  settle-Ends o sign_in at db = inr (_, _, refl, cc, refl)
  settle-Ends o retry at db = inr (_, _, refl, cc, refl)

  module _ (server : HarvestOutboxOperation → Answer HarvestRecord) where
    sync_one-Ends :
        (o : HarvestOutboxOperation) (db : Db)
        → Ends o (verdict (server o).reply) (sync_one server o db)
    unfolding sync_one
    sync_one-Ends o db = settle-Ends o (verdict (server o).reply) (server o).at (mark_syncing o db)

    abbrev Done : Db → HarvestOutboxOperation → Type 0
    Done db o = (confirmed server o ≡ true) × (dexie.get o.operation_id db.harvest_outbox ≡ none)

    sync_loop_proceed :
        (o : HarvestOutboxOperation) (os : List HarvestOutboxOperation) (db db' : Db)
        → sync_one server o db ≡ proceed db'
        → sync_loop server (o ∷ os) db ≡ sync_loop server os db'
    unfolding sync_loop
    sync_loop_proceed o os db db' e = rw (e, sync_loop)

    sync_loop_stop :
        (o : HarvestOutboxOperation) (os : List HarvestOutboxOperation) (db db' : Db)
        (outcome : SyncOutcome)
        → sync_one server o db ≡ stop outcome db'
        → sync_loop server (o ∷ os) db ≡ (outcome, db')
    unfolding sync_loop
    sync_loop_stop o os db db' outcome e = rw (e, sync_loop)

    sync_loop_synced :
        (os : List HarvestOutboxOperation) (db : Db)
        → (sync_loop server os db).0 ≡ SyncOutcome.synced
        → All (Done (sync_loop server os db).1) os
    unfolding sync_loop
    sync_loop_synced [] db h = tt
    sync_loop_synced (o ∷ os) db h = elim (sync_one-Ends o db) [
      | inl (db', e, c, gone) ↦
          let step = sync_loop_proceed o os db db' e in
          subst (λ r. All (Done r.1) (o ∷ os)) (sym step)
            (
              (c, sync_loop-none server os o.operation_id db' gone),
              sync_loop_synced os db' (rw step at h),
            )
      | inr (outcome, db', e, n, c) ↦ absurd (n (rw (sync_loop_stop o os db db' outcome e) at h))
    ]

    sync_loop-confirmed :
        (os : List HarvestOutboxOperation) (db : Db)
        → All (λ o. confirmed server o ≡ true) os
        → (sync_loop server os db).0 ≡ SyncOutcome.synced
    unfolding sync_loop
    sync_loop-confirmed [] db h = refl
    sync_loop-confirmed (o ∷ os) db h = elim (sync_one-Ends o db) [
      | inl (db', e, _, _) ↦ rw (sync_loop_proceed o os db db' e) (sync_loop-confirmed os db' h.1)
      | inr (outcome, db', e, n, c) ↦ cc (h.0, c)
    ]

    -- The outcome of a harvest sync is "synced" exactly when the server confirmed every queued
    -- harvest operation of the owner.
    pub sync_harvest-synced_iff :
        (owner : String) (db : Db)
        → ((sync_harvest server owner db).0 ≡ SyncOutcome.synced)
          ↔ ((o : HarvestOutboxOperation) → Has o (queue owner db) → confirmed server o ≡ true)
    unfolding sync_harvest
    sync_harvest-synced_iff owner db = (
      λ h o m.
          (All-at (Done (sync_loop server (queue owner db) db).1) (queue owner db) o
            (sync_loop_synced (queue owner db) db h) m).0,
      λ h. sync_loop-confirmed (queue owner db) db (All-of (queue owner db) h),
    )

    queued_gone :
        (owner k : String) (x : HarvestOutboxOperation) (db : Db)
        → (sync_harvest server owner db).0 ≡ SyncOutcome.synced
        → dexie.get k db.harvest_outbox ≡ some x
        → (x.owner_id == owner && is_queued x.state) ≡ true
        → dexie.get k (sync_harvest server owner db).1.harvest_outbox ≡ none
    unfolding sync_harvest
    queued_gone owner k x db h found p =
        let at_k = dexie.key-get k x db.harvest_outbox found in
        let found' = subst (λ j. dexie.get j db.harvest_outbox ≡ some x) (sym at_k) found in
        let m =
          (dexie.Has-sort_by x (λ o. o.created_at) _).1
            ((dexie.Has-select x _ db.harvest_outbox).1 (found', p)) in
        subst (λ j. dexie.get j (sync_harvest server owner db).1.harvest_outbox ≡ none) at_k
          (All-at (Done (sync_loop server (queue owner db) db).1) (queue owner db) x
            (sync_loop_synced (queue owner db) db h) m).1

    still_queued :
        (owner : String) (o : HarvestOutboxOperation) (db : Db)
        → (sync_harvest server owner db).0 ≡ SyncOutcome.synced
        → (before : Option HarvestOutboxOperation)
        → dexie.get o.operation_id db.harvest_outbox ≡ before
        → dexie.get o.operation_id (sync_harvest server owner db).1.harvest_outbox ≡ some o
        → (o.owner_id == owner && is_queued o.state) ≡ true
        → ⊥
    still_queued owner o db h none e now p = cc (sync_harvest-none server owner o.operation_id db e)
    still_queued owner o db h (some x) e now p =
        elim (Bool-cases (x.owner_id == owner && is_queued x.state)) [
          | inl q ↦ cc (queued_gone owner o.operation_id x db h e q)
          | inr q ↦ cc (sync_harvest_untouched server owner o.operation_id x db e q)
        ]

    -- After a harvest sync with the outcome "synced" no harvest operation of the owner is pending.
    pub harvest_pending_count-sync_harvest :
        (owner : String) (db : Db)
        → (sync_harvest server owner db).0 ≡ SyncOutcome.synced
        → harvest_pending_count owner (sync_harvest server owner db).1 ≡ 0
    unfolding harvest_pending_count
    harvest_pending_count-sync_harvest owner db h = length-zero_of_empty _ (λ o m.
        let (now, p) = (dexie.Has-select o _ _).0 m in
        still_queued owner o db h _ refl now (rw (is_queued_lem o.state) p))
