-- ===== src/Device/Harvest.antt =====
-- The harvest work of every user of a device, through any sequence of events.
use mathlib.Core.Option
use mathlib.Core.Path.{subst}
use koranco.Base.{
  arith, eq_iff, String, ◌≡◌, ◌≢◌, refl, sym, ap, ◌∙◌, inl, inr, Bool, true, false, some, List, [],
  ◌∷◌, truthy, All, Option-cases,
}
use koranco.Dexie.{Dexie}
use koranco.Types.Server.{HarvestRecord}
use koranco.Sync.Answers.{Answer}
use koranco.Types.Local.{HarvestOutboxOperation, LocalHarvestDraft}
use koranco.Offline.Db.{Db}
use koranco.Offline.Lease.{record_offline_lease, suspend_offline_lease}
use koranco.Offline.Reference.{
  cache_workers as cache_workers_, cache_farm_units as cache_farm_units_,
}
use koranco.Offline.Harvest.Effects as E
use koranco.Offline.Harvest.Sound.{IsSound, Effect-IsSound, Effect-draft_of_other, Effect-operation}
use koranco.Offline.Attendance.Effects as AE
use koranco.Sync.Harvest.Keeps.{snapshot, confirmed, sync_harvest-Fate}
use koranco.Sync.Harvest.Queue.{sync_harvest_untouched}
use koranco.Sync.Harvest.Sound.{snapshot-some, sync_harvest-IsSound, sync_harvest-draft_of_other}
use koranco.Sync.Attendance.Sound.{sync_attendance-SameStores}
use koranco.Device.{
  Event, actor, step, run, validate, suspend, cache_workers, cache_farm_units, cache_attendance,
  create_attendance, save_attendance, queue_attendance, sync_attendance, cache_harvest,
  create_harvest, save_harvest, queue_harvest, sync_harvest,
}

module _ ⦃dexie : Dexie⦄ where
  abbrev SameStores : Db → Db → Type 0
  SameStores db db' =
      (db'.harvest_drafts ≡ db.harvest_drafts) × (db'.harvest_outbox ≡ db.harvest_outbox)

  attendance-Effect : (owner : String) (db db' : Db) → AE.Effect owner db db' → SameStores db db'
  attendance-Effect owner db db' (AE.nothing e) = (rw e refl, rw e refl)
  attendance-Effect owner db db' (AE.write d own free e) = (rw e refl, rw e refl)
  attendance-Effect owner db db' (AE.enqueued id uuid now d found own fresh none_yet e) =
      (rw e refl, rw e refl)

  suspend_effect : (owner : String) (db : Db) → SameStores db (suspend_offline_lease owner db)
  unfolding suspend_offline_lease
  suspend_effect owner db = elim (Option-cases (dexie.get owner db.leases)) [
    | inl gone ↦ (rw (gone, suspend_offline_lease) refl, rw (gone, suspend_offline_lease) refl)
    | inr (l, found) ↦
        (rw (found, suspend_offline_lease) refl, rw (found, suspend_offline_lease) refl)
  ]

  -- An event is a call on the harvest stores, a sync of them, or about other stores.
  data Kind (e : Event) (db : Db) : Type 0 where
    call : E.Effect (actor e) db (step e db) → Kind e db
    elsewhere : SameStores db (step e db) → Kind e db
    syncing :
        (owner : String) (server : HarvestOutboxOperation → Answer HarvestRecord)
        → e ≡ sync_harvest owner server
        → Kind e db

  kind : (e : Event) (db : Db) → Kind e db
  unfolding step record_offline_lease cache_workers_ cache_farm_units_
  kind (validate user now) db = elsewhere (refl, refl)
  kind (suspend owner) db = elsewhere (suspend_effect owner db)
  kind (cache_workers owner ws now) db = elsewhere (refl, refl)
  kind (cache_farm_units owner us now) db = elsewhere (refl, refl)
  kind (cache_attendance owner s now) db =
      elsewhere (attendance-Effect owner db _ (AE.cache_server_draft-Effect owner s now db))
  kind (create_attendance owner date uuid now) db =
      elsewhere (attendance-Effect owner db _ (AE.create_local_draft-Effect owner date uuid now db))
  kind (save_attendance owner id entries now) db =
      elsewhere (attendance-Effect owner db _ (AE.save_local_draft-Effect owner id entries now db))
  kind (queue_attendance owner id uuid now) db =
      elsewhere (attendance-Effect owner db _ (AE.queue_submission-Effect owner id uuid now db))
  kind (sync_attendance owner server) db = elsewhere (sync_attendance-SameStores server owner db)
  kind (cache_harvest owner r now) db = call (E.cache_server_harvest_draft-Effect owner r now db)
  kind (create_harvest owner uuid now) db =
      call (E.create_local_harvest_draft-Effect owner uuid now db)
  kind (save_harvest owner id values now) db =
      call (E.save_local_harvest_draft-Effect owner id values now db)
  kind (queue_harvest owner id uuid now) db =
      call (E.queue_harvest_submission-Effect owner id uuid now db)
  kind (sync_harvest owner server) db = syncing owner server refl

  same-IsSound : (db db' : Db) → SameStores db db' → IsSound db → IsSound db'
  same-IsSound db db' (drafts, outbox) s = record {
    owners = rw drafts s.owners;
    backed = rw (drafts, outbox) s.backed;
    addressed = rw outbox s.addressed;
    single = rw outbox s.single;
  }

  step-IsSound : (e : Event) (db : Db) → truthy (actor e) ≡ true → IsSound db → IsSound (step e db)
  unfolding step
  step-IsSound e db given s = elim (kind e db) [
    | call effect ↦ Effect-IsSound (actor e) db _ given effect s
    | elsewhere same ↦ same-IsSound db _ same s
    | syncing owner server is_sync ↦
        subst (λ x. IsSound (step x db)) (sym is_sync) (sync_harvest-IsSound server owner db s)
  ]

  -- From sound harvest stores, any sequence of events, each on behalf of a user with an id, and
  -- whatever the server answers, leads to sound stores: every draft has an owner, each operation
  -- is that of a draft of the same owner, and an owner's draft has one at most.
  pub run_harvest-IsSound :
      (es : List Event) (db : Db)
      → All (λ e. truthy (actor e) ≡ true) es
      → IsSound db
      → IsSound (run es db)
  unfolding run
  run_harvest-IsSound [] db given s = s
  run_harvest-IsSound (e ∷ es) db given s =
      run_harvest-IsSound es (step e db) given.1 (step-IsSound e db given.0 s)

  step-draft_of_other :
      (e : Event) (k : String) (db : Db) (d : LocalHarvestDraft)
      → IsSound db
      → d.owner_id ≢ actor e
      → dexie.get k db.harvest_drafts ≡ some d
      → dexie.get k (step e db).harvest_drafts ≡ some d
  unfolding step
  step-draft_of_other e k db d s n found = elim (kind e db) [
    | call effect ↦ Effect-draft_of_other (actor e) k db _ d effect s n found
    | elsewhere (drafts, outbox) ↦ ap (dexie.get k) drafts ∙ found
    | syncing owner server is_sync ↦
        subst (λ x. dexie.get k (step x db).harvest_drafts ≡ some d) (sym is_sync)
          (sync_harvest-draft_of_other server owner k db d s
            (λ own. n (own ∙ sym (ap actor is_sync))) found)
  ]

  step-operation_of_other :
      (e : Event) (k : String) (db : Db) (o : HarvestOutboxOperation)
      → o.owner_id ≢ actor e
      → dexie.get k db.harvest_outbox ≡ some o
      → dexie.get k (step e db).harvest_outbox ≡ some o
  unfolding step
  step-operation_of_other e k db o n found = elim (kind e db) [
    | call effect ↦ Effect-operation (actor e) k db _ o effect found
    | elsewhere (drafts, outbox) ↦ ap (dexie.get k) outbox ∙ found
    | syncing owner server is_sync ↦
        subst (λ x. dexie.get k (step x db).harvest_outbox ≡ some o) (sym is_sync)
          (sync_harvest_untouched server owner k o db found
            (ground (arith, eq_iff o.owner_id owner, ap actor is_sync, n)))
  ]

  -- The server's confirmation of an operation, in an event.
  abbrev pub confirms : Event → HarvestOutboxOperation → Bool
  confirms (sync_harvest owner server) o = confirmed server o
  confirms _ o = false

  step_keeps :
      (e : Event) (k : String) (db : Db) (o : HarvestOutboxOperation)
      → confirms e o ≡ false
      → dexie.get k db.harvest_outbox ≡ some o
      → Option.map snapshot (dexie.get k (step e db).harvest_outbox) ≡ some (snapshot o)
  unfolding step
  step_keeps e k db o open_ found = elim (kind e db) [
    | call effect ↦ ap (Option.map snapshot) (Effect-operation (actor e) k db _ o effect found)
    | elsewhere (drafts, outbox) ↦ ap (Option.map snapshot) (ap (dexie.get k) outbox ∙ found)
    | syncing owner server is_sync ↦
        subst
          (λ x. Option.map snapshot (dexie.get k (step x db).harvest_outbox) ≡ some (snapshot o))
          (sym is_sync)
          (elim (sync_harvest-Fate server owner k o db found) [
            | inl kept ↦ kept
            | inr (gone, c) ↦ cc (ap (λ x. confirms x o) is_sync, open_, c)
          ])
  ]

  -- Through any sequence of events a queued harvest operation stays in the outbox with its
  -- payload, its owner and its identity, as long as no sync brings the server's confirmation of
  -- it.
  pub run_keeps_harvest :
      (es : List Event) (k : String) (db : Db) (o : HarvestOutboxOperation)
      → All
          (λ e. (o' : HarvestOutboxOperation) → snapshot o' ≡ snapshot o → confirms e o' ≡ false)
          es
      → Option.map snapshot (dexie.get k db.harvest_outbox) ≡ some (snapshot o)
      → Option.map snapshot (dexie.get k (run es db).harvest_outbox) ≡ some (snapshot o)
  unfolding run
  run_keeps_harvest [] k db o open_ found = found
  run_keeps_harvest (e ∷ es) k db o (now, later) found =
      let (x, row, same) = snapshot-some (dexie.get k db.harvest_outbox) (snapshot o) found in
      run_keeps_harvest es k (step e db) o later
        (step_keeps e k db x (now x same) row ∙ ap some same)

  -- From sound harvest stores, nothing that other users of the device do, in any sequence of
  -- events, changes a harvest draft of a user or a harvest operation of his.
  pub run_of_others_harvest :
      (es : List Event) (k j owner : String) (db : Db) (d : LocalHarvestDraft)
      (o : HarvestOutboxOperation)
      → All (λ e. (truthy (actor e) ≡ true) × (owner ≢ actor e)) es
      → IsSound db
      → d.owner_id ≡ owner
      → o.owner_id ≡ owner
      → dexie.get k db.harvest_drafts ≡ some d
      → dexie.get j db.harvest_outbox ≡ some o
      → (dexie.get k (run es db).harvest_drafts ≡ some d)
        × (dexie.get j (run es db).harvest_outbox ≡ some o)
  unfolding run
  run_of_others_harvest [] k j owner db d o others s own_d own_o found queued = (found, queued)
  run_of_others_harvest (e ∷ es) k j owner db d o ((given, n), others) s own_d own_o found queued =
      run_of_others_harvest es k j owner (step e db) d o others (step-IsSound e db given s) own_d
        own_o (step-draft_of_other e k db d s (λ p. n (sym own_d ∙ p)) found)
        (step-operation_of_other e j db o (λ p. n (sym own_o ∙ p)) queued)
