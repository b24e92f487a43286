-- ===== src/HarvestPage/Refines.antt =====
-- The effects and handlers of the harvest page are calls on the device on behalf of its user.
use mathlib.Core.Path.{subst}
use koranco.Base.{
  String, ◌≡◌, refl, sym, true, not, ◌==◌, Option, none, some, Result, ok, err, Option-cases, inl,
  inr, if_either, truthy,
}
use koranco.Dexie.{Dexie}
use koranco.Types.Server.{Instant, AuthenticatedUser, HarvestRecord}
use koranco.Types.Local.{LocalHarvestDraft, HarvestOutboxOperation}
use koranco.Offline.Db.{Db}
use koranco.Offline.Harvest.{
  save_local_harvest_draft, queue_harvest_submission, cache_server_harvest_draft,
  create_local_harvest_draft, owner_harvest_draft,
}
use koranco.Sync.Answers.{SyncOutcome, Answer}
use koranco.HarvestPage.State.{HarvestState, draft_values, validate, apply_record}
use koranco.HarvestPage.Handlers.{
  Replies, Wording, submit_wording, sync_wording, save_form, save_draft, draft_saved,
  no_longer_busy, official_submit, submit_draft, queued, saved_then_queued, synchronize, sync_now,
  refreshed_state,
}
use koranco.HarvestPage.Load.{
  load, load_existing, load_record, copied, after_load_sync, creation, created, unsent_draft,
}
use koranco.Device.{step, cache_harvest, create_harvest, save_harvest, queue_harvest, sync_harvest}
use koranco.Device.OnBehalf.{ByUser, none_done, then_done, one_done}

module _ ⦃dexie : Dexie⦄ where
  draft_saved-db :
      (s : HarvestState) (r : Result LocalHarvestDraft × Db)
      → (no_longer_busy (draft_saved s r)).2 ≡ r.1
  draft_saved-db s (ok d, db) = refl
  draft_saved-db s (err e, db) = refl

  save_form-ByUser :
      (now : Instant) (user : AuthenticatedUser) (d : LocalHarvestDraft) (s : HarvestState)
      (db : Db)
      → ByUser user.id db (save_form now user d s db).2
  unfolding save_form step
  save_form-ByUser now user d s db =
      if_either (λ (r : Option LocalHarvestDraft × HarvestState × Db). ByUser user.id db r.2)
        (truthy (validate s)) _ _ (none_done user.id db)
        (subst (ByUser user.id db)
          (sym (
            draft_saved-db (record s { busy = true; error_text = "" })
              (save_local_harvest_draft user.id d.id (draft_values s) now db)))
          (one_done user.id (save_harvest user.id d.id (draft_values s) now) db refl))

  save_draft-ByUser :
      (now : Instant) (user : AuthenticatedUser) (s : HarvestState) (db : Db)
      → s.user ≡ some user
      → ByUser user.id db (save_draft now s db).2
  unfolding save_draft
  save_draft-ByUser now user s db u = elim (Option-cases s.local_draft) [
    | inl h ↦ rw (u, save_draft, h) (none_done user.id db)
    | inr (d, h) ↦ rw (u, save_draft, h) (save_form-ByUser now user d s db)
  ]

  synchronize-ByUser :
      (server : HarvestOutboxOperation → Answer HarvestRecord) (replies : Replies) (w : Wording)
      (owner id : String) (then_set : HarvestState → HarvestState) (s : HarvestState) (db : Db)
      → ByUser owner db (synchronize server replies w owner id then_set s db).1
  unfolding synchronize step
  synchronize-ByUser server replies w owner id then_set s db =
      one_done owner (sync_harvest owner server) db refl

  queued-ByUser :
      (server : HarvestOutboxOperation → Answer HarvestRecord) (replies : Replies)
      (owner id : String) (s : HarvestState) (r : Result HarvestOutboxOperation × Db)
      → ByUser owner r.1 (queued server replies owner id s r).1
  queued-ByUser server replies owner id s (err e, db) = none_done owner db
  queued-ByUser server replies owner id s (ok o, db) =
      synchronize-ByUser server replies submit_wording owner id _ _ db

  saved_then_queued-ByUser :
      (server : HarvestOutboxOperation → Answer HarvestRecord) (replies : Replies) (uuid : String)
      (now : Instant) (owner : String) (s : HarvestState) (r : Result LocalHarvestDraft × Db)
      → ByUser owner r.1 (saved_then_queued server replies uuid now owner s r).1
  unfolding step
  saved_then_queued-ByUser server replies uuid now owner s (err e, db) = none_done owner db
  saved_then_queued-ByUser server replies uuid now owner s (ok d, db) =
      then_done owner db _ _ (one_done owner (queue_harvest owner d.id uuid now) db refl) (
        queued-ByUser server replies owner d.id s (queue_harvest_submission owner d.id uuid now db))

  submit_draft-ByUser :
      (server : HarvestOutboxOperation → Answer HarvestRecord) (replies : Replies) (uuid : String)
      (saved_at now : Instant) (user : AuthenticatedUser) (d : LocalHarvestDraft) (s : HarvestState)
      (db : Db)
      → ByUser user.id db (submit_draft server replies uuid saved_at now user d s db).1
  unfolding submit_draft step
  submit_draft-ByUser server replies uuid saved_at now user d s db =
      then_done user.id db _ _
        (one_done user.id (save_harvest user.id d.id (draft_values s) saved_at) db refl)
        (saved_then_queued-ByUser server replies uuid now user.id
          (record s { busy = true; error_text = "" })
          (save_local_harvest_draft user.id d.id (draft_values s) saved_at db))

  official_submit-ByUser :
      (server : HarvestOutboxOperation → Answer HarvestRecord) (replies : Replies) (uuid : String)
      (saved_at now : Instant) (user : AuthenticatedUser) (s : HarvestState) (db : Db)
      → s.user ≡ some user
      → ByUser user.id db (official_submit server replies uuid saved_at now s db).1
  unfolding official_submit
  official_submit-ByUser server replies uuid saved_at now user s db u =
      elim (Option-cases s.local_draft) [
        | inl h ↦ rw (u, official_submit, h) (none_done user.id db)
        | inr (d, h) ↦
            rw (u, official_submit, h)
              (submit_draft-ByUser server replies uuid saved_at now user d s db)
      ]

  sync_now-ByUser :
      (server : HarvestOutboxOperation → Answer HarvestRecord) (replies : Replies)
      (user : AuthenticatedUser) (s : HarvestState) (db : Db)
      → s.user ≡ some user
      → ByUser user.id db (sync_now server replies s db).1
  unfolding sync_now
  sync_now-ByUser server replies user s db u = elim (Option-cases s.local_draft) [
    | inl h ↦ rw (u, sync_now, h) (none_done user.id db)
    | inr (d, h) ↦
        rw (u, sync_now, h)
          (synchronize-ByUser server replies sync_wording user.id d.id (λ x. x)
            (record s { busy = true; error_text = "" }) db)
  ]

  copied-db :
      (replies : Replies) (local : Option LocalHarvestDraft) (item : HarvestRecord)
      (s : HarvestState) (r : Result LocalHarvestDraft × Db)
      → (copied replies local item s r).1 ≡ r.1
  copied-db replies local item s (ok d, db) = refl
  copied-db replies local item s (err e, db) = refl

  load_record-ByUser :
      (replies : Replies) (owner : String) (local : Option LocalHarvestDraft) (now : Instant)
      (s : HarvestState) (db : Db)
      → ByUser owner db (load_record replies owner local now s db).1
  unfolding load_record step
  load_record-ByUser replies owner local now s db = fetched replies.fetched refl
    where
      fetched :
          (f : Result (Option HarvestRecord))
          → replies.fetched ≡ f
          → ByUser owner db (load_record replies owner local now s db).1
      fetched (err e) h = rw (h, load_record) (none_done owner db)
      fetched (ok none) h = rw (h, load_record) (none_done owner db)
      fetched (ok (some item)) h =
          rw (h, load_record)
            (subst (ByUser owner db)
              (sym (
                copied-db replies local item (apply_record item s)
                  (cache_server_harvest_draft owner item now db)))
              (one_done owner (cache_harvest owner item now) db refl))

  after_load_sync-ByUser :
      (replies : Replies) (owner : String) (local : Option LocalHarvestDraft) (now : Instant)
      (outcome : SyncOutcome) (s : HarvestState) (db : Db)
      → ByUser owner db (after_load_sync replies owner local now outcome s db).1
  after_load_sync-ByUser replies owner local now SyncOutcome.synced s db =
      load_record-ByUser replies owner local now s db
  after_load_sync-ByUser replies owner local now SyncOutcome.waiting s db = none_done owner db
  after_load_sync-ByUser replies owner local now SyncOutcome.authentication_required s db =
      none_done owner db
  after_load_sync-ByUser replies owner local now SyncOutcome.needs_attention s db =
      none_done owner db

  load_existing-ByUser :
      (server : HarvestOutboxOperation → Answer HarvestRecord) (replies : Replies)
      (id owner : String) (now : Instant) (s : HarvestState) (db : Db)
      → ByUser owner db (load_existing server replies id owner now s db).1
  unfolding load_existing step
  load_existing-ByUser server replies id owner now s db =
      let P = λ (r : HarvestState × Db). ByUser owner db r.1 in
      let local = owner_harvest_draft owner id db in
      let opened = refreshed_state local s in
      if_either P (not s.verified_online) _ _ (none_done owner db) (
        if_either P (unsent_draft (owner_harvest_draft owner id db)) _ _
          (then_done owner db _ _ (one_done owner (sync_harvest owner server) db refl)
            (after_load_sync-ByUser replies owner local now _ _ _))
          (load_record-ByUser replies owner local now opened db))

  created-db :
      (constraint : String) (s : HarvestState) (r : Result LocalHarvestDraft × Db)
      → (created constraint s r).1 ≡ r.1
  created-db constraint s (ok d, db) = refl
  created-db constraint s (err e, db) = refl

  created-ByUser :
      (constraint : String) (begun : Option (Result LocalHarvestDraft)) (owner uuid : String)
      (now : Instant) (s : HarvestState) (db : Db)
      → ByUser owner db (created constraint s (creation constraint begun owner uuid now db)).1
  unfolding step
  created-ByUser constraint (some begun) owner uuid now s db =
      subst (ByUser owner db) (sym (created-db constraint s (begun, db))) (none_done owner db)
  created-ByUser constraint none owner uuid now s db =
      subst (ByUser owner db)
        (sym (created-db constraint s (create_local_harvest_draft owner uuid now db)))
        (one_done owner (create_harvest owner uuid now) db refl)

  load-ByUser :
      (constraint : String) (server : HarvestOutboxOperation → Answer HarvestRecord)
      (replies : Replies) (id uuid : String) (now : Instant) (user : AuthenticatedUser)
      (s : HarvestState) (db : Db)
      → s.user ≡ some user
      → ByUser user.id db (load constraint server replies id uuid now s db).1
  unfolding load
  load-ByUser constraint server replies id uuid now user s db u =
      rw (u, load)
        (if_either (λ (r : HarvestState × Db). ByUser user.id db r.1) (id == "new") _ _
          (created-ByUser constraint s.local_creation user.id uuid now _ db)
          (load_existing-ByUser server replies id user.id now _ db))

  -- For a page with a user, whatever opening a record, a save, a submission and a sync do to the
  -- local stores, with every answer of the server and of the stores, is a sequence of calls on the
  -- device on behalf of that user.
  pub harvest_page-ByUser :
      (constraint : String) (server : HarvestOutboxOperation → Answer HarvestRecord)
      (replies : Replies) (id uuid : String) (saved_at now : Instant) (user : AuthenticatedUser)
      (s : HarvestState) (db : Db)
      → s.user ≡ some user
      → ByUser user.id db (load constraint server replies id uuid now s db).1
        × ByUser user.id db (save_draft now s db).2
        × ByUser user.id db (official_submit server replies uuid saved_at now s db).1
        × ByUser user.id db (sync_now server replies s db).1
  harvest_page-ByUser constraint server replies id uuid saved_at now user s db u = (
    load-ByUser constraint server replies id uuid now user s db u,
    save_draft-ByUser now user s db u,
    official_submit-ByUser server replies uuid saved_at now user s db u,
    sync_now-ByUser server replies user s db u,
  )
