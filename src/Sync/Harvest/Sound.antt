-- ===== src/Sync/Harvest/Sound.antt =====
-- A sync keeps the invariant of the harvest stores, and the drafts of other owners.
use mathlib.Core.Option
use koranco.Base.{
  and_left, String, ◌≡◌, ◌≢◌, refl, sym, ap, ◌∙◌, inl, inr, Option, none, some, Has, eq_iff,
}
use koranco.Dexie.{Dexie}
use koranco.Dexie.Laws.{get-update_view, get-update_ne}
use koranco.Types.Server.{Instant, HarvestRecord}
use koranco.Types.Local.{HarvestOutboxOperation, LocalHarvestDraft}
use koranco.Offline.Db.{Db, harvest_draft_key}
use koranco.Offline.Harvest.Sound.{IsSound, SameOwners, owner_of, owners_follow}
use koranco.Sync.Answers.{Answer, Verdict, confirm, attention, sign_in, retry}
use koranco.Sync.Harvest.{mark_syncing, settle, verdict, sync_one, queue, sync_harvest}
use koranco.Sync.Harvest.Keeps.{snapshot, after, get-sync_one, sync_loop-inv}

pub snapshot-some :
    (m : Option HarvestOutboxOperation) (w : HarvestOutboxOperation)
    → Option.map snapshot m ≡ some w
    → (x : HarvestOutboxOperation) × (m ≡ some x) × (snapshot x ≡ w)
snapshot-some none w h = cc
snapshot-some (some x) w h = (x, refl, cc)

module _ ⦃dexie : Dexie⦄ where
  -- An operation under its key, as it was but for its state and attempts, or gone.
  abbrev Shrinks : Db → Db → Type 0
  Shrinks db db' =
      (k : String) (o' : HarvestOutboxOperation)
      → dexie.get k db'.harvest_outbox ≡ some o'
      → (o : HarvestOutboxOperation) × (dexie.get k db.harvest_outbox ≡ some o)
        × (snapshot o' ≡ snapshot o)

  Shrinks-IsSound : (db db' : Db) → SameOwners db db' → Shrinks db db' → IsSound db → IsSound db'
  Shrinks-IsSound db db' owners shrinks s = record {
    owners = λ k. owners_follow _ _ (owners k) (s.owners k);
    backed = λ k o' h.
        let (o, found, e) = shrinks k o' h in
        rw (owners o'.aggregate_id) (cc (s.backed k o found, e));
    addressed = λ k o' h.
        let (o, found, e) = shrinks k o' h in
        let (a, t) = s.addressed k o found in (cc (a, e), cc (t, e));
    single = λ k j o' p' h g e.
        let (o, found, eo) = shrinks k o' h in
        let (p, found', ep) = shrinks j p' g in s.single k j o p found found' (cc (eo, ep, e));
  }

  settle-drafts :
      (o : HarvestOutboxOperation) (v : Verdict HarvestRecord) (at : Instant) (db : Db)
      → (f : LocalHarvestDraft → LocalHarvestDraft) × ((d : LocalHarvestDraft)
          → harvest_draft_key (f d) ≡ harvest_draft_key d)
        × ((d : LocalHarvestDraft) → owner_of (f d) ≡ owner_of d)
        × ((after (settle o v at db)).harvest_drafts
            ≡ dexie.update o.aggregate_id f db.harvest_drafts)
  unfolding settle
  settle-drafts o (confirm r) at db = (_, (λ d. refl), (λ d. refl), refl)
  settle-drafts o (attention c m) at db = (_, (λ d. refl), (λ d. refl), refl)
  settle-drafts o sign_in at db = (_, (λ d. refl), (λ d. refl), refl)
  settle-drafts o retry at db = (_, (λ d. refl), (λ d. refl), refl)

  module _ (server : HarvestOutboxOperation → Answer HarvestRecord) where
    sync_one-SameOwners :
        (o : HarvestOutboxOperation) (db : Db) → SameOwners db (after (sync_one server o db))
    unfolding sync_one mark_syncing
    sync_one-SameOwners o db k =
        let (f, keeps, same, e) =
          settle-drafts o (verdict (server o).reply) (server o).at (mark_syncing o db) in
        ap (λ t. Option.map owner_of (dexie.get k t)) e
        ∙ get-update_view owner_of f same k o.aggregate_id (mark_syncing o db).harvest_drafts keeps
        ∙ get-update_view owner_of _ (λ d. refl) k o.aggregate_id db.harvest_drafts (λ d. refl)

    sync_one-Shrinks :
        (o : HarvestOutboxOperation) (db : Db) → Shrinks db (after (sync_one server o db))
    sync_one-Shrinks o db k o' h = elim (get-sync_one server o k db) [
      | inl e ↦
          let (x, found, same) =
            snapshot-some (dexie.get k db.harvest_outbox) (snapshot o')
              (sym e ∙ ap (Option.map snapshot) h) in
          (x, found, sym same)
      | inr (_, gone, _) ↦ cc (gone, h)
    ]

    -- Whatever the server answers, the invariant holds after a sync.
    pub sync_harvest-IsSound :
        (owner : String) (db : Db) → IsSound db → IsSound (sync_harvest server owner db).1
    unfolding sync_harvest
    sync_harvest-IsSound owner db =
        sync_loop-inv server IsSound (queue owner db) db
          (λ o db' m. Shrinks-IsSound db' _ (sync_one-SameOwners o db') (sync_one-Shrinks o db'))

    get-sync_one_draft_ne :
        (o : HarvestOutboxOperation) (k : String) (db : Db)
        → o.aggregate_id ≢ k
        → dexie.get k (after (sync_one server o db)).harvest_drafts ≡ dexie.get k db.harvest_drafts
    unfolding sync_one mark_syncing
    get-sync_one_draft_ne o k db n =
        let (f, keeps, same, e) =
          settle-drafts o (verdict (server o).reply) (server o).at (mark_syncing o db) in
        ap (dexie.get k) e
        ∙ get-update_ne k o.aggregate_id f (mark_syncing o db).harvest_drafts keeps n
        ∙ get-update_ne k o.aggregate_id _ db.harvest_drafts (λ d. refl) n

    -- A sync of one owner leaves the drafts of every other owner as they are.
    pub sync_harvest-draft_of_other :
        (owner k : String) (db : Db) (d : LocalHarvestDraft)
        → IsSound db
        → d.owner_id ≢ owner
        → dexie.get k db.harvest_drafts ≡ some d
        → dexie.get k (sync_harvest server owner db).1.harvest_drafts ≡ some d
    unfolding sync_harvest
    sync_harvest-draft_of_other owner k db d s n found =
        sync_loop-inv server (λ db'. dexie.get k db'.harvest_drafts ≡ some d) (queue owner db) db
          (λ o db' m h. get-sync_one_draft_ne o k db' (apart o m) ∙ h) found
      where
        apart : (o : HarvestOutboxOperation) → Has o (queue owner db) → o.aggregate_id ≢ k
        apart o m at =
            let (row, p) = (dexie.Has-select o _ _).0 ((dexie.Has-sort_by o _ _).0 m) in
            let own = (eq_iff o.owner_id owner).0 (and_left _ _ p) in
            n (cc (s.backed o.operation_id o row, own, at, found))

-- A sync of the harvest stores leaves those of attendance alone.
module _ ⦃dexie : Dexie⦄ (server : HarvestOutboxOperation → Answer HarvestRecord) where
  abbrev SameStores : Db → Db → Type 0
  SameStores db db' = (db'.drafts ≡ db.drafts) × (db'.outbox ≡ db.outbox)

  settle-SameStores :
      (o : HarvestOutboxOperation) (v : Verdict HarvestRecord) (at : Instant) (db : Db)
      → SameStores db (after (settle o v at db))
  unfolding settle
  settle-SameStores o (confirm r) at db = (refl, refl)
  settle-SameStores o (attention category message) at db = (refl, refl)
  settle-SameStores o sign_in at db = (refl, refl)
  settle-SameStores o retry at db = (refl, refl)

  pub sync_harvest-SameStores :
      (owner : String) (db : Db)
      → ((sync_harvest server owner db).1.drafts ≡ db.drafts)
        × ((sync_harvest server owner db).1.outbox ≡ db.outbox)
  unfolding sync_harvest sync_one mark_syncing
  sync_harvest-SameStores owner db =
      sync_loop-inv server (SameStores db) (queue owner db) db
        (λ o db' m (drafts, outbox).
          let (d, b) =
            settle-SameStores o (verdict (server o).reply) (server o).at (mark_syncing o db') in
          (d ∙ drafts, b ∙ outbox))
        (refl, refl)
