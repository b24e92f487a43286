-- ===== src/Offline/Reference.antt =====
-- The reference caches of modules/attendance/offline/db.ts: each owner's workers and farm units,
-- replaced whole in one transaction.
pub mod Replaced
use Prim.Native.String
use koranco.Base.{String, Bool, true, false, List, [], ◌∷◌, map, ◌==◌}
use koranco.Dexie.{Dexie}
use koranco.Types.Server.{Instant, RecordStatus, active, inactive, Worker, FarmUnit}
use koranco.Types.Local.{CachedWorker, CachedFarmUnit}
use koranco.Offline.Db.{Db}

unfoldable pub is_active : RecordStatus → Bool
is_active active = true
is_active inactive = false

-- `${ownerId}:${id}`
unfoldable pub owned_key : String → String → String
owned_key owner id = String.◌++◌ owner (String.◌++◌ ":" id)

unfoldable pub cached_worker : String → Instant → Worker → CachedWorker
unfolding is_active owned_key
cached_worker owner fetched_at w = record {
  key = owned_key owner w.id;
  owner_id = owner;
  id = w.id;
  worker_code = w.worker_code;
  full_name = w.full_name;
  active = is_active w.status;
  fetched_at = fetched_at;
}

unfoldable pub cached_farm_unit : String → Instant → FarmUnit → CachedFarmUnit
unfolding is_active owned_key
cached_farm_unit owner fetched_at u = record {
  key = owned_key owner u.id;
  owner_id = owner;
  id = u.id;
  code = u.code;
  name = u.name;
  unit_type = u.unit_type;
  active = is_active u.status;
  fetched_at = fetched_at;
}

module _ ⦃dexie : Dexie⦄ where
  open dexie use {Table}

  -- bulkPut: each row is put in its turn.
  unfoldable pub bulk_put : {R : Type 0} {key : R → String} → List R → Table R key → Table R key
  bulk_put [] t = t
  bulk_put (r ∷ rs) t = bulk_put rs (dexie.put r t)

  unfoldable pub cache_workers : String → List Worker → Instant → Db → Instant × Db
  unfolding bulk_put
  cache_workers owner workers fetched_at db = (
    fetched_at,
    record db {
      workers =
          bulk_put (map (cached_worker owner fetched_at) workers)
            (dexie.delete_where (λ r. r.owner_id == owner) db.workers);
    },
  )

  unfoldable pub cached_workers : String → Db → List CachedWorker
  cached_workers owner db = dexie.select (λ r. r.owner_id == owner) db.workers

  unfoldable pub cache_farm_units : String → List FarmUnit → Instant → Db → Instant × Db
  unfolding bulk_put
  cache_farm_units owner units fetched_at db = (
    fetched_at,
    record db {
      harvest_farm_units =
          bulk_put (map (cached_farm_unit owner fetched_at) units)
            (dexie.delete_where (λ r. r.owner_id == owner) db.harvest_farm_units);
    },
  )

  unfoldable pub cached_farm_units : String → Db → List CachedFarmUnit
  cached_farm_units owner db = dexie.select (λ r. r.owner_id == owner) db.harvest_farm_units
