-- ===== src/Offline/Pending.antt =====
-- The counts of modules/attendance/offline/db.ts of work that waits on this device.
pub mod Holds
use koranco.Base.{ℕ, ◌+◌, String, Bool, true, false, not, ◌&&◌, ◌||◌, ◌==◌, ltb, length}
use koranco.Dexie.{Dexie}
use koranco.Types.Local.{OutboxState, needs_attention}
use koranco.Offline.Db.{Db}

abbrev pub needs_care : OutboxState → Bool
needs_care needs_attention = true
needs_care _ = false

pub record Counts : Type 0 where
  pub attendance : ℕ
  pub harvest : ℕ
  pub total : ℕ

module _ ⦃dexie : Dexie⦄ where
  unfoldable pub pending_count : String → Db → ℕ
  pending_count owner db =
      length (dexie.select (λ o. o.owner_id == owner && not (needs_care o.state)) db.outbox)

  unfoldable pub harvest_pending_count : String → Db → ℕ
  harvest_pending_count owner db =
      length (dexie.select (λ o. o.owner_id == owner && not (needs_care o.state)) db.harvest_outbox)

  unfoldable pub pending_counts : String → Db → Counts
  unfolding pending_count harvest_pending_count
  pending_counts owner db =
      let attendance = pending_count owner db in
      let harvest = harvest_pending_count owner db in
      record { attendance = attendance; harvest = harvest; total = attendance + harvest }

  unfoldable pub has_pending_for_owner : String → Db → Bool
  has_pending_for_owner owner db =
      let attendance = length (dexie.select (λ o. o.owner_id == owner) db.outbox) in
      let harvest = length (dexie.select (λ o. o.owner_id == owner) db.harvest_outbox) in
      ltb 0 (attendance + harvest)

  unfoldable pub has_any_pending_work : Db → Bool
  has_any_pending_work db =
      ltb 0 (length (dexie.select (λ _. true) db.outbox))
      || ltb 0 (length (dexie.select (λ _. true) db.harvest_outbox))
