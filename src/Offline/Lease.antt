-- ===== src/Offline/Lease.antt =====
-- The lease functions of modules/attendance/offline/db.ts: the record that lets a signed-in user go
-- on capturing work while the server cannot be reached.
pub mod Validity
use koranco.Base.{
  ◌+◌, String, Bool, false, not, ◌||◌, Option, none, some, List, [], ◌∷◌, ◌==◌, leb, truthy,
  if◌then◌else◌,
}
use koranco.Dexie.{Dexie}
use koranco.Types.Server.{Instant, AuthenticatedUser}
use koranco.Types.Local.{OfflineLease}
use koranco.Offline.Db.{Db, offline_lease_ms}

pub data Domain : Type 0 where
  attendance harvest : Domain

-- `includes` of an array of texts.
unfoldable pub includes : List String → String → Bool
includes [] s = false
includes (x ∷ xs) s = x == s || includes xs s

-- An optional flag is read as false when it is missing.
abbrev pub flag : Option Bool → Bool
flag none = false
flag (some b) = b

abbrev pub allowed : Domain → OfflineLease → Bool
allowed attendance l = l.attendance_allowed
allowed harvest l = flag l.harvest_allowed

-- `Date.parse(lease.expiresAt) <= now`, and the flag of the domain.
unfoldable pub usable : Domain → Instant → Option OfflineLease → Option OfflineLease
usable domain now none = none
usable domain now (some l) =
    if leb l.expires_at now then none else if not (allowed domain l) then none else some l

unfoldable pub suspended : OfflineLease → OfflineLease
suspended l = record l { attendance_allowed = false; harvest_allowed = some false }

unfoldable pub lease_of : AuthenticatedUser → Instant → OfflineLease
lease_of user now = record {
  owner_id = user.id;
  display_name = user.display_name;
  validated_at = now;
  expires_at = now + offline_lease_ms;
  attendance_allowed = includes user.permissions "attendance.record";
  harvest_allowed = some (includes user.permissions "harvest.record");
}

module _ ⦃dexie : Dexie⦄ where
  unfoldable pub record_offline_lease : AuthenticatedUser → Instant → Db → Db
  unfolding lease_of
  record_offline_lease user now db = record db { leases = dexie.put (lease_of user now) db.leases }

  -- Without an owner the lease that expires last is taken.
  unfoldable pub valid_offline_lease : Option String → Domain → Instant → Db → Option OfflineLease
  unfolding usable
  valid_offline_lease none domain now db =
      usable domain now (dexie.last_by (λ l. l.expires_at) db.leases)
  valid_offline_lease (some owner) domain now db = usable domain now (
      if truthy owner
      then dexie.get owner db.leases
      else dexie.last_by (λ l. l.expires_at) db.leases)

  unfoldable pub suspend_found : Option OfflineLease → Db → Db
  unfolding suspended
  suspend_found none db = db
  suspend_found (some l) db = record db { leases = dexie.put (suspended l) db.leases }

  unfoldable pub suspend_offline_lease : String → Db → Db
  unfolding suspend_found
  suspend_offline_lease owner db = suspend_found (dexie.get owner db.leases) db
