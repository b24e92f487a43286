-- ===== src/Offline/Lease/Validity.antt =====
-- When a lease authorizes offline work.
use mathlib.Core.Path.{subst}
use koranco.Base.{
  ◌+◌, ◌<◌, String, ◌≡◌, sym, true, ◌&&◌, Option, none, some, eq_refl, ltb, truthy, if◌then◌else◌,
  arith, Bool-cases, Option-cases, inl, inr,
}
use koranco.Dexie.{Dexie}
use koranco.Types.Server.{Instant, AuthenticatedUser}
use koranco.Types.Local.{OfflineLease}
use koranco.Offline.Db.{Db, offline_lease_ms}
use koranco.Offline.Lease.{
  Domain, attendance, harvest, includes, allowed, usable, suspended, lease_of, record_offline_lease,
  valid_offline_lease, suspend_offline_lease,
}

-- The permission that a domain asks for.
abbrev pub permission : Domain → String
permission attendance = "attendance.record"
permission harvest = "harvest.record"

usable_sound :
    (domain : Domain) (now : Instant) (o : Option OfflineLease) (l : OfflineLease)
    → usable domain now o ≡ some l
    → (o ≡ some l) × ((now < l.expires_at) × (allowed domain l ≡ true))
unfolding usable
usable_sound domain now none l h = cc
usable_sound domain now (some x) l h = ground arith

usable-suspended :
    (domain : Domain) (now : Instant) (l : OfflineLease)
    → usable domain now (some (suspended l)) ≡ none
unfolding usable suspended
usable-suspended attendance now l = ground arith
usable-suspended harvest now l = ground arith

module _ ⦃dexie : Dexie⦄ where
  -- The lease of a signed-in user whose id is not empty authorizes a domain for twelve hours from
  -- the sign-in, to the millisecond, and only if the user has the domain's permission.
  pub valid_offline_lease-record :
      (user : AuthenticatedUser) (domain : Domain) (now later : Instant) (db : Db)
      → truthy user.id ≡ true
      → valid_offline_lease (some user.id) domain later (record_offline_lease user now db) ≡ (
          if ltb later (now + offline_lease_ms) && includes user.permissions (permission domain)
          then some (lease_of user now)
          else none)
  unfolding valid_offline_lease record_offline_lease
  valid_offline_lease-record user attendance now later db h =
      rw (h, dexie.get-put, eq_refl) (ground arith)
  valid_offline_lease-record user harvest now later db h =
      rw (h, dexie.get-put, eq_refl) (ground arith)

  -- A lease that is found is a row of the store that has not expired and that allows the domain.
  pub valid_offline_lease_sound :
      (owner : Option String) (domain : Domain) (now : Instant) (db : Db) (l : OfflineLease)
      → valid_offline_lease owner domain now db ≡ some l
      → (dexie.get l.owner_id db.leases ≡ some l)
        × ((now < l.expires_at) × (allowed domain l ≡ true))
  unfolding valid_offline_lease
  valid_offline_lease_sound none domain now db l h =
      let (found, live) =
        usable_sound domain now (dexie.last_by (λ x. x.expires_at) db.leases) l h in
      (dexie.last_by_sound l (λ x. x.expires_at) db.leases found, live)
  valid_offline_lease_sound (some owner) domain now db l h = elim (Bool-cases (truthy owner)) [
    | inl given ↦
        let (found, live) = usable_sound domain now (dexie.get owner db.leases) l (rw given at h) in
        (
          subst (λ k. dexie.get k db.leases ≡ some l) (sym (dexie.key-get owner l db.leases found))
              found,
          live,
        )
    | inr given ↦
        let (found, live) =
          usable_sound domain now (dexie.last_by (λ x. x.expires_at) db.leases) l (rw given at h) in
        (dexie.last_by_sound l (λ x. x.expires_at) db.leases found, live)
  ]

  -- Once the lease of an owner whose id is not empty is suspended, it authorizes no domain,
  -- whatever the time.
  pub valid_offline_lease-suspend :
      (owner : String) (domain : Domain) (now : Instant) (db : Db)
      → truthy owner ≡ true
      → valid_offline_lease (some owner) domain now (suspend_offline_lease owner db) ≡ none
  unfolding valid_offline_lease suspend_offline_lease
  valid_offline_lease-suspend owner domain now db h =
      elim (Option-cases (dexie.get owner db.leases)) [
        | inl gone ↦ rw (h, gone, gone)
        | inr (l, found) ↦
            let e : dexie.get owner (dexie.put (suspended l) db.leases) ≡ some (suspended l) =
              rw (dexie.get-put, dexie.key-get owner l db.leases found, eq_refl) in
            rw (h, found, e) (usable-suspended domain now l)
      ]
