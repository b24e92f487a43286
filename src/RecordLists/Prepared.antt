-- ===== src/RecordLists/Prepared.antt =====
-- What a preparation for field work brings to the pages that open without a connection.
use mathlib.Core.Path.{subst}
use koranco.Base.{
  ◌≡◌, refl, sym, ap, ◌∙◌, inl, inr, ◌==◌, eq_iff, some, List, [], ◌∷◌, Has, Has-map, Has-map_of,
  Has-keep, Has-keep_of, ok, Bool-cases, arith,
}
use koranco.Dexie.{Dexie}
use koranco.Types.Server.{Instant, AuthenticatedUser, FarmUnit, active}
use koranco.Types.Local.{CachedFarmUnit}
use koranco.Offline.Db.{Db}
use koranco.Offline.Reference.{is_active, cached_farm_unit, cache_farm_units, cached_farm_units}
use koranco.Offline.Reference.Replaced.{cached_farm_units-Has, cached_farm_units_with}
use koranco.HarvestPage.State.{status_of, cached_to_farm_unit, find_unit}
use koranco.HarvestPage.Load.{active_units}
use koranco.RecordLists.Harvest as H

find_unit-some :
    (us : List FarmUnit) (t : FarmUnit)
    → Has t us
    → ((z : FarmUnit) → Has z us → z.id ≡ t.id → z ≡ t)
    → find_unit t.id us ≡ some t
unfolding find_unit
find_unit-some [] t m only = elim m [ ]
find_unit-some (u ∷ us) t m only = elim (Bool-cases (u.id == t.id)) [
  | inl same ↦ rw same (ap some (only u (inl refl) ((eq_iff u.id t.id).0 same)))
  | inr other ↦ elim m [
    | inl e ↦ absurd (ground (arith, eq_iff u.id t.id, ap (λ (x : FarmUnit). x.id) e))
    | inr n ↦ rw other (find_unit-some us t n (λ z k. only z (inr k)))
  ]
]

module _ ⦃dexie : Dexie⦄ where
  -- A user prepares farm units for offline use and the server sends them. The harvest page then
  -- finds, without a connection, each active unit among them, with the id, the code, the name and the
  -- type that were sent, and active, if no other of them has its id.
  pub prepared_unit_offered :
      (units : List FarmUnit) (now : Instant) (user : AuthenticatedUser) (s : H.ListState) (db : Db)
      (u : FarmUnit)
      → s.user ≡ some user
      → Has u units
      → u.status ≡ active
      → ((v : FarmUnit) → Has v units → v.id ≡ u.id → v ≡ u)
      → (x : FarmUnit) × (find_unit u.id
            (active_units user.id (H.prepare_farm_units (ok units) now s db).1)
          ≡ some x)
        × (x.id ≡ u.id)
        × (x.code ≡ u.code)
        × (x.name ≡ u.name)
        × (x.unit_type ≡ u.unit_type)
        × (x.status ≡ active)
  unfolding H.prepare_farm_units H.prepare_farm_units_for cached_to_farm_unit cached_farm_unit
      active_units is_active
  prepared_unit_offered units now user s db u signed there working only = (
    offered,
    rw (signed, H.prepare_farm_units)
        (find_unit-some (active_units user.id stored) offered placed alone),
    refl,
    refl,
    refl,
    refl,
    ap (λ r. status_of (is_active r)) working,
  )
    where
      stored : Db
      stored = (cache_farm_units user.id units now db).1

      offered : FarmUnit
      offered = cached_to_farm_unit (cached_farm_unit user.id now u)

      placed : Has offered (active_units user.id stored)
      placed =
          let (x, place, same, m) = cached_farm_units_with user.id units now db u there in
          let cached =
            subst (λ v. Has (cached_farm_unit user.id now v) (cached_farm_units user.id stored))
              (only x place same) m in
          Has-map_of cached_to_farm_unit _ (cached_farm_unit user.id now u) (
            Has-keep_of (λ (r : CachedFarmUnit). r.active) (cached_farm_units user.id stored) _
              cached (ap is_active working))

      alone : (z : FarmUnit) → Has z (active_units user.id stored) → z.id ≡ offered.id → z ≡ offered
      alone z m same =
          let (r, kept, e) = Has-map cached_to_farm_unit _ z m in
          let (cached, _) =
            Has-keep (λ (r : CachedFarmUnit). r.active) (cached_farm_units user.id stored) r kept in
          let (x, place, made) = cached_farm_units-Has user.id units now db r cached in
          let shown : z ≡ cached_to_farm_unit (cached_farm_unit user.id now x) =
            e ∙ ap cached_to_farm_unit made in
          let id : x.id ≡ u.id = sym (ap (λ (v : FarmUnit). v.id) shown) ∙ same in
          shown ∙ ap (λ v. cached_to_farm_unit (cached_farm_unit user.id now v)) (only x place id)
