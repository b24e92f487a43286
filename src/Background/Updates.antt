-- ===== src/Background/Updates.antt =====
-- When the component PwaRegistrar lets a waiting update take over.
use koranco.Base.{
  ◌≡◌, ◌↔◌, refl, sym, ap, inl, inr, Bool, true, false, Bool-cases, if◌then◌else◌, arith,
}
use koranco.Dexie.{Dexie}
use koranco.Offline.Db.{Db}
use koranco.Offline.Pending.{has_any_pending_work}
use koranco.Offline.Pending.Holds.{Waits, has_any_pending_work_iff}
use koranco.Background.{Registrar, consider_update}

module _ ⦃dexie : Dexie⦄ where
  abbrev decided : Bool → Registrar → Registrar → Registrar × Bool
  decided work r s = if work then (r, false) else (s, true)

  given_no_work : (work : Bool) (r s : Registrar) → ((decided work r s).1 ≡ true) ↔ (work ≡ false)
  given_no_work true r s = (λ h. sym h, λ h. sym h)
  given_no_work false r s = (λ h. refl, λ h. refl)

  given_work : (work : Bool) (r s : Registrar) → work ≡ true → (decided work r s).0 ≡ r
  given_work true r s h = refl
  given_work false r s h = absurd cc

  no_work_iff :
      (db : Db) → (has_any_pending_work db ≡ false) ↔ (Waits (λ o. Unit) (λ o. Unit) db → ⊥)
  no_work_iff db =
      let (waits, works) = has_any_pending_work_iff db in
      (
        λ none w. absurd (ground (arith, none, works w)),
        λ no. elim (Bool-cases (has_any_pending_work db)) [
          | inl some_work ↦ absurd (no (waits some_work))
          | inr none ↦ none
        ],
      )

  -- A waiting update of the application takes over exactly when no operation of any user is in an
  -- outbox, one that needs attention included; otherwise, if one is waiting, it is held.
  pub consider_update-Waits :
      (waiting : Bool) (db : Db) (r : Registrar)
      → (((consider_update waiting db r).1 ≡ true)
          ↔ ((waiting ≡ true) × (Waits (λ o. Unit) (λ o. Unit) db → ⊥)))
        × (waiting ≡ true
            → Waits (λ o. Unit) (λ o. Unit) db
            → (consider_update waiting db r).0.update_held ≡ true)
  unfolding consider_update
  consider_update-Waits false db r =
      ((λ h. absurd cc, λ h. absurd (ground (arith, h.0))), λ h. absurd cc)
  consider_update-Waits true db r = (
    (
      λ h. (
        refl,
        (no_work_iff db).0
            ((given_no_work (has_any_pending_work db) (record r { update_held = true }) r).0 h),
      ),
      λ h.
          (given_no_work (has_any_pending_work db) (record r { update_held = true }) r).1
            ((no_work_iff db).1 h.1),
    ),
    λ h w.
        ap (λ (x : Registrar). x.update_held)
          (given_work (has_any_pending_work db) (record r { update_held = true }) r
            ((has_any_pending_work_iff db).1 w)),
  )
