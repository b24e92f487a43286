-- ===== src/Offline/Pending/Holds.antt =====
-- What holds an update of the application back, and what keeps a user from signing out unwarned.
use koranco.Base.{
  ℕ, ◌+◌, String, ◌≡◌, ◌↔◌, ◌⊎◌, inl, inr, refl, Bool, true, false, ◌||◌, ◌==◌, eq_iff, some, List,
  [], ◌∷◌, ltb, length, Has, arith,
}
use koranco.Dexie.{Dexie}
use koranco.Types.Local.{OutboxOperation, HarvestOutboxOperation}
use koranco.Offline.Db.{Db}
use koranco.Offline.Pending.{has_pending_for_owner, has_any_pending_work}

module _ {A : Type 0} where
  some_there : (xs : List A) → ltb 0 (length xs) ≡ true → (a : A) × Has a xs
  some_there [] h = ground arith
  some_there (x ∷ xs) h = (x, inl refl)

  not_empty : (xs : List A) (a : A) → Has a xs → ltb 0 (length xs) ≡ true
  not_empty [] a m = elim m [ ]
  not_empty (x ∷ xs) a m = ground arith

either_positive : (m n : ℕ) → ltb 0 (m + n) ≡ true → (ltb 0 m ≡ true) ⊎ (ltb 0 n ≡ true)
either_positive m n h = ground arith

sum_positive : (m n : ℕ) → (ltb 0 m ≡ true) ⊎ (ltb 0 n ≡ true) → ltb 0 (m + n) ≡ true
sum_positive m n (inl h) = ground arith
sum_positive m n (inr h) = ground arith

either_true : (a b : Bool) → (a || b) ≡ true → (a ≡ true) ⊎ (b ≡ true)
either_true true b h = inl refl
either_true false b h = inr h

or_true : (a b : Bool) → (a ≡ true) ⊎ (b ≡ true) → (a || b) ≡ true
or_true true b h = refl
or_true false b (inl h) = cc
or_true false b (inr h) = h

module _ ⦃dexie : Dexie⦄ where
  -- A row of an outbox.
  abbrev pub Waits : (OutboxOperation → Type 0) → (HarvestOutboxOperation → Type 0) → Db → Type 0
  Waits P Q db =
      ((o : OutboxOperation) × (dexie.get o.operation_id db.outbox ≡ some o) × P o)
      ⊎ ((o : HarvestOutboxOperation) × (dexie.get o.operation_id db.harvest_outbox ≡ some o) × Q o)

  pub has_any_pending_work_iff :
      (db : Db) → (has_any_pending_work db ≡ true) ↔ Waits (λ o. Unit) (λ o. Unit) db
  unfolding has_any_pending_work
  has_any_pending_work_iff db = (
    λ h. elim (either_true _ _ h) [
      | inl a ↦
          let (o, m) = some_there (dexie.select (λ _. true) db.outbox) a in
          inl (o, ((dexie.Has-select o (λ _. true) db.outbox).0 m).0, tt)
      | inr b ↦
          let (o, m) = some_there (dexie.select (λ _. true) db.harvest_outbox) b in
          inr (o, ((dexie.Has-select o (λ _. true) db.harvest_outbox).0 m).0, tt)
    ],
    λ w. elim w [
      | inl (o, found, _) ↦
          or_true _ _
            (inl (not_empty _ o ((dexie.Has-select o (λ _. true) db.outbox).1 (found, refl))))
      | inr (o, found, _) ↦
          or_true _ _ (
            inr
              (not_empty _ o ((dexie.Has-select o (λ _. true) db.harvest_outbox).1 (found, refl))))
    ],
  )

  pub has_pending_for_owner_iff :
      (owner : String) (db : Db)
      → (has_pending_for_owner owner db ≡ true)
        ↔ Waits (λ o. o.owner_id ≡ owner) (λ o. o.owner_id ≡ owner) db
  unfolding has_pending_for_owner
  has_pending_for_owner_iff owner db = (
    λ h. elim (either_positive _ _ h) [
      | inl a ↦
          let (o, m) = some_there (dexie.select (λ o. o.owner_id == owner) db.outbox) a in
          let (found, own) = (dexie.Has-select o _ db.outbox).0 m in
          inl (o, found, (eq_iff o.owner_id owner).0 own)
      | inr b ↦
          let (o, m) = some_there (dexie.select (λ o. o.owner_id == owner) db.harvest_outbox) b in
          let (found, own) = (dexie.Has-select o _ db.harvest_outbox).0 m in
          inr (o, found, (eq_iff o.owner_id owner).0 own)
    ],
    λ w. sum_positive _ _ (elim w [
      | inl (o, found, own) ↦ inl (
          not_empty _ o
            ((dexie.Has-select o _ db.outbox).1 (found, (eq_iff o.owner_id owner).1 own)))
      | inr (o, found, own) ↦ inr (
          not_empty _ o
            ((dexie.Has-select o _ db.harvest_outbox).1 (found, (eq_iff o.owner_id owner).1 own)))
    ]),
  )

  -- `hasAnyPendingWork` is true exactly while an operation of some user is in an outbox, one that
  -- needs attention included, and `hasPendingForOwner` exactly while an operation of that owner
  -- is.
  pub pending_work_iff :
      (owner : String) (db : Db)
      → ((has_any_pending_work db ≡ true) ↔ Waits (λ o. Unit) (λ o. Unit) db)
        × ((has_pending_for_owner owner db ≡ true)
            ↔ Waits (λ o. o.owner_id ≡ owner) (λ o. o.owner_id ≡ owner) db)
  pending_work_iff owner db = (has_any_pending_work_iff db, has_pending_for_owner_iff owner db)
