-- ===== src/Offline/Reference/Replaced.antt =====
-- A cache is replaced whole.
use mathlib.Core.Path.{subst}
use text.Mathlib.TextLemmas.{append_cancel_left}
use koranco.Base.{
  String, ◌≡◌, ◌⊎◌, inl, inr, refl, sym, ◌∙◌, ap, Bool, true, false, Option, none, some, List, [],
  ◌∷◌, map, ◌==◌, eq_refl, Has, Has-map, Has-map_of, arith, Option-cases,
}
use koranco.Dexie.{Dexie, keep_unless}
use koranco.Types.Server.{Instant, Worker, FarmUnit}
use koranco.Types.Local.{CachedWorker, CachedFarmUnit}
use koranco.Offline.Db.{Db, farm_unit_key}
use koranco.Offline.Reference.{
  bulk_put, owned_key, cached_worker, cache_workers, cached_workers, cached_farm_unit,
  cache_farm_units, cached_farm_units,
}

module _ ⦃dexie : Dexie⦄ {R : Type 0} {key : R → String} where
  -- A row comes of the rows put, or of what was there.
  get-bulk_put :
      (rs : List R) (t : dexie.Table R key) (k : String) (r : R)
      → dexie.get k (bulk_put rs t) ≡ some r
      → Has r rs ⊎ (dexie.get k t ≡ some r)
  unfolding bulk_put
  get-bulk_put [] t k r h = inr h
  get-bulk_put (x ∷ rs) t k r h = elim (get-bulk_put rs (dexie.put x t) k r h) [
    | inl m ↦ inl (inr m)
    | inr e ↦ ground (arith, dexie.get-put k x t, e)
  ]

  put_or_kept :
      (k : String) (x : R) (t : dexie.Table R key) (y : R)
      → dexie.get k (dexie.put x t) ≡ some y
      → (y ≡ x) ⊎ (dexie.get k t ≡ some y)
  put_or_kept k x t y e = ground (arith, dexie.get-put k x t, e)

  -- Rows stay under their keys, as they were or replaced.
  there_after :
      (rs : List R) (t : dexie.Table R key) (k : String) (r : R)
      → dexie.get k t ≡ some r
      → (r' : R) × (dexie.get k (bulk_put rs t) ≡ some r') × (Has r' rs ⊎ (r' ≡ r))
  unfolding bulk_put
  there_after [] t k r h = (r, h, inr refl)
  there_after (x ∷ rs) t k r h = elim (Option-cases (dexie.get k (dexie.put x t))) [
    | inl e ↦ ground (arith, dexie.get-put k x t, e, h)
    | inr (y, e) ↦
        let (r', found, place) = there_after rs (dexie.put x t) k y e in
        (
          r',
          found,
          elim place [
            | inl m ↦ inl (inr m)
            | inr same ↦ elim (put_or_kept k x t y e) [
              | inl new ↦ inl (inl (same ∙ new))
              | inr old ↦ inr (cc (same, old, h))
            ]
          ],
        )
  ]

  put_there :
      (rs : List R) (t : dexie.Table R key) (r : R)
      → Has r rs
      → (r' : R) × (dexie.get (key r) (bulk_put rs t) ≡ some r') × Has r' rs
  unfolding bulk_put
  put_there [] t r m = elim m [ ]
  put_there (x ∷ rs) t r (inl e) =
      let (r', found, place) =
        there_after rs (dexie.put x t) (key r) x (dexie.get-put (key r) x t ∙ (rw (e, eq_refl))) in
      (r', found, elim place [ inl m ↦ inr m | inr same ↦ inl same ])
  put_there (x ∷ rs) t r (inr m) =
      let (r', found, there) = put_there rs (dexie.put x t) r m in (r', found, inr there)

keep_unless_kept :
    {R : Type 0} (p : R → Bool) (o : Option R) (r : R) → keep_unless p o ≡ some r → p r ≡ false
keep_unless_kept p none r h = cc
keep_unless_kept p (some x) r h = ground arith

-- Rows that are put in place of all those that pass a test.
module _ ⦃dexie : Dexie⦄ {R : Type 0} {key : R → String} (mine : R → Bool) (rows : List R)
    (t : dexie.Table R key) where
  replaced-Has :
      (k : String) (r : R)
      → dexie.get k (bulk_put rows (dexie.delete_where mine t)) ≡ some r
      → mine r ≡ true
      → Has r rows
  replaced-Has k r found own = elim (get-bulk_put rows (dexie.delete_where mine t) k r found) [
    | inl n ↦ n
    | inr e ↦
        cc
          (keep_unless_kept mine (dexie.get k t) r (sym (dexie.get-delete_where k mine t) ∙ e), own)
  ]

  select_replaced-Has :
      (r : R) → Has r (dexie.select mine (bulk_put rows (dexie.delete_where mine t))) → Has r rows
  select_replaced-Has r m =
      let (found, own) = (dexie.Has-select r mine _).0 m in replaced-Has (key r) r found own

  -- Each row put has a row under its key, which is of those put, if these pass the test.
  replaced_under_key :
      (r : R)
      → ((x : R) → Has x rows → mine x ≡ true)
      → Has r rows
      → (y : R) × Has y (dexie.select mine (bulk_put rows (dexie.delete_where mine t)))
        × (key y ≡ key r)
        × Has y rows
  replaced_under_key r all_mine there =
      let (y, found, m) = put_there rows (dexie.delete_where mine t) r there in
      let same : key y ≡ key r = dexie.key-get (key r) y _ found in
      (
        y,
        (dexie.Has-select y mine _).1 (
          ap (λ k. dexie.get k (bulk_put rows (dexie.delete_where mine t))) same ∙ found,
          all_mine y m,
        ),
        same,
        m,
      )

module _ ⦃dexie : Dexie⦄ where
  -- After the workers of an owner are cached, each row of his cache is that of one of these
  -- workers, read at this time, and each of these workers has a row under his key: nothing older
  -- is left.
  pub cached_workers-cache_workers :
      (owner : String) (workers : List Worker) (now : Instant) (db : Db) (r : CachedWorker)
      (w : Worker)
      → Has r (cached_workers owner (cache_workers owner workers now db).1)
      → Has w workers
      → ((x : Worker) × Has x workers × (r ≡ cached_worker owner now x))
        × ((y : CachedWorker) × (dexie.get
                (cached_worker owner now w).key
                (cache_workers owner workers now db).1.workers
              ≡ some y))
  unfolding cached_workers cache_workers
  cached_workers-cache_workers owner workers now db r w m there =
      let mine : CachedWorker → Bool = λ x. x.owner_id == owner in
      let rows = map (cached_worker owner now) workers in
      let (y, found, _) =
        put_there rows (dexie.delete_where mine db.workers) (cached_worker owner now w)
          (Has-map_of (cached_worker owner now) workers w there) in
      (
        Has-map (cached_worker owner now) workers r (select_replaced-Has mine rows db.workers r m),
        (y, found),
      )

  -- After the farm units of an owner are cached, his cache is made of these units, and of each id
  -- that one of them has.
  pub cached_farm_units-Has :
      (owner : String) (units : List FarmUnit) (now : Instant) (db : Db) (r : CachedFarmUnit)
      → Has r (cached_farm_units owner (cache_farm_units owner units now db).1)
      → (x : FarmUnit) × Has x units × (r ≡ cached_farm_unit owner now x)
  unfolding cached_farm_units cache_farm_units
  cached_farm_units-Has owner units now db r m = Has-map (cached_farm_unit owner now) units r (
      select_replaced-Has (λ x. x.owner_id == owner) (map (cached_farm_unit owner now) units)
        db.harvest_farm_units r m)

  pub cached_farm_units_with :
      (owner : String) (units : List FarmUnit) (now : Instant) (db : Db) (u : FarmUnit)
      → Has u units
      → (x : FarmUnit) × Has x units
        × (x.id ≡ u.id)
        × Has
            (cached_farm_unit owner now x)
            (cached_farm_units owner (cache_farm_units owner units now db).1)
  unfolding cached_farm_units cache_farm_units cached_farm_unit owned_key
  cached_farm_units_with owner units now db u there =
      let row = cached_farm_unit owner now in
      let (y, m, same, put) =
        replaced_under_key (λ x. x.owner_id == owner) (map row units) db.harvest_farm_units (row u)
          (λ x n. let (v, _, e) = Has-map row units x n in rw e (eq_refl owner))
          (Has-map_of row units u there) in
      let (x, place, e) = Has-map row units y put in
      (
        x,
        place,
        append_cancel_left ":" x.id u.id
            (append_cancel_left owner _ _ (sym (ap farm_unit_key e) ∙ same)),
        subst (λ z. Has z (cached_farm_units owner (cache_farm_units owner units now db).1)) e m,
      )
