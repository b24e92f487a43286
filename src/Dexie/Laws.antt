-- ===== src/Dexie/Laws.antt =====
-- Consequences of the laws of `Dexie` that the stores share.
use mathlib.Core.Option
use koranco.Base.{
  true, Option-cases, String, ◌≡◌, refl, ◌≢◌, Bool, Option, none, some, Has, inl, inr, ◌==◌,
  eq_refl, ==-eq-false, Bool-cases,
}
use koranco.Dexie.{Dexie}

map-map_same :
    {R S : Type 0} (view : R → S) (f : R → R)
    → ((r : R) → view (f r) ≡ view r)
    → (m : Option R) → Option.map view (Option.map f m) ≡ Option.map view m
map-map_same view f same none = refl
map-map_same view f same (some r) = rw (same r)

pub eq-none_of_map :
    {R S : Type 0} (view : R → S) (m : Option R) → Option.map view m ≡ none → m ≡ none
eq-none_of_map view none h = refl
eq-none_of_map view (some r) h = cc

module _ ⦃dexie : Dexie⦄ {R : Type 0} {key : R → String} where
  open dexie use {Table}

  pub get-put_self : (r : R) (t : Table R key) → dexie.get (key r) (dexie.put r t) ≡ some r
  get-put_self r t = rw (dexie.get-put, eq_refl)

  pub get_own_key :
      (k : String) (r : R) (t : Table R key) → dexie.get k t ≡ some r → dexie.get (key r) t ≡ some r
  get_own_key k r t found = simp (dexie.key-get k r t found) found

  pub get-update_self :
      (k : String) (f : R → R) (t : Table R key)
      → ((r : R) → key (f r) ≡ key r)
      → dexie.get k (dexie.update k f t) ≡ Option.map f (dexie.get k t)
  get-update_self k f t h = rw (dexie.get-update k k f t h, eq_refl)

  pub get-update_ne :
      (k j : String) (f : R → R) (t : Table R key)
      → ((r : R) → key (f r) ≡ key r)
      → j ≢ k
      → dexie.get k (dexie.update j f t) ≡ dexie.get k t
  get-update_ne k j f t h n = rw (dexie.get-update k j f t h, ==-eq-false j k n)

  -- An update that keeps a view of the rows keeps that view of the store.
  module _ {S : Type 0} (view : R → S) (f : R → R) (same : (r : R) → view (f r) ≡ view r) where
    pub get-update_view :
        (k j : String) (t : Table R key)
        → ((r : R) → key (f r) ≡ key r)
        → Option.map view (dexie.get k (dexie.update j f t)) ≡ Option.map view (dexie.get k t)
    get-update_view k j t h = rw (dexie.get-update k j f t h) (elim (Bool-cases (j == k)) [
      | inl e ↦ rw e (map-map_same view f same (dexie.get k t))
      | inr e ↦ rw e refl
    ])

  -- The rows that a query finds under one key are one row.
  pub select_unique :
      (k : String) (r s : R) (p : R → Bool) (t : Table R key)
      → dexie.get k t ≡ some r
      → Has s (dexie.select p t)
      → key s ≡ k
      → s ≡ r
  select_unique k r s p t found h e = cc (((dexie.Has-select s p t).0 h).0)

  -- A query that one row alone meets finds that row first.
  pub first_of_only :
      (k : String) (r : R) (p : R → Bool) (t : Table R key)
      → dexie.get k t ≡ some r
      → p r ≡ true
      → ((j : String) (s : R) → dexie.get j t ≡ some s → p s ≡ true → s ≡ r)
      → dexie.first p t ≡ some r
  first_of_only k r p t found meets only = elim (Option-cases (dexie.first p t)) [
    | inl e ↦ cc (dexie.first_complete k r p t e found)
    | inr (s, e) ↦ let (here, q) = dexie.first_sound s p t e in cc (only (key s) s here q)
  ]
