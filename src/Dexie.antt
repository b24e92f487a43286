-- ===== src/Dexie.antt =====
-- The database library, Dexie 4 over IndexedDB: what the offline stores call of it, with its
-- documented behaviour as laws. A store holds rows under a text key; `select` is a query
-- `where(...).equals(...).filter(...)` read as one test on the rows.
pub mod Laws
pub mod Memory
use koranco.Base.{
  ℕ, ◌≤◌, String, ◌≡◌, ◌↔◌, Bool, true, false, Option, none, some, List, Has, ◌==◌, if◌then◌else◌,
}
use mathlib.Core.Option

abbrev pub keep_unless {ℓ} : {R : Type ℓ} → (R → Bool) → Option R → Option R
keep_unless p none = none
keep_unless p (some r) = if p r then none else some r

pub record Dexie : Type 1 where
  pub Table : (R : Type 0) → (R → String) → Type 0
  pub get : {R : Type 0} {key : R → String} → String → Table R key → Option R
  pub put : {R : Type 0} {key : R → String} → R → Table R key → Table R key
  -- none when the key is taken: the promise is rejected
  pub add : {R : Type 0} {key : R → String} → R → Table R key → Option (Table R key)
  pub update : {R : Type 0} {key : R → String} → String → (R → R) → Table R key → Table R key
  pub delete : {R : Type 0} {key : R → String} → String → Table R key → Table R key
  pub delete_where : {R : Type 0} {key : R → String} → (R → Bool) → Table R key → Table R key
  pub select : {R : Type 0} {key : R → String} → (R → Bool) → Table R key → List R
  pub first : {R : Type 0} {key : R → String} → (R → Bool) → Table R key → Option R
  -- orderBy(...).last()
  pub last_by : {R : Type 0} {key : R → String} → (R → ℕ) → Table R key → Option R
  -- sortBy(...), ascending, and with reverse(), descending
  pub sort_by : {R : Type 0} → (R → ℕ) → List R → List R
  pub sort_by_desc : {R : Type 0} → (R → ℕ) → List R → List R
  pub get-put :
      {R : Type 0} {key : R → String} (k : String) (r : R) (t : Table R key)
      → get k (put r t) ≡ (if key r == k then some r else get k t)
  pub add_fresh :
      {R : Type 0} {key : R → String} (r : R) (t : Table R key)
      → get (key r) t ≡ none
      → add r t ≡ some (put r t)
  pub add_taken :
      {R : Type 0} {key : R → String} (r s : R) (t : Table R key)
      → get (key r) t ≡ some s
      → add r t ≡ none
  -- changes that leave the primary key alone; a missing key changes nothing
  pub get-update :
      {R : Type 0} {key : R → String} (k j : String) (f : R → R) (t : Table R key)
      → ((r : R) → key (f r) ≡ key r)
      → get k (update j f t) ≡ (if j == k then Option.map f (get k t) else get k t)
  pub get-delete :
      {R : Type 0} {key : R → String} (k j : String) (t : Table R key)
      → get k (delete j t) ≡ (if j == k then none else get k t)
  pub get-delete_where :
      {R : Type 0} {key : R → String} (k : String) (p : R → Bool) (t : Table R key)
      → get k (delete_where p t) ≡ keep_unless p (get k t)
  pub Has-select :
      {R : Type 0} {key : R → String} (r : R) (p : R → Bool) (t : Table R key)
      → Has r (select p t) ↔ ((get (key r) t ≡ some r) × (p r ≡ true))
  pub first_sound :
      {R : Type 0} {key : R → String} (r : R) (p : R → Bool) (t : Table R key)
      → first p t ≡ some r
      → (get (key r) t ≡ some r) × (p r ≡ true)
  pub first_complete :
      {R : Type 0} {key : R → String} (k : String) (r : R) (p : R → Bool) (t : Table R key)
      → first p t ≡ none
      → get k t ≡ some r
      → p r ≡ false
  pub last_by_sound :
      {R : Type 0} {key : R → String} (r : R) (f : R → ℕ) (t : Table R key)
      → last_by f t ≡ some r
      → get (key r) t ≡ some r
  pub last_by_greatest :
      {R : Type 0} {key : R → String} (k : String) (s r : R) (f : R → ℕ) (t : Table R key)
      → last_by f t ≡ some r
      → get k t ≡ some s
      → f s ≤ f r
  pub key-get :
      {R : Type 0} {key : R → String} (k : String) (r : R) (t : Table R key)
      → get k t ≡ some r
      → key r ≡ k
  pub Has-sort_by : {R : Type 0} (r : R) (f : R → ℕ) (l : List R) → Has r (sort_by f l) ↔ Has r l
  pub Has-sort_by_desc :
      {R : Type 0} (r : R) (f : R → ℕ) (l : List R) → Has r (sort_by_desc f l) ↔ Has r l
