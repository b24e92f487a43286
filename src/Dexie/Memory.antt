-- ===== src/Dexie/Memory.antt =====
-- A store in memory that meets the laws of `Dexie`: a list of rows, of which the first under a key
-- counts. The tests run on it.
use mathlib.Core.Option
use koranco.Base.{
  ℕ, ◌≤◌, String, ◌≡◌, refl, ◌↔◌, inl, inr, Bool, true, false, Option, none, some, List, [], ◌∷◌,
  Has, ◌==◌, eq_iff, if◌then◌else◌, arith, Bool-cases, leb,
}
use koranco.Dexie.{Dexie, keep_unless}

module _ {R : Type 0} where
  abbrev pub head_of : List R → Option R
  head_of [] = none
  head_of (r ∷ t) = some r

  Has-of_head_of : (r : R) (t : List R) → head_of t ≡ some r → Has r t
  Has-of_head_of r [] h = cc
  Has-of_head_of r (s ∷ t) h = inl (cc)

  not-Has_of_head_of : (r : R) (t : List R) → head_of t ≡ none → ¬ Has r t
  not-Has_of_head_of r [] h m = m
  not-Has_of_head_of r (s ∷ t) h m = cc

  abbrev pub greater : (R → ℕ) → R → Option R → R
  greater f r none = r
  greater f r (some s) = if leb (f r) (f s) then s else r

  abbrev pub greatest : (R → ℕ) → List R → Option R
  greatest f [] = none
  greatest f (r ∷ t) = some (greater f r (greatest f t))

  pub Has-of_greatest : (r : R) (f : R → ℕ) (t : List R) → greatest f t ≡ some r → Has r t
  Has-of_greatest r f [] h = cc
  Has-of_greatest r f (s ∷ t) h = ground (arith, Has-of_greatest r f t)

  greatest-some : (s : R) (f : R → ℕ) (t : List R) → Has s t → (y : R) × (greatest f t ≡ some y)
  greatest-some s f [] m = elim m [ ]
  greatest-some s f (x ∷ t) m = (greater f x (greatest f t), refl)

  upper_step :
      (s x r : R) (f : R → ℕ) (o : Option R)
      → (y : R) × (o ≡ some y)
      → some (greater f x o) ≡ some r
      → ((y : R) → o ≡ some y → f s ≤ f y)
      → f s ≤ f r
  upper_step s x r f o (y, e) h below = ground (arith, below y e)

  greatest_upper : (s r : R) (f : R → ℕ) (t : List R) → greatest f t ≡ some r → Has s t → f s ≤ f r
  greatest_upper s r f (x ∷ t) h (inl e) = rw e (ground arith)
  greatest_upper s r f (x ∷ t) h (inr m) =
      upper_step s x r f (greatest f t) (greatest-some s f t m) h
        (λ y e. greatest_upper s y f t e m)
  greatest_upper s r f [] h m = elim m [ ]

  -- insertion sort
  abbrev pub insert : (R → R → Bool) → R → List R → List R
  insert le r [] = r ∷ []
  insert le r (s ∷ t) = if le r s then r ∷ s ∷ t else s ∷ insert le r t

  abbrev pub sort : (R → R → Bool) → List R → List R
  sort le [] = []
  sort le (r ∷ t) = insert le r (sort le t)

  Has-insert : (le : R → R → Bool) (a r : R) (t : List R) → Has a (insert le r t) ↔ Has a (r ∷ t)
  Has-insert le a r [] = ground arith
  Has-insert le a r (s ∷ t) = ground (arith, Has-insert le a r t)

  pub Has-sort : (le : R → R → Bool) (a : R) (t : List R) → Has a (sort le t) ↔ Has a t
  Has-sort le a [] = ground arith
  Has-sort le a (r ∷ t) = ground (arith, Has-sort le a t, Has-insert le a r (sort le t))

module _ {R : Type 0} (key : R → String) where
  abbrev pub get : String → List R → Option R
  get k [] = none
  get k (r ∷ t) = if key r == k then some r else get k t

  abbrev pub update : String → (R → R) → List R → List R
  update k f [] = []
  update k f (r ∷ t) = (if key r == k then f r else r) ∷ update k f t

  abbrev pub delete : String → List R → List R
  delete k [] = []
  delete k (r ∷ t) = if key r == k then delete k t else r ∷ delete k t

  abbrev pub delete_where : (R → Bool) → List R → List R
  delete_where p [] = []
  delete_where p (r ∷ t) =
      let rest = delete (key r) (delete_where p t) in if p r then rest else r ∷ rest

  abbrev pub select : (R → Bool) → List R → List R
  select p [] = []
  select p (r ∷ t) = let rest = delete (key r) (select p t) in if p r then r ∷ rest else rest

  pub get-update :
      (k j : String) (f : R → R) (t : List R)
      → ((r : R) → key (f r) ≡ key r)
      → get k (update j f t) ≡ (if j == k then Option.map f (get k t) else get k t)
  get-update k j f [] h = ground arith
  get-update k j f (r ∷ t) h = ground (
    arith,
    get-update k j f t h,
    h r,
    eq_iff (key r) j,
    eq_iff (key r) k,
    eq_iff j k,
    eq_iff (key (f r)) k,
  )

  pub get-delete :
      (k j : String) (t : List R) → get k (delete j t) ≡ (if j == k then none else get k t)
  get-delete k j [] = ground arith
  get-delete k j (r ∷ t) =
      ground (arith, get-delete k j t, eq_iff (key r) j, eq_iff (key r) k, eq_iff j k)

  pub get-delete_where :
      (k : String) (p : R → Bool) (t : List R) → get k (delete_where p t) ≡ keep_unless p (get k t)
  get-delete_where k p [] = refl
  get-delete_where k p (r ∷ t) =
      ground
        (arith, get-delete_where k p t, get-delete k (key r) (delete_where p t), eq_iff (key r) k)

  Has-delete :
      (r : R) (k : String) (t : List R) → Has r (delete k t) ↔ (Has r t × ((key r == k) ≡ false))
  Has-delete r k [] = ground arith
  Has-delete r k (s ∷ t) = ground (arith, Has-delete r k t)

  pub Has-select :
      (r : R) (p : R → Bool) (t : List R)
      → Has r (select p t) ↔ ((get (key r) t ≡ some r) × (p r ≡ true))
  Has-select r p [] = ground arith
  Has-select r p (s ∷ t) = ground (
    arith,
    Has-select r p t,
    Has-delete r (key s) (select p t),
    eq_iff (key s) (key r),
    eq_iff (key r) (key s),
  )

  pub key-get : (k : String) (r : R) (t : List R) → get k t ≡ some r → key r ≡ k
  key-get k r [] h = cc
  key-get k r (s ∷ t) h = ground (arith, key-get k r t, eq_iff (key s) k)

  abbrev pub first : (R → Bool) → List R → Option R
  first p t = head_of (select p t)

  pub first_sound :
      (r : R) (p : R → Bool) (t : List R)
      → first p t ≡ some r
      → (get (key r) t ≡ some r) × (p r ≡ true)
  first_sound r p t h = (Has-select r p t).0 (Has-of_head_of r (select p t) h)

  pub first_complete :
      (k : String) (r : R) (p : R → Bool) (t : List R)
      → first p t ≡ none
      → get k t ≡ some r
      → p r ≡ false
  first_complete k r p t h found = elim (Bool-cases (p r)) [
    | inr e ↦ e
    | inl e ↦
        let found' : get (key r) t ≡ some r = rw (key-get k r t found) found in
        absurd (not-Has_of_head_of r (select p t) h ((Has-select r p t).1 (found', e)))
  ]

  pub last_by_greatest :
      (k : String) (s r : R) (f : R → ℕ) (t : List R)
      → greatest f (select (λ _. true) t) ≡ some r
      → get k t ≡ some s
      → f s ≤ f r
  last_by_greatest k s r f t h found =
      let found' : get (key s) t ≡ some s = rw (key-get k s t found) found in
      greatest_upper s r f (select (λ _. true) t) h ((Has-select s (λ _. true) t).1 (found', refl))

instance abbrev pub memory : Dexie
memory = record {
  Table = λ R key. List R;
  get = λ {R} {key} k t. get key k t;
  put = λ {R} {key} r t. r ∷ t;
  add = λ {R} {key} r t. elim (get key (key r) t) [ none ↦ some (r ∷ t) | some _ ↦ none ];
  update = λ {R} {key} k f t. update key k f t;
  delete = λ {R} {key} k t. delete key k t;
  delete_where = λ {R} {key} p t. delete_where key p t;
  select = λ {R} {key} p t. select key p t;
  first = λ {R} {key} p t. first key p t;
  last_by = λ {R} {key} f t. greatest f (select key (λ _. true) t);
  sort_by = λ {R} f l. sort (λ a b. leb (f a) (f b)) l;
  sort_by_desc = λ {R} f l. sort (λ a b. leb (f b) (f a)) l;
  get-put = λ {R} {key} k r t. refl;
  add_fresh = λ {R} {key} r t h. rw h;
  add_taken = λ {R} {key} r s t h. rw h;
  get-update = λ {R} {key} k j f t h. get-update key k j f t h;
  get-delete = λ {R} {key} k j t. get-delete key k j t;
  get-delete_where = λ {R} {key} k p t. get-delete_where key k p t;
  Has-select = λ {R} {key} r p t. Has-select key r p t;
  first_sound = λ {R} {key} r p t h. first_sound key r p t h;
  first_complete = λ {R} {key} k r p t h found. first_complete key k r p t h found;
  last_by_sound = λ {R} {key} r f t h.
      ((Has-select key r (λ _. true) t).0 (Has-of_greatest r f (select key (λ _. true) t) h)).0;
  last_by_greatest = λ {R} {key} k s r f t h found. last_by_greatest key k s r f t h found;
  key-get = λ {R} {key} k r t h. key-get key k r t h;
  Has-sort_by = λ {R} r f l. Has-sort (λ a b. leb (f a) (f b)) r l;
  Has-sort_by_desc = λ {R} r f l. Has-sort (λ a b. leb (f b) (f a)) r l;
}
