-- ===== src/Device/OnBehalf.antt =====
-- Sequences of events on behalf of one user.
use koranco.Base.{String, ◌≡◌, refl, sym, ap, ◌∙◌, List, [], ◌∷◌, ◌++◌, All}
use koranco.Dexie.{Dexie}
use koranco.Offline.Db.{Db}
use koranco.Device.{Event, actor, run, step}

module _ ⦃dexie : Dexie⦄ where
  -- `db'` comes of `db` by events on behalf of one user.
  abbrev pub ByUser : (id : String) (db db' : Db) → Type 0
  ByUser id db db' = (es : List Event) × All (λ e. actor e ≡ id) es × (db' ≡ run es db)

  pub none_done : (id : String) (db : Db) → ByUser id db db
  unfolding run
  none_done id db = ([], tt, refl)

  run_append : (es fs : List Event) (db : Db) → run (es ++ fs) db ≡ run fs (run es db)
  unfolding run
  run_append [] fs db = refl
  run_append (e ∷ es) fs db = run_append es fs (step e db)

  All-append :
      (id : String) (es fs : List Event)
      → All (λ e. actor e ≡ id) es
      → All (λ e. actor e ≡ id) fs
      → All (λ e. actor e ≡ id) (es ++ fs)
  All-append id [] fs a b = b
  All-append id (e ∷ es) fs (h, a) b = (h, All-append id es fs a b)

  pub then_done :
      (id : String) (db db' db'' : Db) → ByUser id db db' → ByUser id db' db'' → ByUser id db db''
  then_done id db db' db'' (es, a, e) (fs, b, f) =
      (es ++ fs, All-append id es fs a b, f ∙ ap (run fs) e ∙ sym (run_append es fs db))

  pub one_done : (id : String) (e : Event) (db : Db) → actor e ≡ id → ByUser id db (step e db)
  unfolding run
  one_done id e db a = (e ∷ [], (a, tt), refl)
