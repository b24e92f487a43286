-- ===== src/Background/Quiet.antt =====
-- The background syncs after a sign-out.
use koranco.Base.{◌≡◌, refl, true, none, some, List, [], ◌∷◌, All, if_split, arith, Result, ok, err}
use koranco.Types.Server.{AuthenticatedUser}
use koranco.Offline.Pending.{Counts}
use koranco.Background.{
  Phase, idle, asking, counting, syncing, recounting, Registrar, Event, wake, session_changed,
  answered, counted, synced, no_counts, after_answer, after_count, after_sync, try_sync, step,
  run_all,
}

-- A run has not got past its check of the session, or there is none.
abbrev pub IsEarly : Phase → Type 0
IsEarly idle = Unit
IsEarly asking = Unit
IsEarly _ = ⊥

abbrev pub NoSignIn : Event → Type 0
NoSignIn (session_changed (some _)) = ⊥
NoSignIn _ = Unit

pub record IsQuiet (r : Registrar) : Type 0 where
  pub out : r.signed_out ≡ true
  pub early : IsEarly r.phase
  pub empty : r.pending ≡ no_counts

after_answer-IsEarly :
    (a : Result AuthenticatedUser) (p : Phase) → IsEarly p → IsEarly (after_answer a true p)
after_answer-IsEarly (err e) idle h = tt
after_answer-IsEarly (ok u) idle h = tt
after_answer-IsEarly (err e) asking h = tt
after_answer-IsEarly (ok u) asking h = tt
after_answer-IsEarly a (counting o) h = absurd h
after_answer-IsEarly a (syncing o) h = absurd h
after_answer-IsEarly a (recounting o) h = absurd h

after_sync-IsEarly : (x : Result (Unit {0})) (p : Phase) → IsEarly p → IsEarly (after_sync x true p)
after_sync-IsEarly (err e) idle h = tt
after_sync-IsEarly (ok u) idle h = tt
after_sync-IsEarly (err e) asking h = tt
after_sync-IsEarly (ok u) asking h = tt
after_sync-IsEarly x (counting o) h = absurd h
after_sync-IsEarly x (syncing o) h = absurd h
after_sync-IsEarly x (recounting o) h = absurd h

after_count-early : (c : Counts) (p : Phase) (r : Registrar) → IsEarly p → after_count c p r ≡ r
after_count-early c idle r h = refl
after_count-early c asking r h = refl
after_count-early c (counting o) r h = absurd h
after_count-early c (syncing o) r h = absurd h
after_count-early c (recounting o) r h = absurd h

step-IsQuiet : (e : Event) (r : Registrar) → NoSignIn e → IsQuiet r → IsQuiet (step e r)
unfolding step try_sync
step-IsQuiet wake r h q =
    if_split IsQuiet r.signed_out _ _ (λ _. q) (λ other. absurd (ground (arith, q.out, other)))
step-IsQuiet (session_changed none) r h q = record { out = refl; early = q.early; empty = refl }
step-IsQuiet (session_changed (some u)) r h q = absurd h
step-IsQuiet (answered a) r h q = record {
  out = q.out;
  early = rw q.out (after_answer-IsEarly a r.phase q.early);
  empty = q.empty;
}
step-IsQuiet (counted c) r h q = rw (after_count-early c r.phase r q.early) q
step-IsQuiet (synced x) r h q = record {
  out = q.out;
  early = rw q.out (after_sync-IsEarly x r.phase q.early);
  empty = q.empty;
}

run_all-IsQuiet :
    (es : List Event) (r : Registrar) → All NoSignIn es → IsQuiet r → IsQuiet (run_all es r)
unfolding run_all
run_all-IsQuiet [] r h q = q
run_all-IsQuiet (e ∷ es) r h q = run_all-IsQuiet es (step e r) h.1 (step-IsQuiet e r h.0 q)

-- When a user signs out while no background run has got past its check of the session, the notice
-- shows nothing, and no run goes on to count or to sync, whatever comes after that, until a user is
-- signed in.
pub signed_out-IsQuiet :
    (es : List Event) (r : Registrar)
    → IsEarly r.phase
    → All NoSignIn es
    → IsQuiet (run_all (session_changed none ∷ es) r)
unfolding run_all step
signed_out-IsQuiet es r early h =
    run_all-IsQuiet es (step (session_changed none) r) h
      (record { out = refl; early = early; empty = refl })
