-- ===== src/Background.antt =====
-- The component PwaRegistrar of components/pwa-registrar.tsx: syncs in the background, and the hold on
-- updates of the application. What happens between two awaits is one step.
pub mod Quiet
pub mod Updates
pub mod Together
use koranco.Base.{
  ℕ, String, Bool, true, false, Option, none, some, List, [], ◌∷◌, if◌then◌else◌, Result, ok, err,
}
use koranco.Dexie.{Dexie}
use koranco.Types.Server.{AuthenticatedUser}
use koranco.Offline.Db.{Db}
use koranco.Offline.Pending.{Counts, has_any_pending_work}

-- What the run of `trySync` that is active waits for.
pub data Phase : Type 0 where
  idle asking : Phase
  counting syncing recounting : (owner : String) → Phase

pub record Registrar : Type 0 where
  pub signed_out : Bool
  pub phase : Phase
  pub pending : Counts
  pub update_held : Bool

-- `wake` is the start of the page, a connection that is back, or a page that becomes visible. The other
-- events are a change of the session in memory and the ends of getCurrentSession, pendingCounts and the
-- two syncs.
pub data Event : Type 0 where
  wake : Event
  session_changed : Option AuthenticatedUser → Event
  answered : Result AuthenticatedUser → Event
  counted : Counts → Event
  synced : Result (Unit {0}) → Event

abbrev pub no_counts : Counts
no_counts = record { attendance = 0; harvest = 0; total = 0 }

abbrev pub begun : Phase → Phase
begun idle = asking
begun p = p

unfoldable pub try_sync : Registrar → Registrar
try_sync r = if r.signed_out then r else record r { phase = begun r.phase }

abbrev pub after_answer : Result AuthenticatedUser → Bool → Phase → Phase
after_answer (err _) signed_out asking = idle
after_answer (ok user) signed_out asking = if signed_out then idle else counting user.id
after_answer _ _ p = p

abbrev pub after_count : Counts → Phase → Registrar → Registrar
after_count c (counting owner) r = record r { pending = c; phase = syncing owner }
after_count c (recounting owner) r = record r { pending = c; phase = idle }
after_count c _ r = r

abbrev pub after_sync : Result (Unit {0}) → Bool → Phase → Phase
after_sync (err _) signed_out (syncing owner) = idle
after_sync (ok _) signed_out (syncing owner) = if signed_out then idle else recounting owner
after_sync _ _ p = p

unfoldable pub step : Event → Registrar → Registrar
unfolding try_sync
step wake r = try_sync r
step (session_changed none) r = record r { signed_out = true; pending = no_counts }
step (session_changed (some _)) r = try_sync (record r { signed_out = false })
step (answered a) r = record r { phase = after_answer a r.signed_out r.phase }
step (counted c) r = after_count c r.phase r
step (synced x) r = record r { phase = after_sync x r.signed_out r.phase }

unfoldable pub run_all : List Event → Registrar → Registrar
run_all [] r = r
run_all (e ∷ es) r = run_all es (step e r)

module _ ⦃dexie : Dexie⦄ where
  -- `considerUpdate`; the Boolean says whether the waiting worker is told to take over.
  unfoldable pub consider_update : (waiting : Bool) → Db → Registrar → Registrar × Bool
  consider_update waiting db r =
      if waiting
      then (if has_any_pending_work db then (record r { update_held = true }, false) else (r, true))
      else (r, false)
