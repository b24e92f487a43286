-- ===== src/SignOut.antt =====
-- `handleSignOut` of components/shells/account-menu.tsx.
pub mod Kept
use koranco.Base.{
  ℕ, String, Bool, true, false, not, ◌&&◌, Option, none, some, eqb, if◌then◌else◌, Result, ok, err,
  Failure, api_error,
}
use koranco.Dexie.{Dexie}
use koranco.Client.{Fetched}
use koranco.Session.{SessionState, logout}
use koranco.Offline.Db.{Db}
use koranco.Offline.Lease.{suspend_offline_lease}
use koranco.Offline.Pending.{has_pending_for_owner}

-- `replaced_by` is the page that the router was sent to.
pub record Menu : Type 0 where
  pub pending : Bool
  pub error_text : String
  pub replaced_by : Option String

abbrev pub sign_out_failure : Failure → String
sign_out_failure (api_error _ status) =
    if eqb status 403
    then "The server rejected the sign-out security check. Your session is still active. Refresh the page and try again."
    else "Koranco could not sign you out. Your session is still active. Check your connection and try again."
sign_out_failure _ =
    "Koranco could not sign you out. Your session is still active. Check your connection and try again."

module _ ⦃dexie : Dexie⦄ where
  -- `reloaded` says whether the module of the database could be imported again.
  abbrev pub signed_out :
      (reloaded : Bool)
      → (user_id : String) → Menu
      → Db
      → Result (Unit {0}) × SessionState
      → Menu × SessionState × Db
  signed_out reloaded user_id m db (err e, s) =
      (record m { pending = false; error_text = sign_out_failure e }, s, db)
  signed_out reloaded user_id m db (ok _, s) = (
    record m { pending = true; error_text = ""; replaced_by = some "/login" },
    s,
    if reloaded then suspend_offline_lease user_id db else db,
  )

  -- `loaded` says whether the module of the database could be imported, and `confirmed` is the answer
  -- to the question that the browser asks.
  unfoldable pub sign_out :
      (loaded confirmed reloaded timed_out : Bool)
      → Fetched (Unit {0})
      → (user_id : String) → Menu
      → SessionState
      → Db
      → Menu × SessionState × Db
  sign_out loaded confirmed reloaded timed_out fetched user_id m s db =
      if m.pending
      then (m, s, db)
      else if not loaded
      then (
        record m {
          error_text =
              "Sign-out was not attempted because this device could not check for unsynced work. Try again.";
        },
        s,
        db,
      )
      else if has_pending_for_owner user_id db && not confirmed
      then (record m { error_text = "" }, s, db)
      else signed_out reloaded user_id m db (logout timed_out fetched s)
