-- ===== src/Session.antt =====
-- lib/api/auth.ts: the client's session in memory, its CSRF token, and the calls that change it.
pub mod Coherent
pub mod Listeners
use koranco.Base.{
  ℕ, String, Bool, true, false, ◌||◌, Option, none, some, List, ◌∷◌, [], eqb, truthy, if◌then◌else◌,
  Result, ok, err, Failure, api_error,
}
use koranco.Dexie.{Dexie}
use koranco.Client.{Headers, Fetched, aborted, api_request, defined}
use koranco.Types.Server.{Instant, AuthenticatedUser}
use koranco.Offline.Db.{Db}
use koranco.Offline.Lease.{includes, record_offline_lease}

-- `undefined` before the first check, `null` when signed out.
pub data ClientSession : Type 0 where
  unknown signed_out : ClientSession
  signed_in : AuthenticatedUser → ClientSession

-- The module's variables. A listener is known by a number; `heard` is what each was called with, the
-- latest first.
pub record SessionState : Type 0 where
  pub csrf_token : String
  pub client_session : ClientSession
  pub listeners : List ℕ
  pub heard : List (ℕ × Option AuthenticatedUser)

pub record SessionResponse : Type 0 where
  pub user : AuthenticatedUser
  pub csrf_token : String

abbrev pub initial : SessionState
initial = record { csrf_token = ""; client_session = unknown; listeners = []; heard = [] }

-- `sessionListeners.forEach((listener) => listener(user))`
unfoldable pub notify :
    Option AuthenticatedUser
    → List ℕ
    → List (ℕ × Option AuthenticatedUser)
    → List (ℕ × Option AuthenticatedUser)
notify user [] heard = heard
notify user (l ∷ ls) heard = notify user ls ((l, user) ∷ heard)

unfoldable pub update_authenticated_client_session :
    SessionResponse → SessionState → AuthenticatedUser × SessionState
unfolding notify
update_authenticated_client_session r s = (
  r.user,
  record s {
    csrf_token = r.csrf_token;
    client_session = signed_in r.user;
    heard = notify (some r.user) s.listeners s.heard;
  },
)

unfoldable pub clear_authenticated_client_session : SessionState → SessionState
unfolding notify
clear_authenticated_client_session s = record s {
  csrf_token = "";
  client_session = signed_out;
  heard = notify none s.listeners s.heard;
}

-- A set: adding a listener twice adds it once.
unfoldable pub has_listener : ℕ → List ℕ → Bool
has_listener l [] = false
has_listener l (x ∷ xs) = eqb x l || has_listener l xs

unfoldable pub without_listener : ℕ → List ℕ → List ℕ
without_listener l [] = []
without_listener l (x ∷ xs) = if eqb x l then without_listener l xs else x ∷ without_listener l xs

unfoldable pub add_listener : ℕ → List ℕ → List ℕ
unfolding has_listener
add_listener l [] = l ∷ []
add_listener l (x ∷ xs) = if eqb x l then x ∷ xs else x ∷ add_listener l xs

unfoldable pub subscribe_to_client_session : ℕ → SessionState → SessionState
unfolding add_listener
subscribe_to_client_session l s = record s { listeners = add_listener l s.listeners }

unfoldable pub unsubscribe : ℕ → SessionState → SessionState
unfolding without_listener
unsubscribe l s = record s { listeners = without_listener l s.listeners }

abbrev pub no_token : Failure
no_token =
    api_error
      "The security token for this session is unavailable. Verify the session and try again." 0

unfoldable pub csrf_headers : SessionState → Result Headers
csrf_headers s =
    if truthy s.csrf_token then ok (("X-CSRF-Token", s.csrf_token) ∷ []) else err no_token

abbrev pub is_unauthorized : Failure → Bool
is_unauthorized (api_error _ status) = eqb status 401
is_unauthorized _ = false

-- What `logout` throws for a failed request: an abort by its own timer is reported as a timeout.
abbrev pub logout_failure : (timed_out : Bool) → {A : Type 0} → Fetched A → Failure → Failure
logout_failure true aborted e = api_error "The sign-out request timed out. Try again." 0
logout_failure _ _ e = e

module _ ⦃dexie : Dexie⦄ where
  -- The dynamic import stands for the database of this device; there is a window.
  unfoldable pub preserve_offline_authorization : AuthenticatedUser → Instant → Db → Db
  preserve_offline_authorization user now db =
      if includes user.permissions "attendance.record" || includes user.permissions "harvest.record"
      then record_offline_lease user now db
      else db

  abbrev pub Signed : Type 0
  Signed = Result AuthenticatedUser × SessionState × Db

  accept : SessionResponse → Instant → SessionState → Db → Signed
  unfolding update_authenticated_client_session preserve_offline_authorization
  accept r now s db =
      let (user, s') = update_authenticated_client_session r s in
      (ok user, s', preserve_offline_authorization user now db)

  unfoldable pub login : Fetched SessionResponse → Instant → SessionState → Db → Signed
  unfolding accept
  login fetched now s db = elim (defined (api_request fetched)) [
    | ok r ↦ accept r now s db
    | err e ↦ (err e, s, db)
  ]

  unfoldable pub get_current_session :
      Fetched SessionResponse → Instant → SessionState → Db → Signed
  unfolding accept clear_authenticated_client_session
  get_current_session fetched now s db = elim (defined (api_request fetched)) [
    | ok r ↦ accept r now s db
    | err e ↦ (err e, if is_unauthorized e then clear_authenticated_client_session s else s, db)
  ]

unfoldable pub logout :
    (timed_out : Bool) → Fetched (Unit {0}) → SessionState → Result (Unit {0}) × SessionState
unfolding csrf_headers clear_authenticated_client_session
logout timed_out fetched s = elim (csrf_headers s) [
  | err e ↦ (err e, s)
  | ok _ ↦ elim (api_request fetched) [
    | ok _ ↦ (ok tt, clear_authenticated_client_session s)
    | err e ↦ (err (logout_failure timed_out fetched e), s)
  ]
]
