-- ===== src/Session/Coherent.antt =====
-- The client session through any sequence of calls.
use koranco.Base.{
  ℕ, ◌≡◌, ◌⊎◌, refl, Bool, true, false, ◌||◌, List, [], ◌∷◌, truthy, ok, err, Result-cases, Failure,
  if◌then◌else◌, Bool-cases, inl, inr,
}
use koranco.Dexie.{Dexie}
use koranco.Client.{Fetched, api_request, defined}
use koranco.Types.Server.{Instant}
use koranco.Offline.Db.{Db}
use koranco.Offline.Lease.{includes, record_offline_lease}
use koranco.Session.{
  ClientSession, signed_in, SessionState, SessionResponse, login, get_current_session, logout,
  logout_failure, csrf_headers, no_token, subscribe_to_client_session, unsubscribe,
  clear_authenticated_client_session, update_authenticated_client_session, is_unauthorized, accept,
  preserve_offline_authorization, Signed,
}

-- The calls on the session.
pub data Call : Type 0 where
  sign_in check : Fetched SessionResponse → Instant → Call
  sign_out : (timed_out : Bool) → Fetched (Unit {0}) → Call
  subscribe leave : ℕ → Call
  clear : Call

abbrev pub is_signed_in : ClientSession → Bool
is_signed_in (signed_in user) = true
is_signed_in _ = false

-- A security token is held only for a signed-in user.
abbrev pub IsCoherent : SessionState → Type 0
IsCoherent s = truthy s.csrf_token ≡ true → is_signed_in s.client_session ≡ true

cleared-IsCoherent : (s : SessionState) → IsCoherent (clear_authenticated_client_session s)
unfolding clear_authenticated_client_session
cleared-IsCoherent s h = cc

logout-IsCoherent :
    (timed_out : Bool) (fetched : Fetched (Unit {0})) (s : SessionState)
    → IsCoherent s
    → IsCoherent (logout timed_out fetched s).1
unfolding logout
logout-IsCoherent timed_out fetched s h = elim (Result-cases (csrf_headers s)) [
  | inr (e, none_held) ↦ rw (none_held, logout) h
  | inl (headers, held) ↦ elim (Result-cases (api_request fetched)) [
    | inr (e, failed) ↦ rw (held, logout, failed) h
    | inl (a, done) ↦ rw (held, logout, done) (cleared-IsCoherent s)
  ]
]

cleared_if-IsCoherent :
    (b : Bool) (s : SessionState)
    → IsCoherent s
    → IsCoherent (if b then clear_authenticated_client_session s else s)
cleared_if-IsCoherent true s h = cleared-IsCoherent s
cleared_if-IsCoherent false s h = h

-- Without a security token a sign-out fails before anything is sent, and changes nothing.
logout_refused :
    (timed_out : Bool) (fetched : Fetched (Unit {0})) (s : SessionState)
    → truthy s.csrf_token ≡ false
    → logout timed_out fetched s ≡ (err no_token, s)
unfolding logout csrf_headers
logout_refused timed_out fetched s h = rw (h, logout) refl

logout_held :
    (timed_out : Bool) (fetched : Fetched (Unit {0})) (s : SessionState)
    → truthy s.csrf_token ≡ true
    → logout timed_out fetched s ≡ (elim (api_request fetched) [
      | ok _ ↦ (ok tt, clear_authenticated_client_session s)
      | err e ↦ (err (logout_failure timed_out fetched e), s)
    ])
unfolding logout csrf_headers
logout_held timed_out fetched s h = rw (h, logout) refl

-- A sign-out that the server accepts leaves no user and no token, so that a second one is refused
-- before anything is sent; any other sign-out leaves the session as it was.
pub logout_outcome :
    (timed_out timed_out' : Bool) (fetched fetched' : Fetched (Unit {0})) (s : SessionState)
    → ((logout timed_out fetched s ≡ (ok tt, clear_authenticated_client_session s))
        × (logout timed_out' fetched' (logout timed_out fetched s).1
            ≡ (err no_token, clear_authenticated_client_session s)))
      ⊎ ((e : Failure) × (logout timed_out fetched s ≡ (err e, s)))
logout_outcome timed_out timed_out' fetched fetched' s = elim (Bool-cases (truthy s.csrf_token)) [
  | inr h ↦ inr (no_token, logout_refused timed_out fetched s h)
  | inl h ↦ elim (Result-cases (api_request fetched)) [
    | inr (e, failed) ↦
        inr (logout_failure timed_out fetched e, rw (logout_held timed_out fetched s h, failed))
    | inl (a, done) ↦
        let gone : logout timed_out fetched s ≡ (ok tt, clear_authenticated_client_session s) =
          rw (logout_held timed_out fetched s h, done) in
        inl (
          gone,
          rw gone (
              logout_refused timed_out' fetched' _
                (unfold clear_authenticated_client_session in refl)),
        )
  ]
]

module _ ⦃dexie : Dexie⦄ where
  unfoldable pub call : Call → SessionState × Db → SessionState × Db
  unfolding login get_current_session logout subscribe_to_client_session unsubscribe
      clear_authenticated_client_session
  call (sign_in fetched now) (s, db) = let r = login fetched now s db in (r.1, r.2)
  call (check fetched now) (s, db) = let r = get_current_session fetched now s db in (r.1, r.2)
  call (sign_out timed_out fetched) (s, db) = ((logout timed_out fetched s).1, db)
  call (subscribe l) (s, db) = (subscribe_to_client_session l s, db)
  call (leave l) (s, db) = (unsubscribe l s, db)
  call clear (s, db) = (clear_authenticated_client_session s, db)

  unfoldable pub calls : List Call → SessionState × Db → SessionState × Db
  unfolding call
  calls [] x = x
  calls (c ∷ cs) x = calls cs (call c x)

  -- What a request for the session that succeeds does: the user and the token are those of the
  -- response, and a lease is recorded for a user who may capture offline.
  abbrev pub Accepted : SessionResponse → Instant → SessionState → Db → Signed → Type 0
  Accepted r now s db (result, s', db') =
      (result ≡ ok r.user)
      × (s'.client_session ≡ signed_in r.user)
      × (s'.csrf_token ≡ r.csrf_token)
      × (s'.listeners ≡ s.listeners)
      × (db' ≡ (
          if includes r.user.permissions "attendance.record"
            || includes r.user.permissions "harvest.record"
          then record_offline_lease r.user now db
          else db))

  accept_lem :
      (r : SessionResponse) (now : Instant) (s : SessionState) (db : Db)
      → Accepted r now s db (accept r now s db)
  unfolding accept update_authenticated_client_session preserve_offline_authorization
  accept_lem r now s db = (refl, refl, refl, refl, refl)

  login_ok :
      (fetched : Fetched SessionResponse) (r : SessionResponse) (now : Instant) (s : SessionState)
      (db : Db)
      → defined (api_request fetched) ≡ ok r
      → login fetched now s db ≡ accept r now s db
  unfolding login accept
  login_ok fetched r now s db e = rw (e, login)

  login_err :
      (fetched : Fetched SessionResponse) (e : Failure) (now : Instant) (s : SessionState) (db : Db)
      → defined (api_request fetched) ≡ err e
      → login fetched now s db ≡ (err e, s, db)
  unfolding login
  login_err fetched e now s db failed = rw (failed, login)

  check_ok :
      (fetched : Fetched SessionResponse) (r : SessionResponse) (now : Instant) (s : SessionState)
      (db : Db)
      → defined (api_request fetched) ≡ ok r
      → get_current_session fetched now s db ≡ accept r now s db
  unfolding get_current_session accept
  check_ok fetched r now s db e = rw (e, get_current_session)

  check_err :
      (fetched : Fetched SessionResponse) (e : Failure) (now : Instant) (s : SessionState) (db : Db)
      → defined (api_request fetched) ≡ err e
      → get_current_session fetched now s db
        ≡ (err e, (if is_unauthorized e then clear_authenticated_client_session s else s), db)
  unfolding get_current_session clear_authenticated_client_session
  check_err fetched e now s db failed = rw (failed, get_current_session)

  call-IsCoherent :
      (c : Call) (s : SessionState) (db : Db) → IsCoherent s → IsCoherent (call c (s, db)).0
  unfolding call accept update_authenticated_client_session
  call-IsCoherent (sign_in fetched now) s db h =
      elim (Result-cases (defined (api_request fetched))) [
        | inl (r, e) ↦ rw (login_ok fetched r now s db e) (λ t. refl)
        | inr (f, e) ↦ rw (login_err fetched f now s db e) h
      ]
  call-IsCoherent (check fetched now) s db h = elim (Result-cases (defined (api_request fetched))) [
    | inl (r, e) ↦ rw (check_ok fetched r now s db e) (λ t. refl)
    | inr (f, e) ↦
        rw (check_err fetched f now s db e) (cleared_if-IsCoherent (is_unauthorized f) s h)
  ]
  call-IsCoherent (sign_out timed_out fetched) s db h = logout-IsCoherent timed_out fetched s h
  call-IsCoherent (subscribe l) s db h = unfold subscribe_to_client_session in h
  call-IsCoherent (leave l) s db h = unfold unsubscribe in h
  call-IsCoherent clear s db h = cleared-IsCoherent s

  -- From a coherent session, any sequence of calls on it keeps the security token only while a
  -- user is signed in.
  pub calls-IsCoherent :
      (cs : List Call) (s : SessionState) (db : Db) → IsCoherent s → IsCoherent (calls cs (s, db)).0
  unfolding calls
  calls-IsCoherent [] s db h = h
  calls-IsCoherent (c ∷ cs) s db h =
      calls-IsCoherent cs (call c (s, db)).0 (call c (s, db)).1 (call-IsCoherent c s db h)

  -- A check of the session that fails clears the session and the token for the status 401 and
  -- leaves them otherwise; a sign-in that fails changes nothing. Both throw what the request
  -- threw, and neither touches the database.
  pub check_failed :
      (fetched : Fetched SessionResponse) (e : Failure) (now : Instant) (s : SessionState) (db : Db)
      → defined (api_request fetched) ≡ err e
      → (get_current_session fetched now s db
          ≡ (err e, (if is_unauthorized e then clear_authenticated_client_session s else s), db))
        × (login fetched now s db ≡ (err e, s, db))
  check_failed fetched e now s db failed =
      (check_err fetched e now s db failed, login_err fetched e now s db failed)

  -- When the request succeeds, a sign-in takes the user and the token of the response, keeps the
  -- listeners, and records a lease exactly for a user who may record attendance or harvest; a
  -- check of the session does the same.
  pub signed_in_alike :
      (fetched : Fetched SessionResponse) (r : SessionResponse) (now : Instant) (s : SessionState)
      (db : Db)
      → defined (api_request fetched) ≡ ok r
      → Accepted r now s db (login fetched now s db)
        × (get_current_session fetched now s db ≡ login fetched now s db)
  signed_in_alike fetched r now s db e =
      rw (login_ok fetched r now s db e, check_ok fetched r now s db e)
        (accept_lem r now s db, refl)
