-- ===== src/SignOut/Kept.antt =====
-- What a sign-out leaves on the device.
use koranco.Base.{
  String, ◌≡◌, ◌⊎◌, refl, sym, inl, inr, Bool, true, false, not, ◌&&◌, Option, none, some, truthy,
  if_split, if_either, arith,
}
use koranco.Dexie.{Dexie}
use koranco.Types.Server.{Instant}
use koranco.Types.Local.{OfflineLease}
use koranco.Client.{Fetched}
use koranco.Session.{SessionState, logout, clear_authenticated_client_session}
use koranco.Session.Coherent.{logout_outcome}
use koranco.Offline.Db.{Db}
use koranco.Offline.Lease.{Domain, suspend_found, suspend_offline_lease, valid_offline_lease}
use koranco.Offline.Lease.Validity.{valid_offline_lease-suspend}
use koranco.Offline.Pending.{has_pending_for_owner}
use koranco.SignOut.{Menu, signed_out, sign_out}

module _ ⦃dexie : Dexie⦄ where
  -- All work on the device is as it was.
  pub record SameWork (db db' : Db) : Type 0 where
    pub drafts_same : db'.drafts ≡ db.drafts
    pub outbox_same : db'.outbox ≡ db.outbox
    pub harvest_drafts_same : db'.harvest_drafts ≡ db.harvest_drafts
    pub harvest_outbox_same : db'.harvest_outbox ≡ db.harvest_outbox

  same_work : (db : Db) → SameWork db db
  same_work db = record {
    drafts_same = refl;
    outbox_same = refl;
    harvest_drafts_same = refl;
    harvest_outbox_same = refl;
  }

  suspend_found-SameWork : (l : Option OfflineLease) (db : Db) → SameWork db (suspend_found l db)
  unfolding suspend_found
  suspend_found-SameWork none db = same_work db
  suspend_found-SameWork (some l) db = record {
    drafts_same = refl;
    outbox_same = refl;
    harvest_drafts_same = refl;
    harvest_outbox_same = refl;
  }

  -- The user is out: he was asked if work of his waits, the work stays, and his lease is no use.
  pub record IsOut (confirmed reloaded : Bool) (user_id : String) (s : SessionState) (db : Db)
      (r : Menu × SessionState × Db) : Type 0 where
    pub sent : r.0.replaced_by ≡ some "/login"
    pub asked_first : has_pending_for_owner user_id db ≡ true → confirmed ≡ true
    pub session_cleared : r.1 ≡ clear_authenticated_client_session s
    pub work_same : SameWork db r.2
    pub locked :
        reloaded ≡ true
        → (domain : Domain) (now : Instant)
        → valid_offline_lease (some user_id) domain now r.2 ≡ none

  -- Nothing has happened but on the menu.
  abbrev pub IsStill : Menu → SessionState → Db → Menu × SessionState × Db → Type 0
  IsStill m s db r =
      (r.0.replaced_by ≡ m.replaced_by) × (r.0.pending ≡ m.pending) × (r.1 ≡ s) × (r.2 ≡ db)

  abbrev Outcome :
      Bool → Bool → String → Menu → SessionState → Db → Menu × SessionState × Db → Type 0
  Outcome confirmed reloaded user_id m s db r =
      IsOut confirmed reloaded user_id s db r ⊎ IsStill m s db r

  signed_out-Outcome :
      (confirmed reloaded timed_out : Bool) (fetched : Fetched (Unit {0})) (user_id : String)
      (m : Menu) (s : SessionState) (db : Db)
      → truthy user_id ≡ true
      → m.pending ≡ false
      → (has_pending_for_owner user_id db && not confirmed) ≡ false
      → Outcome confirmed reloaded user_id m s db
          (signed_out reloaded user_id m db (logout timed_out fetched s))
  unfolding suspend_offline_lease
  signed_out-Outcome confirmed reloaded timed_out fetched user_id m s db given idle asked =
      elim (logout_outcome timed_out timed_out fetched fetched s) [
        | inr (e, failed) ↦ inr (rw failed (refl, sym idle, refl, refl))
        | inl (done, _) ↦ inl (
            rw done (record {
              sent = refl;
              asked_first = λ work. ground arith;
              session_cleared = refl;
              work_same =
                  if_either (SameWork db) reloaded (suspend_offline_lease user_id db) db
                    (suspend_found-SameWork _ db) (same_work db);
              locked = λ again domain now.
                  rw again (valid_offline_lease-suspend user_id domain now db given);
            }))
      ]

  -- A menu that is not signing out already, for a user with an id, signs out, whatever the server, the
  -- browser and the user answer. Either the user is out: if an operation of his waits on the device he
  -- was asked first, the session is cleared, the drafts and operations of every user are still there,
  -- and, if the module of the database could be imported again, his lease authorizes no domain at any
  -- time. Or he is not: then the session and the stores are as before, and he can try again.
  pub sign_out_outcome :
      (loaded confirmed reloaded timed_out : Bool) (fetched : Fetched (Unit {0})) (user_id : String)
      (m : Menu) (s : SessionState) (db : Db)
      → truthy user_id ≡ true
      → m.pending ≡ false
      → IsOut confirmed reloaded user_id s db
          (sign_out loaded confirmed reloaded timed_out fetched user_id m s db)
        ⊎ IsStill m s db (sign_out loaded confirmed reloaded timed_out fetched user_id m s db)
  unfolding sign_out
  sign_out_outcome loaded confirmed reloaded timed_out fetched user_id m s db given idle =
      let P = Outcome confirmed reloaded user_id m s db in
      if_split P m.pending _ _ (λ busy. absurd (ground (arith, busy, idle)))
        (λ _.
          if_split P (not loaded) _ _ (λ _. inr (refl, refl, refl, refl))
            (λ _.
              if_split P (has_pending_for_owner user_id db && not confirmed) _ _
                (λ _. inr (refl, refl, refl, refl))
                (λ asked.
                  signed_out-Outcome confirmed reloaded timed_out fetched user_id m s db given idle
                    asked)))
