-- ===== src/Workspace/Details/Sent.antt =====
-- When the page of a session sends a correction.
use mathlib.Core.Path.{subst}
use koranco.Base.{
  ℕ, String, ◌≤◌, ◌≡◌, refl, sym, ap, ◌∙◌, inl, inr, Bool, true, not, Option, none, some,
  Option-cases, Bool-cases, List, Has, Result, ok, err, eqb, ltb, truthy, trim, utf16_length,
  if_split, option_split, arith,
}
use koranco.Types.Server.{AttendanceSession}
use koranco.Session.{SessionState}
use koranco.Api.{ApiRequest}
use koranco.Api.Attendance.{correct_attendance}
use koranco.Workspace.Roster.{RosterItem}
use koranco.Workspace.Details.{
  Details, CorrectionForm, asked, correction_of, entry_of, version_of, entry_corrected, recorded,
  correct,
}

entry_of_lem :
    (o : Option String) (id : String) → entry_of o ≡ some id → (o ≡ some id) × (truthy id ≡ true)
unfolding entry_of
entry_of_lem none id h = absurd cc
entry_of_lem (some x) id h = elim (Bool-cases (truthy x)) [
  | inl given ↦
      let same : some x ≡ some id = rw given at h in
      let e : x ≡ id = cc in (same, ap truthy (sym e) ∙ given)
  | inr empty ↦ let no : none ≡ some id = rw empty at h in absurd cc
]

version_of_lem : (o : Option ℕ) (v : ℕ) → version_of o ≡ some v → (o ≡ some v) × (1 ≤ v)
unfolding version_of
version_of_lem none v h = absurd cc
version_of_lem (some x) v h = elim (Bool-cases (eqb x 0)) [
  | inl zero ↦ let no : none ≡ some v = rw zero at h in absurd cc
  | inr positive ↦
      let same : some x ≡ some v = rw positive at h in
      let e : x ≡ v = cc in (same, ground (arith, positive, e))
]

-- What a correction that is sent needs: an answer, a session, an entry of it with a version, and a
-- reason.
pub record IsComplete (confirmed : Bool) (client : SessionState) (f : CorrectionForm) (d : Details)
    (q : ApiRequest) : Type 0 where
  pub asked_first : confirmed ≡ true
  pub session : AttendanceSession
  pub is_open : d.page.session ≡ some session
  pub item : RosterItem
  pub is_corrected : d.correcting ≡ some item
  pub entry : String
  pub has_entry : (item.entry_id ≡ some entry) × (truthy entry ≡ true)
  pub version : ℕ
  pub has_version : (item.version ≡ some version) × (1 ≤ version)
  pub reasoned : 3 ≤ utf16_length (trim f.reason)
  pub request : correct_attendance session.id entry (correction_of f version) client ≡ ok q

entry_corrected_lem :
    (c : Option RosterItem) (p : String × ℕ)
    → entry_corrected c ≡ some p
    → (item : RosterItem) × (c ≡ some item)
      × ((item.entry_id ≡ some p.0) × (truthy p.0 ≡ true))
      × ((item.version ≡ some p.1) × (1 ≤ p.1))
entry_corrected_lem none p h = absurd cc
entry_corrected_lem (some item) p h = elim (Option-cases (entry_of item.entry_id)) [
  | inl missing ↦ let no : none ≡ some p = rw (missing, entry_corrected) at h in absurd cc
  | inr (id, has) ↦ elim (Option-cases (version_of item.version)) [
    | inl missing ↦ let no : none ≡ some p = rw (has, missing, entry_corrected) at h in absurd cc
    | inr (v, at) ↦
        let same : some (id, v) ≡ some p = rw (has, at, entry_corrected) at h in
        let e : p ≡ (id, v) = cc in
        (
          item,
          refl,
          entry_of_lem item.entry_id p.0 (has ∙ ap (λ (x : String × ℕ). some x.0) (sym e)),
          version_of_lem item.version p.1 (at ∙ ap (λ (x : String × ℕ). some x.1) (sym e)),
        )
  ]
]

recorded-sent :
    (d : Details) (r : Result (Option AttendanceSession) × List ApiRequest) → (recorded d r).1 ≡ r.1
recorded-sent d (err e, sent) = refl
recorded-sent d (ok none, sent) = refl
recorded-sent d (ok (some a), sent) = refl

asked-Has :
    {A : Type 0} (fetch : ApiRequest → Result A) (req : Result ApiRequest) (q : ApiRequest)
    → Has q (asked fetch req).1
    → req ≡ ok q
asked-Has fetch (err e) q m = elim m [ ]
asked-Has fetch (ok x) q (inl e) = ap ok (sym e)
asked-Has fetch (ok x) q (inr m) = elim m [ ]

-- A correction of a session is sent only when the user has confirmed it, for the session that is
-- open and the entry that is being corrected, which has an id and a version, and with a reason of at
-- least three units once its blanks are cut off; what is sent is the request of correctAttendance for
-- that session, entry and version, with the form's values and no times unless the status is present.
pub correct_sends :
    (confirmed : Bool) (client : SessionState)
    (fetch : ApiRequest → Result (Option AttendanceSession)) (f : CorrectionForm) (d : Details)
    (q : ApiRequest)
    → Has q (correct confirmed client fetch f d).1
    → IsComplete confirmed client f d q
unfolding correct
correct_sends confirmed client fetch f d q =
    option_split (λ (r : Details × List ApiRequest). Has q r.1 → IsComplete confirmed client f d q)
      d.page.session _ _ (λ h m. elim m [ ])
      (λ session is_open.
        option_split
          (λ (r : Details × List ApiRequest). Has q r.1 → IsComplete confirmed client f d q)
          (entry_corrected d.correcting) _ _ (λ h m. elim m [ ])
          (λ p found.
            if_split
              (λ (r : Details × List ApiRequest). Has q r.1 → IsComplete confirmed client f d q)
              (ltb (utf16_length (trim f.reason)) 3) _ _ (λ h m. elim m [ ])
              (λ long.
                if_split
                  (λ (r : Details × List ApiRequest). Has q r.1 → IsComplete confirmed client f d q)
                  (not confirmed) _ _ (λ h m. elim m [ ])
                  (λ yes m.
                    let (item, is_corrected, has_entry, has_version) =
                      entry_corrected_lem d.correcting p found in
                    record {
                      asked_first = ground arith;
                      session = session;
                      is_open = is_open;
                      item = item;
                      is_corrected = is_corrected;
                      entry = p.0;
                      has_entry = has_entry;
                      version = p.1;
                      has_version = has_version;
                      reasoned = ground (arith, long);
                      request =
                          asked-Has fetch
                            (correct_attendance session.id p.0 (correction_of f p.1) client) q
                            (subst (Has q) (recorded-sent d _) m);
                    }))))
