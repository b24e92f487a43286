-- ===== src/Offline/Attendance/Sound.antt =====
-- The invariant of the attendance stores, and what belongs to another owner.
use mathlib.Core.Option
use mathlib.Core.Path.{subst}
use koranco.Base.{
  String, ◌≡◌, ◌≢◌, refl, sym, ap, ◌∙◌, true, false, Option, none, some, ◌==◌, eq_iff, truthy,
  arith, Bool-cases, inl, inr,
}
use koranco.Dexie.{Dexie}
use koranco.Dexie.Laws.{get-update_view, get-update_ne}
use koranco.Types.Server.{Instant}
use koranco.Types.Local.{LocalAttendanceDraft, OutboxOperation}
use koranco.Offline.Db.{Db, draft_key}
use koranco.Offline.Attendance.{new_operation, waiting_draft, of_other}
use koranco.Offline.Attendance.Effects.{Effect, nothing, write, enqueued}

abbrev pub owner_of : LocalAttendanceDraft → String
owner_of d = d.owner_id

pub owner_of-some :
    (m : Option LocalAttendanceDraft) (w : String)
    → Option.map owner_of m ≡ some w
    → (x : LocalAttendanceDraft) × (m ≡ some x) × (x.owner_id ≡ w)
owner_of-some none w h = cc
owner_of-some (some x) w h = (x, refl, cc)

pub owners_follow :
    (m m' : Option LocalAttendanceDraft)
    → Option.map owner_of m' ≡ Option.map owner_of m
    → ((d : LocalAttendanceDraft) → m ≡ some d → truthy d.owner_id ≡ true)
    → (x : LocalAttendanceDraft) → m' ≡ some x
    → truthy x.owner_id ≡ true
owners_follow none m' e given x h = cc
owners_follow (some y) none e given x h = cc
owners_follow (some y) (some z) e given x h =
    let own : x.owner_id ≡ y.owner_id = cc in rw own (given y refl)

same_owner :
    (owner : String) (x : LocalAttendanceDraft)
    → of_other owner (some x) ≡ false
    → truthy x.owner_id ≡ true
    → x.owner_id ≡ owner
same_owner owner x free given = ground (arith, eq_iff x.owner_id owner)

module _ ⦃dexie : Dexie⦄ where
  -- Every draft has an owner; every operation is that of a draft of the same owner, under the payload's
  -- own identity; a draft has one operation at most.
  pub record IsSound (db : Db) : Type 0 where
    pub owners :
        (k : String) (d : LocalAttendanceDraft)
        → dexie.get k db.drafts ≡ some d
        → truthy d.owner_id ≡ true
    pub backed :
        (k : String) (o : OutboxOperation)
        → dexie.get k db.outbox ≡ some o
        → Option.map owner_of (dexie.get o.aggregate_id db.drafts) ≡ some o.owner_id
    pub addressed :
        (k : String) (o : OutboxOperation)
        → dexie.get k db.outbox ≡ some o
        → (o.payload.operation_id ≡ k) × (o.payload.target_session_id ≡ o.aggregate_id)
    pub single :
        (k j : String) (o p : OutboxOperation)
        → dexie.get k db.outbox ≡ some o
        → dexie.get j db.outbox ≡ some p
        → o.aggregate_id ≡ p.aggregate_id
        → k ≡ j

  -- Drafts with the same owners under the same ids.
  abbrev pub SameOwners : Db → Db → Type 0
  SameOwners db db' =
      (k : String)
      → Option.map owner_of (dexie.get k db'.drafts) ≡ Option.map owner_of (dexie.get k db.drafts)

  write-IsSound :
      (owner : String) (db : Db) (d : LocalAttendanceDraft)
      → truthy owner ≡ true
      → d.owner_id ≡ owner
      → of_other owner (dexie.get d.id db.drafts) ≡ false
      → IsSound db
      → IsSound (record db { drafts = dexie.put d db.drafts })
  write-IsSound owner db d given own free s = record {
    owners = λ k x. rw dexie.get-put (ground (arith, s.owners k x));
    backed = λ k o h. rw dexie.get-put (elim (Bool-cases (draft_key d == o.aggregate_id)) [
      | inl e ↦ rw e (
          ap some (own ∙ sym (taken o.aggregate_id o.owner_id ((eq_iff _ _).0 e) (s.backed k o h))))
      | inr e ↦ rw e (s.backed k o h)
    ]);
    addressed = s.addressed;
    single = s.single;
  }
    where
      taken :
          (k w : String)
          → d.id ≡ k
          → Option.map owner_of (dexie.get k db.drafts) ≡ some w
          → w ≡ owner
      taken k w e h =
          let (x, found, own_x) = owner_of-some (dexie.get k db.drafts) w h in
          sym own_x
          ∙ same_owner owner x
              (subst (λ m. of_other owner m ≡ false) found
                (subst (λ j. of_other owner (dexie.get j db.drafts) ≡ false) e free))
              (s.owners k x found)

  enqueued-IsSound :
      (owner id uuid : String) (now : Instant) (db : Db) (d : LocalAttendanceDraft)
      → dexie.get id db.drafts ≡ some d
      → d.owner_id ≡ owner
      → dexie.first (λ o. o.aggregate_id == id) db.outbox ≡ none
      → IsSound db
      → IsSound (record db {
        outbox = dexie.put (new_operation owner id uuid d now) db.outbox;
        drafts = dexie.update id (waiting_draft now) db.drafts;
      })
  unfolding new_operation waiting_draft
  enqueued-IsSound owner id uuid now db d found own none_yet s = record {
    owners = λ k x. owners_follow _ _ (owners_kept k) (s.owners k) x;
    backed = λ k o.
        rw (owners_kept o.aggregate_id)
          (rw dexie.get-put (ground (arith, found, own, s.backed k o)));
    addressed = λ k o. rw dexie.get-put (ground (arith, eq_iff uuid k, s.addressed k o));
    single = λ k j o p.
        rw (dexie.get-put k, dexie.get-put j)
          (ground (
            arith,
            eq_iff uuid k,
            eq_iff uuid j,
            s.single k j o p,
            other k o,
            other j p,
            eq_iff o.aggregate_id id,
            eq_iff p.aggregate_id id,
          ));
  }
    where
      owners_kept :
          (k : String)
          → Option.map owner_of (dexie.get k (dexie.update id (waiting_draft now) db.drafts))
            ≡ Option.map owner_of (dexie.get k db.drafts)
      owners_kept k = get-update_view owner_of _ (λ r. refl) k id db.drafts (λ r. refl)

      other :
          (k : String) (o : OutboxOperation)
          → dexie.get k db.outbox ≡ some o
          → (o.aggregate_id == id) ≡ false
      other k o h = dexie.first_complete k o _ db.outbox none_yet h

  -- Whatever a call does for a signed-in owner, the invariant holds afterwards.
  pub Effect-IsSound :
      (owner : String) (db db' : Db)
      → truthy owner ≡ true
      → Effect owner db db'
      → IsSound db
      → IsSound db'
  Effect-IsSound owner db db' given (nothing e) s = subst IsSound (sym e) s
  Effect-IsSound owner db db' given (write d own free e) s =
      subst IsSound (sym e) (write-IsSound owner db d given own free s)
  Effect-IsSound owner db db' given (enqueued id uuid now d found own fresh none_yet e) s =
      subst IsSound (sym e) (enqueued-IsSound owner id uuid now db d found own none_yet s)

  -- A row of another owner stays as it is.
  pub Effect-draft_of_other :
      (owner k : String) (db db' : Db) (d : LocalAttendanceDraft)
      → Effect owner db db'
      → IsSound db
      → d.owner_id ≢ owner
      → dexie.get k db.drafts ≡ some d
      → dexie.get k db'.drafts ≡ some d
  unfolding waiting_draft
  Effect-draft_of_other owner k db db' d (nothing e) s n h = rw e h
  Effect-draft_of_other owner k db db' d (write x own free e) s n h =
      rw (e, dexie.get-put)
        (elim (Bool-cases (draft_key x == k)) [
          | inl at ↦ absurd (n (same_owner owner d (taken ((eq_iff _ _).0 at)) (s.owners k d h)))
          | inr at ↦ rw at h
        ])
    where
      taken : x.id ≡ k → of_other owner (some d) ≡ false
      taken at =
          subst (λ m. of_other owner m ≡ false) h
            (subst (λ j. of_other owner (dexie.get j db.drafts) ≡ false) at free)
  Effect-draft_of_other owner k db db' d (enqueued id uuid now x found own fresh none_yet e) s n h =
      rw e (get-update_ne k id _ db.drafts (λ r. refl) (λ (at : id ≡ k). n (cc)) ∙ h)

  -- A call takes no operation away and changes none.
  pub Effect-operation :
      (owner k : String) (db db' : Db) (o : OutboxOperation)
      → Effect owner db db'
      → dexie.get k db.outbox ≡ some o
      → dexie.get k db'.outbox ≡ some o
  unfolding new_operation
  Effect-operation owner k db db' o (nothing e) h = rw e h
  Effect-operation owner k db db' o (write x own free e) h = rw e h
  Effect-operation owner k db db' o (enqueued id uuid now x found own fresh none_yet e) h =
      rw (e, dexie.get-put) (ground (arith, eq_iff uuid k))
