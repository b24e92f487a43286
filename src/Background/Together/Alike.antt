-- ===== src/Background/Together/Alike.antt =====
-- The syncs that run at once in components/pwa-registrar.tsx, compared with one after the other.
use mathlib.Core.Path.{subst}
use koranco.Base.{
  ℕ, zero, suc, ◌-◌, ◌≤◌, length, arith, String, ◌≡◌, refl, sym, ap, ◌∙◌, Bool, true, false, List,
  [], ◌∷◌,
}
use koranco.Dexie.{Dexie}
use koranco.Types.Server.{AttendanceSession, HarvestRecord}
use koranco.Types.Local.{OutboxOperation, HarvestOutboxOperation}
use koranco.Offline.Db.{Db}
use koranco.Sync.Answers.{SyncOutcome, Answer}
use koranco.Sync.Attendance as A
use koranco.Sync.Harvest as H
use koranco.Background.Together.{
  Task, running, ended, left, turns, mix, attendance_tick, harvest_tick, together, attendance_end,
  harvest_end, attendance_tick_end, harvest_tick_end, left-attendance_tick, left-harvest_tick,
  attendance_tick-mix, harvest_tick-mix,
}

triple :
    {X Y Z : Type 0} {x x' : X} {y y' : Y} {z z' : Z}
    → x ≡ x'
    → y ≡ y'
    → z ≡ z'
    → ◌≡◌ {A = X × Y × Z} (x, y, z) (x', y', z')
triple p q s = cc

module _ ⦃dexie : Dexie⦄ where
  module _ (sa : OutboxOperation → Answer AttendanceSession)
      (sh : HarvestOutboxOperation → Answer HarvestRecord) where
    -- Where a schedule leads from stores `a` and `h`.
    record Reached (ta : Task OutboxOperation) (th : Task HarvestOutboxOperation) (a h : Db)
        (m n : ℕ) (r : Task OutboxOperation × Task HarvestOutboxOperation × Db) : Type 0 where
      attendance_store : Db
      harvest_store : Db
      stores : r.2 ≡ mix attendance_store harvest_store
      attendance_same : attendance_end sa sh r.0 attendance_store ≡ attendance_end sa sh ta a
      harvest_same : harvest_end sa sh r.1 harvest_store ≡ harvest_end sa sh th h
      attendance_left : left r.0 ≤ left ta - m
      harvest_left : left r.1 ≤ left th - n

    together-Reached :
        (bs : List Bool) (ta : Task OutboxOperation) (th : Task HarvestOutboxOperation) (a h : Db)
        → Reached ta th a h (turns true bs) (turns false bs) (together sa sh bs ta th (mix a h))
    unfolding together
    together-Reached [] ta th a h = record {
      attendance_store = a;
      harvest_store = h;
      stores = refl;
      attendance_same = refl;
      harvest_same = refl;
      attendance_left = omega arith;
      harvest_left = omega arith;
    }
    together-Reached (true ∷ bs) ta th a h =
        let r =
          together-Reached bs (attendance_tick sa sh ta a).0 th (attendance_tick sa sh ta a).1 h in
        subst
          (λ x.
            Reached ta th a h (suc (turns true bs)) (turns false bs) (together sa sh bs x.0 th x.1))
          (sym (attendance_tick-mix sa sh ta a h))
          (record {
            attendance_store = r.attendance_store;
            harvest_store = r.harvest_store;
            stores = r.stores;
            attendance_same = r.attendance_same ∙ attendance_tick_end sa sh ta a;
            harvest_same = r.harvest_same;
            attendance_left = omega (arith, r.attendance_left, left-attendance_tick sa sh ta a);
            harvest_left = r.harvest_left;
          })
    together-Reached (false ∷ bs) ta th a h =
        let r = together-Reached bs ta (harvest_tick sa sh th h).0 a (harvest_tick sa sh th h).1 in
        subst
          (λ x.
            Reached ta th a h (turns true bs) (suc (turns false bs)) (together sa sh bs ta x.0 x.1))
          (sym (harvest_tick-mix sa sh th a h))
          (record {
            attendance_store = r.attendance_store;
            harvest_store = r.harvest_store;
            stores = r.stores;
            attendance_same = r.attendance_same;
            harvest_same = r.harvest_same ∙ harvest_tick_end sa sh th h;
            attendance_left = r.attendance_left;
            harvest_left = omega (arith, r.harvest_left, left-harvest_tick sa sh th h);
          })

    attendance_end-mix :
        (n : ℕ) (t : Task OutboxOperation) (a h : Db)
        → left t ≤ n
        → attendance_end sa sh t (mix a h)
          ≡ ((attendance_end sa sh t a).0, mix (attendance_end sa sh t a).1 h)
    attendance_end-mix zero (running os) a h few = absurd (omega (arith, few))
    attendance_end-mix n (ended outcome) a h few = refl
    attendance_end-mix (suc n) (running os) a h few =
        let t : Task OutboxOperation = running os in
        sym (attendance_tick_end sa sh t (mix a h))
        ∙ ap (λ (x : Task OutboxOperation × Db). attendance_end sa sh x.0 x.1)
            (attendance_tick-mix sa sh t a h)
        ∙ attendance_end-mix n (attendance_tick sa sh t a).0 (attendance_tick sa sh t a).1 h
            (omega (arith, few, left-attendance_tick sa sh t a))
        ∙ ap (λ (x : SyncOutcome × Db). (x.0, mix x.1 h)) (attendance_tick_end sa sh t a)

    harvest_end-mix :
        (n : ℕ) (t : Task HarvestOutboxOperation) (a h : Db)
        → left t ≤ n
        → harvest_end sa sh t (mix a h)
          ≡ ((harvest_end sa sh t h).0, mix a (harvest_end sa sh t h).1)
    harvest_end-mix zero (running os) a h few = absurd (omega (arith, few))
    harvest_end-mix n (ended outcome) a h few = refl
    harvest_end-mix (suc n) (running os) a h few =
        let t : Task HarvestOutboxOperation = running os in
        sym (harvest_tick_end sa sh t (mix a h))
        ∙ ap (λ (x : Task HarvestOutboxOperation × Db). harvest_end sa sh x.0 x.1)
            (harvest_tick-mix sa sh t a h)
        ∙ harvest_end-mix n (harvest_tick sa sh t h).0 a (harvest_tick sa sh t h).1
            (omega (arith, few, left-harvest_tick sa sh t h))
        ∙ ap (λ (x : SyncOutcome × Db). (x.0, mix a x.1)) (harvest_tick_end sa sh t h)

    ended_of :
        {O : Type 0} (t : Task O) → left t ≡ 0 → (outcome : SyncOutcome) × (t ≡ ended outcome)
    ended_of (running os) h = absurd (omega (arith, h))
    ended_of (ended outcome) h = (outcome, refl)

    -- The two syncs that run at once, an iteration of either at a time, in whatever order, both end
    -- when each has had as many turns as it has operations and one more. Their outcomes and the
    -- stores are then those of the attendance sync with that of harvest after it.
    pub together-eq :
        (bs : List Bool) (owner : String) (db : Db)
        → suc (length (A.queue owner db)) ≤ turns true bs
        → suc (length (H.queue owner db)) ≤ turns false bs
        → together sa sh bs (running (A.queue owner db)) (running (H.queue owner db)) db ≡ (
          ended (A.sync_attendance sa owner db).0,
          ended (H.sync_harvest sh owner (A.sync_attendance sa owner db).1).0,
          (H.sync_harvest sh owner (A.sync_attendance sa owner db).1).1,
        )
    unfolding A.sync_attendance H.sync_harvest
    together-eq bs owner db enough enough' =
        let ta : Task OutboxOperation = running (A.queue owner db) in
        let th : Task HarvestOutboxOperation = running (H.queue owner db) in
        let r = together-Reached bs ta th db db in
        let (oa, ended_a) =
          ended_of (together sa sh bs ta th db).0 (omega (arith, r.attendance_left, enough)) in
        let (oh, ended_h) =
          ended_of (together sa sh bs ta th db).1 (omega (arith, r.harvest_left, enough')) in
        let alone : (oa, r.attendance_store) ≡ attendance_end sa sh ta db =
          ap (λ t. attendance_end sa sh t r.attendance_store) (sym ended_a) ∙ r.attendance_same in
        let alone' : (oh, r.harvest_store) ≡ harvest_end sa sh th db =
          ap (λ t. harvest_end sa sh t r.harvest_store) (sym ended_h) ∙ r.harvest_same in
        let first : (attendance_end sa sh ta db).1 ≡ mix (attendance_end sa sh ta db).1 db =
          ap (λ (x : SyncOutcome × Db). x.1)
            (attendance_end-mix (left ta) ta db db (omega arith)) in
        let second =
          ap (H.sync_harvest sh owner) first
          ∙ harvest_end-mix (left th) th (attendance_end sa sh ta db).1 db (omega arith) in
        triple (ended_a ∙ ap (λ (x : SyncOutcome × Db). ended x.0) alone)
          (ended_h
            ∙ ap (λ (x : SyncOutcome × Db). ended x.0) alone'
            ∙ sym (ap (λ (x : SyncOutcome × Db). ended x.0) second))
          (r.stores
            ∙ ap (λ (x : SyncOutcome × Db). mix x.1 r.harvest_store) alone
            ∙ ap (λ (x : SyncOutcome × Db). mix (attendance_end sa sh ta db).1 x.1) alone'
            ∙ sym (ap (λ (x : SyncOutcome × Db). x.1) second))
