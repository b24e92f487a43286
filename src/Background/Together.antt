-- ===== src/Background/Together.antt =====
-- The two syncs that `trySync` of components/pwa-registrar.tsx starts at once, an iteration of their
-- loops at a time.
pub mod Alike
use mathlib.Core.Path.{subst}
use koranco.Base.{
  ℕ, zero, suc, ◌-◌, ◌≤◌, length, arith, String, ◌≡◌, refl, sym, ap, ◌∙◌, Bool, true, false, Option,
  none, some, List, [], ◌∷◌,
}
use koranco.Dexie.{Dexie}
use koranco.Types.Server.{Instant, AttendanceSession, HarvestRecord}
use koranco.Types.Local.{OutboxOperation, HarvestOutboxOperation}
use koranco.Offline.Db.{Db}
use koranco.Sync.Answers.{SyncOutcome, Answer, Verdict, confirm, attention, sign_in, retry}
use koranco.Sync.Attendance as A
use koranco.Sync.Harvest as H

-- What is left of a sync: operations, or its outcome.
pub data Task (O : Type 0) : Type 0 where
  running : List O → Task O
  ended : SyncOutcome → Task O

-- The turns that a task takes at most.
abbrev pub left : {O : Type 0} → Task O → ℕ
left (running os) = suc (length os)
left (ended outcome) = 0

abbrev pub turns : Bool → List Bool → ℕ
turns who [] = 0
turns true (true ∷ bs) = suc (turns true bs)
turns true (false ∷ bs) = turns true bs
turns false (true ∷ bs) = turns false bs
turns false (false ∷ bs) = suc (turns false bs)

module _ ⦃dexie : Dexie⦄ where
  -- The attendance stores of `a` with all else of `h`.
  abbrev pub mix : Db → Db → Db
  mix a h = record h { drafts = a.drafts; outbox = a.outbox }

  abbrev attendance_next : List OutboxOperation → A.Step → Task OutboxOperation × Db
  attendance_next os (A.proceed db) = (running os, db)
  attendance_next os (A.stop outcome db) = (ended outcome, db)

  abbrev harvest_next : List HarvestOutboxOperation → H.Step → Task HarvestOutboxOperation × Db
  harvest_next os (H.proceed db) = (running os, db)
  harvest_next os (H.stop outcome db) = (ended outcome, db)

  module _ (sa : OutboxOperation → Answer AttendanceSession)
      (sh : HarvestOutboxOperation → Answer HarvestRecord) where
    unfoldable pub attendance_tick : Task OutboxOperation → Db → Task OutboxOperation × Db
    attendance_tick (running []) db = (ended SyncOutcome.synced, db)
    attendance_tick (running (o ∷ os)) db = attendance_next os (A.sync_one sa o db)
    attendance_tick (ended outcome) db = (ended outcome, db)

    unfoldable pub harvest_tick :
        Task HarvestOutboxOperation → Db → Task HarvestOutboxOperation × Db
    harvest_tick (running []) db = (ended SyncOutcome.synced, db)
    harvest_tick (running (o ∷ os)) db = harvest_next os (H.sync_one sh o db)
    harvest_tick (ended outcome) db = (ended outcome, db)

    -- `true` in a schedule lets the attendance sync go on, and `false` that of harvest.
    unfoldable pub together :
        List Bool
        → Task OutboxOperation
        → Task HarvestOutboxOperation
        → Db
        → Task OutboxOperation × Task HarvestOutboxOperation × Db
    unfolding attendance_tick harvest_tick
    together [] ta th db = (ta, th, db)
    together (true ∷ bs) ta th db = let (ta', db') = attendance_tick ta db in together bs ta' th db'
    together (false ∷ bs) ta th db = let (th', db') = harvest_tick th db in together bs ta th' db'

    -- What a task comes to on its own.
    abbrev pub attendance_end : Task OutboxOperation → Db → SyncOutcome × Db
    attendance_end (running os) db = A.sync_loop sa os db
    attendance_end (ended outcome) db = (outcome, db)

    abbrev pub harvest_end : Task HarvestOutboxOperation → Db → SyncOutcome × Db
    harvest_end (running os) db = H.sync_loop sh os db
    harvest_end (ended outcome) db = (outcome, db)

    attendance_step_end :
        (os : List OutboxOperation) (s : A.Step)
        → attendance_end (attendance_next os s).0 (attendance_next os s).1
          ≡ elim s [ A.proceed db' ↦ A.sync_loop sa os db' | A.stop outcome db' ↦ (outcome, db') ]
    attendance_step_end os (A.proceed db') = refl
    attendance_step_end os (A.stop outcome db') = refl

    pub attendance_tick_end :
        (t : Task OutboxOperation) (db : Db)
        → attendance_end (attendance_tick t db).0 (attendance_tick t db).1 ≡ attendance_end t db
    unfolding attendance_tick A.sync_loop
    attendance_tick_end (running []) db = refl
    attendance_tick_end (ended outcome) db = refl
    attendance_tick_end (running (o ∷ os)) db = attendance_step_end os (A.sync_one sa o db)

    attendance_step_left :
        (os : List OutboxOperation) (s : A.Step) → left (attendance_next os s).0 ≤ suc (length os)
    attendance_step_left os (A.proceed db') = omega arith
    attendance_step_left os (A.stop outcome db') = omega arith

    pub left-attendance_tick :
        (t : Task OutboxOperation) (db : Db) → left (attendance_tick t db).0 ≤ left t - 1
    unfolding attendance_tick
    left-attendance_tick (running []) db = omega arith
    left-attendance_tick (ended outcome) db = omega arith
    left-attendance_tick (running (o ∷ os)) db =
        let h = attendance_step_left os (A.sync_one sa o db) in omega (arith, h)

    harvest_step_end :
        (os : List HarvestOutboxOperation) (s : H.Step)
        → harvest_end (harvest_next os s).0 (harvest_next os s).1
          ≡ elim s [ H.proceed db' ↦ H.sync_loop sh os db' | H.stop outcome db' ↦ (outcome, db') ]
    harvest_step_end os (H.proceed db') = refl
    harvest_step_end os (H.stop outcome db') = refl

    pub harvest_tick_end :
        (t : Task HarvestOutboxOperation) (db : Db)
        → harvest_end (harvest_tick t db).0 (harvest_tick t db).1 ≡ harvest_end t db
    unfolding harvest_tick H.sync_loop
    harvest_tick_end (running []) db = refl
    harvest_tick_end (ended outcome) db = refl
    harvest_tick_end (running (o ∷ os)) db = harvest_step_end os (H.sync_one sh o db)

    harvest_step_left :
        (os : List HarvestOutboxOperation) (s : H.Step)
        → left (harvest_next os s).0 ≤ suc (length os)
    harvest_step_left os (H.proceed db') = omega arith
    harvest_step_left os (H.stop outcome db') = omega arith

    pub left-harvest_tick :
        (t : Task HarvestOutboxOperation) (db : Db) → left (harvest_tick t db).0 ≤ left t - 1
    unfolding harvest_tick
    left-harvest_tick (running []) db = omega arith
    left-harvest_tick (ended outcome) db = omega arith
    left-harvest_tick (running (o ∷ os)) db =
        let h = harvest_step_left os (H.sync_one sh o db) in omega (arith, h)

    attendance_settled :
        (o : OutboxOperation) (v : Verdict AttendanceSession) (at : Instant)
        (os : List OutboxOperation) (a h : Db)
        → attendance_next os (A.settle o v at (A.mark_syncing o (mix a h))) ≡ (
          (attendance_next os (A.settle o v at (A.mark_syncing o a))).0,
          mix (attendance_next os (A.settle o v at (A.mark_syncing o a))).1 h,
        )
    unfolding A.settle A.mark_syncing
    attendance_settled o (confirm r) at os a h = refl
    attendance_settled o (attention category message) at os a h = refl
    attendance_settled o sign_in at os a h = refl
    attendance_settled o retry at os a h = refl

    harvest_settled :
        (o : HarvestOutboxOperation) (v : Verdict HarvestRecord) (at : Instant)
        (os : List HarvestOutboxOperation) (a h : Db)
        → harvest_next os (H.settle o v at (H.mark_syncing o (mix a h))) ≡ (
          (harvest_next os (H.settle o v at (H.mark_syncing o h))).0,
          mix a (harvest_next os (H.settle o v at (H.mark_syncing o h))).1,
        )
    unfolding H.settle H.mark_syncing
    harvest_settled o (confirm r) at os a h = refl
    harvest_settled o (attention category message) at os a h = refl
    harvest_settled o sign_in at os a h = refl
    harvest_settled o retry at os a h = refl

    pub attendance_tick-mix :
        (t : Task OutboxOperation) (a h : Db)
        → attendance_tick t (mix a h) ≡ ((attendance_tick t a).0, mix (attendance_tick t a).1 h)
    unfolding attendance_tick A.sync_one
    attendance_tick-mix (running []) a h = refl
    attendance_tick-mix (ended outcome) a h = refl
    attendance_tick-mix (running (o ∷ os)) a h = attendance_settled o _ _ os a h

    pub harvest_tick-mix :
        (t : Task HarvestOutboxOperation) (a h : Db)
        → harvest_tick t (mix a h) ≡ ((harvest_tick t h).0, mix a (harvest_tick t h).1)
    unfolding harvest_tick H.sync_one
    harvest_tick-mix (running []) a h = refl
    harvest_tick-mix (ended outcome) a h = refl
    harvest_tick-mix (running (o ∷ os)) a h = harvest_settled o _ _ os a h
