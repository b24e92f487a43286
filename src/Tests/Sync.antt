-- ===== src/Tests/Sync.antt =====
-- Examples for the two engines.
use koranco.Base.{◌≡◌, refl, ◌↔◌, ◌⊎◌, true, none, some, [], ◌∷◌, Has}
use koranco.Dexie.Memory.{memory}
use koranco.Types.Local.{OutboxState, OutboxOperation}
use koranco.Offline.Db.{operation_key}
use koranco.Offline.Attendance as A
use koranco.Sync.Answers.{SyncOutcome}
use koranco.Sync.Attendance as SA
use koranco.Sync.Attendance.Keeps as SAK
use koranco.Sync.Attendance.Queue as SAQ
use koranco.Sync.Attendance.Attempts as SAA
use koranco.Tests.Data.{op_1, queued_db, confirming, unreachable}

sync_attendance-Fate_example : SAK.Fate unreachable op_1 (
    memory.get {key = operation_key} "op1"
      (SA.sync_attendance unreachable "ana" queued_db).1.outbox)
unfolding A.new_operation
sync_attendance-Fate_example = SAK.sync_attendance-Fate unreachable "ana" "op1" op_1 queued_db refl

-- A sync of another user.
sync_attendance_untouched_example :
    memory.get {key = operation_key} "op1" (SA.sync_attendance confirming "ben" queued_db).1.outbox
    ≡ some op_1
unfolding A.new_operation
sync_attendance_untouched_example =
    SAQ.sync_attendance_untouched confirming "ben" "op1" op_1 queued_db refl refl

sync_attendance-synced_iff_example :
    ((SA.sync_attendance confirming "ana" queued_db).0 ≡ SyncOutcome.synced)
    ↔ ((o : OutboxOperation) → Has o (SA.queue "ana" queued_db) → SAK.confirmed confirming o ≡ true)
sync_attendance-synced_iff_example = SAQ.sync_attendance-synced_iff confirming "ana" queued_db

-- Three attempts without a network.
attempts_settle_example :
    ((memory.get {key = operation_key} "op1"
          (SA.sync_attendance confirming "ana"
            (SAA.attempts (unreachable ∷ unreachable ∷ unreachable ∷ []) "ana" queued_db)).1.outbox
        ≡ none)
      × (SAA.WasConfirmed (unreachable ∷ unreachable ∷ unreachable ∷ []) "ana" "op1" op_1 queued_db
          ⊎ SAA.WasConfirmed
              (confirming ∷ [])
              "ana"
              "op1"
              op_1
              (SAA.attempts (unreachable ∷ unreachable ∷ unreachable ∷ []) "ana" queued_db)))
    ⊎ ((x : OutboxOperation) × (memory.get {key = operation_key} "op1"
            (SA.sync_attendance confirming "ana" (
              SAA.attempts (unreachable ∷ unreachable ∷ unreachable ∷ []) "ana" queued_db)).1.outbox
          ≡ some x)
        × (x.state ≡ OutboxState.needs_attention)
        × (SAK.snapshot x ≡ SAK.snapshot op_1))
unfolding A.new_operation SA.verdict
attempts_settle_example =
    SAA.attempts_settle (unreachable ∷ unreachable ∷ unreachable ∷ []) confirming "ana" "op1" op_1
      queued_db refl refl (λ x m. refl)
