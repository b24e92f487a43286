-- ===== src/Tests/Device.antt =====
-- Examples for a device with several users.
use mathlib.Core.Option
use koranco.Base.{String, List, ◌≢◌, ◌==◌, eq_iff, ◌≡◌, refl, true, some, [], ◌∷◌}
use koranco.Dexie.Memory.{memory}
use koranco.Offline.Db.{operation_key, harvest_operation_key, draft_key}
use koranco.Offline.Lease.{record_offline_lease, valid_offline_lease, includes}
use koranco.Offline.Attendance as A
use koranco.Offline.Attendance.Sound as AS
use koranco.Offline.Harvest as H
use koranco.Offline.Harvest.Sound as HS
use koranco.Sync.Attendance.Keeps as SAK
use koranco.Sync.Harvest.Keeps as SHK
use koranco.Sync.Attendance as SA
use koranco.Sync.Harvest as SH
use koranco.Device.{
  Event, run, validate, suspend, create_attendance, queue_attendance, save_attendance,
  cache_attendance, sync_attendance, create_harvest, save_harvest, queue_harvest, sync_harvest,
}
use koranco.Device.Attendance as DA
use koranco.Device.Harvest as DH
use koranco.Device.Interleaved.{event, iteration, moves, moves_keep, moves-IsSound}
use koranco.Tests.Data.{
  ana, empty, session_1, entries, op_1, draft_1, queued_db, confirming, unreachable, values,
  harvest_op_1, harvest_queued_db, harvest_confirming, harvest_unreachable,
}

empty-IsSound : AS.IsSound empty
empty-IsSound = record {
  owners = λ k d h. cc;
  backed = λ k o h. cc;
  addressed = λ k o h. cc;
  single = λ k j o p h g e. cc;
}

harvest_empty-IsSound : HS.IsSound empty
harvest_empty-IsSound = record {
  owners = λ k d h. cc;
  backed = λ k o h. cc;
  addressed = λ k o h. cc;
  single = λ k j o p h g e. cc;
}

run-IsSound_example : AS.IsSound (
    run
      (validate ana 1000
        ∷ create_attendance "ana" "2026-01-02" "s1" 2000
        ∷ queue_attendance "ana" "s1" "op1" 3000
        ∷ sync_attendance "ana" unreachable
        ∷ [])
      empty)
run-IsSound_example =
    DA.run-IsSound
      (validate ana 1000
        ∷ create_attendance "ana" "2026-01-02" "s1" 2000
        ∷ queue_attendance "ana" "s1" "op1" 3000
        ∷ sync_attendance "ana" unreachable
        ∷ [])
      empty (refl, (refl, (refl, (refl, tt)))) empty-IsSound

run_harvest-IsSound_example : HS.IsSound (
    run
      (validate ana 1000
        ∷ create_harvest "ana" "h1" 2000
        ∷ save_harvest "ana" "h1" values 2000
        ∷ queue_harvest "ana" "h1" "op2" 3000
        ∷ sync_harvest "ana" harvest_unreachable
        ∷ [])
      empty)
run_harvest-IsSound_example =
    DH.run_harvest-IsSound
      (validate ana 1000
        ∷ create_harvest "ana" "h1" 2000
        ∷ save_harvest "ana" "h1" values 2000
        ∷ queue_harvest "ana" "h1" "op2" 3000
        ∷ sync_harvest "ana" harvest_unreachable
        ∷ [])
      empty (refl, (refl, (refl, (refl, (refl, tt))))) harvest_empty-IsSound

-- Ben signs in and syncs, and Ana's sync does not reach the server.
run_keeps_example :
    Option.map SAK.snapshot (
      memory.get {key = operation_key} "op1"
        (run (sync_attendance "ana" unreachable ∷ suspend "ana" ∷ []) queued_db).outbox)
    ≡ some (SAK.snapshot op_1)
unfolding A.new_operation SA.verdict
run_keeps_example =
    DA.run_keeps (sync_attendance "ana" unreachable ∷ suspend "ana" ∷ []) "op1" queued_db op_1
      ((λ o' e. refl), ((λ o' e. refl), tt)) refl

run_keeps_harvest_example :
    Option.map SHK.snapshot (
      memory.get {key = harvest_operation_key} "op2"
        (run
          (sync_harvest "ana" harvest_unreachable ∷ suspend "ana" ∷ [])
          harvest_queued_db).harvest_outbox)
    ≡ some (SHK.snapshot harvest_op_1)
unfolding H.new_operation SH.verdict
run_keeps_harvest_example =
    DH.run_keeps_harvest (sync_harvest "ana" harvest_unreachable ∷ suspend "ana" ∷ []) "op2"
      harvest_queued_db harvest_op_1 ((λ o' e. refl), ((λ o' e. refl), tt)) refl

ana_ne_ben : ◌≢◌ {A = String} "ana" "ben"
ana_ne_ben h = let same : ("ana" == "ben") ≡ true = (eq_iff "ana" "ben").1 h in cc

-- Ana queues a draft of each kind; then Ben saves an attendance draft that is not his, and syncs.
abbrev ana_work : List Event
ana_work =
    validate ana 1000
    ∷ create_attendance "ana" "2026-01-02" "s1" 2000
    ∷ queue_attendance "ana" "s1" "op1" 3000
    ∷ []

abbrev ana_harvest : List Event
ana_harvest =
    validate ana 1000
    ∷ create_harvest "ana" "h1" 2000
    ∷ save_harvest "ana" "h1" values 2000
    ∷ queue_harvest "ana" "h1" "op2" 3000
    ∷ []

abbrev ben_work : List Event
ben_work =
    validate (record ana { id = "ben" }) 3500
    ∷ cache_attendance "ben" session_1 3600
    ∷ save_attendance "ben" "s1" entries 3700
    ∷ sync_attendance "ben" confirming
    ∷ sync_harvest "ben" harvest_confirming
    ∷ []

-- A draft that Ana has begun, with nothing queued.
abbrev ana_draft : List Event
ana_draft = validate ana 1000 ∷ create_attendance "ana" "2026-01-02" "s1" 2000 ∷ []

run_of_others_example :
    memory.get {key = draft_key} "s1" (run ben_work (run ana_draft empty)).drafts ≡ some draft_1
unfolding run A.new_draft valid_offline_lease A.create_local_draft record_offline_lease includes
run_of_others_example =
    DA.run_of_others ben_work "s1" (DA.draft draft_1) (run ana_draft empty)
      (
        (refl, ana_ne_ben),
        ((refl, ana_ne_ben), ((refl, ana_ne_ben), ((refl, ana_ne_ben), ((refl, ana_ne_ben), tt)))),
      )
      (DA.run-IsSound ana_draft empty (refl, (refl, tt)) empty-IsSound) refl

-- The operation that she has queued.
queued_of_others :
    memory.get {key = operation_key} "op1" (run ben_work (run ana_work empty)).outbox ≡ some op_1
unfolding run A.new_operation A.waiting_draft A.new_draft A.queue_submission valid_offline_lease
    A.create_local_draft record_offline_lease includes
queued_of_others =
    DA.run_of_others ben_work "op1" (DA.operation op_1) (run ana_work empty)
      (
        (refl, ana_ne_ben),
        ((refl, ana_ne_ben), ((refl, ana_ne_ben), ((refl, ana_ne_ben), ((refl, ana_ne_ben), tt)))),
      )
      (DA.run-IsSound ana_work empty (refl, (refl, (refl, tt))) empty-IsSound) refl

-- Ana's sync reads the operation and finds no server; meanwhile another window of hers syncs too, and
-- the operation that it holds is that of before.
moves_keep_example :
    Option.map SAK.snapshot (
      memory.get {key = operation_key} "op1"
        (moves
          (iteration op_1 (unreachable op_1)
            ∷ event (suspend "ana")
            ∷ event (sync_attendance "ana" unreachable)
            ∷ iteration op_1 (unreachable op_1)
            ∷ [])
          queued_db).outbox)
    ≡ some (SAK.snapshot op_1)
unfolding A.new_operation SA.verdict
moves_keep_example =
    moves_keep
      (iteration op_1 (unreachable op_1)
        ∷ event (suspend "ana")
        ∷ event (sync_attendance "ana" unreachable)
        ∷ iteration op_1 (unreachable op_1)
        ∷ [])
      "op1" queued_db op_1
      ((λ o' e. refl), ((λ o' e. refl), ((λ o' e. refl), ((λ o' e. refl), tt)))) refl

moves-IsSound_example : AS.IsSound (
    moves
      (iteration op_1 (confirming op_1)
        ∷ event (suspend "ana")
        ∷ iteration op_1 (unreachable op_1)
        ∷ [])
      (run ana_work empty))
moves-IsSound_example =
    moves-IsSound
      (iteration op_1 (confirming op_1)
        ∷ event (suspend "ana")
        ∷ iteration op_1 (unreachable op_1)
        ∷ [])
      (run ana_work empty) (tt, (refl, (tt, tt)))
      (DA.run-IsSound ana_work empty (refl, (refl, (refl, tt))) empty-IsSound)
