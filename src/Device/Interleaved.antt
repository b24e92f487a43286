-- ===== src/Device/Interleaved.antt =====
-- The iterations of an attendance sync, between which anything may happen: a sync holds the operation
-- as it read it, while other calls, other syncs and other windows change the stores.
use mathlib.Core.Option
use koranco.Base.{
  String, ◌≡◌, refl, ap, ◌∙◌, inl, inr, Bool, true, false, ◌&&◌, some, List, [], ◌∷◌, ◌==◌, eq_iff,
  truthy, All, arith,
}
use koranco.Dexie.{Dexie}
use koranco.Types.Server.{AttendanceSession}
use koranco.Types.Local.{OutboxOperation}
use koranco.Offline.Db.{Db}
use koranco.Offline.Attendance.Sound.{IsSound}
use koranco.Sync.Answers.{SyncOutcome, Answer}
use koranco.Sync.Attendance as SA
use koranco.Sync.Attendance.{Step, proceed, stop}
use koranco.Sync.Attendance.Keeps.{snapshot, is_confirm, after, resume, get-sync_one}
use koranco.Sync.Attendance.Sound.{snapshot-some, sync_one-IsSound}
use koranco.Device.{Event, actor, step}
use koranco.Device.Attendance.{confirms, step_keeps, step-IsSound}

pub data Move : Type 0 where
  event : Event → Move
  -- an iteration, for the operation as the sync read it, with the server's answer to it
  iteration : OutboxOperation → Answer AttendanceSession → Move

-- An event is on behalf of a user with an id.
abbrev pub IsNamed : Move → Type 0
IsNamed (event e) = truthy (actor e) ≡ true
IsNamed (iteration o a) = Unit

module _ ⦃dexie : Dexie⦄ where
  unfoldable pub move : Move → Db → Db
  unfolding step
  move (event e) db = step e db
  move (iteration o a) db = after (SA.sync_one (λ _. a) o db)

  unfoldable pub moves : List Move → Db → Db
  unfolding move
  moves [] db = db
  moves (m ∷ ms) db = moves ms (move m db)

  -- The server's confirmation of the row under a key.
  abbrev pub settles : String → Move → OutboxOperation → Bool
  settles k (event e) o = confirms e o
  settles k (iteration x a) o = x.operation_id == k && is_confirm (SA.verdict a.reply)

  move_keeps :
      (m : Move) (k : String) (db : Db) (o : OutboxOperation)
      → settles k m o ≡ false
      → dexie.get k db.outbox ≡ some o
      → Option.map snapshot (dexie.get k (move m db).outbox) ≡ some (snapshot o)
  unfolding move
  move_keeps (event e) k db o open_ found = step_keeps e k db o open_ found
  move_keeps (iteration x a) k db o open_ found = elim (get-sync_one (λ _. a) x k db) [
    | inl same ↦ same ∙ ap (Option.map snapshot) found
    | inr (at, gone, c) ↦ absurd (ground (arith, eq_iff x.operation_id k, open_, at, c))
  ]

  -- However the iterations of attendance syncs and the other calls interleave, and however stale
  -- the operations are that the syncs hold, a queued operation stays in the outbox with its
  -- payload, its owner and its identity, as long as the server confirms no operation of its id.
  pub moves_keep :
      (ms : List Move) (k : String) (db : Db) (o : OutboxOperation)
      → All (λ m. (o' : OutboxOperation) → snapshot o' ≡ snapshot o → settles k m o' ≡ false) ms
      → Option.map snapshot (dexie.get k db.outbox) ≡ some (snapshot o)
      → Option.map snapshot (dexie.get k (moves ms db).outbox) ≡ some (snapshot o)
  unfolding moves
  moves_keep [] k db o open_ found = found
  moves_keep (m ∷ ms) k db o (now, later) found =
      let (x, row, same) = snapshot-some (dexie.get k db.outbox) (snapshot o) found in
      moves_keep ms k (move m db) o later (move_keeps m k db x (now x same) row ∙ ap some same)

  move-IsSound : (m : Move) (db : Db) → IsNamed m → IsSound db → IsSound (move m db)
  unfolding move
  move-IsSound (event e) db named s = step-IsSound e db named s
  move-IsSound (iteration o a) db named s = sync_one-IsSound (λ _. a) o db s

  -- From sound attendance stores, however the iterations of attendance syncs and the other calls
  -- interleave, each call on behalf of a user with an id, and however stale the operations are
  -- that the syncs hold, the stores stay sound.
  pub moves-IsSound :
      (ms : List Move) (db : Db) → All IsNamed ms → IsSound db → IsSound (moves ms db)
  unfolding moves
  moves-IsSound [] db named s = s
  moves-IsSound (m ∷ ms) db named s =
      moves-IsSound ms (move m db) named.1 (move-IsSound m db named.0 s)

  -- The moves after an iteration, if the sync goes on.
  resumed :
      (later : Db → SyncOutcome × Db) (s : Step)
      → ((db : Db) → (ms : List Move) × ((later db).1 ≡ moves ms db))
      → (ms : List Move) × ((resume later s).1 ≡ moves ms (after s))
  unfolding moves
  resumed later (proceed db) rest = rest db
  resumed later (stop outcome db) rest = ([], refl)

  -- A sync that nothing interrupts is a sequence of iterations.
  pub sync_loop-moves :
      (server : OutboxOperation → Answer AttendanceSession) (os : List OutboxOperation) (db : Db)
      → (ms : List Move) × ((SA.sync_loop server os db).1 ≡ moves ms db)
  unfolding SA.sync_loop SA.sync_one moves
  sync_loop-moves server [] db = ([], refl)
  sync_loop-moves server (o ∷ os) db =
      let (ms, e) =
        resumed (SA.sync_loop server os) (SA.sync_one server o db)
          (λ db'. sync_loop-moves server os db') in
      (iteration o (server o) ∷ ms, e)
