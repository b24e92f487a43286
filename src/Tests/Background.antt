-- ===== src/Tests/Background.antt =====
-- Examples for the syncs in the background and the hold on updates.
use koranco.Base.{arith, ◌≡◌, ◌↔◌, refl, true, false, none, [], ◌∷◌, ok}
use koranco.Dexie.Memory.{memory}
use koranco.Offline.Pending.{Counts}
use koranco.Offline.Pending.Holds.{Waits}
use koranco.Background.{
  Phase, Registrar, wake, session_changed, answered, counted, synced, no_counts, run_all, step,
  consider_update,
}
use koranco.Background.Quiet.{IsQuiet, signed_out-IsQuiet}
use koranco.Background.Updates.{consider_update-Waits}
use koranco.Background.Together.{running, ended, together}
use koranco.Background.Together.Alike.{together-eq}
use koranco.Offline.Db.{Db}
use koranco.Offline.Attendance as OA
use koranco.Offline.Harvest as OH
use koranco.Sync.Attendance as A
use koranco.Sync.Harvest as H
use koranco.Tests.Data.{ana, queued_db, harvest_queued_db, confirming, harvest_unreachable}

abbrev registrar : Registrar
registrar = record {
  signed_out = false;
  phase = Phase.asking;
  pending = record { attendance = 1; harvest = 0; total = 1 };
  update_held = false;
}

abbrev two : Counts
two = record { attendance = 2; harvest = 0; total = 2 }

one_run :
    run_all (answered (ok ana) ∷ counted two ∷ synced (ok tt) ∷ counted no_counts ∷ []) registrar
    ≡ record registrar { phase = Phase.idle; pending = no_counts }
unfolding run_all step
one_run = refl

-- A sign-out while pendingCounts runs: the notice comes back.
signed_out_while_counting :
    (run_all (answered (ok ana) ∷ session_changed none ∷ counted two ∷ []) registrar).pending ≡ two
unfolding run_all step
signed_out_while_counting = refl

signed_out-IsQuiet_example :
    IsQuiet (run_all (session_changed none ∷ wake ∷ answered (ok ana) ∷ counted two ∷ []) registrar)
signed_out-IsQuiet_example =
    signed_out-IsQuiet (wake ∷ answered (ok ana) ∷ counted two ∷ []) registrar tt
      (tt, (tt, (tt, tt)))

consider_update-Waits_example :
    (((consider_update true queued_db registrar).1 ≡ true)
      ↔ ((true ≡ true) × (Waits (λ o. Unit) (λ o. Unit) queued_db → ⊥)))
    × (true ≡ true
        → Waits (λ o. Unit) (λ o. Unit) queued_db
        → (consider_update true queued_db registrar).0.update_held ≡ true)
consider_update-Waits_example = consider_update-Waits true queued_db registrar

abbrev both_db : Db
both_db = record queued_db {
  harvest_drafts = harvest_queued_db.harvest_drafts;
  harvest_outbox = harvest_queued_db.harvest_outbox;
}

together-eq_example :
    together confirming harvest_unreachable
      (true ∷ false ∷ false ∷ true ∷ [])
      (running (A.queue "ana" both_db))
      (running (H.queue "ana" both_db))
      both_db
    ≡ (
      ended (A.sync_attendance confirming "ana" both_db).0,
      ended
          (H.sync_harvest harvest_unreachable "ana"
            (A.sync_attendance confirming "ana" both_db).1).0,
      (H.sync_harvest harvest_unreachable "ana" (A.sync_attendance confirming "ana" both_db).1).1,
    )
unfolding OA.new_operation OH.new_operation
together-eq_example =
    together-eq confirming harvest_unreachable (true ∷ false ∷ false ∷ true ∷ []) "ana" both_db
      (omega arith) (omega arith)
