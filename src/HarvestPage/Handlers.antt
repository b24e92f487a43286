-- ===== src/HarvestPage/Handlers.antt =====
-- The handlers of the component HarvestWorkspace of modules/harvest/harvest-workspace.tsx: what they do
-- to its state and to the local stores. The state is that of the page while it stays open.
use koranco.Base.{
  String, true, false, Option, none, some, List, truthy, if◌then◌else◌, Result, ok, err, Failure,
  error,
}
use koranco.Dexie.{Dexie}
use koranco.Types.Server.{Instant, AuthenticatedUser, HarvestRecord, AuditEvent}
use koranco.Types.Local.{
  LocalDraftState, pending_submission, LocalHarvestDraft, HarvestOutboxOperation,
}
use koranco.Offline.Db.{Db}
use koranco.Offline.Harvest.{
  save_local_harvest_draft, queue_harvest_submission, owner_harvest_draft,
}
use koranco.Sync.Answers.{SyncOutcome, Answer}
use koranco.Sync.Harvest.{sync_harvest}
use koranco.HarvestPage.State.{
  HarvestState, error_message, apply_local, apply_record, draft_values, validate,
}

-- What getHarvest or correctHarvest, and harvestAudit, come to; `none` is a response without a value.
pub record Replies : Type 0 where
  pub fetched : Result (Option HarvestRecord)
  pub audit : Result (Option (List AuditEvent))

-- A read of a field of `undefined` throws.
abbrev pub undefined_read : Failure
undefined_read = error "Cannot read properties of undefined"

abbrev pub failed : Failure → HarvestState → HarvestState
failed e s = record s { error_text = error_message e }

unfoldable pub show_history : Result (Option (List AuditEvent)) → HarvestState → HarvestState
show_history (err e) s = failed e s
show_history (ok none) s = failed undefined_read s
show_history (ok (some events)) s = record s { history = events }

-- A record that the server returned, a message, and its history.
unfoldable pub show_record : Replies → (HarvestState → HarvestState) → HarvestState → HarvestState
unfolding show_history apply_record
show_record replies then_set s = elim replies.fetched [
  | err e ↦ failed e s
  | ok r ↦ elim r [
    | none ↦ failed undefined_read (record s { official = none })
    | some item ↦ show_history replies.audit (then_set (apply_record item s))
  ]
]

-- What a handler says once a sync has an outcome.
pub record Wording : Type 0 where
  pub confirmed : String
  pub waiting : String
  pub attention : String

abbrev pub submit_wording : Wording
submit_wording = record {
  confirmed = "Harvest submitted and confirmed by the server.";
  waiting = "Saved on this device. Waiting to sync.";
  attention = "Harvest needs attention before it can be confirmed.";
}

abbrev pub sync_wording : Wording
sync_wording = record {
  confirmed = "Harvest confirmed by the server.";
  waiting = "Still waiting for a reliable connection.";
  attention = "Harvest needs attention. The device copy has been preserved.";
}

abbrev pub last_message_or : String → Option LocalHarvestDraft → String
last_message_or fallback none = fallback
last_message_or fallback (some d) = elim d.last_message [ none ↦ fallback | some m ↦ m ]

unfoldable pub after_sync :
    Wording → SyncOutcome → Option LocalHarvestDraft → Replies → HarvestState → HarvestState
unfolding show_record
after_sync w SyncOutcome.synced refreshed replies s =
    show_record replies (λ x. record x { success = w.confirmed }) s
after_sync w SyncOutcome.waiting refreshed replies s = record s { success = w.waiting }
after_sync w SyncOutcome.authentication_required refreshed replies s = record s {
  error_text = "Sign in as the same user to synchronize this Harvest.";
}
after_sync w SyncOutcome.needs_attention refreshed replies s = record s {
  local_state = LocalDraftState.needs_attention;
  error_text = last_message_or w.attention refreshed;
}

-- `if (refreshed) applyLocal(refreshed)`
abbrev pub refreshed_state : Option LocalHarvestDraft → HarvestState → HarvestState
refreshed_state none s = s
refreshed_state (some d) s = apply_local d s.units s

module _ ⦃dexie : Dexie⦄ where
  abbrev pub idle : HarvestState × Db → HarvestState × Db
  idle (s, db) = (record s { busy = false }, db)

  abbrev pub draft_saved :
      HarvestState → Result LocalHarvestDraft × Db → Option LocalHarvestDraft × HarvestState × Db
  draft_saved s (err e, db) = (none, failed e s, db)
  draft_saved s (ok d, db) = (
    some d,
    record s { local_draft = some d; local_state = d.state; success = "Saved on this device." },
    db,
  )

  abbrev pub no_longer_busy :
      Option LocalHarvestDraft × HarvestState × Db → Option LocalHarvestDraft × HarvestState × Db
  no_longer_busy (r, s, db) = (r, record s { busy = false }, db)

  -- The first part is what `saveDraft` returns.
  unfoldable pub save_form :
      Instant
      → AuthenticatedUser
      → LocalHarvestDraft
      → HarvestState
      → Db
      → Option LocalHarvestDraft × HarvestState × Db
  save_form now user d s db =
      let validation = validate s in
      if truthy validation
      then (none, record s { error_text = validation }, db)
      else no_longer_busy (
          draft_saved (record s { busy = true; error_text = "" })
            (save_local_harvest_draft user.id d.id (draft_values s) now db))

  unfoldable pub save_draft :
      Instant → HarvestState → Db → Option LocalHarvestDraft × HarvestState × Db
  save_draft now s db = elim s.user [
    | none ↦ (none, s, db)
    | some user ↦ elim s.local_draft [ none ↦ (none, s, db) | some d ↦ save_form now user d s db ]
  ]

  -- The sync, and what the page shows of it.
  unfoldable pub synchronize :
      (HarvestOutboxOperation → Answer HarvestRecord)
      → Replies
      → Wording
      → (owner id : String) → (HarvestState → HarvestState)
      → HarvestState
      → Db
      → HarvestState × Db
  unfolding after_sync
  synchronize server replies w owner id then_set s db =
      let (outcome, db') = sync_harvest server owner db in
      let refreshed = owner_harvest_draft owner id db' in
      (after_sync w outcome refreshed replies (then_set (refreshed_state refreshed s)), db')

  abbrev pub queued :
      (HarvestOutboxOperation → Answer HarvestRecord)
      → Replies
      → (owner id : String) → HarvestState
      → Result HarvestOutboxOperation × Db
      → HarvestState × Db
  queued server replies owner id s (err e, db) = (failed e s, db)
  queued server replies owner id s (ok _, db) =
      synchronize server replies submit_wording owner id (λ x. record x { reviewing = false })
        (record s { local_state = pending_submission }) db

  abbrev pub saved_then_queued :
      (HarvestOutboxOperation → Answer HarvestRecord)
      → Replies
      → (uuid : String) → Instant
      → (owner : String) → HarvestState
      → Result LocalHarvestDraft × Db
      → HarvestState × Db
  saved_then_queued server replies uuid now owner s (err e, db) = (failed e s, db)
  saved_then_queued server replies uuid now owner s (ok d, db) =
      queued server replies owner d.id s (queue_harvest_submission owner d.id uuid now db)

  -- `saved_at` and `now` are the times of the save and of the submission.
  unfoldable pub submit_draft :
      (HarvestOutboxOperation → Answer HarvestRecord)
      → Replies
      → (uuid : String) → (saved_at now : Instant) → AuthenticatedUser
      → LocalHarvestDraft
      → HarvestState
      → Db
      → HarvestState × Db
  unfolding synchronize draft_values
  submit_draft server replies uuid saved_at now user d s db = idle (
      saved_then_queued server replies uuid now user.id (record s { busy = true; error_text = "" })
        (save_local_harvest_draft user.id d.id (draft_values s) saved_at db))

  unfoldable pub official_submit :
      (HarvestOutboxOperation → Answer HarvestRecord)
      → Replies
      → (uuid : String) → (saved_at now : Instant) → HarvestState
      → Db
      → HarvestState × Db
  official_submit server replies uuid saved_at now s db = elim s.user [
    | none ↦ (s, db)
    | some user ↦ elim s.local_draft [
      | none ↦ (s, db)
      | some d ↦ submit_draft server replies uuid saved_at now user d s db
    ]
  ]

  unfoldable pub sync_now :
      (HarvestOutboxOperation → Answer HarvestRecord)
      → Replies
      → HarvestState
      → Db
      → HarvestState × Db
  unfolding synchronize
  sync_now server replies s db = elim s.user [
    | none ↦ (s, db)
    | some user ↦ elim s.local_draft [
      | none ↦ (s, db)
      | some d ↦ idle (
          synchronize server replies sync_wording user.id d.id (λ x. x)
            (record s { busy = true; error_text = "" }) db)
    ]
  ]
