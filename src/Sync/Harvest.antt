-- ===== src/Sync/Harvest.antt =====
-- modules/harvest/offline/sync.ts.
pub mod Keeps
pub mod Queue
pub mod Sound
use koranco.Base.{
  ℕ, ◌+◌, String, ◌&&◌, Option, none, some, List, [], ◌∷◌, ◌==◌, eqb, leb, ltb, if◌then◌else◌,
  Result, ok, err, error, api_error, constraint_error,
}
use koranco.Dexie.{Dexie}
use koranco.Client.{Request, post, Fetched, with_accept, api_request, defined}
use koranco.Session.{SessionState, csrf_headers}
use koranco.Types.Server.{Instant, HarvestRecord}
use koranco.Types.Local.{
  LocalDraftState, LocalHarvestDraft, OutboxState, HarvestOutboxOperation, HarvestPayload,
}
use koranco.Offline.Db.{Db}
use koranco.Sync.Answers.{
  SyncOutcome, SyncResponse, Answer, Verdict, confirm, attention, sign_in, retry, of_response,
  is_queued,
}

abbrev pub Reply : Type 0
Reply = Result (SyncResponse HarvestRecord)

unfoldable pub sync_request :
    List (String × String) → HarvestOutboxOperation → Request HarvestPayload
sync_request csrf o = with_accept (record {
  method = post;
  path = "/api/v1/harvest-records/sync";
  headers = ("Content-Type", "application/json") ∷ csrf;
  body = some o.payload;
})

-- Without a token nothing is sent.
unfoldable pub send :
    SessionState
    → (Request HarvestPayload → Fetched (SyncResponse HarvestRecord))
    → HarvestOutboxOperation
    → Reply
unfolding sync_request csrf_headers api_request
send session fetch o = elim (csrf_headers session) [
  | err e ↦ err e
  | ok csrf ↦ defined (api_request (fetch (sync_request csrf o)))
]

abbrev pub of_status : String → ℕ → Verdict HarvestRecord
of_status message status =
    if eqb status 401
    then sign_in
    else if eqb status 403
    then attention "authorization_revoked"
        "Harvest access is no longer available. Work remains on this device."
    else if leb 400 status && ltb status 500
    then attention "invalid_payload" message
    else retry

unfoldable pub verdict : Reply → Verdict HarvestRecord
verdict (ok r) = of_response r.result r
verdict (err (api_error message status)) = of_status message status
verdict (err (error message)) = retry
verdict (err constraint_error) = retry

-- `record?.field ?? fallback`
abbrev pub or_record {ℓ} : {A : Type ℓ} → (HarvestRecord → A) → A → Option HarvestRecord → A
or_record f fallback none = fallback
or_record f fallback (some r) = f r

abbrev pub or_notes : Option String → Option String → Option String
or_notes none fallback = fallback
or_notes (some n) fallback = some n

unfoldable pub confirmed_draft :
    HarvestOutboxOperation
    → SyncResponse HarvestRecord
    → Instant
    → LocalHarvestDraft
    → LocalHarvestDraft
confirmed_draft o r at d = record d {
  state = LocalDraftState.synced;
  server_record_id = some (or_record (λ s. s.id) o.aggregate_id r.accepted);
  base_server_version = or_record (λ s. some s.version) none r.accepted;
  harvest_date = or_record (λ s. s.harvest_date) o.payload.harvest_date r.accepted;
  farm_unit_id = or_record (λ s. s.farm_unit_id) o.payload.farm_unit_id r.accepted;
  quantity = or_record (λ s. s.quantity) o.payload.quantity r.accepted;
  unit = or_record (λ s. s.unit) o.payload.unit r.accepted;
  notes = or_notes (or_record (λ s. s.notes) none r.accepted) o.payload.notes;
  updated_at = at;
  last_message = some "Harvest confirmed by the server.";
}

unfoldable pub moved :
    OutboxState → (category message : String) → HarvestOutboxOperation → HarvestOutboxOperation
moved state category message o = record o {
  state = state;
  last_error_category = some category;
  last_message = some message;
}

unfoldable pub draft_moved :
    LocalDraftState → (message : String) → LocalHarvestDraft → LocalHarvestDraft
draft_moved state message d = record d { state = state; last_message = some message }

module _ ⦃dexie : Dexie⦄ where
  -- An iteration of the loop goes on to the next operation, or ends the call.
  pub data Step : Type 0 where
    proceed : Db → Step
    stop : SyncOutcome → Db → Step

  -- A row of each store is changed, if it is there.
  unfoldable pub note :
      HarvestOutboxOperation
      → (HarvestOutboxOperation → HarvestOutboxOperation)
      → (LocalHarvestDraft → LocalHarvestDraft)
      → Db
      → Db
  note o f g db = record db {
    harvest_outbox = dexie.update o.operation_id f db.harvest_outbox;
    harvest_drafts = dexie.update o.aggregate_id g db.harvest_drafts;
  }

  unfoldable pub mark_syncing : HarvestOutboxOperation → Db → Db
  unfolding note
  mark_syncing o db =
      note o (λ x. record x { state = OutboxState.syncing; attempt_count = o.attempt_count + 1 })
        (λ d. record d { state = LocalDraftState.syncing }) db

  -- The two updates of one transaction; the draft's time is set too.
  unfoldable pub preserve_for_attention :
      HarvestOutboxOperation → (category message : String) → Instant → Db → Db
  unfolding note moved draft_moved
  preserve_for_attention o category message at db =
      note o (moved OutboxState.needs_attention category message)
        (λ d. record (draft_moved LocalDraftState.needs_attention message d) { updated_at = at }) db

  unfoldable pub settle : HarvestOutboxOperation → Verdict HarvestRecord → Instant → Db → Step
  unfolding note confirmed_draft moved draft_moved preserve_for_attention
  settle o (confirm r) at db = proceed (record db {
    harvest_outbox = dexie.delete o.operation_id db.harvest_outbox;
    harvest_drafts = dexie.update o.aggregate_id (confirmed_draft o r at) db.harvest_drafts;
  })
  settle o (attention category message) at db =
      stop SyncOutcome.needs_attention (preserve_for_attention o category message at db)
  settle o sign_in at db = stop SyncOutcome.authentication_required (
      note o
        (moved OutboxState.pending "authentication_required"
          "Sign in as the same user to synchronize Harvest.")
        (draft_moved LocalDraftState.pending_submission
          "Sign in as the same user to synchronize Harvest.")
        db)
  settle o retry at db = stop SyncOutcome.waiting (
      note o (moved OutboxState.pending "temporary_connection" "Waiting for a reliable connection.")
        (draft_moved LocalDraftState.pending_submission "Saved on this device. Waiting to sync.")
        db)

  -- One iteration of the loop.
  unfoldable pub sync_one :
      (HarvestOutboxOperation → Answer HarvestRecord) → HarvestOutboxOperation → Db → Step
  unfolding mark_syncing settle verdict
  sync_one server o db =
      let answer = server o in settle o (verdict answer.reply) answer.at (mark_syncing o db)

  -- With no operation the outcome is "synced" too.
  unfoldable pub sync_loop :
      (HarvestOutboxOperation → Answer HarvestRecord)
      → List HarvestOutboxOperation
      → Db
      → SyncOutcome × Db
  unfolding sync_one
  sync_loop server [] db = (SyncOutcome.synced, db)
  sync_loop server (o ∷ os) db = elim (sync_one server o db) [
    | proceed db' ↦ sync_loop server os db'
    | stop outcome db' ↦ (outcome, db')
  ]

  -- The owner's queued operations, by their time of creation.
  abbrev pub queue : String → Db → List HarvestOutboxOperation
  queue owner db =
      dexie.sort_by (λ o. o.created_at)
        (dexie.select (λ o. o.owner_id == owner && is_queued o.state) db.harvest_outbox)

  unfoldable pub sync_harvest :
      (HarvestOutboxOperation → Answer HarvestRecord) → String → Db → SyncOutcome × Db
  unfolding sync_loop
  sync_harvest server owner db = sync_loop server (queue owner db) db
