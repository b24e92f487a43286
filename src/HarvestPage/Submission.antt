-- ===== src/HarvestPage/Submission.antt =====
-- What a submission from the harvest page queues, and what the page says of the server's confirmation.
use koranco.Base.{
  String, ◌≡◌, refl, sym, ap, ◌∙◌, ◌≢◌, ◌↔◌, true, false, ◌&&◌, ◌==◌, Bool-cases, inl, inr, Option,
  none, some, List, Has, truthy, Result, ok, err, eq_iff, arith, trim,
}
use koranco.Dexie.{Dexie}
use koranco.Types.Server.{Instant, AuthenticatedUser, FarmUnit, HarvestRecord, AuditEvent}
use koranco.Types.Local.{
  pending_submission, LocalHarvestDraft, HarvestOutboxOperation, OfflineLease,
}
use koranco.Offline.Db.{Db}
use koranco.Offline.Attendance.{is_editing}
use koranco.Offline.Harvest.{
  save_local_harvest_draft, queue_harvest_submission, edited, owner_harvest_draft,
}
use koranco.Offline.Harvest.Queueing.{
  licensed, save_local_harvest_draft_editing, queue_harvest_submission-save, IsSubmission,
}
use koranco.Sync.Answers.{SyncOutcome, Answer}
use koranco.Sync.Harvest as SH
use koranco.Sync.Harvest.Keeps.{confirmed}
use koranco.Sync.Harvest.Queue.{sync_harvest-synced_iff}
use koranco.HarvestPage.State.{HarvestState, apply_local, draft_values, validate, null_if_empty}
use koranco.HarvestPage.Handlers.{
  Replies, Wording, submit_wording, show_history, show_record, after_sync, refreshed_state, idle,
  synchronize, official_submit, submit_draft, queued, saved_then_queued,
}

show_history-success :
    (audit : Result (Option (List AuditEvent))) (s : HarvestState)
    → (show_history audit s).success ≡ s.success
unfolding show_history
show_history-success (err e) s = refl
show_history-success (ok none) s = refl
show_history-success (ok (some events)) s = refl

abbrev pub Read : Replies → Type 0
Read replies = (r : HarvestRecord) × (replies.fetched ≡ ok (some r))

-- A page that does not show the confirmation yet shows it exactly for a sync with the outcome
-- "synced" after which the record could be read.
after_sync-confirmed :
    (w : Wording) (outcome : SyncOutcome) (refreshed : Option LocalHarvestDraft) (replies : Replies)
    (s : HarvestState)
    → w.waiting ≢ w.confirmed
    → s.success ≢ w.confirmed
    → ((after_sync w outcome refreshed replies s).success ≡ w.confirmed)
      ↔ ((outcome ≡ SyncOutcome.synced) × Read replies)
unfolding after_sync show_record
after_sync-confirmed w SyncOutcome.synced refreshed replies s differ n =
    by_reply replies.fetched refl
  where
    by_reply :
        (f : Result (Option HarvestRecord))
        → replies.fetched ≡ f
        → ((after_sync w SyncOutcome.synced refreshed replies s).success ≡ w.confirmed)
          ↔ ((SyncOutcome.synced ≡ SyncOutcome.synced) × Read replies)
    by_reply (err e) h = rw (h, after_sync, show_record) (λ e. absurd (n e), λ (_, (r, x)). cc)
    by_reply (ok none) h = rw (h, after_sync, show_record) (λ e. absurd (n e), λ (_, (r, x)). cc)
    by_reply (ok (some r)) h =
        rw (h, after_sync, show_record) (λ _. (refl, (r, refl)), λ _. show_history-success _ _)
after_sync-confirmed w SyncOutcome.waiting refreshed replies s differ n =
    (λ h. absurd (differ h), λ (e, _). cc)
after_sync-confirmed w SyncOutcome.authentication_required refreshed replies s differ n =
    (λ h. absurd (n h), λ (e, _). cc)
after_sync-confirmed w SyncOutcome.needs_attention refreshed replies s differ n =
    (λ h. absurd (n h), λ (e, _). cc)

module _ ⦃dexie : Dexie⦄ where
  refreshed_state-success :
      (d : Option LocalHarvestDraft) (s : HarvestState) → (refreshed_state d s).success ≡ s.success
  unfolding apply_local
  refreshed_state-success none s = refl
  refreshed_state-success (some d) s = refl

  saved_then_queued-eq :
      (server : HarvestOutboxOperation → Answer HarvestRecord) (replies : Replies) (uuid : String)
      (now : Instant) (owner : String) (s : HarvestState) (r : Result LocalHarvestDraft × Db)
      (d : LocalHarvestDraft) (db db' : Db) (o : HarvestOutboxOperation)
      → r ≡ (ok d, db)
      → queue_harvest_submission owner d.id uuid now db ≡ (ok o, db')
      → saved_then_queued server replies uuid now owner s r
        ≡ synchronize server replies submit_wording owner d.id
            (λ x. record x { reviewing = false })
            (record s { local_state = pending_submission })
            db'
  saved_then_queued-eq server replies uuid now owner s r d db db' o saved accepted =
      ap (saved_then_queued server replies uuid now owner s) saved
      ∙ ap (queued server replies owner d.id s) accepted

  -- A submission whose save and whose queueing succeed.
  module _ (server : HarvestOutboxOperation → Answer HarvestRecord) (replies : Replies)
      (uuid : String) (saved_at now : Instant) (user : AuthenticatedUser) (d d' : LocalHarvestDraft)
      (s : HarvestState) (db db' db'' : Db) (o : HarvestOutboxOperation)
      (signed : s.user ≡ some user) (opened : s.local_draft ≡ some d)
      (saved : save_local_harvest_draft user.id d.id (draft_values s) saved_at db ≡ (ok d', db'))
      (accepted : queue_harvest_submission user.id d'.id uuid now db' ≡ (ok o, db'')) where
    official_submit-submit_draft :
        official_submit server replies uuid saved_at now s db
        ≡ submit_draft server replies uuid saved_at now user d s db
    unfolding official_submit
    official_submit-submit_draft = simp (signed, opened, official_submit)

    official_submit-eq :
        official_submit server replies uuid saved_at now s db
        ≡ idle (
            synchronize server replies submit_wording user.id d'.id
              (λ x. record x { reviewing = false })
              (record s { busy = true; error_text = ""; local_state = pending_submission })
              db'')
    unfolding submit_draft
    official_submit-eq =
        official_submit-submit_draft
        ∙ ap idle (
            saved_then_queued-eq server replies uuid now user.id
              (record s { busy = true; error_text = "" }) _ d' db' db'' o saved accepted)

    -- A page with a user and a draft submits, and the draft is saved and queued. It says that the
    -- server confirmed the harvest, if it did not say so before, exactly when the server confirmed
    -- every queued harvest operation of the user and the record could be read again.
    pub official_submit-confirmed :
        s.success ≢ submit_wording.confirmed
        → ((official_submit server replies uuid saved_at now s db).0.success
            ≡ submit_wording.confirmed)
          ↔ (((x : HarvestOutboxOperation)
                → Has x (SH.queue user.id db'')
                → confirmed server x ≡ true)
              × Read replies)
    unfolding synchronize
    official_submit-confirmed n =
        let refreshed = owner_harvest_draft user.id d'.id (SH.sync_harvest server user.id db'').1 in
        let waiting = record s { busy = true; error_text = ""; local_state = pending_submission } in
        let (to, from) =
          after_sync-confirmed submit_wording (SH.sync_harvest server user.id db'').0 refreshed
            replies (record (refreshed_state refreshed waiting) { reviewing = false })
            (ground (arith, eq_iff submit_wording.waiting submit_wording.confirmed))
            (λ e. n (sym (refreshed_state-success refreshed waiting) ∙ e)) in
        let (every, back) = sync_harvest-synced_iff server user.id db'' in
        rw official_submit-eq
          ((λ e. let (x, r) = to e in (every x, r)), (λ (x, r). from (back x, r)))

validate-quantity :
    (s : HarvestState) (u : FarmUnit)
    → s.farm_unit ≡ some u
    → validate s ≡ ""
    → truthy s.quantity ≡ true
unfolding validate
validate-quantity s u chosen valid = elim (Bool-cases (truthy s.quantity)) [
  | inl given ↦ given
  | inr missing ↦ cc (rw (chosen, validate, missing) at valid)
]

module _ ⦃dexie : Dexie⦄ where
  -- A user with a lease at both times submits a form with nothing wrong, whose farm unit has an id,
  -- for his own draft that is open for editing and has no operation of his yet, under a free
  -- operation id. The stores take it: what the page leaves in them is what a sync of the user makes
  -- of stores whose outbox holds, under that id, an operation that is not sent yet: it is of this user,
  -- for this draft and its record, names itself by that id, is based on the version of the server that
  -- the draft is based on, and carries the values of the form, the notes trimmed.
  pub official_submit-queues :
      (server : HarvestOutboxOperation → Answer HarvestRecord) (replies : Replies) (uuid : String)
      (saved_at now : Instant) (user : AuthenticatedUser) (d row : LocalHarvestDraft) (u : FarmUnit)
      (s : HarvestState) (db : Db) (l l' : OfflineLease)
      → s.user ≡ some user
      → s.local_draft ≡ some d
      → s.farm_unit ≡ some u
      → truthy u.id ≡ true
      → validate s ≡ ""
      → licensed user.id saved_at db ≡ some l
      → licensed user.id now db ≡ some l'
      → dexie.get d.id db.harvest_drafts ≡ some row
      → row.owner_id ≡ user.id
      → is_editing row.state ≡ true
      → dexie.first (λ x. x.aggregate_id == d.id && x.owner_id == user.id) db.harvest_outbox ≡ none
      → dexie.get uuid db.harvest_outbox ≡ none
      → (o : HarvestOutboxOperation) × (db' : Db) × (dexie.get uuid db'.harvest_outbox ≡ some o)
        × IsSubmission user.id d.id uuid row o
        × (o.payload.harvest_date ≡ s.date)
        × (o.payload.farm_unit_id ≡ u.id)
        × (o.payload.quantity ≡ s.quantity)
        × (o.payload.unit ≡ s.unit)
        × (o.payload.notes ≡ null_if_empty (trim s.notes))
        × ((official_submit server replies uuid saved_at now s db).1
            ≡ (SH.sync_harvest server user.id db').1)
  unfolding draft_values synchronize edited
  official_submit-queues server replies uuid saved_at now user d row u s db l l' signed opened
        chosen has_id valid lease lease' found own open_ none_yet fresh =
      let v = draft_values s in
      let unit_id : v.farm_unit_id ≡ u.id = rw chosen refl in
      let quantity = validate-quantity s u chosen valid in
      let (o, db', queued_, submission, date, unit, amount, kind, notes, there, waits) =
        queue_harvest_submission-save user.id d.id uuid v saved_at now db l l' row lease lease'
          found own open_ (rw unit_id has_id) quantity none_yet fresh in
      let saved =
        save_local_harvest_draft_editing user.id d.id v saved_at db l row lease found own open_ in
      let stored = record db {
        harvest_drafts = dexie.put (edited v saved_at row) db.harvest_drafts;
      } in
      let accepted =
        ap (λ k. queue_harvest_submission user.id k uuid now stored)
          (dexie.key-get d.id row _ found)
        ∙ ap
            (λ (r : Result LocalHarvestDraft × Db).
              queue_harvest_submission user.id d.id uuid now r.1)
            (sym saved)
        ∙ queued_ in
      (
        o,
        db',
        there,
        submission,
        date,
        unit ∙ unit_id,
        amount,
        kind,
        notes,
        ap (λ (r : HarvestState × Db). r.1)
            (official_submit-eq server replies uuid saved_at now user d (edited v saved_at row) s db
              _ db' o signed opened saved accepted),
      )
