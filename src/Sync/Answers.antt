-- ===== src/Sync/Answers.antt =====
-- What the engines share: their outcomes, the results of the server, and the classes of an answer.
use koranco.Base.{String, Bool, true, false, Option, Result}
use koranco.Types.Server.{Instant}
use koranco.Types.Local.{OutboxState}

pub data SyncOutcome : Type 0 where
  synced waiting needs_attention authentication_required : SyncOutcome

pub data SyncResult : Type 0 where
  applied already_applied conflict rejected : SyncResult

-- `R` is the server's record: an attendance session or a harvest record.
pub record SyncResponse (R : Type 0) : Type 0 where
  pub operation_id : String
  pub result : SyncResult
  pub message : String
  pub accepted : Option R

-- The outcome of `send`, and the time at which it is handled.
pub record Answer (R : Type 0) : Type 0 where
  pub reply : Result (SyncResponse R)
  pub at : Instant

abbrev pub result_name : SyncResult → String
result_name applied = "applied"
result_name already_applied = "already_applied"
result_name conflict = "conflict"
result_name rejected = "rejected"

-- What an engine does with an answer.
pub data Verdict (R : Type 0) : Type 0 where
  confirm : SyncResponse R → Verdict R
  attention : (category message : String) → Verdict R
  sign_in : Verdict R
  retry : Verdict R

abbrev pub of_response : {R : Type 0} → SyncResult → SyncResponse R → Verdict R
of_response applied r = confirm r
of_response already_applied r = confirm r
of_response other r = attention (result_name other) r.message

-- `state === "pending" || state === "syncing"`
abbrev pub is_queued : OutboxState → Bool
is_queued OutboxState.pending = true
is_queued OutboxState.syncing = true
is_queued OutboxState.needs_attention = false
