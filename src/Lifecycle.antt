-- ===== src/Lifecycle.antt =====
-- runtime.py: operation outcomes, the disposition of each lifecycle status, and operation results.
use threvo_actions.Prelude.{ℕ, Bool, true, false, not, ◌&&◌, Option, none}
use threvo_actions.Model.{SafeReference, LifecycleStatus}
use threvo_actions.Json.{JsonObject, empty}
use threvo_actions.Proposal.{StoredProposal}

pub data OperationOutcome : Type 0 where
  prepared authority_pending authorized denied blocked stale in_progress expired replayed conflict
        verification_pending verified partially_succeeded failed_known failed_unknown
        verification_unresolved resend_allowed erased :
      OperationOutcome

pub data LifecycleCategory : Type 0 where
  awaiting_authority pending settled stale refused needs_attention : LifecycleCategory

pub record LifecycleDisposition : Type 0 where
  pub category : LifecycleCategory
  pub automatic_processing_closed : Bool
  pub reconciliation_available : Bool
  pub operator_recovery_available : Bool

disposition : LifecycleCategory → Bool → Bool → Bool → LifecycleDisposition
disposition category closed reconciliation recovery = record {
  category = category;
  automatic_processing_closed = closed;
  reconciliation_available = reconciliation;
  operator_recovery_available = recovery;
}

-- `_LIFECYCLE_DISPOSITIONS[status]`
unfoldable pub classify_lifecycle : LifecycleStatus → LifecycleDisposition
unfolding disposition
classify_lifecycle LifecycleStatus.awaiting_authority =
    disposition LifecycleCategory.awaiting_authority false false false
classify_lifecycle LifecycleStatus.denied = disposition refused true false false
classify_lifecycle LifecycleStatus.expired = disposition LifecycleCategory.stale true false false
classify_lifecycle LifecycleStatus.authorized = disposition pending false false false
classify_lifecycle LifecycleStatus.blocked = disposition refused true false false
classify_lifecycle LifecycleStatus.stale = disposition LifecycleCategory.stale true false false
classify_lifecycle LifecycleStatus.superseded = disposition LifecycleCategory.stale true false false
classify_lifecycle LifecycleStatus.executing = disposition pending false true false
classify_lifecycle LifecycleStatus.failed_known = disposition refused true false false
classify_lifecycle LifecycleStatus.failed_unknown = disposition pending false true false
classify_lifecycle LifecycleStatus.verification_pending = disposition pending false true true
classify_lifecycle LifecycleStatus.verification_unresolved =
    disposition needs_attention true false true
classify_lifecycle LifecycleStatus.partially_succeeded =
    disposition needs_attention true false false
classify_lifecycle LifecycleStatus.verified = disposition settled true false false

pub record ActionOperationResult : Type 0 where
  pub proposal_reference : SafeReference
  pub lifecycle_status : LifecycleStatus
  pub outcome : OperationOutcome
  pub revision : ℕ
  pub display_preview : JsonObject
  pub safe_result : Option JsonObject
  pub fresh_proposal_reference : Option SafeReference
  pub reason_code : Option SafeReference

-- The three properties of `ActionOperationResult`.
unfoldable pub is_terminal : ActionOperationResult → Bool
is_terminal r =
    let d = classify_lifecycle r.lifecycle_status in
    d.automatic_processing_closed && not d.operator_recovery_available

unfoldable pub automatic_processing_closed : ActionOperationResult → Bool
automatic_processing_closed r = (classify_lifecycle r.lifecycle_status).automatic_processing_closed

unfoldable pub needs_reconciliation : ActionOperationResult → Bool
needs_reconciliation r = (classify_lifecycle r.lifecycle_status).reconciliation_available

-- `_outcome_for`
unfoldable pub outcome_for : LifecycleStatus → OperationOutcome
outcome_for LifecycleStatus.awaiting_authority = authority_pending
outcome_for LifecycleStatus.authorized = OperationOutcome.authorized
outcome_for LifecycleStatus.denied = OperationOutcome.denied
outcome_for LifecycleStatus.expired = OperationOutcome.expired
outcome_for LifecycleStatus.blocked = OperationOutcome.blocked
outcome_for LifecycleStatus.stale = OperationOutcome.stale
outcome_for LifecycleStatus.superseded = OperationOutcome.stale
outcome_for LifecycleStatus.executing = in_progress
outcome_for LifecycleStatus.failed_known = OperationOutcome.failed_known
outcome_for LifecycleStatus.failed_unknown = in_progress
outcome_for LifecycleStatus.verification_pending = in_progress
outcome_for LifecycleStatus.verification_unresolved = OperationOutcome.verification_unresolved
outcome_for LifecycleStatus.partially_succeeded = OperationOutcome.partially_succeeded
outcome_for LifecycleStatus.verified = OperationOutcome.verified

-- `_result` with its defaults; the three callers that differ write their field over it.
unfoldable pub result :
    StoredProposal → OperationOutcome → Option SafeReference → ActionOperationResult
result p outcome reason_code = record {
  proposal_reference = p.proposal_reference;
  lifecycle_status = p.lifecycle_status;
  outcome = outcome;
  revision = p.revision;
  display_preview = empty;
  safe_result = p.safe_result;
  fresh_proposal_reference = none;
  reason_code = reason_code;
}
