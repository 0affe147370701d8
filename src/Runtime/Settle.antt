-- ===== src/Runtime/Settle.antt =====
-- runtime.py: `_settle_execution`, `_settle_verification` and `_verification_transition`.
use threvo_actions.Prelude.{
  ℕ, ◌+◌, Bool, true, false, not, ◌&&◌, Option, none, some, List, [], ◌∷◌, ◌++◌, ◌==◌, string_eq,
  any, leb, if◌then◌else◌,
}
use threvo_actions.Model.{
  SafeReference, Timestamp, LifecycleStatus, lifecycle_status_eq, itemized, effect_kind_eq,
}
use threvo_actions.Reason
use threvo_actions.Json.{JsonObject}
use threvo_actions.Receipts.{
  Receipt, ReceiptBody, ExecutionReceiptStatus, VerificationReceiptStatus, ItemOutcome,
  ItemOutcomeStatus, lifecycle_changed, verification_observed, RuntimeEventType,
}
use threvo_actions.Proposal.{StoredProposal}
use threvo_actions.Registry.{
  ActionDefinition, ModelInstance, ExecutionResult, ExecutionStatus, VerificationResult,
  VerificationStatus,
}
use threvo_actions.Lifecycle.{OperationOutcome, ActionOperationResult, result}
use threvo_actions.Exec.{Exec, Environment, pure, ◌>>=◌, ◌>>◌}
use threvo_actions.Runtime.Common.{or_else, required, cas, emit, new_receipt, validate_result_type}

-- `model_json_object(x) if x is not None else default`
unfoldable pub json_or : Option ModelInstance → Option JsonObject → Option JsonObject
json_or none default = default
json_or (some m) default = some m.json

unfoldable pub both_itemized : ActionDefinition → StoredProposal → Bool
both_itemized d p = d.effect_kind == itemized && p.effect_kind == itemized

unfoldable pub is_partial : ExecutionStatus → Bool
is_partial ExecutionStatus.partially_succeeded = true
is_partial _ = false

-- A partial result of an action that did not declare items is an unknown result.
unfoldable pub declared : ActionDefinition → StoredProposal → ExecutionResult → ExecutionResult
declared d p execution =
    if is_partial execution.status && not (both_itemized d p)
    then record {
      status = ExecutionStatus.failed_unknown;
      result = none;
      item_outcomes = execution.item_outcomes;
      external_reference = none;
      reason_code = some Reason.partial_not_declared;
    }
    else execution

unfoldable pub execution_receipt_status : ExecutionStatus → ExecutionReceiptStatus
execution_receipt_status ExecutionStatus.accepted = ExecutionReceiptStatus.accepted
execution_receipt_status ExecutionStatus.stale_no_effect = ExecutionReceiptStatus.stale_no_effect
execution_receipt_status ExecutionStatus.failed_known = ExecutionReceiptStatus.failed_known
execution_receipt_status ExecutionStatus.failed_unknown = ExecutionReceiptStatus.failed_unknown
execution_receipt_status ExecutionStatus.partially_succeeded =
    ExecutionReceiptStatus.partially_succeeded

unfoldable pub execution_reason : ExecutionResult → Option SafeReference
execution_reason execution = elim execution.status [
  | ExecutionStatus.stale_no_effect ↦ some (or_else execution.reason_code Reason.material_drift)
  | _ ↦ execution.reason_code
]

unfoldable pub execution_target : ExecutionStatus → LifecycleStatus
execution_target ExecutionStatus.stale_no_effect = LifecycleStatus.stale
execution_target ExecutionStatus.failed_known = LifecycleStatus.failed_known
execution_target ExecutionStatus.failed_unknown = LifecycleStatus.failed_unknown
execution_target _ = LifecycleStatus.verification_pending

unfoldable pub execution_outcome : ExecutionStatus → OperationOutcome
execution_outcome ExecutionStatus.stale_no_effect = OperationOutcome.stale
execution_outcome ExecutionStatus.failed_known = OperationOutcome.failed_known
execution_outcome ExecutionStatus.failed_unknown = OperationOutcome.failed_unknown
execution_outcome _ = OperationOutcome.verification_pending

unfoldable pub execution_next_check :
    ActionDefinition → ExecutionStatus → Timestamp → Option Timestamp
execution_next_check d ExecutionStatus.stale_no_effect now = none
execution_next_check d ExecutionStatus.failed_known now = none
execution_next_check d ExecutionStatus.failed_unknown now = some now
execution_next_check d _ now = some (now + d.verification_delay)

unfoldable pub verification_receipt_status : VerificationStatus → VerificationReceiptStatus
verification_receipt_status VerificationStatus.verified_completion =
    VerificationReceiptStatus.verified_completion
verification_receipt_status VerificationStatus.verified_terminal_failure =
    VerificationReceiptStatus.verified_terminal_failure
verification_receipt_status VerificationStatus.provisional_absence =
    VerificationReceiptStatus.provisional_absence
verification_receipt_status VerificationStatus.authoritative_final_absence =
    VerificationReceiptStatus.authoritative_final_absence
verification_receipt_status VerificationStatus.target_unavailable =
    VerificationReceiptStatus.target_unavailable

-- `item.status is not ItemOutcomeStatus.SUCCEEDED`
unfoldable pub unsuccessful : ItemOutcome → Bool
unsuccessful item = elim item.status [ ItemOutcomeStatus.succeeded ↦ false | _ ↦ true ]

unfoldable pub is_empty_items : List ItemOutcome → Bool
is_empty_items [] = true
is_empty_items (x ∷ xs) = false

pub record Transition : Type 0 where
  pub target : LifecycleStatus
  pub outcome : OperationOutcome
  pub reason_code : Option SafeReference

unfoldable pub verification_unresolved_with : Option SafeReference → Transition
verification_unresolved_with reason = record {
  target = LifecycleStatus.verification_unresolved;
  outcome = OperationOutcome.verification_unresolved;
  reason_code = reason;
}

unfoldable pub failed_known_with : SafeReference → Transition
failed_known_with reason = record {
  target = LifecycleStatus.failed_known;
  outcome = OperationOutcome.failed_known;
  reason_code = some reason;
}

unfoldable pub completion_transition :
    ActionDefinition → StoredProposal → VerificationResult → Transition
completion_transition d p v =
    if not (is_empty_items v.item_outcomes) && not (both_itemized d p)
    then verification_unresolved_with (some Reason.partial_not_declared)
    else if any unsuccessful v.item_outcomes
    then record {
      target = LifecycleStatus.partially_succeeded;
      outcome = OperationOutcome.partially_succeeded;
      reason_code = v.reason_code;
    }
    else record {
      target = LifecycleStatus.verified;
      outcome = OperationOutcome.verified;
      reason_code = v.reason_code;
    }

unfoldable pub absence_transition : ActionDefinition → VerificationResult → Transition
absence_transition d v =
    if d.allow_resend_after_final_absence
      && (v.settling_boundary_passed && v.target_idempotency_guaranteed)
    then record {
      target = LifecycleStatus.authorized;
      outcome = OperationOutcome.resend_allowed;
      reason_code = some Reason.authoritative_final_absence;
    }
    else failed_known_with Reason.authoritative_final_absence

unfoldable pub waiting_transition : StoredProposal → VerificationResult → ℕ → Transition
waiting_transition p v attempts =
    if leb p.max_verification_attempts attempts
    then verification_unresolved_with
        (some (or_else v.reason_code Reason.verification_retries_exhausted))
    else record {
      target = LifecycleStatus.verification_pending;
      outcome = OperationOutcome.verification_pending;
      reason_code = v.reason_code;
    }

-- `_verification_transition`
unfoldable pub verification_transition :
    ActionDefinition → StoredProposal → VerificationResult → ℕ → Transition
verification_transition d p v attempts = elim v.status [
  | VerificationStatus.verified_completion ↦ completion_transition d p v
  | VerificationStatus.verified_terminal_failure ↦
      failed_known_with (or_else v.reason_code Reason.verified_terminal_failure)
  | VerificationStatus.authoritative_final_absence ↦ absence_transition d v
  | VerificationStatus.provisional_absence ↦ waiting_transition p v attempts
  | VerificationStatus.target_unavailable ↦ waiting_transition p v attempts
]

unfoldable pub is_resend : OperationOutcome → Bool
is_resend OperationOutcome.resend_allowed = true
is_resend _ = false

module _ (env : Environment) (d : ActionDefinition) where
  -- The end of both settlements: the write, the event and the answer.
  unfoldable pub write_settled :
      StoredProposal
      → StoredProposal
      → RuntimeEventType
      → Timestamp
      → OperationOutcome
      → Option SafeReference
      → Exec ActionOperationResult
  write_settled p settled event_type now outcome reason_code = do
    written ← cas env p settled
    if written
        then (do
          emit env settled event_type now reason_code
          pure (result settled outcome reason_code))
        else (do
          current ← required env p.tenant_reference p.proposal_reference
          pure (result current OperationOutcome.in_progress none))

  -- The record after an execution with this (declared) result.
  unfoldable pub executed_record :
      StoredProposal → ExecutionResult → Timestamp → Receipt → StoredProposal
  executed_record p execution now receipt = record p {
    lifecycle_status = execution_target execution.status;
    receipts = p.receipts ++ (receipt ∷ []);
    safe_result = json_or execution.result none;
    next_verification_at = execution_next_check d execution.status now;
    revision = p.revision + 1;
  }

  -- `_settle_execution`
  unfoldable pub settle_execution :
      StoredProposal → ExecutionResult → Timestamp → Exec ActionOperationResult
  settle_execution p answer now = do
    validate_result_type d answer.result
    let execution = declared d p answer
    plain ←
        new_receipt env p now
          (ReceiptBody.execution (execution_receipt_status execution.status) d.executor_identity
            execution.item_outcomes)
          (execution_reason execution)
    let receipt : Receipt = record plain { external_reference = execution.external_reference }
    write_settled p (executed_record p execution now receipt) lifecycle_changed now
        (execution_outcome execution.status) (execution_reason execution)

  -- The record after a verification with this transition.
  unfoldable pub verified_record :
      StoredProposal → VerificationResult → Transition → Timestamp → Receipt → StoredProposal
  verified_record p v t now receipt = record p {
    lifecycle_status = t.target;
    receipts = p.receipts ++ (receipt ∷ []);
    safe_result = json_or v.result p.safe_result;
    verification_attempts = if is_resend t.outcome then 0 else p.verification_attempts;
    next_verification_at =
        if t.target == LifecycleStatus.verification_pending
        then some (now + d.verification_delay)
        else none;
    revision = p.revision + 1;
  }

  -- `_settle_verification`
  unfoldable pub settle_verification :
      StoredProposal → VerificationResult → Timestamp → Exec ActionOperationResult
  settle_verification p v now = do
    validate_result_type d v.result
    plain ←
        new_receipt env p now
          (ReceiptBody.verification (verification_receipt_status v.status) d.target_identity
            v.item_outcomes)
          v.reason_code
    let receipt : Receipt = record plain { external_reference = v.external_reference }
    let t = verification_transition d p v p.verification_attempts
    write_settled p (verified_record p v t now receipt) verification_observed now t.outcome
        t.reason_code
