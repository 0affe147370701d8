-- ===== src/Runtime/Settlement.antt =====
-- The records that settlements write: the store accepts them, and what they may say.
use threvo_actions.Prelude.{ℕ, ◌≡◌, ◌≢◌, ◌≤◌, refl, true, ◌||◌, none, arith, ◌==◌, contains}
use threvo_actions.Model.{Timestamp, LifecycleStatus, lifecycle_status_eq}
use threvo_actions.Receipts.{Receipt}
use threvo_actions.Result.{ok}
use threvo_actions.Proposal.{StoredProposal, allowed_lifecycle_transitions}
use threvo_actions.Proposal.Validate.{
  allowed_transition, validate_proposal_bindings, validate_proposal_update,
}
use threvo_actions.Proposal.Append.{Appends-accepted}
use threvo_actions.Registry.{
  ActionDefinition, ExecutionResult, ExecutionStatus, VerificationResult, VerificationStatus,
}
use threvo_actions.Exec.{Environment}
use threvo_actions.Runtime.Settle.{
  executed_record, execution_target, verified_record, verification_transition,
  completion_transition, absence_transition, waiting_transition, verification_unresolved_with,
  failed_known_with,
}

execution_edge :
    (s : ExecutionStatus)
    → contains (allowed_lifecycle_transitions LifecycleStatus.executing) (execution_target s) ≡ true
unfolding execution_target allowed_lifecycle_transitions
execution_edge ExecutionStatus.accepted = ground arith
execution_edge ExecutionStatus.stale_no_effect = ground arith
execution_edge ExecutionStatus.failed_known = ground arith
execution_edge ExecutionStatus.failed_unknown = ground arith
execution_edge ExecutionStatus.partially_succeeded = ground arith

-- Whatever the executor answered, the store accepts the record that the runtime makes of it, for an
-- executing live proposal whose evidence and receipts are bound to it.
pub settle_execution_accepted :
    (env : Environment) (d : ActionDefinition) (p : StoredProposal) (x : ExecutionResult)
    (now : Timestamp) (r : Receipt)
    → p.lifecycle_status ≡ LifecycleStatus.executing
    → p.erased_at ≡ none
    → validate_proposal_bindings p ≡ ok tt
    → r.correlation_reference ≡ p.proposal_reference
    → validate_proposal_update p (executed_record env d p x now r) ≡ ok tt
unfolding executed_record allowed_transition
settle_execution_accepted env d p x now r executing live bound correlated =
    Appends-accepted p (executed_record env d p x now r) r
      (record {
        identity = ground arith;
        revision = refl;
        commitment = refl;
        evidence = refl;
        receipts = refl;
        correlation = correlated;
        pending = refl;
        live = live;
        transition = ground (arith, execution_edge x.status);
      })
      bound

verification_edge :
    (d : ActionDefinition) (p : StoredProposal) (v : VerificationResult) (attempts : ℕ)
    → (LifecycleStatus.verification_pending == (verification_transition d p v attempts).target
        || contains
            (allowed_lifecycle_transitions LifecycleStatus.verification_pending)
            (verification_transition d p v attempts).target)
      ≡ true
unfolding verification_transition completion_transition absence_transition waiting_transition
    verification_unresolved_with failed_known_with allowed_lifecycle_transitions
verification_edge d p v attempts = ground arith

-- Whatever the verifier answered and however many attempts were made, the store accepts the record
-- that the runtime makes of it, for a live proposal whose verification is pending and whose evidence
-- and receipts are bound to it.
pub settle_verification_accepted :
    (env : Environment) (d : ActionDefinition) (p : StoredProposal) (v : VerificationResult)
    (attempts : ℕ) (now : Timestamp) (r : Receipt)
    → p.lifecycle_status ≡ LifecycleStatus.verification_pending
    → p.erased_at ≡ none
    → validate_proposal_bindings p ≡ ok tt
    → r.correlation_reference ≡ p.proposal_reference
    → validate_proposal_update p
        (verified_record env d p v (verification_transition d p v attempts) now r)
      ≡ ok tt
unfolding verified_record allowed_transition
settle_verification_accepted env d p v attempts now r pending live bound correlated =
    Appends-accepted p (verified_record env d p v (verification_transition d p v attempts) now r) r
      (record {
        identity = ground arith;
        revision = refl;
        commitment = refl;
        evidence = refl;
        receipts = refl;
        correlation = correlated;
        pending = refl;
        live = live;
        transition = ground (arith, verification_edge d p v attempts);
      })
      bound

-- A verification returns the proposal to `authorized`, so that its effect may be attempted again,
-- exactly when the target reported a final absence after its settling boundary, guarantees
-- idempotency, and the action allows the resend.
pub resend_exactly :
    (d : ActionDefinition) (p : StoredProposal) (v : VerificationResult) (attempts : ℕ)
    → ((verification_transition d p v attempts).target ≡ LifecycleStatus.authorized
        → (v.status ≡ VerificationStatus.authoritative_final_absence)
          × (d.allow_resend_after_final_absence ≡ true)
          × (v.settling_boundary_passed ≡ true)
          × (v.target_idempotency_guaranteed ≡ true))
      × (v.status ≡ VerificationStatus.authoritative_final_absence
          → d.allow_resend_after_final_absence ≡ true
          → v.settling_boundary_passed ≡ true
          → v.target_idempotency_guaranteed ≡ true
          → (verification_transition d p v attempts).target ≡ LifecycleStatus.authorized)
unfolding verification_transition completion_transition absence_transition waiting_transition
    verification_unresolved_with failed_known_with
resend_exactly d p v attempts = (
  λ h. (ground arith, ground arith, ground arith, ground arith),
  λ absent allowed passed idempotent. ground arith,
)

-- With the attempts used up, no answer of the verifier leaves the verification pending.
pub attempts_exhausted :
    (d : ActionDefinition) (p : StoredProposal) (v : VerificationResult) (attempts : ℕ)
    → p.max_verification_attempts ≤ attempts
    → (verification_transition d p v attempts).target ≢ LifecycleStatus.verification_pending
unfolding verification_transition completion_transition absence_transition waiting_transition
    verification_unresolved_with failed_known_with
attempts_exhausted d p v attempts used h = ground arith
