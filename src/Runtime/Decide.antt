-- ===== src/Runtime/Decide.antt =====
-- runtime.py: `record_authority` and `expire_due`.
use threvo_actions.Prelude.{
  ◌+◌, not, Option, none, some, List, [], ◌∷◌, ◌++◌, ◌==◌, ◌!=◌, string_eq, contains, leb, ltb,
  if◌then◌else◌,
}
use threvo_actions.Model.{
  SafeReference, Timestamp, LifecycleStatus, lifecycle_status_eq, ConfirmingAuthority,
  confirming_authority_eq,
}
use threvo_actions.Reason
use threvo_actions.Result.{invalid_authority_evidence, proposal_not_found}
use threvo_actions.Canonical.{KeyedCommitment}
use threvo_actions.Authority.{
  AuthorityBinding, AuthorityEvidence, authority_evidence_eq, reject, authority_decision_eq,
  AuthorityValidationFailure, binding_mismatch, not_yet_valid, validate_authority_evidence,
}
use threvo_actions.Receipts.{
  ReceiptBody, AuthorityReceiptStatus, authority_recorded, lifecycle_changed,
}
use threvo_actions.Proposal.{StoredProposal}
use threvo_actions.Registry.{ActionDefinition, AuthorityEvaluation, DecisionContext}
use threvo_actions.Lifecycle.{OperationOutcome, ActionOperationResult, result, outcome_for}
use threvo_actions.Exec.{Exec, Environment, pure, raise, ask, clock_now, ◌>>=◌, ◌>>◌}
use threvo_actions.Runtime.Common.{
  or_else, required, cas, emit, new_receipt, check_live, authority_binding,
  valid_authority_evidence,
}

-- The copy of a record that its lifetime has ended.
unfoldable pub expired_record : StoredProposal → StoredProposal
expired_record p = record p {
  lifecycle_status = LifecycleStatus.expired;
  revision = p.revision + 1;
}

unfoldable pub failure_name : Option AuthorityValidationFailure → SafeReference
failure_name none = "invalid_evidence"
failure_name (some binding_mismatch) = "binding_mismatch"
failure_name (some AuthorityValidationFailure.expired) = "expired"
failure_name (some not_yet_valid) = "not_yet_valid"

-- What one decision does to the proposal.
pub record Decided : Type 0 where
  pub target_status : LifecycleStatus
  pub outcome : OperationOutcome
  pub receipt_status : AuthorityReceiptStatus
  pub reason_code : Option SafeReference

unfoldable pub rejection : Decided
rejection = record {
  target_status = LifecycleStatus.denied;
  outcome = OperationOutcome.denied;
  receipt_status = AuthorityReceiptStatus.rejected;
  reason_code = some Reason.authority_rejected;
}

unfoldable pub approval : AuthorityEvaluation → Decided
approval evaluation = record {
  target_status =
      if evaluation.satisfied
      then LifecycleStatus.authorized
      else LifecycleStatus.awaiting_authority;
  outcome =
      if evaluation.satisfied
      then OperationOutcome.authorized
      else OperationOutcome.authority_pending;
  receipt_status = AuthorityReceiptStatus.recorded;
  reason_code = evaluation.reason_code;
}

module _ (env : Environment) (d : ActionDefinition) where
  -- The branch on the decision, over the evidence with the new piece at its end.
  unfoldable pub decide_status :
      AuthorityEvidence → List AuthorityEvidence → AuthorityBinding → Timestamp → Exec Decided
  decide_status evidence accumulated binding now =
      if evidence.decision == reject then pure rejection else (do
        evaluation ←
            ask (λ n. d.evaluate n binding (valid_authority_evidence accumulated binding now))
        pure (approval evaluation))

  -- From the validated evidence to the written record.
  unfoldable pub write_decision :
      StoredProposal → AuthorityEvidence → AuthorityBinding → Timestamp → Exec ActionOperationResult
  write_decision p evidence binding now = do
    let accumulated = p.authority_evidence ++ (evidence ∷ [])
    decided ← decide_status evidence accumulated binding now
    receipt ←
        new_receipt env p now (ReceiptBody.authority decided.receipt_status evidence.authority)
          decided.reason_code
    let updated : StoredProposal = record p {
      authority_evidence = accumulated;
      receipts = p.receipts ++ (receipt ∷ []);
      lifecycle_status = decided.target_status;
      revision = p.revision + 1;
    }
    written ← cas env p updated
    if written
        then (do
          emit env updated authority_recorded now decided.reason_code
          pure (result updated decided.outcome decided.reason_code))
        else (do
          current ← required env p.tenant_reference p.proposal_reference
          pure (
              result current
                (if contains current.authority_evidence evidence
                  then OperationOutcome.replayed
                  else OperationOutcome.conflict)
                none))

  unfoldable pub validated_decision :
      StoredProposal
      → AuthorityEvidence
      → Timestamp
      → Option KeyedCommitment
      → Exec ActionOperationResult
  validated_decision p evidence now none =
      raise (invalid_authority_evidence "proposal commitment is unavailable")
  validated_decision p evidence now (some commitment) =
      let binding = authority_binding d p commitment in
      let validation = validate_authority_evidence evidence binding now in
      if not validation.valid
      then raise (invalid_authority_evidence (failure_name validation.failure))
      else write_decision p evidence binding now

  -- An expiry that `record_authority` finds.
  unfoldable pub expire_undecided :
      StoredProposal → SafeReference → SafeReference → Exec ActionOperationResult
  expire_undecided p tenant reference = do
    written ← cas env p (expired_record p)
    if written then pure (result (expired_record p) OperationOutcome.expired none) else (do
      current ← required env tenant reference
      pure (result current OperationOutcome.conflict none))

  unfoldable pub record_authority :
      AuthorityEvidence → ConfirmingAuthority → Option SafeReference → Exec ActionOperationResult
  unfolding validated_decision
  record_authority evidence authenticated proposal_reference = do
    let reference = or_else proposal_reference evidence.proposal_instance_reference
    p ← required env evidence.tenant_reference reference
    now ← clock_now env
    check_live env d p
    if evidence.authority != authenticated
        then raise (invalid_authority_evidence "authenticated authority does not match evidence")
        else (do
          let context : DecisionContext = record {
            tenant_reference = p.tenant_reference;
            authority = authenticated;
            decided_at = now;
          }
          authorization ← ask (λ n. d.can_decide n evidence context)
          if not authorization.allowed
              then raise proposal_not_found
              else if contains p.authority_evidence evidence
              then pure (result p OperationOutcome.replayed none)
              else if p.lifecycle_status != LifecycleStatus.awaiting_authority
              then pure (result p (outcome_for p.lifecycle_status) none)
              else if leb p.expires_at now
              then expire_undecided p evidence.tenant_reference reference
              else validated_decision p evidence now p.commitment)

  unfoldable pub expire_due : SafeReference → SafeReference → Exec ActionOperationResult
  expire_due tenant reference = do
    p ← required env tenant reference
    check_live env d p
    if not (
          contains (LifecycleStatus.awaiting_authority ∷ LifecycleStatus.authorized ∷ [])
            p.lifecycle_status)
        then pure (result p (outcome_for p.lifecycle_status) none)
        else (do
          now ← clock_now env
          if ltb now p.expires_at
              then pure (result p (outcome_for p.lifecycle_status) none)
              else (do
                written ← cas env p (expired_record p)
                if written
                    then (do
                      emit env (expired_record p) lifecycle_changed now
                          (some Reason.proposal_expired)
                      pure (
                          result (expired_record p) OperationOutcome.expired
                            (some Reason.proposal_expired)))
                    else (do
                      current ← required env tenant reference
                      pure (result current OperationOutcome.conflict none))))
