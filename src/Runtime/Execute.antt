-- ===== src/Runtime/Execute.antt =====
-- runtime.py: `execute` up to the executor's answer, `_load_private` and `_supersede_stale`.
use threvo_actions.Prelude.{
  ◌+◌, not, Option, none, some, List, [], ◌∷◌, ◌++◌, ◌==◌, ◌!=◌, string_eq, nat_eq, leb,
  if◌then◌else◌, length, list_eq,
}
use threvo_actions.Model.{
  SafeReference, Timestamp, RequestingPrincipal, LifecycleStatus, lifecycle_status_eq,
}
use threvo_actions.Reason
use threvo_actions.Result.{
  Result, ok, err, proposal_not_found, invalid_action_result, key_error, value_error,
}
use threvo_actions.Canonical.{
  Platform, Bytes, KeyedCommitment, ProtectedPayload, commitment_payload_v1,
}
use threvo_actions.Authority.{AuthorityBinding, AuthorityEvidence, authority_evidence_eq}
use threvo_actions.Receipts.{ReceiptBody, ExecutionReceiptStatus, lifecycle_changed}
use threvo_actions.Proposal.{StoredProposal, EffectClaimResult, conflict, not_found, not_authorized}
use threvo_actions.Store.{admit_execution}
use threvo_actions.Registry.{
  ActionDefinition, ModelInstance, ExecutionContext, ExecutionStatus, ResolvedState, PreparedAction,
  AuthorityEvaluation,
}
use threvo_actions.Lifecycle.{OperationOutcome, ActionOperationResult, result, outcome_for}
use threvo_actions.Exec.{
  Exec, Environment, executor_called, pure, raise, lift, ask, attempt, observe, current_store,
  call_store, clock_now, ◌>>=◌, ◌>>◌,
}
use threvo_actions.Runtime.Common.{
  or_else, store_key, identity_of, required, cas, emit, new_receipt, check_live, authority_binding,
  valid_authority_evidence, evaluate_authority, execution_context, block, unprotect_payload,
  verify_commitment,
}
use threvo_actions.Runtime.Prepare.{validate_prepared, persist_prepared}
use threvo_actions.Runtime.Decide.{expired_record}
use threvo_actions.Runtime.Settle.{settle_execution}

-- `except (KeyError, ValueError): return None`
unfoldable pub readable : Result Bytes → Exec (Option Bytes)
readable (ok canonical) = pure (some canonical)
readable (err key_error) = pure none
readable (err value_error) = pure none
readable (err e) = raise e

module _ (platform : Platform) (env : Environment) (d : ActionDefinition) where
  unfoldable pub verified_snapshot :
      StoredProposal → KeyedCommitment → Option Bytes → Exec (Option ModelInstance)
  verified_snapshot p commitment none = pure none
  verified_snapshot p commitment (some canonical) = do
    verified ←
        verify_commitment d.commitment_provider (identity_of p)
          (commitment_payload_v1 platform p.proposal_reference canonical) commitment
    if not verified
        then pure none
        else (do snapshot ← lift (d.validate_json canonical); pure (some snapshot))

  unfoldable pub open_snapshot :
      StoredProposal
      → Option ProtectedPayload
      → Option KeyedCommitment
      → Exec (Option ModelInstance)
  open_snapshot p none commitment = pure none
  open_snapshot p (some payload) none = pure none
  open_snapshot p (some payload) (some commitment) = do
    opened ← attempt (unprotect_payload d.protection_codec (identity_of p) payload)
    canonical ← readable opened
    verified_snapshot p commitment canonical

  -- `_load_private`
  unfoldable pub load_private : StoredProposal → Exec (Option ModelInstance)
  unfolding open_snapshot verified_snapshot readable
  load_private p = open_snapshot p p.protected_private_snapshot p.commitment

  unfoldable pub replace :
      StoredProposal
      → StoredProposal
      → PreparedAction
      → Timestamp
      → Option RequestingPrincipal
      → Exec (StoredProposal × Option SafeReference)
  replace p stale replacement now none =
      raise (invalid_action_result "stale replacement lost requesting principal")
  replace p stale replacement now (some principal) = do
    validate_prepared d replacement
    fresh ←
        persist_prepared platform env d p.tenant_reference replacement principal p.proposing_agent
          now none
    let superseded : StoredProposal = record stale {
      lifecycle_status = LifecycleStatus.superseded;
      superseded_by = some fresh.proposal_reference;
      revision = stale.revision + 1;
    }
    written ← cas env stale superseded
    pure ((if written then superseded else stale), some fresh.proposal_reference)

  -- The replacement of a stale proposal, and the link to it.
  unfoldable pub supersede :
      StoredProposal
      → StoredProposal
      → Option PreparedAction
      → Timestamp
      → Exec (StoredProposal × Option SafeReference)
  supersede p stale none now = pure (stale, none)
  supersede p stale (some replacement) now = replace p stale replacement now p.requesting_principal

  -- `_supersede_stale`
  unfoldable pub supersede_stale :
      StoredProposal → Option PreparedAction → Timestamp → Exec ActionOperationResult
  unfolding supersede replace
  supersede_stale p replacement now = do
    receipt ←
        new_receipt env p now
          (ReceiptBody.execution ExecutionReceiptStatus.failed_known d.executor_identity [])
          (some Reason.material_drift)
    let stale : StoredProposal = record p {
      lifecycle_status = LifecycleStatus.stale;
      receipts = p.receipts ++ (receipt ∷ []);
      revision = p.revision + 1;
    }
    written ← cas env p stale
    if not written
        then (do
          current ← required env p.tenant_reference p.proposal_reference
          pure (result current OperationOutcome.conflict none))
        else (do
          superseded ← supersede p stale replacement now
          emit env superseded.0 lifecycle_changed now (some Reason.material_drift)
          pure (record (result superseded.0 OperationOutcome.stale (some Reason.material_drift)) {
            fresh_proposal_reference = superseded.1;
          }))

  -- An expiry that `execute` finds; a lost write is answered from the record at hand.
  unfoldable pub expire_unexecuted : StoredProposal → Exec ActionOperationResult
  expire_unexecuted p = do
    written ← cas env p (expired_record p)
    if written
        then pure (result (expired_record p) OperationOutcome.expired none)
        else pure (result p OperationOutcome.conflict none)

  -- The reason code of a proposal whose authority is no longer satisfied.
  unfoldable pub authority_reason :
      StoredProposal → List AuthorityEvidence → AuthorityEvaluation → SafeReference
  authority_reason p valid evaluation =
      if length valid != length p.authority_evidence
      then Reason.authority_expired
      else or_else evaluation.reason_code Reason.authority_no_longer_satisfied

  -- The last tests, at the moment of the call itself, after the admission.
  unfoldable pub refusal :
      StoredProposal
      → List AuthorityEvidence
      → AuthorityBinding
      → Timestamp
      → Timestamp
      → Option SafeReference
  refusal p valid binding admitted_at execution_at =
      if leb p.expires_at execution_at
      then some Reason.proposal_expired
      else if valid_authority_evidence valid binding execution_at != valid
      then some Reason.authority_expired
      else if leb (admitted_at + d.verification_lease_duration) execution_at
      then some Reason.execution_lease_expired
      else none

  -- The executor's answer, and its settlement.
  unfoldable pub await_executor :
      StoredProposal → ResolvedState → ExecutionContext → Exec ActionOperationResult
  await_executor executing resolved context = do
    execution ←
        ask (λ n. d.execute n resolved.current_snapshot context resolved.execution_precondition)
    settled_at ← clock_now env
    settle_execution env d executing execution settled_at

  -- The call itself, noted with the store that it is made under.
  unfoldable pub start_executor :
      StoredProposal → ResolvedState → ExecutionContext → Exec ActionOperationResult
  start_executor executing resolved context = do
    store ← current_store
    observe (executor_called context resolved.execution_precondition store)
    await_executor executing resolved context

  -- The call of the governed executor.
  unfoldable pub call_executor :
      StoredProposal
      → StoredProposal
      → List AuthorityEvidence
      → ResolvedState
      → Timestamp
      → Exec ActionOperationResult
  call_executor p executing valid resolved execution_at = do
    context ← execution_context p execution_at valid
    start_executor executing resolved context

  unfoldable pub after_refusal :
      StoredProposal
      → StoredProposal
      → List AuthorityEvidence
      → ResolvedState
      → Timestamp
      → Option SafeReference
      → Exec ActionOperationResult
  after_refusal p executing valid resolved execution_at (some reason) =
      settle_execution env d executing
        (record {
          status = ExecutionStatus.failed_known;
          result = none;
          item_outcomes = [];
          external_reference = none;
          reason_code = some reason;
        })
        execution_at
  after_refusal p executing valid resolved execution_at none =
      call_executor p executing valid resolved execution_at

  -- From a granted admission to the settled execution.
  unfoldable pub execute_admitted :
      StoredProposal
      → StoredProposal
      → List AuthorityEvidence
      → AuthorityBinding
      → ResolvedState
      → Timestamp
      → Exec ActionOperationResult
  execute_admitted p executing valid binding resolved admitted_at = do
    execution_at ← clock_now env
    after_refusal p executing valid resolved execution_at
        (refusal p valid binding admitted_at execution_at)

  -- The branch on the result of the admission.
  unfoldable pub after_claim :
      StoredProposal
      → StoredProposal
      → List AuthorityEvidence
      → AuthorityBinding
      → ResolvedState
      → Timestamp
      → EffectClaimResult
      → Exec ActionOperationResult
  after_claim p executing valid binding resolved admitted_at conflict = do
    current ← required env p.tenant_reference p.proposal_reference
    pure (
        result current
          (if current.lifecycle_status == LifecycleStatus.executing
            then OperationOutcome.in_progress
            else OperationOutcome.replayed)
          none)
  after_claim p executing valid binding resolved admitted_at not_found = raise proposal_not_found
  after_claim p executing valid binding resolved admitted_at not_authorized = do
    current ← required env p.tenant_reference p.proposal_reference
    pure (result current (outcome_for current.lifecycle_status) none)
  after_claim p executing valid binding resolved admitted_at granted =
      execute_admitted p executing valid binding resolved admitted_at

  -- The started receipt, the record in execution and the admission.
  unfoldable pub admit :
      StoredProposal
      → List AuthorityEvidence
      → AuthorityBinding
      → ResolvedState
      → Timestamp
      → Exec ActionOperationResult
  admit p valid binding resolved admitted_at = do
    receipt ←
        new_receipt env p admitted_at
          (ReceiptBody.execution ExecutionReceiptStatus.started d.executor_identity []) none
    let executing : StoredProposal = record p {
      execution_precondition = some resolved.execution_precondition;
      lifecycle_status = LifecycleStatus.executing;
      next_verification_at = some (admitted_at + d.verification_lease_duration);
      receipts = p.receipts ++ (receipt ∷ []);
      revision = p.revision + 1;
    }
    claim ← call_store env (
        admit_execution (store_key p.tenant_reference p.proposal_reference) p.revision admitted_at
          executing)
    after_claim p executing valid binding resolved admitted_at claim

  -- The tests that repeat after the host has authorized the execution.
  unfoldable pub recheck :
      StoredProposal
      → List AuthorityEvidence
      → AuthorityBinding
      → ResolvedState
      → Exec ActionOperationResult
  recheck p valid binding resolved = do
    admitted_at ← clock_now env
    if leb p.expires_at admitted_at
        then expire_unexecuted p
        else if valid_authority_evidence valid binding admitted_at != valid
        then block env p admitted_at Reason.authority_expired
        else admit p valid binding resolved admitted_at

  -- After the state is found unchanged: authority and authorization once more, at a new time.
  unfoldable pub reauthorize :
      StoredProposal → AuthorityBinding → ResolvedState → Exec ActionOperationResult
  reauthorize p binding resolved = do
    admitted_at ← clock_now env
    if leb p.expires_at admitted_at then expire_unexecuted p else (do
      let valid = valid_authority_evidence p.authority_evidence binding admitted_at
      evaluation ← evaluate_authority d p binding admitted_at
      if not evaluation.satisfied
          then block env p admitted_at (authority_reason p valid evaluation)
          else (do
            context ← execution_context p admitted_at valid
            live ← ask (λ n. d.can_execute n resolved.current_snapshot context)
            if not live.allowed
                then block env p admitted_at
                    (or_else live.reason_code Reason.reauthorization_failed)
                else recheck p valid binding resolved))

  -- The host's view of the current state.
  unfoldable pub resolve_state :
      StoredProposal
      → ModelInstance
      → AuthorityBinding
      → List AuthorityEvidence
      → Timestamp
      → Exec ActionOperationResult
  resolve_state p snapshot binding valid now = do
    context ← execution_context p now valid
    resolved ← ask (λ n. d.resolve n snapshot context)
    if resolved.current_snapshot.model != d.private_snapshot_model
        then raise (invalid_action_result "state resolver returned the wrong snapshot model")
        else if resolved.materially_drifted
        then supersede_stale p resolved.replacement now
        else reauthorize p binding resolved

  unfoldable pub evaluate_first :
      StoredProposal
      → ModelInstance
      → Option KeyedCommitment
      → Timestamp
      → Exec ActionOperationResult
  evaluate_first p snapshot none now = block env p now Reason.proposal_commitment_unavailable
  evaluate_first p snapshot (some commitment) now = do
    let binding = authority_binding d p commitment
    let valid = valid_authority_evidence p.authority_evidence binding now
    evaluation ← evaluate_authority d p binding now
    if not evaluation.satisfied
        then block env p now (authority_reason p valid evaluation)
        else resolve_state p snapshot binding valid now

  unfoldable pub with_snapshot :
      StoredProposal → Timestamp → Option ModelInstance → Exec ActionOperationResult
  with_snapshot p now none = block env p now Reason.private_snapshot_unavailable
  with_snapshot p now (some snapshot) = evaluate_first p snapshot p.commitment now

  unfoldable pub execute : SafeReference → SafeReference → Exec ActionOperationResult
  unfolding with_snapshot evaluate_first
  execute tenant reference = do
    p ← required env tenant reference
    check_live env d p
    if p.lifecycle_status == LifecycleStatus.awaiting_authority
        then pure (result p OperationOutcome.authority_pending none)
        else if p.lifecycle_status != LifecycleStatus.authorized
        then pure (result p (outcome_for p.lifecycle_status) none)
        else (do
          now ← clock_now env
          if leb p.expires_at now
              then expire_unexecuted p
              else (do snapshot ← load_private p; with_snapshot p now snapshot))
