-- ===== src/Runtime/Common.antt =====
-- runtime.py: the private helpers of `ActionRuntime`, and the calls of a host's custody ports.
use threvo_actions.Prelude.{
  ◌+◌, Bool, true, false, ◌||◌, Option, none, some, List, [], ◌∷◌, ◌++◌, map, ◌==◌, ◌!=◌, string_eq,
  keep, is_some, reverse, if◌then◌else◌, list_eq,
}
use threvo_actions.Model.{
  SafeReference, Timestamp, action_type_eq, ProposalIdentity, LifecycleStatus, RequestingPrincipal,
  ConfirmingAuthority,
}
use threvo_actions.Result.{
  Error, Result, ok, err, proposal_not_found, invalid_action_result, cancelled,
}
use threvo_actions.Canonical.{Bytes, KeyedCommitment, ProtectedPayload}
use threvo_actions.Authority.{
  AuthorityBinding, AuthorityEvidence, approve, authority_decision_eq, validate_authority_evidence,
}
use threvo_actions.Receipts.{
  Receipt, ReceiptBody, authority, RuntimeEvent, RuntimeEventType, lifecycle_changed,
  AuthorityReceiptStatus,
}
use threvo_actions.Proposal.{StoredProposal}
use threvo_actions.Store.{ProposalKey, get, compare_and_set}
use threvo_actions.Registry.{
  ActionDefinition, ModelInstance, ExecutionContext, AuthorityEvaluation, CommitmentProvider,
  plain_provider, proposal_bound_provider, ProtectionCodec, plain_codec, proposal_bound_codec,
}
use threvo_actions.Lifecycle.{OperationOutcome, conflict, ActionOperationResult, result}
use threvo_actions.Exec.{
  Exec, Environment, payload_destroyed, commitment_destroyed, event_emitted, pure, raise, ask,
  attempt, observe, call_store, new_identifier, ◌>>=◌, ◌>>◌,
}

-- `a or b` on an optional reference: an empty text counts as absent.
unfoldable pub or_else : Option SafeReference → SafeReference → SafeReference
or_else none b = b
or_else (some a) b = if a == "" then b else a

-- An `except Exception` clause takes the error: `CancelledError` is none.
unfoldable pub is_exception : Error → Bool
is_exception cancelled = false
is_exception _ = true

abbrev pub identity_of : StoredProposal → ProposalIdentity
identity_of p = record {
  tenant_reference = p.tenant_reference;
  proposal_reference = p.proposal_reference;
}

abbrev pub store_key : SafeReference → SafeReference → ProposalKey
store_key tenant proposal = record { tenant = tenant; proposal = proposal }

-- The test that each operation makes of a record's erasure marks.
unfoldable pub is_erased : StoredProposal → Bool
is_erased p = is_some p.erasure_pending_at || is_some p.erased_at

module _ (env : Environment) where
  unfoldable pub store_get : SafeReference → SafeReference → Exec (Option StoredProposal)
  store_get tenant proposal = call_store env (λ s. (ok (get s (store_key tenant proposal)), s))

  unfoldable pub check_required :
      SafeReference → SafeReference → Option StoredProposal → Exec StoredProposal
  check_required tenant proposal none = raise proposal_not_found
  check_required tenant proposal (some p) =
      if p.tenant_reference != tenant || p.proposal_reference != proposal
      then raise proposal_not_found
      else pure p

  -- `_required`
  unfoldable pub required : SafeReference → SafeReference → Exec StoredProposal
  unfolding check_required
  required tenant proposal = do
    found ← store_get tenant proposal
    check_required tenant proposal found

  -- `_cas`
  unfoldable pub cas : StoredProposal → StoredProposal → Exec Bool
  cas current updated = call_store env (
      compare_and_set (store_key current.tenant_reference current.proposal_reference)
        current.revision (current.lifecycle_status ∷ []) updated)

  -- A failure of the event sink is logged, unless it is no `Exception`.
  unfoldable pub swallow : Result (Unit {0}) → Exec (Unit {0})
  swallow (ok _) = pure tt
  swallow (err e) = if is_exception e then pure tt else raise e

  -- `_emit`
  unfoldable pub emit :
      StoredProposal → RuntimeEventType → Timestamp → Option SafeReference → Exec (Unit {0})
  unfolding swallow
  emit p event_type observed_at reason_code = do
    let event : RuntimeEvent = record {
      event_type = event_type;
      tenant_reference = p.tenant_reference;
      proposal_reference = p.proposal_reference;
      action_type = p.action_type;
      lifecycle_status = p.lifecycle_status;
      correlation_reference = p.proposal_reference;
      observed_at = observed_at;
      reason_code = reason_code;
    }
    observe (event_emitted event)
    delivered ← attempt (ask (λ n. env.event_sink n event))
    swallow delivered

  -- A receipt with the runtime's defaults, caused by the proposal.
  unfoldable pub new_receipt :
      StoredProposal → Timestamp → ReceiptBody → Option SafeReference → Exec Receipt
  new_receipt p observed_at body reason_code = do
    reference ← new_identifier env "receipt"
    pure (record {
      receipt_reference = reference;
      correlation_reference = p.proposal_reference;
      causation_reference = p.proposal_reference;
      observed_at = observed_at;
      runtime_revision = some env.runtime_revision;
      external_reference = none;
      corrects_receipt_reference = none;
      supersedes_receipt_reference = none;
      reason_code = reason_code;
      body = body;
    })

  -- `raise ProposalNotFoundError` unless the record is of this action and, where the operation
  -- asks for it, not erased.
  unfoldable pub check_live : ActionDefinition → StoredProposal → Exec (Unit {0})
  check_live d p =
      if p.action_type != d.action_type || is_erased p then raise proposal_not_found else pure tt

-- `_destroy_payload` and `_destroy_commitment`
unfoldable pub destroy_payload :
    ProtectionCodec → ProposalIdentity → ProtectedPayload → Exec (Unit {0})
destroy_payload (plain_codec _ _ destroy) identity payload = do
  observe (payload_destroyed identity payload)
  ask (λ n. destroy n payload)
destroy_payload (proposal_bound_codec _ _ destroy) identity payload = do
  observe (payload_destroyed identity payload)
  ask (λ n. destroy n identity payload)

unfoldable pub destroy_commitment :
    CommitmentProvider → ProposalIdentity → KeyedCommitment → Exec (Unit {0})
destroy_commitment (plain_provider _ _ destroy) identity commitment = do
  observe (commitment_destroyed identity commitment)
  ask (λ n. destroy n commitment)
destroy_commitment (proposal_bound_provider _ _ destroy) identity commitment = do
  observe (commitment_destroyed identity commitment)
  ask (λ n. destroy n identity commitment)

-- `_create_commitment` and `_verify_commitment`
unfoldable pub create_commitment :
    CommitmentProvider → ProposalIdentity → Bytes → Exec KeyedCommitment
create_commitment (plain_provider create _ _) identity payload =
    ask (λ n. create n identity.proposal_reference payload)
create_commitment (proposal_bound_provider create _ _) identity payload =
    ask (λ n. create n identity payload)

unfoldable pub verify_commitment :
    CommitmentProvider → ProposalIdentity → Bytes → KeyedCommitment → Exec Bool
verify_commitment (plain_provider _ verify _) identity payload commitment =
    ask (λ n. verify n identity.proposal_reference payload commitment)
verify_commitment (proposal_bound_provider _ verify _) identity payload commitment =
    ask (λ n. verify n identity payload commitment)

-- `_protect_payload` and `_unprotect_payload`
unfoldable pub protect_payload : ProtectionCodec → ProposalIdentity → Bytes → Exec ProtectedPayload
protect_payload (plain_codec protect _ _) identity payload =
    ask (λ n. protect n identity.proposal_reference payload)
protect_payload (proposal_bound_codec protect _ _) identity payload =
    ask (λ n. protect n identity payload)

unfoldable pub unprotect_payload :
    ProtectionCodec → ProposalIdentity → ProtectedPayload → Exec Bytes
unprotect_payload (plain_codec _ unprotect _) identity payload = ask (λ n. unprotect n payload)
unprotect_payload (proposal_bound_codec _ unprotect _) identity payload =
    ask (λ n. unprotect n identity payload)

-- `_valid_authority_evidence`
unfoldable pub valid_authority_evidence :
    List AuthorityEvidence → AuthorityBinding → Timestamp → List AuthorityEvidence
valid_authority_evidence evidence binding at =
    keep (λ e. (validate_authority_evidence e binding at).valid) evidence

-- `_evaluate_authority`: the evidence that is valid now, and the host's evaluation of it.
unfoldable pub evaluate_authority :
    ActionDefinition → StoredProposal → AuthorityBinding → Timestamp → Exec AuthorityEvaluation
evaluate_authority d p binding at =
    ask (λ n. d.evaluate n binding (valid_authority_evidence p.authority_evidence binding at))

-- The binding that a proposal with this commitment asks of its evidence.
unfoldable pub authority_binding :
    ActionDefinition → StoredProposal → KeyedCommitment → AuthorityBinding
authority_binding d p commitment = record {
  tenant_reference = p.tenant_reference;
  action_type = p.action_type;
  proposal_instance_reference = p.proposal_reference;
  semantic_effect_reference = p.semantic_effect_reference;
  proposal_commitment = commitment.digest;
  required_audience = d.authority_audience;
  required_channel_assurance = d.authority_channel_assurance;
}

unfoldable pub context_of :
    StoredProposal → Timestamp → List AuthorityEvidence → RequestingPrincipal → ExecutionContext
context_of p observed_at evidence principal = record {
  tenant_reference = p.tenant_reference;
  proposal_reference = p.proposal_reference;
  semantic_effect_reference = p.semantic_effect_reference;
  requesting_principal = principal;
  authorities = map (λ e. e.authority) (keep (λ e. e.decision == approve) evidence);
  observed_at = observed_at;
}

unfoldable pub context_for :
    StoredProposal
    → Timestamp
    → List AuthorityEvidence
    → Option RequestingPrincipal
    → Exec ExecutionContext
unfolding context_of
context_for p observed_at evidence none =
    raise (invalid_action_result "proposal has no requesting principal")
context_for p observed_at evidence (some principal) =
    pure (context_of p observed_at evidence principal)

-- `_execution_context`, of the evidence that it is given.
unfoldable pub execution_context :
    StoredProposal → Timestamp → List AuthorityEvidence → Exec ExecutionContext
unfolding context_for
execution_context p observed_at evidence = context_for p observed_at evidence p.requesting_principal

unfoldable pub find_approval : List AuthorityEvidence → Exec ConfirmingAuthority
find_approval [] = raise (invalid_action_result "authorized proposal has no approving authority")
find_approval (e ∷ rest) =
    let next = find_approval rest in if e.decision == approve then pure e.authority else next

-- `_last_authority`
unfoldable pub last_authority : StoredProposal → Exec ConfirmingAuthority
unfolding find_approval
last_authority p = find_approval (reverse p.authority_evidence)

-- `_validate_result_type`
unfoldable pub validate_result_type : ActionDefinition → Option ModelInstance → Exec (Unit {0})
validate_result_type d none = pure tt
validate_result_type d (some instance_) =
    if instance_.model != d.result_model
    then raise (invalid_action_result "host returned the wrong action result model")
    else pure tt

module _ (env : Environment) where
  -- `_block`
  unfoldable pub block : StoredProposal → Timestamp → SafeReference → Exec ActionOperationResult
  block p now reason_code = do
    participant ← last_authority p
    receipt ←
        new_receipt env p now (authority AuthorityReceiptStatus.failed participant)
          (some reason_code)
    let blocked_record : StoredProposal = record p {
      lifecycle_status = LifecycleStatus.blocked;
      receipts = p.receipts ++ (receipt ∷ []);
      revision = p.revision + 1;
    }
    written ← cas env p blocked_record
    if written
        then (do
          emit env blocked_record lifecycle_changed now (some reason_code)
          pure (result blocked_record OperationOutcome.blocked (some reason_code)))
        else (do
          current ← required env p.tenant_reference p.proposal_reference
          pure (result current conflict none))
