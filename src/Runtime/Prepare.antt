-- ===== src/Runtime/Prepare.antt =====
-- runtime.py: `prepare` and `_persist_prepared`, which settles what a failed write left behind.
use threvo_actions.Prelude.{
  ◌+◌, not, Option, none, some, [], ◌∷◌, ◌==◌, ◌!=◌, string_eq, if◌then◌else◌, option_eq,
}
use threvo_actions.Model.{
  SafeReference, Timestamp, ProposalIdentity, LifecycleStatus, RequestingPrincipal, ProposingAgent,
}
use threvo_actions.Reason
use threvo_actions.Json.{object}
use threvo_actions.Result.{
  Error, Result, ok, err, authorization_denied, invalid_action_result, persistence_outcome_unknown,
}
use threvo_actions.Canonical.{
  Platform, KeyedCommitment, ProtectedPayload, canonicalize_v1, commitment_payload_v1,
}
use threvo_actions.Receipts.{ReceiptBody, ProposalReceiptStatus, proposal_prepared}
use threvo_actions.Proposal.{StoredProposal, stored_proposal_eq}
use threvo_actions.Store.{create}
use threvo_actions.Registry.{ActionDefinition, ModelInstance, PreparationContext, PreparedAction}
use threvo_actions.Lifecycle.{OperationOutcome, ActionOperationResult, result}
use threvo_actions.Exec.{
  Exec, Environment, pure, raise, lift, ask, attempt, call_store, clock_now, new_identifier, ◌>>=◌,
  ◌>>◌,
}
use threvo_actions.Runtime.Common.{
  or_else, is_exception, store_get, emit, create_commitment, protect_payload, destroy_payload,
  destroy_commitment,
}

-- `_validate_prepared`
unfoldable pub validate_prepared : ActionDefinition → PreparedAction → Exec (Unit {0})
validate_prepared d prepared =
    if prepared.private_snapshot.model != d.private_snapshot_model
    then raise (invalid_action_result "preparation returned the wrong private snapshot model")
    else if prepared.display_preview.model != d.display_preview_model
    then raise (invalid_action_result "preparation returned the wrong display preview model")
    else pure tt

module _ (platform : Platform) (env : Environment) (d : ActionDefinition) where
  -- Destroy what was made for a proposal that is not stored; a failure to do so is only noted.
  unfoldable pub compensate :
      ProposalIdentity → Option ProtectedPayload → KeyedCommitment → Exec (Unit {0})
  compensate identity none commitment = do
    attempt (destroy_commitment d.commitment_provider identity commitment)
    pure tt
  compensate identity (some payload) commitment = do
    attempt (destroy_payload d.protection_codec identity payload)
    attempt (destroy_commitment d.commitment_provider identity commitment)
    pure tt

  -- The `except` clause after an attempt to create `p`: the stored record decides.
  unfoldable pub settle_creation :
      ProposalIdentity
      → ProtectedPayload
      → KeyedCommitment
      → StoredProposal
      → Error
      → Result (Option StoredProposal)
      → Exec StoredProposal
  settle_creation identity payload commitment p failure (err reading) =
      -- A bare `raise` in the handler of the read raises that handler's exception.
      raise (if is_exception failure then persistence_outcome_unknown identity else reading)
  settle_creation identity payload commitment p failure (ok persisted) =
      if persisted == some p
      then (if is_exception failure then pure p else raise failure)
      else (do compensate identity (some payload) commitment; raise failure)

  -- The read that asks whether a failed creation was stored after all.
  unfoldable pub recover_creation :
      ProposalIdentity
      → ProtectedPayload
      → KeyedCommitment
      → StoredProposal
      → Error
      → Exec StoredProposal
  unfolding settle_creation
  recover_creation identity payload commitment p failure = do
    persisted ← attempt (store_get env identity.tenant_reference identity.proposal_reference)
    settle_creation identity payload commitment p failure persisted

  -- `await self._store.create(record)` inside the `try`.
  unfoldable pub create_record :
      ProposalIdentity → ProtectedPayload → KeyedCommitment → StoredProposal → Exec StoredProposal
  unfolding recover_creation
  create_record identity payload commitment p = do
    created ← attempt (call_store env (create p))
    elim created [
      | ok _ ↦ pure p
      | err failure ↦ recover_creation identity payload commitment p failure
    ]

  -- The stored proposal that a prepared action becomes.
  unfoldable pub prepared_record :
      ProposalIdentity
      → PreparedAction
      → RequestingPrincipal
      → Option ProposingAgent
      → Timestamp
      → KeyedCommitment
      → ProtectedPayload
      → Exec StoredProposal
  prepared_record identity prepared principal agent now commitment payload = do
    receipt_reference ← new_identifier env "receipt"
    let p : StoredProposal = record {
      tenant_reference = identity.tenant_reference;
      proposal_reference = identity.proposal_reference;
      action_type = d.action_type;
      semantic_effect_reference = prepared.semantic_effect_reference;
      effect_kind = d.effect_kind;
      lifecycle_status = LifecycleStatus.awaiting_authority;
      revision = 0;
      protected_private_snapshot = some payload;
      commitment = some commitment;
      display_preview = prepared.display_preview.json;
      requesting_principal = some principal;
      proposing_agent = agent;
      created_at = now;
      expires_at = now + d.proposal_ttl;
      authority_evidence = [];
      receipts =
          (record {
            receipt_reference = receipt_reference;
            correlation_reference = identity.proposal_reference;
            causation_reference = identity.proposal_reference;
            observed_at = now;
            runtime_revision = some env.runtime_revision;
            external_reference = none;
            corrects_receipt_reference = none;
            supersedes_receipt_reference = none;
            reason_code = none;
            body = ReceiptBody.proposal ProposalReceiptStatus.prepared principal agent;
          })
          ∷ [];
      verification_attempts = 0;
      max_verification_attempts = d.max_verification_attempts;
      next_verification_at = none;
      safe_result = none;
      execution_precondition = none;
      superseded_by = none;
      erasure_pending_at = none;
      erased_at = none;
    }
    lift (env.construct p)
    pure p

  unfoldable pub fresh_reference : Option SafeReference → Exec SafeReference
  fresh_reference none = new_identifier env "proposal"
  fresh_reference (some reference) = pure reference

  -- Before the creation is attempted nothing can be stored, so a raise is compensated at once.
  unfoldable pub store_made :
      ProposalIdentity
      → ProtectedPayload
      → KeyedCommitment
      → Result StoredProposal
      → Exec StoredProposal
  store_made identity payload commitment (ok p) = create_record identity payload commitment p
  store_made identity payload commitment (err failure) = do
    compensate identity (some payload) commitment
    raise failure

  -- From the answer of the protection codec.
  unfoldable pub persist_protected :
      ProposalIdentity
      → PreparedAction
      → RequestingPrincipal
      → Option ProposingAgent
      → Timestamp
      → KeyedCommitment
      → Result ProtectedPayload
      → Exec StoredProposal
  unfolding store_made
  persist_protected identity prepared principal agent now commitment (err failure) = do
    compensate identity none commitment
    raise failure
  persist_protected identity prepared principal agent now commitment (ok payload) = do
    made ← attempt (prepared_record identity prepared principal agent now commitment payload)
    store_made identity payload commitment made

  -- `_persist_prepared`
  unfoldable pub persist_prepared :
      SafeReference
      → PreparedAction
      → RequestingPrincipal
      → Option ProposingAgent
      → Timestamp
      → Option SafeReference
      → Exec StoredProposal
  unfolding fresh_reference
  persist_prepared tenant prepared principal agent now proposal_reference = do
    reference ← fresh_reference proposal_reference
    let identity : ProposalIdentity = record {
      tenant_reference = tenant;
      proposal_reference = reference;
    }
    canonical ← lift (canonicalize_v1 platform (object prepared.private_snapshot.json))
    commitment ←
        create_commitment d.commitment_provider identity
          (commitment_payload_v1 platform reference canonical)
    protected ← attempt (protect_payload d.protection_codec identity canonical)
    persist_protected identity prepared principal agent now commitment protected

  unfoldable pub prepare :
      SafeReference
      → ModelInstance
      → RequestingPrincipal
      → Option ProposingAgent
      → Option SafeReference
      → Exec ActionOperationResult
  prepare tenant command principal agent proposal_reference = do
    now ← clock_now env
    let context : PreparationContext = record {
      tenant_reference = tenant;
      requesting_principal = principal;
      proposing_agent = agent;
      prepared_at = now;
    }
    authorization ← ask (λ n. d.can_prepare n command context)
    if not authorization.allowed
        then raise (authorization_denied (or_else authorization.reason_code Reason.prepare_denied))
        else (do
          prepared ← ask (λ n. d.prepare n command context)
          validate_prepared d prepared
          p ← persist_prepared tenant prepared principal agent now proposal_reference
          emit env p proposal_prepared now none
          pure (record (result p OperationOutcome.prepared none) {
            display_preview = p.display_preview;
          }))
