-- ===== src/Runtime/Erase.antt =====
-- runtime.py: `erase`, with the privileged retention store.
use threvo_actions.Prelude.{
  Bool, true, false, not, Option, none, some, ◌!=◌, is_some, is_none, if◌then◌else◌,
}
use threvo_actions.Model.{SafeReference, Timestamp, action_type_eq, ProposalIdentity}
use threvo_actions.Result.{retention_store_unavailable, proposal_not_found}
use threvo_actions.Canonical.{KeyedCommitment, ProtectedPayload}
use threvo_actions.Receipts.{proposal_erased}
use threvo_actions.Proposal.{StoredProposal}
use threvo_actions.Store.{mark_erasure_pending, complete_erasure}
use threvo_actions.Registry.{ActionDefinition, ReadContext}
use threvo_actions.Lifecycle.{OperationOutcome, ActionOperationResult, result}
use threvo_actions.Exec.{Exec, Environment, pure, raise, ask, call_store, clock_now, ◌>>=◌, ◌>>◌}
use threvo_actions.Runtime.Common.{
  store_key, identity_of, required, emit, destroy_payload, destroy_commitment,
}

module _ (env : Environment) (d : ActionDefinition) where
  unfoldable pub destroy_protected : ProposalIdentity → Option ProtectedPayload → Exec (Unit {0})
  destroy_protected identity none = pure tt
  destroy_protected identity (some payload) = destroy_payload d.protection_codec identity payload

  unfoldable pub destroy_committed : ProposalIdentity → Option KeyedCommitment → Exec (Unit {0})
  destroy_committed identity none = pure tt
  destroy_committed identity (some commitment) =
      destroy_commitment d.commitment_provider identity commitment

  -- From a record whose erasure is pending: the host's destruction first, then the tombstone.
  unfoldable pub complete :
      SafeReference → SafeReference → StoredProposal → Timestamp → Exec ActionOperationResult
  complete tenant reference p now = do
    destroy_protected (identity_of p) p.protected_private_snapshot
    destroy_committed (identity_of p) p.commitment
    completed ←
        call_store env
          (complete_erasure (store_key p.tenant_reference p.proposal_reference) p.revision now)
    current ← required env tenant reference
    if not completed
        then pure (
            result current
              (if is_some current.erased_at
                then OperationOutcome.erased
                else OperationOutcome.conflict)
              none)
        else (do
          emit env current proposal_erased now none
          pure (result current OperationOutcome.erased none))

  -- Mark the record, and read it again whether or not the mark was made.
  unfoldable pub mark :
      SafeReference → SafeReference → StoredProposal → Timestamp → Exec ActionOperationResult
  mark tenant reference p now = do
    marked ←
        call_store env
          (mark_erasure_pending (store_key p.tenant_reference p.proposal_reference) p.revision now)
    current ← required env tenant reference
    if marked
        then complete tenant reference current now
        else if is_some current.erased_at
        then pure (result current OperationOutcome.erased none)
        else if is_none current.erasure_pending_at
        then pure (result current OperationOutcome.conflict none)
        else complete tenant reference current now

  -- `retention` says whether the runtime was given a retention store.
  unfoldable pub erase : Bool → SafeReference → ReadContext → Exec ActionOperationResult
  erase false reference context = raise retention_store_unavailable
  erase true reference context = do
    authorized ← ask (λ n. d.authorize_erasure n reference context)
    if not authorized then raise proposal_not_found else (do
      p ← required env context.tenant_reference reference
      if p.action_type != d.action_type
          then raise proposal_not_found
          else if is_some p.erased_at
          then pure (result p OperationOutcome.erased none)
          else (do
            now ← clock_now env
            if is_none p.erasure_pending_at
                then mark context.tenant_reference reference p now
                else complete context.tenant_reference reference p now))
