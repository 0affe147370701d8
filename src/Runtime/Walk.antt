-- ===== src/Runtime/Walk.antt =====
-- Every operation but the executor call keeps each stable predicate: one lemma for each helper.
use threvo_actions.Prelude.{Option, none, some, List, [], ◌∷◌}
use threvo_actions.Model.{SafeReference, Timestamp, ProposalIdentity, RequestingPrincipal}
use threvo_actions.Result.{Result, ok, err}
use threvo_actions.Canonical.{Bytes, KeyedCommitment, ProtectedPayload}
use threvo_actions.Authority.{AuthorityBinding, AuthorityEvidence}
use threvo_actions.Receipts.{ReceiptBody, RuntimeEventType}
use threvo_actions.Proposal.{StoredProposal}
use threvo_actions.Store.{step, compares}
use threvo_actions.Registry.{
  ActionDefinition, ModelInstance, CommitmentProvider, plain_provider, proposal_bound_provider,
  ProtectionCodec, plain_codec, proposal_bound_codec,
}
use threvo_actions.Exec.{Environment, World, is_counted}
use threvo_actions.Exec.Keeps.{
  Keeps, IsStable, Keeps-observe, Keeps-call_store, Keeps-ask, keeps_rules, Keeps-if, Keeps-pure,
}
use threvo_actions.Runtime.Common.{
  store_get, check_required, required, cas, swallow, emit, new_receipt, check_live, destroy_payload,
  destroy_commitment, create_commitment, verify_commitment, protect_payload, unprotect_payload,
  evaluate_authority, context_for, execution_context, find_approval, last_authority,
  validate_result_type, block,
}

module _ {P : World → Type 0} (stable : IsStable P) (env : Environment) where
  pub store_get-Keeps : (t r : SafeReference) → Keeps P (store_get env t r)
  unfolding store_get
  store_get-Keeps t r = Keeps-call_store stable env _ (λ w h. h)

  check_required-Keeps :
      (t r : SafeReference) (o : Option StoredProposal) → Keeps P (check_required env t r o)
  unfolding check_required
  check_required-Keeps t r none = search keeps_rules
  check_required-Keeps t r (some p) = search keeps_rules

  pub required-Keeps : (t r : SafeReference) → Keeps P (required env t r)
  unfolding required
  required-Keeps t r = search (keeps_rules, store_get-Keeps, check_required-Keeps)

  pub cas-Keeps : (p q : StoredProposal) → Keeps P (cas env p q)
  unfolding cas step
  cas-Keeps p q = Keeps-call_store stable env _ (λ w h. stable.store w (compares _ _ _ q) h)

  swallow-Keeps : (r : Result (Unit {0})) → Keeps P (swallow env r)
  unfolding swallow
  swallow-Keeps (ok a) = search keeps_rules
  swallow-Keeps (err e) = search keeps_rules

  pub emit-Keeps :
      (p : StoredProposal) (t : RuntimeEventType) (at : Timestamp) (r : Option SafeReference)
      → Keeps P (emit env p t at r)
  unfolding emit is_counted
  emit-Keeps p t at r = search (keeps_rules, swallow-Keeps, Keeps-observe stable, Keeps-ask stable)

  pub new_receipt-Keeps :
      (p : StoredProposal) (at : Timestamp) (b : ReceiptBody) (r : Option SafeReference)
      → Keeps P (new_receipt env p at b r)
  unfolding new_receipt
  new_receipt-Keeps p at b r = search (keeps_rules, stable)

  pub check_live-Keeps : (d : ActionDefinition) (p : StoredProposal) → Keeps P (check_live env d p)
  unfolding check_live
  check_live-Keeps d p = search keeps_rules

  find_approval-Keeps : (es : List AuthorityEvidence) → Keeps P (find_approval es)
  unfolding find_approval
  find_approval-Keeps [] = search keeps_rules
  find_approval-Keeps (e ∷ es) = Keeps-if _ _ _ (Keeps-pure e.authority) (find_approval-Keeps es)

  pub last_authority-Keeps : (p : StoredProposal) → Keeps P (last_authority p)
  unfolding last_authority
  last_authority-Keeps p = find_approval-Keeps _

  pub block-Keeps :
      (p : StoredProposal) (at : Timestamp) (r : SafeReference) → Keeps P (block env p at r)
  unfolding block
  block-Keeps p at r =
      search
        (
          keeps_rules, last_authority-Keeps, new_receipt-Keeps, cas-Keeps, emit-Keeps,
          required-Keeps,
        )
        depth 12

module _ {P : World → Type 0} (stable : IsStable P) where
  pub destroy_payload-Keeps :
      (c : ProtectionCodec) (i : ProposalIdentity) (x : ProtectedPayload)
      → Keeps P (destroy_payload c i x)
  unfolding destroy_payload is_counted
  destroy_payload-Keeps (plain_codec a b f) i x =
      search (keeps_rules, Keeps-observe stable, Keeps-ask stable)
  destroy_payload-Keeps (proposal_bound_codec a b f) i x =
      search (keeps_rules, Keeps-observe stable, Keeps-ask stable)

  pub destroy_commitment-Keeps :
      (c : CommitmentProvider) (i : ProposalIdentity) (x : KeyedCommitment)
      → Keeps P (destroy_commitment c i x)
  unfolding destroy_commitment is_counted
  destroy_commitment-Keeps (plain_provider a b f) i x =
      search (keeps_rules, Keeps-observe stable, Keeps-ask stable)
  destroy_commitment-Keeps (proposal_bound_provider a b f) i x =
      search (keeps_rules, Keeps-observe stable, Keeps-ask stable)

  pub create_commitment-Keeps :
      (c : CommitmentProvider) (i : ProposalIdentity) (x : Bytes)
      → Keeps P (create_commitment c i x)
  unfolding create_commitment
  create_commitment-Keeps (plain_provider a b f) i x = Keeps-ask stable _
  create_commitment-Keeps (proposal_bound_provider a b f) i x = Keeps-ask stable _

  pub verify_commitment-Keeps :
      (c : CommitmentProvider) (i : ProposalIdentity) (x : Bytes) (k : KeyedCommitment)
      → Keeps P (verify_commitment c i x k)
  unfolding verify_commitment
  verify_commitment-Keeps (plain_provider a b f) i x k = Keeps-ask stable _
  verify_commitment-Keeps (proposal_bound_provider a b f) i x k = Keeps-ask stable _

  pub protect_payload-Keeps :
      (c : ProtectionCodec) (i : ProposalIdentity) (x : Bytes) → Keeps P (protect_payload c i x)
  unfolding protect_payload
  protect_payload-Keeps (plain_codec a b f) i x = Keeps-ask stable _
  protect_payload-Keeps (proposal_bound_codec a b f) i x = Keeps-ask stable _

  pub unprotect_payload-Keeps :
      (c : ProtectionCodec) (i : ProposalIdentity) (x : ProtectedPayload)
      → Keeps P (unprotect_payload c i x)
  unfolding unprotect_payload
  unprotect_payload-Keeps (plain_codec a b f) i x = Keeps-ask stable _
  unprotect_payload-Keeps (proposal_bound_codec a b f) i x = Keeps-ask stable _

  pub evaluate_authority-Keeps :
      (d : ActionDefinition) (p : StoredProposal) (b : AuthorityBinding) (at : Timestamp)
      → Keeps P (evaluate_authority d p b at)
  unfolding evaluate_authority
  evaluate_authority-Keeps d p b at = Keeps-ask stable _

  context_for-Keeps :
      (p : StoredProposal) (at : Timestamp) (es : List AuthorityEvidence)
      (o : Option RequestingPrincipal)
      → Keeps P (context_for p at es o)
  unfolding context_for
  context_for-Keeps p at es none = search keeps_rules
  context_for-Keeps p at es (some x) = search keeps_rules

  pub execution_context-Keeps :
      (p : StoredProposal) (at : Timestamp) (es : List AuthorityEvidence)
      → Keeps P (execution_context p at es)
  unfolding execution_context
  execution_context-Keeps p at es = context_for-Keeps p at es _

  pub validate_result_type-Keeps :
      (d : ActionDefinition) (o : Option ModelInstance) → Keeps P (validate_result_type d o)
  unfolding validate_result_type
  validate_result_type-Keeps d none = search keeps_rules
  validate_result_type-Keeps d (some x) = search keeps_rules
