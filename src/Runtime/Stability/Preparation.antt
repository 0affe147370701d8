-- ===== src/Runtime/Stability/Preparation.antt =====
-- `prepare` and the persistence of a prepared proposal keep each stable predicate.
use threvo_actions.Prelude.{Option, none, some, option_eq}
use threvo_actions.Model.{
  SafeReference, Timestamp, ProposalIdentity, RequestingPrincipal, ProposingAgent,
}
use threvo_actions.Result.{Error, Result, ok, err}
use threvo_actions.Canonical.{Platform, KeyedCommitment, ProtectedPayload}
use threvo_actions.Proposal.{StoredProposal}
use threvo_actions.Store.{create, creates, step}
use threvo_actions.Registry.{ActionDefinition, ModelInstance, PreparedAction}
use threvo_actions.Exec.{Environment, World, call_store}
use threvo_actions.Exec.Keeps.{
  Keeps, IsStable, Keeps-call_store, keeps_rules, Keeps-bind, Keeps-attempt, Keeps-result,
  Keeps-pure,
}
use threvo_actions.Runtime.Walk.{
  store_get-Keeps, destroy_payload-Keeps, destroy_commitment-Keeps, create_commitment-Keeps,
  protect_payload-Keeps,
}
use threvo_actions.Runtime.Stability.{helper_rules}
use threvo_actions.Runtime.Prepare.{
  validate_prepared, compensate, settle_creation, create_record, prepared_record, fresh_reference,
  persist_prepared, prepare, recover_creation, persist_protected, store_made,
}

module _ {P : World → Type 0} (stable : IsStable P) (platform : Platform) (env : Environment)
    (d : ActionDefinition) where
  pub validate_prepared-Keeps : (x : PreparedAction) → Keeps P (validate_prepared d x)
  unfolding validate_prepared
  validate_prepared-Keeps x = search keeps_rules

  compensate-Keeps :
      (i : ProposalIdentity) (o : Option ProtectedPayload) (c : KeyedCommitment)
      → Keeps P (compensate platform env d i o c)
  unfolding compensate
  compensate-Keeps i none c = search (keeps_rules, destroy_commitment-Keeps stable)
  compensate-Keeps i (some x) c =
      search (keeps_rules, destroy_commitment-Keeps stable, destroy_payload-Keeps stable) depth 8

  settle_creation-Keeps :
      (i : ProposalIdentity) (x : ProtectedPayload) (c : KeyedCommitment) (p : StoredProposal)
      (e : Error) (r : Result (Option StoredProposal))
      → Keeps P (settle_creation platform env d i x c p e r)
  unfolding settle_creation
  settle_creation-Keeps i x c p e (ok o) = search (keeps_rules, compensate-Keeps) depth 8
  settle_creation-Keeps i x c p e (err r) = search keeps_rules

  create_call : (p : StoredProposal) → Keeps P (call_store env (create p))
  unfolding step
  create_call p = Keeps-call_store stable env _ (λ w h. stable.store w (creates p) h)

  reconcile_creation :
      (i : ProposalIdentity) (x : ProtectedPayload) (c : KeyedCommitment) (p : StoredProposal)
      (e : Error)
      → Keeps P (recover_creation platform env d i x c p e)
  unfolding recover_creation
  reconcile_creation i x c p e =
      search (keeps_rules, store_get-Keeps stable env, settle_creation-Keeps) depth 8

  create_record-Keeps :
      (i : ProposalIdentity) (x : ProtectedPayload) (c : KeyedCommitment) (p : StoredProposal)
      → Keeps P (create_record platform env d i x c p)
  unfolding create_record
  create_record-Keeps i x c p =
      Keeps-bind _ _ (Keeps-attempt _ (create_call p))
        λ r. Keeps-result r _ _ (λ _. Keeps-pure p) (reconcile_creation i x c p)

  prepared_record-Keeps :
      (i : ProposalIdentity) (x : PreparedAction) (q : RequestingPrincipal)
      (a : Option ProposingAgent) (at : Timestamp) (c : KeyedCommitment) (y : ProtectedPayload)
      → Keeps P (prepared_record platform env d i x q a at c y)
  unfolding prepared_record
  prepared_record-Keeps i x q a at c y = search (keeps_rules, stable)

  fresh_reference-Keeps : (o : Option SafeReference) → Keeps P (fresh_reference platform env d o)
  unfolding fresh_reference
  fresh_reference-Keeps none = search (keeps_rules, stable)
  fresh_reference-Keeps (some r) = search keeps_rules

  made_case :
      (i : ProposalIdentity) (y : ProtectedPayload) (c : KeyedCommitment)
      (r : Result StoredProposal)
      → Keeps P (store_made platform env d i y c r)
  unfolding store_made
  made_case i y c (ok p) = create_record-Keeps i y c p
  made_case i y c (err e) = search (keeps_rules, compensate-Keeps)

  protected_case :
      (i : ProposalIdentity) (x : PreparedAction) (q : RequestingPrincipal)
      (a : Option ProposingAgent) (at : Timestamp) (c : KeyedCommitment)
      (r : Result ProtectedPayload)
      → Keeps P (persist_protected platform env d i x q a at c r)
  unfolding persist_protected
  protected_case i x q a at c (ok y) = search (keeps_rules, prepared_record-Keeps, made_case)
  protected_case i x q a at c (err e) = search (keeps_rules, compensate-Keeps)

  pub persist_prepared-Keeps :
      (t : SafeReference) (x : PreparedAction) (q : RequestingPrincipal) (a : Option ProposingAgent)
      (at : Timestamp) (o : Option SafeReference)
      → Keeps P (persist_prepared platform env d t x q a at o)
  unfolding persist_prepared
  persist_prepared-Keeps t x q a at o =
      search
        (
          keeps_rules,
          fresh_reference-Keeps,
          create_commitment-Keeps stable,
          protect_payload-Keeps stable,
          protected_case,
        )
        depth 12

  pub prepare-Keeps :
      (t : SafeReference) (x : ModelInstance) (q : RequestingPrincipal) (a : Option ProposingAgent)
      (o : Option SafeReference)
      → Keeps P (prepare platform env d t x q a o)
  unfolding prepare
  prepare-Keeps t x q a o =
      search (helper_rules, validate_prepared-Keeps, persist_prepared-Keeps) depth 14
