-- ===== src/Runtime/Stability.antt =====
-- Every operation but the executor call keeps each stable predicate: one lemma for each operation.
pub mod Preparation
pub mod Execution
pub mod Whole
use threvo_actions.Prelude.{
  ℕ, ◌≡◌, refl, String, Bool, true, false, Option, none, some, List, [], ◌∷◌, if◌then◌else◌, ◌==◌,
  not, Bool-cases, inl, inr,
}
use threvo_actions.Model.{
  SafeReference, Timestamp, ProposalIdentity, RequestingPrincipal, ProposingAgent,
  ConfirmingAuthority, RecoveryOperator,
}
use threvo_actions.Result.{Error, Result, ok, err}
use threvo_actions.Canonical.{Platform, Bytes, KeyedCommitment, ProtectedPayload}
use threvo_actions.Authority.{AuthorityBinding, AuthorityEvidence}
use threvo_actions.Receipts.{Receipt, ReceiptBody, RuntimeEventType}
use threvo_actions.Proposal.{StoredProposal, EffectClaimResult}
use threvo_actions.Store.{
  MemoryStore, ProposalKey, step, marks, completes, mark_erasure_pending, complete_erasure,
}
use threvo_actions.Registry.{
  ActionDefinition, ModelInstance, PreparedAction, ExecutionResult, VerificationResult,
  RecoveryContext, ReadContext, AuthorizationResult,
}
use threvo_actions.Lifecycle.{ActionOperationResult, OperationOutcome}
use threvo_actions.Exec.{Environment, World, Exec, is_counted, pure, raise, ask, call_store}
use threvo_actions.Exec.Keeps.{
  Keeps, IsStable, Keeps-observe, Keeps-call_store, Keeps-ask, keeps_rules, Keeps-if, Keeps-raise,
  Keeps-pure, Keeps-bind, Keeps-attempt,
}
use threvo_actions.Runtime.Walk.{
  store_get-Keeps, required-Keeps, cas-Keeps, emit-Keeps, new_receipt-Keeps, check_live-Keeps,
  block-Keeps, destroy_payload-Keeps, destroy_commitment-Keeps, create_commitment-Keeps,
  verify_commitment-Keeps, protect_payload-Keeps, unprotect_payload-Keeps, evaluate_authority-Keeps,
  execution_context-Keeps, validate_result_type-Keeps,
}
use threvo_actions.Runtime.Settle.{write_settled, settle_execution, settle_verification}
use threvo_actions.Runtime.Decide.{
  decide_status, write_decision, validated_decision, expire_undecided, record_authority, expire_due,
}
use threvo_actions.Runtime.Prepare.{
  validate_prepared, compensate, settle_creation, create_record, prepared_record, fresh_reference,
  persist_prepared, prepare,
}
use threvo_actions.Runtime.Reconcile.{
  in_progress, verify_once, give_up, reconcile_pending, reconcile, resume, resume_from,
  authorize_recovery, resume_verification,
}
use threvo_actions.Runtime.Erase.{destroy_protected, destroy_committed, complete, mark, erase}

pub ruleset helper_rules = (
  keeps_rules, required-Keeps, cas-Keeps, emit-Keeps, new_receipt-Keeps, check_live-Keeps,
  validate_result_type-Keeps, execution_context-Keeps,
)

module _ {P : World → Type 0} (stable : IsStable P) (env : Environment) (d : ActionDefinition) where
  pub write_settled-Keeps :
      (p q : StoredProposal) (t : RuntimeEventType) (at : Timestamp) (o : OperationOutcome)
      (r : Option SafeReference)
      → Keeps P (write_settled env d p q t at o r)
  unfolding write_settled
  write_settled-Keeps p q t at o r = search helper_rules depth 12

  pub settle_execution-Keeps :
      (p : StoredProposal) (x : ExecutionResult) (at : Timestamp)
      → Keeps P (settle_execution env d p x at)
  unfolding settle_execution
  settle_execution-Keeps p x at = search (helper_rules, write_settled-Keeps) depth 12

  pub settle_verification-Keeps :
      (p : StoredProposal) (x : VerificationResult) (at : Timestamp)
      → Keeps P (settle_verification env d p x at)
  unfolding settle_verification
  settle_verification-Keeps p x at = search (helper_rules, write_settled-Keeps) depth 12

  -- Authority.
  decide_status-Keeps :
      (e : AuthorityEvidence) (es : List AuthorityEvidence) (b : AuthorityBinding) (at : Timestamp)
      → Keeps P (decide_status env d e es b at)
  unfolding decide_status
  decide_status-Keeps e es b at = search helper_rules depth 12

  write_decision-Keeps :
      (p : StoredProposal) (e : AuthorityEvidence) (b : AuthorityBinding) (at : Timestamp)
      → Keeps P (write_decision env d p e b at)
  unfolding write_decision
  write_decision-Keeps p e b at = search (helper_rules, decide_status-Keeps) depth 12

  validated_decision-Keeps :
      (p : StoredProposal) (e : AuthorityEvidence) (at : Timestamp) (c : Option KeyedCommitment)
      → Keeps P (validated_decision env d p e at c)
  unfolding validated_decision
  validated_decision-Keeps p e at none = search keeps_rules
  validated_decision-Keeps p e at (some c) = search (keeps_rules, write_decision-Keeps)

  expire_undecided-Keeps :
      (p : StoredProposal) (t r : SafeReference) → Keeps P (expire_undecided env d p t r)
  unfolding expire_undecided
  expire_undecided-Keeps p t r = search helper_rules depth 12

  pub record_authority-Keeps :
      (e : AuthorityEvidence) (a : ConfirmingAuthority) (r : Option SafeReference)
      → Keeps P (record_authority env d e a r)
  unfolding record_authority
  record_authority-Keeps e a r =
      search (helper_rules, validated_decision-Keeps, expire_undecided-Keeps) depth 14

  pub expire_due-Keeps : (t r : SafeReference) → Keeps P (expire_due env d t r)
  unfolding expire_due
  expire_due-Keeps t r = search helper_rules depth 14

  -- Reconciliation.
  in_progress-Keeps : (t r : SafeReference) → Keeps P (in_progress env d t r)
  unfolding in_progress
  in_progress-Keeps t r = search helper_rules

  verify_once-Keeps :
      (t r : SafeReference) (p : StoredProposal) (at : Timestamp)
      → Keeps P (verify_once env d t r p at)
  unfolding verify_once is_counted
  verify_once-Keeps t r p at =
      search (helper_rules, in_progress-Keeps, Keeps-observe stable, settle_verification-Keeps)
        depth 12

  give_up-Keeps :
      (t r : SafeReference) (p : StoredProposal) (at : Timestamp) → Keeps P (give_up env d t r p at)
  unfolding give_up
  give_up-Keeps t r p at = search (helper_rules, in_progress-Keeps) depth 12

  reconcile_pending-Keeps :
      (t r : SafeReference) (p : StoredProposal) (at : Timestamp)
      → Keeps P (reconcile_pending env d t r p at)
  unfolding reconcile_pending
  reconcile_pending-Keeps t r p at = search (keeps_rules, give_up-Keeps, verify_once-Keeps)

  pub reconcile-Keeps : (t r : SafeReference) → Keeps P (reconcile env d t r)
  unfolding reconcile
  reconcile-Keeps t r = search (helper_rules, in_progress-Keeps, reconcile_pending-Keeps) depth 14

  resume-Keeps :
      (t r : SafeReference) (p : StoredProposal) (o : RecoveryOperator) (i : SafeReference)
      (at : Timestamp) (c : Receipt)
      → Keeps P (resume env d t r p o i at c)
  unfolding resume
  resume-Keeps t r p o i at c = search (helper_rules, reconcile-Keeps) depth 14

  resume_from-Keeps :
      (t r : SafeReference) (p : StoredProposal) (o : RecoveryOperator) (i : SafeReference)
      (at : Timestamp) (c : Option Receipt)
      → Keeps P (resume_from env d t r p o i at c)
  unfolding resume_from
  resume_from-Keeps t r p o i at none = search keeps_rules
  resume_from-Keeps t r p o i at (some c) = resume-Keeps t r p o i at c

  authorize_recovery-Keeps :
      (o : Option (ℕ → SafeReference → RecoveryContext → Result AuthorizationResult))
      (r : SafeReference) (c : RecoveryContext) (e : Error)
      → Keeps {A = AuthorizationResult} P (elim o [ none ↦ raise e | some f ↦ ask (λ n. f n r c) ])
  authorize_recovery-Keeps none r c e = Keeps-raise e
  authorize_recovery-Keeps (some f) r c e = Keeps-ask stable _

  recovery_authorized :
      (r : SafeReference) (c : RecoveryContext) → Keeps P (authorize_recovery env d r c)
  unfolding authorize_recovery
  recovery_authorized r c = authorize_recovery-Keeps d.recovery_authorization r c _

  pub resume_verification-Keeps :
      (t r : SafeReference) (n : ℕ) (o : RecoveryOperator) (i : SafeReference)
      → Keeps P (resume_verification env d t r n o i)
  unfolding resume_verification
  resume_verification-Keeps t r n o i =
      search (helper_rules, recovery_authorized, resume_from-Keeps) depth 14

  -- Erasure.
  destroy_protected-Keeps :
      (i : ProposalIdentity) (o : Option ProtectedPayload) → Keeps P (destroy_protected env d i o)
  unfolding destroy_protected
  destroy_protected-Keeps i none = search keeps_rules
  destroy_protected-Keeps i (some x) = destroy_payload-Keeps stable _ i x

  destroy_committed-Keeps :
      (i : ProposalIdentity) (o : Option KeyedCommitment) → Keeps P (destroy_committed env d i o)
  unfolding destroy_committed
  destroy_committed-Keeps i none = search keeps_rules
  destroy_committed-Keeps i (some x) = destroy_commitment-Keeps stable _ i x

  complete_call :
      (k : ProposalKey) (n : ℕ) (at : Timestamp)
      → Keeps P (call_store env (complete_erasure k n at))
  unfolding step
  complete_call k n at = Keeps-call_store stable env _ (λ w h. stable.store w (completes k n at) h)

  mark_call :
      (k : ProposalKey) (n : ℕ) (at : Timestamp)
      → Keeps P (call_store env (mark_erasure_pending k n at))
  unfolding step
  mark_call k n at = Keeps-call_store stable env _ (λ w h. stable.store w (marks k n at) h)

  complete-Keeps :
      (t r : SafeReference) (p : StoredProposal) (at : Timestamp)
      → Keeps P (complete env d t r p at)
  unfolding complete
  complete-Keeps t r p at =
      search (helper_rules, destroy_protected-Keeps, destroy_committed-Keeps, complete_call) depth
        14

  mark-Keeps :
      (t r : SafeReference) (p : StoredProposal) (at : Timestamp) → Keeps P (mark env d t r p at)
  unfolding mark
  mark-Keeps t r p at = search (helper_rules, mark_call, complete-Keeps) depth 14

  pub erase-Keeps : (b : Bool) (r : SafeReference) (c : ReadContext) → Keeps P (erase env d b r c)
  unfolding erase
  erase-Keeps false r c = search keeps_rules
  erase-Keeps true r c = search (helper_rules, mark-Keeps, complete-Keeps) depth 14
