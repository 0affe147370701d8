-- ===== src/Runtime/Reconcile.antt =====
-- runtime.py: `reconcile` and `resume_verification`.
use threvo_actions.Prelude.{
  ℕ, ◌+◌, Bool, true, false, not, ◌&&◌, Option, none, some, List, [], ◌∷◌, ◌++◌, ◌==◌, ◌!=◌,
  string_eq, nat_eq, contains, leb, ltb, reverse, if◌then◌else◌,
}
use threvo_actions.Model.{
  SafeReference, Timestamp, LifecycleStatus, lifecycle_status_eq, RecoveryOperator,
}
use threvo_actions.Reason
use threvo_actions.Result.{authorization_denied, store_invariant}
use threvo_actions.Receipts.{
  Receipt, ReceiptBody, RecoveryReceiptStatus, lifecycle_changed, verification_resumed,
}
use threvo_actions.Proposal.{StoredProposal}
use threvo_actions.Registry.{ActionDefinition, RecoveryContext, AuthorizationResult}
use threvo_actions.Lifecycle.{OperationOutcome, ActionOperationResult, result, outcome_for}
use threvo_actions.Exec.{
  Exec, Environment, verifier_called, pure, raise, ask, observe, clock_now, ◌>>=◌, ◌>>◌,
}
use threvo_actions.Runtime.Common.{
  or_else, required, cas, emit, new_receipt, check_live, execution_context,
}
use threvo_actions.Runtime.Settle.{settle_verification}

-- `record.next_verification_at is not None and record.next_verification_at > now`
unfoldable pub not_yet_due : StoredProposal → Timestamp → Bool
not_yet_due p now = elim p.next_verification_at [ none ↦ false | some at ↦ ltb now at ]

unfoldable pub is_verification : Receipt → Bool
is_verification r = elim r.body [ ReceiptBody.verification _ _ _ ↦ true | _ ↦ false ]

unfoldable pub find_verification : List Receipt → Option Receipt
find_verification [] = none
find_verification (r ∷ rest) =
    let next = find_verification rest in if is_verification r then some r else next

-- The receipt that an operator's intervention answers: the last observation, or the last receipt.
unfoldable pub causal_receipt : List Receipt → Option Receipt
unfolding find_verification
causal_receipt receipts = elim (find_verification (reverse receipts)) [
  | some r ↦ some r
  | none ↦ elim (reverse receipts) [ [] ↦ none | r ∷ _ ↦ some r ]
]

-- The first writes of `reconcile`, in the order in which it makes them.
unfoldable pub pending_record : StoredProposal → StoredProposal
pending_record p = record p {
  lifecycle_status = LifecycleStatus.verification_pending;
  revision = p.revision + 1;
}

unfoldable pub unresolved_record : StoredProposal → StoredProposal
unresolved_record p = record p {
  lifecycle_status = LifecycleStatus.verification_unresolved;
  next_verification_at = none;
  revision = p.revision + 1;
}

unfoldable pub admitted_record : StoredProposal → Timestamp → StoredProposal
admitted_record p next = record p {
  next_verification_at = some next;
  verification_attempts = p.verification_attempts + 1;
  revision = p.revision + 1;
}

module _ (env : Environment) (d : ActionDefinition) where
  -- A lost write: somebody else moved the proposal on.
  unfoldable pub in_progress : SafeReference → SafeReference → Exec ActionOperationResult
  in_progress tenant reference = do
    current ← required env tenant reference
    pure (result current OperationOutcome.in_progress none)

  -- The observation itself, for a proposal that waits for it and has attempts left.
  unfoldable pub verify_once :
      SafeReference → SafeReference → StoredProposal → Timestamp → Exec ActionOperationResult
  verify_once tenant reference p now = do
    let admitted = admitted_record p (now + d.verification_lease_duration)
    written ← cas env p admitted
    if not written then in_progress tenant reference else (do
      context ← execution_context admitted now admitted.authority_evidence
      observe (verifier_called context)
      verification ← ask (λ n. d.verify n context)
      settle_verification env d admitted verification now)

  unfoldable pub give_up :
      SafeReference → SafeReference → StoredProposal → Timestamp → Exec ActionOperationResult
  give_up tenant reference p now = do
    written ← cas env p (unresolved_record p)
    if not written then in_progress tenant reference else (do
      emit env (unresolved_record p) lifecycle_changed now
          (some Reason.verification_retries_exhausted)
      pure (
          result (unresolved_record p) OperationOutcome.verification_unresolved
            (some Reason.verification_retries_exhausted)))

  -- From a proposal in `verification_pending`.
  unfoldable pub reconcile_pending :
      SafeReference → SafeReference → StoredProposal → Timestamp → Exec ActionOperationResult
  reconcile_pending tenant reference p now =
      if not_yet_due p now
      then pure (result p OperationOutcome.verification_pending none)
      else if leb p.max_verification_attempts p.verification_attempts
      then give_up tenant reference p now
      else verify_once tenant reference p now

  unfoldable pub reconcile : SafeReference → SafeReference → Exec ActionOperationResult
  reconcile tenant reference = do
    p ← required env tenant reference
    check_live env d p
    now ← clock_now env
    if p.lifecycle_status == LifecycleStatus.executing && not_yet_due p now
        then pure (result p OperationOutcome.in_progress none)
        else if contains (LifecycleStatus.executing ∷ LifecycleStatus.failed_unknown ∷ [])
            p.lifecycle_status
        then (do
          written ← cas env p (pending_record p)
          if not written
              then in_progress tenant reference
              else reconcile_pending tenant reference (pending_record p) now)
        else if p.lifecycle_status != LifecycleStatus.verification_pending
        then pure (result p (outcome_for p.lifecycle_status) none)
        else reconcile_pending tenant reference p now

  -- The write that an operator's intervention makes, and the reconciliation after it.
  unfoldable pub resume :
      SafeReference
      → SafeReference
      → StoredProposal
      → RecoveryOperator
      → SafeReference
      → Timestamp
      → Receipt
      → Exec ActionOperationResult
  resume tenant reference p operator intervention now cause = do
    plain ←
        new_receipt env p now
          (ReceiptBody.recovery RecoveryReceiptStatus.verification_resumed operator)
          (some Reason.operator_verification_resumed)
    let receipt : Receipt = record plain {
      causation_reference = cause.receipt_reference;
      external_reference =
          some (record { system = "host_operator_intervention"; reference = intervention });
    }
    let resumed : StoredProposal = record p {
      lifecycle_status = LifecycleStatus.verification_pending;
      verification_attempts = 0;
      next_verification_at = some now;
      receipts = p.receipts ++ (receipt ∷ []);
      revision = p.revision + 1;
    }
    written ← cas env p resumed
    if not written
        then (do
          current ← required env tenant reference
          pure (result current OperationOutcome.conflict none))
        else (do
          emit env resumed verification_resumed now (some Reason.operator_verification_resumed)
          reconcile tenant reference)

  unfoldable pub resume_from :
      SafeReference
      → SafeReference
      → StoredProposal
      → RecoveryOperator
      → SafeReference
      → Timestamp
      → Option Receipt
      → Exec ActionOperationResult
  resume_from tenant reference p operator intervention now none =
      raise (store_invariant "verification recovery requires a prior receipt")
  resume_from tenant reference p operator intervention now (some cause) =
      resume tenant reference p operator intervention now cause

  unfoldable pub authorize_recovery : SafeReference → RecoveryContext → Exec AuthorizationResult
  authorize_recovery reference context = elim d.recovery_authorization [
    | none ↦ raise (authorization_denied Reason.recovery_not_authorized)
    | some can_recover ↦ ask (λ n. can_recover n reference context)
  ]

  unfoldable pub resume_verification :
      SafeReference
      → SafeReference
      → ℕ
      → RecoveryOperator
      → SafeReference
      → Exec ActionOperationResult
  unfolding resume_from authorize_recovery
  resume_verification tenant reference expected_revision operator intervention = do
    p ← required env tenant reference
    check_live env d p
    now ← clock_now env
    authorization ← authorize_recovery reference (record {
      tenant_reference = tenant;
      operator = operator;
      intervention_reference = intervention;
      requested_at = now;
    })
    if not authorization.allowed
        then raise (
            authorization_denied (or_else authorization.reason_code Reason.recovery_not_authorized))
        else if not (
            contains
              (LifecycleStatus.verification_pending ∷ LifecycleStatus.verification_unresolved ∷ [])
              p.lifecycle_status)
        then pure (result p (outcome_for p.lifecycle_status) none)
        else if p.revision != expected_revision
        then pure (result p OperationOutcome.conflict none)
        else resume_from tenant reference p operator intervention now (causal_receipt p.receipts)
