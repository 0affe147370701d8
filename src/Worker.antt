-- ===== src/Worker.antt =====
-- recovery.py: `RecoveryWorker`, over its work source, its lease schedule and its action groups.
pub mod Completions
pub mod Completing
pub mod Dispositions
pub mod Scan
pub mod Calls
pub mod Progress
use threvo_actions.Prelude.{
  ℕ, zero, suc, ◌+◌, Bool, true, false, not, Option, none, some, List, [], ◌∷◌, ◌++◌, any,
  if◌then◌else◌,
}
use threvo_actions.Model.{SafeReference, Timestamp, ActionType}
use threvo_actions.Result.{Error, Result, ok, err, authorization_denied}
use threvo_actions.Lifecycle.{ActionOperationResult}
use threvo_actions.Registry.{ReadContext}
use threvo_actions.Recovery.{ActionRecoveryStep, ActionRecoveryOperation, ActionRecoveryView}
use threvo_actions.Exec.{
  Exec, lease_completed, pure, raise, lift, ask, attempt, observe, ◌>>=◌, ◌>>◌,
}
use threvo_actions.Runtime.Common.{or_else, is_exception}

pub data ActionWorkOperation : Type 0 where
  execute expire reconcile attention : ActionWorkOperation

pub record ActionWorkCursor : Type 0 where
  pub due_at : Timestamp
  pub proposal_reference : SafeReference

pub record ActionWorkItem : Type 0 where
  pub action_type : ActionType
  pub proposal_reference : SafeReference
  pub operation : ActionWorkOperation
  pub due_at : Timestamp
  pub reason_code : Option SafeReference

pub record ActionWorkPage : Type 0 where
  pub tenant_reference : SafeReference
  pub cutoff : Timestamp
  pub items : List ActionWorkItem
  pub next_cursor : Option ActionWorkCursor

-- The operations of one action that a worker needs: each names the tenant and the proposal.
pub record RecoveryActionGroup : Type 0 where
  pub read_recovery : SafeReference → ReadContext → Exec ActionRecoveryView
  pub execute : SafeReference → SafeReference → Exec ActionOperationResult
  pub reconcile : SafeReference → SafeReference → Exec ActionOperationResult
  pub expire_due : SafeReference → SafeReference → Exec ActionOperationResult

pub data RecoveryWorkerDisposition : Type 0 where
  completed deferred attention already_leased lease_lost : RecoveryWorkerDisposition

pub record RecoveryWorkerResult : Type 0 where
  pub proposal_reference : SafeReference
  pub disposition : RecoveryWorkerDisposition
  pub operation : ActionWorkOperation
  pub reason_code : Option SafeReference

-- The source and the schedule belong to the host: their answers may depend on the moment.
pub record RecoveryWorker : Type 0 where
  -- `source.discover_due`
  pub discover_due :
      ℕ → SafeReference → Timestamp → ℕ → Option ActionWorkCursor → Result ActionWorkPage
  -- `schedule.claim` and `schedule.complete`
  pub claim : ℕ → ActionWorkItem → Timestamp → Timestamp → Result (Option SafeReference)
  pub complete :
      ℕ → SafeReference → SafeReference → Option Timestamp → Option SafeReference → Result Bool
  pub actions : ActionType → Option RecoveryActionGroup
  pub read_context : ReadContext
  pub lease_duration : ℕ
  pub retry_delay : ℕ

unfoldable pub worker_result :
    ActionWorkItem → RecoveryWorkerDisposition → Option SafeReference → RecoveryWorkerResult
worker_result item disposition reason = record {
  proposal_reference = item.proposal_reference;
  disposition = disposition;
  operation = item.operation;
  reason_code = reason;
}

unfoldable pub is_execute : ActionRecoveryStep → Bool
is_execute step = elim step.operation [ ActionRecoveryOperation.execute ↦ true | _ ↦ false ]

-- `except AuthorizationDeniedError`
unfoldable pub is_denied : Error → Bool
is_denied (authorization_denied reason) = true
is_denied _ = false

module _ (worker : RecoveryWorker) where
  -- One call of `schedule.complete`, seen in the trace with its answer.
  unfoldable pub complete_lease :
      ActionWorkItem → SafeReference → Option Timestamp → Option SafeReference → Exec Bool
  complete_lease item token next reason = do
    acknowledged ← attempt (ask (λ n. worker.complete n item.proposal_reference token next reason))
    observe (lease_completed item.proposal_reference token next reason acknowledged)
    lift acknowledged

  -- The call of `schedule.complete` and the result that follows it, or `_lease_lost`.
  unfoldable pub conclude :
      ActionWorkItem
      → SafeReference
      → Option Timestamp
      → Option SafeReference
      → RecoveryWorkerDisposition
      → Exec RecoveryWorkerResult
  unfolding complete_lease worker_result
  conclude item token next reason disposition = do
    acknowledged ← complete_lease item token next reason
    pure (
        if acknowledged
        then worker_result item disposition reason
        else worker_result item lease_lost (some "recovery_lease_lost"))

  unfoldable pub suspend :
      ActionWorkItem → SafeReference → SafeReference → Exec RecoveryWorkerResult
  suspend item token reason =
      conclude item token none (some reason) RecoveryWorkerDisposition.attention

  unfoldable pub defer_item :
      ActionWorkItem → SafeReference → Timestamp → SafeReference → Exec RecoveryWorkerResult
  defer_item item token now reason =
      conclude item token (some (now + worker.retry_delay)) (some reason) deferred

  -- The execution of an item, if a fresh view recommends it; otherwise the item is deferred.
  unfoldable pub execute_item :
      RecoveryActionGroup
      → ActionWorkItem
      → SafeReference
      → Timestamp
      → Exec (Option RecoveryWorkerResult)
  unfolding is_execute
  execute_item group item token now = do
    view ← group.read_recovery item.proposal_reference worker.read_context
    if any is_execute view.recommended_steps
        then (do
          group.execute worker.read_context.tenant_reference item.proposal_reference
          pure none)
        else (do later ← defer_item item token now "recovery_execution_deferred"; pure (some later))

  -- The body of the `try`, by the operation of the item: an early return, or none where it runs to
  -- its end.
  unfoldable pub work :
      RecoveryActionGroup
      → ActionWorkItem
      → SafeReference
      → Timestamp
      → ActionWorkOperation
      → Exec (Option RecoveryWorkerResult)
  unfolding execute_item
  work group item token now ActionWorkOperation.execute = execute_item group item token now
  work group item token now ActionWorkOperation.expire = do
    group.expire_due worker.read_context.tenant_reference item.proposal_reference
    pure none
  work group item token now _ = do
    group.reconcile worker.read_context.tenant_reference item.proposal_reference
    pure none

  -- Its two `except` clauses, and what follows it.
  unfoldable pub after_work :
      ActionWorkItem
      → SafeReference
      → Timestamp
      → Result (Option RecoveryWorkerResult)
      → Exec RecoveryWorkerResult
  unfolding is_denied
  after_work item token now (ok (some early)) = pure early
  after_work item token now (ok none) = conclude item token none none completed
  after_work item token now (err e) =
      if is_denied e
      then suspend item token "recovery_authorization_denied"
      else if is_exception e
      then defer_item item token now "recovery_operation_failed"
      else raise e

  unfoldable pub needs_operator : ActionWorkOperation → Bool
  needs_operator ActionWorkOperation.attention = true
  needs_operator _ = false

  unfoldable pub run_group :
      ActionWorkItem
      → SafeReference
      → Timestamp
      → Option RecoveryActionGroup
      → Exec RecoveryWorkerResult
  unfolding work after_work needs_operator
  run_group item token now none =
      suspend item token (or_else item.reason_code "recovery_action_unconfigured")
  run_group item token now (some group) =
      if needs_operator item.operation
      then suspend item token (or_else item.reason_code "recovery_action_unconfigured")
      else (do
        done ← attempt (work group item token now item.operation)
        after_work item token now done)

  unfoldable pub run_claimed :
      ActionWorkItem → Timestamp → Option SafeReference → Exec RecoveryWorkerResult
  unfolding run_group
  run_claimed item now none = pure (worker_result item already_leased none)
  run_claimed item now (some token) = run_group item token now (worker.actions item.action_type)

  -- `_run`
  unfoldable pub run_item : Timestamp → ActionWorkItem → Exec RecoveryWorkerResult
  unfolding run_claimed
  run_item now item = do
    token ← ask (λ n. worker.claim n item now (now + worker.lease_duration))
    run_claimed item now token

  -- The `for` loop over the items of a page.
  unfoldable pub run_items : Timestamp → List ActionWorkItem → Exec (List RecoveryWorkerResult)
  unfolding run_item
  run_items now [] = pure []
  run_items now (item ∷ rest) = do
    result ← run_item now item
    results ← run_items now rest
    pure (result ∷ results)

  -- The `while` loop of `scan` on fuel: none where the fuel runs out.
  unfoldable pub scan_from :
      ℕ
      → Timestamp
      → ℕ
      → List RecoveryWorkerResult
      → Option ActionWorkCursor
      → Exec (Option (List RecoveryWorkerResult))
  unfolding run_items
  scan_from zero cutoff page_size results cursor = pure none
  scan_from (suc fuel) cutoff page_size results cursor = do
    page ←
        ask
          (λ n. worker.discover_due n worker.read_context.tenant_reference cutoff page_size cursor)
    found ← run_items cutoff page.items
    elim page.next_cursor [
      | none ↦ pure (some (results ++ found))
      | some next ↦ scan_from fuel cutoff page_size (results ++ found) (some next)
    ]

  unfoldable pub scan : ℕ → Timestamp → ℕ → Exec (Option (List RecoveryWorkerResult))
  unfolding scan_from
  scan fuel cutoff page_size = scan_from fuel cutoff page_size [] none
