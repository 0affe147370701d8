-- ===== src/Worker/Completions.antt =====
-- What a worker tells its schedule, and how a run may end.
use threvo_actions.Prelude.{
  any, true, ℕ, false, ◌≡◌, ◌⊎◌, Bool, Option, none, some, List, [], ◌∷◌, if◌then◌else◌,
}
use threvo_actions.Model.{SafeReference, Timestamp}
use threvo_actions.Result.{Error, Result, ok, err}
use threvo_actions.Lifecycle.{ActionOperationResult}
use threvo_actions.Registry.{ReadContext}
use threvo_actions.Exec.{
  World, Event, executor_called, verifier_called, payload_destroyed, commitment_destroyed,
  event_emitted, lease_completed,
}
use threvo_actions.Exec.Keeps.{Keeps}
use threvo_actions.Runtime.Common.{is_exception}
use threvo_actions.Recovery.{ActionRecoveryView}
use threvo_actions.Worker.{
  is_execute, work, needs_operator, is_denied, RecoveryWorker, RecoveryWorkerResult,
  RecoveryWorkerDisposition, RecoveryActionGroup, ActionWorkItem, ActionWorkOperation, completed,
  deferred, already_leased, lease_lost, worker_result,
}

-- One answered call of `schedule.complete`.
pub record Completion : Type 0 where
  pub proposal_reference : SafeReference
  pub token : SafeReference
  pub next_attempt_at : Option Timestamp
  pub attention_reason : Option SafeReference
  pub acknowledged : Bool

unfoldable pub completions : List Event → List Completion
completions [] = []
completions (lease_completed r t n a (ok b) ∷ rest) =
    record {
      proposal_reference = r;
      token = t;
      next_attempt_at = n;
      attention_reason = a;
      acknowledged = b;
    }
    ∷ completions rest
completions (lease_completed r t n a (err e) ∷ rest) = completions rest
completions (executor_called _ _ _ ∷ rest) = completions rest
completions (verifier_called _ ∷ rest) = completions rest
completions (payload_destroyed _ _ ∷ rest) = completions rest
completions (commitment_destroyed _ _ ∷ rest) = completions rest
completions (event_emitted _ ∷ rest) = completions rest

-- No answered call so far but those of `cs`.
abbrev pub CompletionsAre : List Completion → World → Type 0
CompletionsAre cs w = completions w.trace ≡ cs

-- What the arguments ask of the schedule: no next attempt and no reason removes the work, a next
-- attempt defers it, and a reason alone suspends it.
unfoldable pub meaning : Option Timestamp → Option SafeReference → RecoveryWorkerDisposition
meaning (some at) reason = deferred
meaning none (some reason) = RecoveryWorkerDisposition.attention
meaning none none = completed

unfoldable pub disposition_of : Completion → RecoveryWorkerDisposition
unfolding meaning
disposition_of c =
    if c.acknowledged then meaning c.next_attempt_at c.attention_reason else lease_lost

-- The worker told the schedule once, and reports just what that call asked for and was answered: a
-- disposition of which `did` holds.
pub record IsConcluded (item : ActionWorkItem) (token : SafeReference)
    (did : RecoveryWorkerDisposition → Type 0) (cs : List Completion) (x : RecoveryWorkerResult)
    (w : World) : Type 0 where
  pub completion : Completion
  pub told : completions w.trace ≡ completion ∷ cs
  pub same_proposal : completion.proposal_reference ≡ item.proposal_reference
  pub same_token : completion.token ≡ token
  pub reported : x.disposition ≡ disposition_of completion
  pub warranted : did x.disposition
  pub same_item : (x.proposal_reference ≡ item.proposal_reference) × (x.operation ≡ item.operation)

-- A run may raise what is no `Exception`, and what the schedule raises when it is told.
unfoldable pub MayRaise : RecoveryWorker → ActionWorkItem → SafeReference → Error → Type 0
MayRaise worker item token e =
    (is_exception e ≡ false)
    ⊎ ((n : ℕ) × (next : Option Timestamp) × (reason : Option SafeReference) × (worker.complete n
            item.proposal_reference token next reason
          ≡ err e))

-- The operation of the group that the item asks for has returned.
unfoldable pub HasRun : RecoveryActionGroup → SafeReference → ActionWorkItem → Type 0
HasRun group tenant item = (w : World) × (x : ActionOperationResult) × (elim item.operation [
  | ActionWorkOperation.execute ↦ (group.execute tenant item.proposal_reference w).0 ≡ ok x
  | ActionWorkOperation.expire ↦ (group.expire_due tenant item.proposal_reference w).0 ≡ ok x
  | _ ↦ (group.reconcile tenant item.proposal_reference w).0 ≡ ok x
])

-- The action of the item has a group whose operation has returned.
unfoldable pub IsDone : RecoveryWorker → ActionWorkItem → Type 0
IsDone worker item =
    (group : RecoveryActionGroup) × (worker.actions item.action_type ≡ some group)
    × HasRun group worker.read_context.tenant_reference item

-- The recovery view that the group gave of the item advises against the execution it asks for.
unfoldable pub IsUnadvised : RecoveryActionGroup → ReadContext → ActionWorkItem → Type 0
IsUnadvised group context item =
    (item.operation ≡ ActionWorkOperation.execute)
    × ((w : World) × (view : ActionRecoveryView) × ((group.read_recovery item.proposal_reference
            context w).0
          ≡ ok view)
        × (any is_execute view.recommended_steps ≡ false))

-- The body of the `try` has raised for the group of the item's action.
unfoldable pub HasRaised :
    RecoveryWorker → ActionWorkItem → SafeReference → Timestamp → Error → Type 0
HasRaised worker item token now e =
    (group : RecoveryActionGroup) × (worker.actions item.action_type ≡ some group)
    × (w : World) × ((work worker group item token now item.operation w).0 ≡ err e)

-- What each disposition of a claimed item rests on.
unfoldable pub Warrant :
    RecoveryWorker → ActionWorkItem → SafeReference → Timestamp → RecoveryWorkerDisposition → Type 0
Warrant worker item token now completed = IsDone worker item
Warrant worker item token now RecoveryWorkerDisposition.attention =
    (worker.actions item.action_type ≡ none)
    ⊎ (needs_operator worker item.operation ≡ true)
    ⊎ ((e : Error) × HasRaised worker item token now e × (is_denied e ≡ true))
Warrant worker item token now deferred =
    ((group : RecoveryActionGroup) × (worker.actions item.action_type ≡ some group)
      × IsUnadvised group worker.read_context item)
    ⊎ ((e : Error) × HasRaised worker item token now e × (is_denied e ≡ false))
Warrant worker item token now already_leased = ⊥
Warrant worker item token now lease_lost = Unit

module _ (worker : RecoveryWorker) (item : ActionWorkItem) (token : SafeReference)
    (did : RecoveryWorkerDisposition → Type 0) (cs : List Completion) where
  -- The end of a run: a raise without an answered call, or a report of one.
  unfoldable pub Concludes : Result RecoveryWorkerResult → World → Type 0
  Concludes (err e) w = CompletionsAre cs w × MayRaise worker item token e
  Concludes (ok x) w = IsConcluded item token did cs x w

  -- The end of the `try` body.
  unfoldable pub Works : Result (Option RecoveryWorkerResult) → World → Type 0
  Works (err e) w = CompletionsAre cs w
  Works (ok none) w = CompletionsAre cs w × did completed
  Works (ok (some x)) w = IsConcluded item token did cs x w

-- The group's operations leave the schedule alone.
pub record IsUnscheduled (group : RecoveryActionGroup) : Type 0 where
  pub read_recovery :
      (cs : List Completion) (r : SafeReference) (c : ReadContext)
      → Keeps (CompletionsAre cs) (group.read_recovery r c)
  pub execute :
      (cs : List Completion) (t r : SafeReference) → Keeps (CompletionsAre cs) (group.execute t r)
  pub reconcile :
      (cs : List Completion) (t r : SafeReference) → Keeps (CompletionsAre cs) (group.reconcile t r)
  pub expire_due :
      (cs : List Completion) (t r : SafeReference)
      → Keeps (CompletionsAre cs) (group.expire_due t r)

-- The end of a run, by the schedule's answer to the claim of the item.
unfoldable pub Reports :
    RecoveryWorker
    → ActionWorkItem
    → Timestamp
    → List Completion
    → Result (Option SafeReference)
    → Result RecoveryWorkerResult × World
    → Type 0
Reports worker item now cs (err e) (r, later) = (r ≡ err e) × (completions later.trace ≡ cs)
Reports worker item now cs (ok none) (r, later) =
    (r ≡ ok (worker_result item already_leased none)) × (completions later.trace ≡ cs)
Reports worker item now cs (ok (some token)) (r, later) =
    Concludes worker item token (Warrant worker item token now) cs r later
