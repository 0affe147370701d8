-- ===== src/Tests/Workers.antt =====
-- A worker over the runtime, with a source of two pages, and the reading of one proposal.
use threvo_actions.Prelude.{
  ◌+◌, String-discrete, subst, ℕ, ◌≡◌, ◌≢◌, ◌<◌, ◌⊎◌, refl, some, none, true, Option, List, [], ◌∷◌,
  arith,
}
use threvo_actions.Model.{ActionType-discrete, LifecycleStatus}
use threvo_actions.Result.{ok}
use threvo_actions.Registry.{ReadContext}
use threvo_actions.Recovery.{
  unclaimed, owned_by_this_proposal, execute, ActionRecoveryView, ActionRecoveryStep,
}
use native.Mathlib.Decide.{ℕ_discrete}
use threvo_actions.Prelude.Dict
use threvo_actions.Store.{
  action_key_eq, proposal_key_eq, claim_key_eq, get, claim_owner, ProposalKey-discrete,
  ClaimKey-discrete, run,
}
use threvo_actions.Exec.{
  World, ◌>>=◌, continue, call_store, answer, clock_now, ask, attempt, pure, observe, lift,
}
use threvo_actions.Runtime.Common.{required, check_required, store_get, is_erased, or_else}
use threvo_actions.Runtime.Read.{
  read_recovery, live_view, readable_record, recovery_view, read_effect_owner, read_claim, owner_of,
}
use threvo_actions.Runtime.Reading.{exports, project, project_passive}
use threvo_actions.Runtime.Advice.{execute_advised, IsCandid, read_recovery-IsCandid}
use threvo_actions.Runtime.Admission.{OneMoreCall, executor_calls}
use threvo_actions.Worker.{
  RecoveryWorker, RecoveryWorkerResult, RecoveryActionGroup, ActionWorkItem, ActionWorkOperation,
  ActionWorkPage, ActionWorkCursor, run_item, scan, scan_from, run_items, run_claimed, run_group,
  suspend, conclude, complete_lease, worker_result, RecoveryWorkerDisposition,
}
use threvo_actions.Worker.Completions.{completions, Reports, IsUnscheduled}
use threvo_actions.Worker.Dispositions.{run_item-Reports}
use threvo_actions.Worker.Scan.{IsKeyset, Paged, Answers, scan_covers}
use threvo_actions.Worker.Calls.{
  runtime_group, runtime_group-IsUnscheduled, run_item_calls, RunsRuntime,
}
use threvo_actions.Tests.{refund, key, authorized_proposal}
use threvo_actions.Tests.Sessions.{environment, host, platform}
use threvo_actions.Tests.Documents.{exporter}

abbrev pub reader : ReadContext
reader = record { tenant_reference = "tenant"; consumer = record { reference = "desk" } }

abbrev ready : World
ready = record {
  store = record {
    proposals = Dict.put Dict.empty (key "first") (authorized_proposal "first");
    effect_claims = Dict.empty;
  };
  moment = 0;
  trace = [];
}

project_passive_example :
    ((project environment host (exports exporter "first" reader) ready).store ≡ ready.store)
    × ((project environment host (exports exporter "first" reader) ready).trace ≡ ready.trace)
project_passive_example =
    project_passive environment host (exports exporter "first" reader) ready (λ n. refl)

abbrev view : ActionRecoveryView
view = live_view (authorized_proposal "first") 2 unclaimed none

ready-view : (read_recovery environment host "first" reader ready).0 ≡ ok view
unfolding read_recovery ◌>>=◌ continue readable_record required check_required store_get call_store
    answer get run clock_now ask recovery_view read_effect_owner read_claim attempt owner_of pure
    is_erased claim_owner Dict.get Dict.put Dict.empty ProposalKey-discrete ClaimKey-discrete
    String-discrete ActionType-discrete ℕ_discrete
ready-view = refl

read_recovery-IsCandid_example : IsCandid environment ready.store (key "first") view
read_recovery-IsCandid_example =
    read_recovery-IsCandid environment host "first" reader ready view (λ n. refl) ready-view

execute_advised_example :
    (step : ActionRecoveryStep) × (view.recommended_steps ≡ step ∷ [])
    × (step.operation ≡ execute
        → ((authorized_proposal "first").lifecycle_status ≡ LifecycleStatus.authorized)
          × (2 < (authorized_proposal "first").expires_at)
          × ((unclaimed ≡ unclaimed) ⊎ (unclaimed ≡ owned_by_this_proposal)))
    × ((authorized_proposal "first").lifecycle_status ≡ LifecycleStatus.authorized
        → 2 < (authorized_proposal "first").expires_at
        → (unclaimed ≡ unclaimed) ⊎ (unclaimed ≡ owned_by_this_proposal)
        → step.operation ≡ execute)
execute_advised_example = execute_advised (authorized_proposal "first") 2 unclaimed none

abbrev pub work_item : ActionWorkOperation → ActionWorkItem
work_item operation = record {
  action_type = refund;
  proposal_reference = "first";
  operation = operation;
  due_at = 1;
  reason_code = none;
}

abbrev pub pages : Option ActionWorkCursor → ActionWorkPage
pages none = record {
  tenant_reference = "tenant";
  cutoff = 5;
  items = work_item ActionWorkOperation.execute ∷ [];
  next_cursor = some (record { due_at = 1; proposal_reference = "first" });
}
pages (some cursor) = record {
  tenant_reference = "tenant";
  cutoff = 5;
  items = work_item ActionWorkOperation.reconcile ∷ [];
  next_cursor = none;
}

abbrev pub worker : RecoveryWorker
worker = record {
  discover_due = λ n tenant cutoff limit cursor. ok (pages cursor);
  claim = λ n item now until. ok (some "token");
  complete = λ n reference token next reason. ok true;
  actions = λ a. some (runtime_group platform environment host);
  read_context = reader;
  lease_duration = 60;
  retry_delay = 30;
}

worker-RunsRuntime : RunsRuntime worker
worker-RunsRuntime a group same = (platform, environment, host, ground arith)

run_item_calls_example :
    OneMoreCall
      (executor_calls ready.trace)
      (run_item worker 5 (work_item ActionWorkOperation.execute) ready).1
    × (ActionWorkOperation.execute ≢ ActionWorkOperation.execute
        → executor_calls (run_item worker 5 (work_item ActionWorkOperation.execute) ready).1.trace
          ≡ executor_calls ready.trace)
run_item_calls_example =
    run_item_calls worker 5 (work_item ActionWorkOperation.execute) ready worker-RunsRuntime

worker-IsUnscheduled :
    (group : RecoveryActionGroup) → worker.actions refund ≡ some group → IsUnscheduled group
worker-IsUnscheduled group same =
    let e : runtime_group platform environment host ≡ group = ground arith in
    subst IsUnscheduled e (runtime_group-IsUnscheduled platform environment host)

run_item-Reports_example :
    Reports worker
      (work_item ActionWorkOperation.execute)
      5
      (completions ready.trace)
      (worker.claim 0 (work_item ActionWorkOperation.execute) 5 (5 + worker.lease_duration))
      (run_item worker 5 (work_item ActionWorkOperation.execute) ready)
run_item-Reports_example =
    run_item-Reports worker 5 (work_item ActionWorkOperation.execute) ready worker-IsUnscheduled

abbrev pub rank : Option ActionWorkCursor → ℕ
rank none = 1
rank (some cursor) = 0

pub worker-IsKeyset : IsKeyset worker 5 100 rank
worker-IsKeyset n none page next asked e = omega arith
worker-IsKeyset n (some cursor) page next asked e = ground (arith, asked, e)

-- Without a group for the action, every item needs an operator.
abbrev idle : RecoveryWorker
idle = record worker { actions = λ a. none }

abbrev reported : ActionWorkOperation → RecoveryWorkerResult
reported operation = record {
  proposal_reference = "first";
  disposition = RecoveryWorkerDisposition.attention;
  operation = operation;
  reason_code = some "recovery_action_unconfigured";
}

abbrev both : List RecoveryWorkerResult
both = reported ActionWorkOperation.execute ∷ reported ActionWorkOperation.reconcile ∷ []

idle-IsKeyset : IsKeyset idle 5 100 rank
idle-IsKeyset = worker-IsKeyset

idle-scan : (scan idle 2 5 100 ready).0 ≡ ok (some both)
unfolding scan scan_from run_items run_item run_claimed run_group suspend conclude complete_lease
    worker_result or_else ◌>>=◌ continue ask attempt observe lift pure
idle-scan = refl

scan_covers_example :
    (xs : List RecoveryWorkerResult) × (items : List ActionWorkItem) × (some both ≡ some xs)
    × Paged idle 5 100 none items
    × Answers items xs
scan_covers_example =
    scan_covers idle 5 100 2 rank ready (some both) idle-IsKeyset (omega arith) idle-scan
