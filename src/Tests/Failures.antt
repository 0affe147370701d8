-- ===== src/Tests/Failures.antt =====
-- A worker whose group always fails.
use threvo_actions.Prelude.{subst, ◌≡◌, refl, none, some, List, arith}
use threvo_actions.Model.{ActionType}
use threvo_actions.Result.{ok, other_exception}
use threvo_actions.Exec.{raise}
use threvo_actions.Exec.Total.{Uncancelled}
use threvo_actions.Runtime.Exclusion.{first_world}
use threvo_actions.Worker.{
  RecoveryWorker, RecoveryWorkerResult, RecoveryActionGroup, ActionWorkItem, scan,
}
use threvo_actions.Worker.Scan.{IsKeyset, Paged, Answers}
use threvo_actions.Worker.Progress.{Answering, IsUncancelled, scan_returns}
use threvo_actions.Tests.Workers.{worker, rank, worker-IsKeyset}

abbrev failing : RecoveryActionGroup
failing = record {
  read_recovery = λ r c. raise other_exception;
  execute = λ t r. raise other_exception;
  reconcile = λ t r. raise other_exception;
  expire_due = λ t r. raise other_exception;
}

raise-Uncancelled : {A : Type 0} → Uncancelled (raise {A = A} other_exception)
unfolding raise
raise-Uncancelled = record { never = λ w h. cc }

failing-IsUncancelled : IsUncancelled failing
failing-IsUncancelled = record {
  reads = λ r c. raise-Uncancelled;
  executes = λ t r. raise-Uncancelled;
  reconciles = λ t r. raise-Uncancelled;
  expires = λ t r. raise-Uncancelled;
}

abbrev unlucky : RecoveryWorker
unlucky = record worker { actions = λ a. some failing }

unlucky-Answering : Answering unlucky
unlucky-Answering = record {
  discovers = λ n t c l o. (_, refl);
  claims = λ n item now until. (_, refl);
  completes = λ n r t at why. (_, refl);
}

unlucky-IsUncancelled :
    (a : ActionType) (group : RecoveryActionGroup)
    → unlucky.actions a ≡ some group
    → IsUncancelled group
unlucky-IsUncancelled a group h =
    let same : failing ≡ group = ground arith in subst IsUncancelled same failing-IsUncancelled

unlucky-IsKeyset : IsKeyset unlucky 5 100 rank
unlucky-IsKeyset = worker-IsKeyset

scan_returns_example :
    (xs : List RecoveryWorkerResult) × (items : List ActionWorkItem) × ((scan unlucky 2 5 100
        first_world).0
      ≡ ok (some xs))
    × Paged unlucky 5 100 none items
    × Answers items xs
scan_returns_example =
    scan_returns unlucky 5 100 2 rank first_world unlucky-Answering unlucky-IsUncancelled
      unlucky-IsKeyset (omega arith)
