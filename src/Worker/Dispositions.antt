-- ===== src/Worker/Dispositions.antt =====
-- That a run of an item ends as the schedule was told.
use threvo_actions.Prelude.{
  ◌∙◌, true, false, ◌+◌, ◌≡◌, inl, inr, refl, Bool, Option, none, some, List, if◌then◌else◌,
}
use threvo_actions.Model.{SafeReference, Timestamp}
use threvo_actions.Result.{Result, ok, err}
use threvo_actions.Exec.{World, pure, ask, attempt, continue, ◌>>=◌}
use threvo_actions.Exec.Ends.{Ends, Ends-attempt}
use threvo_actions.Runtime.Common.{or_else}
use threvo_actions.Worker.{
  needs_operator, RecoveryWorker, RecoveryWorkerDisposition, RecoveryActionGroup, ActionWorkItem,
  suspend, work, after_work, run_group, run_claimed, run_item,
}
use threvo_actions.Worker.Completions.{
  Completion, completions, CompletionsAre, IsDone, HasRaised, Warrant, Concludes, Works,
  IsUnscheduled, Reports,
}
use threvo_actions.Worker.Completing.{suspend-Ends, work-Ends, after_work-Ends}

-- What a claimed item's disposition rests on.
module _ (worker : RecoveryWorker) (item : ActionWorkItem) (token : SafeReference) (now : Timestamp)
    (cs : List Completion) where
  abbrev Warranted : RecoveryWorkerDisposition → Type 0
  Warranted = Warrant worker item token now

  -- The work of the group and what follows it.
  worked-Ends :
      (group : RecoveryActionGroup)
      → worker.actions item.action_type ≡ some group
      → IsUnscheduled group
      → Ends (CompletionsAre cs) (Concludes worker item token Warranted cs) (do
        done ← attempt (work worker group item token now item.operation)
        after_work worker item token now done)
  unfolding Warrant HasRaised IsDone
  worked-Ends group same quiet =
      Ends-attempt
        {R = λ r w.
          Works worker item token Warranted cs r w
          × ((u : World) × ((work worker group item token now item.operation u).0 ≡ r))}
        _ _
        (record {
          at = λ w h. (
            (work-Ends worker item token Warranted tt cs group now item.operation quiet
                  (λ ran. (group, same, ran)) (λ against. inl (group, same, against))).at
                w h,
            (w, refl),
          );
        })
        (λ r w (h, (u, raised)).
          after_work-Ends worker item token Warranted tt cs now r w
            (λ e known denied. inr (inr (e, (group, same, u, raised ∙ known), denied)))
            (λ e known kept. inr (e, (group, same, u, raised ∙ known), kept)) h)

  operator_or_work-Ends :
      (group : RecoveryActionGroup) (b : Bool)
      → (b ≡ true → needs_operator worker item.operation ≡ true)
      → worker.actions item.action_type ≡ some group
      → IsUnscheduled group
      → Ends (CompletionsAre cs) (Concludes worker item token Warranted cs) (
          if b
          then suspend worker item token (or_else item.reason_code "recovery_action_unconfigured")
          else (do
            done ← attempt (work worker group item token now item.operation)
            after_work worker item token now done))
  unfolding Warrant
  operator_or_work-Ends group true attends same quiet =
      suspend-Ends worker item token Warranted tt cs _ (inr (inl (attends refl)))
  operator_or_work-Ends group false attends same quiet = worked-Ends group same quiet

  run_group-Ends :
      (o : Option RecoveryActionGroup)
      → worker.actions item.action_type ≡ o
      → ((group : RecoveryActionGroup) → o ≡ some group → IsUnscheduled group)
      → Ends
          (CompletionsAre cs)
          (Concludes worker item token Warranted cs)
          (run_group worker item token now o)
  unfolding run_group Warrant
  run_group-Ends none same quiet = suspend-Ends worker item token Warranted tt cs _ (inl same)
  run_group-Ends (some group) same quiet =
      operator_or_work-Ends group (needs_operator worker item.operation) (λ e. e) same
        (quiet group refl)

claimed-Reports :
    (worker : RecoveryWorker) (now : Timestamp) (item : ActionWorkItem) (cs : List Completion)
    (r : Result (Option SafeReference)) (w : World)
    → ((group : RecoveryActionGroup)
        → worker.actions item.action_type ≡ some group
        → IsUnscheduled group)
    → CompletionsAre cs w
    → Reports worker item now cs r (continue r (run_claimed worker item now) w)
unfolding continue run_claimed pure Reports
claimed-Reports worker now item cs (err e) w quiet h = (refl, h)
claimed-Reports worker now item cs (ok none) w quiet h = (refl, h)
claimed-Reports worker now item cs (ok (some token)) w quiet h =
    (run_group-Ends worker item token now cs (worker.actions item.action_type) refl quiet).at w h

-- Let the operations of the item's action leave the schedule alone. If the claim of the item raises,
-- so does the run, and if it grants no token, the item is reported as already leased; the schedule
-- answers no completion then. If it grants a token, a run that returns has been answered by the
-- schedule exactly once, under the item's reference and that token; it reports the disposition that
-- this call asked for, or a lost lease if the schedule said so: completed only after the operation that
-- the item asks for has returned; attention only without a group for the action, for an item that
-- needs an operator or after the work was denied; and deferred only after a recovery view that does
-- not advise the execution asked for, or after the work raised something else. Such a run raises only what is no `Exception` or
-- what the schedule raised, and leaves no answered call.
pub run_item-Reports :
    (worker : RecoveryWorker) (now : Timestamp) (item : ActionWorkItem) (w : World)
    → ((group : RecoveryActionGroup)
        → worker.actions item.action_type ≡ some group
        → IsUnscheduled group)
    → Reports worker item now
        (completions w.trace)
        (worker.claim w.moment item now (now + worker.lease_duration))
        (run_item worker now item w)
unfolding run_item ask ◌>>=◌
run_item-Reports worker now item w quiet = claimed-Reports worker now item _ _ _ quiet refl
