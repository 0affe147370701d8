-- ===== src/Worker/Calls.antt =====
-- A worker whose groups are the runtime: when it calls the governed executor.
use threvo_actions.Prelude.{
  ◌≡◌, ◌≢◌, inl, inr, refl, subst, ◌∙◌, Bool, false, Option, none, some, List, ◌∷◌, arith,
}
use threvo_actions.Model.{SafeReference, Timestamp, ActionType}
use threvo_actions.Result.{Result, ok, err}
use threvo_actions.Canonical.{Platform}
use threvo_actions.Registry.{ActionDefinition}
use threvo_actions.Exec.{
  Environment, World, Event, lease_completed, executor_called, verifier_called, is_counted, observe,
}
use threvo_actions.Exec.Keeps.{Keeps, IsStable, keeps_rules, Keeps-pure, Keeps-bind, Keeps-ask}
use threvo_actions.Exec.Leads.{Leads, Leads-Keeps, Leads-bind, Leads-if, Leads-then, Leads-attempt}
use threvo_actions.Exec.Alone.{IsStable-IsPassive}
use threvo_actions.Runtime.Read.{read_recovery}
use threvo_actions.Runtime.Reading.{read_recovery-Keeps}
use threvo_actions.Runtime.Decide.{expire_due}
use threvo_actions.Runtime.Execute.{execute}
use threvo_actions.Runtime.Reconcile.{reconcile}
use threvo_actions.Runtime.Stability.{expire_due-Keeps, reconcile-Keeps}
use threvo_actions.Runtime.Stability.Whole.{execute-Keeps}
use threvo_actions.Runtime.Admission.{
  ExecutorCall, executor_calls, CallsAre, CallsAre-stable, OneMoreCall, execute_calls, no_more,
}
use threvo_actions.Worker.{
  RecoveryWorker, RecoveryWorkerResult, RecoveryWorkerDisposition, RecoveryActionGroup,
  ActionWorkItem, ActionWorkOperation, complete_lease, conclude, suspend, defer_item, execute_item,
  work, after_work, run_group, run_claimed, run_item,
}
use threvo_actions.Worker.Completions.{Completion, completions, CompletionsAre, IsUnscheduled}

-- The runtime's operations for one registered action, as the worker calls them.
unfoldable pub runtime_group : Platform → Environment → ActionDefinition → RecoveryActionGroup
runtime_group platform env d = record {
  read_recovery = read_recovery env d;
  execute = execute platform env d;
  reconcile = reconcile env d;
  expire_due = expire_due env d;
}

uncounted :
    (e : Event) (es : List Event) → is_counted e ≡ false → completions (e ∷ es) ≡ completions es
unfolding completions is_counted
uncounted (executor_called _ _ _) es h = cc
uncounted (lease_completed _ _ _ _ _) es h = cc
uncounted (verifier_called _) es h = refl
uncounted _ es h = refl

CompletionsAre-stable : (cs : List Completion) → IsStable (CompletionsAre cs)
CompletionsAre-stable cs = record {
  moment = λ w n h. h;
  store = λ w c h. h;
  event = λ w e plain h. uncounted e w.trace plain ∙ h;
}

-- The runtime's operations leave the schedule alone.
pub runtime_group-IsUnscheduled :
    (platform : Platform) (env : Environment) (d : ActionDefinition)
    → IsUnscheduled (runtime_group platform env d)
unfolding runtime_group completions
runtime_group-IsUnscheduled platform env d = record {
  read_recovery =
      λ cs r c. read_recovery-Keeps env d (IsStable-IsPassive env (CompletionsAre-stable cs)) r c;
  execute = λ cs t r. execute-Keeps (CompletionsAre-stable cs) (λ w c x s h. h) platform env d t r;
  reconcile = λ cs t r. reconcile-Keeps (CompletionsAre-stable cs) env d t r;
  expire_due = λ cs t r. expire_due-Keeps (CompletionsAre-stable cs) env d t r;
}

-- What a worker's own steps keep: what is stable and does not read the leases given back.
record IsUnleased (P : World → Type 0) : Type 0 where
  stable : IsStable P
  leased :
      (w : World) (r t : SafeReference) (n : Option Timestamp) (a : Option SafeReference)
      (b : Result Bool)
      → P w
      → P (record w { trace = lease_completed r t n a b ∷ w.trace })

CallsAre-IsUnleased : (calls : List ExecutorCall) → IsUnleased (CallsAre calls)
unfolding executor_calls
CallsAre-IsUnleased calls = record { stable = CallsAre-stable calls; leased = λ w r t n a b h. h }

OneMoreCall-IsUnleased : (calls : List ExecutorCall) → IsUnleased (OneMoreCall calls)
unfolding executor_calls
OneMoreCall-IsUnleased calls = record {
  stable = record {
    moment = λ w n h. h;
    store = λ w c h. h;
    event = λ w e plain h. elim h [
      | inl same ↦ inl (no_more e w.trace plain ∙ same)
      | inr (c, same, admitted) ↦ inr (c, no_more e w.trace plain ∙ same, admitted)
    ];
  };
  leased = λ w r t n a b h. h;
}

module _ {P : World → Type 0} (k : IsUnleased P) (worker : RecoveryWorker) (item : ActionWorkItem)
    (token : SafeReference) where
  observed :
      (n : Option Timestamp) (a : Option SafeReference) (b : Result Bool)
      → Keeps P (observe (lease_completed item.proposal_reference token n a b))
  unfolding observe
  observed n a b = record { at = λ w h. k.leased w _ _ n a b h }

  conclude-Keeps :
      (n : Option Timestamp) (a : Option SafeReference) (d : RecoveryWorkerDisposition)
      → Keeps P (conclude worker item token n a d)
  unfolding conclude complete_lease
  conclude-Keeps n a d = search (keeps_rules, k.stable, observed) depth 8

  after_work-Keeps :
      (now : Timestamp) (r : Result (Option RecoveryWorkerResult))
      → Keeps P (after_work worker item token now r)
  unfolding after_work suspend defer_item
  after_work-Keeps now (ok (some x)) = Keeps-pure _
  after_work-Keeps now (ok none) = conclude-Keeps _ _ _
  after_work-Keeps now (err e) = search (keeps_rules, conclude-Keeps)

-- Every configured group is the runtime with some definition in some environment.
abbrev pub RunsRuntime : RecoveryWorker → Type 0
RunsRuntime worker =
    (a : ActionType) (group : RecoveryActionGroup)
    → worker.actions a ≡ some group
    → (platform : Platform) × (env : Environment) × (d : ActionDefinition) × (group
        ≡ runtime_group platform env d)

module _ (worker : RecoveryWorker) (platform : Platform) (env : Environment) (d : ActionDefinition)
    (calls : List ExecutorCall) (item : ActionWorkItem) (token : SafeReference)
    (now : Timestamp) where
  -- The `try` body of all operations but one.
  quiet_work :
      (operation : ActionWorkOperation)
      → operation ≢ ActionWorkOperation.execute
      → Keeps (CallsAre calls) (work worker (runtime_group platform env d) item token now operation)
  unfolding work runtime_group
  quiet_work ActionWorkOperation.execute other = ground (arith, other refl)
  quiet_work ActionWorkOperation.expire other =
      search (keeps_rules, expire_due-Keeps (CallsAre-stable calls) env d)
  quiet_work ActionWorkOperation.reconcile other =
      search (keeps_rules, reconcile-Keeps (CallsAre-stable calls) env d)
  quiet_work ActionWorkOperation.attention other =
      search (keeps_rules, reconcile-Keeps (CallsAre-stable calls) env d)

  execute-OneMore :
      (t r : SafeReference)
      → Leads (CallsAre calls) (OneMoreCall calls) (execute platform env d t r)
  execute-OneMore t r = record {
    at = λ w h.
        subst (λ xs. OneMoreCall xs (execute platform env d t r w).1) h
          (execute_calls platform env d t r w);
  }

  execution :
      Leads
        (CallsAre calls)
        (OneMoreCall calls)
        (execute_item worker (runtime_group platform env d) item token now)
  unfolding execute_item defer_item runtime_group
  execution =
      Leads-bind (λ w h. inl h) _ _
        (read_recovery-Keeps env d (IsStable-IsPassive env (CallsAre-stable calls)) _ _)
        (λ view. Leads-if _ _ _ (Leads-then _ _ (execute-OneMore _ _) (λ r. Keeps-pure none)) (
          Leads-Keeps (λ w h. inl h) _
            (Keeps-bind _ _ (conclude-Keeps (CallsAre-IsUnleased calls) worker item token _ _ _)
              (λ x. Keeps-pure (some x)))))

  work-Leads :
      (operation : ActionWorkOperation)
      → Leads
          (CallsAre calls)
          (OneMoreCall calls)
          (work worker (runtime_group platform env d) item token now operation)
  unfolding work
  work-Leads ActionWorkOperation.execute = execution
  work-Leads ActionWorkOperation.expire =
      Leads-Keeps (λ w h. inl h) _ (quiet_work ActionWorkOperation.expire (λ e. cc))
  work-Leads ActionWorkOperation.reconcile =
      Leads-Keeps (λ w h. inl h) _ (quiet_work ActionWorkOperation.reconcile (λ e. cc))
  work-Leads ActionWorkOperation.attention =
      Leads-Keeps (λ w h. inl h) _ (quiet_work ActionWorkOperation.attention (λ e. cc))

module _ {P Q : World → Type 0} (kept : IsUnleased P) (later : IsUnleased Q)
    (weaker : (w : World) → P w → Q w) (worker : RecoveryWorker) (item : ActionWorkItem)
    (now : Timestamp)
    (works : (group : RecoveryActionGroup) (token : SafeReference)
      → worker.actions item.action_type ≡ some group
      → Leads P Q (work worker group item token now item.operation)) where
  run_group-Leads :
      (token : SafeReference) (o : Option RecoveryActionGroup)
      → worker.actions item.action_type ≡ o
      → Leads P Q (run_group worker item token now o)
  unfolding run_group suspend
  run_group-Leads token none e = Leads-Keeps weaker _ (conclude-Keeps kept worker item token _ _ _)
  run_group-Leads token (some group) e =
      Leads-if _ _ _ (Leads-Keeps weaker _ (conclude-Keeps kept worker item token _ _ _)) (
        Leads-then _ _ (Leads-attempt _ (works group token e))
          (after_work-Keeps later worker item token now))

  run_claimed-Leads : (o : Option SafeReference) → Leads P Q (run_claimed worker item now o)
  unfolding run_claimed
  run_claimed-Leads none = Leads-Keeps weaker _ (Keeps-pure _)
  run_claimed-Leads (some token) = run_group-Leads token (worker.actions item.action_type) refl

  run_item-Leads : Leads P Q (run_item worker now item)
  unfolding run_item
  run_item-Leads = Leads-bind weaker _ _ (Keeps-ask kept.stable _) run_claimed-Leads

-- One run of a worker over the runtime makes at most one more call of the governed executor, which is
-- admitted, and none unless the item's operation is to execute.
pub run_item_calls :
    (worker : RecoveryWorker) (now : Timestamp) (item : ActionWorkItem) (w : World)
    → RunsRuntime worker
    → OneMoreCall (executor_calls w.trace) (run_item worker now item w).1
      × (item.operation ≢ ActionWorkOperation.execute
          → executor_calls (run_item worker now item w).1.trace ≡ executor_calls w.trace)
run_item_calls worker now item w runs = (
  (run_item-Leads (CallsAre-IsUnleased calls) (OneMoreCall-IsUnleased calls) (λ u h. inl h) worker
        item now admitted).at
      w refl,
  λ other.
      (run_item-Leads (CallsAre-IsUnleased calls) (CallsAre-IsUnleased calls) (λ u h. h) worker item
          now (quiet other)).at
        w refl,
)
  where
    calls : List ExecutorCall
    calls = executor_calls w.trace

    admitted :
        (group : RecoveryActionGroup) (token : SafeReference)
        → worker.actions item.action_type ≡ some group
        → Leads
            (CallsAre calls)
            (OneMoreCall calls)
            (work worker group item token now item.operation)
    admitted group token e =
        let (platform, env, d, same) = runs item.action_type group e in
        rw same (work-Leads worker platform env d calls item token now item.operation)

    quiet :
        item.operation ≢ ActionWorkOperation.execute
        → (group : RecoveryActionGroup) (token : SafeReference)
        → worker.actions item.action_type ≡ some group
        → Leads (CallsAre calls) (CallsAre calls) (work worker group item token now item.operation)
    quiet other group token e =
        let (platform, env, d, same) = runs item.action_type group e in
        rw same (
          Leads-Keeps (λ u h. h) _
            (quiet_work worker platform env d calls item token now item.operation other))
