-- ===== src/Worker/Completing.antt =====
-- What a part of a run tells the schedule, and how it ends.
use threvo_actions.Prelude.{
  any, ℕ, true, false, ◌≡◌, inl, inr, refl, ap, Bool, Option, none, some, List, ◌∷◌, arith,
  if◌then◌else◌,
}
use threvo_actions.Model.{SafeReference, Timestamp}
use threvo_actions.Result.{Error, Result, ok, err}
use threvo_actions.Lifecycle.{ActionOperationResult}
use threvo_actions.Exec.{
  World, Exec, lease_completed, pure, raise, lift, ask, observe, continue, ◌>>=◌, ◌>>◌,
}
use threvo_actions.Exec.Keeps.{Keeps}
use threvo_actions.Exec.Ends.{Ends, Ends-attempt, Ends-then}
use threvo_actions.Runtime.Common.{is_exception}
use threvo_actions.Recovery.{ActionRecoveryView}
use threvo_actions.Worker.{
  is_execute, deferred, lease_lost, RecoveryWorker, RecoveryWorkerResult, RecoveryWorkerDisposition,
  RecoveryActionGroup, ActionWorkItem, ActionWorkOperation, completed, worker_result,
  complete_lease, conclude, suspend, defer_item, execute_item, work, after_work, is_denied,
}
use threvo_actions.Worker.Completions.{
  Completion, completions, CompletionsAre, meaning, disposition_of, MayRaise, HasRun, IsUnadvised,
  Concludes, Works, IsUnscheduled,
}

module _ (worker : RecoveryWorker) (item : ActionWorkItem) (token : SafeReference)
    (did : RecoveryWorkerDisposition → Type 0) (lost : did lease_lost) (cs : List Completion) where
  abbrev completion_of : Option Timestamp → Option SafeReference → Bool → Completion
  completion_of next reason b = record {
    proposal_reference = item.proposal_reference;
    token = token;
    next_attempt_at = next;
    attention_reason = reason;
    acknowledged = b;
  }

  -- The call of `schedule.complete` alone.
  Told : Option Timestamp → Option SafeReference → Result Bool → World → Type 0
  Told next reason (err e) w =
      CompletionsAre cs w
      × ((n : ℕ) × (worker.complete n item.proposal_reference token next reason ≡ err e))
  Told next reason (ok b) w = completions w.trace ≡ completion_of next reason b ∷ cs

  -- The answer of the schedule, before it is seen in the trace.
  Answered : Option Timestamp → Option SafeReference → Result Bool → World → Type 0
  Answered next reason r w =
      CompletionsAre cs w
      × ((n : ℕ) × (worker.complete n item.proposal_reference token next reason ≡ r))

  observed :
      (next : Option Timestamp) (reason : Option SafeReference) (r : Result Bool) (w : World)
      → Answered next reason r w
      → Told next reason
          ((observe (lease_completed item.proposal_reference token next reason r) >> lift r) w).0
          ((observe (lease_completed item.proposal_reference token next reason r) >> lift r) w).1
  unfolding observe lift ◌>>=◌ continue completions Told Answered
  observed next reason (ok b) w h = ap (◌∷◌ (completion_of next reason b)) h.0
  observed next reason (err e) w h = h

  complete_lease-Ends :
      (next : Option Timestamp) (reason : Option SafeReference)
      → Ends (CompletionsAre cs) (Told next reason) (complete_lease worker item token next reason)
  unfolding complete_lease ask Answered
  complete_lease-Ends next reason =
      Ends-attempt {R = Answered next reason} _ _ (record { at = λ w h. (h, (w.moment, refl)) })
        (observed next reason)

  -- The disposition that was asked for, or a lost lease.
  warranted_by :
      (b : Bool) (d : RecoveryWorkerDisposition) (reason : Option SafeReference)
      → did d
      → did
          (if b
            then worker_result item d reason
            else worker_result item lease_lost (some "recovery_lease_lost")).disposition
  unfolding worker_result
  warranted_by true d reason earned = earned
  warranted_by false d reason earned = lost

  conclude-Ends :
      (next : Option Timestamp) (reason : Option SafeReference) (d : RecoveryWorkerDisposition)
      → d ≡ meaning next reason
      → did d
      → Ends
          (CompletionsAre cs)
          (Concludes worker item token did cs)
          (conclude worker item token next reason d)
  unfolding conclude pure Told Concludes MayRaise worker_result disposition_of
  conclude-Ends next reason d means earned =
      Ends-then _ _ (complete_lease-Ends next reason)
        (λ e w h. (h.0, inr (h.1.0, next, reason, h.1.1)))
        (λ b w told. record {
          completion = completion_of next reason b;
          told = told;
          same_proposal = refl;
          same_token = refl;
          reported = ground (arith, means);
          warranted = warranted_by b d reason earned;
          same_item = (ground arith, ground arith);
        })

  pub suspend-Ends :
      (reason : SafeReference)
      → did RecoveryWorkerDisposition.attention
      → Ends
          (CompletionsAre cs)
          (Concludes worker item token did cs)
          (suspend worker item token reason)
  unfolding suspend meaning
  suspend-Ends reason earned = conclude-Ends none (some reason) _ refl earned

  defer_item-Ends :
      (now : Timestamp) (reason : SafeReference)
      → did deferred
      → Ends
          (CompletionsAre cs)
          (Concludes worker item token did cs)
          (defer_item worker item token now reason)
  unfolding defer_item meaning
  defer_item-Ends now reason earned = conclude-Ends (some _) (some reason) _ refl earned

  -- An operation of the group, and no early return after it.
  operated :
      (m : Exec ActionOperationResult)
      → Keeps (CompletionsAre cs) m
      → ((w : World) (x : ActionOperationResult) → (m w).0 ≡ ok x → did completed)
      → Ends (CompletionsAre cs) (Works worker item token did cs) (m >>= λ done. pure none)
  unfolding pure Works
  operated m kept ran =
      Ends-then {R = λ r w. CompletionsAre cs w × ((x : _) → r ≡ ok x → did completed)} m _
        (record { at = λ w h. (kept.at w h, ran w) }) (λ e w h. h.0) (λ a w h. (h.0, h.1 a refl))

  execute_item-Ends :
      (group : RecoveryActionGroup) (now : Timestamp)
      → IsUnscheduled group
      → ((w : World) (x : ActionOperationResult)
          → (group.execute worker.read_context.tenant_reference item.proposal_reference w).0 ≡ ok x
          → did completed)
      → ((w : World) (view : ActionRecoveryView)
          → (group.read_recovery item.proposal_reference worker.read_context w).0 ≡ ok view
          → any is_execute view.recommended_steps ≡ false
          → did deferred)
      → Ends
          (CompletionsAre cs)
          (Works worker item token did cs)
          (execute_item worker group item token now)
  unfolding execute_item Works Concludes pure
  execute_item-Ends group now quiet ran unadvised =
      Ends-then
        {R = λ r w.
          CompletionsAre cs w
          × ((view : _)
              → r ≡ ok view
              → any is_execute view.recommended_steps ≡ false
              → did deferred)}
        _ _ (record { at = λ w h. ((quiet.read_recovery cs _ _).at w h, unadvised w) })
        (λ e w h. h.0)
        (λ view w h. (advised (any is_execute view.recommended_steps) (h.1 view refl)).at w h.0)
    where
      raised :
          (e : Error) (w : World)
          → Concludes worker item token did cs (err e) w
          → CompletionsAre cs w
      raised e w h = h.0

      early :
          (x : RecoveryWorkerResult) (w : World)
          → Concludes worker item token did cs (ok x) w
          → Works worker item token did cs (pure (some x) w).0 (pure (some x) w).1
      early x w h = h

      advised :
          (b : Bool)
          → (b ≡ false → did deferred)
          → Ends (CompletionsAre cs) (Works worker item token did cs) (
              if b
              then (do
                group.execute worker.read_context.tenant_reference item.proposal_reference
                pure none)
              else (do
                later ← defer_item worker item token now "recovery_execution_deferred"
                pure (some later)))
      advised true against = operated _ (quiet.execute cs _ _) ran
      advised false against = Ends-then _ _ (defer_item-Ends now _ (against refl)) raised early

  abbrev HasRunAs : RecoveryActionGroup → ActionWorkOperation → Type 0
  HasRunAs group operation =
      HasRun group worker.read_context.tenant_reference (record item { operation = operation })

  pub work-Ends :
      (group : RecoveryActionGroup) (now : Timestamp) (operation : ActionWorkOperation)
      → IsUnscheduled group
      → (HasRunAs group operation → did completed)
      → (IsUnadvised group worker.read_context (record item { operation = operation })
          → did deferred)
      → Ends
          (CompletionsAre cs)
          (Works worker item token did cs)
          (work worker group item token now operation)
  unfolding work HasRun IsUnadvised
  work-Ends group now ActionWorkOperation.execute quiet ran unadvised =
      execute_item-Ends group now quiet (λ w x e. ran (w, x, e))
        (λ w view e against. unadvised (refl, (w, view, e, against)))
  work-Ends group now ActionWorkOperation.expire quiet ran unadvised =
      operated _ (quiet.expire_due cs _ _) (λ w x e. ran (w, x, e))
  work-Ends group now ActionWorkOperation.reconcile quiet ran unadvised =
      operated _ (quiet.reconcile cs _ _) (λ w x e. ran (w, x, e))
  work-Ends group now ActionWorkOperation.attention quiet ran unadvised =
      operated _ (quiet.reconcile cs _ _) (λ w x e. ran (w, x, e))

  pub after_work-Ends :
      (now : Timestamp) (r : Result (Option RecoveryWorkerResult)) (w : World)
      → ((e : Error) → r ≡ err e → is_denied e ≡ true → did RecoveryWorkerDisposition.attention)
      → ((e : Error) → r ≡ err e → is_denied e ≡ false → did deferred)
      → Works worker item token did cs r w
      → Concludes worker item token did cs
          (after_work worker item token now r w).0
          (after_work worker item token now r w).1
  unfolding after_work Works Concludes MayRaise pure raise meaning
  after_work-Ends now (ok (some early)) w denied failed h = h
  after_work-Ends now (ok none) w denied failed h =
      (conclude-Ends none none completed refl h.1).at w h.0
  after_work-Ends now (err e) w denied failed h =
      (handled (is_denied e) (is_exception e) (denied e refl) (failed e refl) (λ x. x)).at w h
    where
      handled :
          (refusal ordinary : Bool)
          → (refusal ≡ true → did RecoveryWorkerDisposition.attention)
          → (refusal ≡ false → did deferred)
          → (ordinary ≡ false → is_exception e ≡ false)
          → Ends (CompletionsAre cs) (Concludes worker item token did cs) (
              if refusal
              then suspend worker item token "recovery_authorization_denied"
              else if ordinary
              then defer_item worker item token now "recovery_operation_failed"
              else raise e)
      handled true ordinary attends defers known = suspend-Ends _ (attends refl)
      handled false true attends defers known = defer_item-Ends now _ (defers refl)
      handled false false attends defers known = record { at = λ u k. (k, inl (known refl)) }
