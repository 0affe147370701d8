-- ===== src/Worker/Progress.antt =====
-- A worker outlives the exceptions of its groups: it returns.
use threvo_actions.Prelude.{
  ℕ, zero, suc, ◌≡◌, ◌≢◌, ◌<◌, refl, ap, ◌∙◌, Bool, true, Option, none, some, Option-cases, inl,
  inr, List, [], ◌∷◌, arith,
}
use threvo_actions.Model.{SafeReference, Timestamp, ActionType}
use threvo_actions.Result.{Error, Result, ok, err, cancelled}
use threvo_actions.Registry.{ReadContext}
use threvo_actions.Exec.{World}
use threvo_actions.Exec.Total.{
  Total, Uncancelled, Total-pure, Total-ask, Total-if, Total-when, Total-bind, Total-caught,
  Total-observe, Total-answered, Total-lift, Uncancelled-if, Uncancelled-bind, Total-Uncancelled,
}
use threvo_actions.Runtime.Common.{is_exception}
use threvo_actions.Worker.{
  RecoveryWorker, RecoveryWorkerResult, RecoveryWorkerDisposition, RecoveryActionGroup,
  ActionWorkItem, ActionWorkOperation, ActionWorkPage, ActionWorkCursor, complete_lease, conclude,
  suspend, defer_item, execute_item, work, after_work, run_group, run_claimed, run_item, run_items,
  scan_from, scan,
}
use threvo_actions.Worker.Scan.{IsKeyset, Paged, Answers, scan_covers}

-- The source and the schedule answer whatever they are asked.
pub record Answering (worker : RecoveryWorker) : Type 0 where
  pub discovers :
      (n : ℕ) (t : SafeReference) (c : Timestamp) (l : ℕ) (o : Option ActionWorkCursor)
      → (page : ActionWorkPage) × (worker.discover_due n t c l o ≡ ok page)
  pub claims :
      (n : ℕ) (item : ActionWorkItem) (now until : Timestamp)
      → (token : Option SafeReference) × (worker.claim n item now until ≡ ok token)
  pub completes :
      (n : ℕ) (r t : SafeReference) (at : Option Timestamp) (why : Option SafeReference)
      → (b : Bool) × (worker.complete n r t at why ≡ ok b)

-- The group's operations may raise any exception, but are not cancelled.
pub record IsUncancelled (group : RecoveryActionGroup) : Type 0 where
  pub reads : (r : SafeReference) (c : ReadContext) → Uncancelled (group.read_recovery r c)
  pub executes : (t r : SafeReference) → Uncancelled (group.execute t r)
  pub reconciles : (t r : SafeReference) → Uncancelled (group.reconcile t r)
  pub expires : (t r : SafeReference) → Uncancelled (group.expire_due t r)

exceptional :
    (e : Error)
    → ◌≢◌ {A = Result (Option RecoveryWorkerResult)} (err e) (err cancelled)
    → is_exception e ≡ true
unfolding is_exception
exceptional cancelled other = ground (arith, other refl)
exceptional _ other = refl

module _ (worker : RecoveryWorker) (answering : Answering worker) (now : Timestamp) where
  conclude-Total :
      (item : ActionWorkItem) (token : SafeReference) (at : Option Timestamp)
      (why : Option SafeReference) (d : RecoveryWorkerDisposition)
      → Total (conclude worker item token at why d)
  unfolding conclude complete_lease
  conclude-Total item token at why d =
      Total-bind _ _
        (Total-answered _ _ (λ n. answering.completes n _ token at why)
          (λ b. Total-bind _ _ (Total-observe _) (λ seen. Total-lift b)))
        (λ b. Total-pure _)

  work-Uncancelled :
      (group : RecoveryActionGroup) (item : ActionWorkItem) (token : SafeReference)
      (operation : ActionWorkOperation)
      → IsUncancelled group
      → Uncancelled (work worker group item token now operation)
  unfolding work execute_item defer_item
  work-Uncancelled group item token ActionWorkOperation.execute k =
      Uncancelled-bind _ _ (k.reads _ _) (λ view.
        Uncancelled-if _ _ _
          (Uncancelled-bind _ _ (k.executes _ _) (λ r. Total-Uncancelled _ (Total-pure none)))
          (Uncancelled-bind _ _ (Total-Uncancelled _ (conclude-Total item token _ _ _))
            (λ x. Total-Uncancelled _ (Total-pure (some x)))))
  work-Uncancelled group item token ActionWorkOperation.expire k =
      Uncancelled-bind _ _ (k.expires _ _) (λ r. Total-Uncancelled _ (Total-pure none))
  work-Uncancelled group item token _ k =
      Uncancelled-bind _ _ (k.reconciles _ _) (λ r. Total-Uncancelled _ (Total-pure none))

  after_work-Total :
      (item : ActionWorkItem) (token : SafeReference) (r : Result (Option RecoveryWorkerResult))
      → r ≢ err cancelled
      → Total (after_work worker item token now r)
  unfolding after_work suspend defer_item
  after_work-Total item token (ok (some early)) other = Total-pure early
  after_work-Total item token (ok none) other = conclude-Total item token none none _
  after_work-Total item token (err e) other =
      Total-if _ _ _ (conclude-Total item token _ _ _)
        (Total-when _ _ _ (exceptional e other) (conclude-Total item token _ _ _))

  run_item-Total :
      (item : ActionWorkItem)
      → ((group : RecoveryActionGroup)
          → worker.actions item.action_type ≡ some group
          → IsUncancelled group)
      → Total (run_item worker now item)
  unfolding run_item run_claimed run_group suspend
  run_item-Total item k = Total-bind _ _ (Total-ask _ (λ n. answering.claims n item now _)) claimed
    where
      grouped :
          (token : SafeReference) (o : Option RecoveryActionGroup)
          → ((group : RecoveryActionGroup) → o ≡ some group → IsUncancelled group)
          → Total (run_group worker item token now o)
      grouped token none k = conclude-Total item token _ _ _
      grouped token (some group) k = Total-if _ _ _ (conclude-Total item token _ _ _) (
          Total-caught _ _ (work-Uncancelled group item token item.operation (k group refl))
            (after_work-Total item token))

      claimed : (o : Option SafeReference) → Total (run_claimed worker item now o)
      claimed none = Total-pure _
      claimed (some token) = grouped token (worker.actions item.action_type) k

module _ (worker : RecoveryWorker) (answering : Answering worker) (cutoff : Timestamp) (size : ℕ)
    (uncancelled : (a : ActionType) (group : RecoveryActionGroup)
      → worker.actions a ≡ some group
      → IsUncancelled group) where
  run_items-Total : (items : List ActionWorkItem) → Total (run_items worker cutoff items)
  unfolding run_items
  run_items-Total [] = Total-pure []
  run_items-Total (item ∷ rest) =
      Total-bind _ _ (run_item-Total worker answering cutoff item (uncancelled item.action_type))
        (λ x. Total-bind _ _ (run_items-Total rest) (λ xs. Total-pure _))

  scan_from-Total :
      (fuel : ℕ) (results : List RecoveryWorkerResult) (cursor : Option ActionWorkCursor)
      → Total (scan_from worker fuel cutoff size results cursor)
  unfolding scan_from
  scan_from-Total zero results cursor = Total-pure none
  scan_from-Total (suc fuel) results cursor =
      Total-bind _ _ (Total-ask _ (λ n. answering.discovers n _ cutoff size cursor)) (λ page.
        Total-bind _ _ (run_items-Total page.items) (λ found. elim (Option-cases page.next_cursor) [
          | inl e ↦ rw e (Total-pure _)
          | inr (next, e) ↦ rw e (scan_from-Total fuel _ (some next))
        ]))

-- If the source and the schedule answer, the source's cursors are a stable position and the groups'
-- operations are not cancelled, a scan with fuel above the rank of the start returns, whatever else
-- the operations raise: with one result for each item of the pages that it was given, in order.
pub scan_returns :
    (worker : RecoveryWorker) (cutoff : Timestamp) (size fuel : ℕ)
    (rank : Option ActionWorkCursor → ℕ) (w : World)
    → Answering worker
    → ((a : ActionType) (group : RecoveryActionGroup)
        → worker.actions a ≡ some group
        → IsUncancelled group)
    → IsKeyset worker cutoff size rank
    → rank none < fuel
    → (xs : List RecoveryWorkerResult) × (items : List ActionWorkItem) × ((scan worker fuel cutoff
          size w).0
        ≡ ok (some xs))
      × Paged worker cutoff size none items
      × Answers items xs
unfolding scan
scan_returns worker cutoff size fuel rank w answering uncancelled keyset enough =
    let (o, e) =
      (scan_from-Total worker answering cutoff size uncancelled fuel [] none).returns w in
    let (xs, items, same, paged, answers) =
      scan_covers worker cutoff size fuel rank w o keyset enough e in
    (xs, items, e ∙ ap ok same, paged, answers)
