-- ===== src/Worker/Scan.antt =====
-- The scan: it ends, and it answers for every item that the source has paged out.
use threvo_actions.Prelude.{
  append_assoc, ℕ, zero, suc, ◌≡◌, ◌<◌, refl, ap, ◌∙◌, Bool, true, false, Option, none, some,
  Option-cases, inl, inr, List, [], ◌∷◌, ◌++◌, arith, if◌then◌else◌,
}
use threvo_actions.Model.{SafeReference, Timestamp}
use threvo_actions.Result.{Result, ok, err}
use threvo_actions.Exec.{World, Exec, pure, attempt, ◌>>=◌}
use threvo_actions.Exec.Returns.{
  Returns, Returns-pure, Returns-raise, Returns-if, Returns-bind, Returns-then, Returns-ask,
  Returns-attempt, Returns-map,
}
use threvo_actions.Worker.{
  RecoveryWorker, RecoveryWorkerResult, RecoveryWorkerDisposition, RecoveryActionGroup,
  ActionWorkItem, ActionWorkOperation, ActionWorkPage, ActionWorkCursor, worker_result, conclude,
  suspend, defer_item, execute_item, work, after_work, run_group, run_claimed, run_item, run_items,
  scan_from, scan,
}

-- The source's cursors are a stable position: each next one comes before in a ranking, as keys that
-- only advance within a fixed cutoff do.
abbrev pub IsKeyset : RecoveryWorker → Timestamp → ℕ → (Option ActionWorkCursor → ℕ) → Type 0
IsKeyset worker cutoff size rank =
    (n : ℕ) (cursor : Option ActionWorkCursor) (page : ActionWorkPage) (next : ActionWorkCursor)
    → worker.discover_due n worker.read_context.tenant_reference cutoff size cursor ≡ ok page
    → page.next_cursor ≡ some next
    → rank (some next) < rank cursor

-- The items of all pages from a cursor on, each page as the source answered it at some moment.
pub data Paged (worker : RecoveryWorker) (cutoff : Timestamp) (size : ℕ)
    : Option ActionWorkCursor → List ActionWorkItem → Type 0 where
  last :
      {cursor : Option ActionWorkCursor} (n : ℕ) (page : ActionWorkPage)
      → worker.discover_due n worker.read_context.tenant_reference cutoff size cursor ≡ ok page
      → page.next_cursor ≡ none
      → Paged worker cutoff size cursor page.items
  further :
      {cursor : Option ActionWorkCursor} (n : ℕ) (page : ActionWorkPage) (next : ActionWorkCursor)
      (rest : List ActionWorkItem)
      → worker.discover_due n worker.read_context.tenant_reference cutoff size cursor ≡ ok page
      → page.next_cursor ≡ some next
      → Paged worker cutoff size (some next) rest
      → Paged worker cutoff size cursor (page.items ++ rest)

-- The result is about the item.
abbrev pub IsAbout : ActionWorkItem → RecoveryWorkerResult → Type 0
IsAbout item x = (x.proposal_reference ≡ item.proposal_reference) × (x.operation ≡ item.operation)

-- One result for each item, in order.
pub data Answers : List ActionWorkItem → List RecoveryWorkerResult → Type 0 where
  none_left : Answers [] []
  one_more :
      {item : ActionWorkItem} {x : RecoveryWorkerResult} {items : List ActionWorkItem}
      {xs : List RecoveryWorkerResult}
      → IsAbout item x
      → Answers items xs
      → Answers (item ∷ items) (x ∷ xs)

Answers-append :
    {items rest : List ActionWorkItem} {xs ys : List RecoveryWorkerResult}
    → Answers items xs
    → Answers rest ys
    → Answers (items ++ rest) (xs ++ ys)
Answers-append none_left h = h
Answers-append (one_more about answers) h = one_more about (Answers-append answers h)

module _ (worker : RecoveryWorker) (item : ActionWorkItem) where
  worker_result-IsAbout :
      (d : RecoveryWorkerDisposition) (reason : Option SafeReference)
      → IsAbout item (worker_result item d reason)
  unfolding worker_result
  worker_result-IsAbout d reason = (refl, refl)

  either-IsAbout :
      (b : Bool) (d e : RecoveryWorkerDisposition) (r s : Option SafeReference)
      → IsAbout item (if b then worker_result item d r else worker_result item e s)
  either-IsAbout true d e r s = worker_result-IsAbout d r
  either-IsAbout false d e r s = worker_result-IsAbout e s

  conclude-Returns :
      (token : SafeReference) (next : Option Timestamp) (reason : Option SafeReference)
      (d : RecoveryWorkerDisposition)
      → Returns (IsAbout item) (conclude worker item token next reason d)
  unfolding conclude
  conclude-Returns token next reason d =
      Returns-bind _ _ (λ b. Returns-pure _ (either-IsAbout b d _ reason _))

  suspend-Returns :
      (token reason : SafeReference) → Returns (IsAbout item) (suspend worker item token reason)
  unfolding suspend
  suspend-Returns token reason = conclude-Returns token none (some reason) _

  -- An early return is about the item.
  Early : Option RecoveryWorkerResult → Type 0
  Early none = Unit
  Early (some x) = IsAbout item x

  after-Early : {A : Type 0} (m : Exec A) → Returns Early (m >>= λ done. pure none)
  unfolding Early
  after-Early m = Returns-bind m _ (λ a. Returns-pure none tt)

  work-Returns :
      (group : RecoveryActionGroup) (token : SafeReference) (now : Timestamp)
      (operation : ActionWorkOperation)
      → Returns Early (work worker group item token now operation)
  unfolding work execute_item defer_item Early
  work-Returns group token now ActionWorkOperation.execute = Returns-bind _ _ (λ view.
      Returns-if _ _ _ (after-Early _)
        (Returns-then _ _ (conclude-Returns token _ _ _) (λ x about. Returns-pure (some x) about)))
  work-Returns group token now ActionWorkOperation.expire = after-Early _
  work-Returns group token now ActionWorkOperation.reconcile = after-Early _
  work-Returns group token now ActionWorkOperation.attention = after-Early _

  -- A failed attempt returns too, with the failure as a value.
  Tried : Result (Option RecoveryWorkerResult) → Type 0
  Tried (ok o) = Early o
  Tried (err e) = Unit

  after_work-Returns :
      (token : SafeReference) (now : Timestamp) (r : Result (Option RecoveryWorkerResult))
      → Tried r
      → Returns (IsAbout item) (after_work worker item token now r)
  unfolding after_work defer_item Tried Early
  after_work-Returns token now (ok (some early)) h = Returns-pure early h
  after_work-Returns token now (ok none) h = conclude-Returns token none none _
  after_work-Returns token now (err e) h =
      Returns-if _ _ _ (suspend-Returns token _)
        (Returns-if _ _ _ (conclude-Returns token _ _ _) (Returns-raise e))

  attempt-Tried :
      (m : Exec (Option RecoveryWorkerResult)) → Returns Early m → Returns Tried (attempt m)
  unfolding Tried
  attempt-Tried m known = Returns-attempt Tried m known tried
    where
      tried :
          (r : Result (Option RecoveryWorkerResult))
          → ((o : Option RecoveryWorkerResult) → r ≡ ok o → Early o)
          → Tried r
      tried (ok o) h = h o refl
      tried (err e) h = tt

  run_item-Returns : (now : Timestamp) → Returns (IsAbout item) (run_item worker now item)
  unfolding run_item run_claimed run_group
  run_item-Returns now = Returns-bind _ _ claimed
    where
      grouped :
          (token : SafeReference) (o : Option RecoveryActionGroup)
          → Returns (IsAbout item) (run_group worker item token now o)
      grouped token none = suspend-Returns token _
      grouped token (some group) = Returns-if _ _ _ (suspend-Returns token _) (
          Returns-then _ _ (attempt-Tried _ (work-Returns group token now item.operation))
            (after_work-Returns token now))

      claimed : (o : Option SafeReference) → Returns (IsAbout item) (run_claimed worker item now o)
      claimed none = Returns-pure _ (worker_result-IsAbout _ none)
      claimed (some token) = grouped token (worker.actions item.action_type)

module _ (worker : RecoveryWorker) (cutoff : Timestamp) where
  run_items-Returns :
      (items : List ActionWorkItem) → Returns (Answers items) (run_items worker cutoff items)
  unfolding run_items
  run_items-Returns [] = Returns-pure [] none_left
  run_items-Returns (item ∷ rest) =
      Returns-then _ _ (run_item-Returns worker item cutoff) (λ x about.
        Returns-then _ _ (run_items-Returns rest)
          (λ xs answers. Returns-pure _ (one_more about answers)))

  -- The scan has answered for all that was paged out from the cursor on, after `results`.
  abbrev Covered :
      ℕ
      → List RecoveryWorkerResult
      → Option ActionWorkCursor
      → Option (List RecoveryWorkerResult)
      → Type 0
  Covered size results cursor o =
      (xs : List RecoveryWorkerResult) × (items : List ActionWorkItem) × (o ≡ some (results ++ xs))
      × Paged worker cutoff size cursor items
      × Answers items xs

  -- From the pages after the next cursor to those from this one.
  append :
      {size : ℕ} {cursor : Option ActionWorkCursor} (results : List RecoveryWorkerResult)
      (page : ActionWorkPage) (next : ActionWorkCursor) (xs : List RecoveryWorkerResult)
      → (n : ℕ) × (worker.discover_due n worker.read_context.tenant_reference cutoff size cursor
          ≡ ok page)
      → page.next_cursor ≡ some next
      → Answers page.items xs
      → (o : Option (List RecoveryWorkerResult)) → Covered size (results ++ xs) (some next) o
      → Covered size results cursor o
  append results page next xs (n, asked) e answers o (ys, rest, same, paged, more) = (
    xs ++ ys,
    page.items ++ rest,
    same ∙ ap some (append_assoc results xs ys),
    further n page next rest asked e paged,
    Answers-append answers more,
  )

  scan_from-Returns :
      (size : ℕ) (rank : Option ActionWorkCursor → ℕ)
      → IsKeyset worker cutoff size rank
      → (fuel : ℕ) (results : List RecoveryWorkerResult) (cursor : Option ActionWorkCursor)
      → rank cursor < fuel
      → Returns (Covered size results cursor) (scan_from worker fuel cutoff size results cursor)
  unfolding scan_from
  scan_from-Returns size rank keyset zero results cursor enough = ground arith
  scan_from-Returns size rank keyset (suc fuel) results cursor enough =
      Returns-then _ _ (Returns-ask _) (λ page asked.
        Returns-then _ _ (run_items-Returns page.items) (λ xs answers.
          elim (Option-cases page.next_cursor) [
            | inl e ↦
                rw e (Returns-pure _ (xs, page.items, refl, last asked.0 page asked.1 e, answers))
            | inr (next, e) ↦ rw e (
                Returns-map _ (append results page next xs asked e answers) (
                  scan_from-Returns size rank keyset fuel (results ++ xs) (some next)
                    (omega (arith, keyset asked.0 cursor page next asked.1 e))))
          ]))

-- If the source's cursors are a stable position, fuel above the rank of the start is enough: a scan
-- that does not raise ends, with one result for each item of the pages that it was given, in order.
pub scan_covers :
    (worker : RecoveryWorker) (cutoff : Timestamp) (size fuel : ℕ)
    (rank : Option ActionWorkCursor → ℕ) (w : World) (o : Option (List RecoveryWorkerResult))
    → IsKeyset worker cutoff size rank
    → rank none < fuel
    → (scan worker fuel cutoff size w).0 ≡ ok o
    → (xs : List RecoveryWorkerResult) × (items : List ActionWorkItem) × (o ≡ some xs)
      × Paged worker cutoff size none items
      × Answers items xs
unfolding scan
scan_covers worker cutoff size fuel rank w o keyset enough =
    (scan_from-Returns worker cutoff size rank keyset fuel [] none enough).value w o
