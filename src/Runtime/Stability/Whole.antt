-- ===== src/Runtime/Stability/Whole.antt =====
-- `execute` as a whole keeps what a call of the executor does not touch either.
use threvo_actions.Prelude.{Option, none, some, List, ◌∷◌}
use threvo_actions.Model.{SafeReference, Timestamp}
use threvo_actions.Canonical.{Platform}
use threvo_actions.Authority.{AuthorityBinding, AuthorityEvidence}
use threvo_actions.Proposal.{
  StoredProposal, EffectClaimResult, acquired, owned_by_proposal, conflict, not_found,
  not_authorized,
}
use threvo_actions.Registry.{ActionDefinition, ResolvedState, ExecutionContext}
use threvo_actions.Store.{step, admits, admit_execution, MemoryStore, ProposalKey}
use threvo_actions.Prelude.{ℕ}
use threvo_actions.Exec.{Environment, World, executor_called, observe, current_store, call_store}
use threvo_actions.Exec.Keeps.{Keeps, IsStable, keeps_rules, Keeps-call_store}
use threvo_actions.Runtime.Walk.{new_receipt-Keeps}
use threvo_actions.Runtime.Stability.{settle_execution-Keeps, helper_rules}
use threvo_actions.Runtime.Stability.Execution.{execute-Leads}
use threvo_actions.Runtime.Execute.{
  await_executor, start_executor, call_executor, after_refusal, execute_admitted, after_claim,
  admit, execute,
}

-- The predicate outlives a call of the executor too.
abbrev pub IsIndifferent : (World → Type 0) → Type 0
IsIndifferent P =
    (w : World) (c : ExecutionContext) (x : SafeReference) (s : MemoryStore)
    → P w
    → P (record w { trace = executor_called c x s ∷ w.trace })

module _ {P : World → Type 0} (stable : IsStable P) (indifferent : IsIndifferent P)
    (platform : Platform) (env : Environment) (d : ActionDefinition) where
  observed :
      (c : ExecutionContext) (x : SafeReference) (s : MemoryStore)
      → Keeps P (observe (executor_called c x s))
  unfolding observe
  observed c x s = record { at = λ w h. indifferent w c x s h }

  current_store-Keeps : Keeps P current_store
  unfolding current_store
  current_store-Keeps = record { at = λ w h. h }

  start_executor-Keeps :
      (q : StoredProposal) (x : ResolvedState) (c : ExecutionContext)
      → Keeps P (start_executor platform env d q x c)
  unfolding start_executor await_executor
  start_executor-Keeps q x c =
      search
        (keeps_rules, stable, settle_execution-Keeps stable env d, observed, current_store-Keeps)
        depth 12

  after_refusal-Keeps :
      (p q : StoredProposal) (es : List AuthorityEvidence) (x : ResolvedState) (at : Timestamp)
      (o : Option SafeReference)
      → Keeps P (after_refusal platform env d p q es x at o)
  unfolding after_refusal call_executor
  after_refusal-Keeps p q es x at (some r) = settle_execution-Keeps stable env d q _ at
  after_refusal-Keeps p q es x at none = search (helper_rules, start_executor-Keeps) depth 8

  after_claim-Keeps :
      (p q : StoredProposal) (es : List AuthorityEvidence) (b : AuthorityBinding)
      (x : ResolvedState) (at : Timestamp) (c : EffectClaimResult)
      → Keeps P (after_claim platform env d p q es b x at c)
  unfolding after_claim execute_admitted
  after_claim-Keeps p q es b x at conflict = search helper_rules
  after_claim-Keeps p q es b x at not_found = search helper_rules
  after_claim-Keeps p q es b x at not_authorized = search helper_rules
  after_claim-Keeps p q es b x at acquired = search (keeps_rules, stable, after_refusal-Keeps)
  after_claim-Keeps p q es b x at owned_by_proposal =
      search (keeps_rules, stable, after_refusal-Keeps)

  admit-Keeps :
      (p : StoredProposal) (es : List AuthorityEvidence) (b : AuthorityBinding) (x : ResolvedState)
      (at : Timestamp)
      → Keeps P (admit platform env d p es b x at)
  unfolding admit step
  admit-Keeps p es b x at =
      search (keeps_rules, new_receipt-Keeps stable, after_claim-Keeps, admitted) depth 8
    where
      admitted :
          (k : ProposalKey) (n : ℕ) (t : Timestamp) (q : StoredProposal)
          → Keeps P (call_store env (admit_execution k n t q))
      admitted k n t q = Keeps-call_store stable env _ (λ w h. stable.store w (admits k n t q) h)

  pub execute-Keeps : (t r : SafeReference) → Keeps P (execute platform env d t r)
  execute-Keeps t r = record {
    at =
        (execute-Leads stable platform env d (λ w h. h)
          (λ p es b x at. record { at = (admit-Keeps p es b x at).at }) t r).at;
  }
