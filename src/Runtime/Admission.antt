-- ===== src/Runtime/Admission.antt =====
-- From the admission on: when the governed executor is called, and how often.
use threvo_actions.Prelude.{
  ◌+◌, ◌<◌, ◌≡◌, ◌⊎◌, inl, inr, refl, ap, ◌∙◌, false, Option, none, some, List, [], ◌∷◌, arith,
  list_eq,
}
use threvo_actions.Model.{SafeReference, Timestamp, RequestingPrincipal, LifecycleStatus}
use threvo_actions.Result.{Result, ok, err}
use threvo_actions.Canonical.{Platform}
use threvo_actions.Authority.{AuthorityBinding, AuthorityEvidence, authority_evidence_eq}
use threvo_actions.Proposal.{
  StoredProposal, EffectClaimResult, acquired, owned_by_proposal, conflict, not_found,
  not_authorized,
}
use threvo_actions.Store.{MemoryStore, claim_key_of, get, claim_owner, admit_execution, run}
use threvo_actions.Store.Admission.{admission_grants}
use threvo_actions.Registry.{ActionDefinition, ResolvedState, ExecutionContext}
use threvo_actions.Exec.{
  Environment, Event, executor_called, verifier_called, payload_destroyed, commitment_destroyed,
  event_emitted, lease_completed, is_counted, World, Fault, healthy, lost_request,
  lost_acknowledgement, ◌>>=◌, continue, pure, raise, ask, observe, current_store, call_store,
  answer, clock_now,
}
use threvo_actions.Exec.Keeps.{Keeps, IsStable, keeps_rules}
use threvo_actions.Exec.Leads.{Leads, Leads-bind}
use threvo_actions.Runtime.Common.{context_of, context_for, execution_context, store_key}
use threvo_actions.Runtime.Walk.{new_receipt-Keeps}
use threvo_actions.Runtime.Stability.{settle_execution-Keeps, helper_rules}
use threvo_actions.Runtime.Stability.Execution.{execute-Leads}
use threvo_actions.Runtime.Execute.{
  start_executor, await_executor, call_executor, refusal, after_refusal, execute_admitted,
  after_claim, admit, execute,
}

-- One call of the executor: its context, its precondition and the store at that moment.
pub record ExecutorCall : Type 0 where
  pub context : ExecutionContext
  pub precondition : SafeReference
  pub store : MemoryStore

unfoldable pub executor_calls : List Event → List ExecutorCall
executor_calls [] = []
executor_calls (executor_called c x s ∷ rest) =
    record { context = c; precondition = x; store = s } ∷ executor_calls rest
executor_calls (verifier_called _ ∷ rest) = executor_calls rest
executor_calls (payload_destroyed _ _ ∷ rest) = executor_calls rest
executor_calls (commitment_destroyed _ _ ∷ rest) = executor_calls rest
executor_calls (event_emitted _ ∷ rest) = executor_calls rest
executor_calls (lease_completed _ _ _ _ _ ∷ rest) = executor_calls rest

-- The call was admitted: in the store at that moment the proposal is executing under the very
-- precondition, it owns the claim of its effect, and neither the proposal nor the lease of its
-- execution has run out.
pub record IsAdmitted (c : ExecutorCall) : Type 0 where
  pub proposal : StoredProposal
  pub stored :
      get c.store (store_key c.context.tenant_reference c.context.proposal_reference)
      ≡ some proposal
  pub executing : proposal.lifecycle_status ≡ LifecycleStatus.executing
  pub precondition : proposal.execution_precondition ≡ some c.precondition
  pub owner : claim_owner c.store (claim_key_of proposal) ≡ some c.context.proposal_reference
  pub effect : c.context.semantic_effect_reference ≡ proposal.semantic_effect_reference
  pub live : c.context.observed_at < proposal.expires_at
  pub lease : Timestamp
  pub lease_end : proposal.next_verification_at ≡ some lease
  pub leased : c.context.observed_at < lease

-- No call so far but those of `calls`.
abbrev pub CallsAre : List ExecutorCall → World → Type 0
CallsAre calls w = executor_calls w.trace ≡ calls

-- At most one call more, and that one admitted.
abbrev pub OneMoreCall : List ExecutorCall → World → Type 0
OneMoreCall calls w =
    (executor_calls w.trace ≡ calls)
    ⊎ ((c : ExecutorCall) × (executor_calls w.trace ≡ c ∷ calls) × IsAdmitted c)

pub no_more :
    (e : Event) (es : List Event)
    → is_counted e ≡ false
    → executor_calls (e ∷ es) ≡ executor_calls es
unfolding executor_calls is_counted
no_more (executor_called _ _ _) es h = cc
no_more (verifier_called _) es h = refl
no_more _ es h = refl

pub CallsAre-stable : (calls : List ExecutorCall) → IsStable (CallsAre calls)
CallsAre-stable calls = record {
  moment = λ w n h. h;
  store = λ w c h. h;
  event = λ w e no_call h. no_more e w.trace no_call ∙ h;
}

-- What the admission of `p` as `q` has established, once it is granted.
record IsGranted (p q : StoredProposal) (x : ResolvedState) (lease : Timestamp) (s : MemoryStore)
    : Type 0 where
  stored : get s (store_key p.tenant_reference p.proposal_reference) ≡ some q
  executing : q.lifecycle_status ≡ LifecycleStatus.executing
  precondition : q.execution_precondition ≡ some x.execution_precondition
  owner : claim_owner s (claim_key_of q) ≡ some p.proposal_reference
  effect : p.semantic_effect_reference ≡ q.semantic_effect_reference
  expiry : q.expires_at ≡ p.expires_at
  lease_end : q.next_verification_at ≡ some lease

call_of :
    StoredProposal
    → List AuthorityEvidence
    → ResolvedState
    → Timestamp
    → RequestingPrincipal
    → MemoryStore
    → ExecutorCall
unfolding context_of
call_of p es x at principal s = record {
  context = context_of p at es principal;
  precondition = x.execution_precondition;
  store = s;
}

-- The last tests let pass only what has not run out.
not_refused :
    (platform : Platform) (env : Environment) (d : ActionDefinition) (p : StoredProposal)
    (es : List AuthorityEvidence) (b : AuthorityBinding) (admitted_at at : Timestamp)
    → refusal platform env d p es b admitted_at at ≡ none
    → (at < p.expires_at) × (at < admitted_at + d.verification_lease_duration)
unfolding refusal
not_refused platform env d p es b admitted_at at h = ground arith

module _ (platform : Platform) (env : Environment) (d : ActionDefinition)
    (calls : List ExecutorCall) where
  await_executor-Keeps :
      {P : World → Type 0} (stable : IsStable P) (q : StoredProposal) (x : ResolvedState)
      (c : ExecutionContext)
      → Keeps P (await_executor platform env d q x c)
  unfolding await_executor
  await_executor-Keeps stable q x c =
      search (keeps_rules, stable, settle_execution-Keeps stable env d) depth 8

  call_executor-calls :
      (p q : StoredProposal) (es : List AuthorityEvidence) (x : ResolvedState)
      (at lease : Timestamp) (o : Option RequestingPrincipal) (w : World)
      → CallsAre calls w
      → IsGranted p q x lease w.store
      → at < p.expires_at
      → at < lease
      → OneMoreCall calls ((context_for p at es o >>= start_executor platform env d q x) w).1
  unfolding call_of context_for start_executor ◌>>=◌ pure raise observe current_store executor_calls
  call_executor-calls p q es x at lease none w h g live leased = inl h
  call_executor-calls p q es x at lease (some principal) w h g live leased =
      let c = call_of p es x at principal w.store in
      inr (
        c,
        (await_executor-Keeps (CallsAre-stable (c ∷ calls)) q x c.context).at _ (ap (◌∷◌ c) h),
        record {
          proposal = q;
          stored = g.stored;
          executing = g.executing;
          precondition = g.precondition;
          owner = g.owner;
          effect = g.effect;
          live = omega (arith, g.expiry);
          lease = lease;
          lease_end = g.lease_end;
          leased = leased;
        },
      )

  execute_admitted-calls :
      (p q : StoredProposal) (es : List AuthorityEvidence) (b : AuthorityBinding)
      (x : ResolvedState) (at : Timestamp) (w : World)
      → CallsAre calls w
      → IsGranted p q x (at + d.verification_lease_duration) w.store
      → OneMoreCall calls ((execute_admitted platform env d p q es b x at) w).1
  unfolding execute_admitted clock_now ask ◌>>=◌ after_refusal call_executor execution_context
  execute_admitted-calls p q es b x at w h g =
      go (refusal platform env d p es b at (env.clock w.moment)) refl
    where
      w' : World
      w' = record w { moment = w.moment + 1 }

      go :
          (o : Option SafeReference)
          → refusal platform env d p es b at (env.clock w.moment) ≡ o
          → OneMoreCall calls (after_refusal platform env d p q es x (env.clock w.moment) o w').1
      go (some r) e =
          inl (
            (settle_execution-Keeps (CallsAre-stable calls) env d q _ (env.clock w.moment)).at w' h)
      go none e =
          let (live, leased) = not_refused platform env d p es b at (env.clock w.moment) e in
          call_executor-calls p q es x (env.clock w.moment) _ p.requesting_principal w' h g live
            leased

  conflict-Keeps :
      {P : World → Type 0} (stable : IsStable P) (p q : StoredProposal)
      (es : List AuthorityEvidence) (b : AuthorityBinding) (x : ResolvedState) (at : Timestamp)
      → Keeps P (after_claim platform env d p q es b x at conflict)
  unfolding after_claim
  conflict-Keeps stable p q es b x at = search helper_rules

  not_found-Keeps :
      {P : World → Type 0} (stable : IsStable P) (p q : StoredProposal)
      (es : List AuthorityEvidence) (b : AuthorityBinding) (x : ResolvedState) (at : Timestamp)
      → Keeps P (after_claim platform env d p q es b x at not_found)
  unfolding after_claim
  not_found-Keeps stable p q es b x at = search helper_rules

  not_authorized-Keeps :
      {P : World → Type 0} (stable : IsStable P) (p q : StoredProposal)
      (es : List AuthorityEvidence) (b : AuthorityBinding) (x : ResolvedState) (at : Timestamp)
      → Keeps P (after_claim platform env d p q es b x at not_authorized)
  unfolding after_claim
  not_authorized-Keeps stable p q es b x at = search helper_rules

  after_claim-calls :
      (p q : StoredProposal) (es : List AuthorityEvidence) (b : AuthorityBinding)
      (x : ResolvedState) (at : Timestamp) (c : EffectClaimResult) (w : World)
      → CallsAre calls w
      → ((c ≡ acquired) ⊎ (c ≡ owned_by_proposal)
          → IsGranted p q x (at + d.verification_lease_duration) w.store)
      → OneMoreCall calls (after_claim platform env d p q es b x at c w).1
  unfolding after_claim
  after_claim-calls p q es b x at conflict w h g =
      inl ((conflict-Keeps (CallsAre-stable calls) p q es b x at).at w h)
  after_claim-calls p q es b x at not_found w h g =
      inl ((not_found-Keeps (CallsAre-stable calls) p q es b x at).at w h)
  after_claim-calls p q es b x at not_authorized w h g =
      inl ((not_authorized-Keeps (CallsAre-stable calls) p q es b x at).at w h)
  after_claim-calls p q es b x at acquired w h g =
      execute_admitted-calls p q es b x at w h (g (inl refl))
  after_claim-calls p q es b x at owned_by_proposal w h g =
      execute_admitted-calls p q es b x at w h (g (inr refl))

  -- Whatever becomes of the answer of the store on its way.
  answer-calls :
      (p q : StoredProposal) (es : List AuthorityEvidence) (b : AuthorityBinding)
      (x : ResolvedState) (at : Timestamp) (f : Fault) (u : World)
      (r : Result EffectClaimResult × MemoryStore)
      → CallsAre calls u
      → ((c : EffectClaimResult)
          → r.0 ≡ ok c
          → (c ≡ acquired) ⊎ (c ≡ owned_by_proposal)
          → IsGranted p q x (at + d.verification_lease_duration) r.1)
      → OneMoreCall calls
          (let a = answer f u r in continue a.0 (after_claim platform env d p q es b x at) a.1).1
  unfolding answer continue
  answer-calls p q es b x at healthy u (ok c, s) h g =
      after_claim-calls p q es b x at c _ h (g c refl)
  answer-calls p q es b x at healthy u (err e, s) h g = inl h
  answer-calls p q es b x at (lost_request e) u (r, s) h g = inl h
  answer-calls p q es b x at (lost_acknowledgement e) u (r, s) h g = inl h

  admitted-calls :
      (p q : StoredProposal) (es : List AuthorityEvidence) (b : AuthorityBinding)
      (x : ResolvedState) (at : Timestamp)
      → ((s : MemoryStore) (c : EffectClaimResult)
          → (admit_execution
              (store_key p.tenant_reference p.proposal_reference)
              p.revision
              at
              q
              s).0
            ≡ ok c
          → (c ≡ acquired) ⊎ (c ≡ owned_by_proposal)
          → IsGranted p q x
              (at + d.verification_lease_duration)
              (admit_execution
                (store_key p.tenant_reference p.proposal_reference)
                p.revision
                at
                q
                s).1)
      → Leads (CallsAre calls) (OneMoreCall calls) (
          call_store env
            (admit_execution (store_key p.tenant_reference p.proposal_reference) p.revision at q)
          >>= after_claim platform env d p q es b x at)
  unfolding call_store ◌>>=◌
  admitted-calls p q es b x at granted = record {
    at = λ w h.
        answer-calls p q es b x at (env.faults w.moment) _ _ h
          (granted (run w.store (env.others w.moment)));
  }

  -- A granted admission of `p` as `q` has established all that the call relies on.
  grant :
      (p q : StoredProposal) (x : ResolvedState) (at lease : Timestamp) (s : MemoryStore)
      (c : EffectClaimResult)
      → (admit_execution (store_key p.tenant_reference p.proposal_reference) p.revision at q s).0
        ≡ ok c
      → (c ≡ acquired) ⊎ (c ≡ owned_by_proposal)
      → q.execution_precondition ≡ some x.execution_precondition
      → p.semantic_effect_reference ≡ q.semantic_effect_reference
      → q.expires_at ≡ p.expires_at
      → q.next_verification_at ≡ some lease
      → IsGranted p q x lease
          (admit_execution (store_key p.tenant_reference p.proposal_reference) p.revision at q s).1
  grant p q x at lease s c e yes_granted pre effect expiry lease_end =
      let k = store_key p.tenant_reference p.proposal_reference in
      let t = (admit_execution k p.revision at q s).1 in
      let (_, _, _, _, _, _, _, running, stored, owner, same) =
        admission_grants s t k p.revision at q c (ap (λ r. (r, t)) e) yes_granted in
      record {
        stored = stored;
        executing = running;
        precondition = pre;
        owner = ap (claim_owner t) same ∙ owner;
        effect = effect;
        expiry = expiry;
        lease_end = lease_end;
      }

  admit-calls :
      (p : StoredProposal) (es : List AuthorityEvidence) (b : AuthorityBinding) (x : ResolvedState)
      (at : Timestamp)
      → Leads (CallsAre calls) (OneMoreCall calls) (admit platform env d p es b x at)
  unfolding admit
  admit-calls p es b x at =
      Leads-bind (λ w h. inl h) _ _ (new_receipt-Keeps (CallsAre-stable calls) env p at _ none)
        (λ receipt.
          admitted-calls p _ es b x at
            (λ s c e granted. grant p _ x at _ s c e granted refl refl refl refl))

-- `execute` calls the governed executor at most once, and only for an admitted execution: whatever
-- the answers of the host, the faults of the store and the calls other tasks make of it, and
-- whether it returns or raises.
pub execute_calls :
    (platform : Platform) (env : Environment) (d : ActionDefinition) (t r : SafeReference)
    (w : World)
    → OneMoreCall (executor_calls w.trace) (execute platform env d t r w).1
execute_calls platform env d t r w =
    let calls = executor_calls w.trace in
    (execute-Leads (CallsAre-stable calls) platform env d (λ w h. inl h)
        (admit-calls platform env d calls) t r).at
      w refl
