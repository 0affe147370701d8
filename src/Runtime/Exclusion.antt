-- ===== src/Runtime/Exclusion.antt =====
-- Sessions of the runtime: what holds at each call of the governed executor.
use threvo_actions.Prelude.{◌≡◌, inl, inr, sym, ap, subst, Option, none, some, List, [], ◌∷◌, true}
use threvo_actions.Model.{SafeReference, Timestamp}
use threvo_actions.Canonical.{Platform}
use threvo_actions.Authority.{AuthorityBinding, AuthorityEvidence}
use threvo_actions.Proposal.{StoredProposal, EffectClaimResult, conflict, not_found, not_authorized}
use threvo_actions.Store.{ProposalKey, claim_key_of, get, new_store, admits, step}
use threvo_actions.Store.Soundness.{
  IsSound, may_have_effect, step-IsSound, new_store-IsSound, IsSound-exclusive,
}
use threvo_actions.Registry.{ActionDefinition, ResolvedState, ExecutionContext}
use threvo_actions.Exec.{
  Environment, executor_called, World, observe, current_store, continue, ◌>>=◌,
}
use threvo_actions.Exec.Keeps.{
  Keeps, IsStable, keeps_rules, Keeps-bind, Keeps-call_store, Keeps-clock_now,
}
use threvo_actions.Exec.Leads.{Leads-Keeps}
use threvo_actions.Runtime.Common.{store_key}
use threvo_actions.Runtime.Walk.{execution_context-Keeps, required-Keeps, new_receipt-Keeps}
use threvo_actions.Runtime.Stability.{settle_execution-Keeps}
use threvo_actions.Runtime.Stability.Execution.{execute-Leads}
use threvo_actions.Runtime.Execute.{
  start_executor, await_executor, call_executor, after_refusal, execute_admitted, after_claim,
  admit, execute,
}
use threvo_actions.Runtime.Admission.{
  ExecutorCall, executor_calls, IsAdmitted, OneMoreCall, execute_calls, no_more,
}
use threvo_actions.Runtime.Session.{
  Operation, quiet, executes, operate, operate_quietly-stable, quiet_operation, Turn, serve,
}

-- What the calls of the executor keep as well.
record IsFullyStable (P : World → Type 0) : Type 0 where
  stable : IsStable P
  call :
      (w : World) (c : ExecutionContext) (x : SafeReference)
      → P w
      → P (record w { trace = executor_called c x w.store ∷ w.trace })

module _ {P : World → Type 0} (full : IsFullyStable P) (platform : Platform) (env : Environment)
    (d : ActionDefinition) where
  await_executor-Keeps :
      (q : StoredProposal) (x : ResolvedState) (c : ExecutionContext)
      → Keeps P (await_executor platform env d q x c)
  unfolding await_executor
  await_executor-Keeps q x c =
      search (keeps_rules, full.stable, settle_execution-Keeps full.stable env d) depth 8

  start_executor-Keeps :
      (q : StoredProposal) (x : ResolvedState) (c : ExecutionContext)
      → Keeps P (start_executor platform env d q x c)
  unfolding start_executor await_executor current_store observe continue ◌>>=◌
  start_executor-Keeps q x c = record {
    at = λ w h. (await_executor-Keeps q x c).at _ (full.call w c x.execution_precondition h);
  }

  call_executor-Keeps :
      (p q : StoredProposal) (es : List AuthorityEvidence) (x : ResolvedState) (at : Timestamp)
      → Keeps P (call_executor platform env d p q es x at)
  unfolding call_executor
  call_executor-Keeps p q es x at =
      search (keeps_rules, execution_context-Keeps full.stable, start_executor-Keeps) depth 8

  after_refusal-Keeps :
      (p q : StoredProposal) (es : List AuthorityEvidence) (x : ResolvedState) (at : Timestamp)
      (o : Option SafeReference)
      → Keeps P (after_refusal platform env d p q es x at o)
  unfolding after_refusal
  after_refusal-Keeps p q es x at (some r) = settle_execution-Keeps full.stable env d q _ at
  after_refusal-Keeps p q es x at none = call_executor-Keeps p q es x at

  execute_admitted-Keeps :
      (p q : StoredProposal) (es : List AuthorityEvidence) (b : AuthorityBinding)
      (x : ResolvedState) (at : Timestamp)
      → Keeps P (execute_admitted platform env d p q es b x at)
  unfolding execute_admitted
  execute_admitted-Keeps p q es b x at =
      Keeps-bind _ _ (Keeps-clock_now full.stable env) (λ now. after_refusal-Keeps p q es x now _)

  after_claim-Keeps :
      (p q : StoredProposal) (es : List AuthorityEvidence) (b : AuthorityBinding)
      (x : ResolvedState) (at : Timestamp) (c : EffectClaimResult)
      → Keeps P (after_claim platform env d p q es b x at c)
  unfolding after_claim
  after_claim-Keeps p q es b x at conflict = search (keeps_rules, required-Keeps full.stable)
  after_claim-Keeps p q es b x at not_found = search keeps_rules
  after_claim-Keeps p q es b x at not_authorized = search (keeps_rules, required-Keeps full.stable)
  after_claim-Keeps p q es b x at _ = execute_admitted-Keeps p q es b x at

  admit-Keeps :
      (p : StoredProposal) (es : List AuthorityEvidence) (b : AuthorityBinding) (x : ResolvedState)
      (at : Timestamp)
      → Keeps P (admit platform env d p es b x at)
  unfolding admit step
  admit-Keeps p es b x at =
      Keeps-bind _ _ (new_receipt-Keeps full.stable env p at _ none) (λ receipt.
        Keeps-bind _ _
          (Keeps-call_store full.stable env _ (λ w h. full.stable.store w (admits _ _ at _) h))
          (λ c. after_claim-Keeps p _ es b x at c))

  operate-Keeps : (o : Operation) (w : World) → P w → P (operate platform env d o w)
  unfolding operate
  operate-Keeps (quiet o) w h = operate_quietly-stable platform env d full.stable o w h
  operate-Keeps (executes t r) w h =
      (execute-Leads full.stable platform env d (λ w h. h)
          (λ p es b x at. Leads-Keeps (λ w h. h) _ (admit-Keeps p es b x at)) t r).at
        w h

-- All calls of a list meet a condition.
pub data Each (F : ExecutorCall → Type 0) : List ExecutorCall → Type 0 where
  each_nil : Each F []
  each_cons : {c : ExecutorCall} {cs : List ExecutorCall} → F c → Each F cs → Each F (c ∷ cs)

-- The store is sound, and was so at each call.
record IsSoundThroughout (w : World) : Type 0 where
  now : IsSound w.store
  calls : Each (λ c. IsSound c.store) (executor_calls w.trace)

soundness : IsFullyStable IsSoundThroughout
unfolding executor_calls
soundness = record {
  stable = record {
    moment = λ w n h. record { now = h.now; calls = h.calls };
    store = λ w c h. record { now = step-IsSound w.store c h.now; calls = h.calls };
    event = λ w e no_call h. record {
      now = h.now;
      calls = subst (Each (λ c. IsSound c.store)) (sym (no_more e w.trace no_call)) h.calls;
    };
  };
  call = λ w c x h. record { now = h.now; calls = each_cons h.now h.calls };
}

-- The call was admitted, and no other proposal of the same semantic effect could have had it then.
pub record IsExclusive (c : ExecutorCall) : Type 0 where
  pub admitted : IsAdmitted c
  pub alone :
      (k : ProposalKey) (q : StoredProposal)
      → get c.store k ≡ some q
      → claim_key_of admitted.proposal ≡ claim_key_of q
      → may_have_effect q.lifecycle_status ≡ true
      → store_key c.context.tenant_reference c.context.proposal_reference ≡ k

admitted_status :
    (c : ExecutorCall) (a : IsAdmitted c) → may_have_effect a.proposal.lifecycle_status ≡ true
unfolding may_have_effect
admitted_status c a = ap may_have_effect a.executing

exclusive : (c : ExecutorCall) → IsAdmitted c → IsSound c.store → IsExclusive c
exclusive c a v = record {
  admitted = a;
  alone = λ k q h e m.
      IsSound-exclusive c.store v _ k a.proposal q a.stored h e (admitted_status c a) m;
}

one_more :
    (calls : List ExecutorCall) (w : World)
    → OneMoreCall calls w
    → Each IsAdmitted calls
    → Each IsAdmitted (executor_calls w.trace)
one_more calls w (inl e) h = subst (Each IsAdmitted) (sym e) h
one_more calls w (inr (c, e, a)) h = subst (Each IsAdmitted) (sym e) (each_cons a h)

operate-IsAdmitted :
    (platform : Platform) (env : Environment) (d : ActionDefinition) (o : Operation) (w : World)
    → Each IsAdmitted (executor_calls w.trace)
    → Each IsAdmitted (executor_calls (operate platform env d o w).trace)
unfolding operate
operate-IsAdmitted platform env d (quiet o) w h =
    subst (Each IsAdmitted) (sym (quiet_operation platform env d o w)) h
operate-IsAdmitted platform env d (executes t r) w h =
    one_more (executor_calls w.trace) (execute platform env d t r w).1
      (execute_calls platform env d t r w) h

serve-IsSoundThroughout :
    (platform : Platform) (turns : List Turn) (w : World)
    → IsSoundThroughout w
    → IsSoundThroughout (serve platform w turns)
unfolding serve
serve-IsSoundThroughout platform [] w h = h
serve-IsSoundThroughout platform (t ∷ turns) w h =
    serve-IsSoundThroughout platform turns _
      (operate-Keeps soundness platform t.environment t.definition t.operation w h)

serve-IsAdmitted :
    (platform : Platform) (turns : List Turn) (w : World)
    → Each IsAdmitted (executor_calls w.trace)
    → Each IsAdmitted (executor_calls (serve platform w turns).trace)
unfolding serve
serve-IsAdmitted platform [] w h = h
serve-IsAdmitted platform (t ∷ turns) w h =
    serve-IsAdmitted platform turns _
      (operate-IsAdmitted platform t.environment t.definition t.operation w h)

Each-IsExclusive :
    (calls : List ExecutorCall)
    → Each IsAdmitted calls
    → Each (λ c. IsSound c.store) calls
    → Each IsExclusive calls
Each-IsExclusive [] each_nil each_nil = each_nil
Each-IsExclusive (c ∷ calls) (each_cons a rest) (each_cons v vs) =
    each_cons (exclusive c a v) (Each-IsExclusive calls rest vs)

unfoldable pub first_world : World
first_world = record { store = new_store; moment = 0; trace = [] }

-- From an empty store on, after any turns of the runtime's operations, under any clocks, hosts,
-- adapter faults and store calls of other tasks: every call of the governed executor was made while
-- its proposal was executing under the call's precondition, owned the claim of its semantic effect
-- and had run out of neither its expiry nor its lease, and while no other proposal of the effect was
-- in a status in which it may have had it; and the store is sound.
pub session_calls :
    (platform : Platform) (turns : List Turn)
    → Each IsExclusive (executor_calls (serve platform first_world turns).trace)
      × IsSound (serve platform first_world turns).store
unfolding first_world executor_calls
session_calls platform turns =
    let v =
      serve-IsSoundThroughout platform turns first_world
        (record { now = new_store-IsSound; calls = each_nil }) in
    (Each-IsExclusive _ (serve-IsAdmitted platform turns first_world each_nil) v.calls, v.now)
