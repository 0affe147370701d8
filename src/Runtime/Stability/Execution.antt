-- ===== src/Runtime/Stability/Execution.antt =====
-- `execute` up to the admission: a walk over its branches, given what the admission does.
use threvo_actions.Prelude.{Option, none, some, List}
use threvo_actions.Model.{SafeReference, Timestamp, RequestingPrincipal}
use threvo_actions.Result.{Result, ok, err, key_error, value_error}
use threvo_actions.Canonical.{Platform, Bytes, KeyedCommitment, ProtectedPayload}
use threvo_actions.Authority.{AuthorityBinding, AuthorityEvidence}
use threvo_actions.Proposal.{StoredProposal}
use threvo_actions.Registry.{ActionDefinition, ModelInstance, PreparedAction, ResolvedState}
use threvo_actions.Exec.{Environment, World}
use threvo_actions.Exec.Keeps.{Keeps, IsStable, keeps_rules, Keeps-pure, Keeps-raise}
use threvo_actions.Exec.Leads.{Leads, Leads-Keeps, leads_rules}
use threvo_actions.Runtime.Walk.{
  verify_commitment-Keeps, unprotect_payload-Keeps, evaluate_authority-Keeps, block-Keeps,
  execution_context-Keeps,
}
use threvo_actions.Runtime.Stability.{helper_rules}
use threvo_actions.Runtime.Stability.Preparation.{validate_prepared-Keeps, persist_prepared-Keeps}
use threvo_actions.Runtime.Execute.{
  readable, verified_snapshot, open_snapshot, load_private, replace, supersede, supersede_stale,
  expire_unexecuted, admit, recheck, reauthorize, resolve_state, evaluate_first, with_snapshot,
  execute,
}

module _ {P : World → Type 0} (stable : IsStable P) (platform : Platform) (env : Environment)
    (d : ActionDefinition) where
  readable-Keeps : (r : Result Bytes) → Keeps P (readable r)
  unfolding readable
  readable-Keeps (ok x) = Keeps-pure _
  readable-Keeps (err key_error) = Keeps-pure _
  readable-Keeps (err value_error) = Keeps-pure _
  readable-Keeps (err e) = Keeps-raise _

  verified_snapshot-Keeps :
      (p : StoredProposal) (c : KeyedCommitment) (o : Option Bytes)
      → Keeps P (verified_snapshot platform env d p c o)
  unfolding verified_snapshot
  verified_snapshot-Keeps p c none = search keeps_rules
  verified_snapshot-Keeps p c (some x) =
      search (keeps_rules, verify_commitment-Keeps stable) depth 8

  open_snapshot-Keeps :
      (p : StoredProposal) (x : Option ProtectedPayload) (c : Option KeyedCommitment)
      → Keeps P (open_snapshot platform env d p x c)
  unfolding open_snapshot
  open_snapshot-Keeps p none c = search keeps_rules
  open_snapshot-Keeps p (some x) none = search keeps_rules
  open_snapshot-Keeps p (some x) (some c) =
      search (keeps_rules, unprotect_payload-Keeps stable, readable-Keeps, verified_snapshot-Keeps)
        depth 8

  load_private-Keeps : (p : StoredProposal) → Keeps P (load_private platform env d p)
  unfolding load_private
  load_private-Keeps p = open_snapshot-Keeps p _ _

  replace-Keeps :
      (p q : StoredProposal) (x : PreparedAction) (at : Timestamp) (o : Option RequestingPrincipal)
      → Keeps P (replace platform env d p q x at o)
  unfolding replace
  replace-Keeps p q x at none = search keeps_rules
  replace-Keeps p q x at (some o) =
      search
        (
          helper_rules,
          validate_prepared-Keeps stable platform env d,
          persist_prepared-Keeps stable platform env d,
        )
        depth 8

  supersede-Keeps :
      (p q : StoredProposal) (x : Option PreparedAction) (at : Timestamp)
      → Keeps P (supersede platform env d p q x at)
  unfolding supersede
  supersede-Keeps p q none at = search keeps_rules
  supersede-Keeps p q (some x) at = replace-Keeps p q x at _

  supersede_stale-Keeps :
      (p : StoredProposal) (x : Option PreparedAction) (at : Timestamp)
      → Keeps P (supersede_stale platform env d p x at)
  unfolding supersede_stale
  supersede_stale-Keeps p x at = search (helper_rules, supersede-Keeps) depth 12

  expire_unexecuted-Keeps : (p : StoredProposal) → Keeps P (expire_unexecuted platform env d p)
  unfolding expire_unexecuted
  expire_unexecuted-Keeps p = search helper_rules depth 8

  module _ {Q : World → Type 0} (weaker : (w : World) → P w → Q w)
      (admitting : (p : StoredProposal) (es : List AuthorityEvidence) (b : AuthorityBinding)
          (x : ResolvedState) (at : Timestamp)
        → Leads P Q (admit platform env d p es b x at)) where
    recheck-Leads :
        (p : StoredProposal) (es : List AuthorityEvidence) (b : AuthorityBinding)
        (x : ResolvedState)
        → Leads P Q (recheck platform env d p es b x)
    unfolding recheck
    recheck-Leads p es b x =
        search (keeps_rules, leads_rules, expire_unexecuted-Keeps, block-Keeps, admitting, weaker)
          depth 10

    reauthorize-Leads :
        (p : StoredProposal) (b : AuthorityBinding) (x : ResolvedState)
        → Leads P Q (reauthorize platform env d p b x)
    unfolding reauthorize
    reauthorize-Leads p b x =
        search
          (
            keeps_rules,
            leads_rules,
            expire_unexecuted-Keeps,
            block-Keeps,
            recheck-Leads,
            evaluate_authority-Keeps stable,
            execution_context-Keeps stable,
          )
          depth 14

    resolve_state-Leads :
        (p : StoredProposal) (m : ModelInstance) (b : AuthorityBinding)
        (es : List AuthorityEvidence) (at : Timestamp)
        → Leads P Q (resolve_state platform env d p m b es at)
    unfolding resolve_state
    resolve_state-Leads p m b es at =
        search
          (
            keeps_rules,
            leads_rules,
            execution_context-Keeps stable,
            supersede_stale-Keeps,
            reauthorize-Leads,
          )
          depth 14

    evaluate_first-Leads :
        (p : StoredProposal) (m : ModelInstance) (c : Option KeyedCommitment) (at : Timestamp)
        → Leads P Q (evaluate_first platform env d p m c at)
    unfolding evaluate_first
    evaluate_first-Leads p m none at = Leads-Keeps weaker _ (block-Keeps stable env p at _)
    evaluate_first-Leads p m (some c) at =
        search
          (
            keeps_rules,
            leads_rules,
            block-Keeps,
            evaluate_authority-Keeps stable,
            resolve_state-Leads,
          )
          depth 12

    with_snapshot-Leads :
        (p : StoredProposal) (at : Timestamp) (m : Option ModelInstance)
        → Leads P Q (with_snapshot platform env d p at m)
    unfolding with_snapshot
    with_snapshot-Leads p at none = Leads-Keeps weaker _ (block-Keeps stable env p at _)
    with_snapshot-Leads p at (some m) = evaluate_first-Leads p m _ at

    pub execute-Leads : (t r : SafeReference) → Leads P Q (execute platform env d t r)
    unfolding execute
    execute-Leads t r =
        search
          (
            helper_rules, leads_rules, expire_unexecuted-Keeps, load_private-Keeps,
            with_snapshot-Leads,
          )
          depth 14
