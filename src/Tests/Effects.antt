-- ===== src/Tests/Effects.antt =====
-- Two proposals of one semantic effect contend for it.
use threvo_actions.Prelude.{
  ◌≡◌, ◌≢◌, ◌<◌, ◌≤◌, none, false, refl, ap, ◌==◌, string_eq, some, true, [], ◌∷◌, inl, arith,
  String-discrete, String-discrete_aux, list_discrete,
}
use native.Mathlib.Decide.{ℕ_discrete}
use threvo_actions.Prelude.Dict
use threvo_actions.Model.{
  awaiting_authority, authorized, executing, ActionType-discrete, LifecycleStatus-discrete,
  EffectKind-discrete,
}
use threvo_actions.Authority.{AuthorityEvidence-discrete}
use threvo_actions.Receipts.{Receipt-discrete}
use threvo_actions.Proposal.{allowed_lifecycle_transitions}
use threvo_actions.Proposal.Validate.{
  evidence_is_bound, check_evidence, validate_proposal_bindings, validate_proposal_create,
  validate_proposal_update, same_identity, erasure_only_advances, content_free, allowed_transition,
}
use threvo_actions.Store.{
  new_store, get, claim_owner, write, claim, create, step, run, compare_and_set, enters_unclaimed,
  admit_execution, admissible, claim_effect_locked, releases_claim, write_claimed, action_key,
  ProposalKey-discrete, ClaimKey-discrete, ActionKey-discrete,
}
use threvo_actions.Proposal.{StoredProposal, acquired, owned_by_proposal, conflict}
use threvo_actions.Result.{ok}
use threvo_actions.Proposal.Advance.{SameIdentity}
use threvo_actions.Store.{MemoryStore, ProposalKey, claim_key_of, creates, admits}
use threvo_actions.Store.Soundness.{
  IsSound, may_have_effect, new_store-IsSound, run-IsSound, effect_exclusion,
}
use threvo_actions.Store.Admission.{admission_grants, admission_exclusive}
use threvo_actions.Store.History.{run_history, final, compare_and_set_once}
use threvo_actions.Tests.{
  authorizes, contest, key, proposal, executing_proposal, authorized_proposal,
}

-- Both proposals are authorized; then the first is admitted.
abbrev both_authorized : MemoryStore
both_authorized = run new_store (authorizes "first" (authorizes "second" []))

abbrev first_admitted : MemoryStore
first_admitted = run both_authorized (admits (key "first") 1 5 (executing_proposal "first") ∷ [])

abbrev new_first : MemoryStore
new_first = run new_store (creates (proposal "first") ∷ [])

-- What the store answers along the contest: the second proposal meets a conflict.
contest_runs :
    (get (run new_store contest) (key "first") ≡ some (executing_proposal "first"))
    × (get (run new_store contest) (key "second") ≡ some (authorized_proposal "second"))
    × (get both_authorized (key "first") ≡ some (authorized_proposal "first"))
    × (get first_admitted (key "first") ≡ some (executing_proposal "first"))
    × (get first_admitted (key "second") ≡ some (authorized_proposal "second"))
    × (admit_execution (key "second") 1 6 (executing_proposal "second") first_admitted
        ≡ (ok conflict, first_admitted))
    × (admit_execution (key "first") 1 5 (executing_proposal "first") both_authorized
        ≡ (ok acquired, first_admitted))
    × (compare_and_set
          (key "first")
          0
          (awaiting_authority ∷ [])
          (authorized_proposal "first")
          new_first
        ≡ (ok true, run new_store (authorizes "first" [])))
unfolding new_store get claim_owner write claim create step run compare_and_set enters_unclaimed
    admit_execution admissible claim_effect_locked releases_claim write_claimed action_key
    ProposalKey-discrete ClaimKey-discrete ActionKey-discrete evidence_is_bound check_evidence
    validate_proposal_bindings validate_proposal_create validate_proposal_update same_identity
    erasure_only_advances content_free allowed_transition allowed_lifecycle_transitions
    ActionType-discrete LifecycleStatus-discrete EffectKind-discrete AuthorityEvidence-discrete
    Receipt-discrete Dict.get Dict.put Dict.empty Dict.lookup String-discrete String-discrete_aux
    list_discrete ℕ_discrete
contest_runs = (refl, refl, refl, refl, refl, refl, refl, refl)

executing_may : may_have_effect executing ≡ true
unfolding may_have_effect
executing_may = refl

differ : key "first" ≢ key "second"
unfolding String-discrete String-discrete_aux
differ e =
    let b : true ≡ false = ap (λ (k : ProposalKey). k.proposal == "first") e in
    absurd (ground arith)

both-IsSound : IsSound first_admitted
both-IsSound = run-IsSound _ _ (run-IsSound new_store _ new_store-IsSound)

effect_exclusion_example : key "first" ≡ key "first"
effect_exclusion_example =
    effect_exclusion contest (key "first") (key "first") (executing_proposal "first")
      (executing_proposal "first") contest_runs.0 contest_runs.0 refl executing_may executing_may

admission_exclusive_example :
    ((admit_execution (key "second") 1 6 (executing_proposal "second") first_admitted).0
      ≢ ok acquired)
    × ((admit_execution (key "second") 1 6 (executing_proposal "second") first_admitted).0
        ≢ ok owned_by_proposal)
    × ((admit_execution (key "second") 1 6 (executing_proposal "second") first_admitted).1
        ≡ first_admitted)
admission_exclusive_example =
    admission_exclusive first_admitted (key "first") (key "second") (executing_proposal "first")
      (authorized_proposal "second") 1 6 (executing_proposal "second") both-IsSound contest_runs.3
      contest_runs.4 differ refl executing_may

-- The admission that was granted, spelled out.
admission_grants_example :
    (p : StoredProposal) × (get both_authorized (key "first") ≡ some p)
    × (p.revision ≡ 1)
    × (p.lifecycle_status ≡ authorized)
    × (p.erasure_pending_at ≡ none)
    × (p.erased_at ≡ none)
    × (5 < p.expires_at)
    × (executing ≡ executing)
    × (get first_admitted (key "first") ≡ some (executing_proposal "first"))
    × (claim_owner first_admitted (claim_key_of p) ≡ some "first")
    × (claim_key_of (executing_proposal "first") ≡ claim_key_of p)
admission_grants_example =
    admission_grants both_authorized first_admitted (key "first") 1 5 (executing_proposal "first")
      acquired contest_runs.6 (inl refl)

run_history_example :
    (q : StoredProposal) × (get first_admitted (key "first") ≡ some q)
    × SameIdentity (authorized_proposal "first") q
    × (1 ≤ q.revision)
    × (q.revision ≡ 1 → q ≡ authorized_proposal "first")
    × (final authorized ≡ true → q.lifecycle_status ≡ authorized)
run_history_example =
    run_history both_authorized (admits (key "first") 1 5 (executing_proposal "first") ∷ [])
      (key "first") (authorized_proposal "first") contest_runs.2

-- Two tasks decide the same revision, with an admission between them.
compare_and_set_once_example :
    compare_and_set (key "first") 0 (awaiting_authority ∷ []) (authorized_proposal "first") (
      run
        (run new_store (authorizes "first" []))
        (admits (key "first") 1 5 (executing_proposal "first") ∷ []))
    ≡ (
      ok false,
      run
          (run new_store (authorizes "first" []))
          (admits (key "first") 1 5 (executing_proposal "first") ∷ []),
    )
compare_and_set_once_example =
    compare_and_set_once new_first (run new_store (authorizes "first" [])) (key "first") 0
      (awaiting_authority ∷ []) (awaiting_authority ∷ []) (authorized_proposal "first")
      (authorized_proposal "first") (admits (key "first") 1 5 (executing_proposal "first") ∷ [])
      contest_runs.7
