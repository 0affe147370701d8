-- ===== src/Tests/Records.antt =====
-- Evidence, settlements, recovery advice and erasure on concrete records.
use threvo_actions.Prelude.{
  ◌≡◌, ◌⊎◌, ◌≤◌, ◌<◌, refl, some, none, ◌+◌, is_some, true, false, List, [], ◌∷◌, length, contains,
  string_eq, String-discrete, String-discrete_aux,
}
use native.Mathlib.Decide.{ℕ_discrete}
use threvo_actions.Prelude.Dict
use threvo_actions.Model.{
  SafeReference, LifecycleStatus, LifecycleStatus-discrete, ActionType-discrete,
}
use threvo_actions.Authority.{
  AuthorityDecision-discrete, authority_evidence_matches_binding, validate_authority_evidence,
  expired, binding_mismatch, not_yet_valid, expiry_follows_issue_time,
}
use threvo_actions.Authority.Validity.{valid_exactly, failure_exactly}
use threvo_actions.Approvals.{
  approval_sound, m_of_n_approvals, satisfied_by, approving, approves, references, insert, distinct,
  backed,
}
use threvo_actions.Recovery.{
  reconcile_advised, advice, reconcile, is_later, recovery_condition, recovery_step, recommended,
}
use threvo_actions.Lifecycle.{classify_lifecycle}
use threvo_actions.Result.{ok}
use threvo_actions.Proposal.{
  StoredProposal, erased_proposal, erasable, proposal_with_erasure_pending,
}
use threvo_actions.Proposal.Advance.{SameIdentity}
use threvo_actions.Proposal.Validate.{
  validate_proposal_bindings, validate_proposal_update, check_evidence, content_free,
  validate_proposal_create,
}
use threvo_actions.Store.{
  MemoryStore, new_store, get, write, mark_erasure_pending, complete_erasure, markable, completable,
  create, step, run, creates, marks, ProposalKey-discrete,
}
use threvo_actions.Store.Erasure.{complete_erasure_tombstone, erase_protocol, tombstone_revived}
use threvo_actions.Tests.{alice, bob, approval_by, binding, proposal, key}

-- The evidence matches its binding, and is valid at 5 and no longer at 900.
evidence_runs :
    (authority_evidence_matches_binding (approval_by alice) binding ≡ true)
    × ((validate_authority_evidence (approval_by alice) binding 5).valid ≡ true)
    × ((validate_authority_evidence (approval_by alice) binding 900).valid ≡ false)
    × ((m_of_n_approvals 2
          (alice ∷ bob ∷ [])
          binding
          (approval_by alice ∷ approval_by bob ∷ approval_by alice ∷ [])).satisfied
        ≡ true)
    × ((m_of_n_approvals 2
          (alice ∷ bob ∷ [])
          binding
          (approval_by alice ∷ approval_by alice ∷ [])).satisfied
        ≡ false)
unfolding authority_evidence_matches_binding validate_authority_evidence m_of_n_approvals
    satisfied_by approving approves references insert String-discrete String-discrete_aux
    ActionType-discrete AuthorityDecision-discrete ℕ_discrete
evidence_runs = (refl, refl, refl, refl, refl)

valid_exactly_example :
    ((validate_authority_evidence (approval_by alice) binding 5).valid ≡ true
      → (authority_evidence_matches_binding (approval_by alice) binding ≡ true)
        × (0 ≤ 5)
        × (5 < 900))
    × (authority_evidence_matches_binding (approval_by alice) binding ≡ true
        → 0 ≤ 5
        → 5 < 900
        → (validate_authority_evidence (approval_by alice) binding 5).valid ≡ true)
valid_exactly_example = valid_exactly (approval_by alice) binding 5

alice_ordered : expiry_follows_issue_time (approval_by alice) ≡ true
unfolding expiry_follows_issue_time
alice_ordered = refl

failure_exactly_example :
    let failure = (validate_authority_evidence (approval_by alice) binding 900).failure in
    let matches = authority_evidence_matches_binding (approval_by alice) binding in
    ((failure ≡ some binding_mismatch → matches ≡ false)
      × (matches ≡ false → failure ≡ some binding_mismatch))
    × ((failure ≡ some not_yet_valid → (matches ≡ true) × (900 < 0))
        × (matches ≡ true → 900 < 0 → failure ≡ some not_yet_valid))
    × ((failure ≡ some expired → (matches ≡ true) × (900 ≤ 900))
        × (matches ≡ true → 900 ≤ 900 → failure ≡ some expired))
failure_exactly_example = failure_exactly (approval_by alice) binding 900 alice_ordered

-- Alice approved twice and counts once, so it takes Bob.
approval_sound_example :
    (rs : List SafeReference) × (distinct rs ≡ true)
    × (2 ≤ length rs)
    × ((r : SafeReference)
        → contains rs r ≡ true
        → backed
            (references (alice ∷ bob ∷ []))
            binding
            (approval_by alice ∷ approval_by bob ∷ approval_by alice ∷ [])
            r
          ≡ true)
approval_sound_example =
    approval_sound 2 (alice ∷ bob ∷ []) binding
      (approval_by alice ∷ approval_by bob ∷ approval_by alice ∷ []) evidence_runs.3

overdue : (advice LifecycleStatus.executing 5 10 (some 4) none none).operation ≡ reconcile
unfolding recovery_condition recovery_step recommended is_later
overdue = refl

reconcile_advised_example :
    ((classify_lifecycle LifecycleStatus.executing).reconciliation_available ≡ true)
    × ((LifecycleStatus.executing ≡ LifecycleStatus.failed_unknown) ⊎ (is_later (some 4) 5 ≡ false))
reconcile_advised_example =
    reconcile_advised LifecycleStatus.executing 5 10 (some 4) none none overdue

-- A store of one proposal, and the same with its erasure pending.
abbrev one : MemoryStore
one = run new_store (creates (proposal "first") ∷ [])

abbrev pending : MemoryStore
pending = run one (marks (key "first") 0 5 ∷ [])

abbrev tombstone : MemoryStore
tombstone = (complete_erasure (key "first") 1 6 pending).1

erasure_runs :
    (get one (key "first") ≡ some (proposal "first"))
    × (erasable (proposal "first").lifecycle_status ≡ true)
    × (complete_erasure (key "first") 1 6 pending ≡ (ok true, tombstone))
unfolding erasable new_store get write create step run mark_erasure_pending markable
    complete_erasure completable ProposalKey-discrete validate_proposal_bindings
    validate_proposal_create check_evidence LifecycleStatus-discrete proposal_with_erasure_pending
    Dict.get Dict.put Dict.empty Dict.lookup String-discrete String-discrete_aux ℕ_discrete
erasure_runs = (refl, refl, refl)

complete_erasure_tombstone_example :
    (p q : StoredProposal) × (get pending (key "first") ≡ some p)
    × (is_some p.erasure_pending_at ≡ true)
    × (get tombstone (key "first") ≡ some q)
    × SameIdentity p q
    × (q.revision ≡ 2)
    × (content_free q ≡ true)
    × (q.next_verification_at ≡ none)
    × (q.erasure_pending_at ≡ none)
    × (q.erased_at ≡ some 6)
complete_erasure_tombstone_example =
    complete_erasure_tombstone pending tombstone (key "first") 1 6 erasure_runs.2

erase_protocol_example :
    (q : StoredProposal) × (get
        (complete_erasure (key "first") 1 6 (mark_erasure_pending (key "first") 0 5 one).1).1
        (key "first")
      ≡ some q)
    × (content_free q ≡ true)
    × (q.erased_at ≡ some 6)
    × (q.lifecycle_status ≡ LifecycleStatus.awaiting_authority)
erase_protocol_example =
    erase_protocol one (key "first") (proposal "first") 5 6 erasure_runs.0 erasure_runs.1 refl refl

tombstone_revived_example :
    validate_proposal_update
      (erased_proposal (proposal "first") 6)
      (record (erased_proposal (proposal "first") 6) {
        erased_at = none;
        display_preview = (proposal "first").display_preview;
        revision = (erased_proposal (proposal "first") 6).revision + 1;
      })
    ≡ ok tt
tombstone_revived_example =
    tombstone_revived (proposal "first") 6 (proposal "first").display_preview
