-- ===== src/Store/Effect.antt =====
-- What one call of the store may do, whatever its arguments: the cases that every law below splits on.
use threvo_actions.Prelude.{
  ℕ, ◌≡◌, ◌⊎◌, refl, true, false, not, none, some, List, inl, inr, arith, Bool-cases, Option-cases,
  ◌==◌, ◌!=◌, contains, is_some, string_eq, nat_eq,
}
use threvo_actions.Model.{
  LifecycleStatus, authorized, executing, lifecycle_status_eq, Timestamp, SafeReference,
}
use threvo_actions.Result.{ok, Result-cases}
use threvo_actions.Proposal.{
  StoredProposal, acquired, owned_by_proposal, conflict, proposal_with_erasure_pending,
  erased_proposal,
}
use threvo_actions.Proposal.Validate.{
  validate_proposal_bindings, validate_proposal_create, validate_proposal_update,
}
use threvo_actions.Proposal.Advance.{
  Advance, validate_proposal_update-Advance, mark-Advance, erase-Advance, mark-bindings,
  erase-bindings,
}
use threvo_actions.Store.{
  MemoryStore, ProposalKey, key_of, claim_key_of, get, claim_owner, write, claim, create,
  compare_and_set, enters_unclaimed, releases_claim, claim_effect_locked, write_claimed, admissible,
  admit_execution, markable, mark_erasure_pending, completable, complete_erasure, StoreCall,
  creates, compares, admits, marks, completes, step,
}

-- The claim of `p` is free for the proposal `reference`: nobody's, or its owner released it.
abbrev pub ClaimIsFree : MemoryStore → StoredProposal → Type 0
ClaimIsFree s p =
    (claim_owner s (claim_key_of p) ≡ none)
    ⊎ ((owner : _) × (claim_owner s (claim_key_of p) ≡ some owner)
        × (releases_claim (get s (record { tenant = p.tenant_reference; proposal = owner }))
            ≡ true))

pub data Effect (s t : MemoryStore) : Type 0 where
  same : t ≡ s → Effect s t
  created :
      (p : StoredProposal)
      → get s (key_of p) ≡ none
      → validate_proposal_create p ≡ ok tt
      → t ≡ write s (key_of p) p
      → Effect s t
  advanced :
      (key : ProposalKey) (p q : StoredProposal)
      → get s key ≡ some p
      → Advance p q
      → (validate_proposal_bindings p ≡ ok tt → validate_proposal_bindings q ≡ ok tt)
      → (q.lifecycle_status ≡ executing
          → (p.lifecycle_status ≡ executing)
            ⊎ (claim_owner s (claim_key_of p) ≡ some p.proposal_reference)
            ⊎ (claim_owner s (claim_key_of p) ≡ some key.proposal))
      → t ≡ write s key q
      → Effect s t
  claimed :
      (key : ProposalKey) (p q : StoredProposal)
      → get s key ≡ some p
      → Advance p q
      → (validate_proposal_bindings p ≡ ok tt → validate_proposal_bindings q ≡ ok tt)
      → p.lifecycle_status ≡ authorized
      → q.lifecycle_status ≡ executing
      → ClaimIsFree s p
      → t ≡ write (claim s (claim_key_of p) key.proposal) key q
      → Effect s t

markable-live :
    (p : StoredProposal) (revision : ℕ) → markable p revision ≡ true → is_some p.erased_at ≡ false
unfolding markable
markable-live p revision h = ground arith

mark-status :
    (p : StoredProposal) (at : Timestamp)
    → (proposal_with_erasure_pending p at).lifecycle_status ≡ executing
    → p.lifecycle_status ≡ executing
unfolding proposal_with_erasure_pending
mark-status p at h = h

erase-status :
    (p : StoredProposal) (at : Timestamp)
    → (erased_proposal p at).lifecycle_status ≡ executing
    → p.lifecycle_status ≡ executing
unfolding erased_proposal
erase-status p at h = h

pub admissible-authorized :
    (p : StoredProposal) (revision : ℕ) (at : Timestamp)
    → admissible p revision at ≡ true
    → p.lifecycle_status ≡ authorized
unfolding admissible
admissible-authorized p revision at h = ground arith

module _ (s : MemoryStore) where
  create-Effect : (p : StoredProposal) → Effect s (create p s).1
  unfolding create
  create-Effect p = elim (Option-cases (get s (key_of p))) [
    | inr (q, e) ↦ same (rw (e, create))
    | inl absent ↦ elim (Result-cases (validate_proposal_create p)) [
      | inr (x, e) ↦ same (rw (absent, create) (rw (e, create)))
      | inl (_, e) ↦ created p absent e (rw (absent, create) (rw (e, create)))
    ]
  ]

  claim_of_entry :
      (key : ProposalKey) (p q : StoredProposal)
      → enters_unclaimed s p q ≡ false
      → q.lifecycle_status ≡ executing
      → (p.lifecycle_status ≡ executing)
        ⊎ (claim_owner s (claim_key_of p) ≡ some p.proposal_reference)
        ⊎ (claim_owner s (claim_key_of p) ≡ some key.proposal)
  unfolding enters_unclaimed
  claim_of_entry key p q h e = ground arith

  compare-Effect :
      (key : ProposalKey) (revision : ℕ) (statuses : List LifecycleStatus) (q : StoredProposal)
      → Effect s (compare_and_set key revision statuses q s).1
  unfolding compare_and_set
  compare-Effect key revision statuses q = elim (Option-cases (get s key)) [
    | inl e ↦ same (rw (e, compare_and_set))
    | inr (p, found) ↦ elim (Bool-cases (p.revision != revision)) [
      | inl e ↦ same (rw (found, compare_and_set) (rw e))
      | inr r ↦ elim (Bool-cases (not (contains statuses p.lifecycle_status))) [
        | inl e ↦ same (rw (found, compare_and_set) (rw r (rw e)))
        | inr c ↦ elim (Result-cases (validate_proposal_update p q)) [
          | inr (x, e) ↦ same (rw (found, compare_and_set) (rw r (rw c (rw (e, compare_and_set)))))
          | inl (_, v) ↦ elim (Bool-cases (enters_unclaimed s p q)) [
            | inl e ↦
                same (rw (found, compare_and_set) (rw r (rw c (rw (v, compare_and_set) (rw e)))))
            | inr e ↦
                let (adv, bound) = validate_proposal_update-Advance p q v in
                advanced key p q found adv (λ _. bound) (claim_of_entry key p q e)
                  (rw (found, compare_and_set) (rw r (rw c (rw (v, compare_and_set) (rw e)))))
          ]
        ]
      ]
    ]
  ]

  mark-Effect :
      (key : ProposalKey) (revision : ℕ) (at : Timestamp)
      → Effect s (mark_erasure_pending key revision at s).1
  unfolding mark_erasure_pending
  mark-Effect key revision at = elim (Option-cases (get s key)) [
    | inl e ↦ same (rw (e, mark_erasure_pending))
    | inr (p, found) ↦ elim (Bool-cases (markable p revision)) [
      | inr e ↦ same (rw (found, mark_erasure_pending) (rw e))
      | inl m ↦ elim (Bool-cases (is_some p.erasure_pending_at)) [
        | inl e ↦ same (rw (found, mark_erasure_pending) (rw m (rw e)))
        | inr e ↦
            advanced key p (proposal_with_erasure_pending p at) found
              (mark-Advance p at (markable-live p revision m)) (mark-bindings p at)
              (λ h. inl (mark-status p at h)) (rw (found, mark_erasure_pending) (rw m (rw e)))
      ]
    ]
  ]

  complete-Effect :
      (key : ProposalKey) (revision : ℕ) (at : Timestamp)
      → Effect s (complete_erasure key revision at s).1
  unfolding complete_erasure
  complete-Effect key revision at = elim (Option-cases (get s key)) [
    | inl e ↦ same (rw (e, complete_erasure))
    | inr (p, found) ↦ elim (Bool-cases (completable p revision)) [
      | inr e ↦ same (rw (found, complete_erasure) (rw e))
      | inl m ↦
          advanced key p (erased_proposal p at) found (erase-Advance p at)
            (λ _. erase-bindings p at) (λ h. inl (erase-status p at h))
            (rw (found, complete_erasure) (rw m))
    ]
  ]

  claim_cases :
      (p : StoredProposal) (reference : SafeReference)
      → ((claim_effect_locked (claim_key_of p) reference s
            ≡ (acquired, claim s (claim_key_of p) reference))
          × ClaimIsFree s p)
        ⊎ ((claim_effect_locked (claim_key_of p) reference s ≡ (owned_by_proposal, s))
            × (claim_owner s (claim_key_of p) ≡ some reference))
        ⊎ (claim_effect_locked (claim_key_of p) reference s ≡ (conflict, s))
  unfolding claim_effect_locked
  claim_cases p reference = elim (Option-cases (claim_owner s (claim_key_of p))) [
    | inl e ↦ inl (rw (e, claim_effect_locked), inl e)
    | inr (owner, e) ↦ elim (Bool-cases (owner == reference)) [
      | inl h ↦ inr (inl (rw (e, claim_effect_locked) (rw h), ground arith))
      | inr h ↦
          elim (Bool-cases
            (releases_claim (get s (record { tenant = p.tenant_reference; proposal = owner })))) [
              | inl r ↦ inl (rw (e, claim_effect_locked) (rw h (rw r)), inr (owner, e, r))
              | inr r ↦ inr (inr (rw (e, claim_effect_locked) (rw h (rw r))))
            ]
    ]
  ]

  admit-Effect :
      (key : ProposalKey) (revision : ℕ) (at : Timestamp) (q : StoredProposal)
      → Effect s (admit_execution key revision at q s).1
  unfolding admit_execution
  admit-Effect key revision at q = elim (Option-cases (get s key)) [
    | inl e ↦ same (rw (e, admit_execution))
    | inr (p, found) ↦ elim (Bool-cases (admissible p revision at)) [
      | inr e ↦ same (rw (found, admit_execution) (rw e))
      | inl m ↦ elim (Result-cases (validate_proposal_update p q)) [
        | inr (x, e) ↦ same (rw (found, admit_execution) (rw m (rw (e, admit_execution))))
        | inl (_, v) ↦ elim (Bool-cases (q.lifecycle_status != executing)) [
          | inl e ↦ same (rw (found, admit_execution) (rw m (rw (v, admit_execution) (rw e))))
          | inr e ↦
              let (adv, bound) = validate_proposal_update-Advance p q v in
              elim (claim_cases p key.proposal) [
                | inl (c, free) ↦
                    claimed key p q found adv (λ _. bound) (admissible-authorized p revision at m)
                      (ground arith) free
                      (rw (found, admit_execution)
                        (rw m
                          (rw (v, admit_execution) (rw e (rw c (unfold write_claimed in refl))))))
                | inr (inl (c, own)) ↦
                    advanced key p q found adv (λ _. bound) (λ _. inr (inr own))
                      (rw (found, admit_execution)
                        (rw m
                          (rw (v, admit_execution) (rw e (rw c (unfold write_claimed in refl))))))
                | inr (inr c) ↦ same (
                    rw (found, admit_execution)
                      (rw m (rw (v, admit_execution) (rw e (rw c (unfold write_claimed in refl))))))
              ]
        ]
      ]
    ]
  ]

  -- Every call has one of the four effects.
  pub step-Effect : (c : StoreCall) → Effect s (step s c)
  unfolding step
  step-Effect (creates p) = create-Effect p
  step-Effect (compares key revision statuses q) = compare-Effect key revision statuses q
  step-Effect (admits key revision at q) = admit-Effect key revision at q
  step-Effect (marks key revision at) = mark-Effect key revision at
  step-Effect (completes key revision at) = complete-Effect key revision at
