-- ===== src/Runtime/Answers.antt =====
-- What a settled status tells of a host's answer that has passed its validator.
use threvo_actions.Prelude.{ℕ, ◌≡◌, ◌⊎◌, refl, true, false, List, [], ◌∷◌, any, arith}
use threvo_actions.Model.{LifecycleStatus}
use threvo_actions.Result.{ok}
use threvo_actions.Receipts.{ItemOutcome}
use threvo_actions.Proposal.{StoredProposal}
use threvo_actions.Registry.{ActionDefinition, VerificationResult, VerificationStatus}
use threvo_actions.Registry.Results.{
  has_succeeded, is_unknown, has_items, is_absence, is_completion, is_conclusive, is_final_absence,
  absence_requires_consistent_evidence,
}
use threvo_actions.Runtime.Settle.{
  verification_transition, completion_transition, absence_transition, waiting_transition,
  verification_unresolved_with, failed_known_with, both_itemized, unsuccessful, is_empty_items,
}

-- What the validator of a verification has established, test by test.
record IsConsistent (v : VerificationResult) : Type 0 where
  succeeded :
      v.status ≡ VerificationStatus.verified_completion
      → has_items v.item_outcomes ≡ true
      → any has_succeeded v.item_outcomes ≡ true
  known : v.status ≡ VerificationStatus.verified_completion → any is_unknown v.item_outcomes ≡ false
  settled :
      v.status ≡ VerificationStatus.authoritative_final_absence → v.settling_boundary_passed ≡ true

consistent :
    (v : VerificationResult) → absence_requires_consistent_evidence v ≡ ok tt → IsConsistent v
unfolding absence_requires_consistent_evidence is_absence is_completion is_conclusive
    is_final_absence
consistent v h = record {
  succeeded = λ e some_items. ground arith;
  known = λ e. ground arith;
  settled = λ e. ground arith;
}

some_items : (items : List ItemOutcome) → any unsuccessful items ≡ true → has_items items ≡ true
unfolding has_items
some_items [] h = cc
some_items (x ∷ xs) h = refl

-- The only way to a partial success.
partial_transition :
    (d : ActionDefinition) (p : StoredProposal) (v : VerificationResult) (attempts : ℕ)
    → (verification_transition d p v attempts).target ≡ LifecycleStatus.partially_succeeded
    → (v.status ≡ VerificationStatus.verified_completion)
      × (any unsuccessful v.item_outcomes ≡ true)
unfolding verification_transition completion_transition absence_transition waiting_transition
    verification_unresolved_with failed_known_with
partial_transition d p v attempts h = (ground arith, ground arith)

partial_itemized :
    (d : ActionDefinition) (p : StoredProposal) (v : VerificationResult) (attempts : ℕ)
    → (verification_transition d p v attempts).target ≡ LifecycleStatus.partially_succeeded
    → (is_empty_items v.item_outcomes ≡ true) ⊎ (both_itemized d p ≡ true)
unfolding verification_transition completion_transition absence_transition waiting_transition
    verification_unresolved_with failed_known_with
partial_itemized d p v attempts h = ground arith

not_empty :
    (items : List ItemOutcome) → any unsuccessful items ≡ true → is_empty_items items ≡ false
unfolding is_empty_items
not_empty [] h = cc
not_empty (x ∷ xs) h = refl

-- A verification whose validator has passed makes a proposal partially succeeded only if the target
-- verified completion, the action and the proposal are itemized, some item succeeded, some item did
-- not, and no item's outcome is unknown.
pub partial_truthful :
    (d : ActionDefinition) (p : StoredProposal) (v : VerificationResult) (attempts : ℕ)
    → absence_requires_consistent_evidence v ≡ ok tt
    → (verification_transition d p v attempts).target ≡ LifecycleStatus.partially_succeeded
    → (v.status ≡ VerificationStatus.verified_completion)
      × (both_itemized d p ≡ true)
      × (any has_succeeded v.item_outcomes ≡ true)
      × (any unsuccessful v.item_outcomes ≡ true)
      × (any is_unknown v.item_outcomes ≡ false)
partial_truthful d p v attempts valid h =
    let k = consistent v valid in
    let (status, mixed) = partial_transition d p v attempts h in
    let present = some_items v.item_outcomes mixed in
    (
      status,
      ground (arith, partial_itemized d p v attempts h, not_empty v.item_outcomes mixed),
      k.succeeded status present,
      mixed,
      k.known status,
    )
