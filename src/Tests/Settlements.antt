-- ===== src/Tests/Settlements.antt =====
-- A board, a failed creation and a partial success.
use threvo_actions.Prelude.{◌≡◌, refl, none, true, false, [], ◌∷◌, any}
use threvo_actions.Model.{ProposalIdentity, EffectKind, EffectKind-discrete, LifecycleStatus}
use threvo_actions.Result.{ok, other_exception}
use threvo_actions.Receipts.{ItemOutcome, ItemOutcomeStatus}
use threvo_actions.Proposal.{StoredProposal}
use threvo_actions.Registry.{ActionDefinition, VerificationResult, VerificationStatus}
use threvo_actions.Registry.Results.{
  absence_requires_consistent_evidence, has_succeeded, is_unknown,
}
use threvo_actions.Store.{run, new_store}
use threvo_actions.Store.Board.{board_of, Reaches, run-Reaches}
use threvo_actions.Exec.{Environment, lost_acknowledgement}
use threvo_actions.Runtime.Settle.{
  verification_transition, completion_transition, is_empty_items, both_itemized, unsuccessful,
}
use threvo_actions.Runtime.Answers.{partial_truthful}
use threvo_actions.Tests.{contest}
use threvo_actions.Tests.Sessions.{environment, host, observation, pending_proposal}

run-Reaches_example : Reaches (board_of new_store) (board_of (run new_store contest))
run-Reaches_example = run-Reaches new_store contest

-- The store's adapter loses every answer.
abbrev deaf : Environment
deaf = record environment { faults = λ n. lost_acknowledgement other_exception }

abbrev identity : ProposalIdentity
identity = record { tenant_reference = "tenant"; proposal_reference = "first" }

abbrev itemized_host : ActionDefinition
itemized_host = record host { effect_kind = EffectKind.itemized }

abbrev itemized_proposal : StoredProposal
itemized_proposal = record pending_proposal { effect_kind = EffectKind.itemized }

abbrev outcome : ItemOutcomeStatus → ItemOutcome
outcome status = record { item_reference = "item"; status = status; reason_code = none }

abbrev mixed : VerificationResult
mixed = record (observation VerificationStatus.verified_completion) {
  item_outcomes = outcome ItemOutcomeStatus.succeeded ∷ outcome ItemOutcomeStatus.failed_known ∷ [];
}

mixed_valid : absence_requires_consistent_evidence mixed ≡ ok tt
unfolding absence_requires_consistent_evidence
mixed_valid = refl

mixed_partial :
    (verification_transition itemized_host itemized_proposal mixed 1).target
    ≡ LifecycleStatus.partially_succeeded
unfolding verification_transition completion_transition is_empty_items both_itemized
    EffectKind-discrete unsuccessful
mixed_partial = refl

partial_truthful_example :
    (mixed.status ≡ VerificationStatus.verified_completion)
    × (both_itemized itemized_host itemized_proposal ≡ true)
    × (any has_succeeded mixed.item_outcomes ≡ true)
    × (any unsuccessful mixed.item_outcomes ≡ true)
    × (any is_unknown mixed.item_outcomes ≡ false)
partial_truthful_example =
    partial_truthful itemized_host itemized_proposal mixed 1 mixed_valid mixed_partial
