-- ===== src/Registry/Results.antt =====
-- registry.py: the validators of `ExecutionResult` and `VerificationResult`, which a host's answer
-- has passed once it is constructed.
use threvo_actions.Prelude.{
  Bool, true, false, not, ◌&&◌, ◌||◌, List, [], ◌∷◌, any, all, is_some, if◌then◌else◌,
}
use threvo_actions.Result.{Result, ok, value_error, require, ◌>>◌}
use threvo_actions.Receipts.{ItemOutcome, ItemOutcomeStatus}
use threvo_actions.Registry.{
  ExecutionResult, ExecutionStatus, VerificationResult, VerificationStatus,
}

unfoldable pub has_succeeded : ItemOutcome → Bool
has_succeeded item = elim item.status [ ItemOutcomeStatus.succeeded ↦ true | _ ↦ false ]

unfoldable pub is_unknown : ItemOutcome → Bool
is_unknown item = elim item.status [ ItemOutcomeStatus.failed_unknown ↦ true | _ ↦ false ]

-- `bool(items)`
unfoldable pub has_items : List ItemOutcome → Bool
has_items [] = false
has_items (item ∷ items) = true

-- `partial_requires_items`
unfoldable pub partial_requires_items : ExecutionResult → Result (Unit {0})
unfolding has_succeeded has_items
partial_requires_items x = elim x.status [
  | ExecutionStatus.partially_succeeded ↦ (do
    require (has_items x.item_outcomes) value_error
    require (not (all has_succeeded x.item_outcomes)) value_error
    require (any has_succeeded x.item_outcomes) value_error)
  | ExecutionStatus.stale_no_effect ↦
      require
        (not (is_some x.result || (has_items x.item_outcomes || is_some x.external_reference)))
        value_error
  | _ ↦ ok tt
]

unfoldable pub is_absence : VerificationStatus → Bool
is_absence VerificationStatus.provisional_absence = true
is_absence VerificationStatus.authoritative_final_absence = true
is_absence _ = false

unfoldable pub is_completion : VerificationStatus → Bool
is_completion VerificationStatus.verified_completion = true
is_completion _ = false

unfoldable pub is_conclusive : VerificationStatus → Bool
is_conclusive VerificationStatus.verified_completion = true
is_conclusive VerificationStatus.verified_terminal_failure = true
is_conclusive _ = false

unfoldable pub is_final_absence : VerificationStatus → Bool
is_final_absence VerificationStatus.authoritative_final_absence = true
is_final_absence _ = false

-- `absence_requires_consistent_evidence`
unfoldable pub absence_requires_consistent_evidence : VerificationResult → Result (Unit {0})
unfolding has_succeeded is_unknown has_items is_absence is_completion is_conclusive is_final_absence
absence_requires_consistent_evidence v = do
  require (not (is_absence v.status && (is_some v.result || has_items v.item_outcomes))) value_error
  require
      (not (
        is_completion v.status
        && (has_items v.item_outcomes && not (any has_succeeded v.item_outcomes))))
      value_error
  require (not (is_conclusive v.status && any is_unknown v.item_outcomes)) value_error
  require
      (if is_final_absence v.status
        then v.settling_boundary_passed
        else not v.settling_boundary_passed)
      value_error
