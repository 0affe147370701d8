-- ===== src/Proposal/Validate.antt =====
-- stores/base.py: what a store accepts as a new proposal and as an update of one.
use threvo_actions.Prelude.{
  ◌+◌, string_eq, nat_eq, Bool, true, false, not, ◌&&◌, ◌||◌, none, some, List, [], ◌∷◌, ◌==◌, ◌!=◌,
  contains, any, take, length, list_eq, is_none, is_some,
}
use threvo_actions.Model.{awaiting_authority, action_type_eq, effect_kind_eq, lifecycle_status_eq}
use threvo_actions.Json.{JsonObject, empty, field}
use threvo_actions.Authority.{AuthorityEvidence, authority_evidence_eq}
use threvo_actions.Receipts.{receipt_eq}
use threvo_actions.Result.{Result, ok, store_invariant, require, ◌>>◌}
use threvo_actions.Proposal.{StoredProposal, allowed_lifecycle_transitions}

-- The negation of the test that `_validate_proposal_bindings` makes of one piece of evidence.
unfoldable pub evidence_is_bound : StoredProposal → AuthorityEvidence → Bool
evidence_is_bound p e = elim p.commitment [
  | none ↦ false
  | some commitment ↦
      e.tenant_reference == p.tenant_reference
      && (e.action_type == p.action_type
          && (e.proposal_instance_reference == p.proposal_reference
              && (e.semantic_effect_reference == p.semantic_effect_reference
                  && e.proposal_commitment == commitment.digest)))
]

unfoldable pub check_evidence : StoredProposal → List AuthorityEvidence → Result (Unit {0})
check_evidence p [] = ok tt
check_evidence p (e ∷ rest) =
    require (evidence_is_bound p e)
      (store_invariant "authority evidence binding does not match proposal")
    >> check_evidence p rest

-- `_validate_proposal_bindings`
unfoldable pub validate_proposal_bindings : StoredProposal → Result (Unit {0})
unfolding check_evidence evidence_is_bound
validate_proposal_bindings p = do
  check_evidence p p.authority_evidence
  require (not (any (λ r. r.correlation_reference != p.proposal_reference) p.receipts))
      (store_invariant "receipt correlation does not match proposal")

unfoldable pub validate_proposal_create : StoredProposal → Result (Unit {0})
validate_proposal_create p = do
  require (p.revision == 0) (store_invariant "a new proposal must start at revision zero")
  require (p.lifecycle_status == awaiting_authority)
      (store_invariant "a new proposal must start before authorization")
  require (is_none p.erasure_pending_at && is_none p.erased_at)
      (store_invariant "a new proposal cannot start erased")
  validate_proposal_bindings p

-- `immutable_identity == updated_identity`
unfoldable pub same_identity : StoredProposal → StoredProposal → Bool
same_identity current updated =
    current.tenant_reference == updated.tenant_reference
    && (current.proposal_reference == updated.proposal_reference
        && (current.action_type == updated.action_type
            && (current.semantic_effect_reference == updated.semantic_effect_reference
                && (current.effect_kind == updated.effect_kind
                    && current.created_at == updated.created_at))))

-- `bool(d)`
abbrev pub is_empty_object : JsonObject → Bool
is_empty_object empty = true
is_empty_object (field name value rest) = false

abbrev pub is_empty {ℓ} : {A : Type ℓ} → List A → Bool
is_empty [] = true
is_empty (x ∷ xs) = false

-- None of the fields that the tombstone test of `validate_proposal_update` lists has content.
unfoldable pub content_free : StoredProposal → Bool
content_free p =
    is_none p.protected_private_snapshot
    && (is_none p.commitment
        && (is_empty_object p.display_preview
            && (is_none p.requesting_principal
                && (is_none p.proposing_agent
                    && (is_empty p.authority_evidence
                        && (is_empty p.receipts
                            && (is_none p.safe_result && is_none p.execution_precondition)))))))

unfoldable pub erasure_only_advances : StoredProposal → StoredProposal → Bool
erasure_only_advances current updated = not (
    is_some current.erasure_pending_at
    && (is_none updated.erasure_pending_at && is_none updated.erased_at))

unfoldable pub allowed_transition : StoredProposal → StoredProposal → Bool
allowed_transition current updated =
    updated.lifecycle_status == current.lifecycle_status
    || contains (allowed_lifecycle_transitions current.lifecycle_status) updated.lifecycle_status

unfoldable pub validate_proposal_update : StoredProposal → StoredProposal → Result (Unit {0})
validate_proposal_update current updated = do
  require (same_identity current updated) (store_invariant "proposal identity cannot change")
  require (updated.revision == current.revision + 1)
      (store_invariant "updated revision must advance by exactly one")
  require (erasure_only_advances current updated)
      (store_invariant "pending erasure can only advance to erased")
  require (is_none updated.erased_at || content_free updated)
      (store_invariant "an erased proposal must be a content-free tombstone")
  require
      (is_some updated.erased_at
        || take (length current.authority_evidence) updated.authority_evidence
          == current.authority_evidence)
      (store_invariant "authority evidence is append-only before erasure")
  require
      (is_some updated.erased_at
        || take (length current.receipts) updated.receipts == current.receipts)
      (store_invariant "receipts are append-only before erasure")
  require (allowed_transition current updated) (store_invariant "invalid lifecycle transition")
  validate_proposal_bindings updated
