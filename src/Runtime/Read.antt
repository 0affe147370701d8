-- ===== src/Runtime/Read.antt =====
-- runtime.py: the projections that read and do not write: `read`, `read_recovery`,
-- `export_evidence`, `observation_context` and `_read_effect_owner`.
use threvo_actions.Prelude.{
  ℕ, Bool, true, false, ◌&&◌, Option, none, some, List, [], ◌∷◌, ◌==◌, ◌!=◌, string_eq, option_eq,
  reverse, is_none, if◌then◌else◌,
}
use threvo_actions.Model.{
  SafeReference, Timestamp, LifecycleStatus, lifecycle_status_eq, action_type_eq,
}
use threvo_actions.Reason
use threvo_actions.Json.{JsonObject, empty}
use threvo_actions.Result.{Error, Result, ok, err, proposal_not_found}
use threvo_actions.Receipts.{Receipt, ReceiptBody, VerificationReceiptStatus}
use threvo_actions.Proposal.{StoredProposal}
use threvo_actions.Store.{action_key, claim_owner}
use threvo_actions.Registry.{ActionDefinition, ReadContext, ExecutionContext}
use threvo_actions.Recovery.{
  ActionRecoveryCondition, effect_owned_elsewhere, expiry_due, ActionEffectOwnership, unclaimed,
  owned_by_this_proposal, owned_elsewhere, observation_uncertain, ActionRecoveryOwnerView,
  ActionRecoveryView, recovery_condition, recovery_step,
}
use threvo_actions.Evidence.{Exporter, ActionEvidenceBundle, build_evidence_bundle}
use threvo_actions.Exec.{
  Exec, Environment, pure, raise, lift, ask, attempt, call_store, clock_now, ◌>>=◌,
}
use threvo_actions.Runtime.Common.{is_exception, is_erased, required, store_get, execution_context}

pub record ProposalView : Type 0 where
  pub proposal_reference : SafeReference
  pub lifecycle_status : LifecycleStatus
  pub revision : ℕ
  pub display_preview : JsonObject
  pub receipts : List Receipt
  pub safe_result : Option JsonObject
  pub erased : Bool

unfoldable pub view_of : StoredProposal → ProposalView
view_of p = record {
  proposal_reference = p.proposal_reference;
  lifecycle_status = p.lifecycle_status;
  revision = p.revision;
  display_preview = if is_erased p then empty else p.display_preview;
  receipts = if is_erased p then [] else p.receipts;
  safe_result = if is_erased p then none else p.safe_result;
  erased = is_erased p;
}

-- `next(receipt.status for receipt in receipts if isinstance(receipt, VerificationReceipt))`
unfoldable pub first_verification : List Receipt → Option VerificationReceiptStatus
first_verification [] = none
first_verification (r ∷ rest) =
    let next = first_verification rest in
    elim r.body [ ReceiptBody.verification status _ _ ↦ some status | _ ↦ next ]

unfoldable pub last_verification : StoredProposal → Option VerificationReceiptStatus
unfolding first_verification
last_verification p = first_verification (reverse p.receipts)

unfoldable pub first_reason : List Receipt → Option SafeReference
first_reason [] = none
first_reason (r ∷ rest) =
    let next = first_reason rest in elim r.reason_code [ some reason ↦ some reason | none ↦ next ]

unfoldable pub condition_of : StoredProposal → Timestamp → ActionRecoveryCondition
unfolding last_verification
condition_of p observed_at =
    recovery_condition p.lifecycle_status observed_at p.expires_at p.next_verification_at
      (last_verification p)

-- The reason that the view gives: the last recorded, or that the expiry is due.
unfoldable pub recovery_reason :
    ActionRecoveryCondition → Option SafeReference → Option SafeReference
recovery_reason expiry_due none = some Reason.proposal_expired
recovery_reason condition recorded = recorded

-- `ownership in {OWNED_ELSEWHERE, OBSERVATION_UNCERTAIN}`
unfoldable pub is_contested : ActionEffectOwnership → Bool
is_contested owned_elsewhere = true
is_contested observation_uncertain = true
is_contested _ = false

unfoldable pub contested_condition :
    StoredProposal → ActionEffectOwnership → ActionRecoveryCondition → ActionRecoveryCondition
contested_condition p ownership condition =
    if p.lifecycle_status == LifecycleStatus.authorized && is_contested ownership
    then effect_owned_elsewhere
    else condition

-- The view of a proposal that is erased or being erased.
unfoldable pub erased_view : StoredProposal → Timestamp → ActionRecoveryView
erased_view p observed_at = record {
  proposal_reference = p.proposal_reference;
  lifecycle_status = p.lifecycle_status;
  revision = p.revision;
  erased = true;
  observed_at = observed_at;
  expires_at = none;
  next_verification_at = none;
  verification_attempts = none;
  max_verification_attempts = none;
  last_verification_status = none;
  reason_code = none;
  condition = ActionRecoveryCondition.erased;
  effect_ownership = observation_uncertain;
  owner = none;
  recommended_steps = recovery_step ActionRecoveryCondition.erased none none ∷ [];
}

unfoldable pub live_view :
    StoredProposal
    → Timestamp
    → ActionEffectOwnership
    → Option ActionRecoveryOwnerView
    → ActionRecoveryView
unfolding condition_of last_verification first_reason recovery_reason contested_condition
live_view p observed_at ownership owner =
    let reason = recovery_reason (condition_of p observed_at) (first_reason (reverse p.receipts)) in
    let condition = contested_condition p ownership (condition_of p observed_at) in
    record {
      proposal_reference = p.proposal_reference;
      lifecycle_status = p.lifecycle_status;
      revision = p.revision;
      erased = false;
      observed_at = observed_at;
      expires_at = some p.expires_at;
      next_verification_at = p.next_verification_at;
      verification_attempts = some p.verification_attempts;
      max_verification_attempts = some p.max_verification_attempts;
      last_verification_status = last_verification p;
      reason_code = reason;
      condition = condition;
      effect_ownership = ownership;
      owner = owner;
      recommended_steps = recovery_step condition p.next_verification_at reason ∷ [];
    }

-- The owner of a claim, as far as the reader may see it.
abbrev pub Ownership : Type 0
Ownership = ActionEffectOwnership × Option ActionRecoveryOwnerView

unfoldable pub owner_view : StoredProposal → Timestamp → ActionRecoveryOwnerView
unfolding condition_of
owner_view p observed_at = record {
  proposal_reference = p.proposal_reference;
  revision = p.revision;
  lifecycle_status = p.lifecycle_status;
  condition = condition_of p observed_at;
  next_check_at = p.next_verification_at;
}

-- `except Exception: return OBSERVATION_UNCERTAIN, None`
unfoldable pub uncertain : Error → Exec Ownership
uncertain e = if is_exception e then pure (observation_uncertain, none) else raise e

module _ (env : Environment) (d : ActionDefinition) where
  -- `get_effect_claim_owner`
  unfoldable pub read_claim : StoredProposal → Exec (Option SafeReference)
  read_claim p = call_store env (λ s. (
    ok (
        claim_owner s (record {
          tenant = p.tenant_reference;
          action = action_key p.action_type;
          effect = p.semantic_effect_reference;
        })),
    s,
  ))

  -- The tests of `may_show_owner`, of which only the last asks the host.
  unfoldable pub may_show_owner :
      StoredProposal → Option StoredProposal → SafeReference → ReadContext → Exec Bool
  may_show_owner p none owner context = pure false
  may_show_owner p (some o) owner context =
      if o.action_type == p.action_type
        && (o.semantic_effect_reference == p.semantic_effect_reference
            && (is_none o.erasure_pending_at && is_none o.erased_at))
      then ask (λ n. d.can_read n owner context)
      else pure false

  unfoldable pub shown_owner : Bool → Option StoredProposal → Timestamp → Ownership
  shown_owner true (some o) observed_at = (owned_elsewhere, some (owner_view o observed_at))
  shown_owner _ _ observed_at = (owned_elsewhere, none)

  -- The second look at the claim.
  unfoldable pub confirm_owner :
      SafeReference
      → Bool
      → Option StoredProposal
      → Timestamp
      → Result (Option SafeReference)
      → Exec Ownership
  confirm_owner owner may_show o observed_at (err e) = uncertain e
  confirm_owner owner may_show o observed_at (ok confirmed) = pure (
      if confirmed != some owner
      then (observation_uncertain, none)
      else shown_owner may_show o observed_at)

  unfoldable pub other_owner :
      StoredProposal → SafeReference → ReadContext → Timestamp → Exec Ownership
  unfolding confirm_owner may_show_owner
  other_owner p owner context observed_at = do
    o ← store_get env p.tenant_reference owner
    may_show ← may_show_owner p o owner context
    confirmed ← attempt (read_claim p)
    confirm_owner owner may_show o observed_at confirmed

  unfoldable pub owner_of :
      StoredProposal → ReadContext → Timestamp → Result (Option SafeReference) → Exec Ownership
  owner_of p context observed_at (err e) = uncertain e
  owner_of p context observed_at (ok none) = pure (unclaimed, none)
  owner_of p context observed_at (ok (some owner)) =
      if owner == p.proposal_reference
      then pure (owned_by_this_proposal, none)
      else other_owner p owner context observed_at

  -- `_read_effect_owner`
  unfoldable pub read_effect_owner : StoredProposal → ReadContext → Timestamp → Exec Ownership
  unfolding owner_of
  read_effect_owner p context observed_at = do
    found ← attempt (read_claim p)
    owner_of p context observed_at found

  -- The first steps of all four: the record, its action and the host's leave to read it.
  unfoldable pub readable_record : SafeReference → ReadContext → Exec StoredProposal
  readable_record reference context = do
    p ← required env context.tenant_reference reference
    if p.action_type != d.action_type then raise proposal_not_found else (do
      allowed ← ask (λ n. d.can_read n reference context)
      if allowed then pure p else raise proposal_not_found)

  unfoldable pub read : SafeReference → ReadContext → Exec ProposalView
  read reference context = do p ← readable_record reference context; pure (view_of p)

  unfoldable pub recovery_view : StoredProposal → ReadContext → Timestamp → Exec ActionRecoveryView
  recovery_view p context observed_at =
      if is_erased p then pure (erased_view p observed_at) else (do
        ownership ← read_effect_owner p context observed_at
        pure (live_view p observed_at ownership.0 ownership.1))

  unfoldable pub read_recovery : SafeReference → ReadContext → Exec ActionRecoveryView
  read_recovery reference context = do
    p ← readable_record reference context
    observed_at ← clock_now env
    recovery_view p context observed_at

  unfoldable pub export_evidence :
      Exporter → SafeReference → ReadContext → Exec ActionEvidenceBundle
  export_evidence exporter reference context = do
    p ← readable_record reference context
    exported_at ← clock_now env
    lift (build_evidence_bundle exporter p exported_at env.runtime_revision)

  unfoldable pub observation_context : SafeReference → ReadContext → Exec ExecutionContext
  observation_context reference context = do
    p ← readable_record reference context
    if is_erased p
        then raise proposal_not_found
        else (do observed_at ← clock_now env; execution_context p observed_at p.authority_evidence)
