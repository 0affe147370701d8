-- ===== src/Registry.antt =====
-- registry.py and the ports of canonical.py: what a host gives the runtime for one kind of action.
-- A port answers by the moment at which it is asked, so it may keep any state, and it may raise.
pub mod Results
pub mod Lookup
use threvo_actions.Prelude.{ℕ, String, Bool, Option, List}
use threvo_actions.Model.{
  SafeReference, Timestamp, Duration, ActionType, ProposalIdentity, EffectKind, RequestingPrincipal,
  ProposingAgent, ConfirmingAuthority, GovernedExecutor, AuthoritativeTarget, EvidenceConsumer,
  RecoveryOperator,
}
use threvo_actions.Json.{JsonObject}
use threvo_actions.Canonical.{Bytes, KeyedCommitment, ProtectedPayload}
use threvo_actions.Authority.{AuthorityBinding, AuthorityEvidence}
use threvo_actions.Receipts.{ExternalReference, ItemOutcome}
use threvo_actions.Result.{Result}

-- An instance of a host's pydantic model: its class and what `model_dump(mode="json")` gives.
pub record ModelInstance : Type 0 where
  pub model : String
  pub json : JsonObject

pub record PreparationContext : Type 0 where
  pub tenant_reference : SafeReference
  pub requesting_principal : RequestingPrincipal
  pub proposing_agent : Option ProposingAgent
  pub prepared_at : Timestamp

pub record DecisionContext : Type 0 where
  pub tenant_reference : SafeReference
  pub authority : ConfirmingAuthority
  pub decided_at : Timestamp

pub record ReadContext : Type 0 where
  pub tenant_reference : SafeReference
  pub consumer : EvidenceConsumer

pub record RecoveryContext : Type 0 where
  pub tenant_reference : SafeReference
  pub operator : RecoveryOperator
  pub intervention_reference : SafeReference
  pub requested_at : Timestamp

pub record ExecutionContext : Type 0 where
  pub tenant_reference : SafeReference
  pub proposal_reference : SafeReference
  pub semantic_effect_reference : SafeReference
  pub requesting_principal : RequestingPrincipal
  pub authorities : List ConfirmingAuthority
  pub observed_at : Timestamp

pub record AuthorizationResult : Type 0 where
  pub allowed : Bool
  pub reason_code : Option SafeReference

pub record AuthorityEvaluation : Type 0 where
  pub satisfied : Bool
  pub reason_code : Option SafeReference

pub record PreparedAction : Type 0 where
  pub private_snapshot : ModelInstance
  pub display_preview : ModelInstance
  pub semantic_effect_reference : SafeReference

pub record ResolvedState : Type 0 where
  pub current_snapshot : ModelInstance
  pub execution_precondition : SafeReference
  pub materially_drifted : Bool
  pub replacement : Option PreparedAction

pub data ExecutionStatus : Type 0 where
  accepted stale_no_effect failed_known failed_unknown partially_succeeded : ExecutionStatus

pub record ExecutionResult : Type 0 where
  pub status : ExecutionStatus
  pub result : Option ModelInstance
  pub item_outcomes : List ItemOutcome
  pub external_reference : Option ExternalReference
  pub reason_code : Option SafeReference

pub data VerificationStatus : Type 0 where
  verified_completion verified_terminal_failure provisional_absence authoritative_final_absence
        target_unavailable :
      VerificationStatus

pub record VerificationResult : Type 0 where
  pub status : VerificationStatus
  pub result : Option ModelInstance
  pub item_outcomes : List ItemOutcome
  pub external_reference : Option ExternalReference
  pub reason_code : Option SafeReference
  pub settling_boundary_passed : Bool
  pub target_idempotency_guaranteed : Bool

-- `CommitmentProvider` is the first case and `ProposalBoundCommitmentProvider` the second.
pub data CommitmentProvider : Type 0 where
  plain_provider :
      (create : ℕ → SafeReference → Bytes → Result KeyedCommitment)
      (verify : ℕ → SafeReference → Bytes → KeyedCommitment → Result Bool)
      (destroy_commitment : ℕ → KeyedCommitment → Result (Unit {0}))
      → CommitmentProvider
  proposal_bound_provider :
      (create_for : ℕ → ProposalIdentity → Bytes → Result KeyedCommitment)
      (verify_for : ℕ → ProposalIdentity → Bytes → KeyedCommitment → Result Bool)
      (destroy_commitment_for : ℕ → ProposalIdentity → KeyedCommitment → Result (Unit {0}))
      → CommitmentProvider

-- `ProtectionCodec` is the first case and `ProposalBoundProtectionCodec` the second.
pub data ProtectionCodec : Type 0 where
  plain_codec :
      (protect : ℕ → SafeReference → Bytes → Result ProtectedPayload)
      (unprotect : ℕ → ProtectedPayload → Result Bytes)
      (destroy_payload : ℕ → ProtectedPayload → Result (Unit {0}))
      → ProtectionCodec
  proposal_bound_codec :
      (protect_for : ℕ → ProposalIdentity → Bytes → Result ProtectedPayload)
      (unprotect_for : ℕ → ProposalIdentity → ProtectedPayload → Result Bytes)
      (destroy_payload_for : ℕ → ProposalIdentity → ProtectedPayload → Result (Unit {0}))
      → ProtectionCodec

pub record ActionDefinition : Type 0 where
  pub action_type : ActionType
  pub command_model : String
  pub private_snapshot_model : String
  pub display_preview_model : String
  pub result_model : String
  pub can_prepare : ℕ → ModelInstance → PreparationContext → Result AuthorizationResult
  pub can_decide : ℕ → AuthorityEvidence → DecisionContext → Result AuthorizationResult
  pub can_execute : ℕ → ModelInstance → ExecutionContext → Result AuthorizationResult
  pub can_read : ℕ → SafeReference → ReadContext → Result Bool
  pub prepare : ℕ → ModelInstance → PreparationContext → Result PreparedAction
  pub evaluate : ℕ → AuthorityBinding → List AuthorityEvidence → Result AuthorityEvaluation
  pub resolve : ℕ → ModelInstance → ExecutionContext → Result ResolvedState
  pub execute : ℕ → ModelInstance → ExecutionContext → SafeReference → Result ExecutionResult
  pub verify : ℕ → ExecutionContext → Result VerificationResult
  -- `private_snapshot_model.model_validate_json`
  pub validate_json : Bytes → Result ModelInstance
  pub commitment_provider : CommitmentProvider
  pub protection_codec : ProtectionCodec
  pub authorize_erasure : ℕ → SafeReference → ReadContext → Result Bool
  pub recovery_authorization :
      Option (ℕ → SafeReference → RecoveryContext → Result AuthorizationResult)
  pub proposal_ttl : Duration
  pub executor_identity : GovernedExecutor
  pub target_identity : AuthoritativeTarget
  pub authority_audience : SafeReference
  pub authority_channel_assurance : SafeReference
  pub verification_delay : Duration
  pub max_verification_attempts : ℕ
  pub effect_kind : EffectKind
  pub allow_resend_after_final_absence : Bool
  pub verification_lease_duration : Duration
