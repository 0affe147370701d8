-- ===== src/Proposal.antt =====
-- stores/base.py: the stored proposal, its lifecycle graph and its two erasure transitions.
pub mod Validate
pub mod Advance
pub mod Append
use native.Mathlib.Decide.{ℕ_discrete}
use threvo_actions.Prelude.{
  ℕ, ◌+◌, String-discrete, Bool, true, false, not, ◌&&◌, ◌||◌, Option, none, some, List, [], ◌∷◌,
  Eq, ◌==◌, contains, is_none, is_some,
}
use threvo_actions.Model.{
  SafeReference, Timestamp, ActionType, EffectKind, EffectKind-discrete, LifecycleStatus,
  awaiting_authority, denied, expired, authorized, blocked, stale, superseded, executing,
  failed_known, failed_unknown, verification_pending, verification_unresolved, partially_succeeded,
  verified, LifecycleStatus-discrete, lifecycle_status_eq, RequestingPrincipal, ProposingAgent,
  participants,
}
use threvo_actions.Json.{JsonObject, JsonObject-discrete, empty}
use threvo_actions.Canonical.{
  KeyedCommitment, ProtectedPayload, KeyedCommitment-discrete, ProtectedPayload-discrete,
}
use threvo_actions.Authority.{AuthorityEvidence, AuthorityEvidence-discrete}
use threvo_actions.Receipts.{Receipt, Receipt-discrete}

-- ALLOWED_LIFECYCLE_TRANSITIONS
unfoldable pub allowed_lifecycle_transitions : LifecycleStatus → List LifecycleStatus
allowed_lifecycle_transitions awaiting_authority = authorized ∷ denied ∷ expired ∷ []
allowed_lifecycle_transitions authorized = blocked ∷ expired ∷ executing ∷ stale ∷ []
allowed_lifecycle_transitions executing =
    stale ∷ failed_known ∷ failed_unknown ∷ verification_pending ∷ []
allowed_lifecycle_transitions failed_unknown = verification_pending ∷ []
allowed_lifecycle_transitions verification_pending =
    authorized ∷ executing ∷ failed_known ∷ failed_unknown ∷ partially_succeeded
    ∷ verification_unresolved ∷ verified ∷ []
allowed_lifecycle_transitions stale = superseded ∷ []
allowed_lifecycle_transitions verified = []
allowed_lifecycle_transitions blocked = []
allowed_lifecycle_transitions denied = []
allowed_lifecycle_transitions expired = []
allowed_lifecycle_transitions failed_known = []
allowed_lifecycle_transitions partially_succeeded = []
allowed_lifecycle_transitions superseded = []
allowed_lifecycle_transitions verification_unresolved = verification_pending ∷ []

-- `status in ERASABLE_LIFECYCLE_STATUSES`
unfoldable pub erasable : LifecycleStatus → Bool
erasable status = not (contains (executing ∷ failed_unknown ∷ verification_pending ∷ []) status)

pub data EffectClaimResult : Type 0 where
  acquired owned_by_proposal conflict not_found not_authorized : EffectClaimResult

pub record StoredProposal : Type 0 where
  pub tenant_reference : SafeReference
  pub proposal_reference : SafeReference
  pub action_type : ActionType
  pub semantic_effect_reference : SafeReference
  pub effect_kind : EffectKind
  pub lifecycle_status : LifecycleStatus
  pub revision : ℕ
  pub protected_private_snapshot : Option ProtectedPayload
  pub commitment : Option KeyedCommitment
  pub display_preview : JsonObject
  pub requesting_principal : Option RequestingPrincipal
  pub proposing_agent : Option ProposingAgent
  pub created_at : Timestamp
  pub expires_at : Timestamp
  pub authority_evidence : List AuthorityEvidence
  pub receipts : List Receipt
  pub verification_attempts : ℕ
  pub max_verification_attempts : ℕ
  pub next_verification_at : Option Timestamp
  pub safe_result : Option JsonObject
  pub execution_precondition : Option SafeReference
  pub superseded_by : Option SafeReference
  pub erasure_pending_at : Option Timestamp
  pub erased_at : Option Timestamp

unfoldable pub StoredProposal-discrete : Discrete StoredProposal
StoredProposal-discrete = hlevel (
  participants, EffectKind-discrete, LifecycleStatus-discrete, KeyedCommitment-discrete,
  ProtectedPayload-discrete, JsonObject-discrete, AuthorityEvidence-discrete, Receipt-discrete,
)

instance abbrev pub stored_proposal_eq : Eq StoredProposal
stored_proposal_eq = record { discrete = StoredProposal-discrete }

unfoldable pub proposal_with_erasure_pending : StoredProposal → Timestamp → StoredProposal
proposal_with_erasure_pending p pending_at = record p {
  erasure_pending_at = some pending_at;
  revision = p.revision + 1;
}

unfoldable pub erased_proposal : StoredProposal → Timestamp → StoredProposal
erased_proposal p erased_at = record p {
  protected_private_snapshot = none;
  commitment = none;
  display_preview = empty;
  requesting_principal = none;
  proposing_agent = none;
  authority_evidence = [];
  receipts = [];
  safe_result = none;
  execution_precondition = none;
  next_verification_at = none;
  erasure_pending_at = none;
  erased_at = some erased_at;
  revision = p.revision + 1;
}
