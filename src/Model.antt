-- ===== src/Model.antt =====
-- models.py: references, action types, participants and the lifecycle vocabulary.
-- Validation of a reference's characters happens in pydantic; here a reference is a text.
use native.Mathlib.Decide.{ℕ_discrete}
use threvo_actions.Prelude.{ℕ, String, Eq, string_eq, String-discrete}

abbrev pub SafeReference : Type 0
SafeReference = String

-- A `datetime`, in microseconds since an epoch, and a `timedelta` that is not negative.
abbrev pub Timestamp : Type 0
Timestamp = ℕ

abbrev pub Duration : Type 0
Duration = ℕ

pub record ActionType : Type 0 where
  pub namespace : String
  pub name : String
  pub version : ℕ

unfoldable pub ActionType-discrete : Discrete ActionType
ActionType-discrete = hlevel (String-discrete, ℕ_discrete)

instance abbrev pub action_type_eq : Eq ActionType
action_type_eq = record { discrete = ActionType-discrete }

pub record ProposalIdentity : Type 0 where
  pub tenant_reference : SafeReference
  pub proposal_reference : SafeReference

unfoldable pub ProposalIdentity-discrete : Discrete ProposalIdentity
ProposalIdentity-discrete = hlevel String-discrete

instance abbrev pub proposal_identity_eq : Eq ProposalIdentity
proposal_identity_eq = record { discrete = ProposalIdentity-discrete }

pub data EffectKind : Type 0 where
  single itemized : EffectKind

unfoldable pub EffectKind-discrete : Discrete EffectKind
EffectKind-discrete = hlevel

instance abbrev pub effect_kind_eq : Eq EffectKind
effect_kind_eq = record { discrete = EffectKind-discrete }

pub data LifecycleStatus : Type 0 where
  awaiting_authority denied expired authorized blocked stale superseded executing failed_known
        failed_unknown verification_pending verification_unresolved partially_succeeded verified :
      LifecycleStatus

unfoldable pub LifecycleStatus-discrete : Discrete LifecycleStatus
LifecycleStatus-discrete = hlevel

instance abbrev pub lifecycle_status_eq : Eq LifecycleStatus
lifecycle_status_eq = record { discrete = LifecycleStatus-discrete }

pub record RequestingPrincipal : Type 0 where
  pub reference : SafeReference

pub record ProposingAgent : Type 0 where
  pub reference : SafeReference

pub record ConfirmingAuthority : Type 0 where
  pub reference : SafeReference

pub record GovernedExecutor : Type 0 where
  pub reference : SafeReference

pub record AuthoritativeTarget : Type 0 where
  pub reference : SafeReference

pub record EvidenceConsumer : Type 0 where
  pub reference : SafeReference

pub record RecoveryOperator : Type 0 where
  pub reference : SafeReference

unfoldable pub RequestingPrincipal-discrete : Discrete RequestingPrincipal
RequestingPrincipal-discrete = hlevel String-discrete

unfoldable pub ProposingAgent-discrete : Discrete ProposingAgent
ProposingAgent-discrete = hlevel String-discrete

unfoldable pub ConfirmingAuthority-discrete : Discrete ConfirmingAuthority
ConfirmingAuthority-discrete = hlevel String-discrete

unfoldable pub GovernedExecutor-discrete : Discrete GovernedExecutor
GovernedExecutor-discrete = hlevel String-discrete

unfoldable pub AuthoritativeTarget-discrete : Discrete AuthoritativeTarget
AuthoritativeTarget-discrete = hlevel String-discrete

unfoldable pub RecoveryOperator-discrete : Discrete RecoveryOperator
RecoveryOperator-discrete = hlevel String-discrete

instance abbrev pub confirming_authority_eq : Eq ConfirmingAuthority
confirming_authority_eq = record { discrete = ConfirmingAuthority-discrete }

pub ruleset participants = (
  String-discrete, ℕ_discrete, ActionType-discrete, RequestingPrincipal-discrete,
  ProposingAgent-discrete, ConfirmingAuthority-discrete, GovernedExecutor-discrete,
  AuthoritativeTarget-discrete, RecoveryOperator-discrete,
)
