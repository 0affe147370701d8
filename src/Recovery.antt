-- ===== src/Recovery.antt =====
-- recovery.py: the advisory condition of a proposal and the step that is recommended for it.
use threvo_actions.Prelude.{
  ℕ, List, ◌≡◌, ◌⊎◌, Bool, true, false, Option, none, some, if◌then◌else◌, leb, ltb, arith,
}
use threvo_actions.Model.{Timestamp, SafeReference, LifecycleStatus, lifecycle_status_eq}
use threvo_actions.Receipts.{VerificationReceiptStatus}
use threvo_actions.Lifecycle.{classify_lifecycle}

pub data ActionRecoveryCondition : Type 0 where
  waiting_for_authority ready_for_execution effect_owned_elsewhere active_execution_lease
        waiting_for_provider observation_unavailable outcome_unproven operator_attention resolved
        replacement_required refused expiry_due erased :
      ActionRecoveryCondition

pub data ActionRecoveryOperation : Type 0 where
  await_authority expire execute wait reconcile inspect_owner operator_review view_recorded_outcome
        prepare_replacement no_action :
      ActionRecoveryOperation

pub record ActionRecoveryStep : Type 0 where
  pub operation : ActionRecoveryOperation
  pub not_before : Option Timestamp
  pub reason_code : Option SafeReference

-- `next_verification_at is not None and next_verification_at > observed_at`
unfoldable pub is_later : Option Timestamp → Timestamp → Bool
is_later none observed_at = false
is_later (some at) observed_at = ltb observed_at at

unfoldable pub pending_condition : Option VerificationReceiptStatus → ActionRecoveryCondition
pending_condition (some VerificationReceiptStatus.target_unavailable) = observation_unavailable
pending_condition (some VerificationReceiptStatus.provisional_absence) = waiting_for_provider
pending_condition _ = outcome_unproven

unfoldable pub recovery_condition :
    LifecycleStatus
    → Timestamp
    → Timestamp
    → Option Timestamp
    → Option VerificationReceiptStatus
    → ActionRecoveryCondition
recovery_condition status observed_at expires_at next last = elim status [
  | LifecycleStatus.awaiting_authority ↦
      if leb expires_at observed_at then expiry_due else waiting_for_authority
  | LifecycleStatus.authorized ↦
      if leb expires_at observed_at then expiry_due else ready_for_execution
  | LifecycleStatus.executing ↦
      if is_later next observed_at then active_execution_lease else outcome_unproven
  | LifecycleStatus.failed_unknown ↦ outcome_unproven
  | LifecycleStatus.verification_pending ↦
      if is_later next observed_at then waiting_for_provider else pending_condition last
  | LifecycleStatus.verification_unresolved ↦ operator_attention
  | LifecycleStatus.partially_succeeded ↦ operator_attention
  | LifecycleStatus.verified ↦ resolved
  | LifecycleStatus.failed_known ↦ resolved
  | LifecycleStatus.stale ↦ replacement_required
  | LifecycleStatus.superseded ↦ replacement_required
  | _ ↦ refused
]

unfoldable pub recommended : ActionRecoveryCondition → ActionRecoveryOperation
recommended waiting_for_authority = await_authority
recommended ready_for_execution = execute
recommended effect_owned_elsewhere = inspect_owner
recommended active_execution_lease = wait
recommended waiting_for_provider = wait
recommended observation_unavailable = reconcile
recommended outcome_unproven = reconcile
recommended operator_attention = operator_review
recommended resolved = view_recorded_outcome
recommended replacement_required = prepare_replacement
recommended refused = no_action
recommended expiry_due = expire
recommended erased = no_action

unfoldable pub waits : ActionRecoveryCondition → Bool
waits active_execution_lease = true
waits waiting_for_provider = true
waits _ = false

-- The one element of the tuple that `recovery_steps` returns.
unfoldable pub recovery_step :
    ActionRecoveryCondition → Option Timestamp → Option SafeReference → ActionRecoveryStep
recovery_step condition next reason_code = record {
  operation = recommended condition;
  not_before = if waits condition then next else none;
  reason_code = reason_code;
}

-- The step recommended in the condition that is derived from a record.
abbrev pub advice :
    LifecycleStatus
    → Timestamp
    → Timestamp
    → Option Timestamp
    → Option VerificationReceiptStatus
    → Option SafeReference
    → ActionRecoveryStep
advice status observed_at expires_at next last =
    recovery_step (recovery_condition status observed_at expires_at next last) next

-- Reconciliation is recommended only where the lifecycle makes it available, and not before the time
-- of the next check, unless the execution failed with an unknown result.
pub reconcile_advised :
    (status : LifecycleStatus) (observed_at expires_at : Timestamp) (next : Option Timestamp)
    (last : Option VerificationReceiptStatus) (reason : Option SafeReference)
    → (advice status observed_at expires_at next last reason).operation ≡ reconcile
    → ((classify_lifecycle status).reconciliation_available ≡ true)
      × ((status ≡ LifecycleStatus.failed_unknown) ⊎ (is_later next observed_at ≡ false))
unfolding recovery_condition recovery_step recommended pending_condition classify_lifecycle
reconcile_advised status observed_at expires_at next last reason h = (ground arith, ground arith)

pub data ActionEffectOwnership : Type 0 where
  unclaimed owned_by_this_proposal owned_elsewhere observation_uncertain : ActionEffectOwnership

pub record ActionRecoveryOwnerView : Type 0 where
  pub proposal_reference : SafeReference
  pub revision : ℕ
  pub lifecycle_status : LifecycleStatus
  pub condition : ActionRecoveryCondition
  pub next_check_at : Option Timestamp

-- The field `schema_version` has one value, and `recommended_steps` one element.
pub record ActionRecoveryView : Type 0 where
  pub proposal_reference : SafeReference
  pub lifecycle_status : LifecycleStatus
  pub revision : ℕ
  pub erased : Bool
  pub observed_at : Timestamp
  pub expires_at : Option Timestamp
  pub next_verification_at : Option Timestamp
  pub verification_attempts : Option ℕ
  pub max_verification_attempts : Option ℕ
  pub last_verification_status : Option VerificationReceiptStatus
  pub reason_code : Option SafeReference
  pub condition : ActionRecoveryCondition
  pub effect_ownership : ActionEffectOwnership
  pub owner : Option ActionRecoveryOwnerView
  pub recommended_steps : List ActionRecoveryStep
