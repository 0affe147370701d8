-- ===== src/Receipts.antt =====
-- receipts.py: the typed receipts of a proposal's history and the runtime's events.
use threvo_actions.Prelude.{Option, List, Eq, String-discrete}
use threvo_actions.Model.{
  SafeReference, Timestamp, ActionType, LifecycleStatus, RequestingPrincipal, ProposingAgent,
  ConfirmingAuthority, GovernedExecutor, AuthoritativeTarget, RecoveryOperator, participants,
}

pub data ProposalReceiptStatus : Type 0 where
  prepared failed missing : ProposalReceiptStatus

pub data AuthorityReceiptStatus : Type 0 where
  recorded rejected failed missing : AuthorityReceiptStatus

pub data ExecutionReceiptStatus : Type 0 where
  started accepted partially_succeeded stale_no_effect failed_known failed_unknown missing :
      ExecutionReceiptStatus

pub data VerificationReceiptStatus : Type 0 where
  verified_completion verified_terminal_failure provisional_absence authoritative_final_absence
        target_unavailable verification_unresolved missing :
      VerificationReceiptStatus

pub data RecoveryReceiptStatus : Type 0 where
  verification_resumed : RecoveryReceiptStatus

pub record ExternalReference : Type 0 where
  pub system : SafeReference
  pub reference : SafeReference

pub data ItemOutcomeStatus : Type 0 where
  succeeded failed_known failed_unknown : ItemOutcomeStatus

pub record ItemOutcome : Type 0 where
  pub item_reference : SafeReference
  pub status : ItemOutcomeStatus
  pub reason_code : Option SafeReference

-- What `_ReceiptBase` and each subclass add: the literal `receipt_type` is the constructor.
pub data ReceiptBody : Type 0 where
  proposal : ProposalReceiptStatus → RequestingPrincipal → Option ProposingAgent → ReceiptBody
  authority : AuthorityReceiptStatus → ConfirmingAuthority → ReceiptBody
  execution : ExecutionReceiptStatus → GovernedExecutor → List ItemOutcome → ReceiptBody
  verification : VerificationReceiptStatus → AuthoritativeTarget → List ItemOutcome → ReceiptBody
  recovery : RecoveryReceiptStatus → RecoveryOperator → ReceiptBody

pub record Receipt : Type 0 where
  pub receipt_reference : SafeReference
  pub correlation_reference : SafeReference
  pub causation_reference : SafeReference
  pub observed_at : Timestamp
  pub runtime_revision : Option SafeReference
  pub external_reference : Option ExternalReference
  pub corrects_receipt_reference : Option SafeReference
  pub supersedes_receipt_reference : Option SafeReference
  pub reason_code : Option SafeReference
  pub body : ReceiptBody

unfoldable pub ExternalReference-discrete : Discrete ExternalReference
ExternalReference-discrete = hlevel String-discrete

unfoldable pub ItemOutcome-discrete : Discrete ItemOutcome
ItemOutcome-discrete = hlevel String-discrete

unfoldable pub ReceiptBody-discrete : Discrete ReceiptBody
ReceiptBody-discrete = hlevel (participants, ItemOutcome-discrete)

unfoldable pub Receipt-discrete : Discrete Receipt
Receipt-discrete = hlevel (participants, ExternalReference-discrete, ReceiptBody-discrete)

instance abbrev pub receipt_eq : Eq Receipt
receipt_eq = record { discrete = Receipt-discrete }

unfoldable pub VerificationReceiptStatus-discrete : Discrete VerificationReceiptStatus
VerificationReceiptStatus-discrete = hlevel

instance abbrev pub verification_receipt_status_eq : Eq VerificationReceiptStatus
verification_receipt_status_eq = record { discrete = VerificationReceiptStatus-discrete }

pub data RuntimeEventType : Type 0 where
  proposal_prepared authority_recorded lifecycle_changed verification_observed verification_resumed
        proposal_erased :
      RuntimeEventType

pub record RuntimeEvent : Type 0 where
  pub event_type : RuntimeEventType
  pub tenant_reference : SafeReference
  pub proposal_reference : SafeReference
  pub action_type : ActionType
  pub lifecycle_status : LifecycleStatus
  pub correlation_reference : SafeReference
  pub observed_at : Timestamp
  pub reason_code : Option SafeReference
