-- ===== src/Tests.antt =====
-- Concrete proposals, evidence, hosts and environments, and what the code does with them.
pub mod Effects
pub mod Records
pub mod Sessions
pub mod Documents
pub mod Workers
pub mod Settlements
pub mod Registrations
pub mod Failures
use threvo_actions.Prelude.{ℕ, String, Bool, true, false, Option, none, some, List, [], ◌∷◌}
use threvo_actions.Model.{
  ActionType, EffectKind, LifecycleStatus, SafeReference, ConfirmingAuthority,
}
use threvo_actions.Json.{JsonObject, Json, empty, field}
use threvo_actions.Canonical.{KeyedCommitment, ProtectedPayload}
use threvo_actions.Authority.{AuthorityBinding, AuthorityEvidence, approve}
use threvo_actions.Receipts.{Receipt, ReceiptBody, ProposalReceiptStatus}
use threvo_actions.Proposal.{StoredProposal}
use threvo_actions.Store.{ProposalKey, StoreCall, creates, compares, admits}

abbrev pub refund : ActionType
refund = record { namespace = "payments"; name = "refund"; version = 1 }

abbrev pub sealed : KeyedCommitment
sealed = record {
  algorithm = "hmac-sha256";
  key_handle = "k";
  key_version = "1";
  digest = "digest";
}

abbrev pub ciphertext : ProtectedPayload
ciphertext = record { codec = "local"; key_handle = "k"; key_version = "1"; ciphertext = "x" }

abbrev pub alice : ConfirmingAuthority
alice = record { reference = "alice" }

abbrev pub bob : ConfirmingAuthority
bob = record { reference = "bob" }

abbrev pub approval_by : ConfirmingAuthority → AuthorityEvidence
approval_by authority = record {
  tenant_reference = "tenant";
  action_type = refund;
  proposal_instance_reference = "first";
  semantic_effect_reference = "order-1";
  authority = authority;
  audience = "payments" ∷ [];
  decision = approve;
  proposal_commitment = "digest";
  channel_assurance = "mfa";
  issued_at = 0;
  expires_at = 900;
  external_attestation = none;
}

abbrev pub binding : AuthorityBinding
binding = record {
  tenant_reference = "tenant";
  action_type = refund;
  proposal_instance_reference = "first";
  semantic_effect_reference = "order-1";
  proposal_commitment = "digest";
  required_audience = "payments";
  required_channel_assurance = "mfa";
}

abbrev pub receipt_of : SafeReference → Receipt
receipt_of proposal = record {
  receipt_reference = "receipt";
  correlation_reference = proposal;
  causation_reference = proposal;
  observed_at = 1;
  runtime_revision = none;
  external_reference = none;
  corrects_receipt_reference = none;
  supersedes_receipt_reference = none;
  reason_code = none;
  body = ReceiptBody.proposal ProposalReceiptStatus.prepared (record { reference = "carol" }) none;
}

-- A new proposal of the one effect, under this reference.
abbrev pub proposal : SafeReference → StoredProposal
proposal reference = record {
  tenant_reference = "tenant";
  proposal_reference = reference;
  action_type = refund;
  semantic_effect_reference = "order-1";
  effect_kind = EffectKind.single;
  lifecycle_status = LifecycleStatus.awaiting_authority;
  revision = 0;
  protected_private_snapshot = some ciphertext;
  commitment = some sealed;
  display_preview = field "amount" (Json.integer 5) empty;
  requesting_principal = some (record { reference = "carol" });
  proposing_agent = none;
  created_at = 1;
  expires_at = 1000;
  authority_evidence = [];
  receipts = [];
  verification_attempts = 0;
  max_verification_attempts = 3;
  next_verification_at = none;
  safe_result = none;
  execution_precondition = none;
  superseded_by = none;
  erasure_pending_at = none;
  erased_at = none;
}

abbrev pub key : SafeReference → ProposalKey
key reference = record { tenant = "tenant"; proposal = reference }

abbrev pub authorized_proposal : SafeReference → StoredProposal
authorized_proposal reference = record (proposal reference) {
  lifecycle_status = LifecycleStatus.authorized;
  revision = 1;
}

abbrev pub executing_proposal : SafeReference → StoredProposal
executing_proposal reference = record (proposal reference) {
  lifecycle_status = LifecycleStatus.executing;
  execution_precondition = some "etag";
  revision = 2;
}

-- The calls that authorize a new proposal.
abbrev pub authorizes : SafeReference → List StoreCall → List StoreCall
authorizes reference calls =
    creates (proposal reference)
    ∷ compares (key reference) 0 (LifecycleStatus.awaiting_authority ∷ [])
        (authorized_proposal reference)
    ∷ calls

-- Two proposals of one effect are authorized; the first is admitted, and the second asks too.
abbrev pub contest : List StoreCall
contest = authorizes "first" (
    authorizes "second" (
      admits (key "first") 1 5 (executing_proposal "first")
      ∷ admits (key "second") 1 6 (executing_proposal "second")
      ∷ []))
