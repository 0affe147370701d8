-- ===== src/Evidence.antt =====
-- evidence.py: the export of a stored proposal as an evidence bundle, and its validation.
-- `model_dump` is pydantic's and SHA-256 is `hashlib`'s: they are the record `Exporter`.
pub mod Validate
pub mod Consistency
use Prim.Native.Nat.{Ordering}
use Prim.Native.String.{compare, count}
use threvo_actions.Prelude.{
  ℕ, String, Bool, true, false, not, ◌&&◌, ◌||◌, Option, none, some, List, [], ◌∷◌, ◌++◌, ◌==◌,
  ◌!=◌, Eq, string_eq, list_eq, option_eq, any, contains, leb, map, length, nat_eq, is_none,
  is_some, if◌then◌else◌,
}
use threvo_actions.Model.{
  SafeReference, Timestamp, ActionType, EffectKind, LifecycleStatus, lifecycle_status_eq,
}
use threvo_actions.Json.{Json, JsonObject, empty, field}
use threvo_actions.Result.{Result, ok, err, value_error, ◌>>=◌, require, ◌>>◌}
use threvo_actions.Canonical.{Platform, Bytes, canonicalize_v1}
use threvo_actions.Authority.{AuthorityDecision, AuthorityEvidence, ExternalAuthorityAttestation}
use threvo_actions.Receipts.{
  Receipt, ReceiptBody, ProposalReceiptStatus, ExecutionReceiptStatus, VerificationReceiptStatus,
}
use threvo_actions.Proposal.{StoredProposal}

-- `_FrozenJsonEntry` and `FrozenJsonObject`.
pub record FrozenJsonEntry : Type 0 where
  pub name : String
  pub canonical_value : String

abbrev pub FrozenJsonObject : Type 0
FrozenJsonObject = List FrozenJsonEntry

pub data EvidenceOmission : Type 0 where
  private_snapshot protected_payload commitment_and_custody replayable_authority_evidence
        erased_source_evidence legacy_runtime_attribution historical_authority_unavailable :
      EvidenceOmission

unfoldable pub EvidenceOmission-discrete : Discrete EvidenceOmission
EvidenceOmission-discrete = hlevel

instance abbrev pub evidence_omission_eq : Eq EvidenceOmission
evidence_omission_eq = record { discrete = EvidenceOmission-discrete }

pub record EvidenceAuthoritySummary : Type 0 where
  pub authority_reference : SafeReference
  pub decision : AuthorityDecision
  pub audience : List SafeReference
  pub channel_assurance : SafeReference
  pub issued_at : Timestamp
  pub expires_at : Timestamp
  pub external_attestation : Option ExternalAuthorityAttestation

-- The fields `schema_version` and `authenticity` have one value each.
pub record ActionEvidenceBundle : Type 0 where
  pub exported_at : Timestamp
  pub exporter_runtime_revision : SafeReference
  pub proposal_reference : SafeReference
  pub action_type : ActionType
  pub semantic_effect_reference : SafeReference
  pub effect_kind : EffectKind
  pub source_revision : ℕ
  pub lifecycle_status : LifecycleStatus
  pub created_at : Timestamp
  pub expires_at : Timestamp
  pub erased : Bool
  pub display_preview : FrozenJsonObject
  pub safe_result : Option FrozenJsonObject
  pub authority_summaries : List EvidenceAuthoritySummary
  pub receipts : List Receipt
  pub embedded_receipt_schema_versions : List SafeReference
  pub omitted : List EvidenceOmission
  pub content_digest : String

pub data EvidenceValidationStatus : Type 0 where
  consistent inconsistent insufficient : EvidenceValidationStatus

pub data EvidenceValidationReason : Type 0 where
  digest_mismatch duplicate_receipt dangling_receipt_link receipt_identity_mismatch
        receipt_version_mismatch lifecycle_evidence_mismatch erased_source
        legacy_attribution_missing authority_history_missing :
      EvidenceValidationReason

unfoldable pub EvidenceValidationReason-discrete : Discrete EvidenceValidationReason
EvidenceValidationReason-discrete = hlevel

instance abbrev pub evidence_validation_reason_eq : Eq EvidenceValidationReason
evidence_validation_reason_eq = record { discrete = EvidenceValidationReason-discrete }

-- `authenticity_established` is always false.
pub record EvidenceValidationReport : Type 0 where
  pub status : EvidenceValidationStatus
  pub reasons : List EvidenceValidationReason
  pub digest_matches : Bool

-- What the export takes from libraries.
pub record Exporter : Type 0 where
  pub platform : Platform
  -- `bundle.model_dump(mode="json", exclude={"content_digest"})`
  pub dump : ActionEvidenceBundle → JsonObject
  -- `hashlib.sha256(payload).hexdigest()`
  pub sha256 : Bytes → String
  -- `payload.decode()`
  pub decode : Bytes → String

-- `sorted(d.items())`: the names of a dictionary are distinct, so they decide.
unfoldable pub insert_item : String → Json → JsonObject → JsonObject
insert_item name value empty = field name value empty
insert_item name value (field n v rest) = elim (compare name n) [
  | Ordering.gt ↦ field n v (insert_item name value rest)
  | _ ↦ field name value (field n v rest)
]

unfoldable pub sorted_items : JsonObject → JsonObject
unfolding insert_item
sorted_items empty = empty
sorted_items (field name value rest) = insert_item name value (sorted_items rest)

-- Each receipt's `schema_version` is this literal.
abbrev pub receipt_schema_version : SafeReference
receipt_schema_version = "internal/v0"

-- `tuple(sorted({receipt.schema_version for receipt in receipts}))`
unfoldable pub schema_versions : List Receipt → List SafeReference
schema_versions [] = []
schema_versions (r ∷ rest) = receipt_schema_version ∷ []

-- `len(set(references)) != len(references)`, the second as a test of its own.
unfoldable pub all_distinct : List SafeReference → Bool
all_distinct [] = true
all_distinct (r ∷ rest) = not (contains rest r) && all_distinct rest

unfoldable pub summary_of : AuthorityEvidence → EvidenceAuthoritySummary
summary_of e = record {
  authority_reference = e.authority.reference;
  decision = e.decision;
  audience = e.audience;
  channel_assurance = e.channel_assurance;
  issued_at = e.issued_at;
  expires_at = e.expires_at;
  external_attestation = e.external_attestation;
}

unfoldable pub summaries_of : List AuthorityEvidence → List EvidenceAuthoritySummary
summaries_of [] = []
summaries_of (e ∷ rest) = summary_of e ∷ summaries_of rest

-- `if b: found.append(x)`
unfoldable pub append_if {ℓ} : {A : Type ℓ} → List A → Bool → A → List A
append_if found b x = found ++ (if b then x ∷ [] else [])

unfoldable pub is_erased_source : StoredProposal → Bool
is_erased_source p = is_some p.erasure_pending_at || is_some p.erased_at

unfoldable pub is_empty_list {ℓ} : {A : Type ℓ} → List A → Bool
is_empty_list [] = true
is_empty_list (x ∷ xs) = false

unfoldable pub is_unattributed : Receipt → Bool
is_unattributed r = is_none r.runtime_revision

-- Authority is due, and none is recorded.
unfoldable pub lacks_authority : Bool → LifecycleStatus → List EvidenceAuthoritySummary → Bool
lacks_authority erased status summaries =
    not erased && (status != LifecycleStatus.awaiting_authority && is_empty_list summaries)

unfoldable pub omissions :
    Bool → LifecycleStatus → List Receipt → List EvidenceAuthoritySummary → List EvidenceOmission
unfolding append_if
omissions erased status receipts summaries =
    let base =
      private_snapshot ∷ protected_payload ∷ commitment_and_custody ∷ replayable_authority_evidence
      ∷ [] in
    append_if
      (append_if (append_if base erased erased_source_evidence) (any is_unattributed receipts)
        legacy_runtime_attribution)
      (lacks_authority erased status summaries) historical_authority_unavailable

unfoldable pub retained_receipts : StoredProposal → List Receipt
retained_receipts p = if is_erased_source p then [] else p.receipts

unfoldable pub retained_summaries : StoredProposal → List EvidenceAuthoritySummary
retained_summaries p = if is_erased_source p then [] else summaries_of p.authority_evidence

module _ (exporter : Exporter) where
  -- One entry, with pydantic's limits on its two lengths.
  unfoldable pub freeze_entry : String → Json → Result FrozenJsonEntry
  freeze_entry name value = do
    canonical ← canonicalize_v1 exporter.platform value
    require (leb (count name) 255) value_error
    require (leb (count (exporter.decode canonical)) 1_048_576) value_error
    ok (record { name = name; canonical_value = exporter.decode canonical })

  unfoldable pub freeze_entries : JsonObject → Result FrozenJsonObject
  unfolding freeze_entry
  freeze_entries empty = ok []
  freeze_entries (field name value rest) = do
    entry ← freeze_entry name value
    entries ← freeze_entries rest
    ok (entry ∷ entries)

  -- `FrozenJsonObject.from_mapping`
  unfoldable pub from_mapping : JsonObject → Result FrozenJsonObject
  unfolding freeze_entries
  from_mapping fields = freeze_entries (sorted_items fields)

  unfoldable pub freeze_result : Option JsonObject → Result (Option FrozenJsonObject)
  unfolding from_mapping
  freeze_result none = ok none
  freeze_result (some fields) = do frozen ← from_mapping fields; ok (some frozen)

  unfoldable pub evidence_digest : ActionEvidenceBundle → Result String
  evidence_digest bundle = do
    payload ← canonicalize_v1 exporter.platform (Json.object (exporter.dump bundle))
    ok (exporter.sha256 payload)

  -- The bundle of a stored revision, before it has its digest.
  unfoldable pub undigested_bundle :
      StoredProposal
      → Timestamp
      → SafeReference
      → FrozenJsonObject
      → Option FrozenJsonObject
      → ActionEvidenceBundle
  undigested_bundle p exported_at revision preview safe_result = record {
    exported_at = exported_at;
    exporter_runtime_revision = revision;
    proposal_reference = p.proposal_reference;
    action_type = p.action_type;
    semantic_effect_reference = p.semantic_effect_reference;
    effect_kind = p.effect_kind;
    source_revision = p.revision;
    lifecycle_status = p.lifecycle_status;
    created_at = p.created_at;
    expires_at = p.expires_at;
    erased = is_erased_source p;
    display_preview = preview;
    safe_result = safe_result;
    authority_summaries = retained_summaries p;
    receipts = retained_receipts p;
    embedded_receipt_schema_versions = schema_versions (retained_receipts p);
    omitted =
        omissions (is_erased_source p) p.lifecycle_status (retained_receipts p)
          (retained_summaries p);
    content_digest = "0000000000000000000000000000000000000000000000000000000000000000";
  }

  unfoldable pub build_evidence_bundle :
      StoredProposal → Timestamp → SafeReference → Result ActionEvidenceBundle
  build_evidence_bundle p exported_at revision = do
    preview ← from_mapping (if is_erased_source p then empty else p.display_preview)
    safe_result ← freeze_result (if is_erased_source p then none else p.safe_result)
    let bundle = undigested_bundle p exported_at revision preview safe_result
    digest ← evidence_digest bundle
    ok (record bundle { content_digest = digest })
