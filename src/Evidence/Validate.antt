-- ===== src/Evidence/Validate.antt =====
-- evidence.py: the validation of an evidence bundle.
use threvo_actions.Prelude.{
  Bool, true, false, not, ◌&&◌, ◌||◌, Option, none, some, List, [], ◌∷◌, ◌++◌, ◌==◌, ◌!=◌,
  string_eq, list_eq, option_eq, any, contains, nat_eq, is_none, if◌then◌else◌,
}
use threvo_actions.Model.{SafeReference, LifecycleStatus, lifecycle_status_eq}
use threvo_actions.Result.{Result, ok, ◌>>=◌}
use threvo_actions.Receipts.{
  Receipt, ReceiptBody, ProposalReceiptStatus, ExecutionReceiptStatus, VerificationReceiptStatus,
}
use threvo_actions.Evidence.{
  evidence_omission_eq, ActionEvidenceBundle, EvidenceValidationReason,
  evidence_validation_reason_eq, EvidenceValidationReport, Exporter, receipt_schema_version,
  schema_versions, all_distinct, append_if, is_empty_list, is_unattributed, lacks_authority,
  evidence_digest, erased_source_evidence, legacy_runtime_attribution,
  historical_authority_unavailable, consistent, inconsistent, insufficient, digest_mismatch,
  duplicate_receipt, dangling_receipt_link, receipt_identity_mismatch, receipt_version_mismatch,
  lifecycle_evidence_mismatch, erased_source, legacy_attribution_missing, authority_history_missing,
}

-- What `any(...)` tests of the receipts, and the body of a proposal receipt.
unfoldable pub is_prepared : Receipt → Bool
is_prepared r = elim r.body [
  | ReceiptBody.proposal ProposalReceiptStatus.prepared _ _ ↦ true
  | _ ↦ false
]

unfoldable pub shows_completion : Receipt → Bool
shows_completion r = elim r.body [
  | ReceiptBody.verification VerificationReceiptStatus.verified_completion _ _ ↦ true
  | _ ↦ false
]

unfoldable pub shows_known_failure : Receipt → Bool
shows_known_failure r = elim r.body [
  | ReceiptBody.execution ExecutionReceiptStatus.failed_known _ _ ↦ true
  | ReceiptBody.verification VerificationReceiptStatus.verified_terminal_failure _ _ ↦ true
  | _ ↦ false
]

-- A link to another receipt of the bundle, or none.
unfoldable pub is_dangling : List SafeReference → Receipt → Option SafeReference → Bool
is_dangling references r none = false
is_dangling references r (some link) = not (contains references link) || link == r.receipt_reference

unfoldable pub has_dangling_link : List SafeReference → Receipt → Bool
unfolding is_dangling
has_dangling_link references r =
    is_dangling references r r.corrects_receipt_reference
    || is_dangling references r r.supersedes_receipt_reference

unfoldable pub is_foreign : SafeReference → List SafeReference → Receipt → Bool
is_foreign proposal references r =
    r.correlation_reference != proposal
    || (r.causation_reference != proposal && not (contains references r.causation_reference))

unfoldable pub receipt_references : List Receipt → List SafeReference
receipt_references [] = []
receipt_references (r ∷ rest) = r.receipt_reference ∷ receipt_references rest

-- `_lifecycle_is_supported` of a live bundle whose first receipt is this.
unfoldable pub status_is_supported : LifecycleStatus → List Receipt → Bool
status_is_supported LifecycleStatus.verified receipts = any shows_completion receipts
status_is_supported LifecycleStatus.failed_known receipts = any shows_known_failure receipts
status_is_supported _ receipts = true

unfoldable pub starts_prepared : List Receipt → Bool
starts_prepared [] = false
starts_prepared (r ∷ rest) = is_prepared r

unfoldable pub lifecycle_is_supported : ActionEvidenceBundle → Bool
lifecycle_is_supported b =
    if b.erased
    then is_empty_list b.receipts
      && (is_empty_list b.authority_summaries
          && (is_empty_list b.display_preview && is_none b.safe_result))
    else starts_prepared b.receipts && status_is_supported b.lifecycle_status b.receipts

unfoldable pub insufficiencies : ActionEvidenceBundle → List EvidenceValidationReason
unfolding append_if
insufficiencies b =
    append_if
      (append_if
        (append_if [] (b.erased || contains b.omitted erased_source_evidence) erased_source)
        (contains b.omitted legacy_runtime_attribution || any is_unattributed b.receipts)
        legacy_attribution_missing)
      (contains b.omitted historical_authority_unavailable
        || lacks_authority b.erased b.lifecycle_status b.authority_summaries)
      authority_history_missing

unfoldable pub inconsistencies : Bool → ActionEvidenceBundle → List EvidenceValidationReason
unfolding append_if
inconsistencies digest_matches b =
    let references = receipt_references b.receipts in
    append_if
      (append_if
        (append_if
          (append_if
            (append_if (append_if [] (not digest_matches) digest_mismatch)
              (not (all_distinct references)) duplicate_receipt)
            (any (has_dangling_link references) b.receipts) dangling_receipt_link)
          (any (is_foreign b.proposal_reference references) b.receipts) receipt_identity_mismatch)
        (schema_versions b.receipts != b.embedded_receipt_schema_versions
          || any (λ version. version != receipt_schema_version) (schema_versions b.receipts))
        receipt_version_mismatch)
      (not (lifecycle_is_supported b)) lifecycle_evidence_mismatch

-- `tuple(dict.fromkeys(reasons))`: each once, in the order of the first.
unfoldable pub from_keys :
    List EvidenceValidationReason → List EvidenceValidationReason → List EvidenceValidationReason
from_keys done [] = done
from_keys done (r ∷ rest) = from_keys (if contains done r then done else done ++ (r ∷ [])) rest

unfoldable pub report :
    Bool → List EvidenceValidationReason → List EvidenceValidationReason → EvidenceValidationReport
unfolding from_keys
report digest_matches [] [] = record {
  status = consistent;
  reasons = [];
  digest_matches = digest_matches;
}
report digest_matches [] (r ∷ rest) = record {
  status = insufficient;
  reasons = from_keys [] (r ∷ rest);
  digest_matches = digest_matches;
}
report digest_matches (r ∷ rest) insufficiencies = record {
  status = inconsistent;
  reasons = from_keys [] (r ∷ rest);
  digest_matches = digest_matches;
}

unfoldable pub validate_evidence_bundle :
    Exporter → ActionEvidenceBundle → Result EvidenceValidationReport
validate_evidence_bundle exporter b = do
  digest ← evidence_digest exporter b
  let matches = digest == b.content_digest
  ok (report matches (inconsistencies matches b) (insufficiencies b))
