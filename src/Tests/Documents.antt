-- ===== src/Tests/Documents.antt =====
-- Canonical documents, commitments and evidence bundles of concrete proposals.
use Prim.Native.String.{count}
use threvo_actions.Prelude.{
  List, ◌≡◌, refl, some, none, true, false, [], ◌∷◌, arith, String-discrete, any, ◌||◌,
  if◌then◌else◌, ◌==◌, String, string_eq, Bool-cases, inl, inr, if◌then◌else◌,
}
use threvo_actions.Model.{LifecycleStatus}
use threvo_actions.Json.{Json, empty, field, object, array, nil, item}
use threvo_actions.Result.{ok}
use threvo_actions.Canonical.{
  Platform, Bytes, commitment_payload_v1, canonicalize_v1, normalize, has_field, append_field,
}
use threvo_actions.Canonical.Framing.{commitment_binds}
use threvo_actions.Canonical.Normal.{normalize_exactly}
use threvo_actions.Canonical.Mapped.{mapped, IsNormal}
use threvo_actions.Attribution.{PackageFile, one_file, no_files, package_tree-injective}
use threvo_actions.Receipts.{Receipt, ReceiptBody, VerificationReceiptStatus}
use threvo_actions.Proposal.{StoredProposal}
use threvo_actions.Registry.{VerificationStatus, VerificationResult}
use threvo_actions.Evidence.{
  Exporter, ActionEvidenceBundle, EvidenceValidationReport, build_evidence_bundle,
  undigested_bundle, insufficient, inconsistent, consistent, erased_source, is_erased_source,
  from_mapping, sorted_items, freeze_result, freeze_entries, freeze_entry, insert_item,
  evidence_digest, summaries_of, is_unattributed, lacks_authority, FrozenJsonObject,
}
use threvo_actions.Evidence.Validate.{validate_evidence_bundle, shows_known_failure}
use threvo_actions.Evidence.Consistency.{
  ExcludesDigest, erased_verdict, live_verdict, is_accountable,
}
use threvo_actions.Runtime.Settle.{
  json_or, verification_receipt_status, verified_record, verification_transition,
}
use threvo_actions.Registry.{ActionDefinition}
use threvo_actions.Runtime.Export.{absence_inconsistent}
use threvo_actions.Tests.{proposal, receipt_of}
use threvo_actions.Tests.Sessions.{environment, host, observation, pending_proposal}

-- A platform on which the bytes of a text tell its length only.
abbrev counting : Platform
counting = record {
  nfc = λ s. s;
  utf8 = λ s. count s ∷ [];
  dumps = λ j. ok "text";
  encode = λ s. ok (1 ∷ 2 ∷ []);
}

abbrev document_payload : Bytes
document_payload = 1 ∷ 2 ∷ []

same_payload :
    commitment_payload_v1 counting "first" document_payload
    ≡ commitment_payload_v1 counting "third" document_payload
unfolding commitment_payload_v1
same_payload = refl

commitment_binds_example :
    (counting.utf8 "first" ≡ counting.utf8 "third") × (document_payload ≡ document_payload)
commitment_binds_example =
    commitment_binds counting "first" "third" document_payload document_payload (omega arith)
      (omega arith) same_payload

abbrev document : Json
document = object (
    field "items" (array (item (Json.integer 5) nil))
      (field "note" (Json.string "decomposed") empty))

-- A platform that takes a word and its composed form for the same.
abbrev composing : Platform
composing = record counting { nfc = λ s. if s == "decomposed" then "composed" else s }

composing_again : (s : String) → composing.nfc (composing.nfc s) ≡ composing.nfc s
unfolding String-discrete
composing_again s = elim (Bool-cases (s == "decomposed")) [
  | inl e ↦ rw e refl
  | inr e ↦ rw (e, e) refl
]

normalize_exactly_example :
    ((x : Json)
      → normalize composing document ≡ ok x
      → (x ≡ mapped composing document)
        × IsNormal composing x
        × (canonicalize_v1 composing x ≡ canonicalize_v1 composing document))
    × (IsNormal composing (mapped composing document)
        → normalize composing document ≡ ok (mapped composing document))
normalize_exactly_example = normalize_exactly composing document composing_again

-- The document is not normal, and it is normalized.
composed_document :
    normalize composing document
    ≡ ok (
        object (
          field "items"
            (array (item (Json.integer 5) nil))
            (field "note" (Json.string "composed") empty)))
unfolding normalize has_field append_field String-discrete
composed_document = refl

abbrev pub exporter : Exporter
exporter = record {
  platform = counting;
  dump = λ b. empty;
  sha256 = λ x. "hash";
  decode = λ x. "text";
}

exporter-ExcludesDigest : ExcludesDigest exporter
exporter-ExcludesDigest b x = refl

abbrev sealed_bundle : StoredProposal → FrozenJsonObject → ActionEvidenceBundle
sealed_bundle p preview = record (undigested_bundle exporter p 20 "r1" preview none) {
  content_digest = "hash";
}

abbrev leaving : StoredProposal
leaving = record (proposal "first") { erasure_pending_at = some 9 }

leaving_built : build_evidence_bundle exporter leaving 20 "r1" ≡ ok (sealed_bundle leaving [])
unfolding build_evidence_bundle from_mapping sorted_items is_erased_source freeze_result
    evidence_digest canonicalize_v1 normalize
leaving_built = refl

leaving_erased : is_erased_source leaving ≡ true
unfolding is_erased_source
leaving_erased = refl

erased_verdict_example :
    ((sealed_bundle leaving []).display_preview ≡ [])
    × ((sealed_bundle leaving []).safe_result ≡ none)
    × ((sealed_bundle leaving []).receipts ≡ [])
    × ((sealed_bundle leaving []).authority_summaries ≡ [])
    × (validate_evidence_bundle exporter (sealed_bundle leaving [])
        ≡ ok
            (record { status = insufficient; reasons = erased_source ∷ []; digest_matches = true }))
erased_verdict_example =
    erased_verdict exporter leaving 20 "r1" (sealed_bundle leaving []) exporter-ExcludesDigest
      leaving_built leaving_erased

-- The preview of a live bundle.
abbrev frozen : FrozenJsonObject
frozen = record { name = "amount"; canonical_value = "text" } ∷ []

abbrev prepared_only : StoredProposal
prepared_only = record (proposal "first") { receipts = receipt_of "first" ∷ [] }

prepared_only_built :
    build_evidence_bundle exporter prepared_only 20 "r1" ≡ ok (sealed_bundle prepared_only frozen)
unfolding build_evidence_bundle from_mapping sorted_items is_erased_source freeze_result
    evidence_digest canonicalize_v1 normalize insert_item freeze_entries freeze_entry
prepared_only_built = refl

prepared_only_live : is_erased_source prepared_only ≡ false
unfolding is_erased_source
prepared_only_live = refl

live_verdict_example :
    (r : EvidenceValidationReport) × (validate_evidence_bundle exporter
        (sealed_bundle prepared_only frozen)
      ≡ ok r)
    × (r.digest_matches ≡ true)
    × (r.status ≡ (
        if is_accountable prepared_only
        then (if any is_unattributed prepared_only.receipts
              || lacks_authority false prepared_only.lifecycle_status
                  (summaries_of prepared_only.authority_evidence)
            then insufficient
            else consistent)
        else inconsistent))
live_verdict_example =
    live_verdict exporter prepared_only 20 "r1" (sealed_bundle prepared_only frozen)
      exporter-ExcludesDigest prepared_only_built prepared_only_live

-- A host that forbids resends, and a final absence that would allow one elsewhere.
abbrev forbidding : ActionDefinition
forbidding = record host { allow_resend_after_final_absence = false }

abbrev absence : VerificationResult
absence = observation VerificationStatus.authoritative_final_absence

abbrev absence_receipt : Receipt
absence_receipt = record (receipt_of "first") {
  body =
      ReceiptBody.verification VerificationReceiptStatus.authoritative_final_absence
        forbidding.target_identity [];
}

abbrev absent : StoredProposal
absent =
    verified_record environment forbidding pending_proposal absence
      (verification_transition forbidding pending_proposal absence 1) 9 absence_receipt

absent_built : build_evidence_bundle exporter absent 20 "r1" ≡ ok (sealed_bundle absent frozen)
unfolding build_evidence_bundle from_mapping sorted_items is_erased_source freeze_result
    evidence_digest canonicalize_v1 normalize verified_record json_or insert_item freeze_entries
    freeze_entry
absent_built = refl

pending_live :
    (is_erased_source pending_proposal ≡ false)
    × (any shows_known_failure pending_proposal.receipts ≡ false)
unfolding is_erased_source
pending_live = (refl, refl)

absent_body :
    absence_receipt.body
    ≡ ReceiptBody.verification
        (verification_receipt_status absence.status)
        forbidding.target_identity
        []
unfolding verification_receipt_status
absent_body = refl

absence_inconsistent_example :
    (absent.lifecycle_status ≡ LifecycleStatus.failed_known)
    × ((report : EvidenceValidationReport) × (validate_evidence_bundle exporter
            (sealed_bundle absent frozen)
          ≡ ok report)
        × (report.status ≡ inconsistent))
absence_inconsistent_example =
    absence_inconsistent exporter environment forbidding pending_proposal absence 1 9 20
      absence_receipt "r1" (sealed_bundle absent frozen) exporter-ExcludesDigest refl refl
      absent_body pending_live.0 pending_live.1 absent_built

abbrev two_files : List PackageFile
two_files =
    record { relative = 97 ∷ []; payload = 1 ∷ 2 ∷ [] }
    ∷ record { relative = 98 ∷ []; payload = [] }
    ∷ []

package_tree-injective_example : two_files ≡ two_files
package_tree-injective_example =
    package_tree-injective two_files two_files
      (one_file (omega arith) (omega arith) (one_file (omega arith) (omega arith) no_files))
      (one_file (omega arith) (omega arith) (one_file (omega arith) (omega arith) no_files)) refl
