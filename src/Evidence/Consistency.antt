-- ===== src/Evidence/Consistency.antt =====
-- The verdict on a bundle that was built from a stored proposal.
use threvo_actions.Prelude.{
  ◌≡◌, refl, ap, ◌∙◌, String, Bool, true, false, not, ◌&&◌, ◌||◌, Option, none, List, [], ◌∷◌, ◌==◌,
  ◌!=◌, any, arith, if◌then◌else◌, string_eq, list_eq, list_discrete, contains, Bool-cases, inl,
  inr, String-discrete, String-discrete_aux,
}
use threvo_actions.Model.{SafeReference, Timestamp, LifecycleStatus}
use threvo_actions.Json.{empty}
use threvo_actions.Result.{ok, ok-bind}
use threvo_actions.Receipts.{Receipt}
use threvo_actions.Proposal.{StoredProposal}
use threvo_actions.Evidence.{
  Exporter, ActionEvidenceBundle, FrozenJsonObject, EvidenceValidationReport,
  EvidenceValidationReason, consistent, inconsistent, insufficient, erased_source, digest_mismatch,
  duplicate_receipt, dangling_receipt_link, receipt_identity_mismatch, receipt_version_mismatch,
  lifecycle_evidence_mismatch, legacy_attribution_missing, authority_history_missing,
  erased_source_evidence, legacy_runtime_attribution, historical_authority_unavailable,
  EvidenceAuthoritySummary, EvidenceOmission-discrete, EvidenceValidationReason-discrete,
  evidence_omission_eq, evidence_validation_reason_eq, evidence_digest, build_evidence_bundle,
  undigested_bundle, from_mapping, freeze_result, freeze_entries, sorted_items, is_erased_source,
  retained_receipts, retained_summaries, summaries_of, schema_versions, all_distinct,
  is_unattributed, lacks_authority, omissions, append_if, is_empty_list, receipt_schema_version,
}
use threvo_actions.Evidence.Validate.{
  receipt_references, has_dangling_link, is_foreign, starts_prepared, status_is_supported,
  inconsistencies, insufficiencies, report, from_keys, validate_evidence_bundle,
  lifecycle_is_supported,
}

-- pydantic's `exclude={"content_digest"}`: the dump does not read the digest.
abbrev pub ExcludesDigest : Exporter → Type 0
ExcludesDigest exporter =
    (b : ActionEvidenceBundle) (x : String)
    → exporter.dump (record b { content_digest = x }) ≡ exporter.dump b

-- What a successful build has made.
record IsBuilt (exporter : Exporter) (p : StoredProposal) (at : Timestamp)
    (revision : SafeReference) (b : ActionEvidenceBundle) : Type 0 where
  preview : FrozenJsonObject
  preview_frozen :
      from_mapping exporter (if is_erased_source p then empty else p.display_preview) ≡ ok preview
  safe_result : Option FrozenJsonObject
  result_frozen :
      freeze_result exporter (if is_erased_source p then none else p.safe_result) ≡ ok safe_result
  digest : String
  digested :
      evidence_digest exporter (undigested_bundle exporter p at revision preview safe_result)
      ≡ ok digest
  bundle : b ≡ record (undigested_bundle exporter p at revision preview safe_result) {
    content_digest = digest;
  }

module _ (exporter : Exporter) (p : StoredProposal) (at : Timestamp) (revision : SafeReference)
    (b : ActionEvidenceBundle) where
  built : build_evidence_bundle exporter p at revision ≡ ok b → IsBuilt exporter p at revision b
  unfolding build_evidence_bundle
  built h =
      let (preview, e, h1) = ok-bind _ _ h in
      let (safe_result, e1, h2) = ok-bind _ _ h1 in
      let (digest, e2, h3) = ok-bind _ _ h2 in
      record {
        preview = preview;
        preview_frozen = e;
        safe_result = safe_result;
        result_frozen = e1;
        digest = digest;
        digested = e2;
        bundle = ground arith;
      }

  matching :
      (digest : String)
      → evidence_digest exporter b ≡ ok digest
      → b.content_digest ≡ digest
      → validate_evidence_bundle exporter b
        ≡ ok (report true (inconsistencies true b) (insufficiencies b))
  unfolding validate_evidence_bundle
  matching digest e same =
      let matches : (digest == b.content_digest) ≡ true = ground (arith, same) in
      rw (e, matches) refl

  redigested :
      ExcludesDigest exporter
      → (u : ActionEvidenceBundle) (x : String)
      → evidence_digest exporter (record u { content_digest = x }) ≡ evidence_digest exporter u
  unfolding evidence_digest
  redigested excludes u x = rw (excludes u x) refl

  -- Its digest matches, so the verdict is that of its contents.
  built-verdict :
      ExcludesDigest exporter
      → IsBuilt exporter p at revision b
      → validate_evidence_bundle exporter b
        ≡ ok (report true (inconsistencies true b) (insufficiencies b))
  built-verdict excludes k =
      matching k.digest
        (ap (evidence_digest exporter) k.bundle ∙ (redigested excludes _ k.digest ∙ k.digested))
        (ap (λ (x : ActionEvidenceBundle). x.content_digest) k.bundle)

no_versions : (◌!=◌ {A = List SafeReference} [] []) ≡ false
unfolding list_discrete
no_versions = refl

-- The contents of a bundle, at the fields that the verdict reads.
erased_report :
    (b : ActionEvidenceBundle)
    → b.erased ≡ true
    → b.receipts ≡ []
    → b.authority_summaries ≡ []
    → b.display_preview ≡ []
    → b.safe_result ≡ none
    → b.embedded_receipt_schema_versions ≡ []
    → b.omitted ≡ omissions true b.lifecycle_status [] []
    → report true (inconsistencies true b) (insufficiencies b)
      ≡ record { status = insufficient; reasons = erased_source ∷ []; digest_matches = true }
unfolding inconsistencies insufficiencies report from_keys omissions append_if
    lifecycle_is_supported schema_versions receipt_references all_distinct lacks_authority
    is_empty_list EvidenceOmission-discrete EvidenceValidationReason-discrete
erased_report b e r a d s v o = rw (e, r, a, d, s, v, o) (rw no_versions refl)

-- An erased source, or one that is being erased, exports none of its content, and its bundle is
-- judged insufficient for that reason alone.
pub erased_verdict :
    (exporter : Exporter) (p : StoredProposal) (at : Timestamp) (revision : SafeReference)
    (b : ActionEvidenceBundle)
    → ExcludesDigest exporter
    → build_evidence_bundle exporter p at revision ≡ ok b
    → is_erased_source p ≡ true
    → (b.display_preview ≡ [])
      × (b.safe_result ≡ none)
      × (b.receipts ≡ [])
      × (b.authority_summaries ≡ [])
      × (validate_evidence_bundle exporter b
          ≡ ok (record {
            status = insufficient;
            reasons = erased_source ∷ [];
            digest_matches = true;
          }))
unfolding undigested_bundle retained_receipts retained_summaries from_mapping sorted_items
    freeze_entries freeze_result schema_versions
erased_verdict exporter p at revision b excludes h erased =
    let k = built exporter p at revision b h in
    let preview : k.preview ≡ [] = ground (arith, k.preview_frozen) in
    let safe_result : k.safe_result ≡ none = ground (arith, k.result_frozen) in
    let receipts : b.receipts ≡ [] = ground (arith, k.bundle) in
    let summaries : b.authority_summaries ≡ [] = ground (arith, k.bundle) in
    let previewed : b.display_preview ≡ [] = ground (arith, k.bundle) in
    let resulted : b.safe_result ≡ none = ground (arith, k.bundle) in
    (
      previewed,
      resulted,
      receipts,
      summaries,
      built-verdict exporter p at revision b excludes k
          ∙ ap ok (
              erased_report b (ground (arith, k.bundle)) receipts summaries previewed resulted
                (ground (arith, k.bundle)) (ground (arith, k.bundle))),
    )

-- The live record accounts for its status: its receipts have distinct references, link only to one
-- another, belong to the proposal, start with its preparation and bear out a final status.
unfoldable pub is_accountable : StoredProposal → Bool
is_accountable p =
    let references = receipt_references p.receipts in
    all_distinct references
    && (not (any (has_dangling_link references) p.receipts)
        && (not (any (is_foreign p.proposal_reference references) p.receipts)
            && (starts_prepared p.receipts && status_is_supported p.lifecycle_status p.receipts)))

-- What the bundle says that it omits, from the two facts that decide it.
omits_legacy :
    (status : LifecycleStatus) (rs : List Receipt) (ss : List EvidenceAuthoritySummary)
    → (contains (omissions false status rs ss) erased_source_evidence ≡ false)
      × (contains (omissions false status rs ss) legacy_runtime_attribution
          ≡ any is_unattributed rs)
      × (contains (omissions false status rs ss) historical_authority_unavailable
          ≡ lacks_authority false status ss)
unfolding omissions append_if EvidenceOmission-discrete
omits_legacy status rs ss = elim (Bool-cases (any is_unattributed rs)) [
  | inl u ↦ rw u (elim (Bool-cases (lacks_authority false status ss)) [
    | inl l ↦ rw l (refl, refl, refl)
    | inr l ↦ rw l (refl, refl, refl)
  ])
  | inr u ↦ rw u (elim (Bool-cases (lacks_authority false status ss)) [
    | inl l ↦ rw l (refl, refl, refl)
    | inr l ↦ rw l (refl, refl, refl)
  ])
]

versions_agree :
    (rs : List Receipt)
    → (schema_versions rs != schema_versions rs
        || any (λ version. version != receipt_schema_version) (schema_versions rs))
      ≡ false
unfolding schema_versions list_discrete String-discrete String-discrete_aux
versions_agree [] = refl
versions_agree (r ∷ rs) = refl

-- The verdict, from the tests that decide it.
live_status :
    (distinct dangling foreign versions supported erased unattributed unauthorized : Bool)
    → versions ≡ false
    → erased ≡ false
    → (report true
        (append_if
          (append_if
            (append_if
              (append_if
                (append_if
                  (append_if [] (not true) digest_mismatch)
                  (not distinct)
                  duplicate_receipt)
                dangling
                dangling_receipt_link)
              foreign
              receipt_identity_mismatch)
            versions
            receipt_version_mismatch)
          (not supported)
          lifecycle_evidence_mismatch)
        (append_if
          (append_if (append_if [] erased erased_source) unattributed legacy_attribution_missing)
          unauthorized
          authority_history_missing)).status
      ≡ (if distinct && (not dangling && (not foreign && supported))
          then (if unattributed || unauthorized then insufficient else consistent)
          else inconsistent)
unfolding report append_if
live_status distinct dangling foreign versions supported erased unattributed unauthorized v e =
    ground arith

or_same : (a b : Bool) → a ≡ b → (a || b) ≡ b
or_same a b h = ground arith

-- The contents of a live bundle, at the fields that the verdict reads.
live_report :
    (b : ActionEvidenceBundle)
    → b.erased ≡ false
    → b.embedded_receipt_schema_versions ≡ schema_versions b.receipts
    → b.omitted ≡ omissions false b.lifecycle_status b.receipts b.authority_summaries
    → (report true (inconsistencies true b) (insufficiencies b)).status ≡ (
        if all_distinct (receipt_references b.receipts)
          && (not (any (has_dangling_link (receipt_references b.receipts)) b.receipts)
              && (not (
                    any
                      (is_foreign b.proposal_reference (receipt_references b.receipts))
                      b.receipts)
                  && (starts_prepared b.receipts
                      && status_is_supported b.lifecycle_status b.receipts)))
        then (if any is_unattributed b.receipts
              || lacks_authority false b.lifecycle_status b.authority_summaries
            then insufficient
            else consistent)
        else inconsistent)
unfolding inconsistencies insufficiencies lifecycle_is_supported
live_report b e v o =
    let (erased, legacy, history) =
      omits_legacy b.lifecycle_status b.receipts b.authority_summaries in
    rw
      (
        e,
        v,
        o,
        erased,
        legacy,
        history,
        or_same _ _ (refl {a = any is_unattributed b.receipts}),
        or_same _ _ (refl {a = lacks_authority false b.lifecycle_status b.authority_summaries}),
      )
      (live_status (all_distinct (receipt_references b.receipts)) _ _ _ _ _ _ _
        (versions_agree b.receipts) refl)

report-digest_matches :
    (d : Bool) (xs ys : List EvidenceValidationReason) → (report d xs ys).digest_matches ≡ d
unfolding report
report-digest_matches d [] [] = refl
report-digest_matches d [] (y ∷ ys) = refl
report-digest_matches d (x ∷ xs) ys = refl

-- A live source: its bundle is judged inconsistent exactly if the record is not accountable, and
-- otherwise insufficient exactly if a receipt names no runtime or authority is due and not recorded.
pub live_verdict :
    (exporter : Exporter) (p : StoredProposal) (at : Timestamp) (revision : SafeReference)
    (b : ActionEvidenceBundle)
    → ExcludesDigest exporter
    → build_evidence_bundle exporter p at revision ≡ ok b
    → is_erased_source p ≡ false
    → (r : EvidenceValidationReport) × (validate_evidence_bundle exporter b ≡ ok r)
      × (r.digest_matches ≡ true)
      × (r.status ≡ (
          if is_accountable p
          then (if any is_unattributed p.receipts
                || lacks_authority false p.lifecycle_status (summaries_of p.authority_evidence)
              then insufficient
              else consistent)
          else inconsistent))
unfolding undigested_bundle retained_receipts retained_summaries is_accountable
live_verdict exporter p at revision b excludes h live =
    let k = built exporter p at revision b h in
    let receipts : b.receipts ≡ p.receipts = ground (arith, k.bundle) in
    let summaries : b.authority_summaries ≡ summaries_of p.authority_evidence =
      ground (arith, k.bundle) in
    let status : b.lifecycle_status ≡ p.lifecycle_status = ground (arith, k.bundle) in
    let proposal : b.proposal_reference ≡ p.proposal_reference = ground (arith, k.bundle) in
    let verdict =
      live_report b (ground (arith, k.bundle)) (ground (arith, k.bundle))
        (ground (arith, k.bundle)) in
    (
      report true (inconsistencies true b) (insufficiencies b),
      built-verdict exporter p at revision b excludes k,
      report-digest_matches true (inconsistencies true b) (insufficiencies b),
      verdict ∙ rw (receipts, summaries, status, proposal) refl,
    )
