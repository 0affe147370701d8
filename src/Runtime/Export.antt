-- ===== src/Runtime/Export.antt =====
-- The export of a proposal that the runtime settled.
use threvo_actions.Prelude.{
  ℕ, ◌≡◌, refl, ap, ◌∙◌, Bool, true, false, ◌&&◌, [], ◌∷◌, ◌++◌, List, any, if◌then◌else◌, arith,
}
use threvo_actions.Model.{AuthoritativeTarget, SafeReference, Timestamp, LifecycleStatus}
use threvo_actions.Result.{ok}
use threvo_actions.Receipts.{ItemOutcome, Receipt, ReceiptBody}
use threvo_actions.Proposal.{StoredProposal}
use threvo_actions.Registry.{ActionDefinition, VerificationResult, VerificationStatus}
use threvo_actions.Evidence.{
  Exporter, ActionEvidenceBundle, EvidenceValidationReport, inconsistent, is_erased_source,
  build_evidence_bundle,
}
use threvo_actions.Evidence.Validate.{
  shows_known_failure, validate_evidence_bundle, status_is_supported,
}
use threvo_actions.Evidence.Consistency.{ExcludesDigest, live_verdict, is_accountable}
use threvo_actions.Exec.{Environment}
use threvo_actions.Runtime.Settle.{
  verified_record, verification_transition, verification_receipt_status, absence_transition,
  failed_known_with,
}

any_last :
    (test : Receipt → Bool) (rs : List Receipt) (r : Receipt)
    → any test rs ≡ false
    → test r ≡ false
    → any test (rs ++ (r ∷ [])) ≡ false
any_last test [] r none_before fails = rw fails refl
any_last test (x ∷ rs) r none_before fails =
    let here : test x ≡ false = ground arith in
    rw (here, any_last test rs r (ground arith) fails) refl

if_false {ℓ} : {A : Type ℓ} (b : Bool) (x y : A) → b ≡ false → (if b then x else y) ≡ y
if_false true x y h = cc
if_false false x y h = refl

unsupported :
    (rs : List Receipt)
    → any shows_known_failure rs ≡ false
    → status_is_supported LifecycleStatus.failed_known rs ≡ false
unfolding status_is_supported
unsupported rs unshown = unshown

-- A known failure without a receipt that shows one.
unaccountable :
    (q : StoredProposal)
    → q.lifecycle_status ≡ LifecycleStatus.failed_known
    → any shows_known_failure q.receipts ≡ false
    → is_accountable q ≡ false
unfolding is_accountable
unaccountable q failed unshown =
    let h : status_is_supported q.lifecycle_status q.receipts ≡ false =
      ap (λ status. status_is_supported status q.receipts) failed
      ∙ unsupported q.receipts unshown in
    ground (arith, h)

absence_receipt :
    (status : VerificationStatus) (target : AuthoritativeTarget) (items : List ItemOutcome)
    (r : Receipt)
    → status ≡ VerificationStatus.authoritative_final_absence
    → r.body ≡ ReceiptBody.verification (verification_receipt_status status) target items
    → shows_known_failure r ≡ false
unfolding shows_known_failure verification_receipt_status
absence_receipt status target items r absent body = rw (body, absent) refl

-- A final absence that does not allow a resend, because the action forbids it, the settling boundary
-- has not passed or the target does not guarantee idempotency, makes the proposal `failed_known`; if no receipt
-- before showed a known failure, the bundle exported of it is judged inconsistent, whatever else it
-- holds.
pub absence_inconsistent :
    (exporter : Exporter) (env : Environment) (d : ActionDefinition) (p : StoredProposal)
    (v : VerificationResult) (attempts : ℕ) (now at : Timestamp) (r : Receipt)
    (revision : SafeReference) (b : ActionEvidenceBundle)
    → ExcludesDigest exporter
    → v.status ≡ VerificationStatus.authoritative_final_absence
    → (d.allow_resend_after_final_absence
        && (v.settling_boundary_passed && v.target_idempotency_guaranteed))
      ≡ false
    → r.body
      ≡ ReceiptBody.verification
          (verification_receipt_status v.status)
          d.target_identity
          v.item_outcomes
    → is_erased_source p ≡ false
    → any shows_known_failure p.receipts ≡ false
    → build_evidence_bundle exporter
        (verified_record env d p v (verification_transition d p v attempts) now r)
        at
        revision
      ≡ ok b
    → ((verified_record env d p v (verification_transition d p v attempts) now r).lifecycle_status
        ≡ LifecycleStatus.failed_known)
      × ((report : EvidenceValidationReport) × (validate_evidence_bundle exporter b ≡ ok report)
          × (report.status ≡ inconsistent))
unfolding verified_record verification_transition absence_transition failed_known_with
    is_erased_source
absence_inconsistent exporter env d p v attempts now at r revision b excludes absent unsafe body
      live none_before built =
    let q = verified_record env d p v (verification_transition d p v attempts) now r in
    let failed : q.lifecycle_status ≡ LifecycleStatus.failed_known = ground arith in
    let unshown =
      any_last shows_known_failure p.receipts r none_before (absence_receipt _ _ _ r absent body) in
    let (report, verdict, matches, status) =
      live_verdict exporter q at revision b excludes built live in
    (failed, (report, verdict, status ∙ if_false _ _ _ (unaccountable q failed unshown)))
