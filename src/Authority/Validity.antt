-- ===== src/Authority/Validity.antt =====
-- What the validation of authority evidence accepts, and what its answers mean.
use threvo_actions.Prelude.{◌≡◌, ◌≤◌, ◌<◌, true, false, some, arith}
use threvo_actions.Model.{Timestamp}
use threvo_actions.Authority.{
  AuthorityEvidence, AuthorityBinding, expired, binding_mismatch, not_yet_valid,
  expiry_follows_issue_time, authority_evidence_matches_binding, validate_authority_evidence,
}

-- Evidence is valid exactly when it matches the binding at a time from its issue on and before its
-- expiry.
pub valid_exactly :
    (e : AuthorityEvidence) (b : AuthorityBinding) (now : Timestamp)
    → ((validate_authority_evidence e b now).valid ≡ true
        → (authority_evidence_matches_binding e b ≡ true)
          × (e.issued_at ≤ now)
          × (now < e.expires_at))
      × (authority_evidence_matches_binding e b ≡ true
          → e.issued_at ≤ now
          → now < e.expires_at
          → (validate_authority_evidence e b now).valid ≡ true)
unfolding validate_authority_evidence
valid_exactly e b now =
    (λ h. (ground arith, ground arith, ground arith), λ matches issued live. ground arith)

-- For evidence that is issued before it expires, the failure that is answered tells which condition
-- is not met: the binding exactly if it does not match; if it does, not yet valid exactly before
-- the issue, and expired exactly from the expiry on.
pub failure_exactly :
    (e : AuthorityEvidence) (b : AuthorityBinding) (now : Timestamp)
    → expiry_follows_issue_time e ≡ true
    → let failure = (validate_authority_evidence e b now).failure in
      ((failure ≡ some binding_mismatch → authority_evidence_matches_binding e b ≡ false)
        × (authority_evidence_matches_binding e b ≡ false → failure ≡ some binding_mismatch))
      × ((failure ≡ some not_yet_valid
            → (authority_evidence_matches_binding e b ≡ true) × (now < e.issued_at))
          × (authority_evidence_matches_binding e b ≡ true
              → now < e.issued_at
              → failure ≡ some not_yet_valid))
      × ((failure ≡ some expired
            → (authority_evidence_matches_binding e b ≡ true) × (e.expires_at ≤ now))
          × (authority_evidence_matches_binding e b ≡ true
              → e.expires_at ≤ now
              → failure ≡ some expired))
unfolding validate_authority_evidence expiry_follows_issue_time
failure_exactly e b now ordered = (
  ((λ h. ground arith), (λ mismatch. ground arith)),
  ((λ h. (ground arith, ground arith)), (λ matches early. ground arith)),
  ((λ h. (ground arith, ground arith)), (λ matches late. ground arith)),
)
