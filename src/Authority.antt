-- ===== src/Authority.antt =====
-- authority.py: bound authority evidence and its validation against a proposal's binding.
pub mod Validity
use threvo_actions.Prelude.{
  String, Bool, true, false, ◌&&◌, Option, none, some, List, Eq, ◌==◌, string_eq, contains, leb,
  ltb, if◌then◌else◌, String-discrete,
}
use threvo_actions.Model.{
  SafeReference, Timestamp, ActionType, action_type_eq, ConfirmingAuthority, participants,
}

-- `DENY` is an alias of `REJECT`: both have the value "reject".
pub data AuthorityDecision : Type 0 where
  approve reject : AuthorityDecision

unfoldable pub AuthorityDecision-discrete : Discrete AuthorityDecision
AuthorityDecision-discrete = hlevel

instance abbrev pub authority_decision_eq : Eq AuthorityDecision
authority_decision_eq = record { discrete = AuthorityDecision-discrete }

pub record AuthorityBinding : Type 0 where
  pub tenant_reference : SafeReference
  pub action_type : ActionType
  pub proposal_instance_reference : SafeReference
  pub semantic_effect_reference : SafeReference
  pub proposal_commitment : SafeReference
  pub required_audience : SafeReference
  pub required_channel_assurance : SafeReference

pub data AuthorityValidationFailure : Type 0 where
  binding_mismatch expired not_yet_valid : AuthorityValidationFailure

pub record AuthorityValidationResult : Type 0 where
  pub valid : Bool
  pub failure : Option AuthorityValidationFailure

pub record ExternalAuthorityAttestation : Type 0 where
  pub format : SafeReference
  pub issuer_reference : SafeReference
  pub artifact_reference : SafeReference
  pub artifact_digest : SafeReference

unfoldable pub ExternalAuthorityAttestation-discrete : Discrete ExternalAuthorityAttestation
ExternalAuthorityAttestation-discrete = hlevel String-discrete

-- The fields `kind`, `domain` and `schema_version` have one value each.
pub record AuthorityEvidence : Type 0 where
  pub tenant_reference : SafeReference
  pub action_type : ActionType
  pub proposal_instance_reference : SafeReference
  pub semantic_effect_reference : SafeReference
  pub authority : ConfirmingAuthority
  pub audience : List SafeReference
  pub decision : AuthorityDecision
  pub proposal_commitment : SafeReference
  pub channel_assurance : SafeReference
  pub issued_at : Timestamp
  pub expires_at : Timestamp
  pub external_attestation : Option ExternalAuthorityAttestation

unfoldable pub AuthorityEvidence-discrete : Discrete AuthorityEvidence
AuthorityEvidence-discrete =
    hlevel (participants, AuthorityDecision-discrete, ExternalAuthorityAttestation-discrete)

instance abbrev pub authority_evidence_eq : Eq AuthorityEvidence
authority_evidence_eq = record { discrete = AuthorityEvidence-discrete }

-- The model validator `expiry_follows_issue_time`.
unfoldable pub expiry_follows_issue_time : AuthorityEvidence → Bool
expiry_follows_issue_time e = ltb e.issued_at e.expires_at

unfoldable pub authority_evidence_matches_binding : AuthorityEvidence → AuthorityBinding → Bool
authority_evidence_matches_binding e b =
    e.tenant_reference == b.tenant_reference
    && (e.action_type == b.action_type
        && (e.proposal_instance_reference == b.proposal_instance_reference
            && (e.semantic_effect_reference == b.semantic_effect_reference
                && (e.proposal_commitment == b.proposal_commitment
                    && (contains e.audience b.required_audience
                        && e.channel_assurance == b.required_channel_assurance)))))

abbrev pub accepted : AuthorityValidationResult
accepted = record { valid = true; failure = none }

abbrev pub refused : AuthorityValidationFailure → AuthorityValidationResult
refused f = record { valid = false; failure = some f }

unfoldable pub validate_authority_evidence :
    AuthorityEvidence → AuthorityBinding → Timestamp → AuthorityValidationResult
validate_authority_evidence e b now =
    if authority_evidence_matches_binding e b
    then (if ltb now e.issued_at
        then refused not_yet_valid
        else if leb e.expires_at now
        then refused expired
        else accepted)
    else refused binding_mismatch
