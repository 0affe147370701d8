-- ===== src/Reason.antt =====
-- runtime.py: `RuntimeReasonCode`, the reason codes that the runtime itself gives.
use threvo_actions.Model.{SafeReference}

abbrev pub prepare_denied : SafeReference
prepare_denied = "prepare_denied"

abbrev pub authority_rejected : SafeReference
authority_rejected = "authority_rejected"

abbrev pub proposal_expired : SafeReference
proposal_expired = "proposal_expired"

abbrev pub private_snapshot_unavailable : SafeReference
private_snapshot_unavailable = "private_snapshot_unavailable"

abbrev pub proposal_commitment_unavailable : SafeReference
proposal_commitment_unavailable = "proposal_commitment_unavailable"

abbrev pub authority_expired : SafeReference
authority_expired = "authority_expired"

abbrev pub execution_lease_expired : SafeReference
execution_lease_expired = "execution_lease_expired"

abbrev pub authority_no_longer_satisfied : SafeReference
authority_no_longer_satisfied = "authority_no_longer_satisfied"

abbrev pub reauthorization_failed : SafeReference
reauthorization_failed = "reauthorization_failed"

abbrev pub verification_retries_exhausted : SafeReference
verification_retries_exhausted = "verification_retries_exhausted"

abbrev pub material_drift : SafeReference
material_drift = "material_drift"

abbrev pub partial_not_declared : SafeReference
partial_not_declared = "partial_not_declared"

abbrev pub verified_terminal_failure : SafeReference
verified_terminal_failure = "verified_terminal_failure"

abbrev pub authoritative_final_absence : SafeReference
authoritative_final_absence = "authoritative_final_absence"

abbrev pub operator_verification_resumed : SafeReference
operator_verification_resumed = "operator_verification_resumed"

abbrev pub recovery_not_authorized : SafeReference
recovery_not_authorized = "recovery_not_authorized"
