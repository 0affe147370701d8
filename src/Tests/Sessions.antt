-- ===== src/Tests/Sessions.antt =====
-- A host, an environment and a session: a refund is prepared, approved and executed.
use threvo_actions.Prelude.{◌≡◌, refl, some, none, true, false, List, [], ◌∷◌, arith, ◌≢◌}
use threvo_actions.Model.{EffectKind, LifecycleStatus, lifecycle_status_eq}
use threvo_actions.Json.{empty}
use threvo_actions.Canonical.{Platform}
use threvo_actions.Result.{ok}
use threvo_actions.Proposal.{StoredProposal}
use threvo_actions.Proposal.Validate.{
  validate_proposal_bindings, validate_proposal_update, check_evidence,
}
use threvo_actions.Registry.{
  ActionDefinition, ModelInstance, plain_provider, plain_codec, ExecutionStatus, ExecutionResult,
  VerificationStatus, VerificationResult,
}
use threvo_actions.Store.Soundness.{IsSound}
use threvo_actions.Exec.{Environment, World, healthy}
use threvo_actions.Runtime.Execute.{execute}
use threvo_actions.Runtime.Settle.{executed_record, verified_record, verification_transition}
use threvo_actions.Runtime.Admission.{OneMoreCall, executor_calls, execute_calls}
use threvo_actions.Runtime.Settlement.{
  settle_execution_accepted, settle_verification_accepted, resend_exactly, attempts_exhausted,
}
use threvo_actions.Runtime.Session.{
  prepares, records_authority, reconciles, Operation, quiet, executes, operate_quietly, Turn, serve,
  quiet_operation,
}
use threvo_actions.Runtime.Exclusion.{Each, IsExclusive, first_world, session_calls}
use threvo_actions.Tests.{
  refund, sealed, ciphertext, alice, approval_by, executing_proposal, receipt_of,
}

abbrev pub platform : Platform
platform = record { nfc = λ s. s; utf8 = λ s. []; dumps = λ j. ok "text"; encode = λ s. ok [] }

abbrev snapshot : ModelInstance
snapshot = record { model = "snapshot"; json = empty }

abbrev pub host : ActionDefinition
host = record {
  action_type = refund;
  command_model = "command";
  private_snapshot_model = "snapshot";
  display_preview_model = "preview";
  result_model = "result";
  can_prepare = λ n command context. ok (record { allowed = true; reason_code = none });
  can_decide = λ n evidence context. ok (record { allowed = true; reason_code = none });
  can_execute = λ n current context. ok (record { allowed = true; reason_code = none });
  can_read = λ n reference context. ok true;
  prepare = λ n command context. ok (record {
    private_snapshot = snapshot;
    display_preview = record { model = "preview"; json = empty };
    semantic_effect_reference = "order-1";
  });
  evaluate = λ n b evidence. ok (record { satisfied = true; reason_code = none });
  resolve = λ n current context. ok (record {
    current_snapshot = snapshot;
    execution_precondition = "etag";
    materially_drifted = false;
    replacement = none;
  });
  execute = λ n current context precondition. ok (record {
    status = ExecutionStatus.accepted;
    result = none;
    item_outcomes = [];
    external_reference = none;
    reason_code = none;
  });
  verify = λ n context. ok (record {
    status = VerificationStatus.verified_completion;
    result = none;
    item_outcomes = [];
    external_reference = none;
    reason_code = none;
    settling_boundary_passed = false;
    target_idempotency_guaranteed = true;
  });
  validate_json = λ payload. ok snapshot;
  commitment_provider =
      plain_provider (λ n reference payload. ok sealed) (λ n reference payload commitment. ok true)
        (λ n commitment. ok tt);
  protection_codec =
      plain_codec (λ n reference payload. ok ciphertext) (λ n payload. ok []) (λ n payload. ok tt);
  authorize_erasure = λ n reference context. ok true;
  recovery_authorization = none;
  proposal_ttl = 1000;
  executor_identity = record { reference = "executor" };
  target_identity = record { reference = "bank" };
  authority_audience = "payments";
  authority_channel_assurance = "mfa";
  verification_delay = 10;
  max_verification_attempts = 3;
  effect_kind = EffectKind.single;
  allow_resend_after_final_absence = true;
  verification_lease_duration = 60;
}

abbrev pub environment : Environment
environment = record {
  clock = λ n. n;
  identifiers = λ n prefix. ok prefix;
  others = λ n. [];
  faults = λ n. healthy;
  event_sink = λ n event. ok tt;
  runtime_revision = "r1";
  construct = λ p. ok tt;
}

abbrev turn : Operation → Turn
turn operation = record { environment = environment; definition = host; operation = operation }

abbrev session : List Turn
session =
    turn (quiet (prepares "tenant" snapshot (record { reference = "carol" }) none (some "first")))
    ∷ turn (quiet (records_authority (approval_by alice) alice none))
    ∷ turn (executes "tenant" "first")
    ∷ turn (quiet (reconciles "tenant" "first"))
    ∷ []

session_calls_example :
    Each IsExclusive (executor_calls (serve platform first_world session).trace)
    × IsSound (serve platform first_world session).store
session_calls_example = session_calls platform session

-- The world in which the proposal has been approved.
abbrev approved : World
approved = serve platform first_world (
    turn (quiet (prepares "tenant" snapshot (record { reference = "carol" }) none (some "first")))
    ∷ turn (quiet (records_authority (approval_by alice) alice none))
    ∷ [])

execute_calls_example :
    OneMoreCall
      (executor_calls approved.trace)
      (execute platform environment host "tenant" "first" approved).1
execute_calls_example = execute_calls platform environment host "tenant" "first" approved

quiet_operation_example :
    executor_calls
      (operate_quietly platform environment host (reconciles "tenant" "first") approved).trace
    ≡ executor_calls approved.trace
quiet_operation_example =
    quiet_operation platform environment host (reconciles "tenant" "first") approved

abbrev answer : ExecutionResult
answer = record {
  status = ExecutionStatus.failed_unknown;
  result = none;
  item_outcomes = [];
  external_reference = none;
  reason_code = some "timeout";
}

abbrev pub observation : VerificationStatus → VerificationResult
observation status = record {
  status = status;
  result = none;
  item_outcomes = [];
  external_reference = none;
  reason_code = none;
  settling_boundary_passed = elim status [
    | VerificationStatus.authoritative_final_absence ↦ true
    | _ ↦ false
  ];
  target_idempotency_guaranteed = true;
}

abbrev pub pending_proposal : StoredProposal
pending_proposal = record (executing_proposal "first") {
  lifecycle_status = LifecycleStatus.verification_pending;
}

bound :
    (validate_proposal_bindings (executing_proposal "first") ≡ ok tt)
    × (validate_proposal_bindings pending_proposal ≡ ok tt)
unfolding validate_proposal_bindings check_evidence
bound = (refl, refl)

settle_execution_accepted_example :
    validate_proposal_update
      (executing_proposal "first")
      (executed_record environment host (executing_proposal "first") answer 9 (receipt_of "first"))
    ≡ ok tt
settle_execution_accepted_example =
    settle_execution_accepted environment host (executing_proposal "first") answer 9
      (receipt_of "first") refl refl bound.0 refl

settle_verification_accepted_example :
    validate_proposal_update pending_proposal (
      verified_record environment host pending_proposal
        (observation VerificationStatus.authoritative_final_absence)
        (verification_transition host pending_proposal
          (observation VerificationStatus.authoritative_final_absence)
          1)
        9
        (receipt_of "first"))
    ≡ ok tt
settle_verification_accepted_example =
    settle_verification_accepted environment host pending_proposal
      (observation VerificationStatus.authoritative_final_absence) 1 9 (receipt_of "first") refl
      refl bound.1 refl

resend_exactly_example :
    ((verification_transition host pending_proposal
          (observation VerificationStatus.authoritative_final_absence)
          1).target
        ≡ LifecycleStatus.authorized
      → (VerificationStatus.authoritative_final_absence
          ≡ VerificationStatus.authoritative_final_absence)
        × (true ≡ true)
        × (true ≡ true)
        × (true ≡ true))
    × (VerificationStatus.authoritative_final_absence
          ≡ VerificationStatus.authoritative_final_absence
        → true ≡ true
        → true ≡ true
        → true ≡ true
        → (verification_transition host pending_proposal
            (observation VerificationStatus.authoritative_final_absence)
            1).target
          ≡ LifecycleStatus.authorized)
resend_exactly_example =
    resend_exactly host pending_proposal
      (observation VerificationStatus.authoritative_final_absence) 1

attempts_exhausted_example :
    (verification_transition host pending_proposal
      (observation VerificationStatus.target_unavailable)
      3).target
    ≢ LifecycleStatus.verification_pending
attempts_exhausted_example =
    attempts_exhausted host pending_proposal (observation VerificationStatus.target_unavailable) 3
      (omega arith)
