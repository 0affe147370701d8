-- ===== src/Runtime/Session.antt =====
-- The operations of `ActionRuntime` that may write, one after another on one world: a session.
use threvo_actions.Prelude.{ℕ, Bool, Option, List, [], ◌∷◌, ◌≡◌, refl}
use threvo_actions.Model.{
  SafeReference, RequestingPrincipal, ProposingAgent, ConfirmingAuthority, RecoveryOperator,
}
use threvo_actions.Canonical.{Platform}
use threvo_actions.Authority.{AuthorityEvidence}
use threvo_actions.Registry.{ActionDefinition, ModelInstance, ReadContext}
use threvo_actions.Exec.{Environment, World}
use threvo_actions.Exec.Keeps.{IsStable}
use threvo_actions.Runtime.Prepare.{prepare}
use threvo_actions.Runtime.Decide.{record_authority, expire_due}
use threvo_actions.Runtime.Execute.{execute}
use threvo_actions.Runtime.Reconcile.{reconcile, resume_verification}
use threvo_actions.Runtime.Erase.{erase}
use threvo_actions.Runtime.Stability.{
  record_authority-Keeps, expire_due-Keeps, reconcile-Keeps, resume_verification-Keeps, erase-Keeps,
}
use threvo_actions.Runtime.Stability.Preparation.{prepare-Keeps}
use threvo_actions.Runtime.Admission.{executor_calls, CallsAre-stable}

-- One call of a public method of the runtime, `execute` apart.
pub data QuietOperation : Type 0 where
  prepares :
      SafeReference
      → ModelInstance
      → RequestingPrincipal
      → Option ProposingAgent
      → Option SafeReference
      → QuietOperation
  records_authority :
      AuthorityEvidence → ConfirmingAuthority → Option SafeReference → QuietOperation
  expires_due reconciles : SafeReference → SafeReference → QuietOperation
  resumes_verification :
      SafeReference → SafeReference → ℕ → RecoveryOperator → SafeReference → QuietOperation
  erases : Bool → SafeReference → ReadContext → QuietOperation

pub data Operation : Type 0 where
  quiet : QuietOperation → Operation
  executes : SafeReference → SafeReference → Operation

module _ (platform : Platform) (env : Environment) (d : ActionDefinition) where
  unfoldable pub operate_quietly : QuietOperation → World → World
  operate_quietly (prepares t x q a o) w = (prepare platform env d t x q a o w).1
  operate_quietly (records_authority e a o) w = (record_authority env d e a o w).1
  operate_quietly (expires_due t r) w = (expire_due env d t r w).1
  operate_quietly (reconciles t r) w = (reconcile env d t r w).1
  operate_quietly (resumes_verification t r n o i) w = (resume_verification env d t r n o i w).1
  operate_quietly (erases b r c) w = (erase env d b r c w).1

  unfoldable pub operate : Operation → World → World
  operate (quiet o) w = operate_quietly o w
  operate (executes t r) w = (execute platform env d t r w).1

  -- What is stable outlives every such operation.
  pub operate_quietly-stable :
      {P : World → Type 0}
      → IsStable P
      → (o : QuietOperation) (w : World) → P w
      → P (operate_quietly o w)
  unfolding operate_quietly
  operate_quietly-stable stable (prepares t x q a o) w h =
      (prepare-Keeps stable platform env d t x q a o).at w h
  operate_quietly-stable stable (records_authority e a o) w h =
      (record_authority-Keeps stable env d e a o).at w h
  operate_quietly-stable stable (expires_due t r) w h = (expire_due-Keeps stable env d t r).at w h
  operate_quietly-stable stable (reconciles t r) w h = (reconcile-Keeps stable env d t r).at w h
  operate_quietly-stable stable (resumes_verification t r n o i) w h =
      (resume_verification-Keeps stable env d t r n o i).at w h
  operate_quietly-stable stable (erases b r c) w h = (erase-Keeps stable env d b r c).at w h

-- No operation but `execute` calls the governed executor: not the reconciliation and not the
-- recovery, whatever the host, the store and the other tasks do.
pub quiet_operation :
    (platform : Platform) (env : Environment) (d : ActionDefinition) (o : QuietOperation)
    (w : World)
    → executor_calls (operate_quietly platform env d o w).trace ≡ executor_calls w.trace
quiet_operation platform env d o w =
    operate_quietly-stable platform env d (CallsAre-stable (executor_calls w.trace)) o w refl

-- One turn: its environment and the definition registered for its action.
pub record Turn : Type 0 where
  pub environment : Environment
  pub definition : ActionDefinition
  pub operation : Operation

unfoldable pub serve : Platform → World → List Turn → World
serve platform w [] = w
serve platform w (t ∷ turns) =
    serve platform (operate platform t.environment t.definition t.operation w) turns
