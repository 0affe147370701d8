-- ===== src/Exec.antt =====
-- A task of the library: it calls the store and the host, and may raise. What was done before a
-- raise stays done, so the world comes back beside the error too.
pub mod Keeps
pub mod Leads
pub mod Returns
pub mod Alone
pub mod Ends
pub mod Finds
pub mod Total
use threvo_actions.Prelude.{
  ℕ, ◌+◌, String, Option, none, some, List, [], ◌∷◌, ◌++◌, Bool, true, false,
}
use threvo_actions.Model.{SafeReference, Timestamp, ProposalIdentity}
use threvo_actions.Result.{Error, Result, ok, err}
use threvo_actions.Canonical.{KeyedCommitment, ProtectedPayload}
use threvo_actions.Receipts.{RuntimeEvent}
use threvo_actions.Proposal.{StoredProposal}
use threvo_actions.Store.{MemoryStore, StoreCall, run}
use threvo_actions.Registry.{ExecutionContext}

-- How one call of the store adapter fares: it works, or it raises before or after the write.
pub data Fault : Type 0 where
  healthy : Fault
  lost_request lost_acknowledgement : Error → Fault

-- What the task asks of others. Each answer may depend on the moment, a count of the questions
-- asked so far, so an environment is any clock, any host and any scheduler.
pub record Environment : Type 0 where
  pub clock : ℕ → Timestamp
  pub identifiers : ℕ → String → Result SafeReference
  -- The store calls that other tasks make before this task's call.
  pub others : ℕ → List StoreCall
  pub faults : ℕ → Fault
  pub event_sink : ℕ → RuntimeEvent → Result (Unit {0})
  pub runtime_revision : SafeReference
  -- What pydantic checks when a prepared record is constructed, and what dumping its preview raises.
  pub construct : StoredProposal → Result (Unit {0})

-- What the host could observe of the task.
pub data Event : Type 0 where
  -- An executor call, with the store as it was at the call.
  executor_called : ExecutionContext → SafeReference → MemoryStore → Event
  verifier_called : ExecutionContext → Event
  payload_destroyed : ProposalIdentity → ProtectedPayload → Event
  commitment_destroyed : ProposalIdentity → KeyedCommitment → Event
  event_emitted : RuntimeEvent → Event
  -- A worker gave back a lease: its proposal and token, the next attempt, the reason for attention
  -- and the answer of the schedule.
  lease_completed :
      SafeReference → SafeReference → Option Timestamp → Option SafeReference → Result Bool → Event

-- The two kinds of event that are counted: calls of the executor and leases given back.
unfoldable pub is_counted : Event → Bool
is_counted (executor_called _ _ _) = true
is_counted (lease_completed _ _ _ _ _) = true
is_counted _ = false

pub record World : Type 0 where
  pub store : MemoryStore
  pub moment : ℕ
  pub trace : List Event

abbrev pub Exec : Type 0 → Type 0
Exec A = World → Result A × World

module _ {A : Type 0} where
  unfoldable pub pure : A → Exec A
  pure a w = (ok a, w)

  unfoldable pub raise : Error → Exec A
  raise e w = (err e, w)

  unfoldable pub lift : Result A → Exec A
  lift r w = (r, w)

  -- A question to the host.
  unfoldable pub ask : (ℕ → Result A) → Exec A
  ask question w = (question w.moment, record w { moment = w.moment + 1 })

  -- `try: m` with the exception as a value.
  unfoldable pub attempt : Exec A → Exec (Result A)
  attempt m w = let (r, w') = m w in (ok r, w')

module _ {A B : Type 0} where
  unfoldable pub continue : Result A → (A → Exec B) → Exec B
  continue (ok a) f w = f a w
  continue (err e) f w = (err e, w)

  infixl 5 ◌>>=◌ ◌>>◌
  unfoldable pub ◌>>=◌ : Exec A → (A → Exec B) → Exec B
  unfolding continue
  ◌>>=◌ m f w = let (r, w') = m w in continue r f w'

  abbrev pub ◌>>◌ : Exec A → Exec B → Exec B
  m >> k = m >>= λ _. k

unfoldable pub observe : Event → Exec (Unit {0})
observe e w = (ok tt, record w { trace = e ∷ w.trace })

-- The store as the task sees it at the moment of a call.
unfoldable pub current_store : Exec MemoryStore
current_store w = (ok w.store, w)

module _ {A : Type 0} where
  unfoldable pub answer : Fault → World → Result A × MemoryStore → Result A × World
  answer healthy w (r, s) = (r, record w { store = s; moment = w.moment + 1 })
  answer (lost_acknowledgement e) w (r, s) = (err e, record w { store = s; moment = w.moment + 1 })
  answer (lost_request e) w (r, s) = (err e, record w { moment = w.moment + 1 })

module _ {A : Type 0} (env : Environment) where
  -- One call of the store: other tasks first, then the call, through the adapter.
  unfoldable pub call_store : (MemoryStore → Result A × MemoryStore) → Exec A
  unfolding answer
  call_store method w =
      let s = run w.store (env.others w.moment) in
      answer (env.faults w.moment) (record w { store = s }) (method s)

module _ (env : Environment) where
  unfoldable pub clock_now : Exec Timestamp
  clock_now = ask (λ n. ok (env.clock n))

  unfoldable pub new_identifier : String → Exec SafeReference
  new_identifier prefix = ask (λ n. env.identifiers n prefix)
