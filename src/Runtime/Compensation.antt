-- ===== src/Runtime/Compensation.antt =====
-- What becomes of the protected payload and the commitment of a proposal whose creation failed.
use threvo_actions.Prelude.{◌≡◌, ◌≢◌, ◌⊎◌, some, List, ◌∷◌, option_eq}
use threvo_actions.Model.{ProposalIdentity}
use threvo_actions.Result.{Error, Result, ok, err}
use threvo_actions.Canonical.{KeyedCommitment, ProtectedPayload, Platform}
use threvo_actions.Proposal.{StoredProposal, stored_proposal_eq}
use threvo_actions.Store.{get, ProposalKey, proposal_key_eq}
use threvo_actions.Registry.{ActionDefinition}
use threvo_actions.Exec.{Environment, Event, World, Exec, payload_destroyed, commitment_destroyed}
use threvo_actions.Exec.Ends.{Ends}
use threvo_actions.Runtime.Common.{store_key}

-- What a creation leaves behind at its end. If it returns, the store holds the proposal and nothing
-- is destroyed. If it raises, either nothing is destroyed, and then the store holds the proposal or
-- could not be read, or both are destroyed, and the store does not hold the proposal.
pub data Leaves (identity : ProposalIdentity) (payload : ProtectedPayload)
    (commitment : KeyedCommitment) (p : StoredProposal) (unread : Type 0) (es : List Event)
    : Result StoredProposal → World → Type 0 where
  returned :
      {w : World}
      → w.trace ≡ es
      → get w.store (store_key identity.tenant_reference identity.proposal_reference) ≡ some p
      → Leaves identity payload commitment p unread es (ok p) w
  kept :
      {w : World} (e : Error)
      → w.trace ≡ es
      → (get w.store (store_key identity.tenant_reference identity.proposal_reference) ≡ some p)
        ⊎ unread
      → Leaves identity payload commitment p unread es (err e) w
  compensated :
      {w : World} (e : Error)
      → get w.store (store_key identity.tenant_reference identity.proposal_reference) ≢ some p
      → w.trace ≡ commitment_destroyed identity commitment ∷ payload_destroyed identity payload ∷ es
      → Leaves identity payload commitment p unread es (err e) w

abbrev key_for : ProposalIdentity → ProposalKey
key_for identity = store_key identity.tenant_reference identity.proposal_reference

module _ (platform : Platform) (env : Environment) (d : ActionDefinition)
    (identity : ProposalIdentity) (payload : ProtectedPayload) (commitment : KeyedCommitment)
    (p : StoredProposal) (unread : Type 0) where
  abbrev Outcome : List Event → Result StoredProposal → World → Type 0
  Outcome es = Leaves identity payload commitment p unread es

  abbrev destroyed : List Event → List Event
  destroyed es = commitment_destroyed identity commitment ∷ payload_destroyed identity payload ∷ es
