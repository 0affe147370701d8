-- ===== src/Store/Laws.antt =====
-- Reading after writing, for the two dictionaries of the store.
use threvo_actions.Prelude.{◌≡◌, refl, true, false, some, ◌==◌}
use threvo_actions.Prelude.Dict.{get-put}
use threvo_actions.Model.{SafeReference}
use threvo_actions.Proposal.{StoredProposal}
use threvo_actions.Store.{
  MemoryStore, ProposalKey, proposal_key_eq, ClaimKey, claim_key_eq, get, claim_owner, write, claim,
}

module _ (s : MemoryStore) where
  pub get-write :
      (k j : ProposalKey) (p : StoredProposal)
      → get (write s k p) j ≡ elim (k == j) [ true ↦ some p | false ↦ get s j ]
  unfolding get write
  get-write k j p = get-put s.proposals k j p

  pub get-claim :
      (k : ClaimKey) (r : SafeReference) (j : ProposalKey) → get (claim s k r) j ≡ get s j
  unfolding get claim
  get-claim k r j = refl

  pub claim_owner-write :
      (k : ProposalKey) (p : StoredProposal) (c : ClaimKey)
      → claim_owner (write s k p) c ≡ claim_owner s c
  unfolding claim_owner write
  claim_owner-write k p c = refl

  pub claim_owner-claim :
      (c : ClaimKey) (r : SafeReference) (j : ClaimKey)
      → claim_owner (claim s c r) j ≡ elim (c == j) [ true ↦ some r | false ↦ claim_owner s j ]
  unfolding claim_owner claim
  claim_owner-claim c r j = get-put s.effect_claims c j r

pub ruleset store_laws = (get-write, get-claim, claim_owner-write, claim_owner-claim)
