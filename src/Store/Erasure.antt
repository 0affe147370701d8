-- ===== src/Store/Erasure.antt =====
-- Erasure: the two privileged steps, and what an update may do to an erased record.
use threvo_actions.Prelude.{
  ℕ, ◌+◌, ◌≡◌, refl, true, false, inl, inr, none, some, [], arith, Option-cases, string_eq, nat_eq,
  is_some, contains, ◌∷◌,
}
use threvo_actions.Model.{
  Timestamp, executing, failed_unknown, verification_pending, lifecycle_status_eq, action_type_eq,
  effect_kind_eq,
}
use threvo_actions.Json.{JsonObject}
use threvo_actions.Result.{ok}
use threvo_actions.Proposal.{
  StoredProposal, erasable, erased_proposal, proposal_with_erasure_pending,
}
use threvo_actions.Proposal.Validate.{
  content_free, validate_proposal_update, validate_proposal_bindings, same_identity,
  erasure_only_advances, allowed_transition,
}
use threvo_actions.Proposal.Advance.{SameIdentity}
use threvo_actions.Store.{
  MemoryStore, ProposalKey, proposal_key_eq, get, write, markable, mark_erasure_pending,
  completable, complete_erasure,
}
use threvo_actions.Store.Laws.{get-write}

-- An effect that is running, unknown or being verified keeps its proposal from being erased.
pub mark_refused_in_flight :
    (s : MemoryStore) (k : ProposalKey) (p : StoredProposal) (revision : ℕ) (at : Timestamp)
    → get s k ≡ some p
    → contains (executing ∷ failed_unknown ∷ verification_pending ∷ []) p.lifecycle_status ≡ true
    → mark_erasure_pending k revision at s ≡ (ok false, s)
unfolding mark_erasure_pending markable erasable
mark_refused_in_flight s k p revision at found h = rw (found, mark_erasure_pending) (ground arith)

-- A completed erasure was pending before; it leaves under the key a record of the same identity,
-- one revision on, with every content field empty and both erasure marks settled.
pub complete_erasure_tombstone :
    (s t : MemoryStore) (k : ProposalKey) (revision : ℕ) (at : Timestamp)
    → complete_erasure k revision at s ≡ (ok true, t)
    → (p q : StoredProposal) × (get s k ≡ some p)
      × (is_some p.erasure_pending_at ≡ true)
      × (get t k ≡ some q)
      × SameIdentity p q
      × (q.revision ≡ revision + 1)
      × (content_free q ≡ true)
      × (q.next_verification_at ≡ none)
      × (q.erasure_pending_at ≡ none)
      × (q.erased_at ≡ some at)
unfolding complete_erasure completable erased_proposal content_free
complete_erasure_tombstone s t k revision at h = elim (Option-cases (get s k)) [
  | inl e ↦ absurd (ground arith)
  | inr (p, e) ↦
      let w : t ≡ write s k (erased_proposal p at) = ground arith in
      (
        p,
        erased_proposal p at,
        e,
        ground arith,
        rw w (ground (arith, get-write s k k (erased_proposal p at))),
        ground arith,
        ground arith,
        refl,
        refl,
        refl,
        refl,
      )
]

-- The two steps, one after the other at the revisions that they leave, erase an erasable proposal.
pub erase_protocol :
    (s : MemoryStore) (k : ProposalKey) (p : StoredProposal) (pending_at erased_at : Timestamp)
    → get s k ≡ some p
    → erasable p.lifecycle_status ≡ true
    → p.erased_at ≡ none
    → p.erasure_pending_at ≡ none
    → let s' = (mark_erasure_pending k p.revision pending_at s).1 in
      (q : StoredProposal) × (get (complete_erasure k (p.revision + 1) erased_at s').1 k ≡ some q)
      × (content_free q ≡ true)
      × (q.erased_at ≡ some erased_at)
      × (q.lifecycle_status ≡ p.lifecycle_status)
unfolding mark_erasure_pending markable complete_erasure completable erased_proposal
    proposal_with_erasure_pending content_free
erase_protocol s k p pending_at erased_at found may live unmarked =
    let m = proposal_with_erasure_pending p pending_at in
    let q = erased_proposal m erased_at in
    (
      q,
      rw (found, mark_erasure_pending)
          (ground (arith, get-write s k k m, get-write (write s k m) k k q)),
      refl,
      refl,
      refl,
    )

-- An update that takes back `erased_at` and writes a new preview is accepted after an erasure: the
-- validator has no clause that keeps a tombstone.
pub tombstone_revived :
    (p : StoredProposal) (at : Timestamp) (preview : JsonObject)
    → let e = erased_proposal p at in
      validate_proposal_update e
        (record e { erased_at = none; display_preview = preview; revision = e.revision + 1 })
      ≡ ok tt
unfolding validate_proposal_update erased_proposal same_identity erasure_only_advances
    allowed_transition validate_proposal_bindings
tombstone_revived p at preview = ground arith
