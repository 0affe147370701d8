-- ===== src/Store/Admission.antt =====
-- Admission to execution: what it grants, and whom it keeps out.
use threvo_actions.Prelude.{
  ℕ, ◌≡◌, ◌≢◌, ◌⊎◌, sym, ap, ◌∙◌, true, false, none, some, inl, inr, arith, ◌==◌, ◌<◌, Bool-cases,
  Option-cases, string_eq, nat_eq,
}
use threvo_actions.Model.{Timestamp, SafeReference, authorized, executing, lifecycle_status_eq}
use threvo_actions.Result.{ok}
use threvo_actions.Proposal.{
  StoredProposal, EffectClaimResult, acquired, owned_by_proposal, conflict,
}
use threvo_actions.Proposal.Validate.{validate_proposal_update}
use threvo_actions.Proposal.Advance.{SameIdentity, validate_proposal_update-Advance}
use threvo_actions.Store.{
  MemoryStore, ProposalKey, proposal_key_eq, ClaimKey, claim_key_eq, claim_key_of, get, claim_owner,
  write, releases_claim, claim_effect_locked, write_claimed, admissible, admit_execution,
}
use threvo_actions.Store.Laws.{get-write, get-claim, claim_owner-claim, claim_owner-write}
use threvo_actions.Store.Soundness.{IsSound, may_have_effect, released_owner}

-- A claim whose owner may have had the effect is refused to everybody else.
claim_conflict :
    (s : MemoryStore) (j k : ProposalKey) (p q : StoredProposal)
    → IsSound s
    → get s j ≡ some p
    → get s k ≡ some q
    → j ≢ k
    → claim_key_of p ≡ claim_key_of q
    → may_have_effect p.lifecycle_status ≡ true
    → claim_effect_locked (claim_key_of q) k.proposal s ≡ (conflict, s)
unfolding claim_effect_locked
claim_conflict s j k p q v hp hq other e m =
    let u = v.at j p hp in
    let w = v.at k q hq in
    let owner : claim_owner s (claim_key_of q) ≡ some p.proposal_reference =
      ap (claim_owner s) (sym e) ∙ u.owned m in
    let tenant : q.tenant_reference ≡ p.tenant_reference =
      ap (λ (c : ClaimKey). c.tenant) (sym e) in
    let differs : (p.proposal_reference == k.proposal) ≡ false =
      elim (Bool-cases (p.proposal_reference == k.proposal)) [
        | inl h ↦ absurd (other (ground (arith, u.keyed, w.keyed)))
        | inr h ↦ h
      ] in
    let there : record { tenant = q.tenant_reference; proposal = p.proposal_reference } ≡ j =
      ground (arith, u.keyed) in
    let kept : releases_claim
          (get s (record { tenant = q.tenant_reference; proposal = p.proposal_reference }))
        ≡ false =
      elim (Bool-cases (releases_claim (some p))) [
        | inl h ↦ absurd (released_owner p h m)
        | inr h ↦ ap (λ k. releases_claim (get s k)) there ∙ rw hp h
      ] in
    rw (owner, claim_effect_locked) (rw differs (rw kept))

-- In a sound store, while one stored proposal may have had a semantic effect, no other stored
-- proposal of it is admitted: whatever the revision, the time and the update, the admission is not
-- granted and changes nothing.
pub admission_exclusive :
    (s : MemoryStore) (j k : ProposalKey) (p q : StoredProposal) (revision : ℕ) (at : Timestamp)
    (u : StoredProposal)
    → IsSound s
    → get s j ≡ some p
    → get s k ≡ some q
    → j ≢ k
    → claim_key_of p ≡ claim_key_of q
    → may_have_effect p.lifecycle_status ≡ true
    → ((admit_execution k revision at u s).0 ≢ ok acquired)
      × ((admit_execution k revision at u s).0 ≢ ok owned_by_proposal)
      × ((admit_execution k revision at u s).1 ≡ s)
unfolding admit_execution write_claimed
admission_exclusive s j k p q revision at u v hp hq other e m =
    let c = claim_conflict s j k p q v hp hq other e m in
    rw (hq, admit_execution) (ground (arith, c), ground (arith, c), ground (arith, c))

claim_granted :
    (s t : MemoryStore) (c : ClaimKey) (r : SafeReference) (g : EffectClaimResult)
    → claim_effect_locked c r s ≡ (g, t)
    → g ≢ conflict
    → (claim_owner t c ≡ some r) × ((k : ProposalKey) → get t k ≡ get s k)
unfolding claim_effect_locked
claim_granted s t c r g h n =
    (ground (arith, claim_owner-claim s c r c), λ k. ground (arith, get-claim s c r k))

write_granted :
    (k : ProposalKey) (u : StoredProposal) (r : EffectClaimResult × MemoryStore)
    (g : EffectClaimResult) (t : MemoryStore)
    → write_claimed k u r ≡ (ok g, t)
    → g ≢ conflict
    → (r ≡ (g, r.1)) × (t ≡ write r.1 k u)
unfolding write_claimed
write_granted k u (conflict, s) g t h n = absurd (n (ground arith))
write_granted k u (_, s) g t h n = (ground arith, ground arith)

same_claim : {p q : StoredProposal} → SameIdentity p q → claim_key_of q ≡ claim_key_of p
same_claim same =
    ground (arith, same.tenant_reference, same.action_type, same.semantic_effect_reference)

-- A granted admission found the proposal at the expected revision, authorized, neither erased nor
-- being erased, and not yet expired; it leaves the proposal executing, and the owner of its effect,
-- which the update may not change.
pub admission_grants :
    (s t : MemoryStore) (k : ProposalKey) (revision : ℕ) (at : Timestamp) (u : StoredProposal)
    (g : EffectClaimResult)
    → admit_execution k revision at u s ≡ (ok g, t)
    → (g ≡ acquired) ⊎ (g ≡ owned_by_proposal)
    → (p : StoredProposal) × (get s k ≡ some p)
      × (p.revision ≡ revision)
      × (p.lifecycle_status ≡ authorized)
      × (p.erasure_pending_at ≡ none)
      × (p.erased_at ≡ none)
      × (at < p.expires_at)
      × (u.lifecycle_status ≡ executing)
      × (get t k ≡ some u)
      × (claim_owner t (claim_key_of p) ≡ some k.proposal)
      × (claim_key_of u ≡ claim_key_of p)
unfolding admit_execution admissible
admission_grants s t k revision at u g h grant = elim (Option-cases (get s k)) [
  | inl e ↦ absurd (ground arith)
  | inr (p, e) ↦
      let r = claim_effect_locked (claim_key_of p) k.proposal s in
      let n : g ≢ conflict = λ x. ground arith in
      let w : write_claimed k u r ≡ (ok g, t) = ground arith in
      let valid : validate_proposal_update p u ≡ ok tt = ground arith in
      let (granted, written) = write_granted k u r g t w n in
      let (owner, kept) = claim_granted s r.1 (claim_key_of p) k.proposal g granted n in
      (
        p,
        e,
        ground arith,
        ground arith,
        ground arith,
        ground arith,
        ground arith,
        ground arith,
        rw written (ground (arith, get-write r.1 k k u)),
        rw written (claim_owner-write r.1 k u (claim_key_of p) ∙ owner),
        same_claim (validate_proposal_update-Advance p u valid).0.identity,
      )
]
