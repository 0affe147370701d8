-- ===== src/Store/Soundness.antt =====
-- The invariant of the store: what holds of every record, whatever calls were made.
use threvo_actions.Prelude.{
  ◌≡◌, ◌⊎◌, refl, sym, ap, ◌∙◌, subst, Bool, true, false, ◌||◌, some, List, [], ◌∷◌, inl, inr,
  arith, ◌==◌, contains, is_none, Bool-cases, string_eq,
}
use threvo_actions.Prelude.Dict.{get-empty}
use threvo_actions.Model.{
  SafeReference, LifecycleStatus, awaiting_authority, denied, authorized, stale, executing,
  failed_unknown, verification_pending, verification_unresolved, partially_succeeded, verified,
  lifecycle_status_eq,
}
use threvo_actions.Result.{ok}
use threvo_actions.Proposal.{StoredProposal, allowed_lifecycle_transitions}
use threvo_actions.Proposal.Validate.{
  validate_proposal_bindings, validate_proposal_create, content_free, allowed_transition,
}
use threvo_actions.Proposal.Advance.{eq-of-==, Advance}
use threvo_actions.Store.{
  MemoryStore, ProposalKey, proposal_key_eq, ClaimKey, claim_key_eq, key_of, claim_key_of, get,
  claim_owner, write, claim, new_store, releases_claim, StoreCall, step, run,
}
use threvo_actions.Store.Laws.{get-write, get-claim, claim_owner-write, claim_owner-claim}
use threvo_actions.Store.Effect.{Effect, same, created, advanced, claimed, ClaimIsFree, step-Effect}

-- The statuses in which an effect may have happened or may yet happen.
unfoldable pub may_have_effect : LifecycleStatus → Bool
may_have_effect executing = true
may_have_effect failed_unknown = true
may_have_effect verification_pending = true
may_have_effect verification_unresolved = true
may_have_effect partially_succeeded = true
may_have_effect verified = true
may_have_effect _ = false

-- What holds of the record `p` that the store `s` keeps under `k`.
pub record IsSoundAt (s : MemoryStore) (k : ProposalKey) (p : StoredProposal) : Type 0 where
  pub keyed : key_of p ≡ k
  pub bound : validate_proposal_bindings p ≡ ok tt
  pub tombstone : (is_none p.erased_at ≡ true) ⊎ (content_free p ≡ true)
  pub owned :
      may_have_effect p.lifecycle_status ≡ true
      → claim_owner s (claim_key_of p) ≡ some p.proposal_reference

pub record IsSound (s : MemoryStore) : Type 0 where
  pub at : (k : ProposalKey) (p : StoredProposal) → get s k ≡ some p → IsSoundAt s k p

pub new_store-IsSound : IsSound new_store
unfolding new_store get
new_store-IsSound = record { at = λ k p h. absurd (grind (arith, get-empty)) }

-- A status of that kind is entered through `executing` alone.
enters :
    (a b : LifecycleStatus)
    → (b == a || contains (allowed_lifecycle_transitions a) b) ≡ true
    → may_have_effect b ≡ true
    → (b ≡ executing) ⊎ (may_have_effect a ≡ true)
unfolding may_have_effect allowed_lifecycle_transitions
enters awaiting_authority b h m = ground arith
enters authorized b h m = ground arith
enters stale b h m = ground arith
enters executing b h m = inr refl
enters failed_unknown b h m = inr refl
enters verification_pending b h m = inr refl
enters verification_unresolved b h m = inr refl
enters partially_succeeded b h m = inr refl
enters verified b h m = inr refl
enters denied b h m = ground arith
enters _ b h m = ground arith

claim_key-Advance : (p q : StoredProposal) → Advance p q → claim_key_of q ≡ claim_key_of p
claim_key-Advance p q a = ground arith

key-Advance : (p q : StoredProposal) → Advance p q → key_of q ≡ key_of p
key-Advance p q a = ground arith

-- The owner that entering `executing` asks for is the proposal itself.
owner_of_entry :
    (s : MemoryStore) (key : ProposalKey) (p : StoredProposal)
    → IsSoundAt s key p
    → (p.lifecycle_status ≡ executing)
      ⊎ (claim_owner s (claim_key_of p) ≡ some p.proposal_reference)
      ⊎ (claim_owner s (claim_key_of p) ≡ some key.proposal)
    → claim_owner s (claim_key_of p) ≡ some p.proposal_reference
unfolding may_have_effect
owner_of_entry s key p v (inl e) = v.owned (rw e)
owner_of_entry s key p v (inr (inl e)) = e
owner_of_entry s key p v (inr (inr e)) = ground (arith, v.keyed)

owned-Advance :
    (s : MemoryStore) (key : ProposalKey) (p q : StoredProposal)
    → IsSoundAt s key p
    → Advance p q
    → (q.lifecycle_status ≡ executing
        → (p.lifecycle_status ≡ executing)
          ⊎ (claim_owner s (claim_key_of p) ≡ some p.proposal_reference)
          ⊎ (claim_owner s (claim_key_of p) ≡ some key.proposal))
    → may_have_effect q.lifecycle_status ≡ true
    → claim_owner s (claim_key_of p) ≡ some p.proposal_reference
unfolding allowed_transition
owned-Advance s key p q v a entry m =
    elim (enters p.lifecycle_status q.lifecycle_status a.transition m) [
      | inl e ↦ owner_of_entry s key p v (entry e)
      | inr e ↦ v.owned e
    ]

Advance-IsSoundAt :
    (s : MemoryStore) (key : ProposalKey) (p q : StoredProposal)
    → IsSoundAt s key p
    → Advance p q
    → validate_proposal_bindings q ≡ ok tt
    → (may_have_effect q.lifecycle_status ≡ true
        → claim_owner s (claim_key_of p) ≡ some p.proposal_reference)
    → IsSoundAt s key q
Advance-IsSoundAt s key p q v a b owned = record {
  keyed = key-Advance p q a ∙ v.keyed;
  bound = b;
  tombstone = a.tombstone;
  owned = λ m. rw (claim_key-Advance p q a) (owned m ∙ ap some (sym a.identity.proposal_reference));
}

-- Writing a sound record keeps the store sound.
write-IsSound :
    (s : MemoryStore) (key : ProposalKey) (q : StoredProposal)
    → IsSound s
    → IsSoundAt s key q
    → IsSound (write s key q)
write-IsSound s key q v w = record {
  at = λ k p h. at k p (sym (get-write s key k q) ∙ h) (Bool-cases (key == k));
}
  where
    kept : (k : ProposalKey) (p : StoredProposal) → IsSoundAt s k p → IsSoundAt (write s key q) k p
    kept k p u = record {
      keyed = u.keyed;
      bound = u.bound;
      tombstone = u.tombstone;
      owned = λ m. claim_owner-write s key q (claim_key_of p) ∙ u.owned m;
    }

    at :
        (k : ProposalKey) (p : StoredProposal)
        → elim (key == k) [ true ↦ some q | false ↦ get s k ] ≡ some p
        → (key == k ≡ true) ⊎ (key == k ≡ false)
        → IsSoundAt (write s key q) k p
    at k p h (inl e) =
        let same_key : key ≡ k = ground arith in
        let same_record : q ≡ p = ground arith in
        kept k p (subst (λ j. IsSoundAt s j p) same_key (subst (IsSoundAt s key) same_record w))
    at k p h (inr e) = kept k p (v.at k p (ground arith))

-- An owner that releases its claim is in no status that may have had an effect.
pub released_owner :
    (x : StoredProposal)
    → releases_claim (some x) ≡ true
    → may_have_effect x.lifecycle_status ≡ true
    → ⊥
unfolding releases_claim may_have_effect
released_owner x h m = ground arith

not_free :
    (s : MemoryStore) (p : StoredProposal) (k : ProposalKey) (x : StoredProposal)
    → ClaimIsFree s p
    → IsSoundAt s k x
    → get s k ≡ some x
    → may_have_effect x.lifecycle_status ≡ true
    → claim_key_of p ≡ claim_key_of x
    → ⊥
not_free s p k x (inl e) u found m same_claim =
    let own = u.owned m in cc (ap (claim_owner s) same_claim)
not_free s p k x (inr (owner, e, released)) u found m same_claim =
    let own = u.owned m in
    let owner_is : owner ≡ x.proposal_reference = ground (arith, ap (claim_owner s) same_claim) in
    let tenant_is : p.tenant_reference ≡ x.tenant_reference =
      ap (λ (c : ClaimKey). c.tenant) same_claim in
    let key_is : k ≡ record { tenant = p.tenant_reference; proposal = owner } =
      ground (arith, u.keyed) in
    let owner_record = sym (ap (get s) key_is) ∙ found in
    released_owner x (ap releases_claim (sym owner_record) ∙ released) m

-- Giving a free claim away takes it from no proposal that may have had an effect.
claim-IsSound :
    (s : MemoryStore) (p : StoredProposal) (r : SafeReference)
    → IsSound s
    → ClaimIsFree s p
    → IsSound (claim s (claim_key_of p) r)
claim-IsSound s p r v free = record {
  at = λ k x h.
      let found = sym (get-claim s (claim_key_of p) r k) ∙ h in at k x (v.at k x found) found;
}
  where
    at :
        (k : ProposalKey) (x : StoredProposal)
        → IsSoundAt s k x
        → get s k ≡ some x
        → IsSoundAt (claim s (claim_key_of p) r) k x
    at k x u found = record {
      keyed = u.keyed;
      bound = u.bound;
      tombstone = u.tombstone;
      owned = λ m. elim (Bool-cases (claim_key_of p == claim_key_of x)) [
        | inl e ↦
            absurd (not_free s p k x free u found m (eq-of-== (claim_key_of p) (claim_key_of x) e))
        | inr e ↦ claim_owner-claim s (claim_key_of p) r (claim_key_of x) ∙ rw e (u.owned m)
      ];
    }

create-IsSoundAt :
    (s : MemoryStore) (p : StoredProposal)
    → validate_proposal_create p ≡ ok tt
    → IsSoundAt s (key_of p) p
unfolding validate_proposal_create may_have_effect
create-IsSoundAt s p h = record {
  keyed = refl;
  bound = ground arith;
  tombstone = inl (ground arith);
  owned = λ m. absurd (ground arith);
}

Effect-IsSound : (s t : MemoryStore) → IsSound s → Effect s t → IsSound t
Effect-IsSound s t v (same e) = rw e v
Effect-IsSound s t v (created p absent valid e) =
    rw e (write-IsSound s (key_of p) p v (create-IsSoundAt s p valid))
Effect-IsSound s t v (advanced key p q found a b entry e) =
    let u = v.at key p found in
    rw e (
      write-IsSound s key q v
        (Advance-IsSoundAt s key p q u a (b u.bound) (owned-Advance s key p q u a entry)))
Effect-IsSound s t v (claimed key p q found a b authorised starts free e) =
    let c = claim s (claim_key_of p) key.proposal in
    let w = claim-IsSound s p key.proposal v free in
    let u = w.at key p (get-claim s (claim_key_of p) key.proposal key ∙ found) in
    rw e (write-IsSound c key q w (Advance-IsSoundAt c key p q u a (b u.bound) (λ m. own u)))
  where
    own :
        IsSoundAt (claim s (claim_key_of p) key.proposal) key p
        → claim_owner (claim s (claim_key_of p) key.proposal) (claim_key_of p)
          ≡ some p.proposal_reference
    own u = ground (
      arith,
      claim_owner-claim s (claim_key_of p) key.proposal (claim_key_of p),
      ap (λ (k : ProposalKey). k.proposal) u.keyed,
    )

-- Every call keeps the store sound, whatever its arguments.
pub step-IsSound : (s : MemoryStore) (c : StoreCall) → IsSound s → IsSound (step s c)
step-IsSound s c v = Effect-IsSound s (step s c) v (step-Effect s c)

pub run-IsSound : (s : MemoryStore) (calls : List StoreCall) → IsSound s → IsSound (run s calls)
unfolding run
run-IsSound s [] v = v
run-IsSound s (c ∷ calls) v = run-IsSound (step s c) calls (step-IsSound s c v)

-- Two records of one semantic effect that both may have had it are one record.
pub IsSound-exclusive :
    (s : MemoryStore)
    → IsSound s
    → (j k : ProposalKey) (p q : StoredProposal) → get s j ≡ some p
    → get s k ≡ some q
    → claim_key_of p ≡ claim_key_of q
    → may_have_effect p.lifecycle_status ≡ true
    → may_have_effect q.lifecycle_status ≡ true
    → j ≡ k
IsSound-exclusive s v j k p q hp hq e mp mq =
    let u = v.at j p hp in
    let w = v.at k q hq in
    ground (
      arith,
      u.owned mp,
      w.owned mq,
      ap (claim_owner s) e,
      ap (λ (c : ClaimKey). c.tenant) e,
      u.keyed,
      w.keyed,
    )

-- At most one execution: after any calls on a new store, of all proposals for one semantic effect
-- (tenant, action and effect reference) at most one is executing, verified, partially succeeded, or
-- of an outcome that is unknown, being verified or unresolved.
pub effect_exclusion :
    (calls : List StoreCall) (j k : ProposalKey) (p q : StoredProposal)
    → get (run new_store calls) j ≡ some p
    → get (run new_store calls) k ≡ some q
    → claim_key_of p ≡ claim_key_of q
    → may_have_effect p.lifecycle_status ≡ true
    → may_have_effect q.lifecycle_status ≡ true
    → j ≡ k
effect_exclusion calls =
    IsSound-exclusive (run new_store calls) (run-IsSound new_store calls new_store-IsSound)
