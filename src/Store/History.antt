-- ===== src/Store/History.antt =====
-- What becomes of a record: no call removes one, and each write moves it one step on.
use threvo_actions.Prelude.{
  ℕ, ◌+◌, ◌≤◌, ◌<◌, ◌≡◌, refl, ap, ◌∙◌, subst, Bool, true, false, some, List, [], ◌∷◌, inl, inr,
  arith, ◌==◌, contains, Bool-cases, Option-cases, ◌||◌, nat_eq,
}
use threvo_actions.Model.{
  LifecycleStatus, denied, expired, blocked, superseded, failed_known, partially_succeeded,
  verified, lifecycle_status_eq, awaiting_authority, authorized, stale, executing, failed_unknown,
  verification_pending, verification_unresolved,
}
use threvo_actions.Result.{ok}
use threvo_actions.Proposal.{StoredProposal, allowed_lifecycle_transitions}
use threvo_actions.Proposal.Validate.{allowed_transition, validate_proposal_update}
use threvo_actions.Proposal.Advance.{
  Advance, validate_proposal_update-Advance, SameIdentity, SameIdentity-refl, SameIdentity-trans,
}
use threvo_actions.Store.{
  MemoryStore, ProposalKey, proposal_key_eq, key_of, claim_key_of, enters_unclaimed, get, write,
  claim, compare_and_set, StoreCall, step, run,
}
use threvo_actions.Store.Laws.{get-write, get-claim}
use threvo_actions.Store.Effect.{Effect, same, created, advanced, claimed, step-Effect}

-- A record's possible futures.
pub data Evolves (p : StoredProposal) : StoredProposal → Type 0 where
  now : Evolves p p
  later : {q r : StoredProposal} → Evolves p q → Advance q r → Evolves p r

pub Evolves-trans : {p q r : StoredProposal} → Evolves p q → Evolves q r → Evolves p r
Evolves-trans a now = a
Evolves-trans a (later b c) = later (Evolves-trans a b) c

pub Evolves-identity : {p q : StoredProposal} → Evolves p q → SameIdentity p q
Evolves-identity {p} now = SameIdentity-refl p
Evolves-identity (later a b) = SameIdentity-trans (Evolves-identity a) b.identity

pub Evolves-revision : {p q : StoredProposal} → Evolves p q → p.revision ≤ q.revision
Evolves-revision now = omega arith
Evolves-revision (later a b) = omega (arith, Evolves-revision a, b.revision)

pub Evolves-same : {p q : StoredProposal} → Evolves p q → q.revision ≡ p.revision → q ≡ p
Evolves-same now e = refl
Evolves-same (later a b) e = absurd (omega (arith, Evolves-revision a, b.revision))

-- The statuses with no way out.
unfoldable pub final : LifecycleStatus → Bool
final denied = true
final expired = true
final blocked = true
final superseded = true
final failed_known = true
final partially_succeeded = true
final verified = true
final _ = false

final-step :
    (a b : LifecycleStatus)
    → (b == a || contains (allowed_lifecycle_transitions a) b) ≡ true
    → final a ≡ true
    → b ≡ a
unfolding final allowed_lifecycle_transitions
final-step denied b h f = ground arith
final-step awaiting_authority b h f = cc
final-step authorized b h f = cc
final-step stale b h f = cc
final-step executing b h f = cc
final-step failed_unknown b h f = cc
final-step verification_pending b h f = cc
final-step verification_unresolved b h f = cc
final-step _ b h f = ground arith

pub Evolves-final :
    {p q : StoredProposal}
    → Evolves p q
    → final p.lifecycle_status ≡ true
    → q.lifecycle_status ≡ p.lifecycle_status
unfolding allowed_transition
Evolves-final now f = refl
Evolves-final {p} (later {q = q} {r = r} a b) f =
    let e = Evolves-final a f in
    final-step q.lifecycle_status r.lifecycle_status b.transition (rw e f) ∙ e

-- The record under `k` is there after the call, in one of its futures.
Survives : MemoryStore → ProposalKey → StoredProposal → Type 0
Survives t k p = (q : StoredProposal) × (get t k ≡ some q) × Evolves p q

write-Survives :
    (s : MemoryStore) (key : ProposalKey) (p q : StoredProposal)
    → get s key ≡ some p
    → Advance p q
    → (k : ProposalKey) (x : StoredProposal) → get s k ≡ some x
    → Survives (write s key q) k x
unfolding Survives
write-Survives s key p q found a k x h = elim (Bool-cases (key == k)) [
  | inl e ↦
      let same_record : p ≡ x = ground arith in
      (q, get-write s key k q ∙ rw e, subst (λ y. Evolves y q) same_record (later now a))
  | inr e ↦ (x, get-write s key k q ∙ rw e h, now)
]

Effect-Survives :
    (s t : MemoryStore)
    → Effect s t
    → (k : ProposalKey) (x : StoredProposal) → get s k ≡ some x
    → Survives t k x
unfolding Survives
Effect-Survives s t (same e) k x h = (x, rw e h, now)
Effect-Survives s t (created p absent valid e) k x h = elim (Bool-cases (key_of p == k)) [
  | inl hit ↦ absurd (ground (arith, ap (get s) (key-hit hit)))
  | inr miss ↦ (x, rw e (get-write s (key_of p) k p ∙ rw miss h), now)
]
  where
    key-hit : (key_of p == k) ≡ true → key_of p ≡ k
    key-hit hit = ground arith
Effect-Survives s t (advanced key p q found a b entry e) k x h =
    rw e (write-Survives s key p q found a k x h)
Effect-Survives s t (claimed key p q found a b authorised starts free e) k x h =
    let c = claim s (claim_key_of p) key.proposal in
    rw e (
      write-Survives c key p q (get-claim s (claim_key_of p) key.proposal key ∙ found) a k x
        (get-claim s (claim_key_of p) key.proposal k ∙ h))

pub run-Survives :
    (s : MemoryStore) (calls : List StoreCall) (k : ProposalKey) (p : StoredProposal)
    → get s k ≡ some p
    → (q : StoredProposal) × (get (run s calls) k ≡ some q) × Evolves p q
unfolding run Survives
run-Survives s [] k p h = (p, h, now)
run-Survives s (c ∷ calls) k p h =
    let (q, found, a) = Effect-Survives s (step s c) (step-Effect s c) k p h in
    let (r, found', b) = run-Survives (step s c) calls k q found in (r, found', Evolves-trans a b)

-- Whatever calls follow, a stored record stays under its key; its tenant, reference, action type,
-- effect and creation time stay; its revision never falls, and while it does not rise the whole
-- record stays; and a status that is final stays.
pub run_history :
    (s : MemoryStore) (calls : List StoreCall) (k : ProposalKey) (p : StoredProposal)
    → get s k ≡ some p
    → (q : StoredProposal) × (get (run s calls) k ≡ some q)
      × SameIdentity p q
      × (p.revision ≤ q.revision)
      × (q.revision ≡ p.revision → q ≡ p)
      × (final p.lifecycle_status ≡ true → q.lifecycle_status ≡ p.lifecycle_status)
run_history s calls k p h =
    let (q, found, a) = run-Survives s calls k p h in
    (q, found, Evolves-identity a, Evolves-revision a, Evolves-same a, Evolves-final a)

-- A write that expects an old revision is refused, and writes nothing.
compare_stale :
    (s : MemoryStore) (k : ProposalKey) (p : StoredProposal) (revision : ℕ)
    (statuses : List LifecycleStatus) (u : StoredProposal)
    → get s k ≡ some p
    → revision < p.revision
    → compare_and_set k revision statuses u s ≡ (ok false, s)
unfolding compare_and_set
compare_stale s k p revision statuses u found old = rw (found, compare_and_set) (ground arith)

-- What a successful compare-and-set has found.
pub compare_and_set_success :
    (s t : MemoryStore) (k : ProposalKey) (revision : ℕ) (statuses : List LifecycleStatus)
    (u : StoredProposal)
    → compare_and_set k revision statuses u s ≡ (ok true, t)
    → (p : StoredProposal) × (get s k ≡ some p)
      × (p.revision ≡ revision)
      × (contains statuses p.lifecycle_status ≡ true)
      × (validate_proposal_update p u ≡ ok tt)
      × (enters_unclaimed s p u ≡ false)
      × (t ≡ write s k u)
unfolding compare_and_set
compare_and_set_success s t k revision statuses u h = elim (Option-cases (get s k)) [
  | inl e ↦ absurd (ground arith)
  | inr (p, e) ↦ (p, e, ground arith, ground arith, ground arith, ground arith, ground arith)
]

compare_writes :
    (s t : MemoryStore) (k : ProposalKey) (revision : ℕ) (statuses : List LifecycleStatus)
    (u : StoredProposal)
    → compare_and_set k revision statuses u s ≡ (ok true, t)
    → (get t k ≡ some u) × (u.revision ≡ revision + 1)
compare_writes s t k revision statuses u h =
    let (p, found, rev, member, valid, entry, e) =
      compare_and_set_success s t k revision statuses u h in
    let (a, bound) = validate_proposal_update-Advance p u valid in
    (rw e (get-write s k k u ∙ ground arith), omega (arith, a.revision))

-- No lost update: once a compare-and-set has succeeded, every later one that expects the same
-- revision of the same proposal fails and changes nothing, whatever calls were made in between.
pub compare_and_set_once :
    (s t : MemoryStore) (k : ProposalKey) (revision : ℕ) (statuses statuses' : List LifecycleStatus)
    (u u' : StoredProposal) (calls : List StoreCall)
    → compare_and_set k revision statuses u s ≡ (ok true, t)
    → compare_and_set k revision statuses' u' (run t calls) ≡ (ok false, run t calls)
compare_and_set_once s t k revision statuses statuses' u u' calls h =
    let (found, next) = compare_writes s t k revision statuses u h in
    let (q, found', a) = run-Survives t calls k u found in
    compare_stale (run t calls) k q revision statuses' u' found'
      (omega (arith, Evolves-revision a, next))
