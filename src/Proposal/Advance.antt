-- ===== src/Proposal/Advance.antt =====
-- What an accepted update may change: the promise of `validate_proposal_update`.
use threvo_actions.Prelude.{
  ◌∷◌, sym, [], ◌+◌, ◌≡◌, ◌⊎◌, refl, Bool, true, false, List, Eq, ◌==◌, Extends, Extends-take,
  arith, take, length, is_none, is_some, inl, inr, ◌||◌, list_eq, nat_eq,
}
use threvo_actions.Authority.{AuthorityEvidence, authority_evidence_eq}
use threvo_actions.Receipts.{receipt_eq}
use threvo_actions.Result.{Result, ok, Error, require, ◌>>◌}
use mathlib.Core.List.{append-nil}
use threvo_actions.Model.{Timestamp, lifecycle_status_eq}
use threvo_actions.Proposal.{StoredProposal, proposal_with_erasure_pending, erased_proposal}
use threvo_actions.Proposal.Validate.{
  check_evidence, evidence_is_bound, validate_proposal_bindings, same_identity, content_free,
  allowed_transition, erasure_only_advances, validate_proposal_update,
}

-- The fields that no write may change.
pub record SameIdentity (p q : StoredProposal) : Type 0 where
  pub tenant_reference : q.tenant_reference ≡ p.tenant_reference
  pub proposal_reference : q.proposal_reference ≡ p.proposal_reference
  pub action_type : q.action_type ≡ p.action_type
  pub semantic_effect_reference : q.semantic_effect_reference ≡ p.semantic_effect_reference
  pub effect_kind : q.effect_kind ≡ p.effect_kind
  pub created_at : q.created_at ≡ p.created_at

pub SameIdentity-refl : (p : StoredProposal) → SameIdentity p p
SameIdentity-refl p = ground arith

pub SameIdentity-trans :
    {p q r : StoredProposal} → SameIdentity p q → SameIdentity q r → SameIdentity p r
SameIdentity-trans a b = ground arith

pub SameIdentity-check : (p q : StoredProposal) → same_identity p q ≡ true → SameIdentity p q
unfolding same_identity
SameIdentity-check p q h = ground arith

-- `require` in front of a chain that succeeds.
pub require-eq-ok :
    (b : Bool) (e : Error) (m : Result (Unit {0}))
    → (require b e >> m) ≡ ok tt
    → (b ≡ true) × (m ≡ ok tt)
require-eq-ok true e m h = (refl, h)
require-eq-ok false e m h = cc

-- One accepted update: the identity stays, the revision grows by one, history is append-only until
-- erasure, and the status moves along an edge of the lifecycle graph or not at all.
pub record Advance (p q : StoredProposal) : Type 0 where
  pub identity : SameIdentity p q
  pub revision : q.revision ≡ p.revision + 1
  pub erasure : erasure_only_advances p q ≡ true
  pub tombstone : (is_none q.erased_at ≡ true) ⊎ (content_free q ≡ true)
  pub evidence : (is_some q.erased_at ≡ true) ⊎ Extends p.authority_evidence q.authority_evidence
  pub receipts : (is_some q.erased_at ≡ true) ⊎ Extends p.receipts q.receipts
  pub transition : allowed_transition p q ≡ true

or-cases : (a b : Bool) → (a || b) ≡ true → (a ≡ true) ⊎ (b ≡ true)
or-cases true b h = inl refl
or-cases false b h = inr h

pub eq-of-== {ℓ} : {A : Type ℓ} ⦃e : Eq A⦄ (x y : A) → (x == y) ≡ true → x ≡ y
eq-of-== x y h = ground arith

-- An append-only test, read back.
appended {ℓ} :
    {A : Type ℓ} ⦃e : Eq A⦄ (erased : Bool) (old new : List A)
    → (erased || take (length old) new == old) ≡ true
    → (erased ≡ true) ⊎ Extends old new
appended true old new h = inl refl
appended false old new h = inr (Extends-take old new (eq-of-== (take (length old) new) old h))

pub validate_proposal_update-Advance :
    (p q : StoredProposal)
    → validate_proposal_update p q ≡ ok tt
    → Advance p q × (validate_proposal_bindings q ≡ ok tt)
unfolding validate_proposal_update
validate_proposal_update-Advance p q h =
    let (identity, h1) = require-eq-ok _ _ _ h in
    let (revision, h2) = require-eq-ok _ _ _ h1 in
    let (erasure, h3) = require-eq-ok _ _ _ h2 in
    let (tombstone, h4) = require-eq-ok _ _ _ h3 in
    let (evidence, h5) = require-eq-ok _ _ _ h4 in
    let (receipts, h6) = require-eq-ok _ _ _ h5 in
    let (transition, bindings) = require-eq-ok _ _ _ h6 in
    (
      record {
        identity = SameIdentity-check p q identity;
        revision = eq-of-== q.revision (p.revision + 1) revision;
        erasure = erasure;
        tombstone = or-cases (is_none q.erased_at) (content_free q) tombstone;
        evidence =
            appended (is_some q.erased_at) p.authority_evidence q.authority_evidence evidence;
        receipts = appended (is_some q.erased_at) p.receipts q.receipts receipts;
        transition = transition;
      },
      bindings,
    )

-- Marking a live proposal for erasure, and erasing a marked one, are such updates too.
pub mark-Advance :
    (p : StoredProposal) (at : Timestamp)
    → is_some p.erased_at ≡ false
    → Advance p (proposal_with_erasure_pending p at)
unfolding proposal_with_erasure_pending erasure_only_advances allowed_transition
mark-Advance p at live = record {
  identity = ground arith;
  revision = refl;
  erasure = ground arith;
  tombstone = inl (ground arith);
  evidence = inr ([], sym (append-nil p.authority_evidence));
  receipts = inr ([], sym (append-nil p.receipts));
  transition = ground arith;
}

pub erase-Advance : (p : StoredProposal) (at : Timestamp) → Advance p (erased_proposal p at)
unfolding erased_proposal erasure_only_advances allowed_transition content_free
erase-Advance p at = record {
  identity = ground arith;
  revision = refl;
  erasure = ground arith;
  tombstone = inr refl;
  evidence = inl refl;
  receipts = inl refl;
  transition = ground arith;
}

mark-check_evidence :
    (p : StoredProposal) (at : Timestamp) (es : List AuthorityEvidence)
    → check_evidence (proposal_with_erasure_pending p at) es ≡ check_evidence p es
unfolding check_evidence evidence_is_bound proposal_with_erasure_pending
mark-check_evidence p at [] = refl
mark-check_evidence p at (e ∷ es) = rw (mark-check_evidence p at es)

pub mark-bindings :
    (p : StoredProposal) (at : Timestamp)
    → validate_proposal_bindings p ≡ ok tt
    → validate_proposal_bindings (proposal_with_erasure_pending p at) ≡ ok tt
unfolding proposal_with_erasure_pending validate_proposal_bindings
mark-bindings p at h = rw (mark-check_evidence p at p.authority_evidence) h

pub erase-bindings :
    (p : StoredProposal) (at : Timestamp)
    → validate_proposal_bindings (erased_proposal p at) ≡ ok tt
unfolding erased_proposal validate_proposal_bindings
erase-bindings p at = refl
