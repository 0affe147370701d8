-- ===== src/Proposal/Append.antt =====
-- Updates that add one receipt to a live proposal: the store accepts each of them that moves along
-- the lifecycle graph.
use threvo_actions.Prelude.{
  ◌+◌, ◌≡◌, refl, ap, ◌∙◌, Bool, true, false, not, ◌||◌, none, List, [], ◌∷◌, ◌++◌, ◌==◌, ◌!=◌, any,
  arith, Eq, take, length, take-length, take-length_append, is_none, is_some, list_eq, string_eq,
  nat_eq,
}
use threvo_actions.Model.{SafeReference, lifecycle_status_eq}
use threvo_actions.Authority.{AuthorityEvidence, authority_evidence_eq}
use threvo_actions.Receipts.{Receipt, receipt_eq}
use threvo_actions.Result.{Result, ok, err, Error, require, ◌>>◌}
use threvo_actions.Proposal.{StoredProposal}
use threvo_actions.Proposal.Validate.{
  check_evidence, evidence_is_bound, validate_proposal_bindings, same_identity, content_free,
  allowed_transition, erasure_only_advances, validate_proposal_update,
}
use threvo_actions.Proposal.Advance.{SameIdentity}

-- `q` is the live proposal `p` with one more receipt, at another status of the graph.
pub record Appends (p q : StoredProposal) (r : Receipt) : Type 0 where
  pub identity : SameIdentity p q
  pub revision : q.revision ≡ p.revision + 1
  pub commitment : q.commitment ≡ p.commitment
  pub evidence : q.authority_evidence ≡ p.authority_evidence
  pub receipts : q.receipts ≡ p.receipts ++ (r ∷ [])
  pub correlation : r.correlation_reference ≡ p.proposal_reference
  pub pending : q.erasure_pending_at ≡ p.erasure_pending_at
  pub live : q.erased_at ≡ none
  pub transition : allowed_transition p q ≡ true

require-ok :
    (b : Bool) (e : Error) (m : Result (Unit {0}))
    → b ≡ true
    → m ≡ ok tt
    → (require b e >> m) ≡ ok tt
require-ok true e m h h' = h'
require-ok false e m h h' = cc

both-ok : (m n : Result (Unit {0})) → (m >> n) ≡ ok tt → (m ≡ ok tt) × (n ≡ ok tt)
both-ok (ok a) n h = (refl, h)
both-ok (err e) n h = cc

required_true : (b : Bool) (e : Error) → require b e ≡ ok tt → b ≡ true
required_true true e h = refl
required_true false e h = cc

same_bound :
    (p q : StoredProposal)
    → SameIdentity p q
    → q.commitment ≡ p.commitment
    → (e : AuthorityEvidence) → evidence_is_bound q e ≡ evidence_is_bound p e
unfolding evidence_is_bound
same_bound p q same c e = grind (
  arith, c, same.tenant_reference, same.action_type, same.proposal_reference,
  same.semantic_effect_reference,
)

same-check_evidence :
    (p q : StoredProposal)
    → SameIdentity p q
    → q.commitment ≡ p.commitment
    → (es : List AuthorityEvidence) → check_evidence q es ≡ check_evidence p es
unfolding check_evidence
same-check_evidence p q same c [] = refl
same-check_evidence p q same c (e ∷ es) =
    rw (same_bound p q same c e, same-check_evidence p q same c es) refl

one_receipt_more :
    (reference : SafeReference) (rs : List Receipt) (r : Receipt)
    → r.correlation_reference ≡ reference
    → not (any (λ x. x.correlation_reference != reference) rs) ≡ true
    → not (any (λ x. x.correlation_reference != reference) (rs ++ (r ∷ []))) ≡ true
one_receipt_more reference [] r e h = ground arith
one_receipt_more reference (x ∷ rs) r e h =
    let rest = one_receipt_more reference rs r e in ground (arith, rest)

Appends-bindings :
    (p q : StoredProposal) (r : Receipt)
    → Appends p q r
    → validate_proposal_bindings p ≡ ok tt
    → validate_proposal_bindings q ≡ ok tt
unfolding validate_proposal_bindings
Appends-bindings p q r a h =
    let (checked, correlated) = both-ok (check_evidence p p.authority_evidence) _ h in
    let es : check_evidence q q.authority_evidence ≡ ok tt =
      ap (check_evidence q) a.evidence
      ∙ (same-check_evidence p q a.identity a.commitment p.authority_evidence ∙ checked) in
    let rs =
      one_receipt_more p.proposal_reference p.receipts r a.correlation
        (required_true _ _ correlated) in
    rw (es, a.receipts, a.identity.proposal_reference, rs) refl

same_identity-holds : (p q : StoredProposal) → SameIdentity p q → same_identity p q ≡ true
unfolding same_identity
same_identity-holds p q same = ground (
  arith, same.tenant_reference, same.proposal_reference, same.action_type,
  same.semantic_effect_reference, same.effect_kind, same.created_at,
)

taken {ℓ} :
    {A : Type ℓ} ⦃e : Eq A⦄ (old new : List A) (b : Bool)
    → take (length old) new ≡ old
    → (b || take (length old) new == old) ≡ true
taken old new b h = ground (arith, h)

-- Such an update of a proposal whose evidence and receipts are bound to it is accepted.
pub Appends-accepted :
    (p q : StoredProposal) (r : Receipt)
    → Appends p q r
    → validate_proposal_bindings p ≡ ok tt
    → validate_proposal_update p q ≡ ok tt
unfolding validate_proposal_update erasure_only_advances
Appends-accepted p q r a h =
    require-ok (same_identity p q) _ _ (same_identity-holds p q a.identity) (
      require-ok (q.revision == p.revision + 1) _ _ (ground (arith, a.revision)) (
        require-ok (erasure_only_advances p q) _ _ (ground (arith, a.pending)) (
          require-ok (is_none q.erased_at || content_free q) _ _ (ground (arith, a.live)) (
            require-ok
              (is_some q.erased_at
                || take (length p.authority_evidence) q.authority_evidence == p.authority_evidence)
              _ _
              (taken p.authority_evidence q.authority_evidence (is_some q.erased_at) (
                ap (take (length p.authority_evidence)) a.evidence
                ∙ take-length p.authority_evidence))
              (require-ok (is_some q.erased_at || take (length p.receipts) q.receipts == p.receipts)
                _ _
                (taken p.receipts q.receipts (is_some q.erased_at) (
                  ap (take (length p.receipts)) a.receipts
                  ∙ take-length_append p.receipts (r ∷ [])))
                (require-ok (allowed_transition p q) _ _ a.transition
                  (Appends-bindings p q r a h)))))))
