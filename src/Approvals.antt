-- ===== src/Approvals.antt =====
-- approvals.py: evidence-only approval requirements. A set of references is a list without
-- repetitions; only its size is read.
use threvo_actions.Prelude.{
  ℕ, ◌≡◌, ◌≤◌, refl, Bool, true, false, not, ◌&&◌, none, some, List, [], ◌∷◌, length, any, contains,
  if◌then◌else◌, ◌==◌, string_eq, nat_eq, leb, arith, Bool-cases, ◌⊎◌, inl, inr,
}
use threvo_actions.Model.{SafeReference, ConfirmingAuthority}
use threvo_actions.Authority.{
  AuthorityBinding, AuthorityEvidence, approve, authority_decision_eq,
  authority_evidence_matches_binding,
}
use threvo_actions.Registry.{AuthorityEvaluation}

-- `_references`
unfoldable pub references : List ConfirmingAuthority → List SafeReference
references [] = []
references (a ∷ rest) = a.reference ∷ references rest

-- `s | {r}`
unfoldable pub insert : SafeReference → List SafeReference → List SafeReference
insert r s = if contains s r then s else r ∷ s

unfoldable pub to_set : List SafeReference → List SafeReference
to_set [] = []
to_set (r ∷ rest) = insert r (to_set rest)

-- `_validate_authorities`, as the test that it raises on.
unfoldable pub valid_authorities : List ConfirmingAuthority → Bool
valid_authorities [] = false
valid_authorities authorities =
    length (to_set (references authorities)) == length (references authorities)

-- The filter of the set `approving`.
unfoldable pub approves : List SafeReference → AuthorityBinding → AuthorityEvidence → Bool
approves allowed b e =
    e.decision == approve
    && (contains allowed e.authority.reference && authority_evidence_matches_binding e b)

unfoldable pub approving :
    List SafeReference → AuthorityBinding → List AuthorityEvidence → List SafeReference
approving allowed b [] = []
approving allowed b (e ∷ rest) =
    let others = approving allowed b rest in
    if approves allowed b e then insert e.authority.reference others else others

abbrev pub more_authority_required : SafeReference
more_authority_required = "more_authority_required"

-- `_satisfied`
unfoldable pub satisfied_by :
    ℕ → List ConfirmingAuthority → AuthorityBinding → List AuthorityEvidence → AuthorityEvaluation
satisfied_by required authorities b evidence =
    let satisfied = leb required (length (approving (references authorities) b evidence)) in
    record {
      satisfied = satisfied;
      reason_code = if satisfied then none else some more_authority_required;
    }

-- The three requirements.
unfoldable pub single_approval :
    ConfirmingAuthority → AuthorityBinding → List AuthorityEvidence → AuthorityEvaluation
single_approval authority = satisfied_by 1 (authority ∷ [])

unfoldable pub any_approval :
    List ConfirmingAuthority → AuthorityBinding → List AuthorityEvidence → AuthorityEvaluation
any_approval = satisfied_by 1

unfoldable pub m_of_n_approvals :
    ℕ → List ConfirmingAuthority → AuthorityBinding → List AuthorityEvidence → AuthorityEvaluation
m_of_n_approvals = satisfied_by

-- The further test of `MOfNApprovals.__post_init__`.
unfoldable pub valid_m_of_n : ℕ → List ConfirmingAuthority → Bool
valid_m_of_n required authorities =
    valid_authorities authorities && (leb 1 required && leb required (length authorities))

-- No reference stands twice in the list.
unfoldable pub distinct : List SafeReference → Bool
distinct [] = true
distinct (r ∷ rest) = not (contains rest r) && distinct rest

-- Some evidence approves in the name of `r`, an allowed authority, under the binding.
unfoldable pub backed :
    List SafeReference → AuthorityBinding → List AuthorityEvidence → SafeReference → Bool
backed allowed b evidence r = any (λ e. e.authority.reference == r && approves allowed b e) evidence

insert-distinct :
    (r : SafeReference) (s : List SafeReference) → distinct s ≡ true → distinct (insert r s) ≡ true
unfolding insert distinct
insert-distinct r s h = ground arith

contains-insert :
    (r x : SafeReference) (s : List SafeReference)
    → contains (insert r s) x ≡ true
    → (r ≡ x) ⊎ (contains s x ≡ true)
unfolding insert
contains-insert r x s h = ground arith

approving-distinct :
    (allowed : List SafeReference) (b : AuthorityBinding) (es : List AuthorityEvidence)
    → distinct (approving allowed b es) ≡ true
unfolding approving distinct
approving-distinct allowed b [] = refl
approving-distinct allowed b (e ∷ es) =
    let rest = approving-distinct allowed b es in
    let added = insert-distinct e.authority.reference (approving allowed b es) rest in
    elim (Bool-cases (approves allowed b e)) [ inl h ↦ rw h added | inr h ↦ rw h rest ]

approving-backed :
    (allowed : List SafeReference) (b : AuthorityBinding) (es : List AuthorityEvidence)
    (r : SafeReference)
    → contains (approving allowed b es) r ≡ true
    → backed allowed b es r ≡ true
unfolding approving backed
approving-backed allowed b [] r h = h
approving-backed allowed b (e ∷ es) r h =
    let rest = approving-backed allowed b es r in
    let either = contains-insert e.authority.reference r (approving allowed b es) in
    ground (arith, rest, either)

-- A requirement of `required` approvals is satisfied only if at least so many different authorities
-- of the declared ones are each named by evidence that approves and matches the binding.
pub approval_sound :
    (required : ℕ) (authorities : List ConfirmingAuthority) (b : AuthorityBinding)
    (evidence : List AuthorityEvidence)
    → (m_of_n_approvals required authorities b evidence).satisfied ≡ true
    → (rs : List SafeReference) × (distinct rs ≡ true)
      × (required ≤ length rs)
      × ((r : SafeReference)
          → contains rs r ≡ true
          → backed (references authorities) b evidence r ≡ true)
unfolding m_of_n_approvals satisfied_by
approval_sound required authorities b evidence h =
    let allowed = references authorities in
    (
      approving allowed b evidence,
      approving-distinct allowed b evidence,
      ground arith,
      approving-backed allowed b evidence,
    )
