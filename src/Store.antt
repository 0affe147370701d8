-- ===== src/Store.antt =====
-- stores/memory.py: the in-memory store. Each method runs under one lock, so it is one step on the
-- state; a method that raises leaves the state as it was.
pub mod Laws
pub mod Effect
pub mod Soundness
pub mod History
pub mod Admission
pub mod Erasure
pub mod Board
use native.Mathlib.Decide.{ℕ_discrete}
use threvo_actions.Prelude.{
  ℕ, String-discrete, Bool, true, false, not, ◌&&◌, ◌||◌, Option, none, some, List, Eq, ◌==◌, ◌!=◌,
  contains, leb, is_some, is_none, [], ◌∷◌, if◌then◌else◌, nat_eq, string_eq, option_eq,
}
use threvo_actions.Prelude.Dict
use threvo_actions.Prelude.Dict.{Dict}
use threvo_actions.Model.{
  SafeReference, Timestamp, ActionType, LifecycleStatus, authorized, executing, failed_known, stale,
  lifecycle_status_eq,
}
use threvo_actions.Result.{Result, ok, err, proposal_already_exists, store_invariant}
use threvo_actions.Proposal.{
  StoredProposal, EffectClaimResult, acquired, owned_by_proposal, conflict, not_found,
  not_authorized, erasable, proposal_with_erasure_pending, erased_proposal,
}
use threvo_actions.Proposal.Validate.{validate_proposal_create, validate_proposal_update}

-- `_action_key` and the keys of the two dictionaries.
pub record ActionKey : Type 0 where
  pub namespace : SafeReference
  pub name : SafeReference
  pub version : ℕ

unfoldable pub action_key : ActionType → ActionKey
action_key t = record { namespace = t.namespace; name = t.name; version = t.version }

pub record ProposalKey : Type 0 where
  pub tenant : SafeReference
  pub proposal : SafeReference

pub record ClaimKey : Type 0 where
  pub tenant : SafeReference
  pub action : ActionKey
  pub effect : SafeReference

unfoldable pub ActionKey-discrete : Discrete ActionKey
ActionKey-discrete = hlevel (String-discrete, ℕ_discrete)

unfoldable pub ProposalKey-discrete : Discrete ProposalKey
ProposalKey-discrete = hlevel String-discrete

unfoldable pub ClaimKey-discrete : Discrete ClaimKey
ClaimKey-discrete = hlevel (String-discrete, ActionKey-discrete)

instance abbrev pub action_key_eq : Eq ActionKey
action_key_eq = record { discrete = ActionKey-discrete }

instance abbrev pub proposal_key_eq : Eq ProposalKey
proposal_key_eq = record { discrete = ProposalKey-discrete }

instance abbrev pub claim_key_eq : Eq ClaimKey
claim_key_eq = record { discrete = ClaimKey-discrete }

pub record MemoryStore : Type 0 where
  pub proposals : Dict ProposalKey StoredProposal
  pub effect_claims : Dict ClaimKey SafeReference

unfoldable pub new_store : MemoryStore
new_store = record { proposals = Dict.empty; effect_claims = Dict.empty }

abbrev pub key_of : StoredProposal → ProposalKey
key_of p = record { tenant = p.tenant_reference; proposal = p.proposal_reference }

abbrev pub claim_key_of : StoredProposal → ClaimKey
claim_key_of p = record {
  tenant = p.tenant_reference;
  action = action_key p.action_type;
  effect = p.semantic_effect_reference;
}

unfoldable pub get : MemoryStore → ProposalKey → Option StoredProposal
get s key = Dict.get s.proposals key

unfoldable pub claim_owner : MemoryStore → ClaimKey → Option SafeReference
claim_owner s key = Dict.get s.effect_claims key

-- `self._proposals[key] = proposal`
unfoldable pub write : MemoryStore → ProposalKey → StoredProposal → MemoryStore
write s key p = record s { proposals = Dict.put s.proposals key p }

unfoldable pub claim : MemoryStore → ClaimKey → SafeReference → MemoryStore
claim s key owner = record s { effect_claims = Dict.put s.effect_claims key owner }

unfoldable pub create : StoredProposal → MemoryStore → Result (Unit {0}) × MemoryStore
create p s = elim (get s (key_of p)) [
  | some _ ↦ (err proposal_already_exists, s)
  | none ↦ elim (validate_proposal_create p) [
    | err e ↦ (err e, s)
    | ok _ ↦ (ok tt, write s (key_of p) p)
  ]
]

-- The claim test that guards a write which enters `executing`.
unfoldable pub enters_unclaimed : MemoryStore → StoredProposal → StoredProposal → Bool
enters_unclaimed s current updated =
    updated.lifecycle_status == executing
    && (current.lifecycle_status != executing
        && claim_owner s (claim_key_of current) != some current.proposal_reference)

unfoldable pub compare_and_set :
    ProposalKey
    → ℕ
    → List LifecycleStatus
    → StoredProposal
    → MemoryStore
    → Result Bool × MemoryStore
compare_and_set key expected_revision expected_statuses updated s = elim (get s key) [
  | none ↦ (ok false, s)
  | some current ↦
      if current.revision != expected_revision
      then (ok false, s)
      else if not (contains expected_statuses current.lifecycle_status)
      then (ok false, s)
      else elim (validate_proposal_update current updated) [
        | err e ↦ (err e, s)
        | ok _ ↦
            if enters_unclaimed s current updated
            then (
              err (
                  store_invariant
                    "execution requires this proposal to own the semantic effect claim"),
              s,
            )
            else (ok true, write s key updated)
      ]
]

-- The owner's record lets another proposal take over its claim.
unfoldable pub releases_claim : Option StoredProposal → Bool
releases_claim none = false
releases_claim (some p) = p.lifecycle_status == failed_known || p.lifecycle_status == stale

-- `_claim_effect_locked`
unfoldable pub claim_effect_locked :
    ClaimKey → SafeReference → MemoryStore → EffectClaimResult × MemoryStore
claim_effect_locked key reference s = elim (claim_owner s key) [
  | none ↦ (acquired, claim s key reference)
  | some owner ↦
      if owner == reference
      then (owned_by_proposal, s)
      else if releases_claim (get s (record { tenant = key.tenant; proposal = owner }))
      then (acquired, claim s key reference)
      else (conflict, s)
]

-- The guard of `admit_execution`.
unfoldable pub admissible : StoredProposal → ℕ → Timestamp → Bool
admissible current expected_revision admitted_at = not (
    current.revision != expected_revision
    || (current.lifecycle_status != authorized
        || (is_some current.erasure_pending_at
            || (is_some current.erased_at || leb current.expires_at admitted_at))))

-- The end of `admit_execution`: a claim that is in conflict writes nothing.
unfoldable pub write_claimed :
    ProposalKey
    → StoredProposal
    → EffectClaimResult × MemoryStore
    → Result EffectClaimResult × MemoryStore
write_claimed key updated (conflict, s) = (ok conflict, s)
write_claimed key updated (granted, s) = (ok granted, write s key updated)

unfoldable pub admit_execution :
    ProposalKey
    → ℕ
    → Timestamp
    → StoredProposal
    → MemoryStore
    → Result EffectClaimResult × MemoryStore
admit_execution key expected_revision admitted_at updated s = elim (get s key) [
  | none ↦ (ok not_found, s)
  | some current ↦
      if not (admissible current expected_revision admitted_at)
      then (ok not_authorized, s)
      else elim (validate_proposal_update current updated) [
        | err e ↦ (err e, s)
        | ok _ ↦
            if updated.lifecycle_status != executing
            then (err (store_invariant "execution admission must enter executing"), s)
            else write_claimed key updated
                (claim_effect_locked (claim_key_of current) key.proposal s)
      ]
]

-- The guard of `mark_erasure_pending`.
unfoldable pub markable : StoredProposal → ℕ → Bool
markable current expected_revision = not (
    current.revision != expected_revision
    || (not (erasable current.lifecycle_status) || is_some current.erased_at))

unfoldable pub mark_erasure_pending :
    ProposalKey → ℕ → Timestamp → MemoryStore → Result Bool × MemoryStore
mark_erasure_pending key expected_revision pending_at s = elim (get s key) [
  | none ↦ (ok false, s)
  | some current ↦
      if not (markable current expected_revision)
      then (ok false, s)
      else if is_some current.erasure_pending_at
      then (ok true, s)
      else (ok true, write s key (proposal_with_erasure_pending current pending_at))
]

-- The guard of `complete_erasure`.
unfoldable pub completable : StoredProposal → ℕ → Bool
completable current expected_revision = not (
    current.revision != expected_revision
    || (is_none current.erasure_pending_at || is_some current.erased_at))

unfoldable pub complete_erasure :
    ProposalKey → ℕ → Timestamp → MemoryStore → Result Bool × MemoryStore
complete_erasure key expected_revision erased_at s = elim (get s key) [
  | none ↦ (ok false, s)
  | some current ↦
      if not (completable current expected_revision)
      then (ok false, s)
      else (ok true, write s key (erased_proposal current erased_at))
]

-- One call of a method that may write, whoever makes it.
pub data StoreCall : Type 0 where
  creates : StoredProposal → StoreCall
  compares : ProposalKey → ℕ → List LifecycleStatus → StoredProposal → StoreCall
  admits : ProposalKey → ℕ → Timestamp → StoredProposal → StoreCall
  marks : ProposalKey → ℕ → Timestamp → StoreCall
  completes : ProposalKey → ℕ → Timestamp → StoreCall

-- The state after one call; the lock makes any interleaving of tasks a sequence of these.
unfoldable pub step : MemoryStore → StoreCall → MemoryStore
step s (creates p) = (create p s).1
step s (compares key revision statuses updated) =
    (compare_and_set key revision statuses updated s).1
step s (admits key revision at updated) = (admit_execution key revision at updated s).1
step s (marks key revision at) = (mark_erasure_pending key revision at s).1
step s (completes key revision at) = (complete_erasure key revision at s).1

unfoldable pub run : MemoryStore → List StoreCall → MemoryStore
run s [] = s
run s (c ∷ calls) = run (step s c) calls
