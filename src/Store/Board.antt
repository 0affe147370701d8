-- ===== src/Store/Board.antt =====
-- What a store promises, with no record's contents: of each proposal its status, its revision and
-- its effect, and of each effect the owner of its claim. The store of stores/memory.py refines it.
use threvo_actions.Prelude.{
  ℕ, ◌+◌, ◌≡◌, ◌⊎◌, inl, inr, ap, ◌∙◌, Bool, true, false, Option, none, some, List, [], ◌∷◌, arith,
  ◌==◌, ◌||◌, contains,
}
use threvo_actions.Model.{
  SafeReference, LifecycleStatus, lifecycle_status_eq, awaiting_authority, authorized, executing,
  failed_known, stale,
}
use threvo_actions.Result.{ok}
use threvo_actions.Proposal.{StoredProposal, allowed_lifecycle_transitions}
use threvo_actions.Proposal.Validate.{validate_proposal_create, allowed_transition}
use threvo_actions.Proposal.Advance.{Advance}
use threvo_actions.Store.{
  MemoryStore, ProposalKey, proposal_key_eq, ClaimKey, claim_key_eq, key_of, claim_key_of, get,
  claim_owner, write, claim, releases_claim, StoreCall, step, run,
}
use threvo_actions.Store.Laws.{claim_owner-write, get-write, claim_owner-claim}
use threvo_actions.Store.Effect.{ClaimIsFree, Effect, same, created, advanced, claimed, step-Effect}

-- One proposal as the board shows it.
pub record Entry : Type 0 where
  pub status : LifecycleStatus
  pub revision : ℕ
  pub effect : ClaimKey

pub record Board : Type 0 where
  pub entries : ProposalKey → Option Entry
  pub owners : ClaimKey → Option SafeReference

entry_of : StoredProposal → Entry
entry_of p = record { status = p.lifecycle_status; revision = p.revision; effect = claim_key_of p }

unfoldable pub entry_at : Option StoredProposal → Option Entry
unfolding entry_of
entry_at none = none
entry_at (some p) = some (entry_of p)

unfoldable pub board_of : MemoryStore → Board
board_of s = record { entries = λ k. entry_at (get s k); owners = claim_owner s }

-- An owner whose entry lets another proposal take its claim over.
unfoldable pub has_released : Option Entry → Bool
has_released none = false
has_released (some x) = x.status == failed_known || x.status == stale

-- The claim of an effect is nobody's, or its owner has released it.
abbrev pub IsFree : Board → ClaimKey → Type 0
IsFree b e =
    (b.owners e ≡ none)
    ⊎ ((r : SafeReference) × (b.owners e ≡ some r)
        × (has_released (b.entries (record { tenant = e.tenant; proposal = r })) ≡ true))

-- The board after an entry is put up.
abbrev pub Shows : Board → Board → ProposalKey → Entry → Type 0
Shows b c key y =
    (k : ProposalKey) → c.entries k ≡ elim (key == k) [ true ↦ some y | false ↦ b.entries k ]

-- An entry's next one: the same effect, the next revision and a status that the lifecycle allows.
pub record Turns (x y : Entry) : Type 0 where
  pub effect : y.effect ≡ x.effect
  pub revision : y.revision ≡ x.revision + 1
  pub status :
      (y.status == x.status || contains (allowed_lifecycle_transitions x.status) y.status) ≡ true

-- The steps of a board.
pub data Moves (b c : Board) : Type 0 where
  rests :
      ((k : ProposalKey) → c.entries k ≡ b.entries k)
      → ((e : ClaimKey) → c.owners e ≡ b.owners e)
      → Moves b c
  -- A new proposal awaits its authority.
  enters :
      (key : ProposalKey) (y : Entry)
      → b.entries key ≡ none
      → (y.status ≡ awaiting_authority) × (y.revision ≡ 0)
      → Shows b c key y
      → ((e : ClaimKey) → c.owners e ≡ b.owners e)
      → Moves b c
  -- A proposal turns, and comes to execute only if its effect has an owner or it executed before.
  turns :
      (key : ProposalKey) (x y : Entry)
      → b.entries key ≡ some x
      → Turns x y
      → (y.status ≡ executing
          → (x.status ≡ executing) ⊎ ((r : SafeReference) × (b.owners x.effect ≡ some r)))
      → Shows b c key y
      → ((e : ClaimKey) → c.owners e ≡ b.owners e)
      → Moves b c
  -- An authorized proposal takes the free claim of its effect and executes.
  takes :
      (key : ProposalKey) (x y : Entry)
      → b.entries key ≡ some x
      → Turns x y
      → (x.status ≡ authorized) × (y.status ≡ executing)
      → IsFree b x.effect
      → Shows b c key y
      → ((e : ClaimKey)
          → c.owners e ≡ elim (x.effect == e) [ true ↦ some key.proposal | false ↦ b.owners e ])
      → Moves b c

-- Any number of steps.
pub data Reaches (b : Board) : Board → Type 0 where
  stays : Reaches b b
  then_moves : {c d : Board} → Reaches b c → Moves c d → Reaches b d

entry-Advance : (p q : StoredProposal) → Advance p q → Turns (entry_of p) (entry_of q)
unfolding entry_of allowed_transition
entry-Advance p q a = record {
  effect = let i = a.identity in ground arith;
  revision = a.revision;
  status = a.transition;
}

entry-created :
    (p : StoredProposal)
    → validate_proposal_create p ≡ ok tt
    → (p.lifecycle_status ≡ awaiting_authority) × (p.revision ≡ 0)
unfolding validate_proposal_create
entry-created p h = (ground arith, ground arith)

entry_at-write :
    (s : MemoryStore) (key k : ProposalKey) (p : StoredProposal)
    → entry_at (get (write s key p) k)
      ≡ elim (key == k) [ true ↦ some (entry_of p) | false ↦ entry_at (get s k) ]
unfolding entry_at
entry_at-write s key k p = ap entry_at (get-write s key k p) ∙ ground arith

released : (o : Option StoredProposal) → releases_claim o ≡ true → has_released (entry_at o) ≡ true
unfolding releases_claim has_released entry_at entry_of
released none h = h
released (some p) h = h

freed :
    (s : MemoryStore) (p : StoredProposal) → ClaimIsFree s p → IsFree (board_of s) (claim_key_of p)
unfolding board_of
freed s p (inl e) = inl e
freed s p (inr (r, e, h)) = inr (r, e, released (get s _) h)

-- What one call may do to the store, the board shows as a step.
Effect-Moves : (s t : MemoryStore) → Effect s t → Moves (board_of s) (board_of t)
unfolding board_of entry_of entry_at claim get
Effect-Moves s t (same e) =
    rests (λ k. ap (λ u. entry_at (get u k)) e) (λ c. ap (λ u. claim_owner u c) e)
Effect-Moves s t (created p absent valid e) =
    enters (key_of p) (entry_of p) (ap entry_at absent) (entry-created p valid)
      (λ k. ap (λ u. entry_at (get u k)) e ∙ entry_at-write s (key_of p) k p)
      (λ c. ap (λ u. claim_owner u c) e ∙ claim_owner-write s (key_of p) p c)
Effect-Moves s t (advanced key p q stored a bindings enters_executing e) =
    turns key (entry_of p) (entry_of q) (ap entry_at stored) (entry-Advance p q a)
      (λ h. elim (enters_executing h) [
        | inl before ↦ inl before
        | inr (inl own) ↦ inr (p.proposal_reference, own)
        | inr (inr own) ↦ inr (key.proposal, own)
      ])
      (λ k. ap (λ u. entry_at (get u k)) e ∙ entry_at-write s key k q)
      (λ c. ap (λ u. claim_owner u c) e ∙ claim_owner-write s key q c)
Effect-Moves s t (claimed key p q stored a bindings before after free e) =
    let u = claim s (claim_key_of p) key.proposal in
    takes key (entry_of p) (entry_of q) (ap entry_at stored) (entry-Advance p q a) (before, after)
      (freed s p free) (λ k. ap (λ v. entry_at (get v k)) e ∙ entry_at-write u key k q)
      (λ c.
        ap (λ v. claim_owner v c) e
        ∙ (claim_owner-write u key q c ∙ claim_owner-claim s (claim_key_of p) key.proposal c))

-- The store refines the board: one call of the store is one step of the board that it shows.
pub step-Moves : (s : MemoryStore) (call : StoreCall) → Moves (board_of s) (board_of (step s call))
step-Moves s call = Effect-Moves s (step s call) (step-Effect s call)

Reaches-run :
    (b : Board) (s : MemoryStore) (calls : List StoreCall)
    → Reaches b (board_of s)
    → Reaches b (board_of (run s calls))
unfolding run
Reaches-run b s [] h = h
Reaches-run b s (c ∷ calls) h = Reaches-run b (step s c) calls (then_moves h (step-Moves s c))

-- Whatever calls are made of the store, in any order, the board that it shows then is one that the
-- abstract steps reach from the board that it showed before.
pub run-Reaches :
    (s : MemoryStore) (calls : List StoreCall) → Reaches (board_of s) (board_of (run s calls))
run-Reaches s calls = Reaches-run (board_of s) s calls stays
