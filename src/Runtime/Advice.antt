-- ===== src/Runtime/Advice.antt =====
-- What `read_recovery` advises, and what the store holds when it does.
use threvo_actions.Prelude.{
  ℕ, ◌≡◌, ◌<◌, ◌⊎◌, inl, inr, refl, Bool, true, false, Option, none, some, List, [], ◌∷◌,
  if◌then◌else◌, arith, ◌!=◌, string_eq, option_eq,
}
use threvo_actions.Model.{
  SafeReference, Timestamp, LifecycleStatus, lifecycle_status_eq, action_type_eq,
}
use threvo_actions.Result.{Error, Result, ok, err}
use threvo_actions.Proposal.{StoredProposal}
use threvo_actions.Store.{MemoryStore, ProposalKey, get, claim_owner, claim_key_of}
use threvo_actions.Registry.{ActionDefinition, ReadContext}
use threvo_actions.Recovery.{
  ActionEffectOwnership, unclaimed, owned_by_this_proposal, observation_uncertain,
  ActionRecoveryOwnerView, ActionRecoveryView, ActionRecoveryStep, execute, recovery_step,
  recommended, recovery_condition, pending_condition,
}
use threvo_actions.Exec.{Environment, Event, World, clock_now}
use threvo_actions.Exec.Alone.{IsAlone, IsAt, IsAt-IsPassive}
use threvo_actions.Exec.Returns.{
  Returns, Returns-pure, Returns-raise, Returns-if, Returns-bind, Returns-ask, Returns-map,
}
use threvo_actions.Exec.Finds.{
  Finds, Finds-pure, Finds-raise, Finds-if, Finds-test, Finds-of, Finds-attempt, Finds-bind,
  Finds-query,
}
use threvo_actions.Runtime.Common.{is_erased, store_key, store_get, check_required, required}
use threvo_actions.Runtime.Read.{
  Ownership, uncertain, read_claim, shown_owner, confirm_owner, other_owner, owner_of,
  read_effect_owner, readable_record, recovery_view, read_recovery, erased_view, live_view,
  condition_of, contested_condition, is_contested,
}
use threvo_actions.Runtime.Reading.{other_owner-Keeps}

-- The view of a live proposal has one step, which is to execute exactly if the proposal is authorized,
-- the view is taken before its expiry, and its effect is owned by nobody or by the proposal itself.
pub execute_advised :
    (p : StoredProposal) (at : Timestamp) (ownership : ActionEffectOwnership)
    (owner : Option ActionRecoveryOwnerView)
    → (step : ActionRecoveryStep) × ((live_view p at ownership owner).recommended_steps ≡ step ∷ [])
      × (step.operation ≡ execute
          → (p.lifecycle_status ≡ LifecycleStatus.authorized)
            × (at < p.expires_at)
            × ((ownership ≡ unclaimed) ⊎ (ownership ≡ owned_by_this_proposal)))
      × (p.lifecycle_status ≡ LifecycleStatus.authorized
          → at < p.expires_at
          → (ownership ≡ unclaimed) ⊎ (ownership ≡ owned_by_this_proposal)
          → step.operation ≡ execute)
unfolding live_view recovery_step recommended contested_condition condition_of recovery_condition
    pending_condition is_contested
execute_advised p at ownership owner = (
  _,
  refl,
  (λ h. (ground arith, ground arith, ground arith)),
  (λ authorized live free. ground arith),
)

-- What a view that advises to execute rests on: the stored proposal, and the time of a clock reading.
pub record IsReady (env : Environment) (s : MemoryStore) (key : ProposalKey)
    (v : ActionRecoveryView) : Type 0 where
  pub proposal : StoredProposal
  pub moment : ℕ
  pub stored : get s key ≡ some proposal
  pub authorized : proposal.lifecycle_status ≡ LifecycleStatus.authorized
  pub live : is_erased proposal ≡ false
  pub read_at : v.observed_at ≡ env.clock moment
  pub unexpired : v.observed_at < proposal.expires_at
  pub free :
      (claim_owner s (claim_key_of proposal) ≡ none)
      ⊎ (claim_owner s (claim_key_of proposal) ≡ some proposal.proposal_reference)

-- The view has one step, and advises to execute only what is ready.
pub record IsCandid (env : Environment) (s : MemoryStore) (key : ProposalKey)
    (v : ActionRecoveryView) : Type 0 where
  pub step : ActionRecoveryStep
  pub only_step : v.recommended_steps ≡ step ∷ []
  pub ready : step.operation ≡ execute → IsReady env s key v

-- What an answer on the ownership says of the store.
abbrev IsKnown : MemoryStore → StoredProposal → Ownership → Type 0
IsKnown s p o =
    (o.0 ≡ unclaimed → claim_owner s (claim_key_of p) ≡ none)
    × (o.0 ≡ owned_by_this_proposal → claim_owner s (claim_key_of p) ≡ some p.proposal_reference)

abbrev IsOther : Ownership → Type 0
IsOther o = is_contested o.0 ≡ true

other-IsKnown : (s : MemoryStore) (p : StoredProposal) (o : Ownership) → IsOther o → IsKnown s p o
unfolding is_contested
other-IsKnown s p o other = (λ e. ground (arith, other, e), λ e. ground (arith, other, e))

uncertain-IsOther : (e : Error) → Returns IsOther (uncertain e)
unfolding uncertain is_contested
uncertain-IsOther e = Returns-if _ _ _ (Returns-pure _ refl) (Returns-raise _)

module _ (env : Environment) (d : ActionDefinition) where
  shown_owner-IsOther :
      (may_show : Bool) (o : Option StoredProposal) (at : Timestamp)
      → IsOther (shown_owner env d may_show o at)
  unfolding shown_owner is_contested
  shown_owner-IsOther true (some o) at = refl
  shown_owner-IsOther true none at = refl
  shown_owner-IsOther false o at = refl

  confirm_owner-IsOther :
      (owner : SafeReference) (may_show : Bool) (o : Option StoredProposal) (at : Timestamp)
      (r : Result (Option SafeReference))
      → Returns IsOther (confirm_owner env d owner may_show o at r)
  unfolding confirm_owner is_contested
  confirm_owner-IsOther owner may_show o at (err e) = uncertain-IsOther e
  confirm_owner-IsOther owner may_show o at (ok confirmed) =
      Returns-pure _ (chosen (confirmed != some owner) _ (shown_owner-IsOther may_show o at))
    where
      chosen :
          (b : Bool) (x : Ownership)
          → IsOther x
          → IsOther (if b then (observation_uncertain, none) else x)
      chosen true x other = refl
      chosen false x other = other

  other_owner-IsOther :
      (p : StoredProposal) (r : SafeReference) (c : ReadContext) (at : Timestamp)
      → Returns IsOther (other_owner env d p r c at)
  unfolding other_owner
  other_owner-IsOther p r c at = Returns-bind _ _ (λ o.
      Returns-bind _ _ (λ may_show.
        Returns-bind _ _ (λ confirmed. confirm_owner-IsOther r may_show o at confirmed)))

module _ (s : MemoryStore) (env : Environment) where
  live_view-IsCandid :
      (key : ProposalKey) (p : StoredProposal) (at : Timestamp) (n : ℕ) (o : Ownership)
      → get s key ≡ some p
      → is_erased p ≡ false
      → at ≡ env.clock n
      → IsKnown s p o
      → IsCandid env s key (live_view p at o.0 o.1)
  unfolding live_view
  live_view-IsCandid key p at n o stored live reading known =
      let (step, only, needs, suffices) = execute_advised p at o.0 o.1 in
      record {
        step = step;
        only_step = only;
        ready = λ h.
            let (authorized, unexpired, ownership) = needs h in
            record {
              proposal = p;
              moment = n;
              stored = stored;
              authorized = authorized;
              live = live;
              read_at = reading;
              unexpired = unexpired;
              free = elim ownership [ inl e ↦ inl (known.0 e) | inr e ↦ inr (known.1 e) ];
            };
      }

  erased_view-IsCandid :
      (key : ProposalKey) (p : StoredProposal) (at : Timestamp)
      → IsCandid env s key (erased_view p at)
  unfolding erased_view recovery_step recommended
  erased_view-IsCandid key p at = record { step = _; only_step = refl; ready = λ h. cc }

module _ (s : MemoryStore) (es : List Event) (env : Environment) (d : ActionDefinition)
    (alone : IsAlone env) where
  owner_of-IsKnown :
      (p : StoredProposal) (c : ReadContext) (at : Timestamp) (r : Result (Option SafeReference))
      → ((o : Option SafeReference) → r ≡ ok o → claim_owner s (claim_key_of p) ≡ o)
      → Finds (IsAt s es) (IsKnown s p) (owner_of env d p c at r)
  unfolding owner_of uncertain
  owner_of-IsKnown p c at (err e) known =
      Finds-if _ _ _ (Finds-pure (observation_uncertain, none) (λ f. cc, λ f. cc)) (Finds-raise _)
  owner_of-IsKnown p c at (ok none) known = Finds-pure _ (λ h. known none refl, λ h. cc)
  owner_of-IsKnown p c at (ok (some owner)) known =
      Finds-test _ _ _
        (λ h.
          Finds-pure (owned_by_this_proposal, none)
            (λ f. cc, λ f. ground (arith, known (some owner) refl, h)))
        (λ h.
          Finds-of _ (other_owner-Keeps env d (IsAt-IsPassive env alone) p owner c at)
            (Returns-map _ (other-IsKnown s p) (other_owner-IsOther env d p owner c at)))

  read_effect_owner-IsKnown :
      (p : StoredProposal) (c : ReadContext) (at : Timestamp)
      → Finds (IsAt s es) (IsKnown s p) (read_effect_owner env d p c at)
  unfolding read_effect_owner read_claim
  read_effect_owner-IsKnown p c at =
      Finds-bind _ _ (Finds-attempt _ (Finds-query env s es _ alone))
        (λ r known. owner_of-IsKnown p c at r (λ o e. ground (arith, known o e)))

  -- A record that is found and answers to the key that was asked.
  check_required-stored :
      (t r : SafeReference) (o : Option StoredProposal)
      → get s (store_key t r) ≡ o
      → Finds (IsAt s es) (λ p. get s (store_key t r) ≡ some p) (check_required env t r o)
  unfolding check_required
  check_required-stored t r none found = Finds-raise _
  check_required-stored t r (some p) found = Finds-if _ _ _ (Finds-raise _) (Finds-pure _ found)

  readable_record-stored :
      (r : SafeReference) (c : ReadContext)
      → Finds
          (IsAt s es)
          (λ p. get s (store_key c.tenant_reference r) ≡ some p)
          (readable_record env d r c)
  unfolding readable_record required store_get
  readable_record-stored r c =
      Finds-bind _ _
        (Finds-bind _ _ (Finds-query env s es _ alone)
          (λ o found. check_required-stored _ r o (ground (arith, found))))
        (λ p stored. Finds-if _ _ _ (Finds-raise _) (
          Finds-bind _ _
            (Finds-of {F = λ b. Unit {0}} _ ((IsAt-IsPassive env alone).asks _)
              (record { value = λ w b same. tt }))
            (λ allowed x. Finds-if _ _ _ (Finds-pure _ stored) (Finds-raise _))))

  recovery_view-IsCandid :
      (key : ProposalKey) (p : StoredProposal) (c : ReadContext) (at : Timestamp) (n : ℕ)
      → get s key ≡ some p
      → at ≡ env.clock n
      → Finds (IsAt s es) (IsCandid env s key) (recovery_view env d p c at)
  unfolding recovery_view
  recovery_view-IsCandid key p c at n stored reading =
      Finds-test _ _ _ (λ h. Finds-pure _ (erased_view-IsCandid s env key p at))
        (λ live. Finds-bind _ _ (read_effect_owner-IsKnown p c at) (λ o known.
          Finds-pure _ (live_view-IsCandid s env key p at n o stored live reading known)))

  clock_now-read : Finds (IsAt s es) (λ at. (n : ℕ) × (at ≡ env.clock n)) (clock_now env)
  unfolding clock_now
  clock_now-read =
      Finds-of _ ((IsAt-IsPassive env alone).asks _)
        (Returns-map _ (λ at (n, e). (n, ground (arith, e))) (Returns-ask _))

  read_recovery-Finds :
      (r : SafeReference) (c : ReadContext)
      → Finds
          (IsAt s es)
          (IsCandid env s (store_key c.tenant_reference r))
          (read_recovery env d r c)
  unfolding read_recovery
  read_recovery-Finds r c = Finds-bind _ _ (readable_record-stored r c) (λ p stored.
      Finds-bind _ _ clock_now-read
        (λ at (n, reading). recovery_view-IsCandid _ p c at n stored reading))

-- While nobody else calls the store, the one step of a recovery view is to execute only if the store
-- holds the proposal, authorized, neither erased nor being erased, and not expired at the time of the
-- view, which the clock gave; and the store's claim of its effect is nobody's or the proposal's own:
-- whatever the store's adapter and the host answered on the way.
pub read_recovery-IsCandid :
    (env : Environment) (d : ActionDefinition) (r : SafeReference) (c : ReadContext) (w : World)
    (v : ActionRecoveryView)
    → IsAlone env
    → (read_recovery env d r c w).0 ≡ ok v
    → IsCandid env w.store (store_key c.tenant_reference r) v
read_recovery-IsCandid env d r c w v alone =
    (read_recovery-Finds w.store w.trace env d alone r c).value w
      (record { store = refl; trace = refl }) v
