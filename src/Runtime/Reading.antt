-- ===== src/Runtime/Reading.antt =====
-- What the reading projections leave alone.
use threvo_actions.Prelude.{◌≡◌, refl, Bool, Option, none, some, List, if◌then◌else◌}
use threvo_actions.Model.{SafeReference, Timestamp, RequestingPrincipal, lifecycle_status_eq}
use threvo_actions.Result.{Error, Result, ok, err, proposal_not_found}
use threvo_actions.Authority.{AuthorityEvidence}
use threvo_actions.Proposal.{StoredProposal}
use threvo_actions.Registry.{ActionDefinition, ReadContext}
use threvo_actions.Evidence.{Exporter}
use threvo_actions.Exec.{Environment, World, raise, clock_now, ◌>>=◌}
use threvo_actions.Exec.Keeps.{
  Keeps, keeps_rules, Keeps-if, Keeps-pure, Keeps-raise, Keeps-lift, Keeps-bind, Keeps-attempt,
}
use threvo_actions.Exec.Alone.{IsAlone, IsPassive, IsAt-IsPassive}
use threvo_actions.Runtime.Common.{
  check_required, required, store_get, context_for, execution_context, is_erased,
}
use threvo_actions.Runtime.Read.{
  uncertain, read_claim, may_show_owner, confirm_owner, other_owner, owner_of, read_effect_owner,
  readable_record, read, recovery_view, read_recovery, export_evidence, observation_context,
}

-- One call of a projection.
pub data Projection : Type 0 where
  reads reads_recovery observes : SafeReference → ReadContext → Projection
  exports : Exporter → SafeReference → ReadContext → Projection

module _ (env : Environment) (d : ActionDefinition) where
  unfoldable pub project : Projection → World → World
  project (reads r c) w = (read env d r c w).1
  project (reads_recovery r c) w = (read_recovery env d r c w).1
  project (observes r c) w = (observation_context env d r c w).1
  project (exports exporter r c) w = (export_evidence env d exporter r c w).1

module _ {P : World → Type 0} (env : Environment) (d : ActionDefinition)
    (passive : IsPassive env P) where
  pub clock_now-Keeps : Keeps P (clock_now env)
  unfolding clock_now
  clock_now-Keeps = passive.asks _

  pub store_get-Keeps : (t r : SafeReference) → Keeps P (store_get env t r)
  unfolding store_get
  store_get-Keeps t r = passive.queries _

  pub read_claim-Keeps : (p : StoredProposal) → Keeps P (read_claim env d p)
  unfolding read_claim
  read_claim-Keeps p = passive.queries _

  check_required-Keeps :
      (t r : SafeReference) (o : Option StoredProposal) → Keeps P (check_required env t r o)
  unfolding check_required
  check_required-Keeps t r none = search keeps_rules
  check_required-Keeps t r (some p) = search keeps_rules

  required-Keeps : (t r : SafeReference) → Keeps P (required env t r)
  unfolding required
  required-Keeps t r = search (keeps_rules, store_get-Keeps, check_required-Keeps)

  readable_record-Keeps :
      (r : SafeReference) (c : ReadContext) → Keeps P (readable_record env d r c)
  unfolding readable_record
  readable_record-Keeps r c =
      search (Keeps-bind, Keeps-if, Keeps-pure, Keeps-raise, required-Keeps, passive.asks) depth 8

  context_for-Keeps :
      (p : StoredProposal) (at : Timestamp) (l : List AuthorityEvidence)
      (o : Option RequestingPrincipal)
      → Keeps P (context_for p at l o)
  unfolding context_for
  context_for-Keeps p at l none = Keeps-raise _
  context_for-Keeps p at l (some q) = Keeps-pure _

  uncertain-Keeps : (e : Error) → Keeps P (uncertain e)
  unfolding uncertain
  uncertain-Keeps e = search (Keeps-if, Keeps-pure, Keeps-raise)

  pub may_show_owner-Keeps :
      (p : StoredProposal) (o : Option StoredProposal) (r : SafeReference) (c : ReadContext)
      → Keeps P (may_show_owner env d p o r c)
  unfolding may_show_owner
  may_show_owner-Keeps p none r c = Keeps-pure _
  may_show_owner-Keeps p (some q) r c = Keeps-if _ _ _ (passive.asks _) (Keeps-pure _)

  confirm_owner-Keeps :
      (owner : SafeReference) (b : Bool) (o : Option StoredProposal) (at : Timestamp)
      (x : Result (Option SafeReference))
      → Keeps P (confirm_owner env d owner b o at x)
  unfolding confirm_owner
  confirm_owner-Keeps owner b o at (err e) = uncertain-Keeps e
  confirm_owner-Keeps owner b o at (ok x) = Keeps-pure _

  pub other_owner-Keeps :
      (p : StoredProposal) (r : SafeReference) (c : ReadContext) (at : Timestamp)
      → Keeps P (other_owner env d p r c at)
  unfolding other_owner
  other_owner-Keeps p r c at =
      search
        (
          Keeps-bind, Keeps-attempt, store_get-Keeps, may_show_owner-Keeps, read_claim-Keeps,
          confirm_owner-Keeps,
        )
        depth 8

  owner_of-Keeps :
      (p : StoredProposal) (c : ReadContext) (at : Timestamp) (x : Result (Option SafeReference))
      → Keeps P (owner_of env d p c at x)
  unfolding owner_of
  owner_of-Keeps p c at (err e) = uncertain-Keeps e
  owner_of-Keeps p c at (ok none) = Keeps-pure _
  owner_of-Keeps p c at (ok (some r)) = Keeps-if _ _ _ (Keeps-pure _) (other_owner-Keeps p r c at)

  recovery_view-Keeps :
      (p : StoredProposal) (c : ReadContext) (at : Timestamp) → Keeps P (recovery_view env d p c at)
  unfolding recovery_view read_effect_owner
  recovery_view-Keeps p c at =
      search (Keeps-if, Keeps-pure, Keeps-bind, Keeps-attempt, read_claim-Keeps, owner_of-Keeps)
        depth 8

  observe_record-Keeps :
      (p : StoredProposal)
      → Keeps P (
          if is_erased p then raise proposal_not_found else (do
            observed_at ← clock_now env
            execution_context p observed_at p.authority_evidence))
  unfolding execution_context
  observe_record-Keeps p =
      search (Keeps-if, Keeps-raise, Keeps-bind, clock_now-Keeps, context_for-Keeps)

  pub read_recovery-Keeps :
      (r : SafeReference) (c : ReadContext) → Keeps P (read_recovery env d r c)
  unfolding read_recovery
  read_recovery-Keeps r c =
      Keeps-bind _ _ (readable_record-Keeps r c)
        (λ p. Keeps-bind _ _ clock_now-Keeps (λ at. recovery_view-Keeps p c at))

  project-Keeps : (o : Projection) (w : World) → P w → P (project env d o w)
  unfolding project read observation_context export_evidence
  project-Keeps (reads r c) w h =
      (Keeps-bind _ _ (readable_record-Keeps r c) (λ p. Keeps-pure _)).at w h
  project-Keeps (reads_recovery r c) w h = (read_recovery-Keeps r c).at w h
  project-Keeps (observes r c) w h =
      (Keeps-bind _ _ (readable_record-Keeps r c) observe_record-Keeps).at w h
  project-Keeps (exports exporter r c) w h =
      (Keeps-bind _ _ (readable_record-Keeps r c)
          (λ p. Keeps-bind _ _ clock_now-Keeps (λ at. Keeps-lift _))).at
        w h

-- A projection writes nothing and is not observed: while nobody else calls the store, it leaves the
-- store and the trace as they were, whatever the host and the adapter answer.
pub project_passive :
    (env : Environment) (d : ActionDefinition) (o : Projection) (w : World)
    → IsAlone env
    → ((project env d o w).store ≡ w.store) × ((project env d o w).trace ≡ w.trace)
project_passive env d o w alone =
    let h =
      project-Keeps env d (IsAt-IsPassive env alone) o w (record { store = refl; trace = refl }) in
    (h.store, h.trace)
