-- ===== src/Exec/Alone.antt =====
-- Tasks that run alone and only read: they leave the store and the trace as they were.
use threvo_actions.Prelude.{ℕ, ◌≡◌, List, []}
use threvo_actions.Result.{Result}
use threvo_actions.Store.{MemoryStore, run}
use threvo_actions.Exec.{
  Environment, Event, World, Fault, healthy, lost_request, lost_acknowledgement, ask, answer,
  call_store,
}
use threvo_actions.Exec.Keeps.{Keeps, IsStable, Keeps-ask, Keeps-call_store}

-- What a question to the host keeps, and a method of the store that reads.
pub record IsPassive (env : Environment) (P : World → Type 0) : Type 1 where
  pub asks : {A : Type 0} (f : ℕ → Result A) → Keeps P (ask f)
  pub queries :
      {A : Type 0} (question : MemoryStore → Result A)
      → Keeps P (call_store env (λ t. (question t, t)))

pub IsStable-IsPassive : {P : World → Type 0} (env : Environment) → IsStable P → IsPassive env P
IsStable-IsPassive env stable = record {
  asks = Keeps-ask stable;
  queries = λ question. Keeps-call_store stable env _ (λ w h. h);
}

-- Nobody else calls the store.
abbrev pub IsAlone : Environment → Type 0
IsAlone env = (n : ℕ) → env.others n ≡ []

-- The store is `s` and the trace `es`.
pub record IsAt (s : MemoryStore) (es : List Event) (w : World) : Type 0 where
  pub store : w.store ≡ s
  pub trace : w.trace ≡ es

module _ {s : MemoryStore} {es : List Event} where
  ask-IsAt : {A : Type 0} (f : ℕ → Result A) → Keeps (IsAt s es) (ask f)
  unfolding ask
  ask-IsAt f = record { at = λ w h. record { store = h.store; trace = h.trace } }

  answer-IsAt :
      {A : Type 0} (f : Fault) (w : World) (r : Result A)
      → IsAt s es w
      → IsAt s es (answer f w (r, w.store)).1
  unfolding answer
  answer-IsAt healthy w r h = record { store = h.store; trace = h.trace }
  answer-IsAt (lost_acknowledgement e) w r h = record { store = h.store; trace = h.trace }
  answer-IsAt (lost_request e) w r h = record { store = h.store; trace = h.trace }

  -- A method of the store that reads.
  query-IsAt :
      {A : Type 0} (env : Environment) (question : MemoryStore → Result A)
      → IsAlone env
      → Keeps (IsAt s es) (call_store env (λ t. (question t, t)))
  unfolding call_store run
  query-IsAt env question alone = record {
    at = λ w h. rw (alone w.moment) (answer-IsAt (env.faults w.moment) w (question w.store) h);
  }

  pub IsAt-IsPassive : (env : Environment) → IsAlone env → IsPassive env (IsAt s es)
  IsAt-IsPassive env alone = record {
    asks = ask-IsAt;
    queries = λ question. query-IsAt env question alone;
  }
