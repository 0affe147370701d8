-- ===== src/Exec/Keeps.antt =====
-- Invariants of tasks: one rule for each way to build one.
use threvo_actions.Prelude.{
  ℕ, ◌≡◌, Bool, true, false, Option, none, some, if◌then◌else◌, String, List, [], ◌∷◌, ◌+◌,
}
use threvo_actions.Result.{Error, Result, ok, err}
use threvo_actions.Store.{MemoryStore, StoreCall, step, run}
use threvo_actions.Exec.{
  Environment, Event, World, Exec, Fault, healthy, lost_request, lost_acknowledgement, pure, raise,
  lift, ask, attempt, continue, ◌>>=◌, observe, answer, call_store, is_counted, clock_now,
  new_identifier,
}

-- `m` keeps `P`, whether it returns or raises.
pub record Keeps {A : Type 0} (P : World → Type 0) (m : Exec A) : Type 0 where
  pub at : (w : World) → P w → P (m w).1

module _ {A : Type 0} {P : World → Type 0} where
  pub Keeps-pure : (a : A) → Keeps P (pure a)
  unfolding pure
  Keeps-pure a = record { at = λ w h. h }

  pub Keeps-raise : (e : Error) → Keeps P (raise {A = A} e)
  unfolding raise
  Keeps-raise e = record { at = λ w h. h }

  pub Keeps-lift : (r : Result A) → Keeps P (lift r)
  unfolding lift
  Keeps-lift r = record { at = λ w h. h }

  pub Keeps-attempt : (m : Exec A) → Keeps P m → Keeps P (attempt m)
  unfolding attempt
  Keeps-attempt m k = record { at = k.at }

  pub Keeps-if : (b : Bool) (m n : Exec A) → Keeps P m → Keeps P n → Keeps P (if b then m else n)
  Keeps-if true m n km kn = km
  Keeps-if false m n km kn = kn

module _ {A B : Type 0} {P : World → Type 0} where
  pub Keeps-continue :
      (r : Result A) (f : A → Exec B) → ((a : A) → Keeps P (f a)) → Keeps P (continue r f)
  unfolding continue
  Keeps-continue (ok a) f k = k a
  Keeps-continue (err e) f k = record { at = λ w h. h }

  pub Keeps-bind :
      (m : Exec A) (f : A → Exec B) → Keeps P m → ((a : A) → Keeps P (f a)) → Keeps P (m >>= f)
  unfolding ◌>>=◌
  Keeps-bind first next kept rest = record {
    at = λ w h. let (r, later) = first w in (Keeps-continue r next rest).at later (kept.at w h);
  }

  pub Keeps-option :
      (o : Option A) (m : Exec B) (f : A → Exec B)
      → Keeps P m
      → ((a : A) → Keeps P (f a))
      → Keeps P (elim o [ none ↦ m | some a ↦ f a ])
  Keeps-option none m f km kf = km
  Keeps-option (some a) m f km kf = kf a

  pub Keeps-result :
      (r : Result A) (f : A → Exec B) (g : Error → Exec B)
      → ((a : A) → Keeps P (f a))
      → ((e : Error) → Keeps P (g e))
      → Keeps P (elim r [ ok a ↦ f a | err e ↦ g e ])
  Keeps-result (ok a) f g kf kg = kf a
  Keeps-result (err e) f g kf kg = kg e

-- A predicate that outlives all but a counted event: the moment passes, somebody calls the store, and
-- another event is observed.
pub record IsStable (P : World → Type 0) : Type 0 where
  pub moment : (w : World) (n : ℕ) → P w → P (record w { moment = n })
  pub store : (w : World) (c : StoreCall) → P w → P (record w { store = step w.store c })
  pub event :
      (w : World) (e : Event) → is_counted e ≡ false → P w → P (record w { trace = e ∷ w.trace })

module _ {P : World → Type 0} (stable : IsStable P) where
  run-stable :
      (w : World) (calls : List StoreCall) → P w → P (record w { store = run w.store calls })
  unfolding run
  run-stable w [] h = h
  run-stable w (c ∷ calls) h =
      run-stable (record w { store = step w.store c }) calls (stable.store w c h)

  pub Keeps-ask : {A : Type 0} (f : ℕ → Result A) → Keeps P (ask f)
  unfolding ask
  Keeps-ask f = record { at = λ w h. stable.moment w (w.moment + 1) h }

  pub Keeps-clock_now : (env : Environment) → Keeps P (clock_now env)
  unfolding clock_now
  Keeps-clock_now env = Keeps-ask _

  pub Keeps-new_identifier :
      (env : Environment) (prefix : String) → Keeps P (new_identifier env prefix)
  unfolding new_identifier
  Keeps-new_identifier env prefix = Keeps-ask _

  pub Keeps-observe : (e : Event) → is_counted e ≡ false → Keeps P (observe e)
  unfolding observe
  Keeps-observe e no_call = record { at = λ w h. stable.event w e no_call h }

  Keeps-answer :
      {A : Type 0} (fault : Fault) (w : World) (r : Result A × MemoryStore)
      → P w
      → P (record w { store = r.1 })
      → P (answer fault w r).1
  unfolding answer
  Keeps-answer healthy w r h h' = stable.moment (record w { store = r.1 }) (w.moment + 1) h'
  Keeps-answer (lost_acknowledgement e) w r h h' =
      stable.moment (record w { store = r.1 }) (w.moment + 1) h'
  Keeps-answer (lost_request e) w r h h' = stable.moment w (w.moment + 1) h

  -- A method of the store keeps what its change of the state keeps.
  pub Keeps-call_store :
      {A : Type 0} (env : Environment) (method : MemoryStore → Result A × MemoryStore)
      → ((w : World) → P w → P (record w { store = (method w.store).1 }))
      → Keeps P (call_store env method)
  unfolding call_store
  Keeps-call_store env method k = record {
    at = λ w h.
        let s = run w.store (env.others w.moment) in
        let u = record w { store = s } in
        let hu = run-stable w (env.others w.moment) h in
        Keeps-answer (env.faults w.moment) u (method s) hu (k u hu);
  }

pub ruleset keeps_rules = (
  Keeps-pure, Keeps-raise, Keeps-lift, Keeps-attempt, Keeps-if, Keeps-bind, Keeps-ask,
  Keeps-clock_now, Keeps-new_identifier,
)
