-- ===== src/Exec/Finds.antt =====
-- Tasks that keep a predicate and return what is known, when they return.
use threvo_actions.Prelude.{
  ◌≡◌, refl, sym, ap, subst, ◌∙◌, List, arith, Bool, true, false, if◌then◌else◌,
}
use threvo_actions.Result.{Error, Result, ok, err}
use threvo_actions.Store.{MemoryStore, run}
use threvo_actions.Exec.{
  Environment, Event, World, Exec, Fault, healthy, lost_request, lost_acknowledgement, continue,
  ◌>>=◌, pure, raise, attempt, answer, call_store,
}
use threvo_actions.Exec.Keeps.{Keeps}
use threvo_actions.Exec.Returns.{Returns}
use threvo_actions.Exec.Alone.{IsAlone, IsAt, IsAt-IsPassive}

pub record Finds {A : Type 0} (P : World → Type 0) (F : A → Type 0) (m : Exec A) : Type 0 where
  pub kept : (w : World) → P w → P (m w).1
  pub value : (w : World) → P w → (a : A) → (m w).0 ≡ ok a → F a

module _ {A : Type 0} {P : World → Type 0} {F : A → Type 0} where
  pub Finds-pure : (a : A) → F a → Finds P F (pure a)
  unfolding pure
  Finds-pure a holds = record { kept = λ w h. h; value = λ w h b same. ground (arith, holds) }

  pub Finds-raise : (e : Error) → Finds P F (raise {A = A} e)
  unfolding raise
  Finds-raise e = record { kept = λ w h. h; value = λ w h b same. cc }

  pub Finds-if :
      (b : Bool) (m n : Exec A) → Finds P F m → Finds P F n → Finds P F (if b then m else n)
  Finds-if true m n left right = left
  Finds-if false m n left right = right

  -- Each branch knows the answer of the test.
  pub Finds-test :
      (b : Bool) (m n : Exec A)
      → (b ≡ true → Finds P F m)
      → (b ≡ false → Finds P F n)
      → Finds P F (if b then m else n)
  Finds-test true m n left right = left refl
  Finds-test false m n left right = right refl

  pub Finds-of : (m : Exec A) → Keeps P m → Returns F m → Finds P F m
  Finds-of m keeps returns = record { kept = keeps.at; value = λ w h. returns.value w }

  -- What is known of the value, if there is one.
  pub Finds-attempt :
      (m : Exec A) → Finds P F m → Finds P (λ r. (a : A) → r ≡ ok a → F a) (attempt m)
  unfolding attempt
  Finds-attempt m known = record {
    kept = known.kept;
    value = λ w h r same a e. known.value w h a (ground (arith, same, e));
  }

module _ {A B : Type 0} {P : World → Type 0} {F : A → Type 0} {G : B → Type 0} where
  pub Finds-bind :
      (m : Exec A) (f : A → Exec B)
      → Finds P F m
      → ((a : A) → F a → Finds P G (f a))
      → Finds P G (m >>= f)
  unfolding ◌>>=◌ continue
  Finds-bind m f known each = record {
    kept = λ w h. kept_by (m w).0 (m w).1 (known.kept w h) (known.value w h);
    value = λ w h. found_by (m w).0 (m w).1 (known.kept w h) (known.value w h);
  }
    where
      kept_by : (r : Result A) (w : World) → P w → ((a : A) → r ≡ ok a → F a) → P (continue r f w).1
      kept_by (ok a) w h holds = (each a (holds a refl)).kept w h
      kept_by (err e) w h holds = h

      found_by :
          (r : Result A) (w : World)
          → P w
          → ((a : A) → r ≡ ok a → F a)
          → (b : B) → (continue r f w).0 ≡ ok b
          → G b
      found_by (ok a) w h holds b same = (each a (holds a refl)).value w h b same
      found_by (err e) w h holds b same = cc

answered :
    {A : Type 0} (f : Fault) (w : World) (r : Result A × MemoryStore) (a : A)
    → (answer f w r).0 ≡ ok a
    → r.0 ≡ ok a
unfolding answer
answered healthy w r a same = same
answered (lost_request e) w r a same = cc
answered (lost_acknowledgement e) w r a same = cc

-- A method that reads the store answers what the store holds, while nobody else calls it.
pub Finds-query :
    {A : Type 0} (env : Environment) (s : MemoryStore) (es : List Event)
    (question : MemoryStore → Result A)
    → IsAlone env
    → Finds (IsAt s es) (λ a. question s ≡ ok a) (call_store env (λ t. (question t, t)))
unfolding call_store run
Finds-query env s es question alone = record {
  kept = ((IsAt-IsPassive env alone).queries question).at;
  value = λ w h a same.
      ap question (sym h.store)
      ∙ answered (env.faults w.moment) w (question w.store, w.store) a
          (subst
            (λ calls.
              (answer (env.faults w.moment) (record w { store = run w.store calls })
                (question (run w.store calls), run w.store calls)).0
              ≡ ok a)
            (alone w.moment) same);
}
