-- ===== src/Exec/Returns.antt =====
-- What a task returns, when it returns.
use threvo_actions.Prelude.{ℕ, refl, subst, arith, Bool, true, false, ◌≡◌, if◌then◌else◌}
use threvo_actions.Result.{Error, Result, ok, err}
use threvo_actions.Exec.{World, Exec, continue, ◌>>=◌, pure, raise, ask, attempt}

pub record Returns {A : Type 0} (F : A → Type 0) (m : Exec A) : Type 0 where
  pub value : (w : World) (a : A) → (m w).0 ≡ ok a → F a

module _ {A : Type 0} {F : A → Type 0} where
  pub Returns-pure : (a : A) → F a → Returns F (pure a)
  unfolding pure
  Returns-pure a holds = record { value = λ w b same. ground (arith, holds) }

  pub Returns-raise : (e : Error) → Returns F (raise {A = A} e)
  unfolding raise
  Returns-raise e = record { value = λ w b same. cc }

  pub Returns-if :
      (b : Bool) (m n : Exec A) → Returns F m → Returns F n → Returns F (if b then m else n)
  Returns-if true m n left right = left
  Returns-if false m n left right = right

module _ {A B : Type 0} {F : B → Type 0} where
  continues :
      (r : Result A) (f : A → Exec B) (w : World) (b : B)
      → ((a : A) → Returns F (f a))
      → (continue r f w).0 ≡ ok b
      → F b
  unfolding continue
  continues (ok a) f w b each same = (each a).value w b same
  continues (err e) f w b each same = cc

  -- Whatever the first part returned.
  pub Returns-bind :
      (m : Exec A) (f : A → Exec B) → ((a : A) → Returns F (f a)) → Returns F (m >>= f)
  unfolding ◌>>=◌
  Returns-bind m f each = record {
    value = λ w b same. let (r, after) = m w in continues r f after b each same;
  }

pub ruleset returns_rules = (Returns-pure, Returns-raise, Returns-if, Returns-bind)

module _ {A B : Type 0} {F : B → Type 0} where
  -- Whatever the first part returned that it may return.
  pub Returns-then :
      {G : A → Type 0} (m : Exec A) (f : A → Exec B)
      → Returns G m
      → ((a : A) → G a → Returns F (f a))
      → Returns F (m >>= f)
  unfolding ◌>>=◌ continue
  Returns-then {G} m f known each = record {
    value = λ w b same. next (m w).0 (m w).1 b (λ a e. known.value w a e) same;
  }
    where
      next :
          (r : Result A) (w : World) (b : B)
          → ((a : A) → r ≡ ok a → G a)
          → (continue r f w).0 ≡ ok b
          → F b
      next (ok a) w b holds same = (each a (holds a refl)).value w b same
      next (err e) w b holds same = cc

module _ {A : Type 0} where
  -- Whatever the host answered.
  pub Returns-ask : (f : ℕ → Result A) → Returns (λ a. (n : ℕ) × (f n ≡ ok a)) (ask f)
  unfolding ask
  Returns-ask f = record { value = λ w a same. (w.moment, same) }

  pub Returns-map :
      {F G : A → Type 0} (m : Exec A) → ((a : A) → F a → G a) → Returns F m → Returns G m
  Returns-map m weaker known = record { value = λ w a same. weaker a (known.value w a same) }

  -- What the task returned, or that it raised, as a value.
  pub Returns-attempt :
      {F : A → Type 0} (G : Result A → Type 0) (m : Exec A)
      → Returns F m
      → ((r : Result A) → ((a : A) → r ≡ ok a → F a) → G r)
      → Returns G (attempt m)
  unfolding attempt
  Returns-attempt G m known each = record {
    value =
        λ w r same. let e : (m w).0 ≡ r = cc in subst G e (each (m w).0 (λ a h. known.value w a h));
  }
