-- ===== src/Exec/Total.antt =====
-- Tasks that return, and tasks that are not cancelled, whatever the world they start in.
use threvo_actions.Prelude.{ℕ, ◌+◌, ◌≡◌, ◌≢◌, refl, Bool, true, false, if◌then◌else◌, arith}
use threvo_actions.Result.{Result, ok, err, cancelled}
use threvo_actions.Exec.{World, Exec, continue, ◌>>=◌, pure, ask, attempt, observe, lift, Event}

pub record Total {A : Type 0} (m : Exec A) : Type 0 where
  pub returns : (w : World) → (a : A) × ((m w).0 ≡ ok a)

pub record Uncancelled {A : Type 0} (m : Exec A) : Type 0 where
  pub never : (w : World) → (m w).0 ≢ err cancelled

module _ {A : Type 0} where
  pub Total-pure : (a : A) → Total (pure a)
  unfolding pure
  Total-pure a = record { returns = λ w. (a, refl) }

  pub Total-ask : (f : ℕ → Result A) → ((n : ℕ) → (a : A) × (f n ≡ ok a)) → Total (ask f)
  unfolding ask
  Total-ask f answers = record { returns = λ w. answers w.moment }

  pub Total-attempt : (m : Exec A) → Total (attempt m)
  unfolding attempt
  Total-attempt m = record { returns = λ w. ((m w).0, refl) }

  pub Total-if : (b : Bool) (m n : Exec A) → Total m → Total n → Total (if b then m else n)
  Total-if true m n left right = left
  Total-if false m n left right = right

  pub Total-when : (b : Bool) (m n : Exec A) → b ≡ true → Total m → Total (if b then m else n)
  Total-when true m n holds total = total
  Total-when false m n holds total = cc

  pub Uncancelled-if :
      (b : Bool) (m n : Exec A) → Uncancelled m → Uncancelled n → Uncancelled (if b then m else n)
  Uncancelled-if true m n left right = left
  Uncancelled-if false m n left right = right

  pub Total-Uncancelled : (m : Exec A) → Total m → Uncancelled m
  Total-Uncancelled m total = record { never = λ w h. let (a, e) = total.returns w in cc (e, h) }

pub Total-observe : (e : Event) → Total (observe e)
unfolding observe
Total-observe e = record { returns = λ w. (tt, refl) }

module _ {A B : Type 0} where
  goes_on :
      (r : Result A) (f : A → Exec B) (w : World)
      → (a : A) × (r ≡ ok a)
      → ((a : A) → Total (f a))
      → (b : B) × ((continue r f w).0 ≡ ok b)
  unfolding continue
  goes_on (ok a) f w h each = (each a).returns w
  goes_on (err e) f w (a, h) each = cc h

  pub Total-bind :
      (m : Exec A) (f : A → Exec B) → Total m → ((a : A) → Total (f a)) → Total (m >>= f)
  unfolding ◌>>=◌
  Total-bind m f total each = record {
    returns = λ w. goes_on (m w).0 f (m w).1 (total.returns w) each;
  }

  is_not_cancelled :
      (r : Result A) (f : A → Exec B) (w : World)
      → r ≢ err cancelled
      → ((a : A) → Uncancelled (f a))
      → (continue r f w).0 ≢ err cancelled
  unfolding continue
  is_not_cancelled (ok a) f w other each h = (each a).never w h
  is_not_cancelled (err e) f w other each h = other (ground (arith, h))

  pub Uncancelled-bind :
      (m : Exec A) (f : A → Exec B)
      → Uncancelled m
      → ((a : A) → Uncancelled (f a))
      → Uncancelled (m >>= f)
  unfolding ◌>>=◌
  Uncancelled-bind m f first each = record {
    never = λ w. is_not_cancelled (m w).0 f (m w).1 (first.never w) each;
  }

  -- What is caught is no cancellation, if the task has none.
  pub Total-caught :
      (m : Exec A) (f : Result A → Exec B)
      → Uncancelled m
      → ((r : Result A) → r ≢ err cancelled → Total (f r))
      → Total (attempt m >>= f)
  unfolding ◌>>=◌ continue attempt
  Total-caught m f first each = record {
    returns = λ w. (each (m w).0 (first.never w)).returns (m w).1;
  }

  -- A question that is answered, with its answer taken as a value.
  pub Total-answered :
      (question : ℕ → Result A) (f : Result A → Exec B)
      → ((n : ℕ) → (a : A) × (question n ≡ ok a))
      → ((a : A) → Total (f (ok a)))
      → Total (attempt (ask question) >>= f)
  unfolding ◌>>=◌ continue attempt ask
  Total-answered question f answers each = record {
    returns = λ w.
        let (a, e) = answers w.moment in
        rw e ((each a).returns (record w { moment = w.moment + 1 }));
  }

pub Total-lift : {A : Type 0} (a : A) → Total (lift (ok a))
unfolding lift
Total-lift a = record { returns = λ w. (a, refl) }
