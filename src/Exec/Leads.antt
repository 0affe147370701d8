-- ===== src/Exec/Leads.antt =====
-- Tasks that start under one predicate and end under a weaker one, whether they return or raise.
use threvo_actions.Prelude.{Bool, true, false, if◌then◌else◌}
use threvo_actions.Result.{Result, ok, err}
use threvo_actions.Exec.{World, Exec, continue, ◌>>=◌, attempt}
use threvo_actions.Exec.Keeps.{Keeps, Keeps-continue}

pub record Leads {A : Type 0} (P Q : World → Type 0) (m : Exec A) : Type 0 where
  pub at : (w : World) → P w → Q (m w).1

module _ {P Q : World → Type 0} (weaker : (w : World) → P w → Q w) where
  pub Leads-Keeps : {A : Type 0} (m : Exec A) → Keeps P m → Leads P Q m
  Leads-Keeps m k = record { at = λ w h. weaker (m w).1 (k.at w h) }

  Leads-continue :
      {A B : Type 0} (r : Result A) (f : A → Exec B)
      → ((a : A) → Leads P Q (f a))
      → Leads P Q (continue r f)
  unfolding continue
  Leads-continue (ok a) f k = k a
  Leads-continue (err e) f k = record { at = weaker }

  pub Leads-bind :
      {A B : Type 0} (m : Exec A) (f : A → Exec B)
      → Keeps P m
      → ((a : A) → Leads P Q (f a))
      → Leads P Q (m >>= f)
  unfolding ◌>>=◌
  Leads-bind m f km kf = record {
    at = λ w h. let (r, w') = m w in (Leads-continue r f kf).at w' (km.at w h);
  }

module _ {P Q : World → Type 0} where
  pub Leads-if :
      {A : Type 0} (b : Bool) (m n : Exec A)
      → Leads P Q m
      → Leads P Q n
      → Leads P Q (if b then m else n)
  Leads-if true m n km kn = km
  Leads-if false m n km kn = kn

module _ {P Q : World → Type 0} where
  -- After a part that has led there, what follows only has to stay.
  pub Leads-then :
      {A B : Type 0} (m : Exec A) (f : A → Exec B)
      → Leads P Q m
      → ((a : A) → Keeps Q (f a))
      → Leads P Q (m >>= f)
  unfolding ◌>>=◌
  Leads-then m f led stays = record {
    at = λ w h. let (r, later) = m w in (Keeps-continue r f stays).at later (led.at w h);
  }

  pub Leads-attempt : {A : Type 0} (m : Exec A) → Leads P Q m → Leads P Q (attempt m)
  unfolding attempt
  Leads-attempt m led = record { at = led.at }

pub ruleset leads_rules = (Leads-Keeps, Leads-bind, Leads-if)
