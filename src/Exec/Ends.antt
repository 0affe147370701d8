-- ===== src/Exec/Ends.antt =====
-- Tasks that start under a predicate and end under one that may read what they return or raise.
use threvo_actions.Prelude.{Bool, true, false, if◌then◌else◌}
use threvo_actions.Result.{Error, Result, ok, err}
use threvo_actions.Exec.{World, Exec, continue, ◌>>=◌, attempt}
use threvo_actions.Exec.Keeps.{Keeps}

pub record Ends {A : Type 0} (P : World → Type 0) (Q : Result A → World → Type 0) (m : Exec A)
    : Type 0 where
  pub at : (w : World) → P w → Q (m w).0 (m w).1

module _ {A : Type 0} {P : World → Type 0} {Q : Result A → World → Type 0} where
  pub Ends-if : (b : Bool) (m n : Exec A) → Ends P Q m → Ends P Q n → Ends P Q (if b then m else n)
  Ends-if true m n left right = left
  Ends-if false m n left right = right

module _ {A B : Type 0} {P : World → Type 0} {Q : Result B → World → Type 0} where
  -- After a part that keeps the predicate, when its raise is an end too.
  pub Ends-bind :
      ((e : Error) (w : World) → P w → Q (err e) w)
      → (m : Exec A) (f : A → Exec B) → Keeps P m
      → ((a : A) → Ends P Q (f a))
      → Ends P Q (m >>= f)
  unfolding ◌>>=◌ continue
  Ends-bind raised m f kept each = record {
    at = λ w h. let (r, later) = m w in next r later (kept.at w h);
  }
    where
      next : (r : Result A) (w : World) → P w → Q (continue r f w).0 (continue r f w).1
      next (ok a) w h = (each a).at w h
      next (err e) w h = raised e w h

  -- After a part whose end is known, taken as a value.
  pub Ends-attempt :
      {R : Result A → World → Type 0} (m : Exec A) (f : Result A → Exec B)
      → Ends P R m
      → ((r : Result A) (w : World) → R r w → Q (f r w).0 (f r w).1)
      → Ends P Q (attempt m >>= f)
  unfolding ◌>>=◌ continue attempt
  Ends-attempt m f known each = record { at = λ w h. each (m w).0 (m w).1 (known.at w h) }

  -- After a part whose end is known.
  pub Ends-then :
      {R : Result A → World → Type 0} (m : Exec A) (f : A → Exec B)
      → Ends P R m
      → ((e : Error) (w : World) → R (err e) w → Q (err e) w)
      → ((a : A) (w : World) → R (ok a) w → Q (f a w).0 (f a w).1)
      → Ends P Q (m >>= f)
  unfolding ◌>>=◌ continue
  Ends-then {R} m f known raised each = record { at = λ w h. next (m w).0 (m w).1 (known.at w h) }
    where
      next : (r : Result A) (w : World) → R r w → Q (continue r f w).0 (continue r f w).1
      next (ok a) w h = each a w h
      next (err e) w h = raised e w h
