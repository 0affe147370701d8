-- ===== src/Prelude/Equality.antt =====
-- Python's `==` on strings, numbers, records and sequences: one operator over decidable equality.
use Prim.Native.Nat.{ℕ}
use Prim.Native.String.{String}
use mathlib.Core.Path.{◌≡◌, refl}
use mathlib.Core.Bool.{Bool, true, false, Bool-discrete}
use mathlib.Core.Option
use mathlib.Core.Option.{Option}
use mathlib.Core.List.{List, [], ◌∷◌}
use native.Mathlib.Omega.{arith}
use native.Mathlib.Decide.{ℕ_discrete}
use text.Mathlib.Text.{◌==◌ as str_eq}
use text.Mathlib.TextEquality.{eq_iff}

pub record Eq {ℓ} (A : Type ℓ) : Type ℓ where
  pub discrete : Discrete A

infix 50 ◌==◌ ◌!=◌
abbrev pub ◌==◌ {ℓ} : {A : Type ℓ} ⦃e : Eq A⦄ → A → A → Bool
◌==◌ ⦃e⦄ a b = elim (e.discrete a b) [ yes _ ↦ true | no _ ↦ false ]

abbrev pub ◌!=◌ {ℓ} : {A : Type ℓ} ⦃e : Eq A⦄ → A → A → Bool
◌!=◌ ⦃e⦄ a b = elim (e.discrete a b) [ yes _ ↦ false | no _ ↦ true ]

unfoldable pub String-discrete_aux : (s t : String) (b : Bool) → str_eq s t ≡ b → Dec (s ≡ t)
String-discrete_aux s t true e = yes ((eq_iff s t).0 e)
String-discrete_aux s t false e = no (λ p. cc (e, (eq_iff s t).1 p))

unfoldable pub String-discrete : Discrete String
unfolding String-discrete_aux
String-discrete s t = String-discrete_aux s t (str_eq s t) refl

instance abbrev pub string_eq : Eq String
string_eq = record { discrete = String-discrete }

instance abbrev pub nat_eq : Eq ℕ
nat_eq = record { discrete = ℕ_discrete }

instance abbrev pub bool_eq : Eq Bool
bool_eq = record { discrete = Bool-discrete }

module _ {ℓ} {A : Type ℓ} where
  pub same_heads : {x y : A} {xs ys : List A} → x ∷ xs ≡ y ∷ ys → x ≡ y
  same_heads e = ground arith

  pub same_tails : {x y : A} {xs ys : List A} → x ∷ xs ≡ y ∷ ys → xs ≡ ys
  same_tails e = ground arith

  pub cons_eq : {x y : A} {xs ys : List A} → x ≡ y → xs ≡ ys → x ∷ xs ≡ y ∷ ys
  cons_eq e f = ground arith

  unfoldable pub list_discrete : Discrete A → Discrete (List A)
  list_discrete d [] [] = yes refl
  list_discrete d [] (y ∷ ys) = no (λ e. cc)
  list_discrete d (x ∷ xs) [] = no (λ e. cc)
  list_discrete d (x ∷ xs) (y ∷ ys) =
      let rest = list_discrete d xs ys in
      elim (d x y) [
        | no n ↦ no (λ e. n (same_heads e))
        | yes e ↦ elim rest [ no n ↦ no (λ f. n (same_tails f)) | yes f ↦ yes (cons_eq e f) ]
      ]

  instance abbrev pub option_eq : ⦃e : Eq A⦄ → Eq (Option A)
  option_eq ⦃e⦄ = record { discrete = Option.discrete e.discrete }

  instance abbrev pub list_eq : ⦃e : Eq A⦄ → Eq (List A)
  list_eq ⦃e⦄ = record { discrete = list_discrete e.discrete }
