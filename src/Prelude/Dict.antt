-- ===== src/Prelude/Dict.antt =====
-- Python's `dict`, of which the library uses `get`, `in` and item assignment, and no order.
use mathlib.Core.Path.{◌≡◌, refl}
use mathlib.Core.Bool.{true, false}
use mathlib.Core.Option.{Option, none, some}
use mathlib.Core.List.{List, [], ◌∷◌}
use threvo_actions.Prelude.Equality.{Eq, ◌==◌}

pub record Dict {ℓ κ} (K : Type ℓ) (V : Type κ) : Type (ℓ ⊔ κ) where
  entries : List (K × V)

module _ {ℓ κ} {K : Type ℓ} {V : Type κ} where
  unfoldable pub empty : Dict K V
  empty = record { entries = [] }

module _ {ℓ κ} {K : Type ℓ} {V : Type κ} ⦃e : Eq K⦄ where
  unfoldable pub lookup : List (K × V) → K → Option V
  lookup [] k = none
  lookup ((j, v) ∷ rest) k =
      let found = lookup rest k in elim (j == k) [ true ↦ some v | false ↦ found ]

  -- `d.get(k)`
  unfoldable pub get : Dict K V → K → Option V
  unfolding lookup
  get d k = lookup d.entries k

  -- `d[k] = v`
  unfoldable pub put : Dict K V → K → V → Dict K V
  put d k v = record { entries = (k, v) ∷ d.entries }

  pub get-put :
      (d : Dict K V) (k j : K) (v : V)
      → get (put d k v) j ≡ elim (k == j) [ true ↦ some v | false ↦ get d j ]
  unfolding get put
  get-put d k j v = refl

  pub get-empty : (k : K) → get (empty {V = V}) k ≡ none
  unfolding get empty
  get-empty k = refl

pub ruleset dict_laws = (get-put, get-empty)
