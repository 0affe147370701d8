-- ===== src/Result.antt =====
-- The exceptions that the library's operations raise, as values.
use threvo_actions.Prelude.{◌≡◌, ◌⊎◌, inl, inr, refl, String, Bool, true, false}
use threvo_actions.Model.{ProposalIdentity}

pub data Error : Type 0 where
  -- stores/base.py
  proposal_already_exists : Error
  store_invariant : String → Error
  -- runtime.py
  proposal_not_found : Error
  authorization_denied : String → Error
  invalid_authority_evidence : String → Error
  invalid_action_result : String → Error
  retention_store_unavailable : Error
  persistence_outcome_unknown : ProposalIdentity → Error
  -- registry.py
  duplicate_action action_not_registered definition_type_mismatch : Error
  -- What a host's own code may raise: `KeyError`, `ValueError`, `TypeError`, another `Exception`, and
  -- `CancelledError`, which is a `BaseException` and no `Exception`.
  key_error value_error type_error other_exception cancelled : Error

pub data Result {ℓ} (A : Type ℓ) : Type ℓ where
  err : Error → Result A
  ok : A → Result A

module _ {ℓ} {B : Type ℓ} where
  infixl 5 ◌>>=◌ ◌>>◌
  -- The next statement runs only if the one before it has not raised.
  abbrev pub ◌>>=◌ {κ} : {A : Type κ} → Result A → (A → Result B) → Result B
  (err e) >>= next = err e
  (ok a) >>= next = next a

  abbrev pub ◌>>◌ : Result (Unit {0}) → Result B → Result B
  first >> second = first >>= λ done. second

-- `if not b: raise e`
abbrev pub require : Bool → Error → Result (Unit {0})
require true e = ok tt
require false e = err e

pub Result-cases {ℓ} :
    {A : Type ℓ} (r : Result A) → ((a : A) × (r ≡ ok a)) ⊎ ((e : Error) × (r ≡ err e))
Result-cases (ok a) = inl (a, refl)
Result-cases (err e) = inr (e, refl)

-- A chain that succeeds has a first step that succeeds.
pub ok-bind {ℓ κ} :
    {B : Type ℓ} {y : B} {A : Type κ} (first : Result A) (next : A → Result B)
    → (first >>= next) ≡ ok y
    → (x : A) × (first ≡ ok x) × (next x ≡ ok y)
ok-bind (err e) next raised = cc
ok-bind (ok x) next returned = (x, refl, returned)
