-- ===== src/Registry/Lookup.antt =====
-- registry.py: `ActionRegistry`.
use threvo_actions.Prelude.{
  String, ◌≡◌, refl, subst, sym, ap, ◌∙◌, false, Option, none, some, is_some, List, [], ◌∷◌, ◌==◌,
  ◌!=◌, Eq, String-discrete, if◌then◌else◌, arith, Option-cases, Bool-cases, inl, inr,
}
use threvo_actions.Prelude.Dict
use threvo_actions.Prelude.Dict.{Dict, get-put, get-empty}
use threvo_actions.Model.{ActionType}
use threvo_actions.Result.{
  Result, ok, err, duplicate_action, action_not_registered, definition_type_mismatch, ◌>>=◌,
  ok-bind,
}
use threvo_actions.Registry.{ActionDefinition}
use threvo_actions.Store.{ActionKey, action_key, action_key_eq}

-- `model_contract`
pub record ModelContract : Type 0 where
  pub command_model : String
  pub private_snapshot_model : String
  pub display_preview_model : String
  pub result_model : String

unfoldable pub ModelContract-discrete : Discrete ModelContract
ModelContract-discrete = hlevel String-discrete

instance abbrev pub model_contract_eq : Eq ModelContract
model_contract_eq = record { discrete = ModelContract-discrete }

unfoldable pub contract_of : ActionDefinition → ModelContract
contract_of d = record {
  command_model = d.command_model;
  private_snapshot_model = d.private_snapshot_model;
  display_preview_model = d.display_preview_model;
  result_model = d.result_model;
}

abbrev pub ActionRegistry : Type 0
ActionRegistry = Dict ActionKey ActionDefinition

unfoldable pub register : ActionDefinition → ActionRegistry → Result ActionRegistry
register d registry =
    if is_some (Dict.get registry (action_key d.action_type))
    then err duplicate_action
    else ok (Dict.put registry (action_key d.action_type) d)

-- The check of a registered definition against the models that are asked for.
unfoldable pub check_contract : Option ActionDefinition → ModelContract → Result ActionDefinition
check_contract none expected = err action_not_registered
check_contract (some d) expected =
    if contract_of d != expected then err definition_type_mismatch else ok d

unfoldable pub get_typed : ActionRegistry → ActionType → ModelContract → Result ActionDefinition
unfolding check_contract
get_typed registry t expected = check_contract (Dict.get registry (action_key t)) expected

-- One registration after another.
unfoldable pub register_all : List ActionDefinition → ActionRegistry → Result ActionRegistry
register_all [] registry = ok registry
register_all (d ∷ rest) registry = do added ← register d registry; register_all rest added

-- Each definition stands under its own action.
abbrev IsKeyed : ActionRegistry → Type 0
IsKeyed registry =
    (k : ActionKey) (d : ActionDefinition)
    → Dict.get registry k ≡ some d
    → action_key d.action_type ≡ k

register_inversion :
    (d : ActionDefinition) (registry added : ActionRegistry)
    → register d registry ≡ ok added
    → (Dict.get registry (action_key d.action_type) ≡ none)
      × (added ≡ Dict.put registry (action_key d.action_type) d)
unfolding register
register_inversion d registry added h =
    elim (Option-cases (Dict.get registry (action_key d.action_type))) [
      | inl e ↦ (e, ground (arith, e))
      | inr (x, e) ↦ ground (arith, e)
    ]

returned {ℓ} : {A : Type ℓ} {a b : A} → ok a ≡ ok b → a ≡ b
returned h = cc

put-IsKeyed :
    (registry : ActionRegistry) (d : ActionDefinition)
    → IsKeyed registry
    → IsKeyed (Dict.put registry (action_key d.action_type) d)
put-IsKeyed registry d keyed k x h =
    let found = sym (get-put registry (action_key d.action_type) k d) ∙ h in
    elim (Bool-cases (action_key d.action_type == k)) [
      | inl e ↦ let same : d ≡ x = ground (arith, found, e) in ground (arith, same, e)
      | inr e ↦ keyed k x (ground (arith, found, e))
    ]

register_all-IsKeyed :
    (ds : List ActionDefinition) (registry final : ActionRegistry)
    → IsKeyed registry
    → register_all ds registry ≡ ok final
    → IsKeyed final
unfolding register_all
register_all-IsKeyed [] registry final keyed h = subst IsKeyed (returned h) keyed
register_all-IsKeyed (d ∷ ds) registry final keyed h =
    let (added, e, rest) = ok-bind (register d registry) _ h in
    let (absent, same) = register_inversion d registry added e in
    register_all-IsKeyed ds added final (subst IsKeyed (sym same) (put-IsKeyed registry d keyed))
      rest

checked :
    (o : Option ActionDefinition) (expected : ModelContract) (d : ActionDefinition)
    → check_contract o expected ≡ ok d
    → (o ≡ some d) × (contract_of d ≡ expected)
unfolding check_contract
checked none expected d h = cc
checked (some x) expected d h = elim (Bool-cases (contract_of x != expected)) [
  | inl e ↦ ground (arith, e)
  | inr e ↦
      let same : x ≡ d = ground (arith, e) in
      (ap some same, ap contract_of (sym same) ∙ ground (arith, e))
]

-- After any successful registrations in an empty registry, what it gives out for an action and four
-- models was registered under that very action and declares those very models.
pub get_typed_sound :
    (ds : List ActionDefinition) (registry : ActionRegistry) (t : ActionType)
    (expected : ModelContract) (d : ActionDefinition)
    → register_all ds Dict.empty ≡ ok registry
    → get_typed registry t expected ≡ ok d
    → (action_key d.action_type ≡ action_key t) × (contract_of d ≡ expected)
unfolding get_typed
get_typed_sound ds registry t expected d built h =
    let (found, contract) = checked _ expected d h in
    (
      register_all-IsKeyed ds Dict.empty registry
          (λ k x e. ground (arith, get-empty {V = ActionDefinition} k, e)) built _ d found,
      contract,
    )

-- A registration succeeds only for a new action; it is given out from then on, no second definition
-- of the action is accepted, and what is given out for other actions does not change.
pub register_lookup :
    (d : ActionDefinition) (registry added : ActionRegistry)
    → register d registry ≡ ok added
    → (get_typed added d.action_type (contract_of d) ≡ ok d)
      × ((e : ActionDefinition)
          → action_key e.action_type ≡ action_key d.action_type
          → register e added ≡ err duplicate_action)
      × ((t : ActionType) (expected : ModelContract)
          → (action_key d.action_type == action_key t) ≡ false
          → get_typed added t expected ≡ get_typed registry t expected)
unfolding get_typed check_contract register
register_lookup d registry added h =
    let (absent, same) = register_inversion d registry added h in
    let key = action_key d.action_type in
    let own : Dict.get added key ≡ some d =
      ap (λ r. Dict.get r key) same ∙ (get-put registry key key d ∙ ground arith) in
    (
      rw own (ground arith),
      λ e k. rw k (rw own refl),
      λ t expected other.
          ap (λ o. check_contract o expected)
            (ap (λ r. Dict.get r (action_key t)) same
              ∙ (get-put registry key (action_key t) d ∙ ground (arith, other))),
    )
