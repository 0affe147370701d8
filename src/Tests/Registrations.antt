-- ===== src/Tests/Registrations.antt =====
-- A registry of one action.
use native.Mathlib.Decide.{ℕ_discrete}
use threvo_actions.Prelude.{String-discrete, ◌≡◌, refl, false, [], ◌∷◌, ◌==◌}
use threvo_actions.Prelude.Dict
use threvo_actions.Model.{ActionType}
use threvo_actions.Result.{ok, err, duplicate_action}
use threvo_actions.Registry.{ActionDefinition}
use threvo_actions.Registry.Lookup.{
  ActionRegistry, ModelContract, contract_of, register, register_all, get_typed, check_contract,
  get_typed_sound, register_lookup, ModelContract-discrete,
}
use threvo_actions.Store.{action_key, action_key_eq, ActionKey-discrete}
use threvo_actions.Tests.Sessions.{host}

abbrev registry : ActionRegistry
registry = Dict.put Dict.empty (action_key host.action_type) host

host_registered : register host Dict.empty ≡ ok registry
unfolding register Dict.get Dict.empty
host_registered = refl

all_registered : register_all (host ∷ []) Dict.empty ≡ ok registry
unfolding register_all register Dict.get Dict.empty
all_registered = refl

host_found : get_typed registry host.action_type (contract_of host) ≡ ok host
unfolding get_typed check_contract contract_of ModelContract-discrete Dict.get Dict.put action_key
    ActionKey-discrete String-discrete ℕ_discrete
host_found = refl

get_typed_sound_example :
    (action_key host.action_type ≡ action_key host.action_type)
    × (contract_of host ≡ contract_of host)
get_typed_sound_example =
    get_typed_sound (host ∷ []) registry host.action_type (contract_of host) host all_registered
      host_found

register_lookup_example :
    (get_typed registry host.action_type (contract_of host) ≡ ok host)
    × ((e : ActionDefinition)
        → action_key e.action_type ≡ action_key host.action_type
        → register e registry ≡ err duplicate_action)
    × ((t : ActionType) (expected : ModelContract)
        → (action_key host.action_type == action_key t) ≡ false
        → get_typed registry t expected ≡ get_typed Dict.empty t expected)
register_lookup_example = register_lookup host Dict.empty registry host_registered
