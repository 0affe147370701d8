-- ===== src/Json.antt =====
-- The JSON values that the library stores and canonicalises (`JsonValue`, `JsonObject`).
-- An object keeps the order of its fields; a floating-point number is kept as its text.
use native.Mathlib.Decide.{ℕ_discrete}
use threvo_actions.Prelude.{ℕ, String, Bool, Eq, String-discrete}

mutual
  pub data Json : Type 0 where
    null : Json
    boolean : Bool → Json
    integer : ℕ → Json
    negative : ℕ → Json
    floating : String → Json
    string : String → Json
    array : Items → Json
    object : JsonObject → Json

  pub data Items : Type 0 where
    nil : Items
    item : Json → Items → Items

  pub data JsonObject : Type 0 where
    empty : JsonObject
    field : String → Json → JsonObject → JsonObject

unfoldable pub JsonObject-discrete : Discrete JsonObject
JsonObject-discrete = hlevel (String-discrete, ℕ_discrete)

instance abbrev pub json_object_eq : Eq JsonObject
json_object_eq = record { discrete = JsonObject-discrete }
