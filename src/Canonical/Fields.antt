-- ===== src/Canonical/Fields.antt =====
-- The fields of an object, and the names among them.
use threvo_actions.Prelude.{
  ◌≡◌, refl, ap, String, string_eq, false, ◌||◌, ◌==◌, arith, Bool-cases, inl, inr,
}
use threvo_actions.Json.{Json, JsonObject, empty, field}
use threvo_actions.Canonical.{has_field, append_field}

-- The fields of the first, then those of the second.
unfoldable pub join : JsonObject → JsonObject → JsonObject
join empty o = o
join (field name value rest) o = field name value (join rest o)

pub join-append_field :
    (done rest : JsonObject) (name : String) (value : Json)
    → join (append_field done name value) rest ≡ join done (field name value rest)
unfolding join append_field
join-append_field empty rest name value = refl
join-append_field (field n v done) rest name value =
    ap (field n v) (join-append_field done rest name value)

pub join-empty : (o : JsonObject) → join o empty ≡ o
unfolding join
join-empty empty = refl
join-empty (field n v o) = ap (field n v) (join-empty o)

pub has_field-append_field :
    (done : JsonObject) (name added : String) (value : Json)
    → has_field name (append_field done added value) ≡ (has_field name done || added == name)
unfolding has_field append_field
has_field-append_field empty name added value = ground arith
has_field-append_field (field n v done) name added value =
    rw (has_field-append_field done name added value) (ground arith)

pub apart : (a b : String) → (a == b) ≡ false → (b == a) ≡ false
apart a b h = elim (Bool-cases (b == a)) [ inl e ↦ ground (arith, e) | inr e ↦ e ]
