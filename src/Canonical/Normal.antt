-- ===== src/Canonical/Normal.antt =====
-- What normalization does to a document, and which documents it accepts.
use threvo_actions.Prelude.{
  ◌≡◌, refl, sym, subst, ap, ◌∙◌, String, string_eq, Bool, true, false, ◌==◌, if◌then◌else◌, arith,
}
use threvo_actions.Json.{
  Json, Items, JsonObject, null, boolean, integer, negative, floating, string, array, object, nil,
  item, empty, field,
}
use threvo_actions.Result.{Result, ok, err, value_error, ok-bind}
use threvo_actions.Canonical.Fields.{
  join, join-append_field, join-empty, has_field-append_field, apart,
}
use threvo_actions.Canonical.{
  Platform, has_field, append_field, normalize, normalize_items, normalize_fields, canonicalize_v1,
}
use threvo_actions.Canonical.Mapped.{
  mapped, mapped_items, mapped_fields, IsNormal, AreNormal, HasNormal, normalize-accepts,
  mapped-fixed,
}

returned {ℓ} : {A : Type ℓ} {a b : A} → ok a ≡ ok b → a ≡ b
returned h = cc

-- The dictionary does not have the name already.
not_twice {ℓ} :
    {A : Type ℓ} (twice : Bool) (next : Result A) {a : A}
    → (if twice then err value_error else next) ≡ ok a
    → (twice ≡ false) × (next ≡ ok a)
not_twice true next h = cc
not_twice false next h = (refl, h)

module _ (platform : Platform) where
  HasNormal-append_field :
      (done : JsonObject) (name : String) (value : Json)
      → HasNormal platform done
      → platform.nfc name ≡ name
      → IsNormal platform value
      → has_field name done ≡ false
      → HasNormal platform (append_field done name value)
  unfolding append_field has_field HasNormal
  HasNormal-append_field empty name value k stable normal fresh = (stable, normal, refl, tt)
  HasNormal-append_field (field n v done) name value (s, x, alone, rest) stable normal fresh =
      let other : (name == n) ≡ false = apart n name (ground (arith, fresh)) in
      (
        s,
        x,
        has_field-append_field done n name value ∙ ground (arith, alone, other),
        HasNormal-append_field done name value rest stable normal (ground (arith, fresh)),
      )

  mutual
    unfolding normalize normalize_items normalize_fields mapped mapped_items mapped_fields join

    -- What normalization returns is its argument, mapped.
    normalize-mapped : (j x : Json) → normalize platform j ≡ ok x → x ≡ mapped platform j
    normalize-mapped null x h = sym (returned h)
    normalize-mapped (boolean b) x h = sym (returned h)
    normalize-mapped (integer n) x h = sym (returned h)
    normalize-mapped (negative n) x h = sym (returned h)
    normalize-mapped (floating f) x h = cc
    normalize-mapped (string s) x h = sym (returned h)
    normalize-mapped (array xs) x h =
        let (ys, e, same) = ok-bind (normalize_items platform xs) _ h in
        sym (returned same) ∙ ap array (items-mapped xs ys e)
    normalize-mapped (object o) x h =
        let (p, e, same) = ok-bind (normalize_fields platform o empty) _ h in
        sym (returned same) ∙ ap object (fields-mapped o empty p e)

    items-mapped :
        (xs ys : Items) → normalize_items platform xs ≡ ok ys → ys ≡ mapped_items platform xs
    items-mapped nil ys h = sym (returned h)
    items-mapped (item x xs) ys h =
        let (y, e, h1) = ok-bind (normalize platform x) _ h in
        let (rest, e1, same) = ok-bind (normalize_items platform xs) _ h1 in
        sym (returned same)
        ∙ ap (λ t. item t rest) (normalize-mapped x y e)
        ∙ ap (item (mapped platform x)) (items-mapped xs rest e1)

    fields-mapped :
        (o done p : JsonObject)
        → normalize_fields platform o done ≡ ok p
        → p ≡ join done (mapped_fields platform o)
    fields-mapped empty done p h = sym (returned h) ∙ sym (join-empty done)
    fields-mapped (field name value rest) done p h =
        let (fresh, h1) = not_twice _ _ h in
        let (v, e, h2) = ok-bind (normalize platform value) _ h1 in
        fields-mapped rest (append_field done (platform.nfc name) v) p h2
        ∙ join-append_field done (mapped_fields platform rest) (platform.nfc name) v
        ∙ ap (λ t. join done (field (platform.nfc name) t (mapped_fields platform rest)))
            (normalize-mapped value v e)

  mutual
    unfolding normalize normalize_items normalize_fields IsNormal AreNormal HasNormal

    -- What normalization returns is normal, if normalizing a string twice is normalizing it once.
    normalized :
        ((s : String) → platform.nfc (platform.nfc s) ≡ platform.nfc s)
        → (j x : Json) → normalize platform j ≡ ok x
        → IsNormal platform x
    normalized again null x h = subst (IsNormal platform) (returned h) tt
    normalized again (boolean b) x h = subst (IsNormal platform) (returned h) tt
    normalized again (integer n) x h = subst (IsNormal platform) (returned h) tt
    normalized again (negative n) x h = subst (IsNormal platform) (returned h) tt
    normalized again (floating f) x h = cc
    normalized again (string s) x h = subst (IsNormal platform) (returned h) (again s)
    normalized again (array xs) x h =
        let (ys, e, same) = ok-bind (normalize_items platform xs) _ h in
        subst (IsNormal platform) (returned same) (items_normalized again xs ys e)
    normalized again (object o) x h =
        let (p, e, same) = ok-bind (normalize_fields platform o empty) _ h in
        subst (IsNormal platform) (returned same) (fields_normalized again o empty p e tt)

    items_normalized :
        ((s : String) → platform.nfc (platform.nfc s) ≡ platform.nfc s)
        → (xs ys : Items) → normalize_items platform xs ≡ ok ys
        → AreNormal platform ys
    items_normalized again nil ys h = subst (AreNormal platform) (returned h) tt
    items_normalized again (item x xs) ys h =
        let (y, e, h1) = ok-bind (normalize platform x) _ h in
        let (rest, e1, same) = ok-bind (normalize_items platform xs) _ h1 in
        subst (AreNormal platform) (returned same)
          (normalized again x y e, items_normalized again xs rest e1)

    fields_normalized :
        ((s : String) → platform.nfc (platform.nfc s) ≡ platform.nfc s)
        → (o done p : JsonObject) → normalize_fields platform o done ≡ ok p
        → HasNormal platform done
        → HasNormal platform p
    fields_normalized again empty done p h k = subst (HasNormal platform) (returned h) k
    fields_normalized again (field name value rest) done p h k =
        let (fresh, h1) = not_twice _ _ h in
        let (v, e, h2) = ok-bind (normalize platform value) _ h1 in
        fields_normalized again rest (append_field done (platform.nfc name) v) p h2 (
          HasNormal-append_field done (platform.nfc name) v k (again name)
            (normalized again value v e) fresh)

-- If normalizing a string twice is normalizing it once: what normalization returns is the document
-- with every string and name normalized and nothing else changed, it has no float and no name twice
-- in an object, and it is canonicalized to the same bytes; and normalization returns this whenever
-- it has no float and no name twice.
pub normalize_exactly :
    (platform : Platform) (j : Json)
    → ((s : String) → platform.nfc (platform.nfc s) ≡ platform.nfc s)
    → ((x : Json)
        → normalize platform j ≡ ok x
        → (x ≡ mapped platform j)
          × IsNormal platform x
          × (canonicalize_v1 platform x ≡ canonicalize_v1 platform j))
      × (IsNormal platform (mapped platform j) → normalize platform j ≡ ok (mapped platform j))
unfolding canonicalize_v1
normalize_exactly platform j again = (
  (λ x e.
      let normal = normalized platform again j x e in
      let same = mapped-fixed platform x normal in
      let accepted =
        normalize-accepts platform x (subst (IsNormal platform) (sym same) normal) ∙ ap ok same in
      (normalize-mapped platform j x e, normal, rw (accepted, e) refl)),
  normalize-accepts platform j,
)
