-- ===== src/Canonical/Mapped.antt =====
-- The normal documents, and that normalization accepts what maps to one.
use threvo_actions.Prelude.{
  ◌≡◌, refl, sym, ap, ◌∙◌, String, string_eq, true, false, ◌==◌, arith, Bool-cases, inl, inr,
}
use threvo_actions.Json.{
  Json, Items, JsonObject, null, boolean, integer, negative, floating, string, array, object, nil,
  item, empty, field,
}
use threvo_actions.Result.{ok}
use threvo_actions.Canonical.Fields.{join, join-append_field, join-empty, has_field-append_field}
use threvo_actions.Canonical.{
  Platform, has_field, append_field, normalize, normalize_items, normalize_fields,
}

module _ (platform : Platform) where
  -- Every string and every name in normal form, and nothing else changed.
  unfoldable mutual
    pub mapped : Json → Json
    mapped null = null
    mapped (boolean b) = boolean b
    mapped (integer n) = integer n
    mapped (negative n) = negative n
    mapped (floating f) = floating f
    mapped (string s) = string (platform.nfc s)
    mapped (array xs) = array (mapped_items xs)
    mapped (object o) = object (mapped_fields o)

    pub mapped_items : Items → Items
    mapped_items nil = nil
    mapped_items (item x xs) = item (mapped x) (mapped_items xs)

    pub mapped_fields : JsonObject → JsonObject
    mapped_fields empty = empty
    mapped_fields (field name value rest) =
        field (platform.nfc name) (mapped value) (mapped_fields rest)

  -- Strings and names are in normal form, names are distinct, and no number is a float.
  unfoldable mutual
    pub IsNormal : Json → Type 0
    IsNormal null = Unit
    IsNormal (boolean b) = Unit
    IsNormal (integer n) = Unit
    IsNormal (negative n) = Unit
    IsNormal (floating f) = ⊥
    IsNormal (string s) = platform.nfc s ≡ s
    IsNormal (array xs) = AreNormal xs
    IsNormal (object o) = HasNormal o

    pub AreNormal : Items → Type 0
    AreNormal nil = Unit
    AreNormal (item x xs) = IsNormal x × AreNormal xs

    pub HasNormal : JsonObject → Type 0
    HasNormal empty = Unit
    HasNormal (field name value rest) =
        (platform.nfc name ≡ name) × IsNormal value × (has_field name rest ≡ false) × HasNormal rest

module _ (platform : Platform) where
  -- No name of the first is one of the second.
  abbrev AreDisjoint : JsonObject → JsonObject → Type 0
  AreDisjoint o done = (name : String) → has_field name o ≡ true → has_field name done ≡ false

  disjoint_next :
      (done rest : JsonObject) (n : String) (v : Json)
      → has_field n rest ≡ false
      → AreDisjoint (field n v rest) done
      → AreDisjoint rest (append_field done n v)
  unfolding has_field
  disjoint_next done rest n v alone disjoint name inside =
      has_field-append_field done name n v ∙ (elim (Bool-cases (n == name)) [
        | inl e ↦ ground (arith, alone, inside, e)
        | inr e ↦ ground (arith, e, disjoint name (ground (arith, inside)))
      ])

  mutual
    unfolding normalize normalize_items normalize_fields IsNormal AreNormal HasNormal join has_field
        mapped mapped_items mapped_fields

    -- What maps to a normal document is accepted, and normalized to that.
    pub normalize-accepts :
        (j : Json)
        → IsNormal platform (mapped platform j)
        → normalize platform j ≡ ok (mapped platform j)
    normalize-accepts null k = refl
    normalize-accepts (boolean b) k = refl
    normalize-accepts (integer n) k = refl
    normalize-accepts (negative n) k = refl
    normalize-accepts (floating f) k = elim k [ ]
    normalize-accepts (string s) k = refl
    normalize-accepts (array xs) k = rw (items_accepted xs k) refl
    normalize-accepts (object o) k = rw (fields_accepted o empty k (λ name inside. refl)) refl

    items_accepted :
        (xs : Items)
        → AreNormal platform (mapped_items platform xs)
        → normalize_items platform xs ≡ ok (mapped_items platform xs)
    items_accepted nil k = refl
    items_accepted (item x xs) (k, ks) = rw (normalize-accepts x k, items_accepted xs ks) refl

    fields_accepted :
        (o done : JsonObject)
        → HasNormal platform (mapped_fields platform o)
        → AreDisjoint (mapped_fields platform o) done
        → normalize_fields platform o done ≡ ok (join done (mapped_fields platform o))
    fields_accepted empty done k disjoint = ap ok (sym (join-empty done))
    fields_accepted (field n v rest) done (stable, k, alone, ks) disjoint =
        let name = platform.nfc n in
        let fresh : has_field name done ≡ false = disjoint name (ground arith) in
        rw
          (
            fresh,
            normalize-accepts v k,
            fields_accepted rest (append_field done name (mapped platform v)) ks (
                disjoint_next done (mapped_fields platform rest) name (mapped platform v) alone
                  disjoint),
          )
          (ap ok (join-append_field done (mapped_fields platform rest) name (mapped platform v)))

  mutual
    unfolding IsNormal AreNormal HasNormal mapped mapped_items mapped_fields

    -- A normal document maps to itself.
    pub mapped-fixed : (j : Json) → IsNormal platform j → mapped platform j ≡ j
    mapped-fixed null k = refl
    mapped-fixed (boolean b) k = refl
    mapped-fixed (integer n) k = refl
    mapped-fixed (negative n) k = refl
    mapped-fixed (floating f) k = refl
    mapped-fixed (string s) k = ap string k
    mapped-fixed (array xs) k = ap array (mapped_items-fixed xs k)
    mapped-fixed (object o) k = ap object (mapped_fields-fixed o k)

    mapped_items-fixed : (xs : Items) → AreNormal platform xs → mapped_items platform xs ≡ xs
    mapped_items-fixed nil k = refl
    mapped_items-fixed (item x xs) (k, ks) = rw (mapped-fixed x k, mapped_items-fixed xs ks) refl

    mapped_fields-fixed : (o : JsonObject) → HasNormal platform o → mapped_fields platform o ≡ o
    mapped_fields-fixed empty k = refl
    mapped_fields-fixed (field n v rest) (stable, k, alone, ks) =
        rw (stable, mapped-fixed v k, mapped_fields-fixed rest ks) refl
