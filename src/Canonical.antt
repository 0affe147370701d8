-- ===== src/Canonical.antt =====
-- canonical.py: the commitment and the protected payload that a stored proposal carries, and the
-- canonical form of JSON values. Unicode normalisation, UTF-8 and `json.dumps` are parameters.
pub mod Fields
pub mod Framing
pub mod Mapped
pub mod Normal
use Prim.Native.Nat.{◌/◌, ◌%◌}
use threvo_actions.Prelude.{
  ℕ, zero, suc, String, String-discrete, string_eq, List, [], ◌∷◌, ◌++◌, Bool, false, ◌||◌, ◌==◌,
  length, if◌then◌else◌,
}
use threvo_actions.Json.{
  Json, Items, JsonObject, null, boolean, integer, negative, floating, string, array, object, nil,
  item, empty, field,
}
use threvo_actions.Result.{Result, ok, err, value_error, type_error, ◌>>=◌}
use threvo_actions.Model.{SafeReference}

pub record KeyedCommitment : Type 0 where
  pub algorithm : String
  pub key_handle : SafeReference
  pub key_version : SafeReference
  pub digest : SafeReference

pub record ProtectedPayload : Type 0 where
  pub codec : SafeReference
  pub key_handle : SafeReference
  pub key_version : SafeReference
  pub ciphertext : String

unfoldable pub KeyedCommitment-discrete : Discrete KeyedCommitment
KeyedCommitment-discrete = hlevel String-discrete

unfoldable pub ProtectedPayload-discrete : Discrete ProtectedPayload
ProtectedPayload-discrete = hlevel String-discrete

abbrev pub Bytes : Type 0
Bytes = List ℕ

-- The parts of the Python runtime that the canonical form rests on.
pub record Platform : Type 0 where
  -- `unicodedata.normalize("NFC", s)`
  pub nfc : String → String
  -- `s.encode("utf-8")` of a reference, whose characters UTF-8 can encode
  pub utf8 : String → Bytes
  -- `json.dumps(..., sort_keys=True, ...)`
  pub dumps : Json → Result String
  -- `s.encode("utf-8")` of a text that may hold what UTF-8 cannot encode
  pub encode : String → Result Bytes

-- `name in d`
unfoldable pub has_field : String → JsonObject → Bool
has_field name empty = false
has_field name (field n v rest) = n == name || has_field name rest

unfoldable pub append_field : JsonObject → String → Json → JsonObject
append_field empty name value = field name value empty
append_field (field n v rest) name value = field n v (append_field rest name value)

-- `n.to_bytes(width, "big")`, without the overflow check, which no reference or payload meets.
unfoldable pub to_bytes : ℕ → ℕ → Bytes
to_bytes zero n = []
to_bytes (suc width) n = to_bytes width (n / 256) ++ (n % 256) ∷ []

module _ (platform : Platform) where
  unfoldable mutual
    pub normalize : Json → Result Json
    normalize null = ok null
    normalize (boolean b) = ok (boolean b)
    normalize (integer n) = ok (integer n)
    normalize (negative n) = ok (negative n)
    normalize (floating f) = err value_error
    normalize (string s) = ok (string (platform.nfc s))
    normalize (array xs) = do items ← normalize_items xs; ok (array items)
    normalize (object o) = do fields ← normalize_fields o empty; ok (object fields)

    pub normalize_items : Items → Result Items
    normalize_items nil = ok nil
    normalize_items (item x xs) = do y ← normalize x; ys ← normalize_items xs; ok (item y ys)

    -- The dictionary built so far is the second argument.
    pub normalize_fields : JsonObject → JsonObject → Result JsonObject
    normalize_fields empty done = ok done
    normalize_fields (field name value rest) done =
        let next = (do
          v ← normalize value
          normalize_fields rest (append_field done (platform.nfc name) v)) in
        if has_field (platform.nfc name) done then err value_error else next

  -- `CanonicalizationError` is a `ValueError`.
  unfoldable pub canonical_text : Result String → Result String
  canonical_text (err type_error) = err value_error
  canonical_text raised_or_text = raised_or_text

  unfoldable pub canonicalize_v1 : Json → Result Bytes
  unfolding canonical_text
  canonicalize_v1 document = do
    normalized ← normalize document
    encoded ← canonical_text (platform.dumps normalized)
    platform.encode encoded

  unfoldable pub commitment_payload_v1 : SafeReference → Bytes → Bytes
  commitment_payload_v1 proposal_reference payload =
      let reference = platform.utf8 (platform.nfc proposal_reference) in
      platform.utf8 "threvo-actions:proposal-commitment:v1"
      ++ (to_bytes 4 (length reference) ++ (reference ++ (to_bytes 8 (length payload) ++ payload)))
