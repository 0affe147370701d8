-- ===== src/Canonical/Framing.antt =====
-- What a commitment binds: its payload names one reference and one canonical document.
use Prim.Native.Nat.{◌/◌, ◌%◌, ◌*◌}
use threvo_actions.Prelude.{
  ℕ, zero, suc, ◌+◌, ◌<◌, ◌≡◌, refl, sym, ap, ◌∙◌, List, [], ◌∷◌, ◌++◌, length, arith,
}
use threvo_actions.Model.{SafeReference}
use threvo_actions.Canonical.{Platform, Bytes, to_bytes, commitment_payload_v1}

pub length-append {ℓ} : {A : Type ℓ} (xs ys : List A) → length (xs ++ ys) ≡ length xs + length ys
length-append [] ys = omega arith
length-append (x ∷ xs) ys = ground (arith, length-append xs ys)

-- Two equal sequences whose first parts are of one length.
pub append_cancel {ℓ} :
    {A : Type ℓ} (xs ys us vs : List A)
    → length xs ≡ length ys
    → (xs ++ us) ≡ (ys ++ vs)
    → (xs ≡ ys) × (us ≡ vs)
append_cancel [] [] us vs same h = (refl, h)
append_cancel [] (y ∷ ys) us vs same h = ground arith
append_cancel (x ∷ xs) [] us vs same h = ground arith
append_cancel (x ∷ xs) (y ∷ ys) us vs same h =
    let (front, back) = append_cancel xs ys us vs (ground arith) (ground arith) in
    (ground arith, back)

pub length-to_bytes : (width n : ℕ) → length (to_bytes width n) ≡ width
unfolding to_bytes
length-to_bytes zero n = refl
length-to_bytes (suc width) n =
    length-append (to_bytes width (n / 256)) _ ∙ ground (arith, length-to_bytes width (n / 256))

-- The number that bytes spell, the highest first.
number : ℕ → Bytes → ℕ
number high [] = high
number high (b ∷ bs) = number (high * 256 + b) bs

number-append :
    (high : ℕ) (bs : Bytes) (b : ℕ) → number high (bs ++ (b ∷ [])) ≡ number high bs * 256 + b
unfolding number
number-append high [] b = refl
number-append high (c ∷ bs) b = number-append (high * 256 + c) bs b

-- The numbers of a width.
unfoldable pub capacity : ℕ → ℕ
capacity zero = 1
capacity (suc width) = capacity width * 256

number-to_bytes : (width n : ℕ) → n < capacity width → number 0 (to_bytes width n) ≡ n
unfolding to_bytes number capacity
number-to_bytes zero n fits = omega arith
number-to_bytes (suc width) n fits =
    number-append 0 (to_bytes width (n / 256)) (n % 256)
    ∙ omega (arith, number-to_bytes width (n / 256) (omega arith))

-- Numbers of a width are told by their bytes.
pub same_number :
    (width a b : ℕ)
    → a < capacity width
    → b < capacity width
    → to_bytes width a ≡ to_bytes width b
    → a ≡ b
same_number width a b fits fits' h =
    sym (number-to_bytes width a fits) ∙ (ap (number 0) h ∙ number-to_bytes width b fits')

-- Two commitment payloads are equal only if the documents are, and the encodings of the normalized
-- references are, provided that each is shorter than the four bytes of its length can tell.
pub commitment_binds :
    (platform : Platform) (r s : SafeReference) (x y : Bytes)
    → length (platform.utf8 (platform.nfc r)) < 4_294_967_296
    → length (platform.utf8 (platform.nfc s)) < 4_294_967_296
    → commitment_payload_v1 platform r x ≡ commitment_payload_v1 platform s y
    → (platform.utf8 (platform.nfc r) ≡ platform.utf8 (platform.nfc s)) × (x ≡ y)
unfolding commitment_payload_v1 capacity
commitment_binds platform r s x y short short' h =
    let a = platform.utf8 (platform.nfc r) in
    let b = platform.utf8 (platform.nfc s) in
    let label = platform.utf8 "threvo-actions:proposal-commitment:v1" in
    let (same_label, after_label) = append_cancel label label _ _ refl h in
    let (same_size, after_size) =
      append_cancel (to_bytes 4 (length a)) (to_bytes 4 (length b)) _ _
        (length-to_bytes 4 (length a) ∙ sym (length-to_bytes 4 (length b))) after_label in
    let size : length a ≡ length b =
      sym (number-to_bytes 4 (length a) short)
      ∙ (ap (number 0) same_size ∙ number-to_bytes 4 (length b) short') in
    let (same, after) = append_cancel a b _ _ size after_size in
    let (same_length, documents) =
      append_cancel (to_bytes 8 (length x)) (to_bytes 8 (length y)) x y
        (length-to_bytes 8 (length x) ∙ sym (length-to_bytes 8 (length y))) after in
    (same, documents)
