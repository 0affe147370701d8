-- ===== src/Attribution.antt =====
-- attribution.py: the bytes that `_package_tree_digest` hashes, for a list of files in order. The
-- walk over the directory and SHA-256 are outside.
use threvo_actions.Prelude.{
  ◌<◌, ◌≡◌, ◌≢◌, append_assoc, refl, sym, ap, ◌∙◌, List, [], ◌∷◌, ◌++◌, length, arith,
}
use threvo_actions.Canonical.{Bytes, to_bytes}
use threvo_actions.Canonical.Framing.{
  append_cancel, capacity, length-append, length-to_bytes, same_number,
}

-- One file: its path below the root and its contents.
pub record PackageFile : Type 0 where
  pub relative : Bytes
  pub payload : Bytes

-- The `update` calls for one part.
unfoldable pub framed : Bytes → Bytes
framed part = to_bytes 8 (length part) ++ part

unfoldable pub package_tree : List PackageFile → Bytes
unfolding framed
package_tree [] = []
package_tree (file ∷ files) = framed file.relative ++ (framed file.payload ++ package_tree files)

-- Each length fits in its eight bytes.
pub data AreWritable : List PackageFile → Type 0 where
  no_files : AreWritable []
  one_file :
      {file : PackageFile} {files : List PackageFile}
      → length file.relative < 18_446_744_073_709_551_616
      → length file.payload < 18_446_744_073_709_551_616
      → AreWritable files
      → AreWritable (file ∷ files)

-- A framed part can be read off the front.
framed-cancel :
    (x y rest rest' : Bytes)
    → length x < 18_446_744_073_709_551_616
    → length y < 18_446_744_073_709_551_616
    → (framed x ++ rest) ≡ (framed y ++ rest')
    → (x ≡ y) × (rest ≡ rest')
unfolding framed capacity
framed-cancel x y rest rest' short short' h =
    let regrouped =
      sym (append_assoc (to_bytes 8 (length x)) x rest)
      ∙ (h ∙ append_assoc (to_bytes 8 (length y)) y rest') in
    let (size, after) =
      append_cancel (to_bytes 8 (length x)) (to_bytes 8 (length y)) (x ++ rest) (y ++ rest')
        (length-to_bytes 8 (length x) ∙ sym (length-to_bytes 8 (length y))) regrouped in
    append_cancel x y rest rest' (same_number 8 (length x) (length y) short short' size) after

-- Something is written for a file.
no_empty_tree : (file : PackageFile) (files : List PackageFile) → [] ≢ package_tree (file ∷ files)
unfolding package_tree framed
no_empty_tree file files h =
    let n = length file.relative in
    omega (
      arith,
      ap length h,
      length-append (to_bytes 8 n ++ file.relative) (framed file.payload ++ package_tree files),
      length-append (to_bytes 8 n) file.relative,
      length-to_bytes 8 n,
    )

-- The hashed bytes tell the list of the files, their paths and their contents, if each length fits in
-- the eight bytes written for it.
pub package_tree-injective :
    (xs ys : List PackageFile)
    → AreWritable xs
    → AreWritable ys
    → package_tree xs ≡ package_tree ys
    → xs ≡ ys
unfolding package_tree
package_tree-injective [] [] none_here none_there h = refl
package_tree-injective [] (y ∷ ys) none_here some_there h = absurd (no_empty_tree y ys h)
package_tree-injective (x ∷ xs) [] some_here none_there h = absurd (no_empty_tree x xs (sym h))
package_tree-injective (x ∷ xs) (y ∷ ys) (one_file a b more) (one_file a' b' more') h =
    let (relative, after) = framed-cancel x.relative y.relative _ _ a a' h in
    let (payload, rest) = framed-cancel x.payload y.payload _ _ b b' after in
    let tails = package_tree-injective xs ys more more' rest in
    ground (arith, relative, payload, tails)
