-- ===== src/Services/Storage/Files.antt =====
-- What is read after a file was written or removed.
use slidelens.Prelude.{
  ℕ, ◌≡◌, refl, ap, Bool, true, false, Option, none, some, List, [], ◌∷◌, arith, Bool-cases, inl,
  inr,
}
use slidelens.Prelude.Exec.{Result, ok, err, continue}
use slidelens.Prelude.Text.{same_codes}
use slidelens.Entities.{FileName, Bytes}
use slidelens.Services.{World, Error, other}
use slidelens.Services.Storage.{
  absolute, found_path, resolved, written, write_file, read_file, read_found, remove_file,
  storage_path_of, save, open_file, delete,
}

same_codes_refl : (s : List ℕ) → same_codes s s ≡ true
unfolding same_codes
same_codes_refl [] = refl
same_codes_refl (c ∷ s) = ground (arith, same_codes_refl s)

read_file-remove_file :
    (path : FileName) (files : List (FileName × Bytes))
    → read_file path (remove_file path files) ≡ none
unfolding read_file remove_file
read_file-remove_file path [] = refl
read_file-remove_file path ((name, content) ∷ files) = elim (Bool-cases (same_codes path name)) [
  | inl e ↦ rw e (read_file-remove_file path files)
  | inr e ↦ rw (e, e) (read_file-remove_file path files)
]

read_file_first :
    (path : FileName) (content : Bytes) (files : List (FileName × Bytes))
    → read_file path ((path, content) ∷ files) ≡ some content
unfolding read_file
read_file_first path content files = rw (same_codes_refl path) refl

module _ {W : Type 0} (root : List FileName) where
  -- The path that a file was saved under leads to it, and after its deletion to no file.
  abbrev pub Stored : Bytes → Result Error FileName × World W → Type 0
  Stored content (err e, t) = Unit {0}
  Stored content (ok path, t) =
      (open_file root path t ≡ (ok content, t))
      × ((open_file root path (delete root path t).1).0 ≡ err (other "FileNotFoundError"))

  read_found_lem :
      (path : FileName) (s : World W) (o : Option Bytes)
      → read_file path s.files ≡ o
      → read_found root path s
        ≡ (elim o [ none ↦ err (other "FileNotFoundError") | some c ↦ ok c ], s)
  unfolding read_found
  read_found_lem path s o e =
      ap (λ o. (elim o [ none ↦ err (other "FileNotFoundError") | some c ↦ ok c ], s)) e

  found_path-Stored :
      (fails : Bool) (relative : FileName) (content : Bytes) (o : Option FileName) (s : World W)
      → absolute root relative ≡ o
      → Stored content
          (continue (found_path o s).0 (written fails relative content) (found_path o s).1)
  unfolding open_file delete resolved written write_file
  found_path-Stored true relative content (some path) s found = tt
  found_path-Stored fails relative content none s found = tt
  found_path-Stored false relative content (some path) s found =
      let files = (path, content) ∷ remove_file path s.files in
      rw found (
        read_found_lem path (record s { files = files }) (some content)
            (read_file_first path content _),
        ap (λ p. p.0)
            (read_found_lem path (record s { files = remove_file path files }) none
              (read_file-remove_file path files)),
      )

  -- What was saved can be opened under the path that `save` returned, with its content; and once it is
  -- deleted, opening it is `FileNotFoundError`.
  pub save-Stored :
      (fails : Bool) (review_id asset_id : ℕ) (filename : FileName) (content : Bytes) (s : World W)
      → Stored content (save root fails review_id asset_id filename content s)
  unfolding save resolved
  save-Stored fails review_id asset_id filename content s =
      let relative = storage_path_of review_id asset_id filename in
      found_path-Stored fails relative content (absolute root relative) s refl
