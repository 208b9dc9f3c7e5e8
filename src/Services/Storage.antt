-- ===== src/Services/Storage.antt =====
-- Files under a root directory (backend/app/services/storage.py) and the rows that describe them
-- (backend/app/services/file_assets.py). A root is the list of its path's parts.
pub mod Laws
pub mod Files
use slidelens.Prelude.{
  ℕ, ◌+◌, ◌≡◌, Bool, true, false, not, ◌&&◌, Option, none, some, List, [], ◌∷◌, ◌++◌, filter,
  length, ltb, ◌==◌, ◌||◌, if◌then◌else◌, String,
}
use mathlib.Core.List.{reverse}
use slidelens.Prelude.Exec.{Exec, Result, ok, err, pure, raise, ◌>>=◌, ◌>>◌}
use slidelens.Prelude.Table.{alter}
use slidelens.Prelude.Text.{
  codes, path_name, show, same_codes, split_parts, join_parts, starts_with,
}
use slidelens.Entities.{FileName, Bytes, FileAsset, FileAssetKind, Db}
use slidelens.Services.{World, Action, Error, other, with_db, may_fail, uuid4}

-- `Path.resolve` without links: `..` goes up, `.` stays.
resolve : List FileName → List FileName → List FileName
resolve up [] = up
resolve up (part ∷ parts) =
    resolve
      (if same_codes part (codes "..")
        then (elim up [ [] ↦ [] | _ ∷ above ↦ above ])
        else if same_codes part [] || same_codes part (codes ".")
        then up
        else part ∷ up)
      parts

-- `self.root / storage_path`, resolved: the joined path starts anew at a leading slash.
unfoldable pub joined : List FileName → FileName → FileName
unfolding resolve
joined root storage_path =
    let base = (if starts_with storage_path (codes "/") then [] else reverse root) in
    join_parts (reverse (resolve base (split_parts storage_path)))

-- `LocalStorage._absolute`; `none` is the `ValueError`.
unfoldable pub absolute : List FileName → FileName → Option FileName
absolute root storage_path =
    let path = joined root storage_path in
    if starts_with path (join_parts root) then some path else none

-- `{review_id}/{asset_id}_{name}`
pub storage_path_of : ℕ → ℕ → FileName → FileName
storage_path_of review_id asset_id filename =
    codes (show review_id) ++ codes "/" ++ codes (show asset_id) ++ codes "_" ++ path_name filename

pub read_file : FileName → List (FileName × Bytes) → Option Bytes
read_file path [] = none
read_file path ((name, content) ∷ files) =
    if same_codes path name then some content else read_file path files

pub remove_file : FileName → List (FileName × Bytes) → List (FileName × Bytes)
remove_file path [] = []
remove_file path ((name, content) ∷ files) =
    let rest = remove_file path files in
    if same_codes path name then rest else (name, content) ∷ rest

abbrev found_path : {W : Type 0} → Option FileName → Action W FileName
found_path none = raise (other "ValueError")
found_path (some path) = pure path

abbrev new_asset : ℕ → ℕ → FileAssetKind → Bytes → ℕ → ℕ → FileAsset
new_asset id review_id kind content expires_at version = record {
  id = id;
  review_id = review_id;
  kind = kind;
  storage_path = [];
  size_bytes = length content;
  version = version;
  expires_at = expires_at;
}

module _ {W : Type 0} where
  write_file : FileName → Bytes → Action W (Unit {0})
  write_file path content s =
      (ok tt, record s { files = (path, content) ∷ remove_file path s.files })

  -- `fails` is an error of the file system.
  written : Bool → FileName → Bytes → FileName → Action W FileName
  written fails relative content path = do may_fail fails; write_file path content; pure relative

  -- The path put into the row.
  set_path : FileAsset → FileName → Action W FileAsset
  set_path asset path = do
    with_db (λ db. record db {
      assets =
          alter (λ (a : FileAsset). a.id) asset.id (λ a. record a { storage_path = path })
            db.assets;
    })
    pure (record asset { storage_path = path })

module _ {W : Type 0} (root : List FileName) where
  resolved : FileName → Action W FileName
  resolved path = found_path (absolute root path)

  pub save : Bool → ℕ → ℕ → FileName → Bytes → Action W FileName
  unfolding written
  save fails review_id asset_id filename content =
      let relative = storage_path_of review_id asset_id filename in
      resolved relative >>= written fails relative content

  read_found : FileName → Action W Bytes
  read_found path s =
      (elim (read_file path s.files) [ none ↦ err (other "FileNotFoundError") | some c ↦ ok c ], s)

  pub open_file : FileName → Action W Bytes
  unfolding read_found
  open_file storage_path = resolved storage_path >>= read_found

  pub delete : FileName → Action W (Unit {0})
  delete storage_path = do
    path ← resolved storage_path
    (λ s. (ok tt, record s { files = remove_file path s.files }))

  save_bytes : Bool → FileName → Bytes → FileAsset → Action W FileAsset
  unfolding set_path
  save_bytes fails filename content asset =
      save fails asset.review_id asset.id filename content >>= set_path asset

  -- `save_file_asset`: the row first, for its identifier, and then the bytes under it.
  pub save_file_asset : Bool → ℕ → FileAssetKind → FileName → Bytes → ℕ → ℕ → Action W FileAsset
  unfolding save_bytes
  save_file_asset fails review_id kind filename content expires_at version = do
    id ← uuid4
    let asset = new_asset id review_id kind content expires_at version
    with_db (λ db. record db { assets = db.assets ++ asset ∷ [] })
    save_bytes fails filename content asset

  -- The rows past their time and their files; the number of rows removed.
  delete_rows : List FileAsset → Action W ℕ
  delete_rows [] = pure 0
  delete_rows (asset ∷ assets) = do
    (λ s. (
      ok tt,
      record s {
        files = remove_file (joined root asset.storage_path) s.files;
        db = record s.db {
          assets = filter (λ (a : FileAsset). not (a.id == asset.id)) s.db.assets;
        };
      },
    ))
    n ← delete_rows assets
    pure (n + 1)

  pub delete_expired : ℕ → Action W ℕ
  unfolding delete_rows
  delete_expired now s =
      delete_rows (filter (λ (a : FileAsset). ltb a.expires_at now) s.db.assets) s
