-- ===== src/Services/Storage/Laws.antt =====
-- What saving a file leaves alone.
use slidelens.Prelude.{ℕ, ◌≡◌, refl, ◌∙◌, Bool, none, some, List, [], ◌∷◌, ◌++◌, true, false, ◌+◌}
use slidelens.Prelude.Exec.{continue}
use slidelens.Entities.{FileName, Bytes, FileAsset, FileAssetKind}
use slidelens.Services.{World}
use slidelens.Services.Frame.{Keeps, Keeps-bind, IgnoresFiles}
use slidelens.Services.Storage.{
  absolute, storage_path_of, resolved, found_path, write_file, written, set_path, save_bytes,
  new_asset, save, save_file_asset, open_file, read_found,
}

module _ {W X : Type 0} (φ : World W → X) (ignores : IgnoresFiles φ) (root : List FileName) where
  resolved-Keeps : (path : FileName) → Keeps φ (resolved root path)
  unfolding resolved
  resolved-Keeps path s = elim (absolute root path) as (λ found. φ (found_path found s).1 ≡ φ s) [
    | none ↦ refl
    | some p ↦ refl
  ]

  written-Keeps :
      (fails : Bool) (relative : FileName) (content : Bytes) (path : FileName)
      → Keeps φ (written fails relative content path)
  unfolding written write_file
  written-Keeps true relative content path s = refl
  written-Keeps false relative content path s = ignores.ignores_files s _

  pub save-Keeps :
      (fails : Bool) (review_id asset_id : ℕ) (name : FileName) (content : Bytes)
      → Keeps φ (save root fails review_id asset_id name content)
  unfolding save
  save-Keeps fails review_id asset_id name content =
      let relative = storage_path_of review_id asset_id name in
      Keeps-bind φ (resolved root relative) (written fails relative content)
        (resolved-Keeps relative) (written-Keeps fails relative content)

  set_path-Keeps : (asset : FileAsset) (path : FileName) → Keeps φ (set_path asset path)
  unfolding set_path
  set_path-Keeps asset path s = ignores.ignores_assets s _

  pub save_file_asset-Keeps :
      (fails : Bool) (review_id : ℕ) (kind : FileAssetKind) (name : FileName) (content : Bytes)
      (expires_at version : ℕ)
      → Keeps φ (save_file_asset root fails review_id kind name content expires_at version)
  unfolding save_file_asset save_bytes
  save_file_asset-Keeps fails review_id kind name content expires_at version s =
      let asset = new_asset s.next_id review_id kind content expires_at version in
      let s' : World W = record s {
        next_id = s.next_id + 1;
        db = record s.db { assets = s.db.assets ++ asset ∷ [] };
      } in
      Keeps-bind φ (save root fails review_id s.next_id name content) (set_path asset)
        (save-Keeps fails review_id s.next_id name content) (set_path-Keeps asset) s'
      ∙ ignores.ignores_assets (record s { next_id = s.next_id + 1 }) (s.db.assets ++ asset ∷ [])
      ∙ ignores.ignores_ids s (s.next_id + 1)

module _ {W : Type 0} (root : List FileName) where
  -- Reading a file changes nothing.
  pub open_file-Keeps : (path : FileName) → Keeps (λ (s : World W). s) (open_file root path)
  unfolding open_file resolved
  open_file-Keeps path s =
      elim (absolute root path)
        as (λ found.
          (continue (found_path found s).0 (read_found root) (found_path found s).1).1 ≡ s) [
            | none ↦ refl
            | some p ↦ refl
          ]
