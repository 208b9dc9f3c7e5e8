-- ===== src/Services/Findings/Upsert.antt =====
-- What the update of the fixed deck leaves alone.
use slidelens.Prelude.{ℕ, refl, Bool, Option, none, some, List}
use slidelens.Prelude.Exec.{Result, ok, err}
use slidelens.Entities.{FileName, Bytes, FileAsset, fixed_pptx}
use slidelens.Services.{World, Error}
use slidelens.Services.Frame.{Keeps, Keeps-bind, IgnoresFiles}
use slidelens.Services.Storage.{save}
use slidelens.Services.Storage.Laws.{save-Keeps, save_file_asset-Keeps}
use slidelens.Services.Findings.{replace_fixed, upsert_found, upsert_fixed_pptx}

module _ {W X : Type 0} (φ : World W → X) (ignores : IgnoresFiles φ) (root : List FileName)
    (fails : Bool) (expires_at : ℕ) where
  upsert_found-Keeps :
      (review_id : ℕ) (deck_filename : FileName) (content : Bytes)
      (found : Result Error (Option FileAsset))
      → Keeps φ (upsert_found root fails expires_at review_id deck_filename content found)
  unfolding upsert_found replace_fixed
  upsert_found-Keeps review_id deck_filename content (err e) = λ s. refl
  upsert_found-Keeps review_id deck_filename content (ok none) =
      save_file_asset-Keeps φ ignores root fails review_id fixed_pptx _ content expires_at 1
  upsert_found-Keeps review_id deck_filename content (ok (some existing)) =
      Keeps-bind φ (save root fails review_id existing.id _ content) _
        (save-Keeps φ ignores root fails review_id existing.id _ content)
        (λ path s. ignores.ignores_assets s _)

  pub upsert_fixed_pptx-Keeps :
      (review_id : ℕ) (deck_filename : FileName) (content : Bytes)
      → Keeps φ (upsert_fixed_pptx root fails expires_at review_id deck_filename content)
  unfolding upsert_fixed_pptx
  upsert_fixed_pptx-Keeps review_id deck_filename content s =
      upsert_found-Keeps review_id deck_filename content _ s
