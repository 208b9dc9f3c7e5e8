-- ===== src/Worker/Steps.antt =====
-- What the steps of `process_review` leave alone.
use slidelens.Prelude.{ℕ, ◌+◌, refl, Bool, Option, none, some, List, [], ◌∷◌}
use slidelens.Entities.{Review, FileAsset, FileName, Bytes, annotated_png, slide_png, report_pdf}
use slidelens.Services.{World}
use slidelens.Services.Frame.{Keeps, Keeps-bind, IgnoresFiles}
use slidelens.Services.Storage.{save_file_asset, open_file}
use slidelens.Services.Storage.Laws.{save_file_asset-Keeps, open_file-Keeps}
use slidelens.Services.Findings.{upsert_fixed_pptx}
use slidelens.Services.Findings.Upsert.{upsert_fixed_pptx-Keeps}
use slidelens.Worker.{
  Inputs, PipelineOutput, Site, download, has_deck, download_inputs, save_slides, asset_for,
  asset_of, save_annotations, save_fixed, persist_files,
}

module _ {W : Type 0} (root : List FileName) where
  download-Keeps :
      (assets : List FileAsset) (inputs : Inputs)
      → Keeps (λ (s : World W). s) (download root assets inputs)
  unfolding download
  download-Keeps [] inputs = λ s. refl
  download-Keeps (asset ∷ assets) inputs =
      Keeps-bind (λ s. s) (open_file root asset.storage_path) _
        (open_file-Keeps root asset.storage_path) (λ content. download-Keeps assets _)

  pub download_inputs-Keeps :
      (review : Review W) → Keeps (λ (s : World W). s) (download_inputs root review)
  unfolding download_inputs has_deck
  download_inputs-Keeps review s =
      Keeps-bind (λ s. s) (download root _ _) (has_deck root) (download-Keeps _ _)
        (λ inputs s. refl) s

  module _ (fails : Site → Bool) (now expires_at : ℕ) {X : Type 0} (φ : World W → X)
      (ignores : IgnoresFiles φ) where
    save_slides-Keeps :
        (review_id n : ℕ) (pngs : List Bytes)
        → Keeps φ (save_slides root fails now expires_at review_id n pngs)
    unfolding save_slides
    save_slides-Keeps review_id n [] = λ s. refl
    save_slides-Keeps review_id n (png ∷ pngs) =
        Keeps-bind φ (save_file_asset root _ review_id slide_png _ png expires_at 1) _
          (save_file_asset-Keeps φ ignores root _ review_id slide_png _ png expires_at 1)
          (λ _. save_slides-Keeps review_id (n + 1) pngs)

    asset_for-Keeps :
        (review_id : ℕ) (pictures : FileName → Bytes) (path : FileName) (o : Option ℕ)
        → Keeps φ (asset_for root fails now expires_at review_id pictures path o)
    unfolding asset_for
    asset_for-Keeps review_id pictures path (some id) = λ s. refl
    asset_for-Keeps review_id pictures path none =
        Keeps-bind φ
          (save_file_asset root _ review_id annotated_png path (pictures path) expires_at 1) _
          (save_file_asset-Keeps φ ignores root _ review_id annotated_png path (pictures path)
            expires_at 1)
          (λ _ s. refl)

    save_annotations-Keeps :
        (review_id : ℕ) (pictures : FileName → Bytes) (saved : List (FileName × ℕ))
        (annotations : List (ℕ × FileName))
        → Keeps φ (save_annotations root fails now expires_at review_id pictures saved annotations)
    unfolding save_annotations
    save_annotations-Keeps review_id pictures saved [] = λ s. refl
    save_annotations-Keeps review_id pictures saved ((finding_id, path) ∷ annotations) =
        Keeps-bind φ
          (asset_for root fails now expires_at review_id pictures path (asset_of path saved)) _
          (asset_for-Keeps review_id pictures path (asset_of path saved))
          (λ asset_id.
            Keeps-bind φ
              (save_annotations root fails now expires_at review_id pictures
                ((path, asset_id) ∷ saved) annotations)
              _ (save_annotations-Keeps review_id pictures ((path, asset_id) ∷ saved) annotations)
              (λ _ s. refl))

    save_fixed-Keeps :
        (review : Review W) (fixed : Option Bytes)
        → Keeps φ (save_fixed root fails now expires_at review fixed)
    unfolding save_fixed
    save_fixed-Keeps review none = λ s. refl
    save_fixed-Keeps review (some content) =
        Keeps-bind φ (upsert_fixed_pptx root _ expires_at review.id review.deck_filename content) _
          (upsert_fixed_pptx-Keeps φ ignores root _ expires_at review.id review.deck_filename
            content)
          (λ _ s. refl)

    pub persist_files-Keeps :
        (review : Review W) (output : PipelineOutput W)
        → Keeps φ (persist_files root fails now expires_at review output)
    unfolding persist_files
    persist_files-Keeps review output =
        Keeps-bind φ (save_slides root fails now expires_at review.id 1 output.slide_pngs) _
          (save_slides-Keeps review.id 1 output.slide_pngs)
          (λ _.
            Keeps-bind φ
              (save_annotations root fails now expires_at review.id output.pictures []
                output.annotations)
              _ (save_annotations-Keeps review.id output.pictures [] output.annotations)
              (λ shots.
                Keeps-bind φ (save_fixed root fails now expires_at review output.fixed) _
                  (save_fixed-Keeps review output.fixed)
                  (λ _.
                    Keeps-bind φ
                      (save_file_asset root _ review.id report_pdf _ output.pdf_bytes expires_at 1)
                      _
                      (save_file_asset-Keeps φ ignores root _ review.id report_pdf _
                        output.pdf_bytes expires_at 1)
                      (λ _ s. refl))))
