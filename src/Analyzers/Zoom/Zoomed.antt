-- ===== src/Analyzers/Zoom/Zoomed.antt =====
-- A slide's zooms, whatever the model answers (backend/core/analyzers/zoom.py).
use slidelens.Prelude.{ℕ, ◌≡◌, ◌⊎◌, ◌<◌, Option, some, List, [], ◌∷◌}
use slidelens.Prelude.Exec.{Exec, Result, ok, err}
use slidelens.Double.{Double, IsDouble}
use slidelens.Schemas.{Finding}
use slidelens.Entities.{FileName}
use slidelens.Services.{Error}
use slidelens.Analyzers.Responses.{Models}
use slidelens.Analyzers.Zoom.{crop_path, zoom_prompt}
use slidelens.Analyzers.Zoom.Accepted.{Accepts, IsOverflow}

module _ {W : Type 0} ⦃d : Double W⦄ {S : Type 0} (l : IsDouble W) (models : Models S W)
    (image_size : FileName → Result Error (ℕ × ℕ)) (save_error : FileName → Option Error)
    (workdir : FileName) (id : ℕ → ℕ → ℕ) (n : ℕ) (png : FileName) where
  -- The exception is one that the reading of the picture, the saving of a crop or a call of the model
  -- raised, or the one for a box of the model's that is too large.
  abbrev pub Raised : Error → Type 0
  Raised e =
      (image_size png ≡ err e)
      ⊎ (((index : ℕ) × (save_error (crop_path workdir n index) ≡ some e))
          ⊎ (((index : ℕ) × (s : S) × ((models.slide_view "slide_analysis"
                    (crop_path workdir n index ∷ [])
                    (zoom_prompt models image_size save_error workdir id n png) s).0
                  ≡ err e))
              ⊎ IsOverflow e))

  -- A picture has a pixel.
  abbrev pub HasPixels : Type 0
  HasPixels = (w h : ℕ) → image_size png ≡ ok (w, h) → (0 < w) × (0 < h)

  abbrev pub Zoomed : List (Finding W) → Result Error (List (Finding W)) × S → Type 0
  Zoomed known (ok accepted, s) = Accepts n known accepted
  Zoomed known (err e, s) = Raised e
