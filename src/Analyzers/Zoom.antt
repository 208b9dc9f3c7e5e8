-- ===== src/Analyzers/Zoom.antt =====
-- The zoom agent (backend/core/analyzers/zoom.py). `image_size` is the width and height that Pillow
-- reads from a picture, or its exception, and `save_error` the exception of saving a crop, if there is
-- one.
pub mod Crops
pub mod Accepted
pub mod Zoomed
use slidelens.Prelude.{
  ℕ, zero, suc, ◌+◌, ◌-◌, ◌*◌, ◌≡◌, String, Bool, true, false, ◌&&◌, ◌||◌, Option, none, some, List,
  [], ◌∷◌, ◌++◌, filter, map, take, leb, ltb, length, if◌then◌else◌,
}
use Prim.Native.Nat.{min}
use slidelens.Prelude.Int.{ℤ, pos, negsuc}
use slidelens.Prelude.Exec.{Exec, Result, ok, err, lift, pure, gather, ◌>>=◌}
use slidelens.Prelude.Text.{codes, show}
use slidelens.Prelude.Sort.{sort_by}
use slidelens.Double.{Double, ◌⊕◌, ◌⊗◌, ◌⊘◌}
use slidelens.Schemas.{BBox, Finding, bbox_of, same_slide}
use slidelens.Geometry.{iou, project_into, box_2d_to_bbox}
use slidelens.Entities.{FileName}
use slidelens.Services.{Error, other}
use slidelens.Analyzers.{Context, slide_png}
use slidelens.Analyzers.Responses.{SlideAnalysisResponse, SuspiciousRegionIn, Models, findings_from}

-- `max(0, min(most, v))`
unfoldable pub clamp_pixel : ℕ → ℤ → ℕ
clamp_pixel most (pos n) = min most n
clamp_pixel most (negsuc n) = 0

-- The pixels of a crop.
pub record Crop : Type 0 where
  pub left : ℕ
  pub top : ℕ
  pub right : ℕ
  pub bottom : ℕ

-- An area without a pixel gives way to the whole picture.
unfoldable pub crop_or_all : ℕ → ℕ → Crop → Crop
crop_or_all width height crop =
    if leb crop.right crop.left || leb crop.bottom crop.top
    then record { left = 0; top = 0; right = width; bottom = height }
    else crop

-- `f"{n:0{digits}d}"`
unfoldable pub padded : ℕ → ℕ → List ℕ
padded digits n = zeros (digits - length (codes (show n))) ++ codes (show n)
  where
    zeros : ℕ → List ℕ
    zeros zero = []
    zeros (suc k) = b'0' ∷ zeros k

abbrev pub crop_path : FileName → ℕ → ℕ → FileName
crop_path workdir slide_num index =
    workdir
    ++ codes "/slide_"
    ++ padded 3 slide_num
    ++ codes "_zoom_"
    ++ padded 2 index
    ++ codes ".png"

module _ {W : Type 0} ⦃d : Double W⦄ where
  unfoldable pub pixel : ℕ → W → ℕ
  unfolding clamp_pixel
  pixel size v = clamp_pixel size (d.rounded (v ⊗ d.of_int (pos size)))

  -- The pixels that a box asks for.
  abbrev pub asked : BBox W → ℕ → ℕ → Crop
  asked bbox width height = record {
    left = pixel width bbox.x;
    top = pixel height bbox.y;
    right = pixel width (bbox.x ⊕ bbox.w);
    bottom = pixel height (bbox.y ⊕ bbox.h);
  }

  unfoldable pub crop_of : BBox W → ℕ → ℕ → Crop
  unfolding crop_or_all
  crop_of bbox width height = crop_or_all width height (asked bbox width height)

  abbrev pub ratio : ℕ → ℕ → W
  ratio part whole = d.of_int (pos part) ⊘ d.of_int (pos whole)

  -- The box of a crop in fractions of the slide; `none` is a `ValidationError`.
  unfoldable pub actual_box : ℕ → ℕ → Crop → Option (BBox W)
  actual_box width height crop =
      bbox_of (ratio crop.left width) (ratio crop.top height) (ratio (crop.right - crop.left) width)
        (ratio (crop.bottom - crop.top) height)

  unfoldable pub overlaps : BBox W → Option (BBox W) → Bool
  overlaps bbox none = false
  overlaps bbox (some known) = d.lt (d.lit 1 2) (iou bbox known)

  unfoldable pub overlaps_any : BBox W → List (Finding W) → Bool
  unfolding overlaps
  overlaps_any bbox [] = false
  overlaps_any bbox (f ∷ existing) = overlaps bbox f.bbox || overlaps_any bbox existing

  unfoldable pub duplicates : Option (BBox W) → List (Finding W) → Bool
  unfolding overlaps_any
  duplicates none existing = false
  duplicates (some bbox) existing = overlaps_any bbox existing

  -- `_is_duplicate`, with the threshold 0.5
  abbrev pub is_zoom_duplicate : Finding W → List (Finding W) → Bool
  is_zoom_duplicate finding existing = duplicates finding.bbox existing

  unfoldable pub with_projection : Finding W → Option (BBox W) → Result Error (Finding W)
  with_projection finding none = err (other "ValidationError")
  with_projection finding (some bbox) = ok (record finding { bbox = some bbox })

  -- A finding's box from the crop's coordinates into the slide's.
  unfoldable pub projected : BBox W → Finding W → Option (BBox W) → Result Error (Finding W)
  unfolding with_projection
  projected crop_bbox finding none = ok finding
  projected crop_bbox finding (some bbox) = with_projection finding (project_into crop_bbox bbox)

  -- The findings of a zoom that are no duplicates, after those accepted before.
  unfoldable pub accept :
      BBox W
      → List (Finding W)
      → List (Finding W)
      → List (Finding W)
      → Result Error (List (Finding W))
  unfolding projected duplicates
  accept crop_bbox existing accepted [] = ok accepted
  accept crop_bbox existing accepted (finding ∷ findings) =
      elim (projected crop_bbox finding finding.bbox) [
        | err e ↦ err e
        | ok f ↦
            accept crop_bbox existing
              (if is_zoom_duplicate f (existing ++ accepted) then accepted else accepted ++ f ∷ [])
              findings
      ]

  unfoldable pub accept_read :
      BBox W
      → List (Finding W)
      → List (Finding W)
      → Result Error (List (Finding W))
      → Result Error (List (Finding W))
  unfolding accept
  accept_read crop_bbox existing accepted (err e) = err e
  accept_read crop_bbox existing accepted (ok findings) =
      accept crop_bbox existing accepted findings

  module _ {S : Type 0} (models : Models S W) (image_size : FileName → Result Error (ℕ × ℕ))
      (save_error : FileName → Option Error) (workdir : FileName) (id : ℕ → ℕ → ℕ) (slide_num : ℕ)
      (png : FileName) where
    abbrev pub zoom_prompt : List ℕ
    zoom_prompt =
        codes
          "Увеличенный фрагмент слайда для детального анализа. bbox указывай относительно ЭТОГО фрагмента (0..1 от его ширины и высоты), а не всего слайда — пересчёт в координаты слайда сделаем сами."

    -- `_analyze_zoom`'s findings, each with its identifier, and those that are accepted.
    unfoldable pub accept_answer :
        ℕ
        → BBox W
        → List (Finding W)
        → List (Finding W)
        → SlideAnalysisResponse
        → Exec S Error (List (Finding W))
    unfolding accept_read
    accept_answer index crop_bbox existing accepted response s = (
      accept_read crop_bbox existing accepted
          (findings_from (id index) 0 (some (pos slide_num)) response.findings),
      s,
    )

    unfoldable pub zoom_crop :
        ℕ → List (Finding W) → List (Finding W) → Option (BBox W) → Exec S Error (List (Finding W))
    unfolding accept_answer
    zoom_crop index existing accepted none s = (err (other "ValidationError"), s)
    zoom_crop index existing accepted (some crop_bbox) s =
        (models.slide_view "slide_analysis" (crop_path workdir slide_num index ∷ []) zoom_prompt
            >>= accept_answer index crop_bbox existing accepted)
          s

    -- The crop is saved before its box is made.
    unfoldable pub saved_crop :
        ℕ
        → List (Finding W)
        → List (Finding W)
        → Option (BBox W)
        → Option Error
        → Exec S Error (List (Finding W))
    unfolding zoom_crop
    saved_crop index existing accepted box (some e) s = (err e, s)
    saved_crop index existing accepted box none s = zoom_crop index existing accepted box s

    unfoldable pub zoom_image :
        ℕ
        → List (Finding W)
        → List (Finding W)
        → BBox W
        → Result Error (ℕ × ℕ)
        → Exec S Error (List (Finding W))
    unfolding saved_crop crop_of actual_box
    zoom_image index existing accepted bbox (err e) s = (err e, s)
    zoom_image index existing accepted bbox (ok (width, height)) s =
        saved_crop index existing accepted (actual_box width height (crop_of bbox width height))
          (save_error (crop_path workdir slide_num index)) s

    -- A region without a box is passed over.
    unfoldable pub zoom_region :
        ℕ
        → List (Finding W)
        → List (Finding W)
        → Result Error (Option (BBox W))
        → Exec S Error (List (Finding W))
    unfolding zoom_image
    zoom_region index existing accepted (err e) s = (err e, s)
    zoom_region index existing accepted (ok none) s = (ok accepted, s)
    zoom_region index existing accepted (ok (some bbox)) s =
        zoom_image index existing accepted bbox (image_size png) s

    unfoldable pub zoom_regions :
        List SuspiciousRegionIn
        → ℕ
        → List (Finding W)
        → List (Finding W)
        → Exec S Error (List (Finding W))
    unfolding zoom_region
    zoom_regions [] index existing accepted s = (ok accepted, s)
    zoom_regions (region ∷ regions) index existing accepted s =
        (zoom_region index existing accepted (box_2d_to_bbox region.box_2d)
            >>= zoom_regions regions (suc index) existing)
          s

abbrev pub max_zooms_per_slide : ℕ
max_zooms_per_slide = 3

module _ {W : Type 0} ⦃d : Double W⦄ (models : Models (Context W) W)
    (image_size : FileName → Result Error (ℕ × ℕ)) (save_error : FileName → Option Error)
    (workdir : FileName) (id : ℕ → ℕ → ℕ → ℕ) where
  abbrev pub of_slide : ℕ → Context W → List (Finding W)
  of_slide slide_num ctx =
      filter (λ (f : Finding W). same_slide f.slide_num (some (pos slide_num))) ctx.findings

  unfoldable pub zoom_screened :
      ℕ → FileName → List SuspiciousRegionIn → Exec (Context W) Error (List (Finding W))
  unfolding zoom_regions
  zoom_screened slide_num png regions ctx =
      zoom_regions models image_size save_error workdir (id slide_num) slide_num png
        (take max_zooms_per_slide regions) 1 (of_slide slide_num ctx) [] ctx

  unfoldable pub process_png : ℕ → Option FileName → Exec (Context W) Error (List (Finding W))
  unfolding zoom_screened
  process_png slide_num none ctx = (err (other "FileNotFoundError"), ctx)
  process_png slide_num (some png) ctx =
      (models.screening "zoom_screening" (png ∷ [])
            (codes "Слайд " ++ codes (show slide_num) ++ codes ".")
          >>= zoom_screened slide_num png)
        ctx

  -- `_process_slide`
  unfoldable pub process_slide : ℕ → Exec (Context W) Error (List (Finding W))
  unfolding process_png
  process_slide slide_num ctx = process_png slide_num (slide_png slide_num ctx) ctx

  abbrev pub concat_findings : List (List (Finding W)) → List (Finding W)
  concat_findings [] = []
  concat_findings (fs ∷ fss) = fs ++ concat_findings fss

  abbrev pub joined_findings : List (List (Finding W)) → Exec (Context W) Error (List (Finding W))
  joined_findings results ctx = (ok (concat_findings results), ctx)

  -- `ZoomAgent.analyze`
  unfoldable pub analyze_zooms : Exec (Context W) Error (List (Finding W))
  unfolding process_slide
  analyze_zooms ctx =
      (gather (map process_slide (sort_by leb (map (λ (p : ℕ × FileName). p.0) ctx.slide_pngs)))
          >>= joined_findings)
        ctx
