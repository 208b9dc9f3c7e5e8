-- ===== src/Analyzers/Zoom/Crops.antt =====
-- A crop lies in the picture and its box is valid (backend/core/analyzers/zoom.py).
use slidelens.Prelude.{ℕ, zero, suc, ◌-◌, ◌≡◌, ◌≤◌, ◌<◌, true, some, arith}
use slidelens.Prelude.Int.{ℤ, pos, negsuc}
use slidelens.Double.{Double, IsDouble, ◌⊕◌, nought}
use slidelens.Schemas.{BBox, InUnit, IsValid, bbox_of_valid}
use slidelens.Analyzers.Zoom.{
  Crop, pixel, asked, clamp_pixel, crop_or_all, crop_of, ratio, actual_box,
}

-- The crop has a pixel, and it ends inside the picture.
abbrev pub InPicture : ℕ → ℕ → Crop → Type 0
InPicture width height crop =
    (crop.left < crop.right)
    × (crop.right ≤ width)
    × (crop.top < crop.bottom)
    × (crop.bottom ≤ height)

clamp_pixel_le : (most : ℕ) (v : ℤ) → clamp_pixel most v ≤ most
unfolding clamp_pixel
clamp_pixel_le most (pos n) = omega arith
clamp_pixel_le most (negsuc n) = omega arith

crop_or_all-InPicture :
    (width height : ℕ) (crop : Crop)
    → 0 < width
    → 0 < height
    → crop.right ≤ width
    → crop.bottom ≤ height
    → InPicture width height (crop_or_all width height crop)
unfolding crop_or_all
crop_or_all-InPicture width height crop w h r b = ground arith

module _ {W : Type 0} ⦃d : Double W⦄ (l : IsDouble W) where
  ratio-InUnit : (part whole : ℕ) → 0 < whole → part ≤ whole → InUnit (ratio {W = W} part whole)
  ratio-InUnit part (suc n) h k =
      let at_least : d.le nought (d.of_int (pos part)) ≡ true =
        rw l.of_int_zero at (l.of_int_mono (pos 0) (pos part) (ground arith)) in
      (
        l.div_nonneg _ _ at_least (l.of_int_pos n),
        rw (l.div_self (d.of_int (pos (suc n))) (l.of_int_pos n)) at (
            l.div_mono _ _ (d.of_int (pos (suc n)))
              (l.of_int_mono (pos part) (pos (suc n)) (ground arith)) (l.of_int_pos n)),
      )
  ratio-InUnit part zero h k = absurd (omega (arith, h))

  pixel_le : (size : ℕ) (v : W) → pixel size v ≤ size
  unfolding pixel
  pixel_le size v = clamp_pixel_le size _

  -- For a picture with a pixel, whatever box the model points at: the crop has a pixel and lies in the
  -- picture, and its box is one that the schema accepts, so that cropping raises no validation error.
  pub crop_of-InPicture :
      (bbox : BBox W) (width height : ℕ)
      → 0 < width
      → 0 < height
      → InPicture width height (crop_of bbox width height)
        × ((b : BBox W) × (actual_box width height (crop_of bbox width height) ≡ some b)
            × IsValid b)
  unfolding crop_of actual_box
  crop_of-InPicture bbox width height w h =
      let crop = crop_of bbox width height in
      let inside =
        crop_or_all-InPicture width height (asked bbox width height) w h
          (pixel_le width (bbox.x ⊕ bbox.w)) (pixel_le height (bbox.y ⊕ bbox.h)) in
      let (lr, rw', tb, bh) = inside in
      let px = ratio-InUnit crop.left width w (omega (arith, lr, rw')) in
      let py = ratio-InUnit crop.top height h (omega (arith, tb, bh)) in
      let pw = ratio-InUnit (crop.right - crop.left) width w (omega (arith, rw')) in
      let ph = ratio-InUnit (crop.bottom - crop.top) height h (omega (arith, bh)) in
      (
        inside,
        (
          _,
          bbox_of_valid _ _ _ _ px py pw ph,
          record { x_range = px; y_range = py; w_range = pw; h_range = ph },
        ),
      )
