-- ===== src/Geometry.antt =====
-- Boxes on a slide (backend/core/geometry.py).
pub mod Laws
mod Tests
use slidelens.Prelude.{
  ℕ, ◌≡◌, Bool, true, false, not, Option, none, some, List, [], ◌∷◌, ◌&&◌, ◌||◌, if◌then◌else◌,
}
use slidelens.Prelude.Int.{ℤ}
use slidelens.Double.{Double, ◌⊕◌, ◌⊖◌, ◌⊗◌, ◌⊘◌, nought, unit, max_of, min_of}
use slidelens.Schemas.{BBox, bbox_of}
use slidelens.Prelude.Exec.{Result, ok, err}
use slidelens.Services.{Error, other}

-- Four numbers, of which one is too large for a float.
abbrev pub overflows : (ℤ → Bool) → Option (List ℤ) → Bool
overflows scales (some (a ∷ b ∷ c ∷ e ∷ [])) =
    not (scales a && (scales b && (scales c && scales e)))
overflows scales _ = false

module _ {W : Type 0} ⦃d : Double W⦄ where
  -- `sorted((a, b))`, its two parts.
  low : W → W → W
  low a b = if d.lt b a then b else a

  high : W → W → W
  high a b = if d.lt b a then a else b

  -- The box between two corners, if it has an area. The outer `none` is a `ValidationError`, the
  -- inner one the function's own answer.
  corner_box : W → W → W → W → Option (Option (BBox W))
  corner_box x0 y0 x1 y1 =
      if d.le x1 x0 || d.le y1 y0
      then some none
      else elim (bbox_of x0 y0 (x1 ⊖ x0) (y1 ⊖ y0)) [ none ↦ none | some b ↦ some (some b) ]

  clipped : W → W → W → W → Option (Option (BBox W))
  clipped y_min x_min y_max x_max =
      corner_box (max_of (low x_min x_max) nought) (max_of (low y_min y_max) nought)
        (min_of (high x_min x_max) unit) (min_of (high y_min y_max) unit)

  box_scale : W
  box_scale = d.lit 1000 1

  -- The exception of `BBox`, if it is one.
  validated_box : Option (Option (BBox W)) → Result Error (Option (BBox W))
  validated_box none = err (other "ValidationError")
  validated_box (some box) = ok box

  scaled_box : Option (List ℤ) → Option (Option (BBox W))
  scaled_box (some (a ∷ b ∷ c ∷ e ∷ [])) =
      clipped (d.of_int a ⊘ box_scale) (d.of_int b ⊘ box_scale) (d.of_int c ⊘ box_scale)
        (d.of_int e ⊘ box_scale)
  scaled_box _ = some none

  pub box_2d_to_bbox : Option (List ℤ) → Result Error (Option (BBox W))
  unfolding validated_box scaled_box
  box_2d_to_bbox box =
      if overflows d.scales box then err (other "OverflowError") else validated_box (scaled_box box)

  -- Clips a coordinate to 0..1.
  clamp : W → W
  clamp v = min_of (max_of v nought) unit

  -- `none` is a `ValidationError`.
  pub project_into : BBox W → BBox W → Option (BBox W)
  project_into outer inner =
      let x = clamp (outer.x ⊕ (inner.x ⊗ outer.w)) in
      let y = clamp (outer.y ⊕ (inner.y ⊗ outer.h)) in
      bbox_of x y (min_of (inner.w ⊗ outer.w) (unit ⊖ x)) (min_of (inner.h ⊗ outer.h) (unit ⊖ y))

  -- How far two intervals overlap, at least zero.
  unfoldable pub overlap : W → W → W → W → W
  overlap a1 a2 b1 b2 = max_of nought (min_of a2 b2 ⊖ max_of a1 b1)

  unfoldable pub intersection : BBox W → BBox W → W
  intersection a b =
      overlap a.x (a.x ⊕ a.w) b.x (b.x ⊕ b.w) ⊗ overlap a.y (a.y ⊕ a.h) b.y (b.y ⊕ b.h)

  unfoldable pub iou : BBox W → BBox W → W
  iou a b =
      let inter = intersection a b in
      let both = ((a.w ⊗ a.h) ⊕ (b.w ⊗ b.h)) ⊖ inter in
      if d.le inter nought then nought else if d.lt nought both then inter ⊘ both else nought
