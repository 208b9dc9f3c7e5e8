-- ===== src/Geometry/Tests.antt =====
-- Runs of the geometry on three-digit fixed-point numbers, and each theorem at a concrete input.
use slidelens.Prelude.{◌≡◌, true, some, [], ◌∷◌, arith}
use slidelens.Prelude.Int.{ℤ, pos, negsuc}
use slidelens.Double.{unit, ◌⊖◌}
use slidelens.Double.FixedPoint.{fixed_double, fixed-IsDouble}
use slidelens.Schemas.{BBox, IsValid}
use slidelens.Geometry.{box_2d_to_bbox, project_into}
use slidelens.Geometry.Laws.{Sound, box_2d_to_bbox-Sound, project_into-IsValid}

abbrev left_half : BBox ℤ
left_half = record { x = pos 0; y = pos 0; w = pos 500; h = pos 1000 }

abbrev middle : BBox ℤ
middle = record { x = pos 250; y = pos 0; w = pos 500; h = pos 1000 }

abbrev right_edge : BBox ℤ
right_edge = record { x = pos 900; y = pos 0; w = pos 100; h = pos 1000 }

left_half-IsValid : IsValid left_half
left_half-IsValid = ground arith

middle-IsValid : IsValid middle
middle-IsValid = ground arith

box_2d_to_bbox-Sound_example :
    Sound fixed-IsDouble
      (some (negsuc 4 ∷ pos 300 ∷ pos 1200 ∷ pos 100 ∷ []))
      (box_2d_to_bbox (some (negsuc 4 ∷ pos 300 ∷ pos 1200 ∷ pos 100 ∷ [])))
box_2d_to_bbox-Sound_example =
    box_2d_to_bbox-Sound fixed-IsDouble (some (negsuc 4 ∷ pos 300 ∷ pos 1200 ∷ pos 100 ∷ []))

project_into-IsValid_example :
    (b : BBox ℤ) × (project_into middle left_half ≡ some b)
    × IsValid b
    × (fixed_double.le b.w (unit ⊖ b.x) ≡ true)
    × (fixed_double.le b.h (unit ⊖ b.y) ≡ true)
project_into-IsValid_example =
    project_into-IsValid fixed-IsDouble middle left_half middle-IsValid left_half-IsValid
