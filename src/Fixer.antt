-- ===== src/Fixer.antt =====
-- The PPTX fixer (backend/core/fix.py and core/fix_schemas.py): the deck as python-pptx shows it,
-- the rules' interface, and the control check. Lengths are in EMU, 12700 to a point. A deck's file
-- stands for the deck that python-pptx reads from it, so that saving and loading it changes nothing.

pub mod Rules
pub mod Match
pub mod Apply
pub mod Steps
pub mod Rollback
pub mod Edits
pub mod Alignment
mod Tests
use slidelens.Prelude.{
  ℕ, zero, suc, ◌*◌, String, Bool, true, false, not, ◌&&◌, ◌||◌, Option, none, some, List, [], ◌∷◌,
  find?, get_elem?, set_elem, ◌==◌, length, if◌then◌else◌,
}
use slidelens.Prelude.Int.{ℤ, pos, negsuc, ◌+ℤ◌, leb_ℤ, ltb_ℤ}
use slidelens.Schemas.{Finding}

-- An RGB colour, each channel below 256.
pub record Rgb : Type 0 where
  pub red : ℕ
  pub green : ℕ
  pub blue : ℕ

-- A run of text: its font's size and colour, where they are set.
pub record TextRun : Type 0 where
  pub size : Option ℕ
  pub color : Option Rgb

-- A shape; `paragraphs` is its text frame, if it has one, and `fill` a solid fill's colour.
pub record Shape : Type 0 where
  pub shape_id : ℕ
  pub left : Option ℤ
  pub top : Option ℤ
  pub width : Option ℤ
  pub height : Option ℤ
  pub paragraphs : Option (List (List TextRun))
  pub fill : Option Rgb

abbrev pub SlideShapes : Type 0
SlideShapes = List Shape

pub record Presentation : Type 0 where
  pub slides : List SlideShapes
  pub slide_width : ℕ
  pub slide_height : ℕ

pub record FixResult : Type 0 where
  pub applied : Bool
  pub reason : String

pub data FixStatus : Type 0 where
  applied skipped : FixStatus

pub record FixLogEntry : Type 0 where
  pub finding_id : ℕ
  pub rule : Option String
  pub status : FixStatus
  pub reason : String

-- `FixRule`. A rule gets the shape's position on its slide, by which it tells it from its siblings.
pub record FixRule (W : Type 0) : Type 0 where
  pub name : String
  pub applies_to : Finding W → Bool
  pub apply : ℕ → Shape → SlideShapes → FixResult × Shape

abbrev pub min_font_size : ℕ
min_font_size = 14 * 12700

abbrev pub alignment_tolerance : ℕ
alignment_tolerance = 3 * 9525

-- `presentation.slides[n - 1]` where 1 ≤ n ≤ `len(presentation.slides)`.
unfoldable pub slide_at : ℤ → List SlideShapes → Option SlideShapes
slide_at (pos zero) slides = none
slide_at (pos (suc k)) slides = get_elem? slides k
slide_at (negsuc k) slides = none

unfoldable pub set_slide : ℤ → SlideShapes → List SlideShapes → List SlideShapes
set_slide (pos zero) slide slides = slides
set_slide (pos (suc k)) slide slides = set_elem slides k slide
set_slide (negsuc k) slide slides = slides

-- `next((s for s in slide.shapes if s.shape_id == shape_id), None)`
unfoldable pub shape_by_id : ℕ → SlideShapes → Option Shape
shape_by_id shape_id shapes = find? (λ (s : Shape). s.shape_id == shape_id) shapes

abbrev pub int_or_zero : Option ℤ → ℤ
int_or_zero none = pos 0
int_or_zero (some v) = v

unfoldable pub edges_inside : ℕ → ℕ → Option ℤ → Option ℤ → ℤ → ℤ → Bool
edges_inside slide_width slide_height none top width height = true
edges_inside slide_width slide_height (some left) none width height = true
edges_inside slide_width slide_height (some left) (some top) width height =
    not (ltb_ℤ left (pos 0) || ltb_ℤ top (pos 0))
    && not (ltb_ℤ (pos slide_width) (left +ℤ width))
    && not (ltb_ℤ (pos slide_height) (top +ℤ height))

-- The control check of one shape: it passes if the shape has no position.
unfoldable pub shape_inside : Presentation → Shape → Bool
unfolding edges_inside
shape_inside deck shape =
    edges_inside deck.slide_width deck.slide_height shape.left shape.top (int_or_zero shape.width)
      (int_or_zero shape.height)

unfoldable pub found_inside : Presentation → Option Shape → Bool
unfolding shape_inside
found_inside deck none = false
found_inside deck (some shape) = shape_inside deck shape

-- A touched shape's slide was there when it was touched, so the first case does not arise.
unfoldable pub touched_inside : Presentation → ℕ → Option SlideShapes → Bool
unfolding found_inside
touched_inside deck shape_id none = false
touched_inside deck shape_id (some shapes) = found_inside deck (shape_by_id shape_id shapes)

unfoldable pub all_inside : Presentation → List (ℤ × ℕ) → Bool
unfolding touched_inside
all_inside deck [] = true
all_inside deck ((slide_num, shape_id) ∷ touched) =
    touched_inside deck shape_id (slide_at slide_num deck.slides) && all_inside deck touched

-- `_passes_control_check`
unfoldable pub passes_control_check : Presentation → ℕ → List (ℤ × ℕ) → Bool
unfolding all_inside
passes_control_check target original_slide_count touched =
    length target.slides == original_slide_count && all_inside target touched
