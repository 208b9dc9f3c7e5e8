-- ===== src/Report/Tests.antt =====
-- A slide with one finding that has a box, and each theorem there.
use slidelens.Prelude.{ℕ, ◌≡◌, refl, true, false, Option, none, some, List, [], ◌∷◌, All}
use slidelens.Prelude.Int.{ℤ, pos}
use slidelens.Prelude.Exec.{Result, ok}
use slidelens.Prelude.Text.{codes}
use slidelens.Double.FixedPoint.{fixed_double}
use slidelens.Entities.{FileName}
use slidelens.Schemas.{Finding, BBox, chart, major}
use slidelens.Services.{Error}
use slidelens.Analyzers.{Context, slide_png, find_slide}
use slidelens.Report.{Picture, picture_of, annotate}
use slidelens.Report.Pictures.{drawn, has_path, IsPictured, IsShown, AllAnnotated, annotate_lem}

abbrev left_half : BBox ℤ
left_half = record { x = pos 0; y = pos 0; w = pos 500; h = pos 1000 }

abbrev boxed : ℕ → ℤ → Finding ℤ
boxed id slide_num = record {
  id = id;
  slide_num = some slide_num;
  category = chart;
  severity = major;
  title = "t";
  description = "d";
  fix_suggestion = "f";
  bbox = some left_half;
  auto_fixable = false;
  auto_fixed = false;
  source = none;
}

abbrev reviewed : Context ℤ
reviewed = record {
  findings = boxed 7 (pos 2) ∷ record (boxed 8 (pos 9)) { bbox = none } ∷ boxed 9 (pos 2) ∷ [];
  delivery = none;
  slide_pngs = (1, codes "slide_001.png") ∷ (2, codes "slide_002.png") ∷ [];
  slide_texts = [];
  has_chart = [];
  cost_rub = pos 0;
}

abbrev hd : FileName → Result Error (ℕ × ℕ)
hd path = ok (1920, 1080)

abbrev writable : FileName → Option Error
writable path = none

slide_2-there :
    All
      (λ (f : Finding ℤ). (png : FileName) × (picture_of f.slide_num reviewed ≡ some png))
      (drawn reviewed)
unfolding picture_of slide_png find_slide
slide_2-there = ((codes "slide_002.png", refl), ((codes "slide_002.png", refl), tt))

annotate_lem_example :
    (result : List (ℕ × FileName)) × (t : List (FileName × Picture ℤ)) × (annotate hd writable
        reviewed []
      ≡ (ok result, t))
    × All (λ f. has_path f.id result ≡ true) (drawn reviewed)
    × All (IsPictured (drawn reviewed)) result
    × All (IsShown hd reviewed t) (drawn reviewed)
    × AllAnnotated reviewed [] t
annotate_lem_example =
    annotate_lem hd writable (λ path. ((1920, 1080), refl)) (λ path. refl) reviewed [] slide_2-there
