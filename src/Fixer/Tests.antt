-- ===== src/Fixer/Tests.antt =====
-- The fixer on small decks.
use slidelens.Prelude.{
  ℕ, ◌≡◌, refl, String, Bool, true, false, Option, none, some, List, [], ◌∷◌, map,
}
use slidelens.Prelude.Int.{ℤ, pos}
use slidelens.Double.{Double}
use slidelens.Double.FixedPoint.{fixed_double, fixed-IsDouble}
use slidelens.Schemas.{Finding, BBox, typography, major}
use slidelens.Fixer.{FixRule, Shape, Presentation, TextRun, FixLogEntry}
use slidelens.Fixer.Apply.{fix, default_rules}
use slidelens.Fixer.Rules.{min_font_size_rule, align}
use slidelens.Fixer.Match.{find_matching_shape, Matches, find_matching_shape-Matches}
use slidelens.Fixer.Edits.{Enlarged, min_font_size_rule-Enlarged}
use slidelens.Fixer.Alignment.{Aligned, align-Aligned}
use slidelens.Fixer.Rollback.{fix-Ended, Ended}

abbrev cell : BBox ℤ
cell = record { x = pos 100; y = pos 100; w = pos 500; h = pos 500 }

abbrev small_text : Finding ℤ
small_text = record {
  id = 7;
  slide_num = some (pos 1);
  category = typography;
  severity = major;
  title = "Мелкий Шрифт";
  description = "";
  fix_suggestion = "";
  bbox = some cell;
  auto_fixable = true;
  auto_fixed = false;
  source = none;
}

abbrev text_box : ℤ → Shape
text_box left = record {
  shape_id = 3;
  left = some left;
  top = some (pos 1000);
  width = some (pos 5000);
  height = some (pos 5000);
  paragraphs = some ((record { size = some 127000; color = none } ∷ []) ∷ []);
  fill = none;
}

abbrev one_slide : ℤ → Presentation
one_slide left = record {
  slides = (text_box left ∷ []) ∷ [];
  slide_width = 10000;
  slide_height = 10000;
}

-- A rule that always says that it changed the shape.
abbrev always : FixRule ℤ
always = record {
  name = "always";
  applies_to = λ f. true;
  apply = λ i shape slide. (record { applied = true; reason = "" }, shape);
}

-- The edit is kept, and on a shape that hangs over the slide's edge it is rolled back.
keeps_edit :
    map
      (λ (f : Finding ℤ). f.auto_fixed)
      (fix (always ∷ []) (one_slide (pos 1000)) (small_text ∷ [])).1
    ≡ true ∷ []
unfolding fix slidelens.Fixer.passes_control_check slidelens.Fixer.slide_at
    slidelens.Prelude.get_elem? find_matching_shape slidelens.Fixer.Match.box_from
    slidelens.Geometry.iou slidelens.Geometry.intersection slidelens.Geometry.overlap
    slidelens.Double.max_of slidelens.Double.min_of slidelens.Fixer.set_slide
    slidelens.Prelude.set_elem slidelens.Fixer.shape_by_id
keeps_edit = refl

rolls_back :
    map
      (λ (f : Finding ℤ). f.auto_fixed)
      (fix (always ∷ []) (one_slide (pos 6000)) (small_text ∷ [])).1
    ≡ false ∷ []
unfolding fix slidelens.Fixer.passes_control_check slidelens.Fixer.slide_at
    slidelens.Prelude.get_elem? find_matching_shape slidelens.Fixer.Match.box_from
    slidelens.Geometry.iou slidelens.Geometry.intersection slidelens.Geometry.overlap
    slidelens.Double.max_of slidelens.Double.min_of
rolls_back = refl

fix-Ended_example :
    Ended
      (default_rules (λ x. x))
      (one_slide (pos 1000))
      (small_text ∷ [])
      (fix (default_rules (λ x. x)) (one_slide (pos 1000)) (small_text ∷ []))
fix-Ended_example = fix-Ended (default_rules (λ x. x)) (one_slide (pos 1000)) (small_text ∷ [])

find_matching_shape-Matches_example :
    Matches fixed-IsDouble cell 10000 10000
      (text_box (pos 1000) ∷ [])
      (find_matching_shape (text_box (pos 1000) ∷ []) cell 10000 10000)
find_matching_shape-Matches_example =
    find_matching_shape-Matches fixed-IsDouble cell 10000 10000 (text_box (pos 1000) ∷ [])

min_font_size_rule-Enlarged_example :
    Enlarged
      (text_box (pos 1000))
      (text_box (pos 1000)).paragraphs
      ((min_font_size_rule {W = ℤ}).apply 0 (text_box (pos 1000)) (text_box (pos 1000) ∷ []))
min_font_size_rule-Enlarged_example =
    min_font_size_rule-Enlarged ℤ 0 (text_box (pos 1000)) (text_box (pos 1000) ∷ [])

align-Aligned_example :
    Aligned
      (text_box (pos 1000) ∷ text_box (pos 900) ∷ [])
      (text_box (pos 1000))
      (align 0 (text_box (pos 1000)) (text_box (pos 1000) ∷ text_box (pos 900) ∷ []))
align-Aligned_example =
    align-Aligned 0 (text_box (pos 1000)) (text_box (pos 1000) ∷ text_box (pos 900) ∷ [])
