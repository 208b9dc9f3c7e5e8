-- ===== src/Fixer/Rules.antt =====
-- The three rules of the PPTX fixer (backend/core/fix.py). `power` is `** 2.4` of a float.
use slidelens.Prelude.{
  ℕ, suc, String, Bool, true, false, ◌&&◌, ◌||◌, Option, none, some, List, [], ◌∷◌, ltb, leb, ◌==◌,
  map, ◌+◌, if◌then◌else◌,
}
use slidelens.Prelude.Int.{ℤ, pos, ◌-ℤ◌, leb_ℤ}
use slidelens.Prelude.Text.{codes, ◌<>◌, lower}
use slidelens.Double.{Double, ◌⊕◌, ◌⊗◌, ◌⊘◌, max_of, min_of}
use slidelens.Schemas.{Finding, Category, typography, readability, same_int}
use slidelens.Ingest.{contains}
use slidelens.Fixer.{
  Rgb, TextRun, Shape, SlideShapes, FixResult, FixRule, min_font_size, alignment_tolerance,
}

-- `str.lower` on Latin and Cyrillic letters: no other letter's lower case stands in a word that the
-- rules look for.
lower_letter : ℕ → ℕ
lower_letter c = if leb 1040 c && leb c 1071 then c + 32 else if c == 1025 then 1105 else lower c

-- `f"{finding.title} {finding.description}".lower()`
finding_text : {W : Type 0} → Finding W → List ℕ
unfolding lower_letter
finding_text f = map lower_letter (codes (f.title <> " " <> f.description))

is_typography : Category → Bool
is_typography typography = true
is_typography _ = false

is_readability : Category → Bool
is_readability readability = true
is_readability _ = false

-- A run and its edit, before the runs that follow with theirs.
unfoldable pub with_edit : TextRun → Option TextRun → Bool × List TextRun → Bool × List TextRun
with_edit run none (changed, rest) = (changed, run ∷ rest)
with_edit run (some run') (changed, rest) = (true, run' ∷ rest)

-- A rule's edit of each run of a text frame: `none` leaves the run alone.
unfoldable pub edit_runs : (TextRun → Option TextRun) → List TextRun → Bool × List TextRun
unfolding with_edit
edit_runs edit [] = (false, [])
edit_runs edit (run ∷ runs) = with_edit run (edit run) (edit_runs edit runs)

unfoldable pub edit_paragraphs :
    (TextRun → Option TextRun) → List (List TextRun) → Bool × List (List TextRun)
unfolding edit_runs
edit_paragraphs edit [] = (false, [])
edit_paragraphs edit (paragraph ∷ paragraphs) =
    let (changed, runs) = edit_runs edit paragraph in
    let (changed', rest) = edit_paragraphs edit paragraphs in (changed || changed', runs ∷ rest)

unfoldable pub edited_text :
    String → (TextRun → Option TextRun) → Shape → Option (List (List TextRun)) → FixResult × Shape
unfolding edit_paragraphs
edited_text otherwise edit shape none =
    (record { applied = false; reason = "shape has no text frame" }, shape)
edited_text otherwise edit shape (some paragraphs) =
    let (changed, paragraphs') = edit_paragraphs edit paragraphs in
    (
      record { applied = changed; reason = if changed then "" else otherwise },
      record shape { paragraphs = some paragraphs' },
    )

-- `run.font.size.pt < MIN_FONT_SIZE_PT`, and the size that is set then.
unfoldable pub raised_size : TextRun → Option ℕ → Option TextRun
raised_size run none = none
raised_size run (some size) =
    if ltb size min_font_size then some (record run { size = some min_font_size }) else none

abbrev pub raise_run : TextRun → Option TextRun
raise_run run = raised_size run run.size

-- `MinFontSizeRule`
unfoldable pub min_font_size_rule : {W : Type 0} → FixRule W
unfolding finding_text is_typography
min_font_size_rule = record {
  name = "min_font_size";
  applies_to = λ f.
      is_typography f.category
      && (contains (codes "шрифт") (finding_text f) || contains (codes "кегл") (finding_text f));
  apply = λ i shape slide. edited_text "no run below minimum size" raise_run shape shape.paragraphs;
}

module _ {W : Type 0} ⦃d : Double W⦄ (power : W → W) where
  luminance_channel : ℕ → W
  luminance_channel value =
      let c = d.of_int (pos value) ⊘ d.lit 255 1 in
      if d.le c (d.lit 3928 100000)
      then c ⊘ d.lit 1292 100
      else power ((c ⊕ d.lit 55 1000) ⊘ d.lit 1055 1000)

  -- `_relative_luminance`
  unfoldable pub relative_luminance : Rgb → W
  unfolding luminance_channel
  relative_luminance rgb =
      ((d.lit 2126 10000 ⊗ luminance_channel rgb.red)
        ⊕ (d.lit 7152 10000 ⊗ luminance_channel rgb.green))
      ⊕ (d.lit 722 10000 ⊗ luminance_channel rgb.blue)

  -- `_contrast_ratio`
  unfoldable pub contrast_ratio : Rgb → Rgb → W
  unfolding relative_luminance
  contrast_ratio a b =
      let la = relative_luminance a in
      let lb = relative_luminance b in (max_of la lb ⊕ d.lit 5 100) ⊘ (min_of la lb ⊕ d.lit 5 100)

  abbrev pub background_color : Option Rgb → Rgb
  background_color none = record { red = 255; green = 255; blue = 255 }
  background_color (some color) = color

  -- Black on a light background and white on a dark one.
  unfoldable pub text_color : Rgb → Rgb
  text_color background =
      if d.lt (d.lit 1 2) (relative_luminance background)
      then record { red = 0; green = 0; blue = 0 }
      else record { red = 255; green = 255; blue = 255 }

  unfoldable pub recolored : Rgb → TextRun → Option Rgb → Option TextRun
  recolored background run none = none
  recolored background run (some color) =
      if d.lt (contrast_ratio color background) (d.lit 45 10)
      then some (record run { color = some (text_color background) })
      else none

  abbrev pub recolor_run : Rgb → TextRun → Option TextRun
  recolor_run background run = recolored background run run.color

  -- `ContrastRule`
  unfoldable pub contrast_rule : FixRule W
  unfolding finding_text is_readability
  contrast_rule = record {
    name = "contrast";
    applies_to = λ f. is_readability f.category && contains (codes "контраст") (finding_text f);
    apply = λ i shape slide.
        edited_text "no run below contrast threshold" (recolor_run (background_color shape.fill))
          shape shape.paragraphs;
  }

pub data Edge : Type 0 where
  left_edge top_edge : Edge

-- `getattr(shape, attr)` and `setattr(shape, attr, value)`
abbrev pub edge_of : Edge → Shape → Option ℤ
edge_of left_edge shape = shape.left
edge_of top_edge shape = shape.top

abbrev pub move : Edge → ℤ → Shape → Shape
move left_edge value shape = record shape { left = some value }
move top_edge value shape = record shape { top = some value }

abbrev pub is_near : ℤ → ℤ → Bool
is_near target value =
    leb_ℤ (value -ℤ target) (pos alignment_tolerance)
    && leb_ℤ (target -ℤ value) (pos alignment_tolerance)

unfoldable pub near_value : ℤ → Option ℤ → Bool
near_value target none = false
near_value target (some value) = if same_int value target then false else is_near target value

-- The edge of the first sibling that is near, from the position `j` on; `i` is the shape's own.
unfoldable pub near_sibling : Edge → ℕ → ℤ → ℕ → SlideShapes → Option ℤ
unfolding near_value
near_sibling edge i target j [] = none
near_sibling edge i target j (other ∷ others) =
    let rest = near_sibling edge i target (suc j) others in
    if j == i
    then rest
    else if near_value target (edge_of edge other)
    then edge_of edge other
    else rest

unfoldable pub moved_to : Edge → Shape → Option ℤ → Bool × Shape
moved_to edge shape none = (false, shape)
moved_to edge shape (some value) = (true, move edge value shape)

unfoldable pub snapped : Edge → ℕ → SlideShapes → Shape → Option ℤ → Bool × Shape
unfolding near_sibling moved_to
snapped edge i slide shape none = (false, shape)
snapped edge i slide shape (some target) = moved_to edge shape (near_sibling edge i target 0 slide)

unfoldable pub align : ℕ → Shape → SlideShapes → FixResult × Shape
unfolding snapped
align i shape slide =
    let (changed, shape') = snapped left_edge i slide shape shape.left in
    let (changed', shape'') = snapped top_edge i slide shape' shape'.top in
    (
      record {
        applied = changed || changed';
        reason = if changed || changed' then "" else "no near-aligned sibling found";
      },
      shape'',
    )

-- `AlignmentRule`
unfoldable pub alignment_rule : {W : Type 0} → FixRule W
unfolding finding_text align
alignment_rule = record {
  name = "alignment";
  applies_to =
      λ f. contains (codes "выровн") (finding_text f) || contains (codes "выравн") (finding_text f);
  apply = align;
}
