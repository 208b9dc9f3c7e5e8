-- ===== src/Report.antt =====
-- The annotated pictures and the report (backend/core/annotate.py, core/report.py and
-- core/report_schemas.py). Pillow, Jinja and WeasyPrint are arguments. The files of the working
-- directory go by their names.
pub mod Frames
pub mod Pictures
pub mod Scored
mod Tests
use slidelens.Prelude.{
  ℕ, suc, ◌+◌, ◌≡◌, String, Bool, true, false, Option, none, some, List, [], ◌∷◌, ◌++◌, length, ltb,
  ◌==◌, ◌&&◌, filter, count, if◌then◌else◌,
}
use slidelens.Prelude.Int.{ℤ, pos, negsuc, leb_ℤ}
use slidelens.Prelude.Exec.{Exec, Result, ok, err, lift, ◌>>=◌, ◌>>◌}
use slidelens.Prelude.Text.{codes, show}
use slidelens.Double.{Double, ◌⊕◌, ◌⊖◌, ◌⊗◌, nought, max_of}
use slidelens.Entities.{FileName, Bytes, DeliveryMetrics}
use slidelens.Schemas.{BBox, Finding, Severity, critical, major, minor}
use slidelens.Services.{Error, other}
use slidelens.Analyzers.{Context, slide_png}
use slidelens.Aggregate.{Groups, group_from, score, severity_weights, score_floor}

abbrev severity_colors : Severity → ℕ × ℕ × ℕ
severity_colors critical = (220, 38, 38)
severity_colors major = (249, 115, 22)
severity_colors minor = (107, 114, 128)

-- A rectangle and its number on a picture.
pub record Frame (W : Type 0) : Type 0 where
  pub x0 : W
  pub y0 : W
  pub x1 : W
  pub y1 : W
  pub color : ℕ × ℕ × ℕ
  pub label_x : W
  pub label_y : W
  pub label : ℕ

-- A saved picture: the slide's own, with frames.
pub record Picture (W : Type 0) : Type 0 where
  pub png : FileName
  pub frames : List (Frame W)

leading_zeros : ℕ → FileName
leading_zeros n = if ltb n 10 then codes "00" else if ltb n 100 then codes "0" else []

-- `f"{n:03d}"`
pub three_digits : ℤ → FileName
unfolding leading_zeros
three_digits (pos n) = leading_zeros n ++ codes (show n)
three_digits (negsuc n) = codes "-" ++ (if ltb n 9 then codes "0" else []) ++ codes (show (suc n))

-- The name of a slide's annotated picture. `none` has none: its slide is not found before.
unfoldable pub annotated_name : Option ℤ → FileName
unfolding three_digits
annotated_name none = []
annotated_name (some n) = codes "slide_" ++ three_digits n ++ codes "_annotated.png"

-- `result[id] = path` in a dict.
unfoldable pub set_entry : ℕ → FileName → List (ℕ × FileName) → List (ℕ × FileName)
set_entry id path [] = (id, path) ∷ []
set_entry id path ((i, p) ∷ result) =
    if i == id then (i, path) ∷ result else (i, p) ∷ set_entry id path result

or_missing : Option FileName → Result Error FileName
or_missing none = err (other "FileNotFoundError")
or_missing (some png) = ok png

module _ {W : Type 0} where
  -- The condition of the loop of `annotate`.
  abbrev pub is_drawn : Finding W → Bool
  is_drawn f = elim (f.slide_num) [
    | none ↦ false
    | some n ↦ elim (f.bbox) [ none ↦ false | some box ↦ true ]
  ]

  -- `ctx.slide_png(slide_num)`
  unfoldable pub picture_of : Option ℤ → Context W → Option FileName
  picture_of none ctx = none
  picture_of (some (pos n)) ctx = slide_png n ctx
  picture_of (some (negsuc n)) ctx = none

  unfoldable pub set_entries :
      FileName → List (Finding W) → List (ℕ × FileName) → List (ℕ × FileName)
  set_entries path [] result = result
  set_entries path (f ∷ fs) result = set_entries path fs (set_entry f.id path result)

  -- `canvas.save`: the latest picture under a path comes first. It may raise an exception.
  unfoldable pub save_picture :
      (FileName → Option Error)
      → FileName
      → Picture W
      → Exec (List (FileName × Picture W)) Error (Unit {0})
  save_picture save_error path picture s = elim (save_error path) [
    | none ↦ (ok tt, (path, picture) ∷ s)
    | some e ↦ (err e, s)
  ]

module _ {W : Type 0} ⦃d : Double W⦄ where
  is_slide_wide : BBox W → Bool
  is_slide_wide box = d.le (d.lit 8 10) (box.w ⊗ box.h)

  frame_of : ℕ → ℕ × ℕ → Severity → BBox W → Frame W
  frame_of index (width, height) severity box =
      let x0 = box.x ⊗ d.of_int (pos width) in
      let y0 = box.y ⊗ d.of_int (pos height) in
      record {
        x0 = x0;
        y0 = y0;
        x1 = (box.x ⊕ box.w) ⊗ d.of_int (pos width);
        y1 = (box.y ⊕ box.h) ⊗ d.of_int (pos height);
        color = severity_colors severity;
        label_x = x0 ⊕ d.lit 2 1;
        label_y = max_of nought (y0 ⊖ d.lit 14 1);
        label = index;
      }

  with_frame : ℕ → ℕ × ℕ → Severity → BBox W → List (Frame W) → List (Frame W)
  unfolding is_slide_wide frame_of
  with_frame index size severity box frames =
      if is_slide_wide box then frames else frame_of index size severity box ∷ frames

  -- The loop of `_draw`. A finding without a box is an `AttributeError`.
  unfoldable pub frames_from : ℕ → ℕ × ℕ → List (Finding W) → Result Error (List (Frame W))
  unfolding with_frame
  frames_from index size [] = ok []
  frames_from index size (f ∷ fs) = elim (f.bbox) [
    | none ↦ err (other "AttributeError")
    | some box ↦ elim (frames_from (index + 1) size fs) [
      | ok frames ↦ ok (with_frame index size f.severity box frames)
      | err e ↦ err e
    ]
  ]

  -- `opened` is a picture's size, or what `Image.open` raises; `save_error` what `save` raises.
  module _ (opened : FileName → Result Error (ℕ × ℕ)) (save_error : FileName → Option Error) where
    -- `_draw`
    pub draw :
        FileName → List (Finding W) → FileName → Exec (List (FileName × Picture W)) Error (Unit {0})
    draw png findings out_path = do
      size ← lift (opened png)
      frames ← lift (frames_from 1 size findings)
      save_picture save_error out_path (record { png = png; frames = frames })

    draw_slide :
        Context W
        → Option ℤ
        → List (Finding W)
        → Exec (List (FileName × Picture W)) Error (Unit {0})
    unfolding or_missing
    draw_slide ctx slide_num findings = do
      png ← lift (or_missing (picture_of slide_num ctx))
      draw png findings (annotated_name slide_num)

    -- The second loop of `annotate`.
    unfoldable pub annotate_slides :
        Context W
        → Groups W
        → List (ℕ × FileName)
        → Exec (List (FileName × Picture W)) Error (List (ℕ × FileName))
    unfolding draw_slide
    annotate_slides ctx [] result s = (ok result, s)
    annotate_slides ctx ((slide_num, findings) ∷ slides) result s =
        (draw_slide ctx slide_num findings
            >> annotate_slides ctx slides (set_entries (annotated_name slide_num) findings result))
          s

    -- `Annotator.annotate`: the path of each finding's picture, and the pictures that are saved.
    pub annotate : Context W → Exec (List (FileName × Picture W)) Error (List (ℕ × FileName))
    annotate ctx = annotate_slides ctx (group_from [] (filter is_drawn ctx.findings)) []

pub record ReportOut (W : Type 0) : Type 0 where
  pub review_id : ℕ
  pub score : ℤ
  pub n_slides : ℕ
  pub findings : List (Finding W)
  pub delivery : Option (DeliveryMetrics W)
  pub auto_fixed_count : ℕ

or_fresh : Option ℕ → ℕ → ℕ
or_fresh none fresh = fresh
or_fresh (some id) fresh = id

module _ {W : Type 0} where
  -- The constructor of `ReportOut` with its range of scores.
  checked_report : ReportOut W → Result Error (ReportOut W)
  checked_report report =
      if leb_ℤ (pos 0) report.score && leb_ℤ report.score (pos 100)
      then ok report
      else err (other "ValidationError")

  -- The fields that `ReportBuilder.build` gives, with the default scorer; `uuid4` is the identifier
  -- it would draw.
  unfoldable pub report_fields : ⦃d : Double W⦄ → Option ℕ → ℕ → Context W → ReportOut W
  unfolding or_fresh
  report_fields review_id uuid4 ctx =
      let n_slides = length ctx.slide_pngs in
      record {
        review_id = or_fresh review_id uuid4;
        score = score severity_weights score_floor ctx.findings n_slides;
        n_slides = n_slides;
        findings = ctx.findings;
        delivery = ctx.delivery;
        auto_fixed_count = count (λ (f : Finding W). f.auto_fixed) ctx.findings;
      }

  -- `ReportBuilder.build`
  pub build : ⦃d : Double W⦄ → Option ℕ → ℕ → Context W → Result Error (ReportOut W)
  unfolding report_fields checked_report
  build review_id uuid4 ctx = checked_report (report_fields review_id uuid4 ctx)

  module _ (render : ReportOut W → Groups W → List (ℕ × FileName) → Result Error String)
      (render_pdf : String → Result Error Bytes) {S : Type 0} where
    -- `PdfExporter.render_html`; the findings by slide are as in the aggregation.
    render_html : ReportOut W → List (ℕ × FileName) → Exec S Error String
    render_html report annotations =
        lift (render report (group_from [] report.findings) annotations)

    -- `PdfExporter.export`
    pub export : ReportOut W → List (ℕ × FileName) → Exec S Error (String × Bytes)
    unfolding render_html
    export report annotations = do
      html ← render_html report annotations
      pdf ← lift (render_pdf html)
      lift (ok (html, pdf))
