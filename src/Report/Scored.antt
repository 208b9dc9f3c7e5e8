-- ===== src/Report/Scored.antt =====
-- The report's constructor accepts the score (backend/core/report.py).
use slidelens.Prelude.{ℕ, ◌≡◌, refl, true, List, length, count, arith, [], String, Option}
use slidelens.Prelude.Int.{ℤ, pos, leb_ℤ}
use slidelens.Prelude.Exec.{Result, ok}
use slidelens.Double.{Double, IsDouble}
use slidelens.Schemas.{Finding}
use slidelens.Analyzers.{Context}
use slidelens.Aggregate.{severity_weights, score_floor}
use slidelens.Aggregate.Score.{score_lem}
use slidelens.Aggregate.{Groups, group_from}
use slidelens.Services.{Error}
use slidelens.Entities.{FileName, Bytes}
use slidelens.Report.{ReportOut, build, report_fields, checked_report, render_html, export}

module _ {W : Type 0} ⦃d : Double W⦄ (l : IsDouble W) where
  at_least_zero : (a : ℤ) → leb_ℤ (pos 5) a ≡ true → leb_ℤ (pos 0) a ≡ true
  at_least_zero a h = ground arith

  -- Building the report never raises: its score is between 5 and 100, which the constructor accepts,
  -- and the report has the context's findings, the number of its pictures and of the findings that
  -- are fixed.
  pub build_lem :
      (review_id : Option ℕ) (uuid4 : ℕ) (ctx : Context W)
      → (report : ReportOut W) × (build review_id uuid4 ctx ≡ ok report)
        × (leb_ℤ score_floor report.score ≡ true)
        × (leb_ℤ report.score (pos 100) ≡ true)
        × (report.findings ≡ ctx.findings)
        × (report.n_slides ≡ length ctx.slide_pngs)
        × (report.auto_fixed_count ≡ count (λ (f : Finding W). f.auto_fixed) ctx.findings)
  unfolding build checked_report report_fields
  build_lem review_id uuid4 ctx =
      let (low, high, _, _) =
        score_lem l severity_weights score_floor ctx.findings [] (length ctx.slide_pngs) refl in
      (
        report_fields review_id uuid4 ctx,
        rw (at_least_zero _ low, high) refl,
        low,
        high,
        refl,
        refl,
        refl,
      )

module _ {W S : Type 0}
    (render : ReportOut W → Groups W → List (ℕ × FileName) → Result Error String)
    (render_pdf : String → Result Error Bytes) where
  -- The export returns if the template and the printer do.
  pub export-ok :
      ((report : ReportOut W) (slides : Groups W) (annotations : List (ℕ × FileName))
        → (html : String) × (render report slides annotations ≡ ok html))
      → ((html : String) → (pdf : Bytes) × (render_pdf html ≡ ok pdf))
      → (report : ReportOut W) (annotations : List (ℕ × FileName)) (s : S)
      → (html : String) × (pdf : Bytes) × (export render render_pdf report annotations s
          ≡ (ok (html, pdf), s))
  unfolding export render_html
  export-ok renders prints report annotations s =
      let (html, e) = renders report (group_from [] report.findings) annotations in
      let (pdf, e') = prints html in (html, pdf, rw (e, e') refl)
