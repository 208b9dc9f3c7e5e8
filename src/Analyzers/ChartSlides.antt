-- ===== src/Analyzers/ChartSlides.antt =====
-- `ChartChecker` (backend/core/analyzers/charts.py). `read_chart` is the client's call that reads a
-- picture, `json` a reading as JSON, `described` the text of a flaw, which quotes numbers. The sheet is
-- read by openpyxl: `load_sheet` gives its number cells, or its exception.
use slidelens.Prelude.{
  ℕ, String, Bool, true, false, Option, none, some, List, [], ◌∷◌, ◌++◌, map, leb,
}
use slidelens.Prelude.Int.{pos}
use slidelens.Prelude.Exec.{Exec, Result, ok, err, gather, ◌>>=◌}
use slidelens.Prelude.Text.{codes, show, strip}
use slidelens.Prelude.Sort.{sort_by}
use slidelens.Double.{Double}
use slidelens.Schemas.{Finding, chart, major}
use slidelens.Entities.{FileName}
use slidelens.Services.{Error, other}
use slidelens.Analyzers.{Context, slide_png}
use slidelens.Analyzers.Responses.{SlideFindingIn, LabelConsistencyResponse, Models, findings_from}
use slidelens.Analyzers.Windows.{text_of_slide}
use slidelens.Analyzers.Charts.{
  ChartReading, ChartFlaw, truncated_axis, pie_sum, not_in_excel, check_truncated_axis,
  check_pie_sum, check_against_excel,
}

abbrev pub flaw_title : ChartFlaw → String
flaw_title truncated_axis = "Обрезанная ось Y"
flaw_title pie_sum = "Доли круговой диаграммы не суммируются в 100%"
flaw_title not_in_excel = "Данные графика не подтверждаются Excel"

abbrev pub flaw_suggestion : ChartFlaw → String
flaw_suggestion truncated_axis = "Начать ось Y с нуля или явно указать разрыв оси."
flaw_suggestion pie_sum = "Проверить и скорректировать значения долей диаграммы."
flaw_suggestion not_in_excel = "Сверить значения графика с источником и исправить расхождения."

-- The slides whose flag is set.
abbrev pub flagged : List (ℕ × Bool) → List ℕ
flagged [] = []
flagged ((n, true) ∷ flags) = n ∷ flagged flags
flagged ((n, false) ∷ flags) = flagged flags

module _ {W : Type 0} ⦃d : Double W⦄ (described : ChartFlaw → ChartReading W → String)
    (id : ℕ → ℕ → ℕ) (models : Models (Context W) W)
    (read_chart : String → FileName → List ℕ → Exec (Context W) Error (ChartReading W))
    (json : ChartReading W → List ℕ) where
  abbrev pub flaw_item : ChartReading W → ChartFlaw → SlideFindingIn
  flaw_item reading flaw = record {
    category = chart;
    severity = major;
    title = flaw_title flaw;
    description = described flaw reading;
    fix_suggestion = flaw_suggestion flaw;
    box_2d = none;
    auto_fixable = false;
  }

  abbrev pub flaw_items : ChartReading W → Option ChartFlaw → List SlideFindingIn
  flaw_items reading none = []
  flaw_items reading (some flaw) = flaw_item reading flaw ∷ []

  unfoldable pub excel_items : ChartReading W → Option (List W) → List SlideFindingIn
  excel_items reading none = []
  excel_items reading (some values) = flaw_items reading (check_against_excel reading values)

  -- The deterministic checks, in their order.
  unfoldable pub checked_items : ChartReading W → Option (List W) → List SlideFindingIn
  unfolding excel_items
  checked_items reading excel_values =
      (flaw_items reading (check_truncated_axis reading)
        ++ flaw_items reading (check_pie_sum reading))
      ++ excel_items reading excel_values

  abbrev pub label_items : LabelConsistencyResponse → List SlideFindingIn
  label_items response = elim (response.contradicts) [
    | false ↦ []
    | true ↦ elim (response.finding) [ none ↦ [] | some item ↦ item ∷ [] ]
  ]

  abbrev pub read_labels : LabelConsistencyResponse → Exec (Context W) Error (List SlideFindingIn)
  read_labels response ctx = (ok (label_items response), ctx)

  -- `_check_label_consistency`; `stripped` is the slide's text without the spaces around it.
  unfoldable pub check_labels :
      ChartReading W → List ℕ → List ℕ → Exec (Context W) Error (List SlideFindingIn)
  check_labels reading slide_text [] ctx = (ok [], ctx)
  check_labels reading slide_text (c ∷ stripped) ctx =
      (models.labels "chart_label_check" (
            codes "Текст слайда:\n"
            ++ slide_text
            ++ codes "\n\nДанные графика (JSON):\n"
            ++ json reading)
          >>= read_labels)
        ctx

  abbrev pub validated_items :
      ℕ → List SlideFindingIn → List SlideFindingIn → Exec (Context W) Error (List (Finding W))
  validated_items slide_num items labels ctx =
      (findings_from (id slide_num) 0 (some (pos slide_num)) (items ++ labels), ctx)

  unfoldable pub check_reading :
      ℕ → Option (List W) → ChartReading W → Exec (Context W) Error (List (Finding W))
  unfolding checked_items check_labels
  check_reading slide_num excel_values reading ctx =
      (check_labels reading (text_of_slide ctx.slide_texts slide_num)
            (strip (text_of_slide ctx.slide_texts slide_num))
          >>= validated_items slide_num (checked_items reading excel_values))
        ctx

  unfoldable pub check_png :
      ℕ → Option (List W) → Option FileName → Exec (Context W) Error (List (Finding W))
  unfolding check_reading
  check_png slide_num excel_values none ctx = (err (other "FileNotFoundError"), ctx)
  check_png slide_num excel_values (some png) ctx =
      (read_chart "chart_reading" png (codes "Слайд " ++ codes (show slide_num) ++ codes ".")
          >>= check_reading slide_num excel_values)
        ctx

  -- `_check_slide`
  unfoldable pub check_slide : Option (List W) → ℕ → Exec (Context W) Error (List (Finding W))
  unfolding check_png
  check_slide excel_values slide_num ctx =
      check_png slide_num excel_values (slide_png slide_num ctx) ctx

  abbrev pub concat_items : List (List (Finding W)) → List (Finding W)
  concat_items [] = []
  concat_items (fs ∷ fss) = fs ++ concat_items fss

  abbrev pub joined_items : List (List (Finding W)) → Exec (Context W) Error (List (Finding W))
  joined_items results ctx = (ok (concat_items results), ctx)

  unfoldable pub check_slides : List ℕ → Option (List W) → Exec (Context W) Error (List (Finding W))
  unfolding check_slide
  check_slides slide_nums excel_values =
      gather (map (check_slide excel_values) slide_nums) >>= joined_items

  unfoldable pub with_sheet :
      (FileName → Result Error (List W))
      → Option FileName
      → Exec (Context W) Error (Option (List W))
  with_sheet load_sheet none ctx = (ok none, ctx)
  with_sheet load_sheet (some path) ctx =
      (elim (load_sheet path) [ ok values ↦ ok (some values) | err e ↦ err e ], ctx)

  unfoldable pub analyze_flagged :
      (FileName → Result Error (List W))
      → Option FileName
      → List ℕ
      → Exec (Context W) Error (List (Finding W))
  unfolding check_slides with_sheet
  analyze_flagged load_sheet xlsx_path [] ctx = (ok [], ctx)
  analyze_flagged load_sheet xlsx_path (n ∷ slide_nums) ctx =
      (with_sheet load_sheet xlsx_path >>= check_slides (n ∷ slide_nums)) ctx

  -- `ChartChecker.analyze`
  unfoldable pub analyze_charts :
      (FileName → Result Error (List W))
      → Option FileName
      → Exec (Context W) Error (List (Finding W))
  unfolding analyze_flagged
  analyze_charts load_sheet xlsx_path ctx =
      analyze_flagged load_sheet xlsx_path (sort_by leb (flagged ctx.has_chart)) ctx
