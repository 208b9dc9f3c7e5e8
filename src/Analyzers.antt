-- ===== src/Analyzers.antt =====
-- The context and the steps of the pipeline (backend/core/context.py, core/analyzers/base.py and
-- core/run.py).
pub mod Responses
pub mod Steps
pub mod Sheets
pub mod Pacing
pub mod Charts
pub mod Delivery
pub mod Windows
pub mod Spans
pub mod Aligned
pub mod Speech
pub mod Isolation
pub mod Metrics
pub mod SpeechStep
pub mod Zoom
pub mod Views
pub mod ChartSlides
mod SpeechTests
mod Tests
use slidelens.Prelude.{
  ℕ, suc, ◌≡◌, String, Bool, true, false, Option, none, some, List, [], ◌∷◌, ◌++◌, map, str_eq, not,
  ◌==◌, if◌then◌else◌,
}
use slidelens.Prelude.Exec.{Result, ok, err}
use slidelens.Schemas.{Finding}
use slidelens.Services.{Error}
use slidelens.Entities.{FileName, DeliveryMetrics}

-- `ReviewContext`, without the paths that only name files of the working directory.
pub record Context (W : Type 0) : Type 0 where
  pub findings : List (Finding W)
  pub delivery : Option (DeliveryMetrics W)
  pub slide_pngs : List (ℕ × FileName)
  pub slide_texts : List (ℕ × List ℕ)
  pub has_chart : List (ℕ × Bool)
  pub cost_rub : W

-- A step's name and its `analyze`, which may change the context before it returns or raises.
pub record Step (W : Type 0) : Type 0 where
  pub name : String
  pub analyze : Context W → Result Error (List (Finding W)) × Context W

unfoldable pub find_slide : ℕ → List (ℕ × FileName) → Option FileName
find_slide n [] = none
find_slide n ((k, path) ∷ pngs) = if k == n then some path else find_slide n pngs

module _ {W : Type 0} where
  -- `not data.get("source")`
  abbrev pub has_source : Finding W → Bool
  has_source f = elim (f.source) [ none ↦ false | some s ↦ not (str_eq s "") ]

  abbrev pub sourced : String → Finding W → Finding W
  sourced source f = if has_source f then f else record f { source = some source }

  -- `add_findings`
  unfoldable pub add_findings : List (Finding W) → String → Context W → Context W
  add_findings items source ctx = record ctx {
    findings = ctx.findings ++ map (sourced source) items;
  }

  unfoldable pub finish :
      String → Result Error (List (Finding W)) × Context W → List (Finding W) × Context W
  unfolding add_findings
  finish name (ok findings, ctx) = (findings, add_findings findings name ctx)
  finish name (err e, ctx) = ([], ctx)

  -- `BaseAnalyzer.run`
  unfoldable pub run_step : Step W → Context W → List (Finding W) × Context W
  unfolding finish
  run_step step ctx = finish step.name (step.analyze ctx)

  -- `PipelineOrchestrator.run`
  unfoldable pub run_steps : List (Step W) → Context W → Context W
  unfolding run_step
  run_steps [] ctx = ctx
  run_steps (step ∷ steps) ctx = run_steps steps (run_step step ctx).1

  -- `slide_png`; `none` is the `FileNotFoundError`.
  unfoldable pub slide_png : ℕ → Context W → Option FileName
  unfolding find_slide
  slide_png n ctx = find_slide n ctx.slide_pngs
