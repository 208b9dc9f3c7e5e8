-- ===== src/Pipeline.antt =====
-- The whole pipeline (`_run_pipeline` of backend/worker/tasks.py). The analyzers are steps, each with
-- what the model answers to it; only the aggregation's questions change the client's state.
pub mod Returns
mod Tests
use slidelens.Prelude.{
  ℕ, ◌≡◌, String, Bool, true, false, Option, none, some, List, [], ◌∷◌, ◌++◌, map, if◌then◌else◌,
}
use slidelens.Prelude.Int.{ℤ, pos}
use slidelens.Prelude.Exec.{Exec, Result, ok, err, lift, ◌>>=◌, ◌>>◌}
use slidelens.Prelude.Text.{codes, same_codes, lower}
use slidelens.Double.{Double}
use slidelens.Entities.{FileName, Bytes}
use slidelens.Schemas.{Finding}
use slidelens.Services.{Error, IngestError, ingest, other}
use slidelens.Ingest.{Deck, Tools, Ingested, ingest as ingest_deck}
use slidelens.Analyzers.{Context, Step, run_steps}
use slidelens.Aggregate.{Groups, run, max_findings_per_slide}
use slidelens.Report.{Picture, ReportOut, three_digits, set_entry, annotate, build, export}
use slidelens.Worker.{PipelineOutput}

abbrev pub iou_threshold : {W : Type 0} → ⦃d : Double W⦄ → W
iou_threshold ⦃d = d⦄ = d.lit 5 10

-- What the pipeline calls outside its own code. `copy_error` is what `shutil.copy2` raises.
pub record Outside (S W : Type 0) : Type 0 where
  pub strip : List ℕ → List ℕ
  pub prompt_body : String → Exec S Error String
  pub same_issue : String → String → Exec S Error Bool
  pub uuid4 : ℕ → ℕ
  pub fresh_review_id : ℕ
  pub opened : FileName → Result Error (ℕ × ℕ)
  pub save_error : FileName → Option Error
  pub copy_error : Option Error
  pub render : ReportOut W → Groups W → List (ℕ × FileName) → Result Error String
  pub render_pdf : String → Result Error Bytes
  pub read : FileName → Bytes
  pub painted : Picture W → Bytes

-- The client of the model, and the annotated pictures of the working directory.
pub record RunState (S W : Type 0) : Type 0 where
  pub llm : S
  pub saved : List (FileName × Picture W)

-- The deck's file: its contents, and what the libraries see in it.
pub record DeckFile : Type 0 where
  pub content : Bytes
  pub deck : Deck
  pub tools : Tools
  pub review_id : Option ℕ

abbrev pub is_pptx : DeckFile → Bool
is_pptx file = same_codes (map lower file.deck.suffix) (codes ".pptx")

-- `ctx.slide_pngs[idx] = png` for each page.
unfoldable pub numbered : List ℕ → List (ℕ × FileName) → List (ℕ × FileName)
numbered [] pngs = pngs
numbered (n ∷ ns) pngs =
    numbered ns (set_entry n (codes "slide_" ++ three_digits (pos n) ++ codes ".png") pngs)

-- `if slide_texts:`
unfoldable pub texts_or : List (ℕ × List ℕ) → List (ℕ × List ℕ) → List (ℕ × List ℕ)
texts_or [] old = old
texts_or (t ∷ ts) old = t ∷ ts

raised : Result IngestError Ingested → Result Error Ingested
raised (ok ingested) = ok ingested
raised (err e) = err (ingest e)

module _ {W : Type 0} where
  -- What `ingest` sets in the context.
  unfoldable pub with_slides : Ingested → Context W → Context W
  unfolding numbered texts_or
  with_slides ingested ctx = record ctx {
    slide_texts = texts_or ingested.slide_texts ctx.slide_texts;
    slide_pngs = numbered ingested.slide_pngs ctx.slide_pngs;
  }

  picture_bytes : (Picture W → Bytes) → FileName → List (FileName × Picture W) → Bytes
  picture_bytes painted path [] = []
  picture_bytes painted path ((p, picture) ∷ saved) =
      if same_codes p path then painted picture else picture_bytes painted path saved

slide_bytes : (FileName → Bytes) → List (ℕ × FileName) → List Bytes
slide_bytes read [] = []
slide_bytes read ((_, path) ∷ pngs) = read path ∷ slide_bytes read pngs

module _ {S W : Type 0} where
  -- A call that sees the client's part of the state, and one that sees the pictures.
  unfoldable pub with_client : {A : Type 0} → Exec S Error A → Exec (RunState S W) Error A
  with_client call s = ((call s.llm).0, record s { llm = (call s.llm).1 })

  unfoldable pub with_saved :
      {A : Type 0} → Exec (List (FileName × Picture W)) Error A → Exec (RunState S W) Error A
  with_saved call s = ((call s.saved).0, record s { saved = (call s.saved).1 })

  module _ ⦃d : Double W⦄ (outside : Outside S W) (file : DeckFile) where
    copied : Option Error → Result Error (Option Bytes)
    copied none = ok (some file.content)
    copied (some e) = err e

    -- The copy of the deck for the fixes that the user will ask for.
    unfoldable pub seed_fixed : Result Error (Option Bytes)
    unfolding copied
    seed_fixed = if is_pptx file then copied outside.copy_error else ok none

    unfoldable pub output_of :
        Context W
        → Option Bytes
        → List (ℕ × FileName)
        → ReportOut W
        → Bytes
        → RunState S W
        → PipelineOutput W
    unfolding picture_bytes slide_bytes
    output_of ctx fixed annotations report pdf_bytes s = record {
      slide_pngs = slide_bytes outside.read ctx.slide_pngs;
      annotations = annotations;
      pictures = λ path. picture_bytes outside.painted path s.saved;
      findings = report.findings;
      fixed = fixed;
      pdf_bytes = pdf_bytes;
      score = report.score;
      n_slides = report.n_slides;
      cost_rub = ctx.cost_rub;
      delivery = report.delivery;
    }

    -- From the aggregated findings on.
    report_on : Context W → Exec (RunState S W) Error (PipelineOutput W)
    report_on ctx = do
      fixed ← lift seed_fixed
      annotations ← with_saved (annotate outside.opened outside.save_error ctx)
      report ← lift (build file.review_id outside.fresh_review_id ctx)
      exported ← export outside.render outside.render_pdf report annotations
      λ s. (ok (output_of ctx fixed annotations report exported.1 s), s)

    unfoldable pub aggregate : List (Finding W) → Exec (RunState S W) Error (List (Finding W))
    aggregate findings = with_client (
        run outside.prompt_body outside.same_issue iou_threshold outside.uuid4
          max_findings_per_slide (other "IndexError") findings)

    -- From the analyzed context on.
    aggregate_and_report : Context W → Exec (RunState S W) Error (PipelineOutput W)
    unfolding report_on
    aggregate_and_report ctx = do
      findings ← aggregate ctx.findings
      report_on (record ctx { findings = findings })

    -- `_run_pipeline`
    pub run_pipeline : List (Step W) → Context W → Exec (RunState S W) Error (PipelineOutput W)
    unfolding raised aggregate_and_report
    run_pipeline steps ctx = do
      ingested ← lift (raised (ingest_deck outside.strip file.deck file.tools))
      aggregate_and_report (run_steps steps (with_slides ingested ctx))
