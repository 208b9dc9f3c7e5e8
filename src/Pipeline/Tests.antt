-- ===== src/Pipeline/Tests.antt =====
-- A PDF of two pages on which one analyzer finds something, and the theorem there.
use slidelens.Prelude.{
  ℕ, ◌+◌, ◌≤◌, ◌≡◌, refl, true, false, Option, none, some, List, [], ◌∷◌, All, count, filter,
}
use slidelens.Prelude.Int.{ℤ, pos}
use slidelens.Prelude.Exec.{ok, err}
use slidelens.Prelude.Sort.{IsSorted}
use slidelens.Prelude.Text.{codes, same_codes, lower}
use slidelens.Double.FixedPoint.{fixed_double, fixed-IsDouble}
use slidelens.Schemas.{Finding, Severity, Category}
use slidelens.Services.{other}
use slidelens.Ingest.{
  Ingested, exited, pages, ingest, formatted, rendered, render_pdf_to_pngs, number_from,
  resolve_deck_format,
}
use slidelens.Analyzers.{
  Context, Step, run_steps, run_step, finish, add_findings, slide_png, find_slide,
}
use slidelens.Aggregate.{max_findings_per_slide, by_severity_slide}
use slidelens.Aggregate.Groups.{on_slide}
use slidelens.Report.{is_drawn, set_entry, picture_of}
use slidelens.Worker.{PipelineOutput}
use slidelens.Pipeline.{
  aggregate, Outside, RunState, DeckFile, with_slides, numbered, texts_or, run_pipeline,
}
use slidelens.Pipeline.Returns.{Answers, IsReport, HasSlide, run_pipeline_total}

abbrev two_pages : DeckFile
two_pages = record {
  content = 1 ∷ 2 ∷ [];
  deck = record { is_file = true; size = 2; suffix = codes ".pdf"; presentation = none };
  tools = record { soffice = λ k. exited 1 []; made_pdf = λ k. true; poppler = pages 2 };
  review_id = some 5;
}

abbrev office : Outside ℕ ℤ
office = record {
  strip = λ text. text;
  prompt_body = λ name s. (ok "judge", s);
  same_issue = λ prompt system s. (ok true, s + 1);
  uuid4 = λ i. 100 + i;
  fresh_review_id = 99;
  opened = λ path. ok (1920, 1080);
  save_error = λ path. none;
  copy_error = none;
  render = λ report slides annotations. ok "<html>";
  render_pdf = λ html. ok (37 ∷ []);
  read = λ path. path;
  painted = λ picture. picture.png;
}

office-Answers : Answers office
office-Answers = record {
  prompt_found = λ s. ("judge", s, refl);
  judged = λ prompt system s. (true, s + 1, refl);
  opens = λ path. ((1920, 1080), refl);
  saves = λ path. refl;
  copies = refl;
  renders = λ report slides annotations. ("<html>", refl);
  prints = λ html. (37 ∷ [], refl);
}

abbrev spotted : Finding ℤ
spotted = record {
  id = 1;
  slide_num = some (pos 2);
  category = Category.chart;
  severity = Severity.major;
  title = "t";
  description = "d";
  fix_suggestion = "f";
  bbox = some (record { x = pos 0; y = pos 0; w = pos 500; h = pos 500 });
  auto_fixable = false;
  auto_fixed = false;
  source = none;
}

abbrev spots : Step ℤ
spots = record { name = "slide"; analyze = λ ctx. (ok (spotted ∷ []), ctx) }

abbrev broken : Step ℤ
broken = record { name = "deck"; analyze = λ ctx. (err (other "timeout"), ctx) }

abbrev blank : Context ℤ
blank = record {
  findings = [];
  delivery = none;
  slide_pngs = [];
  slide_texts = [];
  has_chart = [];
  cost_rub = pos 0;
}

abbrev two_pictures : Ingested
two_pictures = record { slide_texts = []; slide_pngs = 1 ∷ 2 ∷ [] }

two_pages-ingested : ingest office.strip two_pages.deck two_pages.tools ≡ ok two_pictures
unfolding ingest formatted rendered render_pdf_to_pngs number_from resolve_deck_format same_codes
    lower
two_pages-ingested = refl

abbrev analyzed : Context ℤ
analyzed = run_steps (spots ∷ broken ∷ []) (with_slides two_pictures blank)

analyzed-placed : All (HasSlide analyzed) (filter is_drawn analyzed.findings)
unfolding run_steps run_step finish add_findings with_slides numbered texts_or set_entry picture_of
    slide_png find_slide
analyzed-placed = ((_, refl), tt)

run_pipeline_total_example :
    (findings : List (Finding ℤ)) × (output : PipelineOutput ℤ) × (t : RunState ℕ ℤ) × (run_pipeline
        office two_pages
        (spots ∷ broken ∷ [])
        blank
        (record { llm = 0; saved = [] })
      ≡ (ok output, t))
    × ((aggregate office two_pages analyzed.findings (record { llm = 0; saved = [] })).0
        ≡ ok findings)
    × IsReport office.opened two_pages analyzed findings t.saved output
    × IsSorted by_severity_slide findings
    × ((k : Option ℤ) → count (on_slide k) findings ≤ max_findings_per_slide + 1)
run_pipeline_total_example =
    run_pipeline_total fixed-IsDouble office office-Answers two_pages (spots ∷ broken ∷ []) blank
      (record { llm = 0; saved = [] }) two_pages-ingested analyzed-placed
