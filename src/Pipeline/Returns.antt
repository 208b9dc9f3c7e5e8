-- ===== src/Pipeline/Returns.antt =====
-- When everything outside answers, the pipeline returns (backend/worker/tasks.py).
use slidelens.Prelude.{
  ℕ, ◌+◌, ◌≤◌, ◌≡◌, ◌∙◌, refl, ap, String, true, Option, none, some, List, [], ◌∷◌, arith, All,
  count, filter, length, if◌then◌else◌, inl, inr, Bool-cases,
}
use slidelens.Prelude.Int.{ℤ, pos, leb_ℤ}
use slidelens.Prelude.Exec.{Result, ok, Succeeds}
use slidelens.Prelude.Sort.{IsSorted}
use slidelens.Double.{Double, IsDouble}
use slidelens.Entities.{FileName, Bytes}
use slidelens.Schemas.{Finding, Category}
use slidelens.Services.{Error, other}
use slidelens.Ingest.{Ingested, ingest as ingest_deck}
use slidelens.Analyzers.{Context, Step, run_steps}
use slidelens.Aggregate.{
  max_findings_per_slide, Groups, misc_finding, by_severity_slide, score_floor,
}
use slidelens.Aggregate.Groups.{on_slide}
use slidelens.Aggregate.Order.{run_total}
use slidelens.Aggregate.Kept.{run-All, misc_finding-bbox}
use slidelens.Report.{ReportOut, Picture, is_drawn, picture_of}
use slidelens.Report.Pictures.{has_path, IsPictured, IsShown, annotate_lem, picture_of-findings}
use slidelens.Report.Frames.{box_there}
use slidelens.Report.Scored.{build_lem, export-ok}
use slidelens.Worker.{PipelineOutput}
use slidelens.Pipeline.{
  Outside, RunState, DeckFile, is_pptx, iou_threshold, with_slides, with_client, with_saved,
  seed_fixed, output_of, report_on, aggregate, aggregate_and_report, run_pipeline, raised, copied,
}

-- Every call of the outside answers: the model, the files and the printers.
pub record Answers {S W : Type 0} (outside : Outside S W) : Type 0 where
  pub prompt_found : Succeeds (outside.prompt_body "same_issue_judge")
  pub judged : (prompt system : String) → Succeeds (outside.same_issue prompt system)
  pub opens : (path : FileName) → (size : ℕ × ℕ) × (outside.opened path ≡ ok size)
  pub saves : (path : FileName) → outside.save_error path ≡ none
  pub copies : outside.copy_error ≡ none
  pub renders :
      (report : ReportOut W) (slides : Groups W) (annotations : List (ℕ × FileName))
      → (html : String) × (outside.render report slides annotations ≡ ok html)
  pub prints : (html : String) → (pdf : Bytes) × (outside.render_pdf html ≡ ok pdf)

module _ {W : Type 0} where
  abbrev pub HasSlide : Context W → Finding W → Type 0
  HasSlide ctx f = (png : FileName) × (picture_of f.slide_num ctx ≡ some png)

  -- If it is drawn, its slide has a picture.
  abbrev Seen : Context W → Finding W → Type 0
  Seen ctx f = is_drawn f ≡ true → HasSlide ctx f

  Seen-drawn :
      (ctx : Context W) (fs : List (Finding W))
      → All (HasSlide ctx) (filter is_drawn fs)
      → All (Seen ctx) fs
  Seen-drawn ctx [] h = tt
  Seen-drawn ctx (f ∷ fs) h = elim (Bool-cases (is_drawn f)) [
    | inl e ↦ let (mine, more) = rw e at h in ((λ _. mine), Seen-drawn ctx fs more)
    | inr e ↦ ((λ e'. cc), Seen-drawn ctx fs (rw e at h))
  ]

  drawn-Seen :
      (ctx : Context W) (fs : List (Finding W))
      → All (Seen ctx) fs
      → All (HasSlide ctx) (filter is_drawn fs)
  drawn-Seen ctx [] h = tt
  drawn-Seen ctx (f ∷ fs) (h, hs) = elim (Bool-cases (is_drawn f)) [
    | inl e ↦ rw e (h e, drawn-Seen ctx fs hs)
    | inr e ↦ rw e (drawn-Seen ctx fs hs)
  ]

  -- The same holds whatever the context's findings are.
  placed_for :
      (ctx : Context W) (findings fs : List (Finding W))
      → All (HasSlide ctx) fs
      → All (HasSlide (record ctx { findings = findings })) fs
  placed_for ctx findings [] h = tt
  placed_for ctx findings (f ∷ fs) ((png, e), hs) =
      ((png, picture_of-findings f.slide_num ctx findings ∙ e), placed_for ctx findings fs hs)

module _ {W : Type 0} ⦃d : Double W⦄ where
  -- What an output and the saved pictures say of the analyzed context and of its aggregated findings.
  abbrev pub IsReport :
      (FileName → Result Error (ℕ × ℕ))
      → DeckFile
      → Context W
      → List (Finding W)
      → List (FileName × Picture W)
      → PipelineOutput W
      → Type 0
  IsReport opened file ctx findings saved output =
      (output.findings ≡ findings)
      × (output.n_slides ≡ length ctx.slide_pngs)
      × (leb_ℤ score_floor output.score ≡ true)
      × (leb_ℤ output.score (pos 100) ≡ true)
      × (output.fixed ≡ (if is_pptx file then some file.content else none))
      × All (λ f. has_path f.id output.annotations ≡ true) (filter is_drawn findings)
      × All (IsPictured (filter is_drawn findings)) output.annotations
      × All (IsShown opened (record ctx { findings = findings }) saved) (filter is_drawn findings)

module _ {S W : Type 0} ⦃d : Double W⦄ (l : IsDouble W) (outside : Outside S W)
    (answers : Answers outside) (file : DeckFile) where
  abbrev fixed_file : Option Bytes
  fixed_file = if is_pptx file then some file.content else none

  seed_fixed-ok : seed_fixed outside file ≡ ok fixed_file
  unfolding seed_fixed copied
  seed_fixed-ok = elim (Bool-cases (is_pptx file)) [
    | inl e ↦ rw (e, answers.copies) refl
    | inr e ↦ rw e refl
  ]

  report_on-ok :
      (ctx : Context W) (s : RunState S W)
      → All (HasSlide ctx) (filter is_drawn ctx.findings)
      → (output : PipelineOutput W) × (t : RunState S W) × (report_on outside file ctx s
          ≡ (ok output, t))
        × IsReport outside.opened file ctx ctx.findings t.saved output
  unfolding report_on with_saved output_of
  report_on-ok ctx s there =
      let (annotations, saved, e, has, pictured, shown, _) =
        annotate_lem outside.opened outside.save_error answers.opens answers.saves ctx s.saved
          there in
      let (report, e', low, high, same, size, _) =
        build_lem l file.review_id outside.fresh_review_id ctx in
      let t : RunState S W = record { llm = s.llm; saved = saved } in
      let (html, pdf, e'') =
        export-ok outside.render outside.render_pdf answers.renders answers.prints report
          annotations t in
      (
        output_of outside file ctx fixed_file annotations report pdf t,
        t,
        rw (seed_fixed-ok, e, e', e'') refl,
        (same, size, low, high, refl, has, pictured, shown),
      )

  -- A note on what was left out is not drawn.
  misc_unseen :
      (ctx : Context W) (id : ℕ) (k : Option ℤ) (c : Category) (n : ℕ)
      → Seen ctx (misc_finding id k c n)
  misc_unseen ctx id k c n h =
      let (box, e) =
        box_there (misc_finding {W = W} id k c n).slide_num (misc_finding {W = W} id k c n).bbox
          h in
      let absent : none ≡ some box = cc (misc_finding-bbox {W = W} id k c n) in cc absent

  aggregate-ok :
      (ctx : Context W) (s : RunState S W)
      → All (HasSlide ctx) (filter is_drawn ctx.findings)
      → (out : List (Finding W)) × (t : RunState S W) × (aggregate outside file ctx.findings s
          ≡ (ok out, t))
        × IsSorted by_severity_slide out
        × ((k : Option ℤ) → count (on_slide k) out ≤ max_findings_per_slide + 1)
        × All (HasSlide ctx) (filter is_drawn out)
  unfolding aggregate with_client
  aggregate-ok ctx s there =
      let (out, llm, e, sorted, sizes) =
        run_total outside.prompt_body outside.same_issue iou_threshold outside.uuid4
          max_findings_per_slide (other "IndexError") answers.prompt_found answers.judged
          ctx.findings s.llm (omega arith) in
      let seen =
        run-All outside.prompt_body outside.same_issue iou_threshold outside.uuid4
          max_findings_per_slide (other "IndexError") (Seen ctx) (misc_unseen ctx) ctx.findings
          s.llm (Seen-drawn ctx ctx.findings there) e in
      (out, record s { llm = llm }, rw e refl, sorted, sizes, drawn-Seen ctx out seen)

  -- A deck that is ingested, on which every call outside answers, gets a report, if the findings of
  -- the analyzers that have a slide and a box are on slides with a picture: the pipeline returns. The
  -- report has exactly the findings that the aggregation makes of the analyzers' findings, in order
  -- and within the cap; its score is between 5 and 100; a copy of the deck comes with it exactly for a
  -- PPTX; and for each finding that has a slide and a box an annotated picture is saved, its slide's
  -- with the finding's frame unless the box takes four fifths of the slide, which the output names.
  pub run_pipeline_total :
      (steps : List (Step W)) (ctx : Context W) (s : RunState S W) {ingested : Ingested}
      → ingest_deck outside.strip file.deck file.tools ≡ ok ingested
      → let analyzed = run_steps steps (with_slides ingested ctx) in
        All (HasSlide analyzed) (filter is_drawn analyzed.findings)
        → (findings : List (Finding W)) × (output : PipelineOutput W) × (t : RunState S W)
          × (run_pipeline outside file steps ctx s ≡ (ok output, t))
          × ((aggregate outside file analyzed.findings s).0 ≡ ok findings)
          × IsReport outside.opened file analyzed findings t.saved output
          × IsSorted by_severity_slide findings
          × ((k : Option ℤ) → count (on_slide k) findings ≤ max_findings_per_slide + 1)
  unfolding run_pipeline aggregate_and_report raised
  run_pipeline_total steps ctx s {ingested} e there =
      let analyzed = run_steps steps (with_slides ingested ctx) in
      let (findings, s1, e', sorted, sizes, placed) = aggregate-ok analyzed s there in
      let (output, t, e'', report) =
        report_on-ok (record analyzed { findings = findings }) s1
          (placed_for analyzed findings (filter is_drawn findings) placed) in
      (findings, output, t, rw (e, e', e'') refl, ap (λ p. p.0) e', report, sorted, sizes)
