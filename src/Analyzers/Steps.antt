-- ===== src/Analyzers/Steps.antt =====
-- A failing step is skipped, and the others are not.
use slidelens.Prelude.{ℕ, ◌≡◌, refl, ◌∙◌, sym, ap, String, List, [], ◌∷◌, ◌++◌, map, All}
use mathlib.Core.List.{append-nil, append_assoc}
use slidelens.Prelude.Exec.{Result, ok, err}
use slidelens.Schemas.{Finding}
use slidelens.Services.{Error}
use slidelens.Analyzers.{
  Context, slide_png, Step, sourced, add_findings, finish, run_step, run_steps,
}

module _ {W : Type 0} where
  -- What a step adds to the context: what it found, under its name, or nothing if it raised.
  abbrev pub added : String → Result Error (List (Finding W)) → List (Finding W)
  added name (ok findings) = map (sourced name) findings
  added name (err e) = []

  abbrev pub contribution : Step W → Context W → List (Finding W)
  contribution step ctx = added step.name (step.analyze ctx).0

  -- The steps' contributions, each in the context that the steps before it left.
  abbrev pub contributions : List (Step W) → Context W → List (Finding W)
  contributions [] ctx = []
  contributions (step ∷ steps) ctx =
      contribution step ctx ++ contributions steps (run_step step ctx).1

  -- The steps leave the list of findings to `run`.
  abbrev pub LeavesFindings : Step W → Type 0
  LeavesFindings step = (ctx : Context W) → (step.analyze ctx).1.findings ≡ ctx.findings

  finish_lem :
      (name : String) (p : Result Error (List (Finding W)) × Context W)
      → (finish name p).1.findings ≡ p.1.findings ++ added name p.0
  unfolding finish add_findings
  finish_lem name (ok findings, ctx) = refl
  finish_lem name (err e, ctx) = sym (append-nil ctx.findings)

  -- For steps whose `analyze` leaves the list of findings alone: after the run, whatever steps raised,
  -- the context has the findings from before and then, in the order of the steps, those of each step
  -- that did not raise; a step that raised stops no other.
  pub run_steps_lem :
      (steps : List (Step W)) (ctx : Context W)
      → All LeavesFindings steps
      → (run_steps steps ctx).findings ≡ ctx.findings ++ contributions steps ctx
  unfolding run_steps run_step
  run_steps_lem [] ctx leaves = sym (append-nil ctx.findings)
  run_steps_lem (step ∷ steps) ctx (leaves, more) =
      let next = (run_step step ctx).1 in
      run_steps_lem steps next more
      ∙ ap (λ l. l ++ contributions steps next)
          (finish_lem step.name (step.analyze ctx)
            ∙ ap (λ l. l ++ contribution step ctx) (leaves ctx))
      ∙ append_assoc ctx.findings (contribution step ctx) (contributions steps next)

  -- Which picture a slide has does not depend on the findings.
  pub slide_png-findings :
      (n : ℕ) (ctx : Context W) (findings : List (Finding W))
      → slide_png n (record ctx { findings = findings }) ≡ slide_png n ctx
  unfolding slide_png
  slide_png-findings n ctx findings = refl
