-- ===== src/Analyzers/Views.antt =====
-- The passes over single slides and over the whole deck (`SlideAnalyzer` of
-- backend/core/analyzers/slide.py, `DeckAnalyzer.analyze` of core/analyzers/deck.py). The contact
-- sheets' pictures are drawn by Pillow; their paths are the arguments.
use slidelens.Prelude.{
  ℕ, suc, Bool, false, Option, none, some, List, [], ◌∷◌, ◌++◌, map, leb, ◌==◌, if◌then◌else◌,
}
use slidelens.Prelude.Int.{pos}
use slidelens.Prelude.Exec.{Exec, Result, ok, err, gather, lift, ◌>>=◌}
use slidelens.Prelude.Text.{codes, show}
use slidelens.Prelude.Sort.{sort_by}
use slidelens.Double.{Double}
use slidelens.Schemas.{Finding}
use slidelens.Entities.{FileName}
use slidelens.Services.{Error, other}
use slidelens.Analyzers.{Context, slide_png}
use slidelens.Analyzers.Responses.{SlideAnalysisResponse, DeckFindingIn, Models, findings_from}
use slidelens.Analyzers.Windows.{text_of_slide}
use slidelens.Analyzers.Sheets.{split_into_groups}

abbrev pub text_or_placeholder : List ℕ → List ℕ
text_or_placeholder [] = codes "(текст слайда не извлечён)"
text_or_placeholder (c ∷ text) = c ∷ text

-- A flag in the dictionary, where it was or at the end.
unfoldable pub set_flag : ℕ → Bool → List (ℕ × Bool) → List (ℕ × Bool)
set_flag n flag [] = (n, flag) ∷ []
set_flag n flag ((k, old) ∷ flags) =
    let rest = set_flag n flag flags in if k == n then (k, flag) ∷ flags else (k, old) ∷ rest

module _ {W : Type 0} ⦃d : Double W⦄ (id : ℕ → ℕ → ℕ) (models : Models (Context W) W) where
  -- What a slide's pass answers: its number, its findings, and whether it shows a chart.
  abbrev pub SlideView : Type 0
  SlideView = ℕ × List (Finding W) × Bool

  unfoldable pub view_of :
      ℕ → Bool → Result Error (List (Finding W)) → Result Error (ℕ × List (Finding W) × Bool)
  view_of slide_num has_chart (err e) = err e
  view_of slide_num has_chart (ok findings) = ok (slide_num, findings, has_chart)

  unfoldable pub read_view :
      ℕ → SlideAnalysisResponse → Exec (Context W) Error (ℕ × List (Finding W) × Bool)
  unfolding view_of
  read_view slide_num response ctx = (
    view_of slide_num response.has_chart
        (findings_from (id slide_num) 0 (some (pos slide_num)) response.findings),
    ctx,
  )

  unfoldable pub view_png :
      ℕ → Option FileName → Exec (Context W) Error (ℕ × List (Finding W) × Bool)
  unfolding read_view
  view_png slide_num none ctx = (err (other "FileNotFoundError"), ctx)
  view_png slide_num (some png) ctx =
      (models.slide_view "slide_analysis" (png ∷ []) (
            codes "Текст слайда:\n"
            ++ text_or_placeholder (text_of_slide ctx.slide_texts slide_num))
          >>= read_view slide_num)
        ctx

  -- `_analyze_slide`
  unfoldable pub analyze_slide : ℕ → Exec (Context W) Error (ℕ × List (Finding W) × Bool)
  unfolding view_png
  analyze_slide slide_num ctx = view_png slide_num (slide_png slide_num ctx) ctx

  abbrev pub view_findings : List (ℕ × List (Finding W) × Bool) → List (Finding W)
  view_findings [] = []
  view_findings ((n, findings, has_chart) ∷ views) = findings ++ view_findings views

  unfoldable pub view_flags : List (ℕ × List (Finding W) × Bool) → List (ℕ × Bool) → List (ℕ × Bool)
  unfolding set_flag
  view_flags [] flags = flags
  view_flags ((n, findings, has_chart) ∷ views) flags =
      view_flags views (set_flag n has_chart flags)

  unfoldable pub collect_views :
      List (ℕ × List (Finding W) × Bool) → Exec (Context W) Error (List (Finding W))
  unfolding view_flags
  collect_views views ctx =
      (ok (view_findings views), record ctx { has_chart = view_flags views ctx.has_chart })

  -- `SlideAnalyzer.analyze`
  unfoldable pub analyze_slides : Exec (Context W) Error (List (Finding W))
  unfolding analyze_slide collect_views
  analyze_slides ctx =
      (gather (map analyze_slide (sort_by leb (map (λ (p : ℕ × FileName). p.0) ctx.slide_pngs)))
          >>= collect_views)
        ctx

-- `Finding.model_validate` of a finding of the whole deck; `id` is its identifier.
abbrev pub deck_finding : {W : Type 0} → ℕ → DeckFindingIn → Finding W
deck_finding id item = record {
  id = id;
  slide_num = item.slide_num;
  category = item.category;
  severity = item.severity;
  title = item.title;
  description = item.description;
  fix_suggestion = item.fix_suggestion;
  bbox = none;
  auto_fixable = item.auto_fixable;
  auto_fixed = false;
  source = none;
}

unfoldable pub deck_findings : {W : Type 0} → (ℕ → ℕ) → ℕ → List DeckFindingIn → List (Finding W)
deck_findings id k [] = []
deck_findings id k (item ∷ items) = deck_finding (id k) item ∷ deck_findings id (suc k) items

-- `"\n".join(f"Слайд {n}: {text}")`
unfoldable pub texts_blob : List (ℕ × List ℕ) → List ℕ → List ℕ
texts_blob texts [] = []
texts_blob texts (n ∷ []) = codes "Слайд " ++ codes (show n) ++ codes ": " ++ text_of_slide texts n
texts_blob texts (n ∷ k ∷ slide_nums) =
    codes "Слайд "
    ++ codes (show n)
    ++ codes ": "
    ++ text_of_slide texts n
    ++ 10 ∷ texts_blob texts (k ∷ slide_nums)

module _ {W : Type 0} (id : ℕ → ℕ) (models : Models (Context W) W)
    (sheet_of : ℕ → List ℕ → Exec (Context W) Error FileName) where
  -- `_build_contact_sheets`, from the sheet with this number on.
  unfoldable pub build_sheets : ℕ → List (List ℕ) → Exec (Context W) Error (List FileName)
  build_sheets index [] ctx = (ok [], ctx)
  build_sheets index (group ∷ groups) ctx =
      (sheet_of index group >>= λ sheet.
      build_sheets (suc index) groups >>= λ sheets. λ s. (ok (sheet ∷ sheets), s))
        ctx

  abbrev pub read_deck : List DeckFindingIn → Exec (Context W) Error (List (Finding W))
  read_deck items ctx = (ok (deck_findings id 0 items), ctx)

  unfoldable pub analyze_nums : List ℕ → Exec (Context W) Error (List (Finding W))
  unfolding build_sheets texts_blob deck_findings
  analyze_nums [] ctx = (ok [], ctx)
  analyze_nums (n ∷ slide_nums) ctx =
      (lift (split_into_groups (n ∷ slide_nums) 2 30) >>= build_sheets 1 >>= λ sheets.
      models.deck_view "deck_analysis" sheets
        (codes "Тексты слайдов:\n" ++ texts_blob ctx.slide_texts (n ∷ slide_nums))
      >>= read_deck)
        ctx

  -- `DeckAnalyzer.analyze`
  unfoldable pub analyze_deck : Exec (Context W) Error (List (Finding W))
  unfolding analyze_nums
  analyze_deck ctx = analyze_nums (sort_by leb (map (λ (p : ℕ × FileName). p.0) ctx.slide_pngs)) ctx
