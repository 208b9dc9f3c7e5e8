-- ===== src/Analyzers/Responses.antt =====
-- What the model answers with (backend/core/analyzers/schemas.py), and the client as the analyzers
-- use it: a call for each schema, which takes the name of its system prompt, the pictures and the
-- text, and may change the state `S` and raise. A finding gets a fresh identifier, `id`.
use slidelens.Prelude.{ℕ, String, Bool, Option, none, List, [], ◌∷◌}
use slidelens.Prelude.Int.{ℤ}
use slidelens.Prelude.Exec.{Exec, Result, ok, err}
use slidelens.Double.{Double}
use slidelens.Schemas.{BBox, Finding, Category, Severity}
use slidelens.Geometry.{box_2d_to_bbox}
use slidelens.Entities.{FileName}
use slidelens.Services.{Error}

pub record SlideFindingIn : Type 0 where
  pub category : Category
  pub severity : Severity
  pub title : String
  pub description : String
  pub fix_suggestion : String
  pub box_2d : Option (List ℤ)
  pub auto_fixable : Bool

pub record SlideAnalysisResponse : Type 0 where
  pub findings : List SlideFindingIn
  pub has_chart : Bool

pub record SuspiciousRegionIn : Type 0 where
  pub box_2d : Option (List ℤ)
  pub reason : String

pub record DeckFindingIn : Type 0 where
  pub slide_num : Option ℤ
  pub category : Category
  pub severity : Severity
  pub title : String
  pub description : String
  pub fix_suggestion : String
  pub auto_fixable : Bool

pub record LabelConsistencyResponse : Type 0 where
  pub contradicts : Bool
  pub finding : Option SlideFindingIn

-- `core.schemas.TranscriptSegment`
pub record TranscriptSegment (W : Type 0) : Type 0 where
  pub start : W
  pub end : W
  pub text : List ℕ

-- The calls of the LLM client that the analyzers make.
pub record Models (S W : Type 0) : Type 0 where
  pub slide_view : String → List FileName → List ℕ → Exec S Error SlideAnalysisResponse
  pub screening : String → List FileName → List ℕ → Exec S Error (List SuspiciousRegionIn)
  pub deck_view : String → List FileName → List ℕ → Exec S Error (List DeckFindingIn)
  pub labels : String → List ℕ → Exec S Error LabelConsistencyResponse
  pub transcribe : FileName → Exec S Error (List (TranscriptSegment W))

module _ {W : Type 0} where
  abbrev pub with_box : ℕ → Option ℤ → SlideFindingIn → Option (BBox W) → Finding W
  with_box id slide_num item bbox = record {
    id = id;
    slide_num = slide_num;
    category = item.category;
    severity = item.severity;
    title = item.title;
    description = item.description;
    fix_suggestion = item.fix_suggestion;
    bbox = bbox;
    auto_fixable = item.auto_fixable;
    auto_fixed = Bool.false;
    source = none;
  }

  module _ ⦃d : Double W⦄ where
    -- `Finding.model_validate` of `as_finding_fields` and a slide number.
    unfoldable pub finding_with :
        ℕ → Option ℤ → SlideFindingIn → Result Error (Option (BBox W)) → Result Error (Finding W)
    finding_with id slide_num item (err e) = err e
    finding_with id slide_num item (ok bbox) = ok (with_box id slide_num item bbox)

    unfoldable pub finding_from : ℕ → Option ℤ → SlideFindingIn → Result Error (Finding W)
    unfolding finding_with
    finding_from id slide_num item = finding_with id slide_num item (box_2d_to_bbox item.box_2d)

    -- A list of findings of one slide, numbered from `k` for their identifiers.
    unfoldable pub findings_from :
        (ℕ → ℕ) → ℕ → Option ℤ → List SlideFindingIn → Result Error (List (Finding W))
    unfolding finding_from
    findings_from id k slide_num [] = ok []
    findings_from id k slide_num (item ∷ items) = elim (finding_from (id k) slide_num item) [
      | err e ↦ err e
      | ok f ↦ elim (findings_from id (ℕ.suc k) slide_num items) [
        | ok fs ↦ ok (f ∷ fs)
        | err e ↦ err e
      ]
    ]
