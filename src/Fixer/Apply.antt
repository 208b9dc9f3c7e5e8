-- ===== src/Fixer/Apply.antt =====
-- `PptxFixer` (backend/core/fix.py): the edits one after another, the control check and the
-- rollback. The deck that `Work` holds is the copy that is edited.
use slidelens.Prelude.{
  ℕ, String, true, false, not, Option, none, some, List, [], ◌∷◌, find?, map, length, set_elem,
  if◌then◌else◌,
}
use slidelens.Prelude.Int.{ℤ}
use slidelens.Double.{Double}
use slidelens.Schemas.{Finding, BBox}
use slidelens.Fixer.{
  Shape, SlideShapes, Presentation, FixResult, FixStatus, FixLogEntry, FixRule, slide_at, set_slide,
  passes_control_check,
}
use slidelens.Fixer.Rules.{min_font_size_rule, contrast_rule, alignment_rule}
use slidelens.Fixer.Match.{find_matching_shape}

pub record Work : Type 0 where
  pub deck : Presentation
  pub touched : List (ℤ × ℕ)

-- What one finding leaves: its log entry, the finding, and the deck.
abbrev pub Applied : Type 0 → Type 0
Applied W = Option FixLogEntry × Finding W × Work

abbrev pub skip : {W : Type 0} → Finding W → Option String → String → Work → Applied W
skip finding rule reason work = (
  some (record {
    finding_id = finding.id;
    rule = rule;
    status = FixStatus.skipped;
    reason = reason;
  }),
  finding,
  work,
)

unfoldable pub edit_shape : ℤ → SlideShapes → ℕ → Shape → Work → Work
edit_shape slide_num slide i shape work = record work {
  deck = record work.deck {
    slides = set_slide slide_num (set_elem slide i shape) work.deck.slides;
  };
}

-- After `rule.apply`.
unfoldable pub after_rule :
    {W : Type 0} → Finding W → ℤ → SlideShapes → ℕ → String → Work → FixResult × Shape → Applied W
unfolding edit_shape
after_rule finding slide_num slide i rule work (result, shape) =
    let edited = edit_shape slide_num slide i shape work in
    if result.applied
    then (
      some (record {
        finding_id = finding.id;
        rule = some rule;
        status = FixStatus.applied;
        reason = "";
      }),
      record finding { auto_fixed = true },
      record edited { touched = (slide_num, shape.shape_id) ∷ edited.touched },
    )
    else skip finding (some rule) result.reason edited

abbrev pub logged : Option FixLogEntry → List FixLogEntry → List FixLogEntry
logged none log = log
logged (some entry) log = entry ∷ log

abbrev pub rolled_back : FixLogEntry → FixLogEntry
rolled_back entry = record entry { status = FixStatus.skipped; reason = "rolled_back" }

module _ {W : Type 0} where
  unfoldable pub with_rule :
      Finding W → ℤ → SlideShapes → ℕ × Shape → Work → Option (FixRule W) → Applied W
  unfolding after_rule
  with_rule finding slide_num slide matched work none = skip finding none "no applicable rule" work
  with_rule finding slide_num slide matched work (some rule) =
      after_rule finding slide_num slide matched.0 rule.name work
        (rule.apply matched.0 matched.1 slide)

  unfoldable pub with_shape :
      List (FixRule W) → Finding W → ℤ → SlideShapes → Work → Option (ℕ × Shape) → Applied W
  unfolding with_rule
  with_shape rules finding slide_num slide work none = skip finding none "no matching shape" work
  with_shape rules finding slide_num slide work (some matched) =
      with_rule finding slide_num slide matched work
        (find? (λ (r : FixRule W). r.applies_to finding) rules)

  abbrev pub unfixed : Finding W → Finding W
  unfixed finding = record finding { auto_fixed = false }

  -- The edited deck, or the original where the control check fails.
  unfoldable pub checked :
      Presentation
      → List FixLogEntry × List (Finding W) × Work
      → List FixLogEntry × List (Finding W) × Presentation
  checked deck (log, findings, work) =
      if passes_control_check work.deck (length deck.slides) work.touched
      then (log, findings, work.deck)
      else (map rolled_back log, map unfixed findings, deck)

  module _ ⦃d : Double W⦄ (rules : List (FixRule W)) where
    unfoldable pub with_slide : Finding W → ℤ → BBox W → Work → Option SlideShapes → Applied W
    unfolding with_shape
    with_slide finding slide_num bbox work none = skip finding none "slide_num out of range" work
    with_slide finding slide_num bbox work (some slide) =
        with_shape rules finding slide_num slide work
          (find_matching_shape slide bbox work.deck.slide_width work.deck.slide_height)

    unfoldable pub with_place : Finding W → Work → Option ℤ → Option (BBox W) → Applied W
    unfolding with_slide
    with_place finding work (some slide_num) (some bbox) =
        with_slide finding slide_num bbox work (slide_at slide_num work.deck.slides)
    with_place finding work _ _ = skip finding none "no slide_num/bbox" work

    -- `_apply_one`
    unfoldable pub apply_one : Finding W → Work → Applied W
    unfolding with_place
    apply_one finding work =
        if not finding.auto_fixable
        then (none, finding, work)
        else with_place finding work finding.slide_num finding.bbox

    -- The loop over the findings.
    unfoldable pub apply_all : List (Finding W) → Work → List FixLogEntry × List (Finding W) × Work
    unfolding apply_one
    apply_all [] work = ([], [], work)
    apply_all (finding ∷ findings) work =
        let (entry, finding', work') = apply_one finding work in
        let (log, findings', work'') = apply_all findings work' in
        (logged entry log, finding' ∷ findings', work'')

    -- `PptxFixer.fix`: the fix log, the findings with their flags, and the deck that is written.
    unfoldable pub fix :
        Presentation → List (Finding W) → List FixLogEntry × List (Finding W) × Presentation
    unfolding apply_all checked
    fix deck findings = checked deck (apply_all findings (record { deck = deck; touched = [] }))

-- `PptxFixer.__init__`; `power` is `** 2.4`.
abbrev pub default_rules : {W : Type 0} → ⦃d : Double W⦄ → (W → W) → List (FixRule W)
default_rules power = min_font_size_rule ∷ contrast_rule power ∷ alignment_rule ∷ []

unfoldable pub rules_or_default :
    {W : Type 0} → ⦃d : Double W⦄ → (W → W) → List (FixRule W) → List (FixRule W)
rules_or_default power [] = default_rules power
rules_or_default power (rule ∷ rules) = rule ∷ rules
