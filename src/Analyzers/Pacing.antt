-- ===== src/Analyzers/Pacing.antt =====
-- How long the speaker stays on a slide (backend/core/analyzers/crossmodal.py). `shown` is the
-- language's formatting of a float with a number of digits.
use slidelens.Prelude.{
  ℕ, ◌≡◌, refl, ◌∙◌, String, false, Option, none, some, List, [], ◌∷◌, ◌==◌, if◌then◌else◌,
  Bool-cases, inl, inr, arith,
}
use slidelens.Prelude.Int.{pos}
use slidelens.Prelude.Text.{◌<>◌, show}
use slidelens.Double.{Double, ◌⊖◌, ◌⊘◌}
use slidelens.Schemas.{Finding, narrative, minor}
use slidelens.Entities.{SlideTiming}

pub data Pacing : Type 0 where
  swamp stub : Pacing

-- A slide's entry in the dictionary of windows, where it was or at the end.
unfoldable pub set_window : {W : Type 0} → ℕ → W × W → List (ℕ × (W × W)) → List (ℕ × (W × W))
set_window n window [] = (n, window) ∷ []
set_window n window ((k, old) ∷ windows) =
    let rest = set_window n window windows in
    if k == n then (k, window) ∷ windows else (k, old) ∷ rest

windows_onto : {W : Type 0} → List (ℕ × (W × W)) → List (SlideTiming W) → List (ℕ × (W × W))
windows_onto windows [] = windows
windows_onto windows (t ∷ timings) =
    windows_onto (set_window t.slide_num (t.start, t.end) windows) timings

-- `windows_from_slide_timings`
pub windows_from_slide_timings : {W : Type 0} → List (SlideTiming W) → List (ℕ × (W × W))
unfolding windows_onto
windows_from_slide_timings timings = windows_onto [] timings

pub window_of : {W : Type 0} → ℕ → List (ℕ × (W × W)) → Option (W × W)
window_of n [] = none
window_of n ((k, window) ∷ windows) = if k == n then some window else window_of n windows

-- The last visit of a slide, or else `before`.
abbrev pub last_visit : {W : Type 0} → ℕ → Option (W × W) → List (SlideTiming W) → Option (W × W)
last_visit n before [] = before
last_visit n before (t ∷ timings) =
    last_visit n (if t.slide_num == n then some (t.start, t.end) else before) timings

module _ {W : Type 0} where
  pub window_of-set_window :
      (n k : ℕ) (window : W × W) (windows : List (ℕ × (W × W)))
      → window_of n (set_window k window windows)
        ≡ (if k == n then some window else window_of n windows)
  unfolding window_of set_window
  window_of-set_window n k window [] = refl
  window_of-set_window n k window ((j, old) ∷ windows) =
      ground (arith, window_of-set_window n k window windows)

  window_of-windows_onto :
      (n : ℕ) (windows : List (ℕ × (W × W))) (timings : List (SlideTiming W))
      → window_of n (windows_onto windows timings) ≡ last_visit n (window_of n windows) timings
  unfolding windows_onto
  window_of-windows_onto n windows [] = refl
  window_of-windows_onto n windows (t ∷ timings) =
      window_of-windows_onto n (set_window t.slide_num (t.start, t.end) windows) timings
      ∙ rw (window_of-set_window n t.slide_num (t.start, t.end) windows) refl

  -- The window of a slide is its last visit in the recording, and a slide that was never shown has
  -- none; an earlier visit of the same slide is forgotten.
  pub windows_from_slide_timings_lem :
      (n : ℕ) (timings : List (SlideTiming W))
      → window_of n (windows_from_slide_timings timings) ≡ last_visit n none timings
  unfolding windows_from_slide_timings window_of
  windows_from_slide_timings_lem n timings = window_of-windows_onto n [] timings

module _ {W : Type 0} ⦃d : Double W⦄ where
  -- `classify_slide_pacing`, with 150 and 10 seconds
  pub classify_slide_pacing : W → Option Pacing
  classify_slide_pacing duration_seconds =
      if d.le (d.lit 150 1) duration_seconds
      then some swamp
      else if d.le duration_seconds (d.lit 10 1)
      then some stub
      else none

  module _ (shown : ℕ → W → String) where
    abbrev pub too_long : ℕ → ℕ → W → Finding W
    too_long id slide_num duration = record {
      id = id;
      slide_num = some (pos slide_num);
      category = narrative;
      severity = minor;
      title = "Слайду уделено слишком много времени";
      description =
          "На слайде "
          <> show slide_num
          <> " спикер провёл "
          <> shown 1 (duration ⊘ d.lit 60 1)
          <> " мин — стоит разделить его на несколько слайдов.";
      fix_suggestion = "Разбейте слайд на 2, чтобы облегчить подачу.";
      bbox = none;
      auto_fixable = false;
      auto_fixed = false;
      source = none;
    }

    abbrev pub too_short : ℕ → ℕ → W → Finding W
    too_short id slide_num duration = record {
      id = id;
      slide_num = some (pos slide_num);
      category = narrative;
      severity = minor;
      title = "Слайд пролистан слишком быстро";
      description =
          "Слайд "
          <> show slide_num
          <> " показан "
          <> shown 0 duration
          <> " с — возможно, он не нужен или дублирует соседний.";
      fix_suggestion = "Уберите слайд или объедините его с соседним.";
      bbox = none;
      auto_fixable = false;
      auto_fixed = false;
      source = none;
    }

    -- `_pacing_findings`; `id` is the finding's fresh identifier.
    pub pacing_findings : ℕ → ℕ → W → W → List (Finding W)
    pacing_findings id slide_num start end =
        let duration = end ⊖ start in
        if d.le (d.lit 150 1) duration
        then too_long id slide_num duration ∷ []
        else if d.le duration (d.lit 10 1)
        then too_short id slide_num duration ∷ []
        else []

    -- What a timing map's label says and what the findings say is the same: a slide that is labelled
    -- a swamp has the one finding that it takes too long, one that is labelled a stub the one that it
    -- is too short, and one without a label has none.
    pub pacing_findings_lem :
        (id slide_num : ℕ) (start end : W)
        → pacing_findings id slide_num start end ≡ elim (classify_slide_pacing (end ⊖ start)) [
          | none ↦ []
          | some swamp ↦ too_long id slide_num (end ⊖ start) ∷ []
          | some stub ↦ too_short id slide_num (end ⊖ start) ∷ []
        ]
    unfolding pacing_findings classify_slide_pacing
    pacing_findings_lem id slide_num start end =
        elim (Bool-cases (d.le (d.lit 150 1) (end ⊖ start))) [
          | inl e ↦ rw e refl
          | inr e ↦ elim (Bool-cases (d.le (end ⊖ start) (d.lit 10 1))) [
            | inl e' ↦ rw (e, e') refl
            | inr e' ↦ rw (e, e') refl
          ]
        ]
