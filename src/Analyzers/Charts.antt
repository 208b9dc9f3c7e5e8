-- ===== src/Analyzers/Charts.antt =====
-- The checks of a chart that is read (backend/core/analyzers/charts.py). A finding is the check that
-- found it, since the texts are fixed up to the numbers that they quote.
use slidelens.Prelude.{
  ℕ, ◌≡◌, refl, Bool, true, false, not, Option, none, some, List, [], ◌∷◌, ◌++◌, map, filter,
  if◌then◌else◌, All, Any, arith, Bool-cases, inl, inr,
}
use slidelens.Prelude.Text.{codes, lower, strip, same_codes}
use slidelens.Double.{Double, ◌⊕◌, ◌⊖◌, ◌⊗◌, ◌⊘◌, nought, max_of, min_of}

-- `ChartReading` (backend/core/schemas.py), as far as the checks read it.
pub record ChartReading (W : Type 0) : Type 0 where
  pub chart_type : List ℕ
  pub y_axis_starts_at_zero : Bool
  -- the values of each series
  pub series : List (List W)

pub data ChartFlaw : Type 0 where
  truncated_axis pie_sum not_in_excel : ChartFlaw

abbrev pub all_values : {W : Type 0} → List (List W) → List W
all_values [] = []
all_values (values ∷ series) = values ++ all_values series

module _ {W : Type 0} ⦃d : Double W⦄ where
  -- `abs`
  abbrev pub magnitude : W → W
  magnitude v = if d.lt v nought then nought ⊖ v else v

  greatest : W → List W → W
  unfolding max_of
  greatest best [] = best
  greatest best (v ∷ values) = greatest (max_of best v) values

  least : W → List W → W
  unfolding min_of
  least best [] = best
  least best (v ∷ values) = least (min_of best v) values

  -- From the positive values on; a spread is judged from two values.
  judge_spread : List W → Option ChartFlaw
  unfolding greatest least
  judge_spread [] = none
  judge_spread (v ∷ []) = none
  judge_spread (v ∷ w ∷ values) =
      if d.le (d.lit 2 1) (greatest v (w ∷ values) ⊘ least v (w ∷ values))
      then none
      else some truncated_axis

  -- `_check_truncated_axis`
  pub check_truncated_axis : ChartReading W → Option ChartFlaw
  unfolding judge_spread
  check_truncated_axis reading =
      if reading.y_axis_starts_at_zero
      then none
      else judge_spread (filter (λ v. d.lt nought v) (all_values reading.series))

  sum_from : W → List W → W
  sum_from total [] = total
  sum_from total (v ∷ values) = sum_from (total ⊕ v) values

  -- `_check_pie_sum`
  pub check_pie_sum : ChartReading W → Option ChartFlaw
  unfolding sum_from
  check_pie_sum reading =
      if not (same_codes (map lower (strip reading.chart_type)) (codes "pie"))
      then none
      else if d.le (magnitude (sum_from nought (all_values reading.series) ⊖ d.lit 100 1))
          (d.lit 1 1)
      then none
      else some pie_sum

  -- `_matches`
  pub matches_cell : W → W → Bool
  unfolding max_of
  matches_cell value cell =
      d.le (magnitude (value ⊖ cell)) (max_of (d.lit 1 100) (magnitude cell ⊗ d.lit 1 100))

  matches_any : W → List W → Bool
  unfolding matches_cell
  matches_any value [] = false
  matches_any value (cell ∷ cells) =
      let rest = matches_any value cells in if matches_cell value cell then true else rest

  unmatched : List W → List W → List W
  unfolding matches_any
  unmatched values cells = filter (λ v. not (matches_any v cells)) values

  is_none : List W → Bool
  is_none [] = true
  is_none (_ ∷ _) = false

  -- `_check_against_excel`
  pub check_against_excel : ChartReading W → List W → Option ChartFlaw
  unfolding unmatched is_none
  check_against_excel reading excel_values =
      if is_none (all_values reading.series)
      then none
      else if is_none excel_values
      then none
      else if is_none (unmatched (all_values reading.series) excel_values)
      then none
      else some not_in_excel

  -- The value is close to a cell of the sheet, or to none.
  abbrev pub InSheet : List W → W → Type 0
  InSheet cells value = Any (λ cell. matches_cell value cell ≡ true) cells

  abbrev pub OffSheet : List W → W → Type 0
  OffSheet cells value = All (λ cell. matches_cell value cell ≡ false) cells

  matches_any-InSheet :
      (value : W) (cells : List W) → matches_any value cells ≡ true → InSheet cells value
  unfolding matches_any
  matches_any-InSheet value [] h = absurd (ground (arith, h))
  matches_any-InSheet value (cell ∷ cells) h = elim (Bool-cases (matches_cell value cell)) [
    | inl e ↦ inl e
    | inr e ↦ inr (matches_any-InSheet value cells (rw e at h))
  ]

  matches_any-OffSheet :
      (value : W) (cells : List W) → matches_any value cells ≡ false → OffSheet cells value
  unfolding matches_any
  matches_any-OffSheet value [] h = tt
  matches_any-OffSheet value (cell ∷ cells) h = elim (Bool-cases (matches_cell value cell)) [
    | inl e ↦ absurd (ground (arith, e, h))
    | inr e ↦ (e, matches_any-OffSheet value cells (rw e at h))
  ]

  unmatched-All :
      (values cells : List W) → is_none (unmatched values cells) ≡ true → All (InSheet cells) values
  unfolding unmatched is_none
  unmatched-All [] cells h = tt
  unmatched-All (v ∷ values) cells h = elim (Bool-cases (matches_any v cells)) [
    | inl e ↦ (matches_any-InSheet v cells e, unmatched-All values cells (rw e at h))
    | inr e ↦ absurd (ground (arith, e, h))
  ]

  unmatched-Any :
      (values cells : List W)
      → is_none (unmatched values cells) ≡ false
      → Any (OffSheet cells) values
  unfolding unmatched is_none
  unmatched-Any [] cells h = absurd (ground (arith, h))
  unmatched-Any (v ∷ values) cells h = elim (Bool-cases (matches_any v cells)) [
    | inl e ↦ inr (unmatched-Any values cells (rw e at h))
    | inr e ↦ inl (matches_any-OffSheet v cells e)
  ]

  -- What the check of a chart against a sheet says.
  abbrev pub Says : List W → List W → Option ChartFlaw → Type 0
  Says values cells none = All (InSheet cells) values
  Says values cells (some flaw) = (flaw ≡ not_in_excel) × Any (OffSheet cells) values

  unmatched-Says :
      (values : List W) (cell : W) (cells : List W)
      → Says values (cell ∷ cells) (
          if is_none values
          then none
          else if is_none (unmatched values (cell ∷ cells))
          then none
          else some not_in_excel)
  unfolding is_none
  unmatched-Says [] cell cells = tt
  unmatched-Says (v ∷ values) cell cells =
      elim (Bool-cases (is_none (unmatched (v ∷ values) (cell ∷ cells)))) [
        | inl e ↦ rw e (unmatched-All (v ∷ values) (cell ∷ cells) e)
        | inr e ↦ rw e (refl, unmatched-Any (v ∷ values) (cell ∷ cells) e)
      ]

  -- Against a sheet with at least one number, a chart is accused exactly if one of its values is
  -- close to none of the sheet's numbers, and passed exactly if each value is close to one of them.
  pub check_against_excel-Says :
      (reading : ChartReading W) (cell : W) (cells : List W)
      → Says (all_values reading.series) (cell ∷ cells) (check_against_excel reading (cell ∷ cells))
  unfolding check_against_excel is_none
  check_against_excel-Says reading cell cells =
      unmatched-Says (all_values reading.series) cell cells
