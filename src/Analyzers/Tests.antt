-- ===== src/Analyzers/Tests.antt =====
-- Steps of which one fails, a recording that comes back to a slide, and each theorem there.
use slidelens.Prelude.{true, ℕ, ◌≡◌, refl, String, false, none, some, List, [], ◌∷◌, ◌++◌}
use slidelens.Prelude.Int.{ℤ, pos}
use slidelens.Prelude.Exec.{ok, err}
use slidelens.Double.FixedPoint.{fixed_double}
use slidelens.Schemas.{Finding, chart, major}
use slidelens.Services.{other}
use slidelens.Entities.{SlideTiming}
use slidelens.Analyzers.{Context, Step, run_steps}
use slidelens.Analyzers.Steps.{contributions, run_steps_lem}
use slidelens.Analyzers.Sheets.{split_into_groups, Grouped, split_into_groups_lem}
use slidelens.Analyzers.Charts.{
  ChartReading, Says, all_values, check_against_excel, check_against_excel-Says,
}

abbrev seen : Finding ℤ
seen = record {
  id = 1;
  slide_num = some (pos 2);
  category = chart;
  severity = major;
  title = "t";
  description = "d";
  fix_suggestion = "f";
  bbox = none;
  auto_fixable = false;
  auto_fixed = false;
  source = none;
}

abbrev broken : Step ℤ
broken = record { name = "broken"; analyze = λ ctx. (err (other "timeout"), ctx) }

abbrev sees : Step ℤ
sees = record { name = "sees"; analyze = λ ctx. (ok (seen ∷ []), ctx) }

abbrev empty : Context ℤ
empty = record {
  findings = [];
  delivery = none;
  slide_pngs = [];
  slide_texts = [];
  has_chart = [];
  cost_rub = pos 0;
}

run_steps_lem_example :
    (run_steps (broken ∷ sees ∷ []) empty).findings ≡ [] ++ contributions (broken ∷ sees ∷ []) empty
run_steps_lem_example = run_steps_lem (broken ∷ sees ∷ []) empty (λ ctx. refl, (λ ctx. refl, tt))

abbrev seven : List ℕ
seven = 1 ∷ 2 ∷ 3 ∷ 4 ∷ 5 ∷ 6 ∷ 7 ∷ []

split_into_groups_lem_example : Grouped seven 2 3 (split_into_groups seven 2 3)
split_into_groups_lem_example = split_into_groups_lem seven 2 3

abbrev visit : ℕ → ℕ → ℕ → SlideTiming ℤ
visit n from to = record { slide_num = n; start = pos from; end = pos to }

abbrev there_and_back : List (SlideTiming ℤ)
there_and_back = visit 1 0 20000 ∷ visit 2 20000 50000 ∷ visit 1 50000 60000 ∷ []

abbrev shown : ℕ → ℤ → String
shown digits v = "1"

abbrev sales : ChartReading ℤ
sales = record {
  chart_type = [];
  y_axis_starts_at_zero = true;
  series = (pos 5000 ∷ pos 9000 ∷ []) ∷ [];
}

check_against_excel-Says_example :
    Says
      (all_values sales.series)
      (pos 5000 ∷ pos 7000 ∷ [])
      (check_against_excel sales (pos 5000 ∷ pos 7000 ∷ []))
check_against_excel-Says_example = check_against_excel-Says sales (pos 5000) (pos 7000 ∷ [])
