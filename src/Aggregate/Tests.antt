-- ===== src/Aggregate/Tests.antt =====
-- Runs of the aggregation, and each theorem at a concrete input. The model of these tests counts
-- the questions that it is asked and always sees the same issue.
use Prim.Native.Nat.{min}
use mathlib.Core.List.{Sublistᴰ}
use slidelens.Prelude.{
  ℕ, ◌+◌, ◌≤◌, ◌≡◌, refl, String, Bool, true, false, Option, none, some, List, [], ◌∷◌, ◌++◌, arith,
  All, count,
}
use slidelens.Prelude.Int.{ℤ, pos, leb_ℤ}
use slidelens.Prelude.Exec.{Exec, ok}
use slidelens.Prelude.Sort.{IsSorted}
use slidelens.Double.{max_of, min_of}
use slidelens.Geometry.{iou, intersection, overlap}
use slidelens.Double.FixedPoint.{fixed_double, fixed-IsDouble}
use slidelens.Schemas.{BBox, Finding, Severity, critical, major, minor, chart}
use slidelens.Aggregate.{
  by_severity_slide, cap_per_slide, dedup, run, score, severity_weights, score_floor, dedup_from,
  is_duplicate, is_candidate, close_boxes, confirm_same_issue, raw_score, total_weight, max_int,
  min_int,
}
use slidelens.Aggregate.Groups.{on_slide}
use slidelens.Aggregate.Dedup.{Covered, dedup_sound}
use slidelens.Aggregate.Cap.{capped_size, at, cap_per_slide_lem}
use slidelens.Aggregate.Score.{score_lem}
use slidelens.Aggregate.Order.{run_total}

abbrev body : String → Exec ℕ String String
body name s = (ok "judge", s)

abbrev judge : String → String → Exec ℕ String Bool
judge prompt system s = (ok true, s + 1)

abbrev box : ℕ → BBox ℤ
box x = record { x = pos x; y = pos 0; w = pos 400; h = pos 400 }

abbrev finding : ℕ → Severity → ℕ → Finding ℤ
finding id severity x = record {
  id = id;
  slide_num = some (pos 1);
  category = chart;
  severity = severity;
  title = "t";
  description = "d";
  fix_suggestion = "f";
  bbox = some (box x);
  auto_fixable = false;
  auto_fixed = false;
  source = none;
}

abbrev near_pair : List (Finding ℤ)
near_pair = finding 1 minor 0 ∷ finding 2 critical 10 ∷ finding 3 major 600 ∷ []

near_pair-deduped :
    dedup body judge (pos 500) near_pair 0 ≡ (ok (finding 1 minor 0 ∷ finding 3 major 600 ∷ []), 1)
unfolding dedup dedup_from is_duplicate is_candidate close_boxes confirm_same_issue iou intersection
    overlap max_of min_of
near_pair-deduped = refl

dedup_sound_example :
    Sublistᴰ (finding 1 minor 0 ∷ finding 3 major 600 ∷ []) near_pair
    × All (Covered body judge (pos 500) (finding 1 minor 0 ∷ finding 3 major 600 ∷ [])) near_pair
dedup_sound_example = dedup_sound body judge (pos 500) near_pair 0 near_pair-deduped

abbrev far_pair : List (Finding ℤ)
far_pair = finding 1 minor 0 ∷ finding 3 major 600 ∷ []

cap_per_slide_lem_example :
    (out : List (Finding ℤ)) × (cap_per_slide (λ i. i) 2 near_pair ≡ some out)
    × ((k : Option ℤ) → count (on_slide k) out ≡ capped_size 2 (count (on_slide k) near_pair))
    × ((k : Option ℤ) (v : ℕ) → v ≤ 2 → count (at k v) out ≡ min 2 (count (at k v) near_pair))
cap_per_slide_lem_example = cap_per_slide_lem (λ i. i) 2 near_pair (omega arith)

score_lem_example :
    (leb_ℤ score_floor (score severity_weights score_floor far_pair 4) ≡ true)
    × (leb_ℤ (score severity_weights score_floor far_pair 4) (pos 100) ≡ true)
    × (score {W = ℤ} severity_weights score_floor [] 4 ≡ pos 100)
    × (leb_ℤ
          (score severity_weights score_floor (far_pair ++ near_pair) 4)
          (score severity_weights score_floor far_pair 4)
        ≡ true)
score_lem_example = score_lem fixed-IsDouble severity_weights score_floor far_pair near_pair 4 refl

score_of_three : score severity_weights score_floor near_pair 1 ≡ pos 82
unfolding score raw_score total_weight severity_weights max_int min_int
score_of_three = refl

run_total_example :
    (out : List (Finding ℤ)) × (s' : ℕ) × (run body judge
        (pos 500)
        (λ i. i)
        7
        "IndexError"
        near_pair
        0
      ≡ (ok out, s'))
    × IsSorted by_severity_slide out
    × ((k : Option ℤ) → count (on_slide k) out ≤ 7 + 1)
run_total_example =
    run_total body judge (pos 500) (λ i. i) 7 "IndexError" (λ s. ("judge", s, refl))
      (λ prompt system s. (true, s + 1, refl)) near_pair 0 (omega arith)
