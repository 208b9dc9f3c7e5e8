-- ===== src/Aggregate.antt =====
-- The findings of a review, deduplicated, capped for each slide and ordered, and the deck's score
-- (backend/core/aggregate.py).
pub mod Dedup
pub mod Groups
pub mod Grouped
pub mod Kept
pub mod Cap
pub mod Score
pub mod Order
mod Tests
use slidelens.Prelude.{
  ℕ, ◌+◌, ◌-◌, ◌*◌, String, ◌≡◌, Bool, true, false, ◌&&◌, ◌||◌, Option, none, some, List, [], ◌∷◌,
  ◌++◌, foldl, length, take, ltb, leb, ◌==◌, if◌then◌else◌,
}
use slidelens.Prelude.Int.{ℤ, pos, negsuc, leb_ℤ, ltb_ℤ}
use slidelens.Prelude.Exec.{Exec, Result, ok, err, pure, raise, lift, ◌>>=◌, ◌>>◌}
use slidelens.Prelude.Sort.{sort_by}
use slidelens.Prelude.Text.{show, ◌<>◌}
use slidelens.Double.{Double, ◌⊖◌, ◌⊘◌}
use slidelens.Schemas.{
  BBox, Finding, Severity, Category, critical, major, minor, same_slide, same_int,
}
use slidelens.Geometry.{iou}

pub severity_order : Severity → ℕ
severity_order critical = 0
severity_order major = 1
severity_order minor = 2

abbrev pub max_findings_per_slide : ℕ
max_findings_per_slide = 7

-- The defaults of `SEVERITY_WEIGHTS` and `SCORE_FLOOR`.
pub severity_weights : Severity → ℕ
severity_weights critical = 12
severity_weights major = 5
severity_weights minor = 1

abbrev pub score_floor : ℤ
score_floor = pos 5

-- A dict from slide numbers to findings, in the order in which the keys came.
abbrev pub Groups : Type 0 → Type 0
Groups W = List (Option ℤ × List (Finding W))

module _ {W : Type 0} where
  -- The new finding's identifier is drawn by `uuid4`.
  pub misc_finding : ℕ → Option ℤ → Category → ℕ → Finding W
  misc_finding id slide_num category overflow = record {
    id = id;
    slide_num = slide_num;
    category = category;
    severity = minor;
    title = "Прочее";
    description = "Ещё " <> show overflow <> " находок(и) на этом слайде не показаны в отчёте.";
    fix_suggestion = "Полный список находок доступен в JSON-выгрузке разбора.";
    bbox = none;
    auto_fixable = false;
    auto_fixed = false;
    source = some "aggregator";
  }

  pub by_severity : Finding W → Finding W → Bool
  by_severity f g = leb (severity_order f.severity) (severity_order g.severity)

  pub slide_key : Finding W → ℤ
  slide_key f = elim f.slide_num [ none ↦ negsuc 0 | some n ↦ n ]

  -- The comparison of two sort keys, pairs of a severity and a slide.
  pub by_severity_slide : Finding W → Finding W → Bool
  unfolding slide_key
  by_severity_slide f g =
      ltb (severity_order f.severity) (severity_order g.severity)
      || (severity_order f.severity == severity_order g.severity
          && leb_ℤ (slide_key f) (slide_key g))

  -- `by_slide[key].append(finding)` in a dict, which keeps the order in which keys come.
  pub append_to : Option ℤ → Finding W → Groups W → Groups W
  append_to key f [] = (key, f ∷ []) ∷ []
  append_to key f ((k, group) ∷ rest) =
      if same_slide key k then (k, group ++ f ∷ []) ∷ rest else (k, group) ∷ append_to key f rest

  pub group_from : Groups W → List (Finding W) → Groups W
  unfolding append_to
  group_from groups [] = groups
  group_from groups (f ∷ fs) = group_from (append_to f.slide_num f groups) fs

  -- `none` is the `IndexError` of `kept[0]`.
  misc_of : ℕ → Option ℤ → List (Finding W) → ℕ → Option (Finding W)
  unfolding misc_finding
  misc_of id slide_num [] overflow = none
  misc_of id slide_num (f ∷ kept) overflow = some (misc_finding id slide_num f.category overflow)

  module _ (uuid4 : ℕ → ℕ) (max_per_slide : ℕ) where
    pub cap_group : ℕ → Option ℤ → List (Finding W) → Option (List (Finding W))
    unfolding misc_of
    cap_group i slide_num group =
        let ordered = sort_by by_severity group in
        if leb (length ordered) max_per_slide
        then some ordered
        else (let kept = take max_per_slide ordered in
            elim (misc_of (uuid4 i) slide_num kept (length ordered - max_per_slide)) [
              | none ↦ none
              | some misc ↦ some (kept ++ misc ∷ [])
            ])

    extend : Option (List (Finding W)) → Option (List (Finding W)) → Option (List (Finding W))
    extend (some xs) (some ys) = some (xs ++ ys)
    extend _ _ = none

    -- The identifiers are drawn in the order of the groups.
    pub cap_groups : ℕ → Groups W → Option (List (Finding W))
    unfolding cap_group extend
    cap_groups i [] = some []
    cap_groups i ((k, group) ∷ rest) = extend (cap_group i k group) (cap_groups (i + 1) rest)

    pub cap_per_slide : List (Finding W) → Option (List (Finding W))
    unfolding group_from cap_groups
    cap_per_slide findings = cap_groups 0 (group_from [] findings)

-- The tests before the judge is asked.
module _ {W : Type 0} ⦃d : Double W⦄ (iou_threshold : W) where
  pub close_boxes : Option (BBox W) → Option (BBox W) → Bool
  close_boxes (some a) (some b) = d.lt iou_threshold (iou a b)
  close_boxes _ _ = false

  pub is_candidate : Finding W → Finding W → Bool
  is_candidate finding other =
      same_slide finding.slide_num other.slide_num && close_boxes finding.bbox other.bbox

-- The judge is the language model, asked through a client that keeps a state of its own and may
-- raise; a prompt is read from a file, which may be missing.
module _ {W : Type 0} {S E : Type 0} (prompt_body : String → Exec S E String)
    (same_issue : String → String → Exec S E Bool) where
  pub confirm_same_issue : Finding W → Finding W → Exec S E Bool
  confirm_same_issue a b = do
    system ← prompt_body "same_issue_judge"
    same_issue ("Описание А: " <> a.description <> "\nОписание Б: " <> b.description) system

module _ {W : Type 0} ⦃d : Double W⦄ {S E : Type 0} (prompt_body : String → Exec S E String)
    (same_issue : String → String → Exec S E Bool) (iou_threshold : W) where
  pub is_duplicate : Finding W → List (Finding W) → Exec S E Bool
  is_duplicate finding [] = pure false
  is_duplicate finding (other ∷ kept) =
      let rest = is_duplicate finding kept in
      if is_candidate iou_threshold finding other
      then (do
        same ← confirm_same_issue prompt_body same_issue finding other
        if same then pure true else rest)
      else rest

  pub dedup_from : List (Finding W) → List (Finding W) → Exec S E (List (Finding W))
  dedup_from kept [] = pure kept
  dedup_from kept (finding ∷ findings) = do
    duplicate ← is_duplicate finding kept
    dedup_from (if duplicate then kept else kept ++ finding ∷ []) findings

  pub dedup : List (Finding W) → Exec S E (List (Finding W))
  dedup = dedup_from []

  -- `Aggregator.run`; `index_error` is what `kept[0]` raises on an empty list.
  module _ (uuid4 : ℕ → ℕ) (max_per_slide : ℕ) (index_error : E) where
    or_raise : Option (List (Finding W)) → Exec S E (List (Finding W))
    or_raise none = raise index_error
    or_raise (some xs) = pure xs

    cap_and_sort : List (Finding W) → Exec S E (List (Finding W))
    unfolding or_raise
    cap_and_sort deduped = do
      capped ← or_raise (cap_per_slide uuid4 max_per_slide deduped)
      pure (sort_by by_severity_slide capped)

    pub run : List (Finding W) → Exec S E (List (Finding W))
    run findings = do deduped ← dedup findings; cap_and_sort deduped

max_int : ℤ → ℤ → ℤ
max_int a b = if ltb_ℤ a b then b else a

min_int : ℤ → ℤ → ℤ
min_int a b = if ltb_ℤ b a then b else a

-- `DeckScorer`: the weights and the floor are its fields.
module _ {W : Type 0} (weights : Severity → ℕ) where
  pub total_weight : List (Finding W) → ℕ
  total_weight [] = 0
  total_weight (f ∷ fs) = weights f.severity + total_weight fs

module _ {W : Type 0} ⦃d : Double W⦄ where
  pub raw_score : ℕ → ℕ → W
  raw_score total slides = d.lit 100 1 ⊖ (d.of_int (pos total) ⊘ d.of_int (pos slides))

  pub score : (Severity → ℕ) → ℤ → List (Finding W) → ℕ → ℤ
  score weights floor findings n_slides =
      let slides = (if leb n_slides 1 then 1 else n_slides) in
      max_int floor
        (min_int (pos 100) (d.rounded (raw_score (total_weight weights findings) slides)))
