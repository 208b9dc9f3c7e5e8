-- ===== src/Fixer/Match.antt =====
-- The shape that a finding's box means (backend/core/fix.py).
use slidelens.Prelude.{
  ℕ, suc, ◌+◌, ap, ◌∙◌, ◌⊎◌, ◌≡◌, refl, Bool, true, false, Option, none, some, [], ◌∷◌,
  if◌then◌else◌, get_elem?, All, Bool-cases, inl, inr, arith,
}
use native.Mathlib.Nat.{zero-add}
use slidelens.Prelude.Int.{ℤ, pos}
use slidelens.Double.{Double, IsDouble, ◌⊘◌, nought, unit, max_of, min_of}
use slidelens.Double.Order.{le_of_lt, le_of_not_lt}
use slidelens.Schemas.{BBox}
use slidelens.Geometry.{iou}
use slidelens.Fixer.{Shape, SlideShapes}

-- The best shape so far with its position, and its overlap.
abbrev pub Best : Type 0 → Type 0
Best W = Option (ℕ × Shape) × W

module _ {W : Type 0} ⦃d : Double W⦄ where
  -- `max(0.0, min(1.0, part / whole))`
  unfoldable pub fraction : ℤ → ℕ → W
  fraction part whole = max_of nought (min_of unit (d.of_int part ⊘ d.of_int (pos whole)))

  -- A shape's box in fractions of the slide, if it has a place. Its parts are in range, so that the
  -- validators of `BBox` pass.
  unfoldable pub box_from : ℕ → ℕ → Option ℤ → Option ℤ → Option ℤ → Option ℤ → Option (BBox W)
  unfolding fraction
  box_from slide_width slide_height (some left) (some top) (some width) (some height) =
      some (record {
        x = fraction left slide_width;
        y = fraction top slide_height;
        w = fraction width slide_width;
        h = fraction height slide_height;
      })
  box_from slide_width slide_height _ _ _ _ = none

  abbrev pub shape_box : ℕ → ℕ → Shape → Option (BBox W)
  shape_box slide_width slide_height shape =
      box_from slide_width slide_height shape.left shape.top shape.width shape.height

  -- A shape takes the best one's place if its box overlaps more.
  unfoldable pub better : BBox W → ℕ → Shape → Best W → Option (BBox W) → Best W
  better bbox i shape best none = best
  better bbox i shape best (some box) =
      if d.lt best.1 (iou bbox box) then (some (i, shape), iou bbox box) else best

  unfoldable pub best_from : BBox W → ℕ → ℕ → ℕ → Best W → SlideShapes → Best W
  unfolding better
  best_from bbox slide_width slide_height i best [] = best
  best_from bbox slide_width slide_height i best (shape ∷ shapes) =
      best_from bbox slide_width slide_height (suc i)
        (better bbox i shape best (shape_box slide_width slide_height shape)) shapes

  unfoldable pub if_positive : Best W → Option (ℕ × Shape)
  if_positive best = if d.lt nought best.1 then best.0 else none

  -- `_find_matching_shape`
  unfoldable pub find_matching_shape : SlideShapes → BBox W → ℕ → ℕ → Option (ℕ × Shape)
  unfolding best_from if_positive
  find_matching_shape slide bbox slide_width slide_height =
      if_positive (best_from bbox slide_width slide_height 0 (none, nought) slide)

module _ {W : Type 0} ⦃d : Double W⦄ (l : IsDouble W) (bbox : BBox W)
    (slide_width slide_height : ℕ) where
  abbrev box_of : Shape → Option (BBox W)
  box_of shape = shape_box slide_width slide_height shape

  -- A shape without a place, or one whose box overlaps at most so much.
  abbrev pub AtMost : W → Option (BBox W) → Type 0
  AtMost score none = Unit
  AtMost score (some box) = d.le (iou bbox box) score ≡ true

  AtMost-mono : (a b : W) (box : Option (BBox W)) → d.le a b ≡ true → AtMost a box → AtMost b box
  AtMost-mono a b none h k = tt
  AtMost-mono a b (some box) h k = l.le_trans _ _ _ k h

  -- The best one after a shape: no worse than before and no worse than the shape, and one of them.
  abbrev Stepped : ℕ → Shape → Option (BBox W) → Best W → Best W → Type 0
  Stepped i shape found best best' =
      (d.le best.1 best'.1 ≡ true)
      × AtMost best'.1 found
      × ((best' ≡ best)
          ⊎ ((box : BBox W) × (found ≡ some box) × (best' ≡ (some (i, shape), iou bbox box))))

  better-Stepped :
      (i : ℕ) (shape : Shape) (best : Best W) (found : Option (BBox W))
      → Stepped i shape found best (better bbox i shape best found)
  unfolding better
  better-Stepped i shape best none = (l.le_refl _, tt, inl refl)
  better-Stepped i shape best (some box) = elim (Bool-cases (d.lt best.1 (iou bbox box))) [
    | inl h ↦ rw h (le_of_lt l _ _ h, l.le_refl _, inr (box, refl, refl))
    | inr h ↦ rw h (l.le_refl _, le_of_not_lt l _ _ h, inl refl)
  ]

  -- The best one of a row of shapes that starts at a position, or the one before.
  abbrev Chosen : ℕ → Best W → SlideShapes → Best W → Type 0
  Chosen i best shapes out =
      (d.le best.1 out.1 ≡ true)
      × All (λ s. AtMost out.1 (box_of s)) shapes
      × ((out ≡ best)
          ⊎ ((k : ℕ) × (shape : Shape) × (box : BBox W) × (get_elem? shapes k ≡ some shape)
              × (box_of shape ≡ some box)
              × (out ≡ (some (i + k, shape), iou bbox box))))

  best_from-Chosen :
      (i : ℕ) (best : Best W) (shapes : SlideShapes)
      → Chosen i best shapes (best_from bbox slide_width slide_height i best shapes)
  unfolding best_from get_elem?
  best_from-Chosen i best [] = (l.le_refl _, tt, inl refl)
  best_from-Chosen i best (shape ∷ shapes) =
      let best' = better bbox i shape best (box_of shape) in
      let (grows, covers, which) = better-Stepped i shape best (box_of shape) in
      let (grows', covers', which') = best_from-Chosen (suc i) best' shapes in
      (
        l.le_trans _ _ _ grows grows',
        (AtMost-mono _ _ (box_of shape) grows' covers, covers'),
        elim which' [
          | inr (k, s, box, at, has, is) ↦
              inr (suc k, s, box, at, has, is ∙ ap (λ n. (some (n, s), iou bbox box)) (omega arith))
          | inl same ↦ elim which [
            | inl same' ↦ inl (same ∙ same')
            | inr (box, has, is) ↦ inr (
              0,
              shape,
              box,
              refl,
              has,
              same ∙ is ∙ ap (λ n. (some (n, shape), iou bbox box)) (omega arith),
            )
          ]
        ],
      )

  -- What it means for a shape to be the one that the box means.
  abbrev pub Matches : SlideShapes → Option (ℕ × Shape) → Type 0
  Matches slide none = All (λ s. AtMost nought (box_of s)) slide
  Matches slide (some (i, shape)) =
      (get_elem? slide i ≡ some shape)
      × ((box : BBox W) × (box_of shape ≡ some box)
          × (d.lt nought (iou bbox box) ≡ true)
          × All (λ s. AtMost (iou bbox box) (box_of s)) slide)

  All-AtMost_mono :
      (a b : W) (slide : SlideShapes)
      → d.le a b ≡ true
      → All (λ s. AtMost a (box_of s)) slide
      → All (λ s. AtMost b (box_of s)) slide
  All-AtMost_mono a b [] h k = tt
  All-AtMost_mono a b (s ∷ slide) h k =
      (AtMost-mono a b (box_of s) h k.0, All-AtMost_mono a b slide h k.1)

  if_positive-Matches :
      (slide : SlideShapes) (best : Option (ℕ × Shape)) (score : W) (positive : Bool)
      → d.lt nought score ≡ positive
      → Chosen 0 (none, nought) slide (best, score)
      → Matches slide (if positive then best else none)
  if_positive-Matches slide best score false h (grows, covers, which) =
      All-AtMost_mono _ _ slide (le_of_not_lt l _ _ h) covers
  if_positive-Matches slide best score true h (grows, covers, inl same) = absurd (
      cc (
        h,
        ap (λ (b : Best W). d.lt nought b.1) same,
        l.lt-eq-not-le nought nought,
        l.le_refl nought,
      ))
  if_positive-Matches slide best score true h (grows, covers, inr (k, shape, box, at, has, is)) =
      rw (ap (λ (b : Best W). b.0) is, zero-add k)
        (
          at,
          (
            box,
            has,
            rw (ap (λ (b : Best W). b.1) is) at h,
            rw (ap (λ (b : Best W). b.1) is) at covers,
          ),
        )

  -- The shape that is found stands on the slide at its position, its box overlaps the finding's, and
  -- no shape's box overlaps more; when none is found, no shape's box overlaps at all.
  pub find_matching_shape-Matches :
      (slide : SlideShapes)
      → Matches slide (find_matching_shape slide bbox slide_width slide_height)
  unfolding find_matching_shape if_positive
  find_matching_shape-Matches slide =
      if_positive-Matches slide _ _ _ refl (best_from-Chosen 0 (none, nought) slide)
