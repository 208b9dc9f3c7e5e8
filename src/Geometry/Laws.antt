-- ===== src/Geometry/Laws.antt =====
-- The boxes that geometry produces are valid, and overlap is symmetric.
use slidelens.Prelude.{
  ◌≡◌, ◌⊎◌, refl, true, false, Option, some, none, List, [], ◌∷◌, inl, inr, Bool-cases, arith,
}
use slidelens.Prelude.Int.{ℤ}
use slidelens.Double.{Double, IsDouble, ◌⊕◌, ◌⊖◌, ◌⊗◌, nought, unit, max_of, min_of}
use slidelens.Double.Order.{
  max_of_comm, min_of_comm, max_of_le, le-max_of_left, le-max_of_right, min_of_le_left,
  min_of_le_right, le-min_of,
}
use slidelens.Schemas.{BBox, InUnit, IsValid, bbox_of_valid}
use slidelens.Prelude.Exec.{Result, ok, err}
use slidelens.Services.{Error, other}
use slidelens.Geometry.{
  overflows, validated_box, scaled_box, corner_box, clipped, box_2d_to_bbox, clamp, project_into,
  overlap, intersection, iou,
}

module _ {W : Type 0} ⦃d : Double W⦄ (l : IsDouble W) where
  overlap_comm : (a1 a2 b1 b2 : W) → overlap a1 a2 b1 b2 ≡ overlap b1 b2 a1 a2
  unfolding overlap
  overlap_comm a1 a2 b1 b2 = rw (min_of_comm l a2 b2, max_of_comm l a1 b1)

  intersection_comm : (a b : BBox W) → intersection a b ≡ intersection b a
  unfolding intersection
  intersection_comm a b =
      rw
        (overlap_comm a.x (a.x ⊕ a.w) b.x (b.x ⊕ b.w), overlap_comm a.y (a.y ⊕ a.h) b.y (b.y ⊕ b.h))

  -- The overlap of two boxes does not depend on which one is named first.
  pub iou_comm : (a b : BBox W) → iou a b ≡ iou b a
  unfolding iou
  iou_comm a b = rw (intersection_comm a b, l.add_comm (a.w ⊗ a.h) (b.w ⊗ b.h))

  -- One interval ends before the other begins.
  overlap_apart : (a1 a2 b1 b2 : W) → d.le a2 b1 ≡ true → overlap a1 a2 b1 b2 ≡ nought
  unfolding overlap
  overlap_apart a1 a2 b1 b2 h =
      l.le_antisymm _ _
        (max_of_le l _ _ _ (l.le_refl nought) (
          rw (l.sub_self (max_of a1 b1)) at (
            l.sub_mono (min_of a2 b2) (max_of a1 b1) (max_of a1 b1) (max_of a1 b1)
              (l.le_trans _ _ _ (min_of_le_left l a2 b2)
                (l.le_trans _ _ _ h (le-max_of_right l a1 b1)))
              (l.le_refl _))))
        (le-max_of_left l _ _)

  -- The boxes lie apart: one ends, across or down, before the other begins.
  abbrev pub Apart : BBox W → BBox W → Type 0
  Apart a b =
      (d.le (a.x ⊕ a.w) b.x ≡ true)
      ⊎ (d.le (b.x ⊕ b.w) a.x ≡ true)
      ⊎ (d.le (a.y ⊕ a.h) b.y ≡ true)
      ⊎ (d.le (b.y ⊕ b.h) a.y ≡ true)

  intersection-Apart : (a b : BBox W) → Apart a b → intersection a b ≡ nought
  unfolding intersection
  intersection-Apart a b (inl h) = rw (overlap_apart _ _ _ _ h) (l.zero_mul _)
  intersection-Apart a b (inr (inl h)) =
      rw (overlap_comm a.x _ _ _, overlap_apart _ _ _ _ h) (l.zero_mul _)
  intersection-Apart a b (inr (inr (inl h))) = rw (overlap_apart _ _ _ _ h) (l.mul_zero _)
  intersection-Apart a b (inr (inr (inr h))) =
      rw (overlap_comm a.y _ _ _, overlap_apart _ _ _ _ h) (l.mul_zero _)

  intersection_nonneg : (a b : BBox W) → d.le nought (intersection a b) ≡ true
  unfolding intersection overlap
  intersection_nonneg a b = l.mul_nonneg _ _ (le-max_of_left l _ _) (le-max_of_left l _ _)

  -- The overlap ratio is at least zero, and it is zero for boxes that lie apart.
  pub iou_bounds : (a b : BBox W) → (d.le nought (iou a b) ≡ true) × (Apart a b → iou a b ≡ nought)
  unfolding iou
  iou_bounds a b = (
    ground (
      arith,
      l.le_refl nought,
      l.div_nonneg (intersection a b) (((a.w ⊗ a.h) ⊕ (b.w ⊗ b.h)) ⊖ intersection a b)
          (intersection_nonneg a b),
    ),
    λ apart. rw (intersection-Apart a b apart, l.le_refl nought),
  )

  -- The part of an edge pair inside the slide: its start and its width are in range.
  span_InUnit :
      (x0 x1 : W)
      → d.le nought x0 ≡ true
      → d.le x0 x1 ≡ true
      → d.le x1 unit ≡ true
      → InUnit x0 × InUnit (x1 ⊖ x0)
  span_InUnit x0 x1 h k m = (
    (h, l.le_trans _ _ _ k m),
    (
      rw (l.sub_self x0) at (l.sub_mono x0 x1 x0 x0 k (l.le_refl x0)),
      rw (l.sub_zero unit) at (l.sub_mono x1 unit x0 nought m h),
    ),
  )

  -- What the clipping promises: it does not raise, and a box that it returns is valid.
  abbrev Clipped : Option (Option (BBox W)) → Type 0
  Clipped none = ⊥
  Clipped (some none) = Unit
  Clipped (some (some b)) = IsValid b

  corner_box-Clipped :
      (x0 y0 x1 y1 : W)
      → d.le nought x0 ≡ true
      → d.le nought y0 ≡ true
      → d.le x1 unit ≡ true
      → d.le y1 unit ≡ true
      → Clipped (corner_box x0 y0 x1 y1)
  unfolding corner_box
  corner_box-Clipped x0 y0 x1 y1 hx hy kx ky = elim (Bool-cases (d.le x1 x0)) [
    | inl flat ↦ rw flat tt
    | inr wide ↦ elim (Bool-cases (d.le y1 y0)) [
      | inl flat ↦ rw (wide, flat) tt
      | inr tall ↦
          let (px, pw) = span_InUnit x0 x1 hx (l.le_total _ _ wide) kx in
          let (py, ph) = span_InUnit y0 y1 hy (l.le_total _ _ tall) ky in
          rw (wide, tall, bbox_of_valid _ _ _ _ px py pw ph)
            (record { x_range = px; y_range = py; w_range = pw; h_range = ph })
    ]
  ]

  scaled_box-Clipped : (box : Option (List ℤ)) → Clipped (scaled_box box)
  unfolding scaled_box clipped
  scaled_box-Clipped none = tt
  scaled_box-Clipped (some []) = tt
  scaled_box-Clipped (some (a ∷ [])) = tt
  scaled_box-Clipped (some (a ∷ b ∷ [])) = tt
  scaled_box-Clipped (some (a ∷ b ∷ c ∷ [])) = tt
  scaled_box-Clipped (some (a ∷ b ∷ c ∷ e ∷ [])) =
      corner_box-Clipped _ _ _ _ (le-max_of_right l _ _) (le-max_of_right l _ _)
        (min_of_le_right l _ _) (min_of_le_right l _ _)
  scaled_box-Clipped (some (a ∷ b ∷ c ∷ e ∷ f ∷ r)) = tt

  -- How a conversion may end: an `OverflowError` exactly for four numbers of which one is too large, and
  -- else no exception, and a box that comes back is valid.
  abbrev pub Sound : Option (List ℤ) → Result Error (Option (BBox W)) → Type 0
  Sound box (err e) = (overflows d.scales box ≡ true) × (e ≡ other "OverflowError")
  Sound box (ok none) = overflows d.scales box ≡ false
  Sound box (ok (some b)) = (overflows d.scales box ≡ false) × IsValid b

  validated_box-Sound :
      (box : Option (List ℤ)) (o : Option (Option (BBox W)))
      → overflows d.scales box ≡ false
      → Clipped o
      → Sound box (validated_box o)
  unfolding validated_box
  validated_box-Sound box none fits h = absurd h
  validated_box-Sound box (some none) fits h = fits
  validated_box-Sound box (some (some b)) fits h = (fits, h)

  -- Whatever the model sends as a box, four numbers or not: the conversion raises an `OverflowError` if
  -- these are four numbers of which one is too large for a float, and otherwise nothing; and a box that
  -- it returns is valid.
  pub box_2d_to_bbox-Sound : (box : Option (List ℤ)) → Sound box (box_2d_to_bbox box)
  unfolding box_2d_to_bbox
  box_2d_to_bbox-Sound box = elim (Bool-cases (overflows d.scales box)) [
    | inl large ↦ rw large (large, refl)
    | inr fits ↦ rw fits (validated_box-Sound box (scaled_box box) fits (scaled_box-Clipped box))
  ]

  clamp-InUnit : (v : W) → InUnit (clamp v)
  unfolding clamp
  clamp-InUnit v =
      (le-min_of l _ _ _ (le-max_of_right l v nought) l.zero-le-one, min_of_le_right l _ _)

  -- A side of the projected box: it is in range and ends inside the slide.
  side_InUnit : (x a b : W) → InUnit x → InUnit a → InUnit b → InUnit (min_of (a ⊗ b) (unit ⊖ x))
  side_InUnit x a b hx ha hb = (
    le-min_of l _ _ _ (l.mul_nonneg a b ha.0 hb.0)
        (rw (l.sub_self x) at (l.sub_mono x unit x x hx.1 (l.le_refl x))),
    l.le_trans _ _ _ (min_of_le_right l _ _)
        (rw (l.sub_zero unit) at (l.sub_mono unit unit x nought (l.le_refl unit) hx.0)),
  )

  -- A valid box inside a valid crop projects to a valid box that fits in the slide's remaining
  -- width and height.
  pub project_into-IsValid :
      (outer inner : BBox W)
      → IsValid outer
      → IsValid inner
      → (b : BBox W) × (project_into outer inner ≡ some b)
        × IsValid b
        × (d.le b.w (unit ⊖ b.x) ≡ true)
        × (d.le b.h (unit ⊖ b.y) ≡ true)
  unfolding project_into
  project_into-IsValid outer inner ho hi =
      let px = clamp-InUnit (outer.x ⊕ (inner.x ⊗ outer.w)) in
      let py = clamp-InUnit (outer.y ⊕ (inner.y ⊗ outer.h)) in
      let pw = side_InUnit _ inner.w outer.w px hi.w_range ho.w_range in
      let ph = side_InUnit _ inner.h outer.h py hi.h_range ho.h_range in
      (
        record {
          x = clamp (outer.x ⊕ (inner.x ⊗ outer.w));
          y = clamp (outer.y ⊕ (inner.y ⊗ outer.h));
          w = min_of (inner.w ⊗ outer.w) (unit ⊖ clamp (outer.x ⊕ (inner.x ⊗ outer.w)));
          h = min_of (inner.h ⊗ outer.h) (unit ⊖ clamp (outer.y ⊕ (inner.y ⊗ outer.h)));
        },
        bbox_of_valid _ _ _ _ px py pw ph,
        record { x_range = px; y_range = py; w_range = pw; h_range = ph },
        min_of_le_right l _ _,
        min_of_le_right l _ _,
      )
