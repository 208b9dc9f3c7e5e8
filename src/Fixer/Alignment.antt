-- ===== src/Fixer/Alignment.antt =====
-- What the alignment rule of the fixer moves (backend/core/fix.py).
use slidelens.Prelude.{
  ℕ, suc, ◌≡◌, ◌⊎◌, refl, sym, ap, ◌∙◌, String, Bool, true, false, ◌||◌, Option, none, some, [],
  ◌∷◌, Any, ◌==◌, Bool-cases, inl, inr,
}
use mathlib.Core.Path.{subst}
use slidelens.Prelude.Int.{ℤ}
use slidelens.Schemas.{same_int}
use slidelens.Fixer.{Shape, SlideShapes, FixResult}
use slidelens.Fixer.Edits.{or-false}
use slidelens.Fixer.Rules.{
  Edge, left_edge, top_edge, edge_of, is_near, near_value, near_sibling, moved_to, snapped, align,
}

-- An edge stays, or it moves, by at most the tolerance, to where a sibling's edge is.
abbrev pub Snaps : Edge → SlideShapes → Option ℤ → Option ℤ → Type 0
Snaps edge slide old new =
    (new ≡ old)
    ⊎ ((target : ℤ) × (value : ℤ) × (old ≡ some target)
        × (new ≡ some value)
        × (is_near target value ≡ true)
        × Any (λ s. edge_of edge s ≡ some value) slide)

Found : Edge → SlideShapes → ℤ → Option ℤ → Type 0
Found edge slide target none = Unit
Found edge slide target (some value) =
    (is_near target value ≡ true) × Any (λ s. edge_of edge s ≡ some value) slide

near_value-is_near :
    (target value : ℤ) → near_value target (some value) ≡ true → is_near target value ≡ true
unfolding near_value
near_value-is_near target value h = elim (Bool-cases (same_int value target)) [
  | inl e ↦ cc (rw e at h)
  | inr e ↦ rw e at h
]

Found-later :
    (edge : Edge) (other : Shape) (others : SlideShapes) (target : ℤ) (found : Option ℤ)
    → Found edge others target found
    → Found edge (other ∷ others) target found
unfolding Found
Found-later edge other others target none h = tt
Found-later edge other others target (some value) (h, any) = (h, inr any)

Found-now :
    (edge : Edge) (other : Shape) (others : SlideShapes) (target : ℤ) (found : Option ℤ)
    → edge_of edge other ≡ found
    → near_value target found ≡ true
    → Found edge (other ∷ others) target found
unfolding Found near_value
Found-now edge other others target none e h = tt
Found-now edge other others target (some value) e h = (near_value-is_near target value h, inl e)

near_sibling-Found :
    (edge : Edge) (i : ℕ) (target : ℤ) (j : ℕ) (shapes : SlideShapes)
    → Found edge shapes target (near_sibling edge i target j shapes)
unfolding near_sibling Found
near_sibling-Found edge i target j [] = tt
near_sibling-Found edge i target j (other ∷ others) =
    let later =
      Found-later edge other others target _ (near_sibling-Found edge i target (suc j) others) in
    elim (Bool-cases (j == i)) [
      | inl e ↦ rw e later
      | inr e ↦ elim (Bool-cases (near_value target (edge_of edge other))) [
        | inl near ↦ rw (e, near) (Found-now edge other others target _ refl near)
        | inr far ↦ rw (e, far) later
      ]
    ]

-- One edge after the search, and whether it moved.
abbrev EdgeSnaps : Edge → SlideShapes → Shape → Bool × Shape → Type 0
EdgeSnaps edge slide shape (changed, shape') =
    Snaps edge slide (edge_of edge shape) (edge_of edge shape')
    × (shape' ≡ elim edge [
      | left_edge ↦ record shape { left = shape'.left }
      | top_edge ↦ record shape { top = shape'.top }
    ])
    × (changed ≡ false → shape' ≡ shape)

moved_to-EdgeSnaps :
    (edge : Edge) (slide : SlideShapes) (shape : Shape) (target : ℤ) (found : Option ℤ)
    → edge_of edge shape ≡ some target
    → Found edge slide target found
    → EdgeSnaps edge slide shape (moved_to edge shape found)
unfolding moved_to Found
moved_to-EdgeSnaps left_edge slide shape target none e h = (inl refl, refl, λ c. refl)
moved_to-EdgeSnaps top_edge slide shape target none e h = (inl refl, refl, λ c. refl)
moved_to-EdgeSnaps left_edge slide shape target (some value) e (near, any) =
    (inr (target, value, e, refl, near, any), refl, λ c. cc)
moved_to-EdgeSnaps top_edge slide shape target (some value) e (near, any) =
    (inr (target, value, e, refl, near, any), refl, λ c. cc)

snapped-EdgeSnaps :
    (edge : Edge) (i : ℕ) (slide : SlideShapes) (shape : Shape) (at : Option ℤ)
    → edge_of edge shape ≡ at
    → EdgeSnaps edge slide shape (snapped edge i slide shape at)
unfolding snapped
snapped-EdgeSnaps left_edge i slide shape none e = (inl refl, refl, λ c. refl)
snapped-EdgeSnaps top_edge i slide shape none e = (inl refl, refl, λ c. refl)
snapped-EdgeSnaps edge i slide shape (some target) e =
    moved_to-EdgeSnaps edge slide shape target _ e (near_sibling-Found edge i target 0 slide)

-- What the alignment rule makes of a shape.
abbrev pub Aligned : SlideShapes → Shape → FixResult × Shape → Type 0
Aligned slide shape (result, shape') =
    Snaps left_edge slide shape.left shape'.left
    × Snaps top_edge slide shape.top shape'.top
    × (shape' ≡ record shape { left = shape'.left; top = shape'.top })
    × (result.applied ≡ false → shape' ≡ shape)

both_edges :
    (slide : SlideShapes) (shape one two : Shape) (c c' : Bool) (reason : String)
    → EdgeSnaps left_edge slide shape (c, one)
    → EdgeSnaps top_edge slide one (c', two)
    → Aligned slide shape (record { applied = c || c'; reason = reason }, two)
both_edges slide shape one two c c' reason (snaps, is_one, same) (snaps', is_two, same') = (
  subst (λ v. Snaps left_edge slide shape.left v) (sym (ap (λ (s : Shape). s.left) is_two)) snaps,
  subst (λ v. Snaps top_edge slide v two.top) (ap (λ (s : Shape). s.top) is_one) snaps',
  is_two
      ∙ ap (λ (s : Shape). record s { top = two.top }) is_one
      ∙ ap (λ l. record shape { left = l; top = two.top })
          (sym (ap (λ (s : Shape). s.left) is_two)),
  λ h. let (p, q) = or-false c c' h in same' q ∙ same p,
)

-- The alignment rule changes nothing but a shape's left and top edges; an edge that moves does so by
-- at most 3 pixels, to where another shape's edge is; and when the rule says that it changed nothing,
-- the shape is as it was.
pub align-Aligned :
    (i : ℕ) (shape : Shape) (slide : SlideShapes) → Aligned slide shape (align i shape slide)
unfolding align
align-Aligned i shape slide =
    let shape' = (snapped left_edge i slide shape shape.left).1 in
    both_edges slide shape shape' _ _ _ (align i shape slide).0.reason
      (snapped-EdgeSnaps left_edge i slide shape shape.left refl)
      (snapped-EdgeSnaps top_edge i slide shape' shape'.top refl)
