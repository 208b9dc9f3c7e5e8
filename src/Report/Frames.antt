-- ===== src/Report/Frames.antt =====
-- The frames of a slide's findings on its picture (backend/core/annotate.py, `_draw`).
use slidelens.Prelude.{
  ℕ, ◌+◌, ◌≡◌, ◌⊎◌, refl, true, false, Option, none, some, List, [], ◌∷◌, All, Any, inl, inr,
  Bool-cases,
}
use slidelens.Prelude.Int.{ℤ, pos}
use slidelens.Prelude.Exec.{ok}
use slidelens.Double.{Double, ◌⊕◌, ◌⊗◌}
use slidelens.Schemas.{BBox, Finding, Severity}
use slidelens.Report.{
  Frame, is_drawn, severity_colors, is_slide_wide, frame_of, with_frame, frames_from,
}

pub box_there :
    {W : Type 0} (n : Option ℤ) (o : Option (BBox W))
    → (elim n [ none ↦ false | some n ↦ elim o [ none ↦ false | some box ↦ true ] ]) ≡ true
    → (box : BBox W) × (o ≡ some box)
box_there none o h = cc
box_there (some n) none h = cc
box_there (some n) (some box) h = (box, refl)

module _ {W : Type 0} ⦃d : Double W⦄ where
  -- The rectangle of a box on a picture of some size, in the severity's colour.
  abbrev pub IsFrame : ℕ × ℕ → Severity → BBox W → Frame W → Type 0
  IsFrame size severity box frame =
      (frame.x0 ≡ box.x ⊗ d.of_int (pos size.0))
      × (frame.y0 ≡ box.y ⊗ d.of_int (pos size.1))
      × (frame.x1 ≡ (box.x ⊕ box.w) ⊗ d.of_int (pos size.0))
      × (frame.y1 ≡ (box.y ⊕ box.h) ⊗ d.of_int (pos size.1))
      × (frame.color ≡ severity_colors severity)

  -- The finding's box takes most of the slide, or it has its frame.
  abbrev pub IsFramed : ℕ × ℕ → Finding W → List (Frame W) → Type 0
  IsFramed size f frames =
      (box : BBox W) × (f.bbox ≡ some box)
      × ((d.le (d.lit 8 10) (box.w ⊗ box.h) ≡ true) ⊎ Any (IsFrame size f.severity box) frames)

  -- The findings are all framed.
  abbrev pub AllFramed : ℕ × ℕ → List (Finding W) → List (Frame W) → Type 0
  AllFramed size gs frames = All (λ g. IsFramed size g frames) gs

  AllFramed-with_frame :
      (index : ℕ) (size : ℕ × ℕ) (severity : Severity) (box : BBox W) (gs : List (Finding W))
      (frames : List (Frame W))
      → AllFramed size gs frames
      → AllFramed size gs (with_frame index size severity box frames)
  unfolding with_frame
  AllFramed-with_frame index size severity box [] frames h = tt
  AllFramed-with_frame index size severity box (g ∷ gs) frames ((b, e, inl wide), hs) =
      ((b, e, inl wide), AllFramed-with_frame index size severity box gs frames hs)
  AllFramed-with_frame index size severity box (g ∷ gs) frames ((b, e, inr framed), hs) = (
    (
      b,
      e,
      elim (Bool-cases (is_slide_wide box)) [
        | inl h ↦ rw h (inr framed)
        | inr h ↦ rw h (inr (inr framed))
      ],
    ),
    AllFramed-with_frame index size severity box gs frames hs,
  )

  IsFramed-with_frame :
      (index : ℕ) (size : ℕ × ℕ) (g : Finding W) (box : BBox W) (frames : List (Frame W))
      → g.bbox ≡ some box
      → IsFramed size g (with_frame index size g.severity box frames)
  unfolding with_frame is_slide_wide frame_of
  IsFramed-with_frame index size g box frames e = (
    box,
    e,
    elim (Bool-cases (is_slide_wide box)) [
      | inl h ↦ inl h
      | inr h ↦ rw h (inr (inl (refl, refl, refl, refl, refl)))
    ],
  )

  frames_from-one :
      (index : ℕ) (size : ℕ × ℕ) (g : Finding W) (gs : List (Finding W)) (box : BBox W)
      (frames : List (Frame W))
      → g.bbox ≡ some box
      → frames_from (index + 1) size gs ≡ ok frames
      → frames_from index size (g ∷ gs) ≡ ok (with_frame index size g.severity box frames)
  unfolding frames_from
  frames_from-one index size g gs box frames b e = rw (b, e) refl

  pub frames_from-AllFramed :
      (index : ℕ) (size : ℕ × ℕ) (gs : List (Finding W))
      → All (λ g. is_drawn g ≡ true) gs
      → (frames : List (Frame W)) × (frames_from index size gs ≡ ok frames)
        × AllFramed size gs frames
  unfolding frames_from
  frames_from-AllFramed index size [] h = ([], refl, tt)
  frames_from-AllFramed index size (g ∷ gs) (h, hs) =
      let (frames, e, framed) = frames_from-AllFramed (index + 1) size gs hs in
      let (box, b) = box_there g.slide_num g.bbox h in
      (
        with_frame index size g.severity box frames,
        frames_from-one index size g gs box frames b e,
        (
          IsFramed-with_frame index size g box frames b,
          AllFramed-with_frame index size g.severity box gs frames framed,
        ),
      )
