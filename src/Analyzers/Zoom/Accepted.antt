-- ===== src/Analyzers/Zoom/Accepted.antt =====
-- The findings of a slide's zooms (backend/core/analyzers/zoom.py).
use slidelens.Prelude.{
  ℕ, suc, ◌≡◌, refl, false, Option, none, some, List, [], ◌∷◌, ◌++◌, All, All-append, if◌then◌else◌,
  Bool-cases, inl, inr,
}
use mathlib.Core.List.{append_assoc, append-nil}
use slidelens.Prelude.Int.{pos}
use slidelens.Prelude.Exec.{Result, ok, err}
use slidelens.Double.{Double, IsDouble}
use slidelens.Schemas.{BBox, Finding, IsValid}
use slidelens.Geometry.Laws.{Sound, box_2d_to_bbox-Sound, project_into-IsValid}
use slidelens.Services.{Error, other}
use slidelens.Analyzers.Responses.{SlideFindingIn, finding_with, finding_from, findings_from}
use slidelens.Analyzers.Zoom.{is_zoom_duplicate, with_projection, projected, accept, accept_read}

-- A box of the model's is too large for a float.
abbrev pub IsOverflow : Error → Type 0
IsOverflow e = e ≡ other "OverflowError"

module _ {W : Type 0} ⦃d : Double W⦄ where
  abbrev pub ValidBox : Option (BBox W) → Type 0
  ValidBox none = Unit
  ValidBox (some b) = IsValid b

  -- A finding of this slide, with a valid box or none.
  abbrev pub OnSlide : ℕ → Finding W → Type 0
  OnSlide n f = (f.slide_num ≡ some (pos n)) × ValidBox f.bbox

  -- No finding overlaps too much with a known one or with one before it.
  abbrev pub Separate : List (Finding W) → List (Finding W) → Type 0
  Separate known [] = Unit
  Separate known (f ∷ fs) = (is_zoom_duplicate f known ≡ false) × Separate (known ++ f ∷ []) fs

  Separate-append :
      (known accepted : List (Finding W)) (f : Finding W)
      → Separate known accepted
      → is_zoom_duplicate f (known ++ accepted) ≡ false
      → Separate known (accepted ++ f ∷ [])
  Separate-append known [] f h new = (rw (append-nil known) at new, tt)
  Separate-append known (g ∷ accepted) f h new = (
    h.0,
    Separate-append (known ++ g ∷ []) accepted f h.1
        (rw (append_assoc known (g ∷ []) accepted) new),
  )

  abbrev pub Accepts : ℕ → List (Finding W) → List (Finding W) → Type 0
  Accepts n known accepted = All (OnSlide n) accepted × Separate known accepted

  module _ (l : IsDouble W) (n : ℕ) where
    Reads : Result Error (Finding W) → Type 0
    Reads (ok f) = OnSlide n f
    Reads (err e) = IsOverflow e

    finding_with-Reads :
        (id : ℕ) (item : SlideFindingIn) (bbox : Result Error (Option (BBox W)))
        → Sound l item.box_2d bbox
        → Reads (finding_with id (some (pos n)) item bbox)
    unfolding finding_with Reads
    finding_with-Reads id item (err e) h = h.1
    finding_with-Reads id item (ok none) h = (refl, tt)
    finding_with-Reads id item (ok (some b)) h = (refl, h.1)

    finding_from-Reads :
        (id : ℕ) (item : SlideFindingIn) → Reads (finding_from id (some (pos n)) item)
    unfolding finding_from
    finding_from-Reads id item = finding_with-Reads id item _ (box_2d_to_bbox-Sound l item.box_2d)

    ReadsAll : Result Error (List (Finding W)) → Type 0
    ReadsAll (ok fs) = All (OnSlide n) fs
    ReadsAll (err e) = IsOverflow e

    findings_from-ReadsAll :
        (id : ℕ → ℕ) (k : ℕ) (items : List SlideFindingIn)
        → ReadsAll (findings_from id k (some (pos n)) items)
    unfolding findings_from ReadsAll Reads
    findings_from-ReadsAll id k [] = tt
    findings_from-ReadsAll id k (item ∷ items) =
        both (finding_from (id k) (some (pos n)) item)
          (findings_from id (suc k) (some (pos n)) items) (finding_from-Reads (id k) item)
          (findings_from-ReadsAll id (suc k) items)
      where
        both :
            (r : Result Error (Finding W)) (rest : Result Error (List (Finding W)))
            → Reads r
            → ReadsAll rest
            → ReadsAll (elim r [
              | err e ↦ err e
              | ok f ↦ elim rest [ ok fs ↦ ok (f ∷ fs) | err e ↦ err e ]
            ])
        both (ok f) (ok fs) h k = (h, k)
        both (ok f) (err e) h k = k
        both (err e) rest h k = h

    projected-Reads :
        (crop_bbox : BBox W) (f : Finding W) (bbox : Option (BBox W))
        → IsValid crop_bbox
        → f.slide_num ≡ some (pos n)
        → f.bbox ≡ bbox
        → ValidBox bbox
        → Reads (projected crop_bbox f bbox)
    unfolding projected Reads with_projection
    projected-Reads crop_bbox f none hc hn e h = (hn, rw e tt)
    projected-Reads crop_bbox f (some bbox) hc hn e h =
        let (b, same, valid, fits_x, fits_y) = project_into-IsValid l crop_bbox bbox hc h in
        rw same (hn, valid)

    Q : List (Finding W) → Result Error (List (Finding W)) → Type 0
    Q known (ok accepted) = Accepts n known accepted
    Q known (err e) = IsOverflow e

    after_projection :
        (known accepted : List (Finding W))
        (next : List (Finding W) → Result Error (List (Finding W))) (r : Result Error (Finding W))
        → Reads r
        → ((acc : List (Finding W)) → Accepts n known acc → Q known (next acc))
        → Accepts n known accepted
        → Q known (elim r [
          | err e ↦ err e
          | ok f ↦
              next
                (if is_zoom_duplicate f (known ++ accepted) then accepted else accepted ++ f ∷ [])
        ])
    unfolding Reads Q
    after_projection known accepted next (err e) h k ha = h
    after_projection known accepted next (ok f) h k ha =
        elim (Bool-cases (is_zoom_duplicate f (known ++ accepted))) [
          | inl e ↦ rw e (k accepted ha)
          | inr e ↦ rw e (
              k (accepted ++ f ∷ []) (
                All-append (OnSlide n) accepted (f ∷ []) ha.0 (h, tt),
                Separate-append known accepted f ha.1 e,
              ))
        ]

    accept-Accepts :
        (crop_bbox : BBox W) (known accepted findings : List (Finding W))
        → IsValid crop_bbox
        → All (OnSlide n) findings
        → Accepts n known accepted
        → Q known (accept crop_bbox known accepted findings)
    unfolding accept Q
    accept-Accepts crop_bbox known accepted [] hc hf ha = ha
    accept-Accepts crop_bbox known accepted (f ∷ fs) hc ((hn, hb), hf) ha =
        after_projection known accepted (λ acc. accept crop_bbox known acc fs) _
          (projected-Reads crop_bbox f f.bbox hc hn refl hb)
          (λ acc h. accept-Accepts crop_bbox known acc fs hc hf h) ha

    accept_read-Q :
        (crop_bbox : BBox W) (known accepted : List (Finding W))
        (r : Result Error (List (Finding W)))
        → IsValid crop_bbox
        → ReadsAll r
        → Accepts n known accepted
        → Q known (accept_read crop_bbox known accepted r)
    unfolding accept_read ReadsAll Q
    accept_read-Q crop_bbox known accepted (ok fs) hc hf ha =
        accept-Accepts crop_bbox known accepted fs hc hf ha
    accept_read-Q crop_bbox known accepted (err e) hc hf ha = hf

    -- The findings accepted, or the exception.
    abbrev pub Read : List (Finding W) → Result Error (List (Finding W)) → Type 0
    Read known (ok accepted) = Accepts n known accepted
    Read known (err e) = IsOverflow e

    Read-Q :
        (known : List (Finding W)) (r : Result Error (List (Finding W))) → Q known r → Read known r
    unfolding Q
    Read-Q known (ok accepted) h = h
    Read-Q known (err e) h = h

    -- What the model sees in a crop with a valid box is read and projected, unless a box of its is too
    -- large for a float.
    pub accept_read-Read :
        (id : ℕ → ℕ) (k : ℕ) (crop_bbox : BBox W) (known accepted : List (Finding W))
        (items : List SlideFindingIn)
        → IsValid crop_bbox
        → Accepts n known accepted
        → Read known
            (accept_read crop_bbox known accepted (findings_from id k (some (pos n)) items))
    accept_read-Read id k crop_bbox known accepted items hc ha =
        Read-Q known _
          (accept_read-Q crop_bbox known accepted _ hc (findings_from-ReadsAll id k items) ha)
