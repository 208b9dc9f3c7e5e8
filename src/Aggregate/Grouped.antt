-- ===== src/Aggregate/Grouped.antt =====
-- What holds of the findings holds of their groups, and the other way round (backend/core/aggregate.py,
-- core/annotate.py).
use mathlib.Core.Path.{subst}
use slidelens.Prelude.{
  ◌≡◌, Bool, true, Option, List, [], ◌∷◌, ◌++◌, filter, All, All-append, inl, inr, Bool-cases,
  if◌then◌else◌, false,
}
use slidelens.Prelude.Int.{ℤ}
use slidelens.Schemas.{Finding, same_slide}
use slidelens.Aggregate.{Groups, append_to, group_from}
use slidelens.Aggregate.Groups.{same_slide-eq}

module _ {W : Type 0} where
  -- The findings that pass a test do pass it.
  pub All-passed :
      (p : Finding W → Bool) (fs : List (Finding W)) → All (λ f. p f ≡ true) (filter p fs)
  All-passed p [] = tt
  All-passed p (f ∷ fs) = elim (Bool-cases (p f)) [
    | inl e ↦ rw e (e, All-passed p fs)
    | inr e ↦ rw e (All-passed p fs)
  ]

module _ {W : Type 0} (K : Option ℤ → Type 0) (R : Option ℤ → Finding W → Type 0) where
  -- Each key satisfies `K`, and each finding under a key `R`.
  abbrev pub Grouped : Groups W → Type 0
  Grouped gs = All (λ (g : Option ℤ × List (Finding W)). K g.0 × All (R g.0) g.1) gs

  append_to-Grouped :
      (f : Finding W) (gs : Groups W)
      → K f.slide_num
      → R f.slide_num f
      → Grouped gs
      → Grouped (append_to f.slide_num f gs)
  unfolding append_to
  append_to-Grouped f [] k r h = ((k, (r, tt)), tt)
  append_to-Grouped f ((j, g) ∷ gs) k r h = elim (Bool-cases (same_slide f.slide_num j)) [
    | inl e ↦ rw e (
      (
        h.0.0,
        All-append (R j) g (f ∷ []) h.0.1
            (subst (λ i. R i f) (same_slide-eq f.slide_num j e) r, tt),
      ),
      h.1,
    )
    | inr e ↦ rw e (h.0, append_to-Grouped f gs k r h.1)
  ]

  pub group_from-Grouped :
      (fs : List (Finding W)) (gs : Groups W)
      → All (λ f. K f.slide_num × R f.slide_num f) fs
      → Grouped gs
      → Grouped (group_from gs fs)
  unfolding group_from
  group_from-Grouped [] gs hs h = h
  group_from-Grouped (f ∷ fs) gs hs h =
      group_from-Grouped fs (append_to f.slide_num f gs) hs.1
        (append_to-Grouped f gs hs.0.0 hs.0.1 h)

module _ {W : Type 0} (P : Finding W → Type 0) where
  abbrev pub Throughout : Groups W → Type 0
  Throughout gs = All (λ (g : Option ℤ × List (Finding W)). All P g.1) gs

  All-parts : (xs ys : List (Finding W)) → All P (xs ++ ys) → All P xs × All P ys
  All-parts [] ys h = (tt, h)
  All-parts (x ∷ xs) ys (p, h) = let (hx, hy) = All-parts xs ys h in ((p, hx), hy)

  -- One round of `append_to`, for either answer of its test.
  ungroup-round :
      (f : Finding W) (k j : Option ℤ) (g : List (Finding W)) (gs : Groups W)
      → (Throughout (append_to k f gs) → P f × Throughout gs)
      → (b : Bool) → Throughout (if b then (j, g ++ f ∷ []) ∷ gs else (j, g) ∷ append_to k f gs)
      → P f × Throughout ((j, g) ∷ gs)
  ungroup-round f k j g gs rest true (mine, more) =
      let (hg, hf) = All-parts g (f ∷ []) mine in (hf.0, (hg, more))
  ungroup-round f k j g gs rest false (mine, more) = let (hf, hs) = rest more in (hf, (mine, hs))

  ungroup-one :
      (f : Finding W) (k : Option ℤ) (gs : Groups W)
      → Throughout (append_to k f gs)
      → P f × Throughout gs
  unfolding append_to
  ungroup-one f k [] h = (h.0.0, tt)
  ungroup-one f k ((j, g) ∷ gs) h = ungroup-round f k j g gs (ungroup-one f k gs) (same_slide k j) h

  -- What holds throughout the groups holds of the findings that they were made from.
  pub ungroup :
      (fs : List (Finding W)) (gs : Groups W)
      → Throughout (group_from gs fs)
      → All P fs × Throughout gs
  unfolding group_from
  ungroup [] gs h = (tt, h)
  ungroup (f ∷ fs) gs h =
      let (hs, more) = ungroup fs (append_to f.slide_num f gs) h in
      let (hf, hgs) = ungroup-one f f.slide_num gs more in ((hf, hs), hgs)
