-- ===== src/Aggregate/Groups.antt =====
-- The dict of findings by slide: what stands under each key.
use mathlib.Core.List.{append-nil, append_assoc}
use slidelens.Prelude.{
  ◌≡◌, refl, sym, ap, Bool, true, false, Option, none, some, List, [], ◌∷◌, ◌++◌, inl, inr,
  Bool-cases, arith, All, if◌then◌else◌, filter, ◌∙◌, All-append,
}
use slidelens.Prelude.Int.{ℤ, ℤ_antisymm}
use slidelens.Schemas.{Finding, same_slide}
use slidelens.Aggregate.{Groups, append_to, group_from}

pub same_slide-eq : (a b : Option ℤ) → same_slide a b ≡ true → a ≡ b
same_slide-eq none none h = refl
same_slide-eq none (some b) h = cc
same_slide-eq (some a) none h = cc
same_slide-eq (some a) (some b) h = ap some (ℤ_antisymm a b (ground arith) (ground arith))

pub same_slide_refl : (a : Option ℤ) → same_slide a a ≡ true
same_slide_refl none = refl
same_slide_refl (some a) = ground arith

pub same_slide_comm : (a b : Option ℤ) → same_slide a b ≡ same_slide b a
same_slide_comm none none = refl
same_slide_comm none (some b) = refl
same_slide_comm (some a) none = refl
same_slide_comm (some a) (some b) = ground arith

module _ {W : Type 0} where
  -- The entry under a key, empty if there is none.
  unfoldable pub group_of : Option ℤ → Groups W → List (Finding W)
  group_of k [] = []
  group_of k ((j, group) ∷ rest) =
      let more = group_of k rest in if same_slide k j then group else more

  abbrev pub on_slide : Option ℤ → Finding W → Bool
  on_slide k f = same_slide k f.slide_num

  -- No key stands twice.
  abbrev pub IsDistinct : Groups W → Type 0
  IsDistinct [] = Unit
  IsDistinct ((k, _) ∷ rest) = All (λ e. same_slide k e.0 ≡ false) rest × IsDistinct rest

  -- Each finding stands under its slide.
  abbrev pub IsKeyed : Groups W → Type 0
  IsKeyed [] = Unit
  IsKeyed ((k, group) ∷ rest) = All (λ f. f.slide_num ≡ k) group × IsKeyed rest

  group_of-append_to :
      (k j : Option ℤ) (f : Finding W) (gs : Groups W)
      → group_of k (append_to j f gs)
        ≡ (if same_slide k j then group_of k gs ++ f ∷ [] else group_of k gs)
  unfolding group_of append_to
  group_of-append_to k j f [] = refl
  group_of-append_to k j f ((i, g) ∷ gs) = ground (
    arith,
    group_of-append_to k j f gs,
    same_slide-eq k j,
    same_slide-eq j i,
    same_slide-eq k i,
    same_slide_refl k,
    same_slide_refl j,
  )

  group_of-group_from :
      (k : Option ℤ) (gs : Groups W) (fs : List (Finding W))
      → group_of k (group_from gs fs) ≡ group_of k gs ++ filter (on_slide k) fs
  unfolding group_from
  group_of-group_from k gs [] = sym (append-nil _)
  group_of-group_from k gs (f ∷ fs) =
      rw
        (
          group_of-group_from k (append_to f.slide_num f gs) fs,
          group_of-append_to k f.slide_num f gs,
        )
        (added (same_slide k f.slide_num))
    where
      added :
          (b : Bool)
          → (if b then group_of k gs ++ f ∷ [] else group_of k gs) ++ filter (on_slide k) fs
            ≡ group_of k gs ++ (if b then f ∷ filter (on_slide k) fs else filter (on_slide k) fs)
      added true = append_assoc (group_of k gs) (f ∷ []) (filter (on_slide k) fs)
      added false = refl

  -- In the dict that the loop builds, the entry of a slide is its findings in their order.
  pub group_of-by_slide :
      (k : Option ℤ) (fs : List (Finding W))
      → group_of k (group_from [] fs) ≡ filter (on_slide k) fs
  unfolding group_of
  group_of-by_slide k fs = group_of-group_from k [] fs

  append_to-apart :
      (i j : Option ℤ) (f : Finding W) (gs : Groups W)
      → same_slide i j ≡ false
      → All (λ e. same_slide i e.0 ≡ false) gs
      → All (λ e. same_slide i e.0 ≡ false) (append_to j f gs)
  unfolding append_to
  append_to-apart i j f [] h hs = (h, tt)
  append_to-apart i j f ((k, g) ∷ gs) h hs = elim (Bool-cases (same_slide j k)) [
    | inl e ↦ rw e hs
    | inr e ↦ rw e (hs.0, append_to-apart i j f gs h hs.1)
  ]

  append_to-IsDistinct :
      (j : Option ℤ) (f : Finding W) (gs : Groups W) → IsDistinct gs → IsDistinct (append_to j f gs)
  unfolding append_to
  append_to-IsDistinct j f [] h = (tt, tt)
  append_to-IsDistinct j f ((k, g) ∷ gs) h = elim (Bool-cases (same_slide j k)) [
    | inl e ↦ rw e h
    | inr e ↦
        rw e
          (append_to-apart k j f gs (same_slide_comm k j ∙ e) h.0, append_to-IsDistinct j f gs h.1)
  ]

  append_to-IsKeyed :
      (f : Finding W) (gs : Groups W) → IsKeyed gs → IsKeyed (append_to f.slide_num f gs)
  unfolding append_to
  append_to-IsKeyed f [] h = ((refl, tt), tt)
  append_to-IsKeyed f ((k, g) ∷ gs) h = elim (Bool-cases (same_slide f.slide_num k)) [
    | inl e ↦ rw e (All-append _ g (f ∷ []) h.0 (same_slide-eq _ _ e, tt), h.1)
    | inr e ↦ rw e (h.0, append_to-IsKeyed f gs h.1)
  ]

  group_from-lawful :
      (gs : Groups W) (fs : List (Finding W))
      → IsDistinct gs
      → IsKeyed gs
      → IsDistinct (group_from gs fs) × IsKeyed (group_from gs fs)
  unfolding group_from
  group_from-lawful gs [] hd hk = (hd, hk)
  group_from-lawful gs (f ∷ fs) hd hk =
      group_from-lawful (append_to f.slide_num f gs) fs (append_to-IsDistinct f.slide_num f gs hd)
        (append_to-IsKeyed f gs hk)

  pub by_slide-lawful :
      (fs : List (Finding W)) → IsDistinct (group_from [] fs) × IsKeyed (group_from [] fs)
  by_slide-lawful fs = group_from-lawful [] fs tt tt

  pub group_of-absent :
      (k : Option ℤ) (gs : Groups W) → All (λ e. same_slide k e.0 ≡ false) gs → group_of k gs ≡ []
  unfolding group_of
  group_of-absent k [] h = refl
  group_of-absent k ((j, g) ∷ gs) h = rw h.0 (group_of-absent k gs h.1)
