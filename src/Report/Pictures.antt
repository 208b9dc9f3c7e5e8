-- ===== src/Report/Pictures.antt =====
-- Every finding that has a place gets a picture (backend/core/annotate.py).
use mathlib.Core.List.{Memᴰ}
use slidelens.Prelude.{
  ℕ, ◌≡◌, ◌⊎◌, ◌∙◌, ap, sym, refl, Bool, true, false, Option, none, some, List, [], ◌∷◌, ◌==◌, ◌||◌,
  arith, All, filter, inl, inr, Bool-cases,
}
use slidelens.Prelude.Int.{ℤ, pos, negsuc}
use slidelens.Prelude.Exec.{Result, ok}
use slidelens.Double.{Double}
use slidelens.Entities.{FileName}
use slidelens.Schemas.{Finding}
use slidelens.Services.{Error}
use slidelens.Analyzers.{Context}
use slidelens.Analyzers.Steps.{slide_png-findings}
use slidelens.Aggregate.{Groups, group_from}
use slidelens.Aggregate.Grouped.{All-passed, Grouped, group_from-Grouped, Throughout, ungroup}
use slidelens.Report.{
  Frame, Picture, is_drawn, picture_of, or_missing, set_entry, set_entries, annotated_name,
  frames_from, save_picture, draw, draw_slide, annotate_slides, annotate,
}
use slidelens.Report.Frames.{IsFramed, AllFramed, frames_from-AllFramed}
use mathlib.Core.Path.{subst}

-- `id in result`
abbrev pub has_path : ℕ → List (ℕ × FileName) → Bool
has_path id [] = false
has_path id ((i, _) ∷ result) = (i == id) || has_path id result

has_path-set_entry :
    (j i : ℕ) (path : FileName) (result : List (ℕ × FileName))
    → has_path j (set_entry i path result) ≡ ((i == j) || has_path j result)
unfolding set_entry
has_path-set_entry j i path [] = refl
has_path-set_entry j i path ((k, p) ∷ result) = ground (arith, has_path-set_entry j i path result)

set_entry-All :
    (P : ℕ × FileName → Type 0) (id : ℕ) (path : FileName) (result : List (ℕ × FileName))
    → P (id, path)
    → All P result
    → All P (set_entry id path result)
unfolding set_entry
set_entry-All P id path [] p h = (p, tt)
set_entry-All P id path ((i, q) ∷ result) p (h, hs) = elim (Bool-cases (i == id)) [
  | inl e ↦ let same : i ≡ id = ground arith in rw e (rw same p, hs)
  | inr e ↦ rw e (h, set_entry-All P id path result p hs)
]

module _ {W : Type 0} where
  abbrev pub drawn : Context W → List (Finding W)
  drawn ctx = filter is_drawn ctx.findings

  -- The file is the annotated picture of the slide of a finding with that identifier.
  abbrev pub IsPictured : List (Finding W) → ℕ × FileName → Type 0
  IsPictured fs e = (f : Finding W) × Memᴰ f fs × (f.id ≡ e.0) × (annotated_name f.slide_num ≡ e.1)

  pub picture_of-findings :
      (k : Option ℤ) (ctx : Context W) (findings : List (Finding W))
      → picture_of k (record ctx { findings = findings }) ≡ picture_of k ctx
  unfolding picture_of
  picture_of-findings none ctx findings = refl
  picture_of-findings (some (pos n)) ctx findings = slide_png-findings n ctx findings
  picture_of-findings (some (negsuc n)) ctx findings = refl

  set_entries-keeps :
      (j : ℕ) (path : FileName) (fs : List (Finding W)) (result : List (ℕ × FileName))
      → has_path j result ≡ true
      → has_path j (set_entries path fs result) ≡ true
  unfolding set_entries
  set_entries-keeps j path [] result h = h
  set_entries-keeps j path (f ∷ fs) result h =
      set_entries-keeps j path fs (set_entry f.id path result)
        (ground (arith, has_path-set_entry j f.id path result))

  set_entries-has :
      (path : FileName) (fs : List (Finding W)) (result : List (ℕ × FileName))
      → All (λ f. has_path f.id (set_entries path fs result) ≡ true) fs
  unfolding set_entries
  set_entries-has path [] result = tt
  set_entries-has path (f ∷ fs) result = (
    set_entries-keeps f.id path fs (set_entry f.id path result)
        (ground (arith, has_path-set_entry f.id f.id path result)),
    set_entries-has path fs (set_entry f.id path result),
  )

  -- What the second loop makes of the dict if nothing raises.
  abbrev entries : Groups W → List (ℕ × FileName) → List (ℕ × FileName)
  entries [] result = result
  entries ((slide_num, fs) ∷ slides) result =
      entries slides (set_entries (annotated_name slide_num) fs result)

  entries-keeps :
      (j : ℕ) (slides : Groups W) (result : List (ℕ × FileName))
      → has_path j result ≡ true
      → has_path j (entries slides result) ≡ true
  entries-keeps j [] result h = h
  entries-keeps j ((k, fs) ∷ slides) result h =
      entries-keeps j slides (set_entries (annotated_name k) fs result)
        (set_entries-keeps j (annotated_name k) fs result h)

  All-kept :
      (slides : Groups W) (fs : List (Finding W)) (result : List (ℕ × FileName))
      → All (λ f. has_path f.id result ≡ true) fs
      → All (λ f. has_path f.id (entries slides result) ≡ true) fs
  All-kept slides [] result h = tt
  All-kept slides (f ∷ fs) result (h, hs) =
      (entries-keeps f.id slides result h, All-kept slides fs result hs)

  All-entered :
      (slides : Groups W) (result : List (ℕ × FileName)) (out : List (ℕ × FileName))
      → entries slides result ≡ out
      → Throughout (λ f. has_path f.id out ≡ true) slides
  All-entered [] result out e = tt
  All-entered ((k, fs) ∷ slides) result out e = (
    rw (← e) (
        All-kept slides fs (set_entries (annotated_name k) fs result)
          (set_entries-has (annotated_name k) fs result)),
    All-entered slides (set_entries (annotated_name k) fs result) out e,
  )

  module _ (P : ℕ × FileName → Type 0) where
    set_entries-All :
        (path : FileName) (fs : List (Finding W)) (result : List (ℕ × FileName))
        → All (λ f. P (f.id, path)) fs
        → All P result
        → All P (set_entries path fs result)
    unfolding set_entries
    set_entries-All path [] result ps h = h
    set_entries-All path (f ∷ fs) result (p, ps) h =
        set_entries-All path fs (set_entry f.id path result) ps
          (set_entry-All P f.id path result p h)

  module _ (fs : List (Finding W)) where
    -- What is known of a finding under a key.
    abbrev Placed : Option ℤ → Finding W → Type 0
    Placed k f = (is_drawn f ≡ true) × (f.slide_num ≡ k) × Memᴰ f fs

    IsPictured-here :
        (k : Option ℤ) (group : List (Finding W))
        → All (Placed k) group
        → All (λ f. IsPictured fs (f.id, annotated_name k)) group
    IsPictured-here k [] h = tt
    IsPictured-here k (f ∷ group) (h, hs) =
        ((f, h.2, refl, rw h.1 refl), IsPictured-here k group hs)

    entries-All :
        (K : Option ℤ → Type 0) (slides : Groups W) (result : List (ℕ × FileName))
        → Grouped K Placed slides
        → All (IsPictured fs) result
        → All (IsPictured fs) (entries slides result)
    entries-All K [] result hs h = h
    entries-All K ((k, group) ∷ slides) result (hg, hs) h =
        entries-All K slides (set_entries (annotated_name k) group result) hs (
          set_entries-All (IsPictured fs) (annotated_name k) group result
            (IsPictured-here k group hg.1) h)

  Memᴰ-All : (fs : List (Finding W)) → All (λ f. Memᴰ f fs) fs
  Memᴰ-All [] = tt
  Memᴰ-All (f ∷ fs) = (Memᴰ.head refl, later fs (Memᴰ-All fs))
    where
      later : (gs : List (Finding W)) → All (λ g. Memᴰ g fs) gs → All (λ g. Memᴰ g (f ∷ fs)) gs
      later [] h = tt
      later (g ∷ gs) (h, hs) = (Memᴰ.tail h, later gs hs)

  -- What is placed under its own key, with a slide that is there.
  Placed-All :
      (ctx : Context W) (fs gs : List (Finding W))
      → All (λ f. (png : FileName) × (picture_of f.slide_num ctx ≡ some png)) gs
      → All (λ f. is_drawn f ≡ true) gs
      → All (λ f. Memᴰ f fs) gs
      → All
          (λ f.
            ((png : FileName) × (picture_of f.slide_num ctx ≡ some png)) × Placed fs f.slide_num f)
          gs
  Placed-All ctx fs [] a b c = tt
  Placed-All ctx fs (g ∷ gs) (a, as') (b, bs) (c, cs) =
      ((a, (b, refl, c)), Placed-All ctx fs gs as' bs cs)

module _ {W : Type 0} where
  save_picture-ok :
      (save_error : FileName → Option Error) (path : FileName) (picture : Picture W)
      (s : List (FileName × Picture W))
      → save_error path ≡ none
      → save_picture save_error path picture s ≡ (ok tt, (path, picture) ∷ s)
  unfolding save_picture
  save_picture-ok save_error path picture s h = rw (h, save_picture) refl

module _ {W : Type 0} ⦃d : Double W⦄ where
  -- A finding's picture is among those that are saved: its slide's, under the annotated name, with
  -- the finding's frame.
  abbrev pub IsShown :
      (FileName → Result Error (ℕ × ℕ))
      → Context W
      → List (FileName × Picture W)
      → Finding W
      → Type 0
  IsShown opened ctx saved f =
      (e : FileName × Picture W) × Memᴰ e saved
      × (e.0 ≡ annotated_name f.slide_num)
      × (picture_of f.slide_num ctx ≡ some e.1.png)
      × ((size : ℕ × ℕ) × (opened e.1.png ≡ ok size) × IsFramed size f e.1.frames)

  -- A saved picture is a slide's own, under that slide's annotated name.
  abbrev pub IsAnnotated : Context W → FileName × Picture W → Type 0
  IsAnnotated ctx e = (k : Option ℤ) × (e.0 ≡ annotated_name k) × (picture_of k ctx ≡ some e.1.png)

  -- Each saved picture was there before or is an annotated one.
  abbrev pub AllAnnotated :
      Context W → List (FileName × Picture W) → List (FileName × Picture W) → Type 0
  AllAnnotated ctx before saved =
      (e : FileName × Picture W) → Memᴰ e saved → Memᴰ e before ⊎ IsAnnotated ctx e

  AllAnnotated-step :
      (ctx : Context W) (k : Option ℤ) (picture : Picture W) (s t : List (FileName × Picture W))
      → picture_of k ctx ≡ some picture.png
      → AllAnnotated ctx ((annotated_name k, picture) ∷ s) t
      → AllAnnotated ctx s t
  AllAnnotated-step ctx k picture s t found h e there = latest (h e there)
    where
      latest :
          Memᴰ e ((annotated_name k, picture) ∷ s) ⊎ IsAnnotated ctx e
          → Memᴰ e s ⊎ IsAnnotated ctx e
      latest (inr mine) = inr mine
      latest (inl (Memᴰ.head same)) = inr (subst (IsAnnotated ctx) (sym same) (k, refl, found))
      latest (inl (Memᴰ.tail before)) = inl before

  All-IsShown :
      (opened : FileName → Result Error (ℕ × ℕ)) (ctx : Context W) (fs : List (Finding W))
      (k : Option ℤ) (png : FileName) (size : ℕ × ℕ) (frames : List (Frame W))
      (t : List (FileName × Picture W)) (gs : List (Finding W))
      → picture_of k ctx ≡ some png
      → opened png ≡ ok size
      → Memᴰ (annotated_name k, record { png = png; frames = frames }) t
      → All (Placed fs k) gs
      → AllFramed size gs frames
      → All (IsShown opened ctx t) gs
  All-IsShown opened ctx fs k png size frames t [] found e there h framed = tt
  All-IsShown opened ctx fs k png size frames t (g ∷ gs) found e there (h, hs) (f, framed) = (
    (
      (annotated_name k, record { png = png; frames = frames }),
      there,
      ap annotated_name (sym h.1),
      ap (λ j. picture_of j ctx) h.1 ∙ found,
      (size, e, f),
    ),
    All-IsShown opened ctx fs k png size frames t gs found e there hs framed,
  )

  All-drawn :
      (fs : List (Finding W)) (k : Option ℤ) (gs : List (Finding W))
      → All (Placed fs k) gs
      → All (λ g. is_drawn g ≡ true) gs
  All-drawn fs k [] h = tt
  All-drawn fs k (g ∷ gs) (h, hs) = (h.0, All-drawn fs k gs hs)

  module _ (opened : FileName → Result Error (ℕ × ℕ)) (save_error : FileName → Option Error)
      (opens : (path : FileName) → (size : ℕ × ℕ) × (opened path ≡ ok size))
      (saves : (path : FileName) → save_error path ≡ none) where
    draw_slide-ok :
        (ctx : Context W) (gs : List (Finding W)) (k : Option ℤ) (s : List (FileName × Picture W))
        (png : FileName) (size : ℕ × ℕ) (frames : List (Frame W))
        → picture_of k ctx ≡ some png
        → opened png ≡ ok size
        → frames_from 1 size gs ≡ ok frames
        → draw_slide opened save_error ctx k gs s
          ≡ (ok tt, (annotated_name k, record { png = png; frames = frames }) ∷ s)
    unfolding draw_slide draw or_missing
    draw_slide-ok ctx gs k s png size frames found e e' =
        rw (found, e, e') (save_picture-ok save_error (annotated_name k) _ s (saves _))

    -- What the second loop leaves: nothing is lost, what is new is annotated, and every finding of
    -- the groups is shown.
    abbrev Loop :
        Context W
        → Groups W
        → List (ℕ × FileName)
        → List (FileName × Picture W)
        → List (FileName × Picture W)
        → Type 0
    Loop ctx slides result s t =
        (annotate_slides opened save_error ctx slides result s ≡ (ok (entries slides result), t))
        × ((e : FileName × Picture W) → Memᴰ e s → Memᴰ e t)
        × AllAnnotated ctx s t
        × Throughout (IsShown opened ctx t) slides

    annotate_slides-ok :
        (ctx : Context W) (fs : List (Finding W)) (slides : Groups W) (result : List (ℕ × FileName))
        (s : List (FileName × Picture W))
        → Grouped (λ k. (png : FileName) × (picture_of k ctx ≡ some png)) (Placed fs) slides
        → (t : List (FileName × Picture W)) × Loop ctx slides result s t
    unfolding annotate_slides
    annotate_slides-ok ctx fs [] result s h = (s, (refl, (λ e m. m), (λ e m. inl m), tt))
    annotate_slides-ok ctx fs ((k, group) ∷ slides) result s (((png, found), placed), hs) =
        let (size, e) = opens png in
        let (frames, e', framed) =
          frames_from-AllFramed 1 size group (All-drawn fs k group placed) in
        let picture : Picture W = record { png = png; frames = frames } in
        let (t, (e'', keeps, annotated, shown)) =
          annotate_slides-ok ctx fs slides (set_entries (annotated_name k) group result)
            ((annotated_name k, picture) ∷ s) hs in
        (
          t,
          (
            rw (draw_slide-ok ctx group k s png size frames found e e', e'') refl,
            (λ x m. keeps x (Memᴰ.tail m)),
            AllAnnotated-step ctx k picture s t found annotated,
            (
              All-IsShown opened ctx fs k png size frames t group found e
                  (keeps (annotated_name k, picture) (Memᴰ.head refl)) placed framed,
              shown,
            ),
          ),
        )

    -- If every finding with a slide and a box is on a slide that has a picture, if the pictures can be
    -- opened and the annotated ones saved, then `annotate` returns. In its result each such finding's
    -- identifier has a file, and each file is the annotated picture of the slide of such a finding
    -- with that identifier. For each such finding a picture is saved under its slide's annotated
    -- name: the slide's own, on which the finding has the frame of its box in its severity's colour,
    -- unless the box takes four fifths of the slide. Nothing else is saved but slides' own pictures
    -- under their annotated names.
    pub annotate_lem :
        (ctx : Context W) (s : List (FileName × Picture W))
        → All (λ f. (png : FileName) × (picture_of f.slide_num ctx ≡ some png)) (drawn ctx)
        → (result : List (ℕ × FileName)) × (t : List (FileName × Picture W)) × (annotate opened
              save_error ctx s
            ≡ (ok result, t))
          × All (λ f. has_path f.id result ≡ true) (drawn ctx)
          × All (IsPictured (drawn ctx)) result
          × All (IsShown opened ctx t) (drawn ctx)
          × AllAnnotated ctx s t
    unfolding annotate
    annotate_lem ctx s there =
        let fs = drawn ctx in
        let grouped =
          group_from-Grouped (λ k. (png : FileName) × (picture_of k ctx ≡ some png)) (Placed fs) fs
            [] (Placed-All ctx fs fs there (All-passed is_drawn ctx.findings) (Memᴰ-All fs)) tt in
        let (t, (e, _, annotated, shown)) =
          annotate_slides-ok ctx fs (group_from [] fs) [] s grouped in
        let has = All-entered (group_from [] fs) [] (entries (group_from [] fs) []) refl in
        (
          entries (group_from [] fs) [],
          t,
          e,
          (ungroup (λ f. has_path f.id (entries (group_from [] fs) []) ≡ true) fs [] has).0,
          entries-All fs _ (group_from [] fs) [] grouped tt,
          (ungroup (IsShown opened ctx t) fs [] shown).0,
          annotated,
        )
