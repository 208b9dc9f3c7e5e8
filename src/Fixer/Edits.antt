-- ===== src/Fixer/Edits.antt =====
-- What the rule for small fonts changes (backend/core/fix.py).
use slidelens.Prelude.{
  ℕ, ◌≡◌, ◌⊎◌, refl, ap, String, Bool, true, false, ◌||◌, Option, none, some, List, [], ◌∷◌, All,
  ltb, Bool-cases, inl, inr, ◌↔◌,
}
use slidelens.Fixer.{TextRun, Shape, SlideShapes, FixResult, min_font_size}
use slidelens.Fixer.Rules.{
  with_edit, edit_runs, edit_paragraphs, edited_text, raised_size, raise_run, min_font_size_rule,
}

-- A run whose size is set is at least the minimum.
abbrev pub IsLarge : Option ℕ → Type 0
IsLarge none = Unit
IsLarge (some size) = ltb size min_font_size ≡ false

abbrev pub AllLarge : List (List TextRun) → Type 0
AllLarge paragraphs = All (All (λ (r : TextRun). IsLarge r.size)) paragraphs

raised_size-cases :
    (run : TextRun) (size : Option ℕ)
    → ((raised_size run size ≡ none) × IsLarge size)
      ⊎ ((raised_size run size ≡ some (record run { size = some min_font_size }))
          × (IsLarge size → ⊥))
unfolding raised_size
raised_size-cases run none = inl (refl, tt)
raised_size-cases run (some size) = elim (Bool-cases (ltb size min_font_size)) [
  | inl e ↦ inr (rw e refl, λ h. cc)
  | inr e ↦ inl (rw e refl, e)
]

-- All large afterwards; changed exactly if not all were; and unchanged if it says so.
abbrev RunsRaised : List TextRun → Bool × List TextRun → Type 0
RunsRaised runs (changed, runs') =
    All (λ (r : TextRun). IsLarge r.size) runs'
    × ((changed ≡ false) ↔ All (λ (r : TextRun). IsLarge r.size) runs)
    × (changed ≡ false → runs' ≡ runs)

with_edit-RunsRaised :
    (run : TextRun) (runs : List TextRun) (edit : Option TextRun) (rest : Bool × List TextRun)
    → ((edit ≡ none) × IsLarge run.size)
      ⊎ ((edit ≡ some (record run { size = some min_font_size })) × (IsLarge run.size → ⊥))
    → RunsRaised runs rest
    → RunsRaised (run ∷ runs) (with_edit run edit rest)
unfolding with_edit
with_edit-RunsRaised run runs edit (changed, runs') (inl (e, big)) (large, iff, same) =
    rw e ((big, large), (λ h. (big, iff.0 h), λ h. iff.1 h.1), λ h. ap (λ r. run ∷ r) (same h))
with_edit-RunsRaised run runs edit (changed, runs') (inr (e, small)) (large, iff, same) =
    rw e ((refl, large), (λ h. cc, λ h. absurd (small h.0)), λ h. cc)

edit_runs-RunsRaised : (runs : List TextRun) → RunsRaised runs (edit_runs raise_run runs)
unfolding edit_runs
edit_runs-RunsRaised [] = (tt, (λ h. tt, λ h. refl), λ h. refl)
edit_runs-RunsRaised (run ∷ runs) =
    with_edit-RunsRaised run runs (raise_run run) _ (raised_size-cases run run.size)
      (edit_runs-RunsRaised runs)

abbrev pub Raised : List (List TextRun) → Bool × List (List TextRun) → Type 0
Raised paragraphs (changed, paragraphs') =
    AllLarge paragraphs'
    × ((changed ≡ false) ↔ AllLarge paragraphs)
    × (changed ≡ false → paragraphs' ≡ paragraphs)

pub or-false : (a b : Bool) → (a || b) ≡ false → (a ≡ false) × (b ≡ false)
or-false false b h = (refl, h)
or-false true b h = cc

edit_paragraphs-Raised :
    (paragraphs : List (List TextRun)) → Raised paragraphs (edit_paragraphs raise_run paragraphs)
unfolding edit_paragraphs
edit_paragraphs-Raised [] = (tt, (λ h. tt, λ h. refl), λ h. refl)
edit_paragraphs-Raised (runs ∷ paragraphs) =
    let (changed, runs') = edit_runs raise_run runs in
    let (changed', rest) = edit_paragraphs raise_run paragraphs in
    let (large, iff, same) = edit_runs-RunsRaised runs in
    let (large', iff', same') = edit_paragraphs-Raised paragraphs in
    (
      (large, large'),
      (
        λ h. let (p, q) = or-false changed changed' h in (iff.0 p, iff'.0 q),
        λ h. rw (iff.1 h.0, iff'.1 h.1) refl,
      ),
      λ h. let (p, q) = or-false changed changed' h in rw (same p, same' q) refl,
    )

-- What the rule for small fonts makes of a shape.
abbrev pub Enlarged : Shape → Option (List (List TextRun)) → FixResult × Shape → Type 0
Enlarged shape none (result, shape') = (result.applied ≡ false) × (shape' ≡ shape)
Enlarged shape (some paragraphs) (result, shape') =
    (paragraphs' : List (List TextRun)) × (shape' ≡ record shape { paragraphs = some paragraphs' })
    × Raised paragraphs (result.applied, paragraphs')

edited_text-Enlarged :
    (otherwise : String) (shape : Shape) (text : Option (List (List TextRun)))
    → Enlarged shape text (edited_text otherwise raise_run shape text)
unfolding edited_text
edited_text-Enlarged otherwise shape none = (refl, refl)
edited_text-Enlarged otherwise shape (some paragraphs) =
    ((edit_paragraphs raise_run paragraphs).1, refl, edit_paragraphs-Raised paragraphs)

-- The rule for small fonts on a shape with text: no run is left below the minimum, the rule says that
-- it changed nothing exactly if no run was below it, and then the text is as it was; nothing but the
-- text ever changes. A shape without text is left as it is.
pub min_font_size_rule-Enlarged :
    (W : Type 0) (i : ℕ) (shape : Shape) (slide : SlideShapes)
    → Enlarged shape shape.paragraphs ((min_font_size_rule {W = W}).apply i shape slide)
unfolding min_font_size_rule
min_font_size_rule-Enlarged W i shape slide = edited_text-Enlarged _ shape shape.paragraphs
