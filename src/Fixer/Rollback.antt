-- ===== src/Fixer/Rollback.antt =====
-- What the PPTX fixer leaves (backend/core/fix.py), whatever the rules do: the edited deck with its
-- edits on the slides, or the original.
use slidelens.Prelude.{
  ℕ, ◌≡◌, ◌⊎◌, refl, ap, ◌∙◌, true, false, Option, none, some, List, [], ◌∷◌, map, length, All, Any,
  ==_iff, Bool-cases, inl, inr, arith,
}
use slidelens.Prelude.Int.{ℤ}
use slidelens.Double.{Double}
use slidelens.Schemas.{Finding}
use slidelens.Fixer.{
  Shape, SlideShapes, Presentation, FixStatus, FixLogEntry, FixRule, slide_at, shape_by_id,
  shape_inside, found_inside, touched_inside, all_inside, passes_control_check,
}
use slidelens.Fixer.Apply.{Work, unfixed, rolled_back, checked, fix}
use slidelens.Fixer.Steps.{
  Touched, Edited, AllEdited, AllEdited-map, LogsAll, AppliesAll, apply_all-AppliesAll,
}

-- On the deck's slide of that number, the shape of that identifier is inside the slide.
abbrev pub Inside : Presentation → ℤ → ℕ → Type 0
Inside deck n i =
    (slide : SlideShapes) × (slide_at n deck.slides ≡ some slide)
    × ((shape : Shape) × (shape_by_id i slide ≡ some shape) × (shape_inside deck shape ≡ true))

found_inside-Inside :
    (deck : Presentation) (found : Option Shape)
    → found_inside deck found ≡ true
    → (shape : Shape) × (found ≡ some shape) × (shape_inside deck shape ≡ true)
unfolding found_inside
found_inside-Inside deck none h = cc
found_inside-Inside deck (some shape) h = (shape, refl, h)

touched_inside-Inside :
    (deck : Presentation) (i : ℕ) (found : Option SlideShapes)
    → touched_inside deck i found ≡ true
    → (slide : SlideShapes) × (found ≡ some slide)
      × ((shape : Shape) × (shape_by_id i slide ≡ some shape) × (shape_inside deck shape ≡ true))
unfolding touched_inside
touched_inside-Inside deck i none h = cc
touched_inside-Inside deck i (some slide) h =
    (slide, refl, found_inside-Inside deck (shape_by_id i slide) h)

-- What the control check of one touched shape says.
abbrev pub Fails : Presentation → ℤ × ℕ → Type 0
Fails deck (n, i) = touched_inside deck i (slide_at n deck.slides) ≡ false

all_inside-Inside :
    (deck : Presentation) (touched : List (ℤ × ℕ)) (n : ℤ) (i : ℕ)
    → all_inside deck touched ≡ true
    → Any (λ t. t ≡ (n, i)) touched
    → Inside deck n i
unfolding all_inside
all_inside-Inside deck [] n i h t = absurd t
all_inside-Inside deck ((m, j) ∷ touched) n i h (inl e) =
    touched_inside-Inside deck i (slide_at n deck.slides)
      (ground (arith, ap (λ x. touched_inside deck x.1 (slide_at x.0 deck.slides)) e))
all_inside-Inside deck ((m, j) ∷ touched) n i h (inr t) =
    all_inside-Inside deck touched n i (ground arith) t

all_inside-Fails :
    (deck : Presentation) (touched : List (ℤ × ℕ))
    → all_inside deck touched ≡ false
    → Any (Fails deck) touched
unfolding all_inside
all_inside-Fails deck [] h = cc
all_inside-Fails deck ((m, j) ∷ touched) h =
    elim (Bool-cases (touched_inside deck j (slide_at m deck.slides))) [
      | inl e ↦ inr (all_inside-Fails deck touched (ground arith))
      | inr e ↦ inl e
    ]

All-skipped :
    (log : List FixLogEntry)
    → All (λ (e : FixLogEntry). e.status ≡ FixStatus.skipped) (map rolled_back log)
All-skipped [] = tt
All-skipped (e ∷ log) = (refl, All-skipped log)

module _ {W : Type 0} where
  LogsAll-rolled_back :
      (fs : List (Finding W)) (log : List FixLogEntry)
      → LogsAll fs log
      → LogsAll fs (map rolled_back log)
  LogsAll-rolled_back fs log h = ids_kept log ∙ h
    where
      ids_kept :
          (log : List FixLogEntry)
          → map (λ (e : FixLogEntry). e.finding_id) (map rolled_back log)
            ≡ map (λ (e : FixLogEntry). e.finding_id) log
      ids_kept [] = refl
      ids_kept (e ∷ log) = rw (ids_kept log) refl

-- Before the first edit.
abbrev pub untouched : Presentation → Work
untouched deck = record { deck = deck; touched = [] }

module _ {W : Type 0} ⦃d : Double W⦄ (rules : List (FixRule W)) where
  -- The deck that was written is the one that the edits made, each of whose shapes is inside.
  abbrev pub EditsKept :
      Presentation
      → List (Finding W)
      → Work
      → List FixLogEntry × List (Finding W) × Presentation
      → Type 0
  EditsKept deck fs work (log, fs', deck') =
      (deck' ≡ work.deck)
      × (length deck'.slides ≡ length deck.slides)
      × AllEdited rules (Inside deck') fs fs' (untouched deck) work

  -- The deck that was written is the original, no finding is marked as fixed, and the log says that
  -- every edit was skipped; a shape that the edits had changed failed the control check.
  abbrev pub RolledBack :
      Presentation
      → List (Finding W)
      → Work
      → List FixLogEntry × List (Finding W) × Presentation
      → Type 0
  RolledBack deck fs work (log, fs', deck') =
      (deck' ≡ deck)
      × (fs' ≡ map unfixed fs)
      × All (λ (e : FixLogEntry). e.status ≡ FixStatus.skipped) log
      × ((marked : List (Finding W)) × AllEdited rules (λ n i. Touched n i work) fs marked
            (untouched deck) work)
      × Any (Fails work.deck) work.touched

  -- What `fix` promises of the log, the findings and the deck that it gives back.
  abbrev pub Ended :
      Presentation → List (Finding W) → List FixLogEntry × List (Finding W) × Presentation → Type 0
  Ended deck fs out =
      LogsAll fs out.0
      × ((work : Work) × (EditsKept deck fs work out ⊎ RolledBack deck fs work out))

  unfixed-Edited :
      (Q : ℤ → ℕ → Type 0) (f f' : Finding W) (before after : Work)
      → Edited rules Q f f' before after
      → unfixed f' ≡ unfixed f
  unfixed-Edited Q f f' before after (inl (_, same, _)) = ap unfixed same
  unfixed-Edited Q f f' before after (inr (_, (n, slide, k, result, _, _, inl (_, same, _, _)))) =
      ap unfixed same
  unfixed-Edited Q f f' before after (inr (_, (n, slide, k, result, _, _, inr (_, same, _)))) =
      ap unfixed same

  unfixed-AllEdited :
      (Q : ℤ → ℕ → Type 0) (fs fs' : List (Finding W)) (before after : Work)
      → AllEdited rules Q fs fs' before after
      → map unfixed fs' ≡ map unfixed fs
  unfixed-AllEdited Q [] [] before after m = refl
  unfixed-AllEdited Q (f ∷ fs) (f' ∷ fs') before after (next, one, rest) =
      rw (unfixed-Edited Q f f' before next one, unfixed-AllEdited Q fs fs' next after rest) refl
  unfixed-AllEdited Q [] (f' ∷ fs') before after m = absurd m
  unfixed-AllEdited Q (f ∷ fs) [] before after m = absurd m

  checked-Ended :
      (deck : Presentation) (fs : List (Finding W))
      (out : List FixLogEntry × List (Finding W) × Work)
      → AppliesAll rules fs (untouched deck) out
      → Ended deck fs (checked deck out)
  unfolding checked passes_control_check
  checked-Ended deck fs (log, fs', work) h =
      rw ((==_iff (length work.deck.slides) (length deck.slides)).1 h.grows.same_length)
        (elim (Bool-cases (all_inside work.deck work.touched)) [
          | inl inside ↦ rw inside (
            h.logs,
            (
              work,
              inl (
                refl,
                h.grows.same_length,
                AllEdited-map rules (λ n i. Touched n i work) (Inside work.deck) fs fs'
                    (untouched deck) work
                    (λ n i t. all_inside-Inside work.deck work.touched n i inside t) h.edited,
              ),
            ),
          )
          | inr outside ↦ rw outside (
            LogsAll-rolled_back fs log h.logs,
            (
              work,
              inr (
                refl,
                unfixed-AllEdited (λ n i. Touched n i work) fs fs' (untouched deck) work h.edited,
                All-skipped log,
                (fs', h.edited),
                all_inside-Fails work.deck work.touched outside,
              ),
            ),
          )
        ])

  -- Whatever the rules do, the log has one entry for each finding that can be fixed, in their order,
  -- and the findings are gone through one after another. One that may not be fixed, has no slide or
  -- box, whose slide is not there, whose box matches no shape, or that no rule is for, changes nothing.
  -- For any other, the shape that its box matches on its slide gives way to what the first rule for
  -- the finding makes of it; if the rule says that it changed it, the finding is marked as fixed, and
  -- if not, it stays as it is. Then one of two things holds. Either the edits are kept: the deck is the one that they made,
  -- with as many slides as before, and each shape that was changed, found by its identifier, lies
  -- inside its slide. Or everything is rolled back, since a shape that was changed failed the control
  -- check: the deck is the original, no finding is marked as fixed, and every log entry says that its
  -- edit was skipped.
  pub fix-Ended : (deck : Presentation) (fs : List (Finding W)) → Ended deck fs (fix rules deck fs)
  unfolding fix
  fix-Ended deck fs = checked-Ended deck fs _ (apply_all-AppliesAll rules fs _)
