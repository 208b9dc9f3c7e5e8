-- ===== src/Aggregate/Dedup.antt =====
-- What deduplication keeps, what it drops, and when it asks the model.
use mathlib.Core.List.{Sublistᴰ, append-nil, append_assoc}
use slidelens.Prelude.{
  String, ◌≡◌, ◌⊎◌, refl, Bool, true, false, List, [], ◌∷◌, ◌++◌, inl, inr, Bool-cases, All, Any,
  if◌then◌else◌, Any-append_left, Any-append_right, ◌∙◌,
}
use slidelens.Prelude.Exec.{Exec, ok, pure, >>=-eq-ok}
use slidelens.Double.{Double}
use slidelens.Schemas.{Finding}
use slidelens.Aggregate.{confirm_same_issue, is_candidate, is_duplicate, dedup_from, dedup}

module _ {W : Type 0} ⦃d : Double W⦄ {S E : Type 0} (prompt_body : String → Exec S E String)
    (same_issue : String → String → Exec S E Bool) (t : W) where
  abbrev confirm : Finding W → Finding W → Exec S E Bool
  confirm = confirm_same_issue prompt_body same_issue

  -- Both are on one slide with boxes that overlap enough, and the model, asked about them in some
  -- state, said that they are the same issue.
  abbrev pub Duplicate : Finding W → Finding W → Type 0
  Duplicate f o =
      (is_candidate t f o ≡ true) × ((s : S) × (s' : S) × (confirm f o s ≡ (ok true, s')))

  -- The rest of the loop after an answer of the model.
  after_answer : Finding W → Finding W → List (Finding W) → Bool → Exec S E Bool
  after_answer f o kept same =
      if same then pure true else is_duplicate prompt_body same_issue t f kept

  is_duplicate_sound :
      (f : Finding W) (kept : List (Finding W)) (s s' : S)
      → is_duplicate prompt_body same_issue t f kept s ≡ (ok true, s')
      → Any (Duplicate f) kept
  unfolding is_duplicate after_answer
  is_duplicate_sound f [] s s' h = cc
  is_duplicate_sound f (o ∷ kept) s s' h = elim (Bool-cases (is_candidate t f o)) [
    | inr no_candidate ↦ inr (is_duplicate_sound f kept s s' (rw no_candidate at h))
    | inl candidate ↦
        let (same, s1, asked, rest) =
          >>=-eq-ok (confirm f o) (after_answer f o kept) s (rw candidate at h) in
        elim (Bool-cases same) [
          | inl yes_same ↦ inl (candidate, (s, s1, rw yes_same at asked))
          | inr other ↦ inr (is_duplicate_sound f kept s1 s' (rw other at rest))
        ]
  ]

  -- Every finding is kept, or is a duplicate of one that is kept.
  abbrev pub Covered : List (Finding W) → Finding W → Type 0
  Covered kept f = Any (λ o. f ≡ o) kept ⊎ Any (Duplicate f) kept

  Covered-append :
      (kept more : List (Finding W)) (f : Finding W) → Covered kept f → Covered (kept ++ more) f
  Covered-append kept more f (inl h) = inl (Any-append_left _ kept more h)
  Covered-append kept more f (inr h) = inr (Any-append_left _ kept more h)

  All-Covered-append :
      (kept more fs : List (Finding W)) → All (Covered kept) fs → All (Covered (kept ++ more)) fs
  All-Covered-append kept more [] h = tt
  All-Covered-append kept more (f ∷ fs) h =
      (Covered-append kept more f h.0, All-Covered-append kept more fs h.1)

  -- `new` is what the loop adds to `kept`.
  abbrev ResultOf : List (Finding W) → List (Finding W) → List (Finding W) → Type 0
  ResultOf kept findings out =
      (new : List (Finding W)) × (out ≡ kept ++ new)
      × Sublistᴰ new findings
      × All (Covered out) findings

  dedup_from_sound :
      (findings kept : List (Finding W)) {out : List (Finding W)} (s : S) {s' : S}
      → dedup_from prompt_body same_issue t kept findings s ≡ (ok out, s')
      → ResultOf kept findings out
  unfolding dedup_from
  dedup_from_sound [] kept s h = ([], cc (append-nil kept), Sublistᴰ.slnil, tt)
  dedup_from_sound (f ∷ findings) kept {out} s h =
      let (dup, s1, asked, rest) =
        >>=-eq-ok (is_duplicate prompt_body same_issue t f kept)
          (λ duplicate.
            dedup_from prompt_body same_issue t (if duplicate then kept else kept ++ f ∷ [])
              findings)
          s h in
      elim (Bool-cases dup) [
        | inl yes_dup ↦
            let (new, e, sub, covered) = dedup_from_sound findings kept s1 (rw yes_dup at rest) in
            (
              new,
              e,
              Sublistᴰ.cons sub,
              (
                rw e (
                    inr (
                      Any-append_left _ kept new
                        (is_duplicate_sound f kept s s1 (rw yes_dup at asked)))),
                covered,
              ),
            )
        | inr fresh ↦
            let (new, e, sub, covered) =
              dedup_from_sound findings (kept ++ f ∷ []) s1 (rw fresh at rest) in
            (
              f ∷ new,
              e ∙ append_assoc kept (f ∷ []) new,
              Sublistᴰ.cons-cons refl sub,
              (
                rw e (
                    inl (
                      Any-append_left _ (kept ++ f ∷ []) new
                        (Any-append_right _ kept (f ∷ []) (inl refl)))),
                covered,
              ),
            )
      ]

  -- If deduplication succeeds, its result is a part of the findings in their order, and each
  -- finding is either kept or a duplicate, by the model's word, of one that is kept.
  pub dedup_sound :
      (findings : List (Finding W)) {out : List (Finding W)} (s : S) {s' : S}
      → dedup prompt_body same_issue t findings s ≡ (ok out, s')
      → Sublistᴰ out findings × All (Covered out) findings
  unfolding dedup
  dedup_sound findings s h =
      let (new, e, sub, covered) = dedup_from_sound findings [] s h in (rw e sub, covered)

  is_duplicate_apart :
      (f : Finding W) (kept : List (Finding W)) (s : S)
      → All (λ o. is_candidate t f o ≡ false) kept
      → is_duplicate prompt_body same_issue t f kept s ≡ (ok false, s)
  unfolding is_duplicate
  is_duplicate_apart f [] s h = refl
  is_duplicate_apart f (o ∷ kept) s h = rw h.0 (is_duplicate_apart f kept s h.1)

  -- No finding is close to an earlier one.
  abbrev pub IsApart : List (Finding W) → List (Finding W) → Type 0
  IsApart kept [] = Unit
  IsApart kept (f ∷ fs) = All (λ o. is_candidate t f o ≡ false) kept × IsApart (kept ++ f ∷ []) fs

  dedup_from_apart :
      (kept findings : List (Finding W)) (s : S)
      → IsApart kept findings
      → dedup_from prompt_body same_issue t kept findings s ≡ (ok (kept ++ findings), s)
  unfolding dedup_from
  dedup_from_apart kept [] s h = rw append-nil
  dedup_from_apart kept (f ∷ findings) s h = rw (
    is_duplicate_apart f kept s h.0,
    dedup_from_apart (kept ++ f ∷ []) findings s h.1,
    append_assoc,
  )

  -- Where no two findings of one slide have boxes that overlap enough, all are kept and the model
  -- is not asked: the client's state is what it was.
  pub dedup_apart :
      (findings : List (Finding W)) (s : S)
      → IsApart [] findings
      → dedup prompt_body same_issue t findings s ≡ (ok findings, s)
  unfolding dedup
  dedup_apart findings s h = dedup_from_apart [] findings s h
