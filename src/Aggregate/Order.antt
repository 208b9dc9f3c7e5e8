-- ===== src/Aggregate/Order.antt =====
-- The whole aggregation: its result is in order and within the cap.
use slidelens.Prelude.{
  ℕ, ◌+◌, ◌≤◌, ◌<◌, ◌≡◌, refl, String, Bool, true, false, Option, List, arith, count, inl, inr,
  Bool-cases, if◌then◌else◌, ◌++◌, [], ◌∷◌,
}
use slidelens.Prelude.Int.{ℤ}
use slidelens.Prelude.Exec.{Exec, ok, pure, Succeeds, Succeeds-bind, >>=-eq-ok}
use slidelens.Prelude.Sort.{IsSorted, sort_by, sort_by-IsSorted, count-sort_by}
use slidelens.Double.{Double}
use slidelens.Schemas.{Finding}
use slidelens.Aggregate.{
  confirm_same_issue, is_candidate, is_duplicate, dedup_from, by_severity_slide, dedup,
  cap_and_sort, run,
}
use slidelens.Aggregate.Groups.{on_slide}
use slidelens.Aggregate.Cap.{cap_per_slide_lem}

module _ {W : Type 0} where
  ordered-IsSorted :
      (xs : List (Finding W)) → IsSorted by_severity_slide (sort_by by_severity_slide xs)
  unfolding by_severity_slide
  ordered-IsSorted =
      sort_by-IsSorted by_severity_slide (λ a b h. ground arith) (λ a b c h k. ground arith)

module _ {W : Type 0} ⦃d : Double W⦄ {S E : Type 0} (prompt_body : String → Exec S E String)
    (same_issue : String → String → Exec S E Bool) (t : W) (uuid4 : ℕ → ℕ) (max : ℕ)
    (index_error : E) where
  cap_and_sort_lem :
      (deduped out : List (Finding W)) (s s' : S)
      → 0 < max
      → cap_and_sort prompt_body same_issue t uuid4 max index_error deduped s ≡ (ok out, s')
      → IsSorted by_severity_slide out × ((k : Option ℤ) → count (on_slide k) out ≤ max + 1)
  unfolding cap_and_sort
  cap_and_sort_lem deduped out s s' pos h =
      let (capped, e, sizes, _) = cap_per_slide_lem uuid4 max deduped pos in
      let is_out : sort_by by_severity_slide capped ≡ out = cc (rw e at h) in
      rw (← is_out) (
        ordered-IsSorted capped,
        λ k. rw (count-sort_by by_severity_slide (on_slide k) capped, sizes k) (ground arith),
      )

  run_lem :
      (findings : List (Finding W)) {out : List (Finding W)} (s : S) {s' : S}
      → 0 < max
      → run prompt_body same_issue t uuid4 max index_error findings s ≡ (ok out, s')
      → IsSorted by_severity_slide out × ((k : Option ℤ) → count (on_slide k) out ≤ max + 1)
  unfolding run
  run_lem findings {out} s {s'} pos h =
      let (deduped, s1, _, rest) =
        >>=-eq-ok (dedup prompt_body same_issue t findings)
          (cap_and_sort prompt_body same_issue t uuid4 max index_error) s h in
      cap_and_sort_lem deduped out s1 s' pos rest

  module _ (prompt_found : Succeeds (prompt_body "same_issue_judge"))
      (answers : (prompt system : String) → Succeeds (same_issue prompt system)) where
    confirm-Succeeds : (a b : Finding W) → Succeeds (confirm_same_issue prompt_body same_issue a b)
    unfolding confirm_same_issue
    confirm-Succeeds a b = Succeeds-bind _ _ prompt_found (λ system. answers _ system)

    answer-Succeeds :
        (b : Bool) (rest : Exec S E Bool)
        → Succeeds rest
        → Succeeds (if b then pure {S = S} {E = E} true else rest)
    answer-Succeeds true rest h s = (true, s, refl)
    answer-Succeeds false rest h s = h s

    is_duplicate-Succeeds :
        (f : Finding W) (kept : List (Finding W))
        → Succeeds (is_duplicate prompt_body same_issue t f kept)
    unfolding is_duplicate
    is_duplicate-Succeeds f [] = λ s. (false, s, refl)
    is_duplicate-Succeeds f (o ∷ kept) = elim (Bool-cases (is_candidate t f o)) [
      | inl e ↦ rw e (
          Succeeds-bind (confirm_same_issue prompt_body same_issue f o) _ (confirm-Succeeds f o)
            (λ same. answer-Succeeds same _ (is_duplicate-Succeeds f kept)))
      | inr e ↦ rw e (is_duplicate-Succeeds f kept)
    ]

    dedup_from-Succeeds :
        (findings kept : List (Finding W))
        → Succeeds (dedup_from prompt_body same_issue t kept findings)
    unfolding dedup_from
    dedup_from-Succeeds [] kept = λ s. (kept, s, refl)
    dedup_from-Succeeds (f ∷ findings) kept =
        Succeeds-bind (is_duplicate prompt_body same_issue t f kept) _
          (is_duplicate-Succeeds f kept)
          (λ dup. dedup_from-Succeeds findings (if dup then kept else kept ++ f ∷ []))

    -- If the judge's prompt is found, the model answers every question, and the cap is positive, an
    -- aggregation returns a list, in the order of severity and, among equals, of slides, in which no
    -- slide has more than the cap's number of findings and one more.
    pub run_total :
        (findings : List (Finding W)) (s : S)
        → 0 < max
        → (out : List (Finding W)) × (s' : S) × (run prompt_body same_issue t uuid4 max index_error
              findings s
            ≡ (ok out, s'))
          × IsSorted by_severity_slide out
          × ((k : Option ℤ) → count (on_slide k) out ≤ max + 1)
    unfolding run dedup cap_and_sort
    run_total findings s pos =
        let (deduped, s1, e) = dedup_from-Succeeds findings [] s in
        let (capped, e', _, _) = cap_per_slide_lem uuid4 max deduped pos in
        let returns : run prompt_body same_issue t uuid4 max index_error findings s
            ≡ (ok (sort_by by_severity_slide capped), s1) =
          rw (e, e') in
        let (sorted, sizes) = run_lem findings s pos returns in
        (sort_by by_severity_slide capped, s1, returns, sorted, sizes)
