-- ===== src/Aggregate/Kept.antt =====
-- What the aggregation adds to the findings is only its own notes on what it left out
-- (backend/core/aggregate.py).
use mathlib.Core.List.{Sublistᴰ}
use mathlib.Core.Path.{subst}
use slidelens.Prelude.{
  ℕ, ◌+◌, ◌-◌, ◌≡◌, refl, String, Bool, true, false, Option, none, some, List, [], ◌∷◌, ◌++◌, All,
  All-append, All-take, take, length, leb, if◌then◌else◌,
}
use slidelens.Prelude.Int.{ℤ}
use slidelens.Prelude.Exec.{Exec, ok, pure, ◌>>=◌, >>=-eq-ok}
use slidelens.Prelude.Sort.{sort_by, All-sort_by}
use slidelens.Double.{Double}
use slidelens.Schemas.{Finding, Category}
use slidelens.Aggregate.{
  Groups, misc_finding, misc_of, by_severity, by_severity_slide, group_from, cap_group, extend,
  cap_groups, cap_per_slide, dedup, or_raise, cap_and_sort, run,
}
use slidelens.Aggregate.Dedup.{dedup_sound}
use slidelens.Aggregate.Grouped.{Grouped, group_from-Grouped}

module _ {W : Type 0} where
  -- The note on what was left out has no box.
  pub misc_finding-bbox :
      (id : ℕ) (k : Option ℤ) (c : Category) (n : ℕ) → (misc_finding {W = W} id k c n).bbox ≡ none
  unfolding misc_finding
  misc_finding-bbox id k c n = refl

module _ {W : Type 0} (P : Finding W → Type 0)
    (misc-P : (id : ℕ) (k : Option ℤ) (c : Category) (n : ℕ) → P (misc_finding id k c n)) where
  All-some : {xs out : List (Finding W)} → some xs ≡ some out → All P xs → All P out
  All-some {xs} {out} e h = let same : xs ≡ out = cc in subst (All P) same h

  All-Sublist : (ys xs : List (Finding W)) → Sublistᴰ ys xs → All P xs → All P ys
  All-Sublist [] [] Sublistᴰ.slnil h = tt
  All-Sublist (y ∷ ys) [] sub h = elim sub [ ]
  All-Sublist ys (x ∷ xs) (Sublistᴰ.cons sub) (h, hs) = All-Sublist ys xs sub hs
  All-Sublist (y ∷ ys) (x ∷ xs) (Sublistᴰ.cons-cons e sub) (h, hs) =
      (rw e h, All-Sublist ys xs sub hs)

  with_misc-All :
      (id : ℕ) (k : Option ℤ) (kept : List (Finding W)) (n : ℕ) {out : List (Finding W)}
      → All P kept
      → (elim (misc_of id k kept n) [ none ↦ none | some misc ↦ some (kept ++ misc ∷ []) ])
        ≡ some out
      → All P out
  unfolding misc_of
  with_misc-All id k [] n h e = cc
  with_misc-All id k (x ∷ xs) n h e =
      All-some e (
        All-append P (x ∷ xs) (misc_finding id k x.category n ∷ []) h
          (misc-P id k x.category n, tt))

  capped-All :
      (b : Bool) (id : ℕ) (k : Option ℤ) (ordered kept : List (Finding W)) (n : ℕ)
      {out : List (Finding W)}
      → All P ordered
      → All P kept
      → (if b
          then some ordered
          else elim (misc_of id k kept n) [ none ↦ none | some misc ↦ some (kept ++ misc ∷ []) ])
        ≡ some out
      → All P out
  capped-All true id k ordered kept n h h' e = All-some e h
  capped-All false id k ordered kept n h h' e = with_misc-All id k kept n h' e

  module _ (uuid4 : ℕ → ℕ) (max : ℕ) where
    cap_group-All :
        (i : ℕ) (k : Option ℤ) (group : List (Finding W)) {out : List (Finding W)}
        → All P group
        → cap_group uuid4 max i k group ≡ some out
        → All P out
    unfolding cap_group
    cap_group-All i k group h e =
        let ordered = sort_by by_severity group in
        let all = All-sort_by by_severity P group h in
        capped-All (leb (length ordered) max) (uuid4 i) k ordered (take max ordered)
          (length ordered - max) all (All-take P max ordered all) e

    extend-All :
        (a b : Option (List (Finding W))) {out : List (Finding W)}
        → ((xs : List (Finding W)) → a ≡ some xs → All P xs)
        → ((ys : List (Finding W)) → b ≡ some ys → All P ys)
        → extend uuid4 max a b ≡ some out
        → All P out
    unfolding extend
    extend-All none b ha hb e = cc
    extend-All (some xs) none ha hb e = cc
    extend-All (some xs) (some ys) ha hb e =
        All-some e (All-append P xs ys (ha xs refl) (hb ys refl))

    cap_groups-All :
        (i : ℕ) (gs : Groups W) {out : List (Finding W)}
        → Grouped (λ k. Unit {0}) (λ k. P) gs
        → cap_groups uuid4 max i gs ≡ some out
        → All P out
    unfolding cap_groups
    cap_groups-All i [] h e = All-some e tt
    cap_groups-All i ((k, group) ∷ gs) (h, hs) e =
        extend-All (cap_group uuid4 max i k group) (cap_groups uuid4 max (i + 1) gs)
          (λ xs e'. cap_group-All i k group h.1 e') (λ ys e'. cap_groups-All (i + 1) gs hs e') e

    in_groups : (fs : List (Finding W)) → All P fs → All (λ (f : Finding W). Unit {0} × P f) fs
    in_groups [] h = tt
    in_groups (f ∷ fs) (h, hs) = ((tt, h), in_groups fs hs)

    cap_per_slide-All :
        (fs : List (Finding W)) {out : List (Finding W)}
        → All P fs
        → cap_per_slide uuid4 max fs ≡ some out
        → All P out
    unfolding cap_per_slide
    cap_per_slide-All fs h e =
        cap_groups-All 0 (group_from [] fs)
          (group_from-Grouped (λ k. Unit {0}) (λ k. P) fs [] (in_groups fs h) tt) e

module _ {W : Type 0} ⦃d : Double W⦄ {S E : Type 0} (prompt_body : String → Exec S E String)
    (same_issue : String → String → Exec S E Bool) (t : W) (uuid4 : ℕ → ℕ) (max : ℕ)
    (index_error : E) (P : Finding W → Type 0)
    (misc-P : (id : ℕ) (k : Option ℤ) (c : Category) (n : ℕ) → P (misc_finding id k c n)) where
  sorted-All :
      (capped : Option (List (Finding W))) (s s' : S) {out : List (Finding W)}
      → ((xs : List (Finding W)) → capped ≡ some xs → All P xs)
      → (or_raise prompt_body same_issue t uuid4 max index_error capped
            >>= (λ xs. pure (sort_by by_severity_slide xs)))
          s
        ≡ (ok out, s')
      → All P out
  unfolding or_raise
  sorted-All none s s' h e = cc
  sorted-All (some xs) s s' {out} h e =
      let same : sort_by by_severity_slide xs ≡ out = cc in
      subst (All P) same (All-sort_by by_severity_slide P xs (h xs refl))

  -- What all the findings satisfy, and every note on what was left out, the aggregated ones satisfy.
  pub run-All :
      (findings : List (Finding W)) {out : List (Finding W)} (s : S) {s' : S}
      → All P findings
      → run prompt_body same_issue t uuid4 max index_error findings s ≡ (ok out, s')
      → All P out
  unfolding run cap_and_sort
  run-All findings {out} s {s'} h e =
      let (deduped, s1, e', rest) =
        >>=-eq-ok (dedup prompt_body same_issue t findings)
          (cap_and_sort prompt_body same_issue t uuid4 max index_error) s e in
      let (sub, _) = dedup_sound prompt_body same_issue t findings s e' in
      let kept = All-Sublist P misc-P deduped findings sub h in
      sorted-All (cap_per_slide uuid4 max deduped) s1 s'
        (λ xs e''. cap_per_slide-All P misc-P uuid4 max deduped kept e'') rest
