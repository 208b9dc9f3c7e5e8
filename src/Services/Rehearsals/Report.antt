-- ===== src/Services/Rehearsals/Report.antt =====
-- The report of a rehearsal (`_delta` and `get_rehearsal_report` of
-- backend/app/services/rehearsal_service.py).
use slidelens.Prelude.{
  ℕ, ◌+◌, ◌≡◌, ◌≤◌, ◌<◌, refl, sym, String, Bool, true, false, ◌&&◌, Option, none, some, List, [],
  ◌∷◌, map, length, ltb, leb, ◌==◌, if◌then◌else◌, All, arith, Bool-cases, inl, inr,
}
use mathlib.Core.Path.{subst}
use mathlib.Core.List.{Memᴰ}
use slidelens.Prelude.Int.{ℤ, sub_ℕ}
use slidelens.Prelude.Exec.{ok, err, ◌>>=◌}
use slidelens.Prelude.Sort.{sort_by}
use slidelens.Double.{Double, ◌⊖◌}
use slidelens.Schemas.{Finding}
use slidelens.Entities.{
  Rehearsal, SlideTiming, DeliveryMetrics, ReviewStatus, done, same_status, Db,
}
use slidelens.Services.{Action, rehearsal_not_ready}
use slidelens.Services.Rehearsals.{get_rehearsal}
use slidelens.Analyzers.Pacing.{Pacing, classify_slide_pacing}

pub record Delta (W : Type 0) : Type 0 where
  pub previous_attempt_num : ℕ
  pub words_per_minute_delta : W
  pub filler_words_delta : ℤ
  pub long_pauses_delta : ℤ

pub record TimingMapEntry (W : Type 0) : Type 0 where
  pub slide_num : ℕ
  pub start : W
  pub end : W
  pub duration : W
  pub pacing : Option Pacing

pub record RehearsalReport (W : Type 0) : Type 0 where
  pub rehearsal_id : ℕ
  pub review_id : ℕ
  pub attempt_num : ℕ
  pub status : ReviewStatus
  pub fail_reason : Option String
  pub delivery : Option (DeliveryMetrics W)
  pub timing_map : List (TimingMapEntry W)
  pub findings : List (Finding W)
  pub delta : Option (Delta W)

total : {K : Type 0} → List (K × ℕ) → ℕ
total [] = 0
total ((_, n) ∷ counts) = n + total counts

module _ {W : Type 0} where
  -- The done attempt with the greatest number below `n`, at the same review.
  abbrev pub is_previous : ℕ → ℕ → Rehearsal W → Bool
  is_previous review_id n r =
      r.review_id == review_id && (ltb r.attempt_num n && same_status r.status done)

  later_of : Rehearsal W → Option (Rehearsal W) → Rehearsal W
  later_of r none = r
  later_of r (some q) = if leb q.attempt_num r.attempt_num then r else q

  pub previous_of : ℕ → ℕ → List (Rehearsal W) → Option (Rehearsal W)
  unfolding later_of
  previous_of review_id n [] = none
  previous_of review_id n (r ∷ rows) =
      let rest = previous_of review_id n rows in
      if is_previous review_id n r then some (later_of r rest) else rest

module _ {W : Type 0} ⦃d : Double W⦄ where
  delta_of : ℕ → Option (DeliveryMetrics W) → Option (DeliveryMetrics W) → Option (Delta W)
  unfolding total
  delta_of n (some cur) (some prev) = some (record {
    previous_attempt_num = n;
    words_per_minute_delta = cur.words_per_minute ⊖ prev.words_per_minute;
    filler_words_delta = sub_ℕ (total cur.filler_words) (total prev.filler_words);
    long_pauses_delta = sub_ℕ (length cur.long_pauses) (length prev.long_pauses);
  })
  delta_of n _ _ = none

  delta_to : Rehearsal W → Option (Rehearsal W) → Option (Delta W)
  unfolding delta_of
  delta_to current none = none
  delta_to current (some previous) =
      delta_of previous.attempt_num current.delivery_metrics previous.delivery_metrics

  timing_entry : SlideTiming W → TimingMapEntry W
  timing_entry t = record {
    slide_num = t.slide_num;
    start = t.start;
    end = t.end;
    duration = t.end ⊖ t.start;
    pacing = classify_slide_pacing (t.end ⊖ t.start);
  }

  pub report_of_rehearsal : Db W → Rehearsal W → RehearsalReport W
  unfolding delta_to timing_entry
  report_of_rehearsal db r = record {
    rehearsal_id = r.id;
    review_id = r.review_id;
    attempt_num = r.attempt_num;
    status = r.status;
    fail_reason = r.fail_reason;
    delivery = r.delivery_metrics;
    timing_map =
        sort_by (λ (a b : TimingMapEntry W). leb a.slide_num b.slide_num)
          (map timing_entry r.slide_timings);
    findings = r.findings;
    delta =
        if ltb 1 r.attempt_num
        then delta_to r (previous_of r.review_id r.attempt_num db.rehearsals)
        else none;
  }

  rehearsal_if_done : Rehearsal W → Action W (RehearsalReport W)
  rehearsal_if_done r s = (
    if same_status r.status done then ok (report_of_rehearsal s.db r) else err rehearsal_not_ready,
    s,
  )

  pub get_rehearsal_report : ℕ → ℕ → Action W (RehearsalReport W)
  unfolding rehearsal_if_done
  get_rehearsal_report user_id rehearsal_id =
      get_rehearsal user_id rehearsal_id >>= rehearsal_if_done

same_status-done : (status : ReviewStatus) → same_status status done ≡ true → status ≡ done
same_status-done ReviewStatus.queued h = cc
same_status-done ReviewStatus.processing h = cc
same_status-done ReviewStatus.done h = refl
same_status-done ReviewStatus.failed h = cc

module _ {W : Type 0} where
  abbrev Chosen : ℕ → ℕ → List (Rehearsal W) → Option (Rehearsal W) → Type 0
  Chosen review_id n rows none = All (λ r. is_previous review_id n r ≡ false) rows
  Chosen review_id n rows (some p) =
      Memᴰ p rows
      × (is_previous review_id n p ≡ true)
      × All (λ r. is_previous review_id n r ≡ true → r.attempt_num ≤ p.attempt_num) rows

  after_other :
      (review_id n : ℕ) (r : Rehearsal W) (rows : List (Rehearsal W)) (o : Option (Rehearsal W))
      → is_previous review_id n r ≡ false
      → Chosen review_id n rows o
      → Chosen review_id n (r ∷ rows) o
  after_other review_id n r rows none other h = (other, h)
  after_other review_id n r rows (some p) other (there, mine, h) =
      (Memᴰ.tail there, mine, ((λ is. absurd (ground (arith, other, is))), h))

  All-none_before :
      (review_id n bound : ℕ) (rows : List (Rehearsal W))
      → All (λ r. is_previous review_id n r ≡ false) rows
      → All (λ r. is_previous review_id n r ≡ true → r.attempt_num ≤ bound) rows
  All-none_before review_id n bound [] h = tt
  All-none_before review_id n bound (r ∷ rows) (other, h) =
      ((λ is. absurd (ground (arith, other, is))), All-none_before review_id n bound rows h)

  All-raise :
      (review_id n a b : ℕ) (rows : List (Rehearsal W))
      → a ≤ b
      → All (λ r. is_previous review_id n r ≡ true → r.attempt_num ≤ a) rows
      → All (λ r. is_previous review_id n r ≡ true → r.attempt_num ≤ b) rows
  All-raise review_id n a b [] le h = tt
  All-raise review_id n a b (r ∷ rows) le (first, h) =
      ((λ is. let bound = first is in omega arith), All-raise review_id n a b rows le h)

  after_mine :
      (review_id n : ℕ) (r : Rehearsal W) (rows : List (Rehearsal W)) (o : Option (Rehearsal W))
      → is_previous review_id n r ≡ true
      → Chosen review_id n rows o
      → Chosen review_id n (r ∷ rows) (some (later_of r o))
  unfolding later_of
  after_mine review_id n r rows none mine h =
      (Memᴰ.head refl, mine, ((λ _. omega arith), All-none_before review_id n r.attempt_num rows h))
  after_mine review_id n r rows (some q) mine (there, is, h) =
      elim (Bool-cases (leb q.attempt_num r.attempt_num)) [
        | inl e ↦
            let same : later_of r (some q) ≡ r = rw e refl in
            subst (λ p. Chosen review_id n (r ∷ rows) (some p)) (sym same)
              (
                Memᴰ.head refl,
                mine,
                (
                  (λ _. omega arith),
                  All-raise review_id n q.attempt_num r.attempt_num rows (ground arith) h,
                ),
              )
        | inr e ↦
            let same : later_of r (some q) ≡ q = rw e refl in
            subst (λ p. Chosen review_id n (r ∷ rows) (some p)) (sym same)
              (Memᴰ.tail there, is, ((λ _. ground arith), h))
      ]

  previous_of-Chosen :
      (review_id n : ℕ) (rows : List (Rehearsal W))
      → Chosen review_id n rows (previous_of review_id n rows)
  unfolding previous_of
  previous_of-Chosen review_id n [] = tt
  previous_of-Chosen review_id n (r ∷ rows) =
      let rest = previous_of-Chosen review_id n rows in
      elim (Bool-cases (is_previous review_id n r)) [
        | inl e ↦ rw e (after_mine review_id n r rows _ e rest)
        | inr e ↦ rw e (after_other review_id n r rows _ e rest)
      ]

  -- A done attempt at the review with a smaller number.
  abbrev pub IsEarlier : ℕ → ℕ → Rehearsal W → Type 0
  IsEarlier review_id n r = (r.review_id ≡ review_id) × (r.attempt_num < n) × (r.status ≡ done)

  IsEarlier-is_previous :
      (review_id n : ℕ) (r : Rehearsal W)
      → IsEarlier review_id n r
      → is_previous review_id n r ≡ true
  IsEarlier-is_previous review_id n r (mine, earlier, ended) = rw (mine, ended) (ground arith)

  is_previous-IsEarlier :
      (review_id n : ℕ) (r : Rehearsal W)
      → is_previous review_id n r ≡ true
      → IsEarlier review_id n r
  is_previous-IsEarlier review_id n r h =
      let ended : same_status r.status done ≡ true = ground arith in
      (ground arith, ground arith, same_status-done r.status ended)

  -- What the report compares an attempt with.
  abbrev pub IsPrevious : ℕ → ℕ → List (Rehearsal W) → Option (Rehearsal W) → Type 0
  IsPrevious review_id n rows none = All (λ r. IsEarlier review_id n r → ⊥) rows
  IsPrevious review_id n rows (some p) =
      Memᴰ p rows
      × IsEarlier review_id n p
      × All (λ r. IsEarlier review_id n r → r.attempt_num ≤ p.attempt_num) rows

  none-IsEarlier :
      (review_id n : ℕ) (rows : List (Rehearsal W))
      → All (λ r. is_previous review_id n r ≡ false) rows
      → All (λ r. IsEarlier review_id n r → ⊥) rows
  none-IsEarlier review_id n [] h = tt
  none-IsEarlier review_id n (r ∷ rows) (other, h) = (
    (λ earlier.
        let is = IsEarlier-is_previous review_id n r earlier in absurd (ground (arith, is))),
    none-IsEarlier review_id n rows h,
  )

  none_greater :
      (review_id n bound : ℕ) (rows : List (Rehearsal W))
      → All (λ r. is_previous review_id n r ≡ true → r.attempt_num ≤ bound) rows
      → All (λ r. IsEarlier review_id n r → r.attempt_num ≤ bound) rows
  none_greater review_id n bound [] h = tt
  none_greater review_id n bound (r ∷ rows) (le, h) = (
    (λ earlier. le (IsEarlier-is_previous review_id n r earlier)),
    none_greater review_id n bound rows h,
  )

  Chosen-IsPrevious :
      (review_id n : ℕ) (rows : List (Rehearsal W)) (o : Option (Rehearsal W))
      → Chosen review_id n rows o
      → IsPrevious review_id n rows o
  Chosen-IsPrevious review_id n rows none h = none-IsEarlier review_id n rows h
  Chosen-IsPrevious review_id n rows (some p) (there, is, h) =
      (there, is_previous-IsEarlier review_id n p is, none_greater review_id n p.attempt_num rows h)

  -- A report compares an attempt with the last done attempt before it at the same review. If the report
  -- finds a row, it is one of the database's rows, at that review, with a smaller number and done, and
  -- no such row has a greater number; if it finds none, there is no such row.
  pub previous_of-IsPrevious :
      (review_id n : ℕ) (rows : List (Rehearsal W))
      → IsPrevious review_id n rows (previous_of review_id n rows)
  previous_of-IsPrevious review_id n rows =
      Chosen-IsPrevious review_id n rows (previous_of review_id n rows)
        (previous_of-Chosen review_id n rows)
