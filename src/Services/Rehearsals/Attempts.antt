-- ===== src/Services/Rehearsals/Attempts.antt =====
-- The numbers of the attempts.
use slidelens.Prelude.{
  ℕ, ◌+◌, ◌≡◌, ◌<◌, refl, ap, ◌∙◌, Bool, true, ◌&&◌, Option, none, some, List, [], ◌∷◌, All, arith,
  ◌==◌, leb, if◌then◌else◌, Bool-cases, inl, inr,
}
use slidelens.Prelude.Exec.{Result, ok, err, continue}
use slidelens.Entities.{Review, Rehearsal, SlideTiming, FileName}
use slidelens.Services.{World, Error}
use slidelens.Services.Reviews.{Upload}
use slidelens.Services.Rehearsals.{
  owned_review, get_owned_review, max_attempt, check_recording, new_rehearsal, enqueue_and_commit,
  store_recording, add_rehearsal, checked_rehearsal, create_rehearsal,
}

max_bound :
    (b : Bool) (rest num n : ℕ)
    → (if b && leb rest num then num else rest) < n
    → (b ≡ true → num < n) × (rest < n)
max_bound b rest num n h = (ground arith, ground arith)

module _ {W : Type 0} where
  -- Every attempt at the same review has a smaller number.
  abbrev pub IsLatest : Rehearsal W → List (Rehearsal W) → Type 0
  IsLatest r rows =
      All (λ (q : Rehearsal W). (q.review_id == r.review_id) ≡ true → q.attempt_num < r.attempt_num)
        rows

  max_attempt_bound :
      (review_id n : ℕ) (rows : List (Rehearsal W))
      → max_attempt review_id rows < n
      → All (λ (q : Rehearsal W). (q.review_id == review_id) ≡ true → q.attempt_num < n) rows
  unfolding max_attempt
  max_attempt_bound review_id n [] h = tt
  max_attempt_bound review_id n (q ∷ rows) h =
      let (here, rest) =
        max_bound (q.review_id == review_id) (max_attempt review_id rows) q.attempt_num n h in
      (here, max_attempt_bound review_id n rows rest)

  owned_review_lem :
      (user_id : ℕ) (o : Option (Review W)) (s : World W) → (owned_review user_id o s).1 ≡ s
  unfolding owned_review
  owned_review_lem user_id none s = refl
  owned_review_lem user_id (some review) s = refl

  check_recording_lem :
      (review : Review W) (recording : Upload) (slide_timings : List (SlideTiming W)) (s : World W)
      → (check_recording review recording slide_timings s).1 ≡ s
  unfolding check_recording
  check_recording_lem review recording slide_timings s = ground arith

  -- A rehearsal that was created is the latest of `rows`.
  abbrev pub Numbered : List (Rehearsal W) → Result Error (Rehearsal W) × World W → Type 0
  Numbered rows (err e, t) = Unit {0}
  Numbered rows (ok r, t) = IsLatest r rows

  module _ (root : List FileName) (save_fails enqueue_fails : Bool)
      (rows : List (Rehearsal W)) where
    Numbered-enqueue_and_commit :
        (rehearsal : Rehearsal W) (p : Result Error FileName × World W)
        → IsLatest rehearsal rows
        → Numbered rows
            (continue p.0 (enqueue_and_commit root save_fails enqueue_fails rehearsal) p.1)
    unfolding enqueue_and_commit
    Numbered-enqueue_and_commit rehearsal (err e, t) h = tt
    Numbered-enqueue_and_commit rehearsal (ok path, t) h = elim (Bool-cases enqueue_fails) [
      | inl e ↦ rw e tt
      | inr e ↦ rw e h
    ]

    Numbered-add_rehearsal :
        (review : Review W) (recording : Upload) (slide_timings : List (SlideTiming W))
        (s : World W)
        → s.db.rehearsals ≡ rows
        → Numbered rows
            (add_rehearsal root save_fails enqueue_fails review recording slide_timings s)
    unfolding add_rehearsal store_recording new_rehearsal
    Numbered-add_rehearsal review recording slide_timings s same =
        Numbered-enqueue_and_commit
          (new_rehearsal s.next_id review.id slide_timings
            (max_attempt review.id s.db.rehearsals + 1))
          _
          (max_attempt_bound review.id (max_attempt review.id s.db.rehearsals + 1) rows
            (rw same (omega arith)))

    Numbered-check_recording :
        (review : Review W) (recording : Upload) (slide_timings : List (SlideTiming W))
        (p : Result Error (Unit {0}) × World W)
        → p.1.db.rehearsals ≡ rows
        → Numbered rows (
            continue p.0
              (λ _. add_rehearsal root save_fails enqueue_fails review recording slide_timings)
              p.1)
    Numbered-check_recording review recording slide_timings (err e, t) same = tt
    Numbered-check_recording review recording slide_timings (ok _, t) same =
        Numbered-add_rehearsal review recording slide_timings t same

    Numbered-checked_rehearsal :
        (recording : Upload) (slide_timings : List (SlideTiming W))
        (p : Result Error (Review W) × World W)
        → p.1.db.rehearsals ≡ rows
        → Numbered rows (
            continue p.0
              (checked_rehearsal root save_fails enqueue_fails recording slide_timings)
              p.1)
    unfolding checked_rehearsal
    Numbered-checked_rehearsal recording slide_timings (err e, t) same = tt
    Numbered-checked_rehearsal recording slide_timings (ok review, t) same =
        Numbered-check_recording review recording slide_timings
          (check_recording review recording slide_timings t)
          (ap (λ (s : World W). s.db.rehearsals)
              (check_recording_lem review recording slide_timings t)
            ∙ same)

  -- A rehearsal that is created has a greater number than every attempt at the same review that the
  -- session sees.
  pub create_rehearsal-Numbered :
      (root : List FileName) (save_fails enqueue_fails : Bool) (user_id review_id : ℕ)
      (recording : Upload) (slide_timings : List (SlideTiming W)) (s : World W)
      → Numbered s.db.rehearsals (
          create_rehearsal root save_fails enqueue_fails user_id review_id recording slide_timings
            s)
  unfolding create_rehearsal get_owned_review
  create_rehearsal-Numbered root save_fails enqueue_fails user_id review_id recording slide_timings
        s =
      Numbered-checked_rehearsal root save_fails enqueue_fails s.db.rehearsals recording
        slide_timings (get_owned_review user_id review_id s)
        (ap (λ (s : World W). s.db.rehearsals) (owned_review_lem user_id _ s))
