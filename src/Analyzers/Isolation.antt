-- ===== src/Analyzers/Isolation.antt =====
-- A failed call of the model in the speech checks (backend/core/analyzers/crossmodal.py): isolated in
-- `analyze_rehearsal`.
use slidelens.Prelude.{ℕ, ◌≡◌, refl, ◌∙◌, ap, String, List, [], ◌∷◌, ◌++◌, map, Option, none}
use slidelens.Prelude.Exec.{Exec, Result, ok, err, handle, gather, gather_all, first_error, catch}
use slidelens.Double.{Double}
use slidelens.Services.{Error}
use slidelens.Entities.{SlideTiming}
use slidelens.Analyzers.Responses.{TranscriptSegment, Models}
use slidelens.Analyzers.Delivery.{Unicode, compute_delivery, delivery_findings}
use slidelens.Analyzers.Pacing.{windows_from_slide_timings}
use slidelens.Analyzers.Speech.{Fresh, checks, present, pacing_of, analyze_rehearsal}

-- What a check found; one that raised found nothing.
abbrev pub found_or_none : {A : Type 0} → Result Error (Option A) → Option A
found_or_none (ok found) = found
found_or_none (err e) = none

module _ {S A : Type 0} where
  abbrev quiet : Exec S Error (Option A) → Exec S Error (Option A)
  quiet check = catch check (λ e s. (ok none, s))

  handle_quiet :
      (r : Result Error (Option A)) (s : S)
      → handle r (λ e t. (ok none, t)) s ≡ (ok (found_or_none r), s)
  handle_quiet (ok found) s = refl
  handle_quiet (err e) s = refl

  -- With every call made quiet, all calls are still made, and they all succeed.
  gather_all-quiet :
      (calls : List (Exec S Error (Option A))) (s : S)
      → (first_error (gather_all (map quiet calls) s).0
          ≡ ok (map found_or_none (gather_all calls s).0))
        × ((gather_all (map quiet calls) s).1 ≡ (gather_all calls s).1)
  unfolding gather_all first_error
  gather_all-quiet [] s = (refl, refl)
  gather_all-quiet (call ∷ calls) s =
      let (results, after) = gather_all-quiet calls (call s).1 in
      (
        rw (handle_quiet (call s).0 (call s).1) (rw results refl),
        ap (λ t. (gather_all (map quiet calls) t).1)
              (ap (λ p. p.1) (handle_quiet (call s).0 (call s).1))
            ∙ after,
      )

module _ {W : Type 0} ⦃d : Double W⦄ (fresh : Fresh) (shown : ℕ → W → String) {S : Type 0}
    (models : Models S W) (u : Unicode) where
  -- A rehearsal's analysis never raises, whatever the model's calls do. Every slide's check is made,
  -- each from where the one before it left the state; a check that raises finds nothing, and takes
  -- away neither the delivery metrics, nor their findings and the pacing's, nor the other slides'.
  pub analyze_rehearsal_lem :
      (segments : List (TranscriptSegment W)) (timings : List (SlideTiming W))
      (slide_texts : List (ℕ × List ℕ)) (s : S)
      → let windows = windows_from_slide_timings timings in
        let metrics = compute_delivery u segments in
        let made = gather_all (checks fresh models segments slide_texts windows) s in
        analyze_rehearsal fresh shown models u segments timings slide_texts s ≡ (
          ok (
            metrics,
            (delivery_findings shown fresh.delivery_id metrics ++ pacing_of fresh shown windows)
                ++ present (map found_or_none made.0),
          ),
          made.1,
        )
  unfolding analyze_rehearsal gather
  analyze_rehearsal_lem segments timings slide_texts s =
      let windows = windows_from_slide_timings timings in
      let (results, after) =
        gather_all-quiet (checks fresh models segments slide_texts windows) s in
      rw (results, after) refl
