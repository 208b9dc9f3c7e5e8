-- ===== src/Analyzers/SpeechStep.antt =====
-- What the step of the speech analyzer leaves in the context (backend/core/analyzers/crossmodal.py).
use slidelens.Prelude.{
  ℕ, ◌≡◌, ◌⊎◌, refl, ◌∙◌, ap, String, List, [], ◌∷◌, ◌++◌, map, Option, some, Any, inl, inr,
}
use slidelens.Prelude.Exec.{Result, ok, err, continue, gather, gather_all, first_error}
use slidelens.Double.{Double}
use slidelens.Schemas.{Finding}
use slidelens.Services.{Error}
use slidelens.Entities.{DeliveryMetrics}
use slidelens.Analyzers.{Context, Step, run_step, finish, add_findings}
use slidelens.Analyzers.Responses.{TranscriptSegment, LabelConsistencyResponse, Models}
use slidelens.Analyzers.Delivery.{Unicode, compute_delivery, delivery_findings}
use slidelens.Prelude.Sort.{sort_by}
use slidelens.Entities.{FileName}
use slidelens.Prelude.{leb}
use slidelens.Analyzers.Windows.{align_slide_windows}
use slidelens.Analyzers.Speech.{
  Fresh, ask_mismatch, check_speech_mismatch_text, if_contradicts, checks, present, pacing_of,
  analyze_windows, analyze_segments, review_result,
}

-- A check that raised, or the values of all.
abbrev pub AllChecked : {A : Type 0} → List (Result Error A) → Result Error (List A) → Type 0
AllChecked results (ok values) = map ok values ≡ results
AllChecked results (err e) = Any (λ r. r ≡ err e) results

first_error-AllChecked :
    {A : Type 0} → (results : List (Result Error A)) → AllChecked results (first_error results)
unfolding first_error
first_error-AllChecked [] = refl
first_error-AllChecked (err e ∷ results) = inl refl
first_error-AllChecked {A} (ok a ∷ results) =
    after (first_error results) (first_error-AllChecked results)
  where
    after :
        (r : Result Error (List A))
        → AllChecked results r
        → AllChecked (ok a ∷ results) (elim r [ ok as' ↦ ok (a ∷ as') | err e ↦ err e ])
    after (ok values) h = ap (λ rest. ok a ∷ rest) h
    after (err e) h = inr h

module _ {W : Type 0} where
  -- What the step leaves: the metrics, and what it found, or nothing if one of the checks raised.
  abbrev pub SpeechEnds :
      DeliveryMetrics W
      → List (Finding W)
      → List (Result Error (Option (Finding W)))
      → List (Finding W) × Context W
      → Type 0
  SpeechEnds metrics before made (findings, ctx) =
      (ctx.delivery ≡ some metrics)
      × (((found : List (Option (Finding W))) × (map ok found ≡ made)
            × (findings ≡ before ++ present found))
          ⊎ ((e : Error) × Any (λ r. r ≡ err e) made × (findings ≡ [])))

  finish-SpeechEnds :
      (name : String) (metrics : DeliveryMetrics W) (before : List (Finding W))
      (made : List (Result Error (Option (Finding W))))
      (r : Result Error (List (Option (Finding W)))) (ctx : Context W)
      → ctx.delivery ≡ some metrics
      → AllChecked made r
      → SpeechEnds metrics before made (finish name (continue r (review_result before) ctx))
  unfolding finish add_findings
  finish-SpeechEnds name metrics before made (ok found) ctx e h = (e, inl (found, h, refl))
  finish-SpeechEnds name metrics before made (err x) ctx e h = (e, inr (x, h, refl))

module _ {W : Type 0} ⦃d : Double W⦄ (fresh : Fresh) (models : Models (Context W) W) where
  -- The client's call leaves the delivery metrics of the context alone.
  abbrev pub LeavesDelivery : Type 0
  LeavesDelivery =
      (system : String) (prompt : List ℕ) (ctx : Context W)
      → (models.labels system prompt ctx).1.delivery ≡ ctx.delivery

  module _ (leaves : LeavesDelivery) where
    continue_delivery :
        (slide_num : ℕ) (r : Result Error LabelConsistencyResponse) (ctx : Context W)
        → (continue r (if_contradicts {W = W} fresh slide_num) ctx).1.delivery ≡ ctx.delivery
    continue_delivery slide_num (ok response) ctx = refl
    continue_delivery slide_num (err e) ctx = refl

    ask_mismatch-delivery :
        (slide_num : ℕ) (slide_text stripped : List ℕ) (segments : List (TranscriptSegment W))
        (ctx : Context W)
        → (ask_mismatch fresh models slide_num slide_text stripped segments ctx).1.delivery
          ≡ ctx.delivery
    unfolding ask_mismatch
    ask_mismatch-delivery n text stripped [] ctx = refl
    ask_mismatch-delivery n text [] (seg ∷ segments) ctx = refl
    ask_mismatch-delivery n text (c ∷ stripped) (seg ∷ segments) ctx =
        continue_delivery n _ _ ∙ leaves _ _ ctx

    checks-delivery :
        (segments : List (TranscriptSegment W)) (slide_texts : List (ℕ × List ℕ))
        (windows : List (ℕ × (W × W))) (ctx : Context W)
        → (gather_all (checks fresh models segments slide_texts windows) ctx).1.delivery
          ≡ ctx.delivery
    unfolding checks gather_all check_speech_mismatch_text
    checks-delivery segments slide_texts [] ctx = refl
    checks-delivery segments slide_texts ((n, window) ∷ windows) ctx =
        checks-delivery segments slide_texts windows _ ∙ ask_mismatch-delivery n _ _ _ ctx

  module _ (shown : ℕ → W → String) (u : Unicode) where
    abbrev pub speech_step : String → List (TranscriptSegment W) → Step W
    speech_step name segments = record {
      name = name;
      analyze = analyze_segments fresh shown models u segments;
    }

  -- For a client whose calls leave the metrics alone: after the step on a transcript that is not
  -- empty, the context has its delivery metrics. If every check of a slide succeeded, the step found
  -- the delivery's findings, the pacing's and the mismatches, in this order; if one raised, the step
  -- found nothing, and the metrics stay without their findings.
  pub speech_step-SpeechEnds :
      (shown : ℕ → W → String) (u : Unicode) (name : String) (s : TranscriptSegment W)
      (segments : List (TranscriptSegment W)) (ctx : Context W)
      → LeavesDelivery
      → let metrics = compute_delivery u (s ∷ segments) in
        let windows =
          align_slide_windows u
            (s ∷ segments)
            (sort_by leb (map (λ (p : ℕ × FileName). p.0) ctx.slide_pngs))
            ctx.slide_texts in
        SpeechEnds metrics
          (delivery_findings shown fresh.delivery_id metrics ++ pacing_of fresh shown windows)
          (gather_all
            (checks fresh models (s ∷ segments) ctx.slide_texts windows)
            (record ctx { delivery = some metrics })).0
          (run_step (speech_step shown u name (s ∷ segments)) ctx)
  unfolding run_step analyze_segments analyze_windows gather
  speech_step-SpeechEnds shown u name s segments ctx leaves =
      let metrics = compute_delivery u (s ∷ segments) in
      let windows =
        align_slide_windows u (s ∷ segments)
          (sort_by leb (map (λ (p : ℕ × FileName). p.0) ctx.slide_pngs)) ctx.slide_texts in
      let after = record ctx { delivery = some metrics } in
      finish-SpeechEnds name metrics _ _ _ _
        (checks-delivery leaves (s ∷ segments) ctx.slide_texts windows after)
        (first_error-AllChecked
          (gather_all (checks fresh models (s ∷ segments) ctx.slide_texts windows) after).0)
