-- ===== src/Analyzers/Speech.antt =====
-- Speech against slides (backend/core/analyzers/crossmodal.py): the analyzer of a review, and
-- `analyze_rehearsal`. `sort` is `sorted` of slide numbers.
use slidelens.Prelude.{
  ℕ, String, Bool, true, ◌&&◌, Option, none, some, List, [], ◌∷◌, ◌++◌, filter, map, leb,
}
use slidelens.Prelude.Int.{pos}
use slidelens.Prelude.Exec.{Exec, Result, ok, err, gather, ◌>>=◌, catch}
use slidelens.Prelude.Text.{codes, strip}
use slidelens.Prelude.Sort.{sort_by}
use slidelens.Double.{Double}
use slidelens.Schemas.{Finding, speech_mismatch}
use slidelens.Entities.{FileName, DeliveryMetrics, SlideTiming}
use slidelens.Services.{Error}
use slidelens.Analyzers.{Context}
use slidelens.Analyzers.Responses.{
  SlideFindingIn, LabelConsistencyResponse, TranscriptSegment, Models, finding_from,
}
use slidelens.Analyzers.Delivery.{Unicode, join_spaces, compute_delivery, delivery_findings}
use slidelens.Analyzers.Pacing.{windows_from_slide_timings, pacing_findings}
use slidelens.Analyzers.Windows.{align_slide_windows, text_of_slide}

-- How the deck's analysis draws identifiers: for the delivery, for a slide's pacing and its speech.
pub record Fresh : Type 0 where
  pub delivery_id : ℕ → ℕ
  pub pacing_id : ℕ → ℕ
  pub speech_id : ℕ → ℕ

-- `f for f in findings if f is not None`
abbrev pub present : {A : Type 0} → List (Option A) → List A
present [] = []
present (none ∷ found) = present found
present (some f ∷ found) = f ∷ present found

abbrev pub review_result :
    {W : Type 0}
    → List (Finding W)
    → List (Option (Finding W))
    → Exec (Context W) Error (List (Finding W))
review_result findings found ctx = (ok (findings ++ present found), ctx)

module _ {W : Type 0} ⦃d : Double W⦄ (fresh : Fresh) where
  -- A mismatch is the slide's, and its category is the speech's.
  unfoldable pub mismatch : Result Error (Finding W) → Result Error (Option (Finding W))
  mismatch (err e) = err e
  mismatch (ok f) = ok (some (record f { category = speech_mismatch }))

  unfoldable pub contradiction :
      ℕ → Bool → Option SlideFindingIn → Result Error (Option (Finding W))
  unfolding mismatch
  contradiction slide_num true (some item) =
      mismatch (finding_from (fresh.speech_id slide_num) (some (pos slide_num)) item)
  contradiction slide_num _ _ = ok none

  abbrev pub if_contradicts :
      {S : Type 0} → ℕ → LabelConsistencyResponse → Exec S Error (Option (Finding W))
  if_contradicts slide_num response s =
      (contradiction slide_num response.contradicts response.finding, s)

  -- `start <= seg.start < end`
  abbrev pub matched : W × W → List (TranscriptSegment W) → List (TranscriptSegment W)
  matched (start, end) segments =
      filter (λ (s : TranscriptSegment W). d.le start s.start && d.lt s.start end) segments

  unfoldable pub speech_prompt : List ℕ → List (TranscriptSegment W) → List ℕ
  speech_prompt slide_text segments =
      codes "Текст слайда:\n"
      ++ slide_text
      ++ codes "\n\nРечь в этот момент:\n"
      ++ join_spaces (map (λ (s : TranscriptSegment W). s.text) segments)

  module _ {S : Type 0} (models : Models S W) where
    unfoldable pub ask_mismatch :
        ℕ → List ℕ → List ℕ → List (TranscriptSegment W) → Exec S Error (Option (Finding W))
    unfolding speech_prompt contradiction
    ask_mismatch slide_num slide_text stripped [] s = (ok none, s)
    ask_mismatch slide_num slide_text [] (seg ∷ segments) s = (ok none, s)
    ask_mismatch slide_num slide_text (c ∷ stripped) (seg ∷ segments) s =
        (models.labels "crossmodal_check" (speech_prompt slide_text (seg ∷ segments))
            >>= if_contradicts slide_num)
          s

    -- `_check_speech_mismatch_text`
    unfoldable pub check_speech_mismatch_text :
        ℕ → List ℕ → List (TranscriptSegment W) → W × W → Exec S Error (Option (Finding W))
    unfolding ask_mismatch
    check_speech_mismatch_text slide_num slide_text segments window =
        ask_mismatch slide_num slide_text (strip slide_text) (matched window segments)

    -- One check of the speech for each window.
    unfoldable pub checks :
        List (TranscriptSegment W)
        → List (ℕ × List ℕ)
        → List (ℕ × (W × W))
        → List (Exec S Error (Option (Finding W)))
    unfolding check_speech_mismatch_text
    checks segments slide_texts [] = []
    checks segments slide_texts ((n, window) ∷ windows) =
        check_speech_mismatch_text n (text_of_slide slide_texts n) segments window
        ∷ checks segments slide_texts windows

  module _ (shown : ℕ → W → String) where
    unfoldable pub pacing_of : List (ℕ × (W × W)) → List (Finding W)
    pacing_of [] = []
    pacing_of ((n, (start, end)) ∷ windows) =
        pacing_findings shown (fresh.pacing_id n) n start end ++ pacing_of windows

    module _ {S : Type 0} (models : Models S W) (u : Unicode) where
      -- An `except Exception` that answers with nothing.
      abbrev pub safe : Exec S Error (Option (Finding W)) → Exec S Error (Option (Finding W))
      safe check = catch check (λ e s. (ok none, s))

      abbrev pub rehearsal_result :
          DeliveryMetrics W
          → List (ℕ × (W × W))
          → List (Option (Finding W))
          → Exec S Error (DeliveryMetrics W × List (Finding W))
      rehearsal_result delivery windows found s = (
        ok (
          delivery,
          (delivery_findings shown fresh.delivery_id delivery ++ pacing_of windows)
              ++ present found,
        ),
        s,
      )

      -- `analyze_rehearsal`
      unfoldable pub analyze_rehearsal :
          List (TranscriptSegment W)
          → List (SlideTiming W)
          → List (ℕ × List ℕ)
          → Exec S Error (DeliveryMetrics W × List (Finding W))
      unfolding checks pacing_of
      analyze_rehearsal segments slide_timings slide_texts =
          gather (
            map safe
              (checks models segments slide_texts (windows_from_slide_timings slide_timings)))
          >>= rehearsal_result (compute_delivery u segments)
              (windows_from_slide_timings slide_timings)

    module _ (models : Models (Context W) W) (u : Unicode) where
      unfoldable pub analyze_windows :
          List (TranscriptSegment W)
          → DeliveryMetrics W
          → List (ℕ × (W × W))
          → Exec (Context W) Error (List (Finding W))
      unfolding checks pacing_of
      analyze_windows segments delivery windows ctx =
          (gather (checks models segments ctx.slide_texts windows)
              >>= review_result
                  (delivery_findings shown fresh.delivery_id delivery ++ pacing_of windows))
            ctx

      -- The metrics are kept in the context before the model is asked.
      unfoldable pub analyze_segments :
          List (TranscriptSegment W) → Exec (Context W) Error (List (Finding W))
      unfolding analyze_windows
      analyze_segments [] ctx = (ok [], ctx)
      analyze_segments (s ∷ segments) ctx =
          let metrics = compute_delivery u (s ∷ segments) in
          analyze_windows (s ∷ segments) metrics
            (align_slide_windows u (s ∷ segments)
              (sort_by leb (map (λ (p : ℕ × FileName). p.0) ctx.slide_pngs)) ctx.slide_texts)
            (record ctx { delivery = some metrics })

      -- `CrossModalAnalyzer.analyze`; `extract` is the audio extractor.
      unfoldable pub analyze_speech :
          (FileName → Exec (Context W) Error FileName)
          → Option FileName
          → Exec (Context W) Error (List (Finding W))
      unfolding analyze_segments
      analyze_speech extract none ctx = (ok [], ctx)
      analyze_speech extract (some audio_path) ctx =
          (extract audio_path >>= models.transcribe >>= analyze_segments) ctx
