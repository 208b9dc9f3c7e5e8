-- ===== src/Analyzers/SpeechTests.antt =====
-- A short recording, and the theorems on speech and zooms there.
use slidelens.Prelude.{
  ℕ, ◌+◌, ◌&&◌, ◌||◌, ◌≡◌, refl, String, false, Option, none, some, List, [], ◌∷◌, ◌++◌, map, leb,
}
use slidelens.Prelude.Int.{ℤ, pos}
use slidelens.Prelude.Text.{codes}
use slidelens.Prelude.Exec.{Result, ok, err, gather_all}
use slidelens.Prelude.Sort.{sort_by}
use slidelens.Double.{◌⊖◌, ◌⊘◌}
use slidelens.Double.FixedPoint.{fixed_double, fixed-IsDouble}
use slidelens.Services.{Error, other}
use slidelens.Entities.{FileName, SlideTiming}
use slidelens.Analyzers.{Context, run_step}
use slidelens.Analyzers.Responses.{Models, TranscriptSegment, SuspiciousRegionIn}
use slidelens.Analyzers.Delivery.{Unicode, last_end, compute_delivery, delivery_findings}
use slidelens.Analyzers.Pacing.{window_of, windows_from_slide_timings}
use slidelens.Analyzers.Windows.{align_slide_windows, text_of_slide}
use slidelens.Analyzers.Aligned.{Aligned, share_of, align_slide_windows_lem}
use slidelens.Analyzers.Speech.{Fresh, checks, present, pacing_of, analyze_rehearsal}
use slidelens.Analyzers.Isolation.{found_or_none, analyze_rehearsal_lem}
use slidelens.Analyzers.SpeechStep.{SpeechEnds, speech_step, speech_step-SpeechEnds}
use slidelens.Analyzers.Metrics.{SoundMetrics, compute_delivery-SoundMetrics}
use slidelens.Analyzers.Zoom.Zoomed.{Zoomed}

abbrev ascii : Unicode
ascii = record {
  is_word = λ c. leb 97 c;
  is_digit = λ c. false;
  is_upper = λ c. false;
  lowered = λ s. s;
}

abbrev said : ℕ → ℕ → TranscriptSegment ℤ
said start end = record { start = pos start; end = pos end; text = codes "well well" }

-- Every call fails.
abbrev silent : Models (Context ℤ) ℤ
silent = record {
  slide_view = λ system images prompt s. (err (other "timeout"), s);
  screening = λ system images prompt s. (err (other "timeout"), s);
  deck_view = λ system images prompt s. (err (other "timeout"), s);
  labels = λ system prompt s. (err (other "timeout"), s);
  transcribe = λ path s. (err (other "timeout"), s);
}

abbrev fresh : Fresh
fresh = record { delivery_id = λ k. k; pacing_id = λ n. n + 10; speech_id = λ n. n + 100 }

abbrev two_slides : Context ℤ
two_slides = record {
  findings = [];
  delivery = none;
  slide_pngs = (1, codes "1.png") ∷ (2, codes "2.png") ∷ [];
  slide_texts = (1, codes "a") ∷ [];
  has_chart = [];
  cost_rub = pos 0;
}

abbrev shown : ℕ → ℤ → String
shown k v = "?"

compute_delivery-SoundMetrics_example :
    SoundMetrics ascii
      (said 0 1000 ∷ said 5000 6000 ∷ [])
      (compute_delivery ascii (said 0 1000 ∷ said 5000 6000 ∷ []))
compute_delivery-SoundMetrics_example =
    compute_delivery-SoundMetrics fixed-IsDouble ascii (said 0 1000 ∷ said 5000 6000 ∷ [])

-- Letters and digits are the characters of a word.
abbrev latin : Unicode
latin = record ascii { is_word = λ c. leb 97 c || leb 48 c; is_digit = λ c. leb 48 c && leb c 57 }

abbrev counted : ℕ → ℕ → TranscriptSegment ℤ
counted start end = record { start = pos start; end = pos end; text = codes "well 42" }

abbrev growing : List (ℕ × List ℕ)
growing = (2, codes "growth 42") ∷ []

-- The second slide's text has a number that the second segment says.
align_slide_windows_lem_example :
    let segments = said 0 1000 ∷ counted 5000 6000 ∷ [] in
    let slide_texts = growing in
    Aligned fixed-IsDouble latin segments
      (text_of_slide slide_texts 2)
      (share_of
        (pos 0)
        ((last_end (pos 1000) (counted 5000 6000 ∷ []) ⊖ pos 0) ⊘ fixed_double.of_int (pos 3))
        1)
      (window_of 2 (align_slide_windows latin segments (1 ∷ 2 ∷ 3 ∷ []) slide_texts))
unfolding last_end
align_slide_windows_lem_example =
    align_slide_windows_lem fixed-IsDouble latin (said 0 1000) (counted 5000 6000 ∷ []) (1 ∷ []) 2
      (3 ∷ []) growing refl refl

abbrev timings : List (SlideTiming ℤ)
timings = record { slide_num = 1; start = pos 0; end = pos 6000 } ∷ []

analyze_rehearsal_lem_example :
    let segments = said 0 1000 ∷ said 5000 6000 ∷ [] in
    let windows = windows_from_slide_timings timings in
    let metrics = compute_delivery ascii segments in
    let made =
      gather_all (checks fresh silent segments two_slides.slide_texts windows) two_slides in
    analyze_rehearsal fresh shown silent ascii segments timings two_slides.slide_texts two_slides
    ≡ (
      ok (
        metrics,
        (delivery_findings shown fresh.delivery_id metrics ++ pacing_of fresh shown windows)
            ++ present (map found_or_none made.0),
      ),
      made.1,
    )
analyze_rehearsal_lem_example =
    analyze_rehearsal_lem fresh shown silent ascii (said 0 1000 ∷ said 5000 6000 ∷ []) timings
      two_slides.slide_texts two_slides

speech_step-SpeechEnds_example :
    let segments = said 0 1000 ∷ said 5000 6000 ∷ [] in
    let metrics = compute_delivery ascii segments in
    let windows =
      align_slide_windows ascii segments
        (sort_by leb (map (λ (p : ℕ × FileName). p.0) two_slides.slide_pngs))
        two_slides.slide_texts in
    SpeechEnds metrics
      (delivery_findings shown fresh.delivery_id metrics ++ pacing_of fresh shown windows)
      (gather_all
        (checks fresh silent segments two_slides.slide_texts windows)
        (record two_slides { delivery = some metrics })).0
      (run_step (speech_step fresh silent shown ascii "crossmodal_analyzer" segments) two_slides)
speech_step-SpeechEnds_example =
    speech_step-SpeechEnds fresh silent shown ascii "crossmodal_analyzer" (said 0 1000)
      (said 5000 6000 ∷ []) two_slides (λ system prompt ctx. refl)

abbrev region : SuspiciousRegionIn
region = record {
  box_2d = some (pos 100 ∷ pos 100 ∷ pos 500 ∷ pos 500 ∷ []);
  reason = "small text";
}

abbrev full_hd : FileName → Result Error (ℕ × ℕ)
full_hd path = ok (1920, 1080)

abbrev saves : FileName → Option Error
saves path = none

-- A model that sees one thing in each crop.
abbrev seeing : Models (Context ℤ) ℤ
seeing = record silent {
  slide_view = λ system images prompt s. (
    ok (record {
      findings =
          record {
            category = slidelens.Schemas.chart;
            severity = slidelens.Schemas.major;
            title = "t";
            description = "d";
            fix_suggestion = "f";
            box_2d = some (pos 100 ∷ pos 100 ∷ pos 400 ∷ pos 400 ∷ []);
            auto_fixable = false;
          }
          ∷ [];
      has_chart = false;
    }),
    s,
  );
}
