-- ===== src/Llm/Calls/Asr.antt =====
-- What a transcription costs (backend/core/llm/client.py, utils.py).
use slidelens.Prelude.{
  ℕ, suc, ◌≡◌, refl, true, List, length, map, Option, none, some, ◌∷◌, [], ap, arith,
}
use slidelens.Double.Order.{le-max_of_left}
use slidelens.Prelude.Exec.{Result, ok, err}
use slidelens.Double.{Double, IsDouble, ◌⊕◌, nought, max_of}
use slidelens.Entities.{FileName}
use slidelens.Analyzers.Responses.{TranscriptSegment}
use slidelens.Llm.{Text, Failure, Session, add_cost, estimate_asr_cost_rub}
use slidelens.Llm.Calls.{
  Transcription, SpokenSegment, heard, stripped, transcribe_audio, duration_of, transcript_of,
}

module _ {W : Type 0} ⦃d : Double W⦄ (l : IsDouble W) (strip : Text → Text) (rub_per_minute : W)
    (rate : d.le nought rub_per_minute ≡ true) where
  -- What a recording costs.
  abbrev pub price_of : Option W → W
  price_of duration = estimate_asr_cost_rub rub_per_minute (duration_of strip duration)

  price_of_nonneg : (duration : Option W) → d.le nought (price_of duration) ≡ true
  unfolding estimate_asr_cost_rub
  price_of_nonneg duration =
      l.mul_nonneg _ _
        (l.div_nonneg _ _ (le-max_of_left l nought (duration_of strip duration)) (l.lit_pos 59))
        rate

  max_of_nonneg : (a : W) → d.le nought a ≡ true → max_of nought a ≡ a
  unfolding max_of
  max_of_nonneg a h = ground (arith, l.lt-eq-not-le nought a, l.le_antisymm nought a)

  abbrev pub segments_in : Option (List (SpokenSegment W)) → ℕ
  segments_in none = 0
  segments_in (some segments) = length segments

  length-stripped :
      (segments : List (SpokenSegment W)) → length (map (stripped strip) segments) ≡ length segments
  length-stripped [] = refl
  length-stripped (segment ∷ segments) = ap suc (length-stripped segments)

  length-transcript_of :
      (segments : Option (List (SpokenSegment W)))
      → length (transcript_of strip segments) ≡ segments_in segments
  unfolding transcript_of
  length-transcript_of none = refl
  length-transcript_of (some segments) = length-stripped segments

  abbrev pub Transcribed :
      Result Failure (Transcription W)
      → Session W
      → Result Failure (List (TranscriptSegment W)) × Session W
      → Type 0
  Transcribed (err e) s (r, t) = (r ≡ err e) × (t ≡ s)
  Transcribed (ok response) s (r, t) =
      (segments : List (TranscriptSegment W)) × (r ≡ ok segments)
      × (length segments ≡ segments_in response.segments)
      × (t ≡ record s { cost_rub = s.cost_rub ⊕ price_of response.duration })
      × (d.le nought (price_of response.duration) ≡ true)

  heard-Transcribed :
      (r : Result Failure (Transcription W)) (s : Session W)
      → Transcribed r s (heard strip rub_per_minute r s)
  unfolding heard add_cost
  heard-Transcribed (err e) s = (refl, refl)
  heard-Transcribed (ok response) s = (
    transcript_of strip response.segments,
    refl,
    length-transcript_of response.segments,
    ap (λ c. record s { cost_rub = s.cost_rub ⊕ c })
        (max_of_nonneg (price_of response.duration) (price_of_nonneg response.duration)),
    price_of_nonneg response.duration,
  )

  -- At a rate that is not negative, a transcription that the provider answers has the provider's
  -- segments, as many of them, and adds to the cost exactly the price of the recording's minutes,
  -- which is never negative; one that raises leaves the session as it was.
  pub transcribe_audio-Transcribed :
      (provider : FileName → Result Failure (Transcription W)) (audio_path : FileName)
      (s : Session W)
      → Transcribed
          (provider audio_path)
          s
          (transcribe_audio strip rub_per_minute provider audio_path s)
  unfolding transcribe_audio
  transcribe_audio-Transcribed provider audio_path s = heard-Transcribed (provider audio_path) s
