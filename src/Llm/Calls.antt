-- ===== src/Llm/Calls.antt =====
-- The client's public calls that look at pictures or listen, and the choice of the model
-- (backend/core/llm/client.py, config.py).
pub mod Asr
use slidelens.Prelude.{
  ℕ, ◌≡◌, refl, Bool, true, false, Option, none, some, List, [], ◌∷◌, map, if◌then◌else◌,
}
use slidelens.Prelude.Exec.{Result, ok, err}
use slidelens.Prelude.Text.{codes, same_codes}
use slidelens.Double.{Double, nought}
use slidelens.Entities.{FileName}
use slidelens.Analyzers.Responses.{TranscriptSegment}
use slidelens.Llm.{
  Text, Failure, Session, Provider, Client, ModelPrice, value_error, complete, complete_read,
  add_cost, estimate_asr_cost_rub,
}
use slidelens.Llm.Price.{lookup}

-- The model names and the price tables of `LLMConfig`.
pub record LlmConfig (W : Type 0) : Type 0 where
  pub model_full : Text
  pub model_screening : Text
  pub model_prices_rub : List (Text × ModelPrice W)
  pub asr_prices_rub_per_minute : List (Text × W)
  pub fallback_model_price_rub : ModelPrice W
  pub fallback_asr_price_rub_per_minute : W

screening_or_full : Text → Text → Text
screening_or_full [] full = full
screening_or_full (c ∷ screening) full = c ∷ screening

module _ {W : Type 0} where
  pub model_for_tier : LlmConfig W → Text → Text
  unfolding screening_or_full
  model_for_tier config tier =
      if same_codes tier (codes "screening")
      then screening_or_full config.model_screening config.model_full
      else config.model_full

  pub price_for : LlmConfig W → Text → ModelPrice W
  price_for config model = lookup config.model_prices_rub model config.fallback_model_price_rub

  pub asr_price_for : LlmConfig W → Text → W
  asr_price_for config model =
      lookup config.asr_prices_rub_per_minute model config.fallback_asr_price_rub_per_minute

-- A segment and a transcription, as the provider sends them; `none` stands for a missing field.
pub record SpokenSegment (W : Type 0) : Type 0 where
  pub start : W
  pub end : W
  pub text : Text

pub record Transcription (W : Type 0) : Type 0 where
  pub segments : Option (List (SpokenSegment W))
  pub duration : Option W

module _ {W : Type 0} ⦃d : Double W⦄ (strip : Text → Text) where
  pub duration_of : Option W → W
  duration_of none = nought
  duration_of (some seconds) = seconds

  stripped : SpokenSegment W → TranscriptSegment W
  stripped segment = record { start = segment.start; end = segment.end; text = strip segment.text }

  transcript_of : Option (List (SpokenSegment W)) → List (TranscriptSegment W)
  unfolding stripped
  transcript_of none = []
  transcript_of (some segments) = map stripped segments

  heard : W → Result Failure (Transcription W) → Client W (List (TranscriptSegment W))
  unfolding duration_of transcript_of
  heard rub_per_minute (err e) s = (err e, s)
  heard rub_per_minute (ok response) s = (
    ok (transcript_of response.segments),
    add_cost (estimate_asr_cost_rub rub_per_minute (duration_of response.duration)) s,
  )

  -- `transcribe_audio`: one call, which is not tried again. The session counts chat calls only.
  pub transcribe_audio :
      W
      → (FileName → Result Failure (Transcription W))
      → FileName
      → Client W (List (TranscriptSegment W))
  unfolding heard
  transcribe_audio rub_per_minute provider audio_path s =
      heard rub_per_minute (provider audio_path) s

  module _ (provider : Provider) (max_retries : ℕ) (price : ModelPrice W) where
    -- `complete_structured`
    pub complete_structured : {A : Type 0} → (Text → Result Text A) → Text → Text → Client W A
    complete_structured parse system prompt =
        complete_read strip provider max_retries price true parse system prompt []

    -- `complete_vision_text`
    pub complete_vision_text :
        (FileName → Option Failure) → Text → Text → List FileName → Client W Text
    complete_vision_text unreadable system prompt [] s =
        (err (value_error (codes "complete_vision_text requires at least one image")), s)
    complete_vision_text unreadable system prompt (image ∷ images) s =
        complete strip provider max_retries price false (λ text. ok (strip text)) unreadable system
          prompt (image ∷ images) s

    -- `complete_vision_structured`
    pub complete_vision_structured :
        {A : Type 0}
        → (Text → Result Text A)
        → (FileName → Option Failure)
        → Text
        → Text
        → List FileName
        → Client W A
    complete_vision_structured parse unreadable system prompt [] s =
        (err (value_error (codes "complete_vision_structured requires at least one image")), s)
    complete_vision_structured parse unreadable system prompt (image ∷ images) s =
        complete strip provider max_retries price true parse unreadable system prompt
          (image ∷ images) s
