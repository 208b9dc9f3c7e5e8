-- ===== src/Ingest/Tests.antt =====
-- A PPTX whose first rendering runs out of time, a recording, and each theorem there.
use slidelens.Prelude.{ℕ, ◌≡◌, true, none, some, [], ◌∷◌, ◌==◌, if◌then◌else◌}
use slidelens.Prelude.Text.{codes, strip}
use slidelens.Ingest.{Deck, Tools, timed_out, exited, pages, Run, ingest}
use slidelens.Ingest.Laws.{is_ok, accepts, ingest_lem}
use slidelens.Ingest.Audio.{Media, Bounded, extract, extract-Bounded}

abbrev two_slides : Deck
two_slides = record {
  is_file = true;
  size = 1000;
  suffix = codes ".PPTX";
  presentation = some ((some (codes " a ") ∷ none ∷ []) ∷ [] ∷ []);
}

abbrev slow_start : ℕ → Run
slow_start k = if k == 0 then timed_out else exited 0 []

abbrev slow_tools : Tools
slow_tools = record { soffice = slow_start; made_pdf = λ k. true; poppler = pages 2 }

ingest_lem_example : is_ok (ingest strip two_slides slow_tools) ≡ accepts two_slides slow_tools
ingest_lem_example = ingest_lem strip two_slides slow_tools

abbrev half_minute : Media
half_minute = record { is_file = true; ffmpeg = exited 0 []; wav_size = some 960000 }

extract-Bounded_example : Bounded half_minute (extract half_minute)
extract-Bounded_example = extract-Bounded half_minute
