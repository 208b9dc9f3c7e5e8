-- ===== src/Ingest.antt =====
-- Ingest of a deck and of a recording (backend/core/ingest.py). What python-pptx, soffice, poppler,
-- ffmpeg and the file system answer is an input; `_run_subprocess`'s time-out is one of its answers.
pub mod Laws
mod Tests
pub mod Audio
use slidelens.Prelude.{
  ℕ, zero, suc, ◌+◌, ◌*◌, ◌≡◌, Bool, true, false, not, ◌&&◌, ◌||◌, Option, none, some, List, [],
  ◌∷◌, ◌++◌, map, length, ltb, ◌==◌, if◌then◌else◌,
}
use slidelens.Prelude.Exec.{Result, ok, err}
use slidelens.Prelude.Text.{codes, same_codes, lower}
use slidelens.Services.{
  IngestError, corrupted_file, unsupported_deck_format, password_protected, empty_deck,
  deck_too_large, render_timeout,
}

abbrev pub max_deck_size : ℕ
max_deck_size = 50 * 1024 * 1024

abbrev pub max_deck_slides : ℕ
max_deck_slides = 25

pub data DeckFormat : Type 0 where
  pptx pdf : DeckFormat

-- How a subprocess ended.
pub data Run : Type 0 where
  timed_out : Run
  -- its exit code and standard error
  exited : ℕ → List ℕ → Run

-- How `convert_from_path` ended: with the pages, or with one of the exceptions that the code
-- catches; the message comes with it.
pub data Rendering : Type 0 where
  pages : ℕ → Rendering
  poppler_timeout : Rendering
  poppler_error : List ℕ → Rendering

-- A shape's text, if it has a text frame.
abbrev pub Slide : Type 0
Slide = List (Option (List ℕ))

pub record Deck : Type 0 where
  pub is_file : Bool
  pub size : ℕ
  pub suffix : List ℕ
  -- `Presentation(deck)`; `none` is its exception
  pub presentation : Option (List Slide)

-- What the tools answer to a deck: soffice in each attempt, whether the PDF is there afterwards,
-- and poppler.
pub record Tools : Type 0 where
  pub soffice : ℕ → Run
  pub made_pdf : ℕ → Bool
  pub poppler : Rendering

-- `_resolve_deck_format`
unfoldable pub resolve_deck_format : List ℕ → Result IngestError DeckFormat
resolve_deck_format suffix =
    if same_codes (map lower suffix) (codes ".pptx")
    then ok pptx
    else if same_codes (map lower suffix) (codes ".pdf")
    then ok pdf
    else err unsupported_deck_format

-- `needle in text`
is_prefix : List ℕ → List ℕ → Bool
is_prefix [] s = true
is_prefix (c ∷ t) [] = false
is_prefix (c ∷ t) (d ∷ s) = c == d && is_prefix t s

unfoldable pub contains : List ℕ → List ℕ → Bool
unfolding is_prefix
contains needle [] = is_prefix needle []
contains needle (c ∷ s) = is_prefix needle (c ∷ s) || contains needle s

-- `_render_pdf_to_pngs`: the numbers of the pictures.
unfoldable pub number_from : ℕ → ℕ → List ℕ
number_from k zero = []
number_from k (suc n) = k ∷ number_from (suc k) n

pdf_error : List ℕ → IngestError
pdf_error message =
    if contains (codes "password") (map lower message)
      || contains (codes "encrypt") (map lower message)
    then password_protected
    else corrupted_file

unfoldable pub render_pdf_to_pngs : Rendering → Result IngestError (List ℕ)
unfolding number_from pdf_error
render_pdf_to_pngs (pages n) = ok (number_from 1 n)
render_pdf_to_pngs poppler_timeout = err render_timeout
render_pdf_to_pngs (poppler_error message) = err (pdf_error message)

-- An attempt with neither a time-out nor an error code, and the PDF is there.
abbrev pub attempt_succeeds : Run → Bool → Bool
attempt_succeeds timed_out is_file = false
attempt_succeeds (exited code stderr) is_file = code == 0 && is_file

-- The attempts left, and the number of the next; the result is the one that made the PDF, and the
-- number of calls of soffice.
attempt_from : Tools → ℕ → ℕ → Result IngestError ℕ × ℕ
attempt_from tools zero k = (err render_timeout, k)
attempt_from tools (suc left) k =
    let rest = attempt_from tools left (suc k) in
    if attempt_succeeds (tools.soffice k) (tools.made_pdf k) then (ok k, suc k) else rest

-- `_convert_to_pdf`
pub convert_to_pdf : Tools → Result IngestError ℕ × ℕ
unfolding attempt_from
convert_to_pdf tools = attempt_from tools 2 0

-- What `ingest` leaves in the context: the texts by slide, and the pictures by slide.
pub record Ingested : Type 0 where
  pub slide_texts : List (ℕ × List ℕ)
  pub slide_pngs : List ℕ

-- From the PDF on.
unfoldable pub rendered :
    List (ℕ × List ℕ) → Result IngestError (List ℕ) → Result IngestError Ingested
rendered slide_texts (err e) = err e
rendered slide_texts (ok pngs) =
    if length pngs == 0
    then err empty_deck
    else if ltb max_deck_slides (length pngs)
    then err deck_too_large
    else ok (record { slide_texts = slide_texts; slide_pngs = pngs })

converted : Tools → List (ℕ × List ℕ) → Result IngestError ℕ → Result IngestError Ingested
unfolding rendered
converted tools slide_texts (err e) = err e
converted tools slide_texts (ok attempt) = rendered slide_texts (render_pdf_to_pngs tools.poppler)

module _ (strip : List ℕ → List ℕ) where
  join_lines : List (List ℕ) → List ℕ
  join_lines [] = []
  join_lines (s ∷ []) = s
  join_lines (s ∷ t ∷ ss) = s ++ codes "\n" ++ join_lines (t ∷ ss)

  chunks : Slide → List (List ℕ)
  chunks [] = []
  chunks (none ∷ shapes) = chunks shapes
  chunks (some text ∷ shapes) = elim (strip text) [
    | [] ↦ chunks shapes
    | c ∷ s ↦ (c ∷ s) ∷ chunks shapes
  ]

  texts_from : ℕ → List Slide → List (ℕ × List ℕ)
  unfolding join_lines chunks
  texts_from k [] = []
  texts_from k (slide ∷ slides) = (k, join_lines (chunks slide)) ∷ texts_from (suc k) slides

  -- `_extract_pptx_texts`
  pub extract_pptx_texts : Deck → Result IngestError (List (ℕ × List ℕ))
  unfolding texts_from
  extract_pptx_texts deck = elim (deck.presentation) [
    | none ↦ err corrupted_file
    | some slides ↦ ok (texts_from 1 slides)
  ]

  extracted : Tools → Result IngestError (List (ℕ × List ℕ)) → Result IngestError Ingested
  unfolding converted
  extracted tools (err e) = err e
  extracted tools (ok slide_texts) =
      if length slide_texts == 0
      then err empty_deck
      else if ltb max_deck_slides (length slide_texts)
      then err deck_too_large
      else converted tools slide_texts (convert_to_pdf tools).0

  unfoldable pub formatted :
      Deck → Tools → Result IngestError DeckFormat → Result IngestError Ingested
  unfolding extracted
  formatted deck tools (err e) = err e
  formatted deck tools (ok pptx) = extracted tools (extract_pptx_texts deck)
  formatted deck tools (ok pdf) = rendered [] (render_pdf_to_pngs tools.poppler)

  -- `DeckIngestor.ingest`
  unfoldable pub ingest : Deck → Tools → Result IngestError Ingested
  unfolding formatted
  ingest deck tools =
      if not deck.is_file
      then err corrupted_file
      else if ltb max_deck_size deck.size
      then err deck_too_large
      else formatted deck tools (resolve_deck_format deck.suffix)
