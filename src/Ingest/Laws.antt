-- ===== src/Ingest/Laws.antt =====
-- Which decks `ingest` accepts.
use slidelens.Prelude.{
  ℕ, zero, suc, ◌≡◌, refl, Bool, true, false, ◌&&◌, Option, none, some, List, [], ◌∷◌, length,
  if◌then◌else◌, Bool-cases, inl, inr, arith, leb, ◌||◌, Option-cases,
}
use slidelens.Prelude.Exec.{Result, ok, err}
use slidelens.Services.{IngestError, render_timeout}
use slidelens.Ingest.{
  Slide, attempt_succeeds, Deck, Tools, Rendering, pages, poppler_timeout, poppler_error,
  DeckFormat, pptx, pdf, max_deck_size, max_deck_slides, resolve_deck_format, number_from,
  render_pdf_to_pngs, attempt_from, convert_to_pdf, extract_pptx_texts, texts_from, rendered,
  converted, extracted, formatted, ingest,
}

abbrev pub made : Tools → ℕ → Bool
made tools k = attempt_succeeds (tools.soffice k) (tools.made_pdf k)

-- soffice is called a second time exactly when the first attempt made no PDF, and never a third
-- time: the result is the first attempt that made one, or else `RenderTimeoutError` after two calls.
pub convert_to_pdf_lem :
    (tools : Tools)
    → convert_to_pdf tools ≡ (
        if made tools 0
        then (ok 0, 1)
        else if made tools 1
        then (ok 1, 2)
        else (err render_timeout, 2))
unfolding convert_to_pdf attempt_from
convert_to_pdf_lem tools = refl

length-number_from : (k n : ℕ) → length (number_from k n) ≡ n
unfolding number_from
length-number_from k zero = refl
length-number_from k (suc n) = ground (arith, length-number_from (suc k) n)

abbrev pub is_ok : {A : Type 0} → Result IngestError A → Bool
is_ok (ok _) = true
is_ok (err _) = false

abbrev pub in_limit : ℕ → Bool
in_limit n = leb 1 n && leb n max_deck_slides

-- poppler read the PDF and found between one page and the limit.
abbrev pub readable : Rendering → Bool
readable (pages n) = in_limit n
readable poppler_timeout = false
readable (poppler_error message) = false

-- python-pptx read the deck and found between one slide and the limit.
abbrev pub parsed : Option (List Slide) → Bool
parsed none = false
parsed (some slides) = in_limit (length slides)

abbrev pub accepts_format : Result IngestError DeckFormat → Deck → Tools → Bool
accepts_format (err e) deck tools = false
accepts_format (ok pptx) deck tools =
    parsed deck.presentation && (made tools 0 || made tools 1) && readable tools.poppler
accepts_format (ok pdf) deck tools = readable tools.poppler

abbrev pub accepts : Deck → Tools → Bool
accepts deck tools =
    deck.is_file
    && leb deck.size max_deck_size
    && accepts_format (resolve_deck_format deck.suffix) deck tools

rendered_lem :
    (slide_texts : List (ℕ × List ℕ)) (r : Rendering)
    → is_ok (rendered slide_texts (render_pdf_to_pngs r)) ≡ readable r
unfolding rendered render_pdf_to_pngs
rendered_lem slide_texts (pages n) = rw (length-number_from 1 n) (ground arith)
rendered_lem slide_texts poppler_timeout = refl
rendered_lem slide_texts (poppler_error message) = refl

converted_lem :
    (tools : Tools) (slide_texts : List (ℕ × List ℕ))
    → is_ok (converted tools slide_texts (convert_to_pdf tools).0)
      ≡ ((made tools 0 || made tools 1) && readable tools.poppler)
unfolding converted
converted_lem tools slide_texts = rw (convert_to_pdf_lem tools) (elim (Bool-cases (made tools 0)) [
  | inl e ↦ rw e (rendered_lem slide_texts tools.poppler)
  | inr e ↦ rw e (elim (Bool-cases (made tools 1)) [
    | inl e' ↦ rw e' (rendered_lem slide_texts tools.poppler)
    | inr e' ↦ rw e' refl
  ])
])

module _ (strip : List ℕ → List ℕ) where
  length-texts_from :
      (k : ℕ) (slides : List Slide) → length (texts_from strip k slides) ≡ length slides
  unfolding texts_from
  length-texts_from k [] = refl
  length-texts_from k (slide ∷ slides) = ground (arith, length-texts_from (suc k) slides)

  extracted_lem :
      (deck : Deck) (tools : Tools)
      → is_ok (extracted strip tools (extract_pptx_texts strip deck))
        ≡ (parsed deck.presentation && (made tools 0 || made tools 1) && readable tools.poppler)
  unfolding extract_pptx_texts extracted
  extracted_lem deck tools = elim (Option-cases deck.presentation) [
    | inl e ↦ rw e refl
    | inr (slides, e) ↦
        rw (e, length-texts_from 1 slides)
          (ground (arith, converted_lem tools (texts_from strip 1 slides)))
  ]

  formatted_lem :
      (deck : Deck) (tools : Tools) (format : Result IngestError DeckFormat)
      → is_ok (formatted strip deck tools format) ≡ accepts_format format deck tools
  unfolding formatted
  formatted_lem deck tools (err e) = refl
  formatted_lem deck tools (ok pptx) = extracted_lem deck tools
  formatted_lem deck tools (ok pdf) = rendered_lem [] tools.poppler

  -- Where python-pptx, Pillow and the tools raise nothing beyond what the code catches, `ingest`
  -- returns pictures exactly if the file is there and not too large, its suffix is a deck's, poppler
  -- finds between one page and the code's limit of slides in the PDF, and, for a PPTX, python-pptx
  -- finds between one slide and that limit and one of the two attempts makes the PDF.
  pub ingest_lem :
      (deck : Deck) (tools : Tools) → is_ok (ingest strip deck tools) ≡ accepts deck tools
  unfolding ingest
  ingest_lem deck tools = ground (arith, formatted_lem deck tools (resolve_deck_format deck.suffix))
