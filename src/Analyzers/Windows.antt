-- ===== src/Analyzers/Windows.antt =====
-- The heuristic alignment of a transcript to the slides (backend/core/analyzers/crossmodal.py).
use slidelens.Prelude.{
  ℕ, suc, Bool, true, false, ◌&&◌, ◌||◌, Option, none, some, List, [], ◌∷◌, filter, length, leb,
  ltb, ◌==◌, if◌then◌else◌,
}
use slidelens.Prelude.Int.{pos}
use slidelens.Prelude.Text.{one_of}
use slidelens.Double.{Double, ◌⊕◌, ◌⊖◌, ◌⊗◌, ◌⊘◌, nought, max_of, min_of}
use slidelens.Analyzers.Responses.{TranscriptSegment}
use slidelens.Analyzers.Delivery.{Unicode, last_end}
use slidelens.Analyzers.Pacing.{set_window}
use mathlib.Core.List.{reverse}

module _ (u : Unicode) where
  -- The matches of `\w+`; `word` is the run so far, backwards.
  abbrev end_word : List ℕ → List (List ℕ) → List (List ℕ)
  end_word [] words = words
  end_word (c ∷ word) words = reverse (c ∷ word) ∷ words

  unfoldable pub words_from : List ℕ → List ℕ → List (List ℕ)
  words_from word [] = end_word word []
  words_from word (c ∷ s) =
      let longer = words_from (c ∷ word) s in
      let ended = words_from [] s in if u.is_word c then longer else end_word word ended

  abbrev all_digits : List ℕ → Bool
  all_digits [] = true
  all_digits (c ∷ s) = u.is_digit c && all_digits s

  -- A number of two digits at least, or a word of four letters at least with a capital.
  unfoldable pub is_keyword : List ℕ → Bool
  is_keyword [] = false
  is_keyword (c ∷ word) =
      (all_digits (c ∷ word) && leb 2 (length (c ∷ word)))
      || (u.is_upper c && ltb 3 (length (c ∷ word)))

  -- `_extract_keywords`
  unfoldable pub extract_keywords : List ℕ → List (List ℕ)
  unfolding words_from is_keyword
  extract_keywords text = filter is_keyword (words_from [] text)

  -- Whether two sets of keywords meet.
  unfoldable pub share_keyword : List (List ℕ) → List (List ℕ) → Bool
  share_keyword [] keywords = false
  share_keyword (w ∷ words) keywords = one_of w keywords || share_keyword words keywords

-- `slide_texts.get(slide_num, "")`
unfoldable pub text_of_slide : List (ℕ × List ℕ) → ℕ → List ℕ
text_of_slide [] n = []
text_of_slide ((k, text) ∷ texts) n =
    let rest = text_of_slide texts n in if k == n then text else rest

module _ {W : Type 0} ⦃d : Double W⦄ where
  unfoldable pub min_start : W → List (TranscriptSegment W) → W
  min_start least [] = least
  min_start least (s ∷ segments) = min_start (min_of least s.start) segments

  unfoldable pub max_end : W → List (TranscriptSegment W) → W
  max_end most [] = most
  max_end most (s ∷ segments) = max_end (max_of most s.end) segments

  -- From the first start to the last end of the matching segments, if there are any.
  unfoldable pub span_of : List (TranscriptSegment W) → Option (W × W)
  unfolding min_start max_end
  span_of [] = none
  span_of (s ∷ segments) = some (min_start s.start segments, max_end s.end segments)

  module _ (u : Unicode) (segments : List (TranscriptSegment W))
      (slide_texts : List (ℕ × List ℕ)) where
    unfoldable pub span_for : List (List ℕ) → Option (W × W)
    unfolding span_of extract_keywords share_keyword
    span_for [] = none
    span_for (w ∷ keywords) = span_of (
        filter
          (λ (s : TranscriptSegment W). share_keyword u (extract_keywords u s.text) (w ∷ keywords))
          segments)

    -- The span of the segments that share a keyword with the slide.
    abbrev pub keyword_span : ℕ → Option (W × W)
    keyword_span n = span_for (extract_keywords u (text_of_slide slide_texts n))

    unfoldable pub set_span : ℕ → Option (W × W) → List (ℕ × (W × W)) → List (ℕ × (W × W))
    unfolding set_window
    set_span n none windows = windows
    set_span n (some span) windows = set_window n span windows

    unfoldable pub snap_windows : List ℕ → List (ℕ × (W × W)) → List (ℕ × (W × W))
    unfolding set_span span_for text_of_slide
    snap_windows [] windows = windows
    snap_windows (n ∷ slide_nums) windows =
        snap_windows slide_nums (set_span n (keyword_span n) windows)

  -- The even shares of the slides from the position `i` on.
  unfoldable pub even_windows : W → W → ℕ → List ℕ → List (ℕ × (W × W)) → List (ℕ × (W × W))
  unfolding set_window
  even_windows start per_slide i [] windows = windows
  even_windows start per_slide i (n ∷ slide_nums) windows =
      even_windows start per_slide (suc i) slide_nums (
        set_window n
          (start ⊕ (d.of_int (pos i) ⊗ per_slide), start ⊕ (d.of_int (pos (suc i)) ⊗ per_slide))
          windows)

  abbrev pub even_shares : W → W → List ℕ → List (ℕ × (W × W))
  even_shares start duration slide_nums =
      even_windows start (duration ⊘ d.of_int (pos (length slide_nums))) 0 slide_nums []

  -- `_align_slide_windows`
  unfoldable pub align_slide_windows :
      Unicode → List (TranscriptSegment W) → List ℕ → List (ℕ × List ℕ) → List (ℕ × (W × W))
  unfolding last_end even_windows snap_windows
  align_slide_windows u [] slide_nums slide_texts = []
  align_slide_windows u (s ∷ segments) [] slide_texts = []
  align_slide_windows u (s ∷ segments) (n ∷ slide_nums) slide_texts =
      let duration = last_end s.end segments ⊖ s.start in
      if d.le duration nought
      then []
      else snap_windows u (s ∷ segments) slide_texts (n ∷ slide_nums)
          (even_shares s.start duration (n ∷ slide_nums))
