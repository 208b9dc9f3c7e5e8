-- ===== src/Analyzers/Aligned.antt =====
-- What the heuristic alignment promises (backend/core/analyzers/crossmodal.py).
use slidelens.Prelude.{
  ℕ, ◌≡◌, refl, ◌∙◌, Bool, true, false, ◌||◌, Option, none, some, List, [], ◌∷◌, ◌==◌, arith,
  ==_iff, ap, sym, All, ◌⊎◌, inl, inr, length, ◌++◌, ◌+◌, suc,
}
use mathlib.Core.Path.{subst}
use slidelens.Double.{Double, IsDouble, ◌⊕◌, ◌⊖◌, ◌⊗◌, ◌⊘◌, nought}
use slidelens.Analyzers.Responses.{TranscriptSegment}
use slidelens.Analyzers.Delivery.{Unicode, last_end}
use slidelens.Analyzers.Pacing.{window_of, window_of-set_window}
use slidelens.Analyzers.Windows.{
  keyword_span, span_for, extract_keywords, share_keyword, text_of_slide, even_windows, set_span,
  snap_windows, even_shares, align_slide_windows,
}
use slidelens.Prelude.Int.{pos}
use slidelens.Prelude.Text.{one_of}
use slidelens.Analyzers.Spans.{IsSpan, SpanIf, span_of-SpanIf}

abbrev pub has_slide : List ℕ → ℕ → Bool
has_slide [] n = false
has_slide (k ∷ slide_nums) n = k == n || has_slide slide_nums n

has_slide-at : (before after : List ℕ) (n : ℕ) → has_slide (before ++ n ∷ after) n ≡ true
has_slide-at [] after n = ground arith
has_slide-at (k ∷ before) after n = ground (arith, has_slide-at before after n)

-- The span where there is one, for a slide that was snapped, and else what was there.
abbrev pub snapped_or : {W : Type 0} → Bool → Option (W × W) → Option (W × W) → Option (W × W)
snapped_or false span before = before
snapped_or true none before = before
snapped_or true (some span) before = some span

snapped_or-twice :
    {W : Type 0}
    → (b c : Bool) (span span' before : Option (W × W)) → (b ≡ true → span ≡ span')
    → snapped_or c span' (snapped_or b span before) ≡ snapped_or (b || c) span' before
snapped_or-twice false c span span' before h = refl
snapped_or-twice {W} true c span span' before h = rw (h refl) (same c span')
  where
    same :
        (c : Bool) (span' : Option (W × W))
        → snapped_or c span' (snapped_or true span' before) ≡ snapped_or true span' before
    same false span' = refl
    same true none = refl
    same true (some span) = refl

module _ {W : Type 0} ⦃d : Double W⦄ (u : Unicode) (segments : List (TranscriptSegment W))
    (slide_texts : List (ℕ × List ℕ)) where
  window_of-set_span :
      (n k : ℕ) (span : Option (W × W)) (windows : List (ℕ × (W × W)))
      → window_of n (set_span u segments slide_texts k span windows)
        ≡ snapped_or (k == n) span (window_of n windows)
  unfolding set_span
  window_of-set_span n k none windows = ground arith
  window_of-set_span n k (some span) windows = ground (arith, window_of-set_window n k span windows)

  window_of-snap_windows :
      (n : ℕ) (slide_nums : List ℕ) (windows : List (ℕ × (W × W)))
      → window_of n (snap_windows u segments slide_texts slide_nums windows)
        ≡ snapped_or
            (has_slide slide_nums n)
            (keyword_span u segments slide_texts n)
            (window_of n windows)
  unfolding snap_windows
  window_of-snap_windows n [] windows = refl
  window_of-snap_windows n (k ∷ slide_nums) windows =
      window_of-snap_windows n slide_nums
        (set_span u segments slide_texts k (keyword_span u segments slide_texts k) windows)
      ∙ ap (snapped_or (has_slide slide_nums n) (keyword_span u segments slide_texts n))
          (window_of-set_span n k (keyword_span u segments slide_texts k) windows)
      ∙ snapped_or-twice (k == n) (has_slide slide_nums n) _ _ (window_of n windows)
          (λ e. ap (keyword_span u segments slide_texts) ((==_iff k n).0 e))

module _ {W : Type 0} ⦃d : Double W⦄ where
  even_windows-later :
      (start per_slide : W) (n i : ℕ) (slide_nums : List ℕ) (windows : List (ℕ × (W × W)))
      → has_slide slide_nums n ≡ false
      → window_of n (even_windows start per_slide i slide_nums windows) ≡ window_of n windows
  unfolding even_windows
  even_windows-later start per_slide n i [] windows h = refl
  even_windows-later start per_slide n i (k ∷ slide_nums) windows h =
      let elsewhere : (k == n) ≡ false = ground arith in
      even_windows-later start per_slide n (suc i) slide_nums _ (ground arith)
      ∙ rw (window_of-set_window n k _ windows, elsewhere) refl

  -- The share of the slide at the position `j`.
  abbrev pub share_of : W → W → ℕ → W × W
  share_of start per_slide j =
      (start ⊕ (d.of_int (pos j) ⊗ per_slide), start ⊕ (d.of_int (pos (suc j)) ⊗ per_slide))

  even_windows-at :
      (start per_slide : W) (n i j : ℕ) (before after : List ℕ) (windows : List (ℕ × (W × W)))
      → i + length before ≡ j
      → has_slide after n ≡ false
      → window_of n (even_windows start per_slide i (before ++ n ∷ after) windows)
        ≡ some (share_of start per_slide j)
  unfolding even_windows
  even_windows-at start per_slide n i j [] after windows e h =
      let same : i ≡ j = omega arith in
      let self : (n == n) ≡ true = ground arith in
      even_windows-later start per_slide n (suc i) after _ h
      ∙ rw (window_of-set_window n n _ windows, self, same) refl
  even_windows-at start per_slide n i j (k ∷ before) after windows e h =
      even_windows-at start per_slide n (suc i) j before after _ (omega arith) h

  -- The window of a slide before its position in the deck is looked at.
  window_of-aligned :
      (u : Unicode) (s : TranscriptSegment W) (segments : List (TranscriptSegment W))
      (slide_nums : List ℕ) (slide_texts : List (ℕ × List ℕ)) (n : ℕ)
      → d.le (last_end s.end segments ⊖ s.start) nought ≡ false
      → has_slide slide_nums n ≡ true
      → window_of n (align_slide_windows u (s ∷ segments) slide_nums slide_texts)
        ≡ snapped_or true
            (keyword_span u (s ∷ segments) slide_texts n)
            (window_of n (even_shares s.start (last_end s.end segments ⊖ s.start) slide_nums))
  unfolding align_slide_windows
  window_of-aligned u s segments [] slide_texts n h there = cc
  window_of-aligned u s segments (k ∷ slide_nums) slide_texts n h there =
      rw (← there) (rw h (window_of-snap_windows u (s ∷ segments) slide_texts n (k ∷ slide_nums) _))

module _ {W : Type 0} ⦃d : Double W⦄ (l : IsDouble W) (u : Unicode) where
  -- The segment has a keyword of the text.
  abbrev pub shares_with : List ℕ → TranscriptSegment W → Bool
  shares_with text s = share_keyword u (extract_keywords u s.text) (extract_keywords u text)

  share_keyword-none : (words : List (List ℕ)) → share_keyword u words [] ≡ false
  unfolding share_keyword one_of
  share_keyword-none [] = refl
  share_keyword-none (w ∷ words) = share_keyword-none words

  All-apart :
      (segments : List (TranscriptSegment W))
      → All (λ s. share_keyword u (extract_keywords u s.text) [] ≡ false) segments
  All-apart [] = tt
  All-apart (s ∷ segments) = (share_keyword-none (extract_keywords u s.text), All-apart segments)

  span_for-SpanIf :
      (segments : List (TranscriptSegment W)) (slide_texts : List (ℕ × List ℕ))
      (keywords : List (List ℕ))
      → SpanIf l
          (λ s. share_keyword u (extract_keywords u s.text) keywords)
          segments
          (span_for u segments slide_texts keywords)
  unfolding span_for
  span_for-SpanIf segments slide_texts [] = All-apart segments
  span_for-SpanIf segments slide_texts (w ∷ keywords) =
      span_of-SpanIf l (λ s. share_keyword u (extract_keywords u s.text) (w ∷ keywords)) segments _
        refl

  -- The window of a slide: the span of the segments with a keyword of its text, or its share.
  abbrev pub Aligned : List (TranscriptSegment W) → List ℕ → W × W → Option (W × W) → Type 0
  Aligned segments text share window =
      ((span : W × W) × (window ≡ some span)
        × IsSpan l (λ s. shares_with text s ≡ true) segments span)
      ⊎ (All (λ s. shares_with text s ≡ false) segments × (window ≡ some share))

  snapped-Aligned :
      (segments : List (TranscriptSegment W)) (text : List ℕ) (share : W × W) (o : Option (W × W))
      → SpanIf l (shares_with text) segments o
      → Aligned segments text share (snapped_or true o (some share))
  snapped-Aligned segments text share none h = inr (h, refl)
  snapped-Aligned segments text share (some span) h = inl (span, refl, h)

  -- For a transcript that takes some time, and a slide at a position of the deck after which it does not
  -- come again: if a segment has a keyword of the slide's text, the slide's window runs from the least
  -- start to the greatest end of those segments. If none has, it is the slide's even share of the time
  -- from the first segment's start to the last one's end: as long as every other, and as many shares
  -- after that start as slides stand before it.
  pub align_slide_windows_lem :
      (s : TranscriptSegment W) (segments : List (TranscriptSegment W)) (before : List ℕ) (n : ℕ)
      (after : List ℕ) (slide_texts : List (ℕ × List ℕ))
      → d.le (last_end s.end segments ⊖ s.start) nought ≡ false
      → has_slide after n ≡ false
      → let slide_nums = before ++ n ∷ after in
        let per_slide = (last_end s.end segments ⊖ s.start) ⊘ d.of_int (pos (length slide_nums)) in
        Aligned
          (s ∷ segments)
          (text_of_slide slide_texts n)
          (share_of s.start per_slide (length before))
          (window_of n (align_slide_windows u (s ∷ segments) slide_nums slide_texts))
  align_slide_windows_lem s segments before n after slide_texts h last =
      let slide_nums = before ++ n ∷ after in
      let duration = last_end s.end segments ⊖ s.start in
      let per_slide = duration ⊘ d.of_int (pos (length slide_nums)) in
      let windows =
        window_of-aligned u s segments slide_nums slide_texts n h (has_slide-at before after n)
        ∙ ap (snapped_or true (keyword_span u (s ∷ segments) slide_texts n)) (
            even_windows-at s.start per_slide n 0 (length before) before after [] (omega arith)
              last) in
      subst
        (Aligned (s ∷ segments) (text_of_slide slide_texts n)
          (share_of s.start per_slide (length before)))
        (sym windows)
        (snapped-Aligned (s ∷ segments) (text_of_slide slide_texts n) _ _ (
          span_for-SpanIf (s ∷ segments) slide_texts
            (extract_keywords u (text_of_slide slide_texts n))))
