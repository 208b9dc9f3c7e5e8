-- ===== src/Analyzers/Spans.antt =====
-- From the least start to the greatest end of some segments (backend/core/analyzers/crossmodal.py).
use slidelens.Prelude.{
  ◌≡◌, refl, ◌∙◌, Bool, true, false, Option, none, some, List, [], ◌∷◌, arith, sym, All, Any, ◌⊎◌,
  inl, inr, Bool-cases, filter,
}
use slidelens.Double.{Double, IsDouble, min_of, max_of}
use slidelens.Double.Order.{le-max_of_left, le-max_of_right, min_of_le_left, min_of_le_right}
use slidelens.Analyzers.Responses.{TranscriptSegment}
use slidelens.Analyzers.Windows.{span_of, min_start, max_end}

module _ {W : Type 0} ⦃d : Double W⦄ (l : IsDouble W) where
  -- The least start and the greatest end of some segments.
  abbrev pub IsSpan : (TranscriptSegment W → Type 0) → List (TranscriptSegment W) → W × W → Type 0
  IsSpan P segments (a, b) =
      Any (λ s. P s × (s.start ≡ a)) segments
      × All (λ s. P s → d.le a s.start ≡ true) segments
      × Any (λ s. P s × (s.end ≡ b)) segments
      × All (λ s. P s → d.le s.end b ≡ true) segments

  min_start-le :
      (least : W) (segments : List (TranscriptSegment W))
      → (d.le (min_start least segments) least ≡ true)
        × All (λ s. d.le (min_start least segments) s.start ≡ true) segments
  unfolding min_start
  min_start-le least [] = (l.le_refl least, tt)
  min_start-le least (s ∷ segments) =
      let (low, rest) = min_start-le (min_of least s.start) segments in
      (
        l.le_trans _ _ _ low (min_of_le_left l least s.start),
        (l.le_trans _ _ _ low (min_of_le_right l least s.start), rest),
      )

  max_end-le :
      (most : W) (segments : List (TranscriptSegment W))
      → (d.le most (max_end most segments) ≡ true)
        × All (λ s. d.le s.end (max_end most segments) ≡ true) segments
  unfolding max_end
  max_end-le most [] = (l.le_refl most, tt)
  max_end-le most (s ∷ segments) =
      let (high, rest) = max_end-le (max_of most s.end) segments in
      (
        l.le_trans _ _ _ (le-max_of_left l most s.end) high,
        (l.le_trans _ _ _ (le-max_of_right l most s.end) high, rest),
      )

  min_of-one : (a b : W) → (min_of a b ≡ a) ⊎ (min_of a b ≡ b)
  unfolding min_of
  min_of-one a b = elim (Bool-cases (d.lt b a)) [
    | inl e ↦ inr (rw e refl)
    | inr e ↦ inl (rw e refl)
  ]

  max_of-one : (a b : W) → (max_of a b ≡ a) ⊎ (max_of a b ≡ b)
  unfolding max_of
  max_of-one a b = elim (Bool-cases (d.lt a b)) [
    | inl e ↦ inr (rw e refl)
    | inr e ↦ inl (rw e refl)
  ]

  min_start-one :
      (least : W) (segments : List (TranscriptSegment W))
      → (min_start least segments ≡ least) ⊎ Any (λ s. s.start ≡ min_start least segments) segments
  unfolding min_start
  min_start-one least [] = inl refl
  min_start-one least (s ∷ segments) = elim (min_start-one (min_of least s.start) segments) [
    | inr there ↦ inr (inr there)
    | inl here ↦ elim (min_of-one least s.start) [
      | inl e ↦ inl (here ∙ e)
      | inr e ↦ inr (inl (sym (here ∙ e)))
    ]
  ]

  max_end-one :
      (most : W) (segments : List (TranscriptSegment W))
      → (max_end most segments ≡ most) ⊎ Any (λ s. s.end ≡ max_end most segments) segments
  unfolding max_end
  max_end-one most [] = inl refl
  max_end-one most (s ∷ segments) = elim (max_end-one (max_of most s.end) segments) [
    | inr there ↦ inr (inr there)
    | inl here ↦ elim (max_of-one most s.end) [
      | inl e ↦ inl (here ∙ e)
      | inr e ↦ inr (inl (sym (here ∙ e)))
    ]
  ]

  -- The span of the segments that pass a test, if there are any.
  abbrev pub SpanIf :
      (TranscriptSegment W → Bool) → List (TranscriptSegment W) → Option (W × W) → Type 0
  SpanIf p segments none = All (λ s. p s ≡ false) segments
  SpanIf p segments (some span) = IsSpan (λ s. p s ≡ true) segments span

  module _ (p : TranscriptSegment W → Bool) where
    All-filtered :
        (Q : TranscriptSegment W → Type 0) (segments : List (TranscriptSegment W))
        → All Q (filter p segments)
        → All (λ s. p s ≡ true → Q s) segments
    All-filtered Q [] h = tt
    All-filtered Q (s ∷ segments) h = elim (Bool-cases (p s)) [
      | inl e ↦ let (mine, rest) = rw e at h in ((λ _. mine), All-filtered Q segments rest)
      | inr e ↦ ((λ is. absurd (ground (arith, e, is))), All-filtered Q segments (rw e at h))
    ]

    Any-filtered :
        (Q : TranscriptSegment W → Type 0) (segments : List (TranscriptSegment W))
        → Any Q (filter p segments)
        → Any (λ s. (p s ≡ true) × Q s) segments
    Any-filtered Q [] h = absurd h
    Any-filtered Q (s ∷ segments) h = elim (Bool-cases (p s)) [
      | inl e ↦ elim (rw e at h) [
        | inl mine ↦ inl (e, mine)
        | inr rest ↦ inr (Any-filtered Q segments rest)
      ]
      | inr e ↦ inr (Any-filtered Q segments (rw e at h))
    ]

    filter-none :
        (segments : List (TranscriptSegment W))
        → filter p segments ≡ []
        → All (λ s. p s ≡ false) segments
    filter-none [] h = tt
    filter-none (s ∷ segments) h = elim (Bool-cases (p s)) [
      | inl e ↦ absurd (cc (rw e at h))
      | inr e ↦ (e, filter-none segments (rw e at h))
    ]

    from_start :
        (s : TranscriptSegment W) (matches : List (TranscriptSegment W))
        → Any (λ q. q.start ≡ min_start s.start matches) (s ∷ matches)
    from_start s matches = elim (min_start-one s.start matches) [
      | inl e ↦ inl (sym e)
      | inr there ↦ inr there
    ]

    to_end :
        (s : TranscriptSegment W) (matches : List (TranscriptSegment W))
        → Any (λ q. q.end ≡ max_end s.end matches) (s ∷ matches)
    to_end s matches = elim (max_end-one s.end matches) [
      | inl e ↦ inl (sym e)
      | inr there ↦ inr there
    ]

    pub span_of-SpanIf :
        (segments matches : List (TranscriptSegment W))
        → filter p segments ≡ matches
        → SpanIf p segments (span_of matches)
    unfolding span_of
    span_of-SpanIf segments [] h = filter-none segments h
    span_of-SpanIf segments (s ∷ matches) h = (
      Any-filtered _ segments (rw h (from_start s matches)),
      All-filtered _ segments (rw h (min_start-le s.start matches)),
      Any-filtered _ segments (rw h (to_end s matches)),
      All-filtered _ segments (rw h (max_end-le s.end matches)),
    )
