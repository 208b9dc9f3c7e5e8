-- ===== src/Analyzers/Metrics.antt =====
-- The delivery metrics are those that their schema accepts (backend/core/transcribe.py).
use mathlib.Core.Path.{subst, sym}
use slidelens.Prelude.{
  ℕ, zero, suc, ap, ◌++◌, Bool, drop, ◌≡◌, ◌<◌, refl, String, true, false, List, [], ◌∷◌, map, All,
  Any, ◌==◌, length, if◌then◌else◌, Bool-cases, inl, inr, arith,
}
use slidelens.Prelude.Int.{pos}
use slidelens.Prelude.Text.{codes, starts_with}
use slidelens.Double.{Double, IsDouble, ◌⊖◌, nought}
use slidelens.Entities.{DeliveryMetrics}
use slidelens.Analyzers.Responses.{TranscriptSegment}
use slidelens.Analyzers.Delivery.{
  Unicode, word_at, filler_here, count_filler_from, count_fillers, long_pauses_of, rate,
  compute_delivery, filler_words, join_spaces,
}

-- The text `s` after the characters `before`, which are read backwards.
abbrev pub onto : List ℕ → List ℕ → List ℕ
onto [] s = s
onto (c ∷ before) s = onto before (c ∷ s)

-- The filler stands in the text, with no word character just before it and none just after it.
abbrev pub IsSaid : Unicode → List ℕ → List ℕ → Type 0
IsSaid u filler text =
    (before : List ℕ) × (after : List ℕ) × (text ≡ onto before (filler ++ after))
    × (word_at u before ≡ false)
    × (word_at u after ≡ false)

prefix-drop :
    (s filler : List ℕ) → starts_with s filler ≡ true → s ≡ filler ++ drop (length filler) s
unfolding starts_with
prefix-drop s [] h = refl
prefix-drop [] (d ∷ filler) h = cc
prefix-drop (c ∷ s) (d ∷ filler) h =
    let same : c ≡ d = ground arith in
    let rest : starts_with s filler ≡ true = ground arith in
    rw same (ap (◌∷◌ d) (prefix-drop s filler rest))

module _ (u : Unicode) (filler : List ℕ) where
  here-IsSaid :
      (before s : List ℕ)
      → filler_here u filler (word_at u before) s ≡ true
      → IsSaid u filler (onto before s)
  unfolding filler_here
  here-IsSaid before s h =
      let starts : starts_with s filler ≡ true = ground arith in
      (
        before,
        drop (length filler) s,
        ap (onto before) (prefix-drop s filler starts),
        ground arith,
        ground arith,
      )

  counted-IsSaid :
      (skip : ℕ) (before s : List ℕ)
      → 0 < count_filler_from u filler skip (word_at u before) s
      → IsSaid u filler (onto before s)
  unfolding count_filler_from
  counted-IsSaid skip before [] h = absurd (omega arith)
  counted-IsSaid (suc skip) before (c ∷ s) h = counted-IsSaid skip (c ∷ before) s h
  counted-IsSaid zero before (c ∷ s) h =
      elim (Bool-cases (filler_here u filler (word_at u before) (c ∷ s))) [
        | inl e ↦ here-IsSaid before (c ∷ s) e
        | inr e ↦ counted-IsSaid 0 (c ∷ before) s (rw e at h)
      ]

count_fillers-IsSaid :
    (u : Unicode) (fillers : List String) (text : List ℕ)
    → All (λ (f : String × ℕ). (0 < f.1) × IsSaid u (codes f.0) text) (count_fillers u fillers text)
unfolding count_fillers
count_fillers-IsSaid u [] text = tt
count_fillers-IsSaid u (filler ∷ fillers) text =
    let n = count_filler_from u (codes filler) 0 false text in
    let rest = count_fillers-IsSaid u fillers text in
    elim (Bool-cases (n == 0)) [
      | inl e ↦ rw e rest
      | inr e ↦
          let positive : 0 < n = ground arith in
          rw e ((positive, counted-IsSaid u (codes filler) 0 [] text positive), rest)
    ]

module _ {W : Type 0} ⦃d : Double W⦄ (l : IsDouble W) where
  rate_nonneg : (words : ℕ) (minutes : W) → d.le nought (rate words minutes) ≡ true
  unfolding rate
  rate_nonneg words minutes = elim (Bool-cases (d.lt nought minutes)) [
    | inl e ↦ rw e (l.div_nonneg _ _ (of_nat_nonneg words) e)
    | inr e ↦ rw e (l.le_refl nought)
  ]
    where
      of_nat_nonneg : (n : ℕ) → d.le nought (d.of_int (pos n)) ≡ true
      of_nat_nonneg n = rw l.of_int_zero at (l.of_int_mono (pos 0) (pos n) (ground arith))

module _ {W : Type 0} ⦃d : Double W⦄ where
  -- More than 3 seconds separate the two segments.
  abbrev pub Pauses : TranscriptSegment W → TranscriptSegment W → Type 0
  Pauses a b = d.lt (d.lit 3 1) (b.start ⊖ a.end) ≡ true

  -- A time at which a segment ends that a long pause separates from the next one.
  abbrev pub IsPause : List (TranscriptSegment W) → W → Type 0
  IsPause segments p =
      (before : List (TranscriptSegment W)) × (a : TranscriptSegment W) × (b : TranscriptSegment W)
      × (after : List (TranscriptSegment W)) × (segments ≡ before ++ a ∷ b ∷ after)
      × (a.end ≡ p)
      × Pauses a b

  IsPause-later :
      (x : TranscriptSegment W) (segments : List (TranscriptSegment W)) (ps : List W)
      → All (IsPause segments) ps
      → All (IsPause (x ∷ segments)) ps
  IsPause-later x segments [] h = tt
  IsPause-later x segments (p ∷ ps) ((before, a, b, after, e, ends, long), h) =
      ((x ∷ before, a, b, after, ap (◌∷◌ x) e, ends, long), IsPause-later x segments ps h)

  long_pauses_of-IsPause :
      (segments : List (TranscriptSegment W)) → All (IsPause segments) (long_pauses_of segments)
  unfolding long_pauses_of
  long_pauses_of-IsPause [] = tt
  long_pauses_of-IsPause (a ∷ []) = tt
  long_pauses_of-IsPause (a ∷ b ∷ segments) =
      let rest = IsPause-later a (b ∷ segments) _ (long_pauses_of-IsPause (b ∷ segments)) in
      elim (Bool-cases (d.lt (d.lit 3 1) (b.start ⊖ a.end))) [
        | inl e ↦ rw e (([], a, b, segments, refl, refl, e), rest)
        | inr e ↦ rw e rest
      ]

  Any-later :
      (c : Bool) (t p : W) (ps : List W)
      → Any (λ q. q ≡ t) ps
      → Any (λ q. q ≡ t) (if c then p ∷ ps else ps)
  Any-later true t p ps h = inr h
  Any-later false t p ps h = h

  -- A long pause after the segments `before` is listed.
  listed :
      (before : List (TranscriptSegment W)) (a b : TranscriptSegment W)
      (after : List (TranscriptSegment W))
      → Pauses a b
      → Any (λ q. q ≡ a.end) (long_pauses_of (before ++ a ∷ b ∷ after))
  unfolding long_pauses_of
  listed [] a b after long = rw long (inl refl)
  listed (x ∷ []) a b after long = Any-later _ a.end x.end _ (listed [] a b after long)
  listed (x ∷ y ∷ before) a b after long =
      Any-later _ a.end x.end _ (listed (y ∷ before) a b after long)

  -- The text in which the fillers are sought.
  abbrev pub spoken : Unicode → List (TranscriptSegment W) → List ℕ
  spoken u segments = u.lowered (join_spaces (map (λ (t : TranscriptSegment W). t.text) segments))

  -- What the schema of the metrics asks for, what the fillers are, and what the pauses are.
  abbrev pub SoundMetrics : Unicode → List (TranscriptSegment W) → DeliveryMetrics W → Type 0
  SoundMetrics u segments metrics =
      (d.le nought metrics.words_per_minute ≡ true)
      × All (λ (f : String × ℕ). (0 < f.1) × IsSaid u (codes f.0) (spoken u segments))
          metrics.filler_words
      × All (IsPause segments) metrics.long_pauses
      × ((before : List (TranscriptSegment W)) (a b : TranscriptSegment W)
            (after : List (TranscriptSegment W))
          → segments ≡ before ++ a ∷ b ∷ after
          → Pauses a b
          → Any (λ q. q ≡ a.end) metrics.long_pauses)

  no_pair :
      (before : List (TranscriptSegment W)) (a b : TranscriptSegment W)
      (after : List (TranscriptSegment W))
      → [] ≡ before ++ a ∷ b ∷ after
      → ⊥
  no_pair [] a b after e = cc
  no_pair (x ∷ before) a b after e = cc

  -- For any transcript: the words per minute are not negative, so that the metrics' schema accepts
  -- them; every filler word that is listed has a positive count and stands in the lowered text, with no
  -- word character just before or after it; each long pause listed is the end of a segment that more than 3
  -- seconds separate from the next one; and the end of every such segment is listed.
  pub compute_delivery-SoundMetrics :
      IsDouble W
      → (u : Unicode) (segments : List (TranscriptSegment W))
      → SoundMetrics u segments (compute_delivery u segments)
  unfolding compute_delivery
  compute_delivery-SoundMetrics l u [] =
      (l.le_refl nought, tt, tt, λ before a b after e long. absurd (no_pair before a b after e))
  compute_delivery-SoundMetrics l u (s ∷ segments) = (
    rate_nonneg l _ _,
    count_fillers-IsSaid u filler_words (spoken u (s ∷ segments)),
    long_pauses_of-IsPause (s ∷ segments),
    λ before a b after e long.
        subst (λ x. Any (λ q. q ≡ a.end) (long_pauses_of x)) (sym e) (listed before a b after long),
  )
