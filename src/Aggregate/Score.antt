-- ===== src/Aggregate/Score.antt =====
-- The deck's score: its range, and that more findings never raise it.
use slidelens.Prelude.{
  ℕ, zero, suc, ◌+◌, ◌≡◌, refl, ap, true, List, [], ◌∷◌, ◌++◌, arith, if◌then◌else◌, leb, ◌∙◌, ◌≤◌,
}
use slidelens.Prelude.Int.{ℤ, pos, leb_ℤ, ℤ_antisymm}
use slidelens.Double.{Double, IsDouble}
use slidelens.Schemas.{Finding, Severity}
use slidelens.Aggregate.{total_weight, max_int, min_int, raw_score, score}

module _ {W : Type 0} ⦃d : Double W⦄ (l : IsDouble W) (weights : Severity → ℕ) (floor : ℤ) where
  abbrev points : List (Finding W) → ℕ → ℤ
  points = score {W = W} weights floor

  total_weight-append :
      (xs ys : List (Finding W))
      → total_weight weights (xs ++ ys) ≡ total_weight weights xs + total_weight weights ys
  unfolding total_weight
  total_weight-append [] ys = omega arith
  total_weight-append (x ∷ xs) ys = omega (arith, total_weight-append xs ys)

  abbrev clip : ℤ → ℤ
  clip r = max_int floor (min_int (pos 100) r)

  clip_mono : (a b : ℤ) → leb_ℤ a b ≡ true → leb_ℤ (clip a) (clip b) ≡ true
  unfolding max_int min_int
  clip_mono a b h = ground arith

  clip_bounds :
      (a : ℤ)
      → leb_ℤ floor (pos 100) ≡ true
      → (leb_ℤ floor (clip a) ≡ true) × (leb_ℤ (clip a) (pos 100) ≡ true)
  unfolding max_int min_int
  clip_bounds a h = ground arith

  raw_score_antitone :
      (a b n : ℕ)
      → a ≤ b
      → leb_ℤ (d.rounded (raw_score {W = W} b (suc n))) (d.rounded (raw_score {W = W} a (suc n)))
        ≡ true
  unfolding raw_score
  raw_score_antitone a b n h = l.rounded_mono _ _ (
      l.sub_mono (d.lit 100 1) (d.lit 100 1) _ _ (l.le_refl _)
        (l.div_mono _ _ _ (l.of_int_mono (pos a) (pos b) (ground arith)) (l.of_int_pos n)))

  raw_score_empty : (n : ℕ) → d.rounded (raw_score {W = W} 0 (suc n)) ≡ pos 100
  unfolding raw_score
  raw_score_empty n =
      rw (l.of_int_zero, l.zero_div _ (l.of_int_pos n), l.sub_zero)
        (l.rounded_lit 100 (omega arith))

  clip_full : leb_ℤ floor (pos 100) ≡ true → clip (pos 100) ≡ pos 100
  unfolding max_int min_int
  clip_full h = ground (arith, ℤ_antisymm floor (pos 100) h)

  -- The number of slides that the code divides by.
  slides_of : (n : ℕ) → (m : ℕ) × ((if leb n 1 then 1 else n) ≡ suc m)
  slides_of zero = (0, refl)
  slides_of (suc n) = (n, ground arith)

  -- With a floor of at most 100 the score lies between the floor and 100; a deck without findings
  -- has 100; and further findings never raise the score.
  pub score_lem :
      (findings more : List (Finding W)) (n_slides : ℕ)
      → leb_ℤ floor (pos 100) ≡ true
      → (leb_ℤ floor (points findings n_slides) ≡ true)
        × (leb_ℤ (points findings n_slides) (pos 100) ≡ true)
        × (points [] n_slides ≡ pos 100)
        × (leb_ℤ (points (findings ++ more) n_slides) (points findings n_slides) ≡ true)
  unfolding score total_weight
  score_lem findings more n_slides h =
      let (m, e) = slides_of n_slides in
      rw (e, total_weight-append findings more)
        (
          (clip_bounds _ h).0,
          (clip_bounds _ h).1,
          ap clip (raw_score_empty m) ∙ clip_full h,
          clip_mono _ _ (raw_score_antitone (total_weight weights findings) _ m (omega arith)),
        )
