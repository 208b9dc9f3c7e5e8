-- ===== src/Double.antt =====
-- Python's `float`, as far as the program uses it: an interface of operations, and the laws of
-- IEEE 754 arithmetic that the proofs need. The carrier is the finite doubles, with the two zeros
-- taken as one value, as `==` takes them.
pub mod FixedPoint
pub mod Order
use slidelens.Prelude.{ℕ, suc, ◌^◌, ◌≤◌, ◌≡◌, Bool, true, false, not, if◌then◌else◌}
use slidelens.Prelude.Int.{ℤ, pos, leb_ℤ}

pub record Double (W : Type 0) : Type 0 where
  -- the double nearest to the quotient of two naturals, which is what a literal denotes
  pub lit : ℕ → ℕ → W
  pub add : W → W → W
  pub sub : W → W → W
  pub mul : W → W → W
  pub div : W → W → W
  pub le : W → W → Bool
  pub lt : W → W → Bool
  -- Python's `round` to an integer
  pub rounded : W → ℤ
  pub of_int : ℤ → W
  -- whether the true division of an integer by 1000 stays in range, or is an `OverflowError`
  pub scales : ℤ → Bool

infixl 65 ◌⊕◌ ◌⊖◌
infixl 70 ◌⊗◌ ◌⊘◌
module _ {W : Type 0} ⦃d : Double W⦄ where
  abbrev pub ◌⊕◌ : W → W → W
  ◌⊕◌ = d.add

  abbrev pub ◌⊖◌ : W → W → W
  ◌⊖◌ = d.sub

  abbrev pub ◌⊗◌ : W → W → W
  ◌⊗◌ = d.mul

  abbrev pub ◌⊘◌ : W → W → W
  ◌⊘◌ = d.div

  abbrev pub nought : W
  nought = d.lit 0 1

  abbrev pub unit : W
  unit = d.lit 1 1

  -- `max(a, b)` and `min(a, b)` keep the first argument unless the second is better.
  unfoldable pub max_of : W → W → W
  max_of a b = if d.lt a b then b else a

  unfoldable pub min_of : W → W → W
  min_of a b = if d.lt b a then b else a

-- Rounding to nearest is monotone and gives an exact result where one is representable; these are
-- its consequences that the program relies on.
pub record IsDouble (W : Type 0) ⦃d : Double W⦄ : Type 0 where
  pub le_refl : (a : W) → d.le a a ≡ true
  pub le_trans : (a b c : W) → d.le a b ≡ true → d.le b c ≡ true → d.le a c ≡ true
  pub le_antisymm : (a b : W) → d.le a b ≡ true → d.le b a ≡ true → a ≡ b
  pub le_total : (a b : W) → d.le a b ≡ false → d.le b a ≡ true
  pub lt-eq-not-le : (a b : W) → d.lt a b ≡ not (d.le b a)
  pub add_comm : (a b : W) → d.add a b ≡ d.add b a
  pub sub_mono :
      (a a' b b' : W) → d.le a a' ≡ true → d.le b' b ≡ true → d.le (d.sub a b) (d.sub a' b') ≡ true
  pub sub_self : (a : W) → d.sub a a ≡ d.lit 0 1
  pub sub_zero : (a : W) → d.sub a (d.lit 0 1) ≡ a
  pub mul_nonneg :
      (a b : W)
      → d.le (d.lit 0 1) a ≡ true
      → d.le (d.lit 0 1) b ≡ true
      → d.le (d.lit 0 1) (d.mul a b) ≡ true
  pub div_nonneg :
      (a b : W)
      → d.le (d.lit 0 1) a ≡ true
      → d.lt (d.lit 0 1) b ≡ true
      → d.le (d.lit 0 1) (d.div a b) ≡ true
  pub div_mono :
      (a b c : W)
      → d.le a b ≡ true
      → d.lt (d.lit 0 1) c ≡ true
      → d.le (d.div a c) (d.div b c) ≡ true
  pub div_self : (a : W) → d.lt (d.lit 0 1) a ≡ true → d.div a a ≡ d.lit 1 1
  pub zero_div : (a : W) → d.lt (d.lit 0 1) a ≡ true → d.div (d.lit 0 1) a ≡ d.lit 0 1
  pub of_int_mono : (a b : ℤ) → leb_ℤ a b ≡ true → d.le (d.of_int a) (d.of_int b) ≡ true
  pub of_int_zero : d.of_int (pos 0) ≡ d.lit 0 1
  pub of_int_pos : (n : ℕ) → d.lt (d.lit 0 1) (d.of_int (pos (suc n))) ≡ true
  pub rounded_mono : (a b : W) → d.le a b ≡ true → leb_ℤ (d.rounded a) (d.rounded b) ≡ true
  pub lit_pos : (n : ℕ) → d.lt (d.lit 0 1) (d.lit (suc n) 1) ≡ true
  pub rounded_lit : (n : ℕ) → n ≤ 2 ^ 53 → d.rounded (d.lit n 1) ≡ pos n
  pub zero_mul : (a : W) → d.mul (d.lit 0 1) a ≡ d.lit 0 1
  pub mul_zero : (a : W) → d.mul a (d.lit 0 1) ≡ d.lit 0 1
  pub zero-le-one : d.le (d.lit 0 1) (d.lit 1 1) ≡ true
