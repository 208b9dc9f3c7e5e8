-- ===== src/Double/FixedPoint.antt =====
-- The laws can be met: numbers with three decimal places, products and quotients cut off.
use native.Mathlib.Nat.{le-div_iff_mul-le, div-mul-le_self, mul-div_cancel_left}
use slidelens.Prelude.{ltb, ◌≤◌, zero, ℕ, suc, ◌+◌, ◌*◌, ◌/◌, ◌≡◌, true, arith}
use slidelens.Prelude.Int.{
  ℤ, pos, negsuc, pos_part, neg_part, sub_ℕ, ◌+ℤ◌, ◌-ℤ◌, leb_ℤ, ltb_ℤ, ℤ_antisymm,
}
use slidelens.Double.{Double, IsDouble}

-- Division is monotone.
div_le : (a b n : ℕ) → a ≤ b → a * 1000 / n ≤ b * 1000 / n
div_le a b zero h = omega arith
div_le a b (suc n) h =
    (le-div_iff_mul-le (omega arith)).1 (omega (arith, div-mul-le_self (a * 1000) (suc n)))

abbrev times : ℤ → ℤ → ℤ
times a b =
    sub_ℕ ((pos_part a * pos_part b + neg_part a * neg_part b) / 1000)
      ((pos_part a * neg_part b + neg_part a * pos_part b) / 1000)

abbrev over : ℤ → ℤ → ℤ
over a (pos n) = sub_ℕ (pos_part a * 1000 / n) (neg_part a * 1000 / n)
over a (negsuc n) = sub_ℕ (neg_part a * 1000 / suc n) (pos_part a * 1000 / suc n)

abbrev nearest : ℤ → ℤ
nearest a = sub_ℕ ((pos_part a + 500) / 1000) ((neg_part a + 500) / 1000)

instance abbrev pub fixed_double : Double ℤ
fixed_double = record {
  lit = λ a b. pos (a * 1000 / b);
  add = ◌+ℤ◌;
  sub = ◌-ℤ◌;
  mul = times;
  div = over;
  le = leb_ℤ;
  lt = ltb_ℤ;
  rounded = nearest;
  of_int = λ a. sub_ℕ (pos_part a * 1000) (neg_part a * 1000);
  scales = λ a. ltb (pos_part a + neg_part a) 1000000;
}

fixed_le_trans : (a b c : ℤ) → leb_ℤ a b ≡ true → leb_ℤ b c ≡ true → leb_ℤ a c ≡ true
fixed_le_trans a b c h k = ground arith

fixed_sub_mono :
    (a a' b b' : ℤ) → leb_ℤ a a' ≡ true → leb_ℤ b' b ≡ true → leb_ℤ (a -ℤ b) (a' -ℤ b') ≡ true
fixed_sub_mono a a' b b' h k = ground arith

fixed_mul_nonneg :
    (a b : ℤ) → leb_ℤ (pos 0) a ≡ true → leb_ℤ (pos 0) b ≡ true → leb_ℤ (pos 0) (times a b) ≡ true
fixed_mul_nonneg (pos a) (pos b) h k = ground arith
fixed_mul_nonneg (pos a) (negsuc b) h k = ground arith
fixed_mul_nonneg (negsuc a) b h k = ground arith

fixed_div_nonneg :
    (a b : ℤ) → leb_ℤ (pos 0) a ≡ true → ltb_ℤ (pos 0) b ≡ true → leb_ℤ (pos 0) (over a b) ≡ true
fixed_div_nonneg (pos a) (pos b) h k = ground arith
fixed_div_nonneg (negsuc a) (pos b) h k = ground arith
fixed_div_nonneg a (negsuc b) h k = ground arith

fixed_zero_mul : (a : ℤ) → times (pos 0) a ≡ pos 0
fixed_zero_mul (pos a) = ground arith
fixed_zero_mul (negsuc a) = ground arith

fixed_mul_zero : (a : ℤ) → times a (pos 0) ≡ pos 0
fixed_mul_zero (pos a) = ground arith
fixed_mul_zero (negsuc a) = ground arith

fixed_div_mono :
    (a b c : ℤ) → leb_ℤ a b ≡ true → ltb_ℤ (pos 0) c ≡ true → leb_ℤ (over a c) (over b c) ≡ true
fixed_div_mono a b (negsuc n) h k = ground arith
fixed_div_mono (pos a) (pos b) (pos n) h k = ground (arith, div_le a b n)
fixed_div_mono (negsuc a) (pos b) (pos n) h k = ground arith
fixed_div_mono (negsuc a) (negsuc b) (pos n) h k = ground (arith, div_le (suc b) (suc a) n)
fixed_div_mono (pos a) (negsuc b) (pos n) h k = ground arith

fixed_zero_div : (a : ℤ) → ltb_ℤ (pos 0) a ≡ true → over (pos 0) a ≡ pos 0
fixed_zero_div (pos a) h = ground arith
fixed_zero_div (negsuc a) h = ground arith

mul-div_self : (n : ℕ) → suc n * 1000 / suc n ≡ 1000
mul-div_self n = mul-div_cancel_left 1000 (omega arith)

fixed_div_self : (a : ℤ) → ltb_ℤ (pos 0) a ≡ true → over a a ≡ pos 1000
fixed_div_self (pos zero) h = cc
fixed_div_self (pos (suc n)) h = ground (arith, mul-div_self n)
fixed_div_self (negsuc n) h = ground arith

fixed_of_int_mono :
    (a b : ℤ) → leb_ℤ a b ≡ true → leb_ℤ (fixed_double.of_int a) (fixed_double.of_int b) ≡ true
fixed_of_int_mono (pos a) (pos b) h = ground arith
fixed_of_int_mono (negsuc a) (pos b) h = ground arith
fixed_of_int_mono (negsuc a) (negsuc b) h = ground arith
fixed_of_int_mono (pos a) (negsuc b) h = ground arith

fixed_rounded_mono : (a b : ℤ) → leb_ℤ a b ≡ true → leb_ℤ (nearest a) (nearest b) ≡ true
fixed_rounded_mono (pos a) (pos b) h = ground arith
fixed_rounded_mono (negsuc a) (pos b) h = ground arith
fixed_rounded_mono (negsuc a) (negsuc b) h = ground arith
fixed_rounded_mono (pos a) (negsuc b) h = ground arith

pub fixed-IsDouble : IsDouble ℤ
fixed-IsDouble = record {
  le_refl = λ a. ground arith;
  le_trans = fixed_le_trans;
  le_antisymm = ℤ_antisymm;
  le_total = λ a b h. ground arith;
  lt-eq-not-le = λ a b. ground arith;
  add_comm = λ a b. ground arith;
  sub_mono = fixed_sub_mono;
  sub_self = λ a. ground arith;
  sub_zero = λ a. ground arith;
  mul_nonneg = fixed_mul_nonneg;
  div_nonneg = fixed_div_nonneg;
  div_mono = fixed_div_mono;
  div_self = fixed_div_self;
  zero_div = fixed_zero_div;
  of_int_mono = fixed_of_int_mono;
  of_int_zero = ground arith;
  of_int_pos = λ n. ground arith;
  rounded_mono = fixed_rounded_mono;
  lit_pos = λ n. ground arith;
  rounded_lit = λ n h. ground arith;
  zero_mul = fixed_zero_mul;
  mul_zero = fixed_mul_zero;
  zero-le-one = ground arith;
}
