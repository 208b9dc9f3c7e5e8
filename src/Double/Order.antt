-- ===== src/Double/Order.antt =====
-- The order of doubles, and `max` and `min` in it.
use slidelens.Prelude.{◌≡◌, true, false, arith}
use slidelens.Double.{Double, IsDouble, max_of, min_of}

module _ {W : Type 0} ⦃d : Double W⦄ (l : IsDouble W) where
  pub le_of_lt : (a b : W) → d.lt a b ≡ true → d.le a b ≡ true
  le_of_lt a b h = ground (arith, l.lt-eq-not-le a b, l.le_total b a)

  pub le_of_not_lt : (a b : W) → d.lt a b ≡ false → d.le b a ≡ true
  le_of_not_lt a b h = ground (arith, l.lt-eq-not-le a b)

  pub max_of_comm : (a b : W) → max_of a b ≡ max_of b a
  unfolding max_of
  max_of_comm a b =
      ground (arith, l.lt-eq-not-le a b, l.lt-eq-not-le b a, l.le_total a b, l.le_antisymm a b)

  pub min_of_comm : (a b : W) → min_of a b ≡ min_of b a
  unfolding min_of
  min_of_comm a b =
      ground (arith, l.lt-eq-not-le a b, l.lt-eq-not-le b a, l.le_total a b, l.le_antisymm a b)

  pub max_of_le : (a b c : W) → d.le a c ≡ true → d.le b c ≡ true → d.le (max_of a b) c ≡ true
  unfolding max_of
  max_of_le a b c h k = ground arith

  pub le-max_of_left : (a b : W) → d.le a (max_of a b) ≡ true
  unfolding max_of
  le-max_of_left a b = ground (arith, le_of_lt a b, l.le_refl a)

  pub le-max_of_right : (a b : W) → d.le b (max_of a b) ≡ true
  unfolding max_of
  le-max_of_right a b = ground (arith, le_of_not_lt a b, l.le_refl b)

  pub min_of_le_left : (a b : W) → d.le (min_of a b) a ≡ true
  unfolding min_of
  min_of_le_left a b = ground (arith, le_of_lt b a, l.le_refl a)

  pub min_of_le_right : (a b : W) → d.le (min_of a b) b ≡ true
  unfolding min_of
  min_of_le_right a b = ground (arith, le_of_not_lt b a, l.le_refl b)

  pub le-min_of : (a b c : W) → d.le c a ≡ true → d.le c b ≡ true → d.le c (min_of a b) ≡ true
  unfolding min_of
  le-min_of a b c h k = ground arith
