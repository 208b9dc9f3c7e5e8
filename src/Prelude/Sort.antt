-- ===== src/Prelude/Sort.antt =====
-- Python's `list.sort(key=...)`: a stable sort. A stable sort's result does not depend on its
-- algorithm, so it is given by insertion; `le a b` is the comparison `key(a) <= key(b)`.
use Prim.Native.Nat.{◌+◌}
use mathlib.Core.Path.{◌≡◌, refl}
use mathlib.Core.Logic.{inl, inr}
use mathlib.Core.Bool.{Bool, true, false}
use mathlib.Core.List.{List, [], ◌∷◌}
use native.Mathlib.Omega.{arith}
use slidelens.Prelude.Tests.{if◌then◌else◌, Bool-cases}
use slidelens.Prelude.Lists.{length, count, All}

module _ {A : Type 0} (le : A → A → Bool) where
  pub insert_sorted : A → List A → List A
  insert_sorted x [] = x ∷ []
  insert_sorted x (y ∷ ys) = if le x y then x ∷ y ∷ ys else y ∷ insert_sorted x ys

  unfoldable pub sort_by : List A → List A
  unfolding insert_sorted
  sort_by [] = []
  sort_by (x ∷ xs) = insert_sorted x (sort_by xs)

  -- Each entry is at most all that follow it.
  abbrev pub IsSorted : List A → Type 0
  IsSorted [] = Unit
  IsSorted (x ∷ xs) = All (λ y. le x y ≡ true) xs × IsSorted xs

  All-insert_sorted :
      (P : A → Type 0) (x : A) (ys : List A) → P x → All P ys → All P (insert_sorted x ys)
  unfolding insert_sorted
  All-insert_sorted P x [] p h = (p, tt)
  All-insert_sorted P x (y ∷ ys) p h = elim (Bool-cases (le x y)) [
    | inl e ↦ rw e (p, h)
    | inr e ↦ rw e (h.0, All-insert_sorted P x ys p h.1)
  ]

  -- What every entry of a list has, every entry of the sorted list has.
  pub All-sort_by : (P : A → Type 0) (xs : List A) → All P xs → All P (sort_by xs)
  unfolding sort_by
  All-sort_by P [] h = tt
  All-sort_by P (x ∷ xs) h = All-insert_sorted P x (sort_by xs) h.0 (All-sort_by P xs h.1)

  count-insert_sorted :
      (p : A → Bool) (x : A) (ys : List A)
      → count p (insert_sorted x ys) ≡ (if p x then 1 else 0) + count p ys
  unfolding insert_sorted
  count-insert_sorted p x [] = refl
  count-insert_sorted p x (y ∷ ys) = elim (Bool-cases (le x y)) [
    | inl e ↦ rw e
    | inr e ↦ rw e (omega (arith, count-insert_sorted p x ys))
  ]

  -- Sorting keeps how many entries pass any test.
  pub count-sort_by : (p : A → Bool) (xs : List A) → count p (sort_by xs) ≡ count p xs
  unfolding sort_by
  count-sort_by p [] = refl
  count-sort_by p (x ∷ xs) = omega (arith, count-insert_sorted p x (sort_by xs), count-sort_by p xs)

  length-insert_sorted : (x : A) (ys : List A) → length (insert_sorted x ys) ≡ length ys + 1
  unfolding insert_sorted
  length-insert_sorted x [] = refl
  length-insert_sorted x (y ∷ ys) = ground (arith, length-insert_sorted x ys)

  pub length-sort_by : (xs : List A) → length (sort_by xs) ≡ length xs
  unfolding sort_by
  length-sort_by [] = refl
  length-sort_by (x ∷ xs) = omega (arith, length-insert_sorted x (sort_by xs), length-sort_by xs)

  module _ (total : (a b : A) → le a b ≡ false → le b a ≡ true)
      (trans : (a b c : A) → le a b ≡ true → le b c ≡ true → le a c ≡ true) where
    All-le_trans :
        (x y : A) (ys : List A)
        → le x y ≡ true
        → All (λ z. le y z ≡ true) ys
        → All (λ z. le x z ≡ true) ys
    All-le_trans x y [] e h = tt
    All-le_trans x y (z ∷ ys) e h = (trans x y z e h.0, All-le_trans x y ys e h.1)

    insert_sorted-IsSorted : (x : A) (ys : List A) → IsSorted ys → IsSorted (insert_sorted x ys)
    unfolding insert_sorted
    insert_sorted-IsSorted x [] h = (tt, tt)
    insert_sorted-IsSorted x (y ∷ ys) h = elim (Bool-cases (le x y)) [
      | inl e ↦ rw e ((e, All-le_trans x y ys e h.0), h)
      | inr e ↦ rw e (
        All-insert_sorted (λ z. le y z ≡ true) x ys (total x y e) h.0,
        insert_sorted-IsSorted x ys h.1,
      )
    ]

    pub sort_by-IsSorted : (xs : List A) → IsSorted (sort_by xs)
    unfolding sort_by
    sort_by-IsSorted [] = tt
    sort_by-IsSorted (x ∷ xs) = insert_sorted-IsSorted x (sort_by xs) (sort_by-IsSorted xs)
