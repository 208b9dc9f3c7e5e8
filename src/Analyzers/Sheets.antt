-- ===== src/Analyzers/Sheets.antt =====
-- The groups of slides on the contact sheets (`_split_into_groups` of backend/core/analyzers/deck.py).
use slidelens.Prelude.{
  ℕ, zero, suc, ◌+◌, ◌-◌, ◌*◌, ◌/◌, ◌≤◌, ◌≡◌, refl, ◌∙◌, ap, List, [], ◌∷◌, ◌++◌, length, take,
  drop, arith, ◌==◌, if◌then◌else◌,
}
use slidelens.Prelude.Exec.{Result, ok, err}
use slidelens.Services.{Error, other}
use Prim.Native.Nat.{min, max}
use native.Mathlib.Nat.{add-div_left, lt-div-mul-add, mul_comm, zero-mul, suc-mul}

-- `math.ceil(a / b)`, for a positive `b`
abbrev pub ceil_div : ℕ → ℕ → ℕ
ceil_div a b = (a + (b - 1)) / b

module _ {A : Type 0} where
  -- Slices of a positive size; the fuel is the number of the items, and a slice takes one at least.
  chunks_from : ℕ → ℕ → List A → List (List A)
  chunks_from zero size items = []
  chunks_from (suc fuel) size [] = []
  chunks_from (suc fuel) size (x ∷ items) =
      take size (x ∷ items) ∷ chunks_from fuel size (drop size (x ∷ items))

  group_count : List A → ℕ → ℕ → ℕ
  group_count items max_groups max_per_group =
      let n = min max_groups (ceil_div (length items) max_per_group) in if n == 0 then 1 else n

  groups_of : List A → ℕ → ℕ → List (List A)
  unfolding chunks_from group_count
  groups_of items max_groups max_per_group =
      chunks_from (length items)
        (ceil_div (length items) (group_count items max_groups max_per_group)) items

  -- `_split_into_groups`: the division by `max_per_group` comes first, and then a `range` with a step
  -- that is zero for an empty list.
  pub split_into_groups : List A → ℕ → ℕ → Result Error (List (List A))
  unfolding groups_of
  split_into_groups items max_groups zero = err (other "ZeroDivisionError")
  split_into_groups [] max_groups (suc most) = err (other "ValueError")
  split_into_groups (x ∷ items) max_groups (suc most) =
      ok (groups_of (x ∷ items) max_groups (suc most))

  abbrev pub concat : List (List A) → List A
  concat [] = []
  concat (xs ∷ xss) = xs ++ concat xss

  take-drop : (n : ℕ) (xs : List A) → take n xs ++ drop n xs ≡ xs
  take-drop zero xs = refl
  take-drop (suc n) [] = refl
  take-drop (suc n) (x ∷ xs) = ap (◌∷◌ x) (take-drop n xs)

  length-drop : (n : ℕ) (xs : List A) → length (drop n xs) ≡ length xs - n
  length-drop zero xs = omega arith
  length-drop (suc n) [] = omega arith
  length-drop (suc n) (x ∷ xs) = omega (arith, length-drop n xs)

  concat-chunks_from :
      (fuel size : ℕ) (items : List A)
      → 1 ≤ size
      → length items ≤ fuel
      → concat (chunks_from fuel size items) ≡ items
  unfolding chunks_from
  concat-chunks_from zero size [] h enough = refl
  concat-chunks_from zero size (x ∷ items) h enough = absurd (omega arith)
  concat-chunks_from (suc fuel) size [] h enough = refl
  concat-chunks_from (suc fuel) size (x ∷ items) h enough =
      ap (λ rest. take size (x ∷ items) ++ rest)
        (concat-chunks_from fuel size (drop size (x ∷ items)) h
          (omega (arith, length-drop size (x ∷ items))))
      ∙ take-drop size (x ∷ items)

  length-chunks_from :
      (fuel size n : ℕ) (items : List A)
      → length items ≤ n * size
      → length (chunks_from fuel size items) ≤ n
  unfolding chunks_from
  length-chunks_from zero size n items h = omega arith
  length-chunks_from (suc fuel) size n [] h = omega arith
  length-chunks_from (suc fuel) size zero (x ∷ items) h = absurd (omega (arith, zero-mul size))
  length-chunks_from (suc fuel) size (suc n) (x ∷ items) h = omega (
    arith,
    length-chunks_from fuel size n (drop size (x ∷ items))
        (omega (arith, length-drop size (x ∷ items), suc-mul n size, h)),
  )

group_count_bounds :
    {A : Type 0} (items : List A) (max_groups max_per_group : ℕ)
    → (1 ≤ group_count items max_groups max_per_group)
      × (group_count items max_groups max_per_group ≤ max 1 max_groups)
unfolding group_count
group_count_bounds items max_groups max_per_group = (ground arith, ground arith)

ceil_div_positive : (a b : ℕ) → 1 ≤ a → 1 ≤ b → 1 ≤ ceil_div a b
ceil_div_positive a b ha hb =
    let split : a + (b - 1) ≡ b + (a - 1) = omega arith in
    rw (split, add-div_left (a - 1) {k = b} hb) (omega arith)

ceil_div_enough : (a b : ℕ) → 1 ≤ b → a ≤ b * ceil_div a b
ceil_div_enough a b hb =
    omega (arith, lt-div-mul-add {a = a + (b - 1)} {b = b} hb, mul_comm b (ceil_div a b))

-- The groups of a list with an item, for a positive size.
abbrev pub Grouped : {A : Type 0} → List A → ℕ → ℕ → Result Error (List (List A)) → Type 0
Grouped items max_groups zero out = out ≡ err (other "ZeroDivisionError")
Grouped [] max_groups (suc most) out = out ≡ err (other "ValueError")
Grouped {A} (x ∷ items) max_groups (suc most) out =
    (groups : List (List A)) × (out ≡ ok groups)
    × (concat groups ≡ x ∷ items)
    × (length groups ≤ max 1 max_groups)

-- For a deck with a slide and a positive number of slides per sheet, the contact sheets show every slide
-- once and in order, and there are at most `max_groups` of them, or one, if that is none. Without a
-- slide the split is a `ValueError`, and for no slides per sheet a `ZeroDivisionError`.
pub split_into_groups_lem :
    {A : Type 0} (items : List A) (max_groups max_per_group : ℕ)
    → Grouped items max_groups max_per_group (split_into_groups items max_groups max_per_group)
unfolding split_into_groups groups_of
split_into_groups_lem items max_groups zero = refl
split_into_groups_lem [] max_groups (suc most) = refl
split_into_groups_lem (x ∷ items) max_groups (suc most) =
    let all = x ∷ items in
    let n = group_count all max_groups (suc most) in
    let (positive, few) = group_count_bounds all max_groups (suc most) in
    (
      groups_of all max_groups (suc most),
      refl,
      concat-chunks_from (length all) (ceil_div (length all) n) all
          (ceil_div_positive (length all) n (omega arith) positive) (omega arith),
      omega (
        arith,
        few,
        length-chunks_from (length all) (ceil_div (length all) n) n all
            (ceil_div_enough (length all) n positive),
      ),
    )
