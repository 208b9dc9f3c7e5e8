-- ===== src/Aggregate/Cap.antt =====
-- The cap on the findings of one slide: how many are left, and that the most severe are.
use Prim.Native.Nat.{min}
use slidelens.Prelude.{
  ℕ, zero, suc, ◌+◌, ◌-◌, ◌≤◌, ◌<◌, ◌≡◌, refl, ap, Bool, true, false, ◌&&◌, Option, some, List, [],
  ◌∷◌, ◌++◌, inl, inr, Bool-cases, arith, All, if◌then◌else◌, ltb, leb, length, count, take,
  length-append, length-take, count-append, count-le-length, count-filter, length-filter,
  All-append, All-take,
}
use slidelens.Prelude.Int.{ℤ}
use slidelens.Prelude.Sort.{
  sort_by, count-sort_by, length-sort_by, All-sort_by, sort_by-IsSorted, IsSorted,
}
use slidelens.Schemas.{Finding, minor, same_slide}
use slidelens.Aggregate.{
  Groups, group_from, severity_order, by_severity, cap_group, cap_groups, cap_per_slide,
  misc_finding, misc_of,
}
use slidelens.Aggregate.Groups.{
  same_slide-eq, group_of, on_slide, IsDistinct, IsKeyed, group_of-by_slide, by_slide-lawful,
  group_of-absent,
}

-- How many findings a slide with `n` of them is left with.
abbrev pub capped_size : ℕ → ℕ → ℕ
capped_size max n = if leb n max then n else max + 1

module _ {W : Type 0} where
  -- More severe than the level `v` (0 critical, 1 major, 2 minor).
  abbrev pub above : ℕ → Finding W → Bool
  above v f = ltb (severity_order f.severity) v

  count-none :
      (p : Finding W → Bool) (xs : List (Finding W)) → All (λ f. p f ≡ false) xs → count p xs ≡ 0
  count-none p [] h = refl
  count-none p (x ∷ xs) h = rw h.0 (omega (arith, count-none p xs h.1))

  All-not_above :
      (v : ℕ) (x : Finding W) (xs : List (Finding W))
      → above v x ≡ false
      → All (λ y. by_severity x y ≡ true) xs
      → All (λ y. above v y ≡ false) xs
  unfolding by_severity
  All-not_above v x [] h hs = tt
  All-not_above v x (y ∷ ys) h hs = (ground arith, All-not_above v x ys h hs.1)

  -- The first entries of a list in order of severity are its most severe ones.
  count-take_severe :
      (v m : ℕ) (xs : List (Finding W))
      → IsSorted by_severity xs
      → count (above v) (take m xs) ≡ min m (count (above v) xs)
  count-take_severe v zero xs h = omega arith
  count-take_severe v (suc m) [] h = omega arith
  count-take_severe v (suc m) (x ∷ xs) h = elim (Bool-cases (above v x)) [
    | inl e ↦ rw e (omega (arith, count-take_severe v m xs h.1))
    | inr e ↦ rw e (
        omega (
          arith,
          count-take_severe v m xs h.1,
          count-none (above v) xs (All-not_above v x xs e h.0),
        ))
  ]

  by_severity-IsSorted : (xs : List (Finding W)) → IsSorted by_severity (sort_by by_severity xs)
  unfolding by_severity
  by_severity-IsSorted =
      sort_by-IsSorted by_severity (λ a b h. ground arith) (λ a b c h k. ground arith)

  -- The findings of one slide above a level; with level 3, all of them.
  abbrev pub at : Option ℤ → ℕ → Finding W → Bool
  at k v f = same_slide k f.slide_num && above v f

  misc_of-eq-some :
      (id : ℕ) (k : Option ℤ) (xs : List (Finding W)) (n : ℕ)
      → 0 < length xs
      → (misc : Finding W) × (misc_of id k xs n ≡ some misc)
        × (misc.slide_num ≡ k)
        × (misc.severity ≡ minor)
  unfolding misc_of
  misc_of-eq-some id k [] n h = absurd (omega arith)
  misc_of-eq-some id k (x ∷ xs) n h = (misc_finding id k x.category n, refl, refl, refl)

  severity_order-minor :
      (v : ℕ) (misc : Finding W) → misc.severity ≡ minor → v ≤ 2 → above v misc ≡ false
  unfolding severity_order
  severity_order-minor v misc e h = rw e (ground arith)

  module _ (uuid4 : ℕ → ℕ) (max : ℕ) where
    -- What the cap makes of one group.
    record Capped (k : Option ℤ) (group out : List (Finding W)) : Type 0 where
      keyed : All (λ f. f.slide_num ≡ k) out
      size : length out ≡ capped_size max (length group)
      severe : (v : ℕ) → v ≤ 2 → count (above v) out ≡ min max (count (above v) group)

    cap_group-Capped :
        (i : ℕ) (k : Option ℤ) (group : List (Finding W))
        → 0 < max
        → All (λ f. f.slide_num ≡ k) group
        → (out : List (Finding W)) × (cap_group uuid4 max i k group ≡ some out) × Capped k group out
    unfolding cap_group
    cap_group-Capped i k group pos keyed =
        let ordered = sort_by by_severity group in
        let all_keyed = All-sort_by by_severity (λ f. f.slide_num ≡ k) group keyed in
        let same_length = length-sort_by by_severity group in
        elim (Bool-cases (leb (length ordered) max)) [
          | inl fits ↦ (
            ordered,
            rw fits,
            record {
              keyed = all_keyed;
              size = ground (arith, same_length);
              severe = λ v h. ground (
                arith,
                same_length,
                count-le-length (above v) group,
                count-sort_by by_severity (above v) group,
              );
            },
          )
          | inr full ↦
              let (misc, e, on_k, is_minor) =
                misc_of-eq-some (uuid4 i) k (take max ordered) (length ordered - max)
                  (ground (arith, length-take max ordered)) in
              (
                take max ordered ++ misc ∷ [],
                rw (full, e),
                record {
                  keyed =
                      All-append _ (take max ordered) (misc ∷ [])
                        (All-take (λ f. f.slide_num ≡ k) max ordered all_keyed) (on_k, tt);
                  size = ground (
                    arith,
                    same_length,
                    length-append (take max ordered) (misc ∷ []),
                    length-take max ordered,
                  );
                  severe = λ v h. ground (
                    arith,
                    count-append (above v) (take max ordered) (misc ∷ []),
                    count-take_severe v max ordered (by_severity-IsSorted group),
                    count-sort_by by_severity (above v) group,
                    severity_order-minor v misc is_minor h,
                  );
                },
              )
        ]

    count_keyed :
        (k j : Option ℤ) (p : Finding W → Bool) (xs : List (Finding W))
        → All (λ f. f.slide_num ≡ j) xs
        → count (λ f. on_slide k f && p f) xs ≡ (if same_slide k j then count p xs else 0)
    count_keyed k j p [] h = ground arith
    count_keyed k j p (x ∷ xs) h = rw h.0 (ground (arith, count_keyed k j p xs h.1))

    length_keyed :
        (k j : Option ℤ) (xs : List (Finding W))
        → All (λ f. f.slide_num ≡ j) xs
        → count (on_slide k) xs ≡ (if same_slide k j then length xs else 0)
    length_keyed k j [] h = ground arith
    length_keyed k j (x ∷ xs) h = rw h.0 (ground (arith, length_keyed k j xs h.1))

    -- What the cap leaves of the findings that stood under each key.
    record Leaves (gs : Groups W) (out : List (Finding W)) : Type 0 where
      slides : (k : Option ℤ) → count (on_slide k) out ≡ capped_size max (length (group_of k gs))
      severest :
          (k : Option ℤ) (v : ℕ)
          → v ≤ 2
          → count (at k v) out ≡ min max (count (above v) (group_of k gs))

    Leaves-cons :
        (j : Option ℤ) (g : List (Finding W)) (gs : Groups W) (xs ys : List (Finding W))
        → All (λ e. same_slide j e.0 ≡ false) gs
        → Capped j g xs
        → Leaves gs ys
        → Leaves ((j, g) ∷ gs) (xs ++ ys)
    unfolding group_of
    Leaves-cons j g gs xs ys apart c h = record {
      slides = λ k. elim (Bool-cases (same_slide k j)) [
        | inl e ↦
            rw (e, count-append (on_slide k) xs ys, length_keyed k j xs c.keyed, e, c.size)
              (let absent : group_of k gs ≡ [] =
                  rw (same_slide-eq k j e) (group_of-absent j gs apart) in
                ground (arith, h.slides k, ap length absent))
        | inr e ↦
            rw (e, count-append (on_slide k) xs ys, length_keyed k j xs c.keyed, e)
              (ground (arith, h.slides k))
      ];
      severest = λ k v hv. elim (Bool-cases (same_slide k j)) [
        | inl e ↦
            rw
              (
                e,
                count-append (at k v) xs ys,
                count_keyed k j (above v) xs c.keyed,
                e,
                c.severe v hv,
              )
              (let absent : group_of k gs ≡ [] =
                  rw (same_slide-eq k j e) (group_of-absent j gs apart) in
                ground (arith, h.severest k v hv, ap (count (above v)) absent))
        | inr e ↦
            rw (e, count-append (at k v) xs ys, count_keyed k j (above v) xs c.keyed, e)
              (ground (arith, h.severest k v hv))
      ];
    }

    cap_groups-Leaves :
        (i : ℕ) (gs : Groups W)
        → 0 < max
        → IsDistinct gs
        → IsKeyed gs
        → (out : List (Finding W)) × (cap_groups uuid4 max i gs ≡ some out) × Leaves gs out
    unfolding cap_groups group_of
    cap_groups-Leaves i [] pos hd hk =
        ([], refl, record { slides = λ k. ground arith; severest = λ k v hv. omega arith })
    cap_groups-Leaves i ((j, g) ∷ gs) pos hd hk =
        let (xs, ex, c) = cap_group-Capped i j g pos hk.0 in
        let (ys, ey, h) = cap_groups-Leaves (i + 1) gs pos hd.1 hk.1 in
        (xs ++ ys, rw (ex, ey), Leaves-cons j g gs xs ys hd.0 c h)

    -- With a positive cap the code returns a list, in which each slide has its findings if they are
    -- within the cap, and else the cap's number and one more; and of the criticals (`v` is 1), or of
    -- the criticals and majors (`v` is 2), as many are left as the cap allows.
    pub cap_per_slide_lem :
        (findings : List (Finding W))
        → 0 < max
        → (out : List (Finding W)) × (cap_per_slide uuid4 max findings ≡ some out)
          × ((k : Option ℤ)
              → count (on_slide k) out ≡ capped_size max (count (on_slide k) findings))
          × ((k : Option ℤ) (v : ℕ)
              → v ≤ 2
              → count (at k v) out ≡ min max (count (at k v) findings))
    unfolding cap_per_slide
    cap_per_slide_lem findings pos =
        let lawful = by_slide-lawful findings in
        let (out, e, h) = cap_groups-Leaves 0 (group_from [] findings) pos lawful.0 lawful.1 in
        (
          out,
          e,
          λ k. rw (h.slides k, group_of-by_slide k findings, length-filter (on_slide k) findings),
          λ k v hv. rw (
            h.severest k v hv,
            group_of-by_slide k findings,
            count-filter (on_slide k) (above v) findings,
          ),
        )
