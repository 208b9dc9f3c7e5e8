-- ===== src/Prelude/Table.antt =====
-- A database table as a list of rows, addressed by a numeric key.
use Prim.Native.Nat.{ℕ, ◌+◌}
use mathlib.Core.Path.{◌≡◌, refl, ap, ◌∙◌}
use mathlib.Core.Logic.{inl, inr}
use mathlib.Core.Bool.{Bool, true}
use mathlib.Core.Option.{Option, none, some, some-injective}
use mathlib.Core.List.{List, [], ◌∷◌, ◌++◌}
use native.Mathlib.Omega.{arith}
use slidelens.Prelude.Tests.{◌==◌, if◌then◌else◌, Bool-cases}
use slidelens.Prelude.Lists.{count}

abbrev pub map_option : {A B : Type 0} → (A → B) → Option A → Option B
map_option f none = none
map_option f (some a) = some (f a)

same_key : (k : ℕ) → (k == k) ≡ true
same_key k = ground arith

module _ {R : Type 0} (key : R → ℕ) where
  -- The row with a primary key.
  unfoldable pub row_at : ℕ → List R → Option R
  row_at k [] = none
  row_at k (r ∷ rs) = if key r == k then some r else row_at k rs

  -- The row changed by `f`; nothing happens if there is none.
  unfoldable pub alter : ℕ → (R → R) → List R → List R
  alter k f [] = []
  alter k f (r ∷ rs) = if key r == k then f r ∷ rs else r ∷ alter k f rs

  pub row_at-alter :
      (j k : ℕ) (f : R → R) (rs : List R)
      → ((r : R) → key r ≡ k → key (f r) ≡ k)
      → row_at j (alter k f rs) ≡ (if j == k then map_option f (row_at k rs) else row_at j rs)
  unfolding row_at alter
  row_at-alter j k f [] h = ground arith
  row_at-alter j k f (r ∷ rs) h = ground (arith, h r, row_at-alter j k f rs h)

  pub row_at-append :
      (j : ℕ) (rs : List R) (r : R)
      → row_at j (rs ++ r ∷ [])
        ≡ elim (row_at j rs) [ none ↦ if key r == j then some r else none | some q ↦ some q ]
  unfolding row_at
  row_at-append j [] r = ground arith
  row_at-append j (q ∷ rs) r = ground (arith, row_at-append j rs r)

  -- A row found under a key has that key.
  pub key-row_at : (k : ℕ) (rs : List R) {r : R} → row_at k rs ≡ some r → key r ≡ k
  unfolding row_at
  key-row_at k [] h = cc
  key-row_at k (q ∷ rs) {r} h = ground (arith, key-row_at k rs {r = r})

  -- Altering one row moves a count by the difference that the row makes.
  pub count-alter :
      (p : R → Bool) (k : ℕ) (f : R → R) (rs : List R) {r : R}
      → row_at k rs ≡ some r
      → count p (alter k f rs) + (if p r then 1 else 0) ≡ count p rs + (if p (f r) then 1 else 0)
  unfolding row_at alter
  count-alter p k f [] h = cc
  count-alter p k f (q ∷ rs) {r} h = elim (Bool-cases (key q == k)) [
    | inl e ↦ rw e (ground arith)
    | inr e ↦ rw e (ground (arith, count-alter p k f rs {r = r} (rw e at h)))
  ]

  pub alter-alter :
      (k : ℕ) (f g : R → R) (rs : List R)
      → ((r : R) → key r ≡ k → key (g r) ≡ k)
      → alter k f (alter k g rs) ≡ alter k (λ r. f (g r)) rs
  unfolding alter
  alter-alter k f g [] h = refl
  alter-alter k f g (r ∷ rs) h = elim (Bool-cases (key r == k)) [
    | inl e ↦ rw e (ground (arith, h r))
    | inr e ↦ rw (e, e) (ap (◌∷◌ r) (alter-alter k f g rs h))
  ]

  -- A change that leaves the row as it is leaves the table as it is.
  pub alter_same :
      (k : ℕ) (f : R → R) (rs : List R) {r : R} → row_at k rs ≡ some r → f r ≡ r → alter k f rs ≡ rs
  unfolding row_at alter
  alter_same k f [] h e = refl
  alter_same k f (q ∷ rs) {r} h e = elim (Bool-cases (key q == k)) [
    | inl e' ↦
        rw e' (let same : q ≡ r = some-injective _ _ (rw e' at h) in rw same (ap (λ x. x ∷ rs) e))
    | inr e' ↦ rw e' (ap (◌∷◌ q) (alter_same k f rs (rw e' at h) e))
  ]

  -- The row under a key after that row was changed.
  pub row_at-altered :
      (j k : ℕ) (f : R → R) (rs : List R) {r : R}
      → j ≡ k
      → row_at k rs ≡ some r
      → ((r : R) → key (f r) ≡ key r)
      → row_at k (alter j f rs) ≡ some (f r)
  row_at-altered j k f rs e found keeps =
      rw (e, row_at-alter k k f rs (λ r h. keeps r ∙ h), same_key k, found) refl
