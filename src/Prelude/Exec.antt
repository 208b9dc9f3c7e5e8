-- ===== src/Prelude/Exec.antt =====
-- Methods that mutate a state and may raise. What was written before a raise stays written, so the
-- state comes back beside the exception too.
use mathlib.Core.Path.{◌≡◌, refl}
use mathlib.Core.Bool.{Bool}
use mathlib.Core.List.{List, [], ◌∷◌}
use slidelens.Prelude.Tests.{if◌then◌else◌}

pub data Result {ℓ} (E A : Type ℓ) : Type ℓ where
  ok : A → Result E A
  err : E → Result E A

abbrev pub Exec {ℓ} : Type ℓ → Type ℓ → Type ℓ → Type ℓ
Exec S E A = S → Result E A × S

module _ {ℓ} {S E A : Type ℓ} where
  abbrev pub pure : A → Exec S E A
  pure a s = (ok a, s)

  abbrev pub raise : E → Exec S E A
  raise e s = (err e, s)

  abbrev pub gets : (S → A) → Exec S E A
  gets f s = (ok (f s), s)

  abbrev pub lift : Result E A → Exec S E A
  lift r s = (r, s)

module _ {S E : Type 0} where
  abbrev pub modify : (S → S) → Exec S E (Unit {0})
  modify f s = (ok tt, f s)

  abbrev pub raise_if : Bool → E → Exec S E (Unit {0})
  raise_if c e s = (if c then err e else ok tt, s)

-- What follows a call that ended with `r`.
abbrev pub continue {ℓ} : {S E A B : Type ℓ} → Result E A → (A → Exec S E B) → Exec S E B
continue (ok a) f s = f a s
continue (err e) f s = (err e, s)

infixl 5 ◌>>=◌ ◌>>◌
abbrev pub ◌>>=◌ {ℓ} : {S E A B : Type ℓ} → Exec S E A → (A → Exec S E B) → Exec S E B
◌>>=◌ m f s = continue (m s).0 f (m s).1

abbrev pub ◌>>◌ {ℓ} : {S E A B : Type ℓ} → Exec S E A → Exec S E B → Exec S E B
m >> k = m >>= λ _. k

abbrev pub handle {ℓ} : {S E A : Type ℓ} → Result E A → (E → Exec S E A) → Exec S E A
handle (ok a) h s = (ok a, s)
handle (err e) h s = h e s

-- `try: m` with `except Exception as e: handler(e)`.
abbrev pub catch {ℓ} : {S E A : Type ℓ} → Exec S E A → (E → Exec S E A) → Exec S E A
catch m h s = handle (m s).0 h (m s).1

module _ {ℓ} {S E A B : Type ℓ} where
  -- Inversion of a successful block: its first call succeeded, and the rest did after it.
  pub >>=-eq-ok :
      (m : Exec S E A) (f : A → Exec S E B) (s : S) {b : B} {t : S}
      → (m >>= f) s ≡ (ok b, t)
      → (a : A) × (s1 : S) × (m s ≡ (ok a, s1)) × (f a s1 ≡ (ok b, t))
  >>=-eq-ok m f s {b} {t} h = go (m s) refl h
    where
      go :
          (p : Result E A × S)
          → m s ≡ p
          → continue p.0 f p.1 ≡ (ok b, t)
          → (a : A) × (s1 : S) × (m s ≡ (ok a, s1)) × (f a s1 ≡ (ok b, t))
      go (ok a, s1) e k = (a, s1, e, k)
      go (err x, s1) e k = cc

-- The call returns a value from every state.
abbrev pub Succeeds {ℓ} : {S E A : Type ℓ} → Exec S E A → Type ℓ
Succeeds {S} {E} {A} m = (s : S) → (a : A) × (t : S) × (m s ≡ (ok a, t))

module _ {ℓ} {S E A B : Type ℓ} where
  pub Succeeds-bind :
      (m : Exec S E A) (f : A → Exec S E B)
      → Succeeds m
      → ((a : A) → Succeeds (f a))
      → Succeeds (m >>= f)
  Succeeds-bind m f hm hf s = let (a, s1, e) = hm s in let (b, s2, e') = hf a s1 in (b, s2, rw e e')

-- `asyncio.gather`: every call is made, in order, whatever the others do.
unfoldable pub gather_all : {S E A : Type 0} → List (Exec S E A) → S → List (Result E A) × S
gather_all [] s = ([], s)
gather_all (call ∷ calls) s =
    let (results, t) = gather_all calls (call s).1 in ((call s).0 ∷ results, t)

-- The values, or the first exception.
unfoldable pub first_error : {E A : Type 0} → List (Result E A) → Result E (List A)
first_error [] = ok []
first_error (err e ∷ results) = err e
first_error (ok a ∷ results) = elim (first_error results) [ ok as' ↦ ok (a ∷ as') | err e ↦ err e ]

unfoldable pub gather : {S E A : Type 0} → List (Exec S E A) → Exec S E (List A)
unfolding gather_all first_error
gather calls s = (first_error (gather_all calls s).0, (gather_all calls s).1)
