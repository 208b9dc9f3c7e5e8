-- ===== src/Llm/Price.antt =====
-- The price of a model (backend/core/llm/config.py).
use mathlib.Core.Path.{subst}
use slidelens.Prelude.{
  sym, ◌≡◌, ◌≤◌, refl, All, Any, Bool-cases, inl, inr, arith, ltb→lt, Option, none, some, List, [],
  ◌∷◌, filter, length, ltb, if◌then◌else◌,
}
use slidelens.Prelude.Text.{same_codes, starts_with}
use slidelens.Llm.{Text}

module _ {T : Type 0} where
  -- `table[model]`
  pub find_key : List (Text × T) → Text → Option T
  find_key [] model = none
  find_key ((key, price) ∷ table) model =
      if same_codes model key then some price else find_key table model

  -- `max(matches, key=len)`: the first of the longest.
  longest : Text × T → List (Text × T) → Text × T
  longest best [] = best
  longest best (entry ∷ table) =
      longest (if ltb (length best.0) (length entry.0) then entry else best) table

  longest_match : List (Text × T) → T → T
  unfolding longest
  longest_match [] fallback = fallback
  longest_match (entry ∷ table) fallback = (longest entry table).1

  price_or : T → Option T → T
  price_or other none = other
  price_or other (some price) = price

  -- The entries whose key begins the model's name.
  abbrev pub prefixes : List (Text × T) → Text → List (Text × T)
  prefixes table model = filter (λ (entry : Text × T). starts_with model entry.0) table

  -- `_lookup`, for a table whose keys are different.
  pub lookup : List (Text × T) → Text → T → T
  unfolding longest_match price_or
  lookup table model fallback =
      price_or (longest_match (prefixes table model) fallback) (find_key table model)

  -- Among the entries, and none is longer.
  abbrev pub IsLongest : Text × T → List (Text × T) → Type 0
  IsLongest best table =
      Any (λ entry. entry ≡ best) table
      × All (λ (entry : Text × T). length entry.0 ≤ length best.0) table

  longest-IsLongest :
      (best : Text × T) (table : List (Text × T)) → IsLongest (longest best table) (best ∷ table)
  unfolding longest
  longest-IsLongest best [] = (inl refl, (omega arith, tt))
  longest-IsLongest best (entry ∷ table) =
      elim (Bool-cases (ltb (length best.0) (length entry.0))) [
        | inl e ↦
            let (found, (first, rest)) = longest-IsLongest entry table in
            let same : longest best (entry ∷ table) ≡ longest entry table = rw e refl in
            subst (λ b. IsLongest b (best ∷ entry ∷ table)) (sym same)
              (
                inr found,
                (omega (arith, first, ltb→lt (length best.0) (length entry.0) e), (first, rest)),
              )
        | inr e ↦
            let (found, (first, rest)) = longest-IsLongest best table in
            let shorter : length entry.0 ≤ length best.0 = ground arith in
            let same : longest best (entry ∷ table) ≡ longest best table = rw e refl in
            subst (λ b. IsLongest b (best ∷ entry ∷ table)) (sym same)
              (
                elim found [ inl same ↦ inl same | inr later ↦ inr (inr later) ],
                (first, (omega (arith, first, shorter), rest)),
              )
      ]

  -- What a model costs that is no key of the table.
  abbrev pub Priced : List (Text × T) → T → T → Type 0
  Priced [] fallback price = price ≡ fallback
  Priced (entry ∷ matches) fallback price =
      (best : Text × T) × IsLongest best (entry ∷ matches) × (price ≡ best.1)

  longest_match-Priced :
      (matches : List (Text × T)) (fallback : T)
      → Priced matches fallback (longest_match matches fallback)
  unfolding longest_match
  longest_match-Priced [] fallback = refl
  longest_match-Priced (entry ∷ matches) fallback =
      (longest entry matches, longest-IsLongest entry matches, refl)

  -- By whether the model is a key of the table.
  abbrev pub LookedUp : List (Text × T) → Text → T → Option T → T → Type 0
  LookedUp table model fallback none price = Priced (prefixes table model) fallback price
  LookedUp table model fallback (some own) price = price ≡ own

  price_or-LookedUp :
      (table : List (Text × T)) (model : Text) (fallback : T) (o : Option T)
      → LookedUp table model fallback o (price_or (longest_match (prefixes table model) fallback) o)
  unfolding price_or
  price_or-LookedUp table model fallback none = longest_match-Priced (prefixes table model) fallback
  price_or-LookedUp table model fallback (some own) = refl

  -- A model that is a key of the table has that key's price. Any other model has the price of the
  -- longest key that its name begins with, or the fallback, if there is no such key.
  pub lookup-LookedUp :
      (table : List (Text × T)) (model : Text) (fallback : T)
      → LookedUp table model fallback (find_key table model) (lookup table model fallback)
  unfolding lookup
  lookup-LookedUp table model fallback =
      price_or-LookedUp table model fallback (find_key table model)
