-- ===== src/Services/Frame.antt =====
-- Which parts of the state an action leaves alone, whether it returns or raises.
use slidelens.Prelude.{ℕ, ◌≡◌, refl, ◌∙◌, List}
use slidelens.Prelude.Exec.{Result, ok, err, continue, ◌>>=◌}
use slidelens.Entities.{FileName, Bytes, FileAsset, Event}
use slidelens.Services.{World, Action, Error}

module _ {W X : Type 0} (φ : World W → X) where
  abbrev pub Keeps : {A : Type 0} → Action W A → Type 0
  Keeps m = (s : World W) → φ (m s).1 ≡ φ s

  Keeps-continue :
      {A B : Type 0} (r : Result Error A) (f : A → Action W B) (s : World W)
      → ((a : A) → Keeps (f a))
      → φ (continue r f s).1 ≡ φ s
  Keeps-continue (ok a) f s h = h a s
  Keeps-continue (err e) f s h = refl

  pub Keeps-bind :
      {A B : Type 0} (m : Action W A) (f : A → Action W B)
      → Keeps m
      → ((a : A) → Keeps (f a))
      → Keeps (m >>= f)
  Keeps-bind m f hm hf s = Keeps-continue (m s).0 f (m s).1 hf ∙ hm s

  -- The part does not depend on the files, their rows, the events or the supply of identifiers.
  pub record IgnoresFiles : Type 0 where
    pub ignores_files :
        (s : World W) (files : List (FileName × Bytes)) → φ (record s { files = files }) ≡ φ s
    pub ignores_assets :
        (s : World W) (assets : List FileAsset)
        → φ (record s { db = record s.db { assets = assets } }) ≡ φ s
    pub ignores_events :
        (s : World W) (events : List (Event W))
        → φ (record s { db = record s.db { events = events } }) ≡ φ s
    pub ignores_ids : (s : World W) (n : ℕ) → φ (record s { next_id = n }) ≡ φ s
