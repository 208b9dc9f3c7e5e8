-- ===== src/Schemas.antt =====
-- The contracts of the pipeline (backend/core/schemas.py). A UUID is a number, since the program
-- only compares identifiers.
use slidelens.Prelude.{ℕ, ◌≡◌, String, Bool, true, false, Option, none, some, ◌&&◌, if◌then◌else◌}
use slidelens.Prelude.Int.{ℤ, leb_ℤ}
use slidelens.Double.{Double, nought, unit}

pub data Category : Type 0 where
  typography hierarchy readability consistency chart narrative speech_mismatch delivery : Category

pub data Severity : Type 0 where
  critical major minor : Severity

pub record BBox (W : Type 0) : Type 0 where
  pub x : W
  pub y : W
  pub w : W
  pub h : W

pub record Finding (W : Type 0) : Type 0 where
  pub id : ℕ
  pub slide_num : Option ℤ
  pub category : Category
  pub severity : Severity
  pub title : String
  pub description : String
  pub fix_suggestion : String
  pub bbox : Option (BBox W)
  pub auto_fixable : Bool
  pub auto_fixed : Bool
  pub source : Option String

-- The field validators of `BBox`, without which its constructor raises: each part within 0..1.
module _ {W : Type 0} ⦃d : Double W⦄ where
  abbrev pub InUnit : W → Type 0
  InUnit v = (d.le nought v ≡ true) × (d.le v unit ≡ true)

  pub record IsValid (b : BBox W) : Type 0 where
    pub x_range : InUnit b.x
    pub y_range : InUnit b.y
    pub w_range : InUnit b.w
    pub h_range : InUnit b.h

  in_unit : W → Bool
  in_unit v = d.le nought v && d.le v unit

  -- `BBox(x=..., y=..., w=..., h=...)`; `none` is the `ValidationError`.
  pub bbox_of : W → W → W → W → Option (BBox W)
  unfolding in_unit
  bbox_of x y w h =
      if in_unit x && in_unit y && in_unit w && in_unit h
      then some (record { x = x; y = y; w = w; h = h })
      else none

  pub bbox_of_valid :
      (x y w h : W)
      → InUnit x
      → InUnit y
      → InUnit w
      → InUnit h
      → bbox_of x y w h ≡ some (record { x = x; y = y; w = w; h = h })
  unfolding bbox_of
  bbox_of_valid x y w h p q r s = rw (p.0, p.1, q.0, q.1, r.0, r.1, s.0, s.1)

-- `==` of two optional slide numbers.
abbrev pub same_int : ℤ → ℤ → Bool
same_int a b = leb_ℤ a b && leb_ℤ b a

abbrev pub same_slide : Option ℤ → Option ℤ → Bool
same_slide none none = true
same_slide (some a) (some b) = same_int a b
same_slide _ _ = false
