-- ===== src/Fixer/Steps.antt =====
-- What the loop over the findings keeps (backend/core/fix.py), whatever the rules do.
use slidelens.Prelude.{
  ℕ, String, zero, suc, ◌≡◌, ◌⊎◌, refl, ◌∙◌, Bool, true, false, not, Option, none, some, List, [],
  ◌∷◌, map, filter, length, Any, length-set_elem, set_elem, if◌then◌else◌, Bool-cases, inl, inr,
  find?,
}
use slidelens.Prelude.Int.{ℤ, pos, negsuc}
use slidelens.Double.{Double}
use slidelens.Schemas.{Finding, BBox}
use slidelens.Fixer.{
  Presentation, slide_at, Shape, SlideShapes, FixResult, FixLogEntry, FixRule, set_slide,
}
use slidelens.Fixer.Match.{find_matching_shape}
use slidelens.Fixer.Apply.{
  Work, Applied, skip, edit_shape, after_rule, with_rule, with_shape, with_slide, with_place,
  apply_one, logged, apply_all,
}

length-set_slide :
    (n : ℤ) (slide : SlideShapes) (slides : List SlideShapes)
    → length (set_slide n slide slides) ≡ length slides
unfolding set_slide
length-set_slide (pos zero) slide slides = refl
length-set_slide (pos (suc k)) slide slides = length-set_elem slides k slide
length-set_slide (negsuc k) slide slides = refl

-- A slide and a shape's identifier that are among those touched.
abbrev pub Touched : ℤ → ℕ → Work → Type 0
Touched n i work = Any (λ t. t ≡ (n, i)) work.touched

-- What was touched stays touched, and the slides stay as many.
pub record Grows (before after : Work) : Type 0 where
  pub same_length : length after.deck.slides ≡ length before.deck.slides
  pub keeps : (n : ℤ) (i : ℕ) → Touched n i before → Touched n i after

Grows-refl : (work : Work) → Grows work work
Grows-refl work = record { same_length = refl; keeps = λ n i h. h }

edit_shape-Grows :
    (n : ℤ) (slide : SlideShapes) (i : ℕ) (shape : Shape) (work : Work)
    → Grows work (edit_shape n slide i shape work)
unfolding edit_shape
edit_shape-Grows n slide i shape work = record {
  same_length = length-set_slide n _ _;
  keeps = λ m j h. h;
}

-- The deck with a shape in the place of the one at a position of a slide.
abbrev pub Replaced : ℤ → SlideShapes → ℕ → Shape → Presentation → Presentation → Type 0
Replaced n slide k shape deck deck' =
    deck' ≡ record deck { slides = set_slide n (set_elem slide k shape) deck.slides }

module _ {W : Type 0} where
  -- The log entry of a finding: one if it can be fixed, and none if not.
  abbrev Logs : Finding W → Option FixLogEntry → Type 0
  Logs f none = f.auto_fixable ≡ false
  Logs f (some entry) = (f.auto_fixable ≡ true) × (entry.finding_id ≡ f.id)

  -- One entry for each finding that can be fixed, in their order.
  abbrev pub LogsAll : List (Finding W) → List FixLogEntry → Type 0
  LogsAll fs log =
      map (λ (e : FixLogEntry). e.finding_id) log
      ≡ map (λ (f : Finding W). f.id) (filter (λ (f : Finding W). f.auto_fixable) fs)

  LogsAll-logged :
      (f : Finding W) (fs : List (Finding W)) (entry : Option FixLogEntry) (log : List FixLogEntry)
      → Logs f entry
      → LogsAll fs log
      → LogsAll (f ∷ fs) (logged entry log)
  LogsAll-logged f fs none log e h = rw e h
  LogsAll-logged f fs (some entry) log (e, same) h = rw (e, same, h) refl

module _ {W : Type 0} ⦃d : Double W⦄ (rules : List (FixRule W)) where
  -- What the first rule for the finding makes of the shape that its box matches on its slide.
  abbrev pub IsEdit : Finding W → Presentation → ℤ → SlideShapes → ℕ → FixResult × Shape → Type 0
  IsEdit f deck n slide k result =
      (f.slide_num ≡ some n)
      × (slide_at n deck.slides ≡ some slide)
      × ((bbox : BBox W) × (f.bbox ≡ some bbox)
          × ((shape : Shape) × (find_matching_shape slide bbox deck.slide_width deck.slide_height
                ≡ some (k, shape))
              × ((rule : FixRule W) × (find? (λ (r : FixRule W). r.applies_to f) rules ≡ some rule)
                  × (rule.apply k shape slide ≡ result))))

  -- The rule changed the shape: the finding is marked as fixed and the shape is touched; or it did
  -- not, and neither is.
  abbrev pub Marks :
      (ℤ → ℕ → Type 0) → Finding W → Finding W → ℤ → FixResult × Shape → Work → Work → Type 0
  Marks Q f f' n result before after =
      ((result.0.applied ≡ true)
        × (f' ≡ record f { auto_fixed = true })
        × (after.touched ≡ (n, result.1.shape_id) ∷ before.touched)
        × Q n result.1.shape_id)
      ⊎ ((result.0.applied ≡ false) × (f' ≡ f) × (after.touched ≡ before.touched))

  -- It may not be fixed, it has no place, its slide is not there, no shape matches its box, or no rule
  -- is for it.
  abbrev pub NoEdit : Finding W → Presentation → Type 0
  NoEdit f deck =
      (f.auto_fixable ≡ false)
      ⊎ (f.slide_num ≡ none)
      ⊎ (f.bbox ≡ none)
      ⊎ ((n : ℤ) × (f.slide_num ≡ some n) × (slide_at n deck.slides ≡ none))
      ⊎ ((n : ℤ) × (slide : SlideShapes) × (bbox : BBox W) × (f.slide_num ≡ some n)
          × (slide_at n deck.slides ≡ some slide)
          × (f.bbox ≡ some bbox)
          × (find_matching_shape slide bbox deck.slide_width deck.slide_height ≡ none))
      ⊎ (find? (λ (r : FixRule W). r.applies_to f) rules ≡ none)

  -- Nothing can be edited and nothing changes; or the finding may be fixed, the deck gets the shape that the rule made, and if
  -- the rule changed it, the shape is as `Q` says.
  abbrev pub Edited : (ℤ → ℕ → Type 0) → Finding W → Finding W → Work → Work → Type 0
  Edited Q f f' before after =
      (NoEdit f before.deck × (f' ≡ f) × (after ≡ before))
      ⊎ ((f.auto_fixable ≡ true)
          × ((n : ℤ) × (slide : SlideShapes) × (k : ℕ) × (result : FixResult × Shape) × IsEdit f
                before.deck n slide k result
              × Replaced n slide k result.1 before.deck after.deck
              × Marks Q f f' n result before after))

  -- Each finding with the one that it becomes, one edit after another.
  abbrev pub AllEdited :
      (ℤ → ℕ → Type 0) → List (Finding W) → List (Finding W) → Work → Work → Type 0
  AllEdited Q [] [] before after = after ≡ before
  AllEdited Q (f ∷ fs) (f' ∷ fs') before after =
      (next : Work) × Edited Q f f' before next × AllEdited Q fs fs' next after
  AllEdited Q _ _ before after = ⊥

  Edited-map :
      (P Q : ℤ → ℕ → Type 0) (f f' : Finding W) (before after : Work)
      → ((n : ℤ) (i : ℕ) → P n i → Q n i)
      → Edited P f f' before after
      → Edited Q f f' before after
  Edited-map P Q f f' before after h (inl same) = inl same
  Edited-map P Q f f' before after h
        (inr (e, (n, slide, k, result, is, put, inl (did, marked, touched, p)))) =
      inr (e, (n, slide, k, result, is, put, inl (did, marked, touched, h n _ p)))
  Edited-map P Q f f' before after h (inr (e, (n, slide, k, result, is, put, inr refused))) =
      inr (e, (n, slide, k, result, is, put, inr refused))

  pub AllEdited-map :
      (P Q : ℤ → ℕ → Type 0) (fs fs' : List (Finding W)) (before after : Work)
      → ((n : ℤ) (i : ℕ) → P n i → Q n i)
      → AllEdited P fs fs' before after
      → AllEdited Q fs fs' before after
  AllEdited-map P Q [] [] before after h m = m
  AllEdited-map P Q (f ∷ fs) (f' ∷ fs') before after h (next, one, rest) =
      (next, Edited-map P Q f f' before next h one, AllEdited-map P Q fs fs' next after h rest)
  AllEdited-map P Q [] (f' ∷ fs') before after h m = absurd m
  AllEdited-map P Q (f ∷ fs) [] before after h m = absurd m

  record Applies (f : Finding W) (work : Work) (out : Applied W) : Type 0 where
    logs : Logs f out.0
    edited : Edited (λ n i. Touched n i out.2) f out.1 work out.2
    grows : Grows work out.2

  skip-Applies :
      (f : Finding W) (rule : Option String) (reason : String) (work : Work)
      → f.auto_fixable ≡ true
      → NoEdit f work.deck
      → Applies f work (skip f rule reason work)
  skip-Applies f rule reason work e nothing = record {
    logs = (e, refl);
    edited = inl (nothing, refl, refl);
    grows = Grows-refl work;
  }

  after_rule-Applies :
      (f : Finding W) (n : ℤ) (slide : SlideShapes) (k : ℕ) (rule : String) (work : Work)
      (result : FixResult × Shape)
      → f.auto_fixable ≡ true
      → IsEdit f work.deck n slide k result
      → Applies f work (after_rule f n slide k rule work result)
  unfolding after_rule edit_shape
  after_rule-Applies f n slide k rule work (result, shape) e is =
      let edits = edit_shape-Grows n slide k shape work in
      elim (Bool-cases result.applied) [
        | inl h ↦ rw h (record {
          logs = (e, refl);
          edited = inr (e, (n, slide, k, (result, shape), is, refl, inl (h, refl, refl, inl refl)));
          grows = record {
            same_length = edits.same_length;
            keeps = λ m j t. inr (edits.keeps m j t);
          };
        })
        | inr h ↦ rw h (record {
          logs = (e, refl);
          edited = inr (e, (n, slide, k, (result, shape), is, refl, inr (h, refl, refl)));
          grows = edits;
        })
      ]

  with_rule-Applies :
      (f : Finding W) (n : ℤ) (bbox : BBox W) (slide : SlideShapes) (matched : ℕ × Shape)
      (work : Work) (rule : Option (FixRule W))
      → f.auto_fixable ≡ true
      → f.slide_num ≡ some n
      → f.bbox ≡ some bbox
      → slide_at n work.deck.slides ≡ some slide
      → find_matching_shape slide bbox work.deck.slide_width work.deck.slide_height ≡ some matched
      → find? (λ (r : FixRule W). r.applies_to f) rules ≡ rule
      → Applies f work (with_rule f n slide matched work rule)
  unfolding with_rule
  with_rule-Applies f n bbox slide matched work none e p b at m r =
      skip-Applies f _ _ work e (inr (inr (inr (inr (inr r)))))
  with_rule-Applies f n bbox slide (k, shape) work (some rule) e p b at m r =
      after_rule-Applies f n slide k rule.name work (rule.apply k shape slide) e
        (p, at, (bbox, b, (shape, m, (rule, r, refl))))

  with_shape-Applies :
      (f : Finding W) (n : ℤ) (bbox : BBox W) (slide : SlideShapes) (work : Work)
      (matched : Option (ℕ × Shape))
      → f.auto_fixable ≡ true
      → f.slide_num ≡ some n
      → f.bbox ≡ some bbox
      → slide_at n work.deck.slides ≡ some slide
      → find_matching_shape slide bbox work.deck.slide_width work.deck.slide_height ≡ matched
      → Applies f work (with_shape rules f n slide work matched)
  unfolding with_shape
  with_shape-Applies f n bbox slide work none e p b at m =
      skip-Applies f _ _ work e (inr (inr (inr (inr (inl (n, slide, bbox, p, at, b, m))))))
  with_shape-Applies f n bbox slide work (some matched) e p b at m =
      with_rule-Applies f n bbox slide matched work
        (find? (λ (r : FixRule W). r.applies_to f) rules) e p b at m refl

  with_slide-Applies :
      (f : Finding W) (n : ℤ) (bbox : BBox W) (work : Work) (slide : Option SlideShapes)
      → f.auto_fixable ≡ true
      → f.slide_num ≡ some n
      → f.bbox ≡ some bbox
      → slide_at n work.deck.slides ≡ slide
      → Applies f work (with_slide rules f n bbox work slide)
  unfolding with_slide
  with_slide-Applies f n bbox work none e p b at =
      skip-Applies f _ _ work e (inr (inr (inr (inl (n, p, at)))))
  with_slide-Applies f n bbox work (some slide) e p b at =
      with_shape-Applies f n bbox slide work _ e p b at refl

  with_place-Applies :
      (f : Finding W) (work : Work) (slide_num : Option ℤ) (bbox : Option (BBox W))
      → f.auto_fixable ≡ true
      → f.slide_num ≡ slide_num
      → f.bbox ≡ bbox
      → Applies f work (with_place rules f work slide_num bbox)
  unfolding with_place
  with_place-Applies f work none bbox e p b = skip-Applies f _ _ work e (inr (inl p))
  with_place-Applies f work (some n) none e p b = skip-Applies f _ _ work e (inr (inr (inl b)))
  with_place-Applies f work (some n) (some bbox) e p b =
      with_slide-Applies f n bbox work _ e p b refl

  if_fixable-Applies :
      (f : Finding W) (work : Work) (b : Bool)
      → f.auto_fixable ≡ b
      → Applies f work
          (if not b then (none, f, work) else with_place rules f work f.slide_num f.bbox)
  if_fixable-Applies f work true e = with_place-Applies f work _ _ e refl refl
  if_fixable-Applies f work false e = record {
    logs = e;
    edited = inl (inl e, refl, refl);
    grows = Grows-refl work;
  }

  apply_one-Applies : (f : Finding W) (work : Work) → Applies f work (apply_one rules f work)
  unfolding apply_one
  apply_one-Applies f work = if_fixable-Applies f work _ refl

  pub record AppliesAll (fs : List (Finding W)) (work : Work)
      (out : List FixLogEntry × List (Finding W) × Work) : Type 0 where
    pub logs : LogsAll fs out.0
    pub edited : AllEdited (λ n i. Touched n i out.2) fs out.1 work out.2
    pub grows : Grows work out.2

  pub apply_all-AppliesAll :
      (fs : List (Finding W)) (work : Work) → AppliesAll fs work (apply_all rules fs work)
  unfolding apply_all
  apply_all-AppliesAll [] work = record { logs = refl; edited = refl; grows = Grows-refl work }
  apply_all-AppliesAll (f ∷ fs) work =
      let one = apply_one-Applies f work in
      let next = (apply_one rules f work).2 in
      let rest = apply_all-AppliesAll fs next in
      record {
        logs = LogsAll-logged f fs _ _ one.logs rest.logs;
        edited = (
          next,
          Edited-map (λ n i. Touched n i next) (λ n i. Touched n i (apply_all rules fs next).2) f _
              work next rest.grows.keeps one.edited,
          rest.edited,
        );
        grows = record {
          same_length = rest.grows.same_length ∙ one.grows.same_length;
          keeps = λ n i t. rest.grows.keeps n i (one.grows.keeps n i t);
        };
      }
