-- ===== src/Services/Findings/Laws.antt =====
-- Findings keep what the pipeline found, and only their owner votes on them.
use slidelens.Prelude.{
  ℕ, ◌≡◌, refl, ◌∙◌, ap, sym, Bool, true, false, Option, none, some, List, inl, inr, Bool-cases,
  ◌==◌, arith,
}
use mathlib.Core.Option.{some-injective}
use slidelens.Prelude.Exec.{Result, ok, err, continue}
use slidelens.Prelude.Table.{row_at, row_at-alter, key-row_at}
use slidelens.Schemas.{Finding, BBox, IsValid, bbox_of_valid}
use slidelens.Double.{Double}
use slidelens.Entities.{FindingRow, Review, Db}
use slidelens.Services.{World, Error, finding_not_found}
use slidelens.Services.Findings.{
  finding_to_row, row_to_finding, validated, with_bbox, if_owner, if_found, find_owned,
  found_or_raise, load_owned_finding, vote, cast_vote, flag_finding, like_finding,
}

module _ {W : Type 0} ⦃d : Double W⦄ where
  abbrev pub HasValidBox : Option (BBox W) → Type 0
  HasValidBox none = Unit
  HasValidBox (some b) = IsValid b

  validated_lem :
      (review_id : ℕ) (f : Finding W) (bbox : Option (BBox W))
      → HasValidBox bbox
      → validated (finding_to_row review_id f) bbox ≡ some (record f { bbox = bbox })
  unfolding validated with_bbox finding_to_row
  validated_lem review_id f none h = refl
  validated_lem review_id f (some b) h =
      rw (bbox_of_valid b.x b.y b.w b.h h.x_range h.y_range h.w_range h.h_range) refl

  -- A finding that is stored as a row and read back is the same finding, if its frame, should it have
  -- one, lies within the slide.
  pub row_to_finding-finding_to_row :
      (review_id : ℕ) (f : Finding W)
      → HasValidBox f.bbox
      → row_to_finding (finding_to_row review_id f) ≡ some f
  unfolding row_to_finding finding_to_row
  row_to_finding-finding_to_row review_id f h = validated_lem review_id f f.bbox h

module _ {W : Type 0} where
  -- The finding is there, and its review is there and the user's.
  abbrev pub IsOwned : ℕ → ℕ → Db W → FindingRow W → Review W → Type 0
  IsOwned user_id finding_id db row review =
      (row_at (λ (r : FindingRow W). r.id) finding_id db.findings ≡ some row)
      × (row_at (λ (r : Review W). r.id) row.review_id db.reviews ≡ some review)
      × ((review.user_id == user_id) ≡ true)

  if_owner_lem :
      (user_id : ℕ) (row : FindingRow W) (o : Option (Review W)) {row' : FindingRow W}
      {review : Review W}
      → if_owner user_id row o ≡ some (row', review)
      → (row ≡ row') × (o ≡ some review) × ((review.user_id == user_id) ≡ true)
  unfolding if_owner
  if_owner_lem user_id row none h = cc
  if_owner_lem user_id row (some r) {row'} {review} h = elim (Bool-cases (r.user_id == user_id)) [
    | inl e ↦
        let same = some-injective _ _ (rw e at h) in
        (
          ap (λ p. p.0) same,
          ap (λ p. some p.1) same,
          ap (λ p. p.1.user_id == user_id) (sym same) ∙ e,
        )
    | inr e ↦ absurd (ground (arith, e, h))
  ]

  if_found_lem :
      (user_id : ℕ) (reviews : List (Review W)) (o : Option (FindingRow W)) {row : FindingRow W}
      {review : Review W}
      → if_found user_id reviews o ≡ some (row, review)
      → (o ≡ some row)
        × (row_at (λ (r : Review W). r.id) row.review_id reviews ≡ some review)
        × ((review.user_id == user_id) ≡ true)
  unfolding if_found
  if_found_lem user_id reviews none h = cc
  if_found_lem user_id reviews (some r) h =
      let (same, found, owner) = if_owner_lem user_id r _ h in
      (
        ap some same,
        ap (λ (r : FindingRow W). row_at (λ (r : Review W). r.id) r.review_id reviews) (sym same)
            ∙ found,
        owner,
      )

  -- After a vote on a finding.
  abbrev pub Voted : Bool → Bool → ℕ → ℕ → World W → Result Error (Unit {0}) × World W → Type 0
  Voted flag like user_id finding_id s (err e, t) = (e ≡ finding_not_found) × (t ≡ s)
  Voted flag like user_id finding_id s (ok _, t) =
      (row : FindingRow W) × (review : Review W) × IsOwned user_id finding_id s.db row review
      × (row_at (λ (r : FindingRow W). r.id) finding_id t.committed.findings
          ≡ some (record row { user_flag = flag; user_like = like }))

  voted :
      (flag like : Bool) (user_id finding_id : ℕ) (s : World W)
      (o : Option (FindingRow W × Review W))
      → find_owned user_id finding_id s.db ≡ o
      → Voted flag like user_id finding_id s
          (continue (found_or_raise o s).0 (cast_vote flag like) (found_or_raise o s).1)
  unfolding found_or_raise cast_vote find_owned
  voted flag like user_id finding_id s none e = (refl, refl)
  voted flag like user_id finding_id s (some (row, review)) e =
      let owned = if_found_lem user_id s.db.reviews _ e in
      let same_id : row.id ≡ finding_id =
        key-row_at (λ (r : FindingRow W). r.id) finding_id s.db.findings owned.0 in
      (
        row,
        review,
        owned,
        rw
            (
              same_id,
              row_at-alter (λ (r : FindingRow W). r.id) finding_id finding_id (vote flag like)
                  s.db.findings (λ r h. h),
              owned.0,
            )
            (ground arith),
      )

  -- A flag that is set on a finding takes back the like, and the other user's finding, or one that is
  -- not there, is `FindingNotFoundError` and changes nothing; only the owner of the review gets
  -- through, and the database then holds the finding with the flag and without the like.
  pub flag_finding-Voted :
      (user_id finding_id : ℕ) (s : World W)
      → Voted true false user_id finding_id s (flag_finding user_id finding_id s)
  unfolding flag_finding load_owned_finding
  flag_finding-Voted user_id finding_id s =
      voted true false user_id finding_id s (find_owned user_id finding_id s.db) refl

  -- A like, the other way round: it takes back the flag, under the same conditions.
  pub like_finding-Voted :
      (user_id finding_id : ℕ) (s : World W)
      → Voted false true user_id finding_id s (like_finding user_id finding_id s)
  unfolding like_finding load_owned_finding
  like_finding-Voted user_id finding_id s =
      voted false true user_id finding_id s (find_owned user_id finding_id s.db) refl
