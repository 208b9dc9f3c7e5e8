-- ===== src/Services/Reviews/Access.antt =====
-- Reading, listing and deleting reviews (backend/app/services/review_service.py).
use mathlib.Core.List.{Memᴰ}
use slidelens.Prelude.{
  ℕ, ◌≡◌, refl, ap, sym, ◌∙◌, ◌⊎◌, Bool, true, false, not, ◌&&◌, ◌||◌, Option, none, some, List, [],
  ◌∷◌, filter, find?, count, leb, ltb, ◌==◌, if◌then◌else◌, Bool-cases, inl, inr, All, arith,
}
use mathlib.Core.Option.{some-injective}
use slidelens.Prelude.Int.{ℤ, pos, leb_ℤ}
use slidelens.Prelude.Exec.{Result, ok, err, pure, raise, gets, continue, ◌>>=◌, ◌>>◌}
use slidelens.Prelude.Sort.{sort_by}
use slidelens.Prelude.Text.{path_name}
use slidelens.Schemas.{critical, major, minor, Severity}
use slidelens.Entities.{
  Review, FindingRow, FileAsset, Rehearsal, DeliveryMetrics, Db, done, report_pdf, fixed_pptx,
  same_kind, same_status, FileName,
}
use slidelens.Services.{World, Action, Error, review_not_found, review_not_ready, commit, with_db}
use slidelens.Services.Storage.{delete}
use slidelens.Services.Reviews.{or_default}

abbrev or_zero : {A : Type 0} → A → Option A → A
or_zero zero none = zero
or_zero zero (some n) = n

-- The database orders the severities by their names.
abbrev severity_name : Severity → ℕ
severity_name critical = 0
severity_name major = 1
severity_name minor = 2

-- PostgreSQL puts a missing number last.
abbrev slide_before : Option ℤ → Option ℤ → Bool
slide_before none none = true
slide_before none (some b) = false
slide_before (some a) none = true
slide_before (some a) (some b) = leb_ℤ a b

-- After the first underscore, or the whole name: `split("_", 1)[-1]`
after_underscore : FileName → FileName → FileName
after_underscore whole [] = whole
after_underscore whole (c ∷ s) =
    let rest = after_underscore whole s in if c == b'_' then s else rest

pub record ReportOut (W : Type 0) : Type 0 where
  pub review_id : ℕ
  pub score : ℤ
  pub n_slides : ℕ
  pub findings : List (FindingRow W)
  pub delivery : Option (DeliveryMetrics W)
  pub auto_fixed_count : ℕ
  pub pdf_asset_id : Option ℕ
  pub fixed_pptx_asset_id : Option ℕ
  pub fixed_pptx_filename : Option FileName

asset_id_of : Option FileAsset → Option ℕ
asset_id_of none = none
asset_id_of (some a) = some a.id

download_name_of : Option FileAsset → Option FileName
unfolding after_underscore
download_name_of none = none
download_name_of (some a) = let name = path_name a.storage_path in some (after_underscore name name)

module _ {W : Type 0} where
  abbrev pub belongs : ℕ → ℕ → Review W → Bool
  belongs user_id review_id r = r.id == review_id && r.user_id == user_id

  review_or_raise : Option (Review W) → Action W (Review W)
  review_or_raise none = raise review_not_found
  review_or_raise (some review) = pure review

  pub get_review : ℕ → ℕ → Action W (Review W)
  unfolding review_or_raise
  get_review user_id review_id s =
      review_or_raise (find? (belongs user_id review_id) s.db.reviews) s

  pub list_reviews : ℕ → Action W (List (Review W))
  list_reviews user_id = gets (λ s.
      sort_by (λ (a b : Review W). leb b.created_at a.created_at)
        (filter (λ (r : Review W). r.user_id == user_id) s.db.reviews))

  finding_before : FindingRow W → FindingRow W → Bool
  finding_before a b =
      ltb (severity_name a.severity) (severity_name b.severity)
      || (severity_name a.severity == severity_name b.severity
          && slide_before a.slide_num b.slide_num)

  pub report_of : Db W → Review W → ReportOut W
  unfolding finding_before asset_id_of download_name_of
  report_of db review =
      let findings =
        sort_by finding_before
          (filter (λ (f : FindingRow W). f.review_id == review.id) db.findings) in
      let assets = filter (λ (a : FileAsset). a.review_id == review.id) db.assets in
      let fixed = find? (λ (a : FileAsset). same_kind a.kind fixed_pptx) assets in
      record {
        review_id = review.id;
        score = or_zero (pos 0) review.score;
        n_slides = or_zero 0 review.n_slides;
        findings = findings;
        delivery = review.delivery_metrics;
        auto_fixed_count = count (λ (f : FindingRow W). f.auto_fixed) findings;
        pdf_asset_id = asset_id_of (find? (λ (a : FileAsset). same_kind a.kind report_pdf) assets);
        fixed_pptx_asset_id = asset_id_of fixed;
        fixed_pptx_filename = download_name_of fixed;
      }

  report_if_done : Review W → Action W (ReportOut W)
  unfolding report_of
  report_if_done review s = (
    if same_status review.status done then ok (report_of s.db review) else err review_not_ready,
    s,
  )

  pub get_report : ℕ → ℕ → Action W (ReportOut W)
  unfolding report_if_done
  get_report user_id review_id = get_review user_id review_id >>= report_if_done

  module _ (root : List FileName) where
    delete_assets : List FileAsset → Action W (Unit {0})
    delete_assets [] = pure tt
    delete_assets (asset ∷ assets) =
        delete root asset.storage_path
        >> (with_db (λ db. record db {
          assets = filter (λ (a : FileAsset). not (a.id == asset.id)) db.assets;
        })
            >> delete_assets assets)

    delete_recording : FileName → Action W (Unit {0})
    delete_recording [] = pure tt
    delete_recording (c ∷ path) = delete root (c ∷ path)

    delete_rehearsals : List (Rehearsal W) → Action W (Unit {0})
    unfolding delete_recording
    delete_rehearsals [] = pure tt
    delete_rehearsals (rehearsal ∷ rehearsals) =
        delete_recording (or_default rehearsal.audio_path [])
        >> (with_db (λ db. record db {
          rehearsals = filter (λ (r : Rehearsal W). not (r.id == rehearsal.id)) db.rehearsals;
        })
            >> delete_rehearsals rehearsals)

    delete_owned : Review W → Action W (Unit {0})
    unfolding delete_assets delete_rehearsals
    delete_owned review = do
      with_db (λ db. record db {
        findings = filter (λ (f : FindingRow W). not (f.review_id == review.id)) db.findings;
      })
      assets ← gets (λ s. filter (λ (a : FileAsset). a.review_id == review.id) s.db.assets)
      delete_assets assets
      rehearsals ←
          gets (λ s. filter (λ (r : Rehearsal W). r.review_id == review.id) s.db.rehearsals)
      delete_rehearsals rehearsals
      with_db (λ db. record db {
        reviews = filter (λ (r : Review W). not (r.id == review.id)) db.reviews;
      })
      commit

    pub delete_review : ℕ → ℕ → Action W (Unit {0})
    unfolding delete_owned
    delete_review user_id review_id = get_review user_id review_id >>= delete_owned

  find_none :
      (p : Review W → Bool) (rows : List (Review W))
      → find? p rows ≡ none
      → All (λ r. p r ≡ false) rows
  find_none p [] h = tt
  find_none p (r ∷ rows) h = elim (Bool-cases (p r)) [
    | inl e ↦ absurd (ground (arith, e, h))
    | inr e ↦ (e, find_none p rows (rw e at h))
  ]

  find_some :
      (p : Review W → Bool) (rows : List (Review W)) {r : Review W}
      → find? p rows ≡ some r
      → (p r ≡ true) × Memᴰ r rows
  find_some p [] h = cc
  find_some p (q ∷ rows) {r} h = elim (Bool-cases (p q)) [
    | inl e ↦
        let same : q ≡ r = some-injective _ _ (rw e at h) in
        (ap p (sym same) ∙ e, Memᴰ.head (sym same))
    | inr e ↦ let (passes, found) = find_some p rows (rw e at h) in (passes, Memᴰ.tail found)
  ]

  -- What a report shows to a user.
  abbrev pub Reported : ℕ → ℕ → World W → Result Error (ReportOut W) × World W → Type 0
  Reported user_id review_id s (ok report, t) =
      (t ≡ s)
      × (review : Review W) × Memᴰ review s.db.reviews
      × (review.id ≡ review_id)
      × (review.user_id ≡ user_id)
      × (same_status review.status done ≡ true)
      × (report ≡ report_of s.db review)
  Reported user_id review_id s (err e, t) =
      (t ≡ s)
      × (((e ≡ review_not_found)
            × All (λ r. (r.id == review_id && r.user_id == user_id) ≡ false) s.db.reviews)
          ⊎ ((e ≡ review_not_ready)
              × (review : Review W) × Memᴰ review s.db.reviews
              × (review.id ≡ review_id)
              × (review.user_id ≡ user_id)
              × (same_status review.status done ≡ false)))

  reported :
      (user_id review_id : ℕ) (s : World W) (o : Option (Review W))
      → find? (belongs user_id review_id) s.db.reviews ≡ o
      → Reported user_id review_id s
          (continue (review_or_raise o s).0 report_if_done (review_or_raise o s).1)
  unfolding review_or_raise report_if_done
  reported user_id review_id s none e =
      (refl, inl (refl, find_none (belongs user_id review_id) s.db.reviews e))
  reported user_id review_id s (some review) e =
      let (mine, there) = find_some (belongs user_id review_id) s.db.reviews e in
      let same_id : review.id ≡ review_id = ground arith in
      let owner : review.user_id ≡ user_id = ground arith in
      elim (Bool-cases (same_status review.status done)) [
        | inl ready ↦ rw ready (refl, review, there, same_id, owner, ready, refl)
        | inr unready ↦ rw unready (refl, inr (refl, review, there, same_id, owner, unready))
      ]

  -- A user is shown the report of a review exactly if it is a row of the database that is theirs and
  -- done, as its rows stand, and
  -- asking changes nothing. A review that is another user's looks like one that is not there, and one
  -- of theirs that is not done yet is `ReviewNotReadyError`.
  pub get_report-Reported :
      (user_id review_id : ℕ) (s : World W)
      → Reported user_id review_id s (get_report user_id review_id s)
  unfolding get_report get_review
  get_report-Reported user_id review_id s =
      reported user_id review_id s (find? (belongs user_id review_id) s.db.reviews) refl
