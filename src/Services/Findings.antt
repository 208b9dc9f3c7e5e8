-- ===== src/Services/Findings.antt =====
-- Findings in the database (backend/app/services/finding_mapper.py and finding_service.py).
pub mod Laws
pub mod Upsert
use slidelens.Prelude.{
  ℕ, ◌+◌, ◌≡◌, Bool, true, false, not, ◌&&◌, ◌||◌, Option, none, some, List, [], ◌∷◌, ◌++◌, map,
  filter, find?, length, ◌==◌, if◌then◌else◌,
}
use slidelens.Prelude.Exec.{Exec, Result, ok, err, pure, raise, lift, gets, ◌>>=◌, ◌>>◌}
use slidelens.Prelude.Table.{row_at, alter, map_option}
use slidelens.Prelude.Text.{
  codes, show, strip, stem_of, extension_of, one_of, lower, same_codes, starts_with, path_name,
}
use mathlib.Core.List.{reverse}
use slidelens.Schemas.{Finding, BBox, bbox_of}
use slidelens.Double.{Double}
use slidelens.Entities.{
  FindingRow, Review, FileAsset, fixed_pptx, deck_original, FileName, Bytes, Db, same_kind,
}
use slidelens.Services.{World, Action, Error, finding_not_found, other, with_db, commit, may_fail}
use slidelens.Services.Storage.{save_file_asset, save, open_file}

module _ {W : Type 0} where
  -- `finding_to_row`
  pub finding_to_row : ℕ → Finding W → FindingRow W
  finding_to_row review_id finding = record {
    id = finding.id;
    review_id = review_id;
    slide_num = finding.slide_num;
    category = finding.category;
    severity = finding.severity;
    title = finding.title;
    description = finding.description;
    fix_suggestion = finding.fix_suggestion;
    bbox = finding.bbox;
    screenshot_asset_id = none;
    auto_fixable = finding.auto_fixable;
    auto_fixed = finding.auto_fixed;
    source = finding.source;
    user_flag = false;
    user_like = false;
  }

  with_bbox : FindingRow W → Option (BBox W) → Finding W
  with_bbox row bbox = record {
    id = row.id;
    slide_num = row.slide_num;
    category = row.category;
    severity = row.severity;
    title = row.title;
    description = row.description;
    fix_suggestion = row.fix_suggestion;
    bbox = bbox;
    auto_fixable = row.auto_fixable;
    auto_fixed = row.auto_fixed;
    source = row.source;
  }

  module _ ⦃d : Double W⦄ where
    validated : FindingRow W → Option (BBox W) → Option (Finding W)
    unfolding with_bbox
    validated row none = some (with_bbox row none)
    validated row (some b) = map_option (λ v. with_bbox row (some v)) (bbox_of b.x b.y b.w b.h)

    -- `row_to_finding`; `none` is the `ValidationError`.
    pub row_to_finding : FindingRow W → Option (Finding W)
    unfolding validated
    row_to_finding row = validated row row.bbox

  if_owner : ℕ → FindingRow W → Option (Review W) → Option (FindingRow W × Review W)
  if_owner user_id row none = none
  if_owner user_id row (some review) =
      if review.user_id == user_id then some (row, review) else none

  if_found : ℕ → List (Review W) → Option (FindingRow W) → Option (FindingRow W × Review W)
  unfolding if_owner
  if_found user_id reviews none = none
  if_found user_id reviews (some row) =
      if_owner user_id row (row_at (λ (r : Review W). r.id) row.review_id reviews)

  -- The finding's row joined with its review, if that is the user's.
  find_owned : ℕ → ℕ → Db W → Option (FindingRow W × Review W)
  unfolding if_found
  find_owned user_id finding_id db =
      if_found user_id db.reviews (row_at (λ (r : FindingRow W). r.id) finding_id db.findings)

  found_or_raise : Option (FindingRow W × Review W) → Action W (FindingRow W × Review W)
  found_or_raise none = raise finding_not_found
  found_or_raise (some found) = pure found

  -- `_load_owned_finding`
  pub load_owned_finding : ℕ → ℕ → Action W (FindingRow W × Review W)
  unfolding find_owned found_or_raise
  load_owned_finding user_id finding_id s = found_or_raise (find_owned user_id finding_id s.db) s

  abbrev pub vote : Bool → Bool → FindingRow W → FindingRow W
  vote flag like row = record row { user_flag = flag; user_like = like }

  cast_vote : Bool → Bool → FindingRow W × Review W → Action W (Unit {0})
  cast_vote flag like found s =
      let findings = alter (λ (r : FindingRow W). r.id) found.0.id (vote flag like) s.db.findings in
      (
        ok tt,
        record s {
          db = record s.db { findings = findings };
          committed = record s.db { findings = findings };
        },
      )

  -- `flag_finding`, without the score that is sent to Langfuse afterwards.
  pub flag_finding : ℕ → ℕ → Action W (Unit {0})
  unfolding cast_vote
  flag_finding user_id finding_id = load_owned_finding user_id finding_id >>= cast_vote true false

  -- `like_finding`, likewise.
  pub like_finding : ℕ → ℕ → Action W (Unit {0})
  unfolding cast_vote
  like_finding user_id finding_id = load_owned_finding user_id finding_id >>= cast_vote false true

abbrev unsafe_filename_chars : List ℕ
unsafe_filename_chars = codes "\\/:*?\"<>|"

is_unsafe : ℕ → List ℕ → Bool
is_unsafe c [] = false
is_unsafe c (d ∷ s) = c == d || is_unsafe c s

-- `fixed_deck_filename` (backend/core/fix.py)
pub fixed_deck_filename : FileName → ℕ → FileName
unfolding is_unsafe
fixed_deck_filename original_filename version =
    let name = strip (
      map (λ c. if is_unsafe c unsafe_filename_chars then b'_' else c)
        (stem_of original_filename)) in
    elim name [ [] ↦ codes "Дека" | c ∷ s ↦ c ∷ s ]
    ++ codes "_исправленная_версия№"
    ++ codes (show version)
    ++ codes ".pptx"

abbrev pub is_fixed_of : ℕ → FileAsset → Bool
is_fixed_of review_id asset = asset.review_id == review_id && same_kind asset.kind fixed_pptx

-- `scalar_one_or_none`: more rows than one are an error.
abbrev pub at_most_one : {A : Type 0} → List A → Result Error (Option A)
at_most_one [] = ok none
at_most_one (a ∷ []) = ok (some a)
at_most_one (a ∷ b ∷ rows) = err (other "MultipleResultsFound")

module _ {W : Type 0} (root : List FileName) (fails : Bool) (expires_at : ℕ) where
  replace_fixed : FileAsset → Bytes → FileName → Action W FileAsset
  replace_fixed existing content path s =
      let change : FileAsset → FileAsset = λ a. record a {
        storage_path = path;
        size_bytes = length content;
        version = existing.version + 1;
      } in
      (
        ok (change existing),
        record s {
          db = record s.db {
            assets = alter (λ (a : FileAsset). a.id) existing.id change s.db.assets;
          };
        },
      )

  upsert_found : ℕ → FileName → Bytes → Result Error (Option FileAsset) → Action W FileAsset
  unfolding replace_fixed
  upsert_found review_id deck_filename content (err e) = raise e
  upsert_found review_id deck_filename content (ok none) =
      save_file_asset root fails review_id fixed_pptx (fixed_deck_filename deck_filename 1) content
        expires_at 1
  upsert_found review_id deck_filename content (ok (some existing)) =
      save root fails review_id existing.id
        (fixed_deck_filename deck_filename (existing.version + 1)) content
      >>= replace_fixed existing content

  -- `upsert_fixed_pptx`
  pub upsert_fixed_pptx : ℕ → FileName → Bytes → Action W FileAsset
  unfolding upsert_found
  upsert_fixed_pptx review_id deck_filename content s =
      upsert_found review_id deck_filename content
        (at_most_one (filter (is_fixed_of review_id) s.db.assets)) s

-- `endswith(".pptx")` of the lower-case path
ends_with_pptx : FileName → Bool
ends_with_pptx path = starts_with (map lower (reverse path)) (reverse (codes ".pptx"))

module _ {W : Type 0} ⦃d : Double W⦄ (root : List FileName) (fails : Bool) (expires_at : ℕ)
    (fix : FileName → Bytes → List (Finding W) → Result Error (Bytes × List (Finding W))) where
  all_findings : List (FindingRow W) → Result Error (List (Finding W))
  all_findings [] = ok []
  all_findings (row ∷ rows) =
      let rest = all_findings rows in
      elim (row_to_finding row) [
        | none ↦ err (other "ValidationError")
        | some f ↦ elim rest [ ok fs ↦ ok (f ∷ fs) | err e ↦ err e ]
      ]

  -- Each fixed finding's flag into its row.
  set_fixed : List (Finding W) → List (FindingRow W) → List (FindingRow W)
  set_fixed [] rows = rows
  set_fixed (f ∷ fs) rows =
      set_fixed fs
        (alter (λ (r : FindingRow W). r.id) f.id (λ r. record r { auto_fixed = f.auto_fixed }) rows)

  store_fixed : Review W → Bytes × List (Finding W) → Action W (Unit {0})
  unfolding set_fixed
  store_fixed review fixed = do
    with_db (λ db. record db { findings = set_fixed fixed.1 db.findings })
    upsert_fixed_pptx root fails expires_at review.id review.deck_filename fixed.0
    commit

  fix_selected : FindingRow W → Review W → FileAsset → Action W (Unit {0})
  unfolding all_findings store_fixed
  fix_selected finding review original = do
    rows ← gets (λ s. filter (λ (r : FindingRow W). r.review_id == review.id) s.db.findings)
    findings ←
        lift (all_findings (filter (λ (r : FindingRow W). r.auto_fixed || r.id == finding.id) rows))
    bytes ← open_file root original.storage_path
    fixed ← lift (fix (path_name original.storage_path) bytes findings)
    store_fixed review fixed

  with_original : FindingRow W → Review W → Option FileAsset → Action W (Unit {0})
  unfolding ends_with_pptx fix_selected
  with_original finding review none s = (err finding_not_found, s)
  with_original finding review (some original) s =
      (if ends_with_pptx original.storage_path
          then fix_selected finding review original
          else raise finding_not_found)
        s

  fix_owned : FindingRow W × Review W → Action W (Unit {0})
  unfolding with_original
  fix_owned found =
      if not found.0.auto_fixable
      then raise finding_not_found
      else if found.0.auto_fixed
      then pure tt
      else do
        original ← gets (λ s. at_most_one (
            filter (λ (a : FileAsset). a.review_id == found.1.id && same_kind a.kind deck_original)
              s.db.assets))
        asset ← lift original
        with_original found.0 found.1 asset

  -- `apply_finding_fix`; `fix` is `PptxFixer.fix` on the original's name and bytes.
  pub apply_finding_fix : ℕ → ℕ → Action W (Unit {0})
  unfolding fix_owned
  apply_finding_fix user_id finding_id = load_owned_finding user_id finding_id >>= fix_owned
