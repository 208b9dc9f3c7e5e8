-- ===== src/Worker/Rehearsals.antt =====
-- `process_rehearsal` (backend/worker/tasks.py). `slide_texts` is the ingest of the deck, and
-- `analyze` the extraction, transcription and analysis of the recording.
use slidelens.Prelude.{ℕ, ◌≡◌, refl, ◌∙◌, sym, ap, ◌&&◌, Option, none, some, List, filter, ◌==◌}
use mathlib.Core.Path.{subst}
use slidelens.Prelude.Exec.{Result, ok, err, lift, ◌>>=◌}
use slidelens.Prelude.Table.{row_at, alter, row_at-altered, key-row_at}
use slidelens.Prelude.Text.{path_name}
use slidelens.Schemas.{Finding}
use slidelens.Entities.{
  Review, Rehearsal, SlideTiming, DeliveryMetrics, FileAsset, FileName, Bytes, processing, done,
  failed, deck_original, same_kind,
}
use slidelens.Services.{World, Action, Error, ingest, corrupted_file, other}
use slidelens.Services.Frame.{Keeps, Keeps-bind}
use slidelens.Services.Storage.{open_file}
use slidelens.Services.Storage.Laws.{open_file-Keeps}
use slidelens.Services.Findings.{at_most_one}
use slidelens.Services.Rehearsals.{rehearsal_key}
use slidelens.Worker.{review_key, fail_reason}

module _ {W : Type 0} {Texts : Type 0} (root : List FileName) (now : ℕ)
    (slide_texts : FileName × Bytes → Result Error Texts)
    (analyze : Texts
      → FileName × Bytes
      → List (SlideTiming W)
      → Result Error (DeliveryMetrics W × List (Finding W))) where
  texts_of : Result Error (Option FileAsset) → Action W Texts
  texts_of (err e) s = (err e, s)
  texts_of (ok none) s = (err (ingest corrupted_file), s)
  texts_of (ok (some asset)) s =
      (open_file root asset.storage_path >>= λ content.
      lift (slide_texts (path_name asset.storage_path, content)))
        s

  -- `_rehearsal_slide_texts`
  rehearsal_slide_texts : Review W → Action W Texts
  unfolding texts_of
  rehearsal_slide_texts review s =
      texts_of
        (at_most_one (
          filter (λ (a : FileAsset). a.review_id == review.id && same_kind a.kind deck_original)
            s.db.assets))
        s

  analyze_recording :
      Rehearsal W → Option FileName → Texts → Action W (DeliveryMetrics W × List (Finding W))
  analyze_recording rehearsal none texts s = (err (other "AssertionError"), s)
  analyze_recording rehearsal (some path) texts s =
      (open_file root path >>= λ content.
      lift (analyze texts (path_name path, content) rehearsal.slide_timings))
        s

  attempt_for : Rehearsal W → Option (Review W) → Action W (DeliveryMetrics W × List (Finding W))
  unfolding rehearsal_slide_texts analyze_recording
  attempt_for rehearsal none s = (err (ingest corrupted_file), s)
  attempt_for rehearsal (some review) s =
      (rehearsal_slide_texts review >>= analyze_recording rehearsal rehearsal.audio_path) s

  -- The body of the inner `try`.
  pub rehearsal_attempt : Rehearsal W → Action W (DeliveryMetrics W × List (Finding W))
  unfolding attempt_for
  rehearsal_attempt rehearsal s =
      attempt_for rehearsal (row_at review_key rehearsal.review_id s.db.reviews) s

  -- `_mark_rehearsal_failed`'s row, or the row of a rehearsal that is done.
  abbrev pub settled_row :
      Result Error (DeliveryMetrics W × List (Finding W)) → Rehearsal W → Rehearsal W
  settled_row (err e) r = record r {
    status = failed;
    fail_reason = some (fail_reason e);
    finished_at = some now;
  }
  settled_row (ok (delivery, findings)) r = record r {
    status = done;
    delivery_metrics = some delivery;
    findings = findings;
    finished_at = some now;
  }

  abbrev pub started_row : Rehearsal W → Rehearsal W
  started_row r = record r { status = processing }

  -- A row changed, and the change committed.
  abbrev pub change_row : ℕ → (Rehearsal W → Rehearsal W) → World W → World W
  change_row id f s =
      let db = record s.db { rehearsals = alter rehearsal_key id f s.db.rehearsals } in
      record s { db = db; committed = db }

  run_rehearsal : Rehearsal W → World W → Result Error (Unit {0}) × World W
  run_rehearsal rehearsal s =
      let begun = change_row rehearsal.id started_row s in
      let p = rehearsal_attempt rehearsal begun in
      (ok tt, change_row rehearsal.id (settled_row p.0) p.1)

  rehearsal_found : Option (Rehearsal W) → Action W (Unit {0})
  unfolding run_rehearsal
  rehearsal_found none s = (ok tt, s)
  rehearsal_found (some rehearsal) s = run_rehearsal rehearsal s

  -- `process_rehearsal`
  pub process_rehearsal : ℕ → Action W (Unit {0})
  unfolding rehearsal_found
  process_rehearsal id s = rehearsal_found (row_at rehearsal_key id s.db.rehearsals) s

  texts_of-Keeps :
      (found : Result Error (Option FileAsset)) → Keeps (λ (s : World W). s) (texts_of found)
  unfolding texts_of
  texts_of-Keeps (err e) = λ s. refl
  texts_of-Keeps (ok none) = λ s. refl
  texts_of-Keeps (ok (some asset)) =
      Keeps-bind (λ s. s) (open_file root asset.storage_path) _
        (open_file-Keeps root asset.storage_path) (λ _ s. refl)

  analyze_recording-Keeps :
      (rehearsal : Rehearsal W) (path : Option FileName) (texts : Texts)
      → Keeps (λ (s : World W). s) (analyze_recording rehearsal path texts)
  unfolding analyze_recording
  analyze_recording-Keeps rehearsal none texts = λ s. refl
  analyze_recording-Keeps rehearsal (some path) texts =
      Keeps-bind (λ s. s) (open_file root path) _ (open_file-Keeps root path) (λ _ s. refl)

  attempt_for-Keeps :
      (rehearsal : Rehearsal W) (review : Option (Review W))
      → Keeps (λ (s : World W). s) (attempt_for rehearsal review)
  unfolding attempt_for rehearsal_slide_texts
  attempt_for-Keeps rehearsal none s = refl
  attempt_for-Keeps rehearsal (some review) s =
      Keeps-bind (λ s. s) (rehearsal_slide_texts review)
        (analyze_recording rehearsal rehearsal.audio_path) (λ s. texts_of-Keeps _ s)
        (λ texts. analyze_recording-Keeps rehearsal rehearsal.audio_path texts) s

  module _ (id : ℕ) (rehearsal : Rehearsal W) (s : World W)
      (found : row_at rehearsal_key id s.db.rehearsals ≡ some rehearsal) where
    abbrev pub begun : World W
    begun = change_row rehearsal.id started_row s

    runs :
        process_rehearsal id s
        ≡ (ok tt, change_row rehearsal.id (settled_row (rehearsal_attempt rehearsal begun).0) begun)
    unfolding process_rehearsal rehearsal_found run_rehearsal rehearsal_attempt
    runs =
        ap (λ o. rehearsal_found o s) found
        ∙ ap
            (λ t. (
              ok tt,
              change_row rehearsal.id (settled_row (rehearsal_attempt rehearsal begun).0) t,
            ))
            (attempt_for-Keeps rehearsal _ begun)

    row_begun : row_at rehearsal_key id begun.db.rehearsals ≡ some (started_row rehearsal)
    row_begun =
        row_at-altered rehearsal_key rehearsal.id id started_row s.db.rehearsals
          (key-row_at rehearsal_key id s.db.rehearsals found) found (λ r. refl)

    id-settled_row :
        (result : Result Error (DeliveryMetrics W × List (Finding W))) (r : Rehearsal W)
        → (settled_row result r).id ≡ r.id
    id-settled_row (ok _) r = refl
    id-settled_row (err e) r = refl

    -- The row that the database must then hold.
    abbrev pub IsSettled :
        Result Error (DeliveryMetrics W × List (Finding W)) → Option (Rehearsal W) → Type 0
    IsSettled (err e) row =
        row
        ≡ some (record rehearsal {
          status = failed;
          fail_reason = some (fail_reason e);
          finished_at = some now;
        })
    IsSettled (ok (delivery, findings)) row =
        row
        ≡ some (record rehearsal {
          status = done;
          delivery_metrics = some delivery;
          findings = findings;
          finished_at = some now;
        })

    settled_row-IsSettled :
        (result : Result Error (DeliveryMetrics W × List (Finding W))) (row : Option (Rehearsal W))
        → row ≡ some (settled_row result (started_row rehearsal))
        → IsSettled result row
    settled_row-IsSettled (ok (delivery, findings)) row h = h
    settled_row-IsSettled (err e) row h = h

    -- How the job ends.
    abbrev pub Ends :
        Result Error (DeliveryMetrics W × List (Finding W))
        → Result Error (Unit {0}) × World W
        → Type 0
    Ends result q =
        (q.0 ≡ ok tt)
        × IsSettled result (row_at rehearsal_key id q.1.committed.rehearsals)
        × (q.1.committed.users ≡ s.db.users)

    -- For a rehearsal that is in the database, if the job's own commits succeed: whatever the downloads,
    -- the ingest or the analysis raise, the job lets no exception through. If they raised one, the
    -- committed row of the rehearsal is `failed`, with the reason for that exception; and if not, it is
    -- `done`, with their metrics and findings; the row is otherwise as it was, and no wallet has changed.
    pub process_rehearsal-Ends : Ends (rehearsal_attempt rehearsal begun).0 (process_rehearsal id s)
    process_rehearsal-Ends =
        let result = (rehearsal_attempt rehearsal begun).0 in
        subst (Ends result) (sym runs) (
          refl,
          settled_row-IsSettled result _ (
              row_at-altered rehearsal_key rehearsal.id id (settled_row result) begun.db.rehearsals
                (key-row_at rehearsal_key id s.db.rehearsals found) row_begun
                (id-settled_row result)),
          refl,
        )
