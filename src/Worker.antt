-- ===== src/Worker.antt =====
-- The jobs of the worker (backend/worker/tasks.py). What the pipeline makes of the downloaded files
-- is an input, `pipeline`; so is a failure of the file system or of the mail server.
mod Tests
pub mod Rehearsals
pub mod Steps
pub mod Outcome
use slidelens.Prelude.{
  ℕ, ◌+◌, ◌≡◌, String, Bool, true, false, not, ◌&&◌, Option, none, some, List, [], ◌∷◌, ◌++◌, map,
  filter, find?, length, ltb, ◌==◌, if◌then◌else◌,
}
use slidelens.Prelude.Int.{ℤ, pos}
use slidelens.Prelude.Exec.{Exec, Result, ok, err, pure, raise, lift, gets, ◌>>=◌, ◌>>◌}
use slidelens.Prelude.Table.{row_at, alter}
use slidelens.Prelude.Text.{codes, show, path_name, same_codes}
use slidelens.Schemas.{Finding}
use slidelens.Entities.{
  number, amount, text, User, Review, FindingRow, FileAsset, FileAssetKind, Rehearsal,
  DeliveryMetrics, ReviewStatus, queued, processing, done, failed, deck_original, slide_png,
  annotated_png, data_xlsx, report_pdf, FileName, Bytes, Db, same_kind,
}
use slidelens.Services.{
  type_name, World, Action, Error, IngestError, ingest, other, commit, with_db, may_fail, track,
  corrupted_file, unsupported_deck_format, password_protected, empty_deck, deck_too_large,
  render_timeout, no_audio_track, audio_too_long,
}
use slidelens.Services.Storage.{save_file_asset, open_file}
use slidelens.Services.Limits.{refund, user_id_of}
use slidelens.Services.Findings.{finding_to_row, upsert_fixed_pptx}

ingest_reason : IngestError → String
ingest_reason password_protected = "Файл защищён паролем"
ingest_reason unsupported_deck_format = "Неподдерживаемый формат файла — нужен PPTX или PDF"
ingest_reason empty_deck = "В файле не найдено ни одного слайда"
ingest_reason deck_too_large = "Дека превышает лимит размера или числа слайдов"
ingest_reason no_audio_track = "В записи питча не найдена звуковая дорожка"
ingest_reason audio_too_long = "Запись питча длиннее 30 минут"
ingest_reason render_timeout = "Не удалось отрендерить файл за отведённое время"
ingest_reason corrupted_file = "Файл повреждён или не открывается"

-- `_fail_reason`
pub fail_reason : Error → String
unfolding ingest_reason
fail_reason (ingest e) = ingest_reason e
fail_reason _ = "Не удалось обработать Разбор — мы уже разбираемся"

-- The parts of the context that `_download_inputs` fills.
pub record Inputs : Type 0 where
  pub deck : Option (FileName × Bytes)
  pub audio : Option (FileName × Bytes)
  pub xlsx : Option (FileName × Bytes)

-- `_PipelineOutput`, with the files' contents: the slides in order, each annotated picture by name
-- with the findings that it shows.
pub record PipelineOutput (W : Type 0) : Type 0 where
  pub slide_pngs : List Bytes
  pub annotations : List (ℕ × FileName)
  pub pictures : FileName → Bytes
  pub findings : List (Finding W)
  pub fixed : Option Bytes
  pub pdf_bytes : Bytes
  pub score : ℤ
  pub n_slides : ℕ
  pub cost_rub : W
  pub delivery : Option (DeliveryMetrics W)

-- The places where the outside may fail a job.
pub data Site : Type 0 where
  slide_save annotated_save fixed_save report_save mail : Site

abbrev pub review_key : {W : Type 0} → Review W → ℕ
review_key r = r.id

slide_name : ℕ → FileName
slide_name n =
    codes "slide_"
    ++ (if ltb n 10 then codes "00" else if ltb n 100 then codes "0" else [])
    ++ codes (show n)
    ++ codes ".png"

-- A file into the field of its kind.
abbrev place : FileAssetKind → FileName × Bytes → Inputs → Inputs
place deck_original file inputs = record inputs { deck = some file }
place FileAssetKind.audio file inputs = record inputs { audio = some file }
place data_xlsx file inputs = record inputs { xlsx = some file }
place _ file inputs = inputs

abbrev pub screenshot_of : ℕ → List (ℕ × ℕ) → Option ℕ
screenshot_of finding_id [] = none
screenshot_of finding_id ((id, asset_id) ∷ shots) =
    if id == finding_id then some asset_id else screenshot_of finding_id shots

asset_of : FileName → List (FileName × ℕ) → Option ℕ
asset_of path [] = none
asset_of path ((p, asset_id) ∷ saved) =
    if same_codes p path then some asset_id else asset_of path saved

module _ {W : Type 0} where
  abbrev set_review : ℕ → (Review W → Review W) → World W → World W
  set_review id f s = record s { db = record s.db { reviews = alter review_key id f s.db.reviews } }

  module _ (root : List FileName) where
    download : List FileAsset → Inputs → Action W Inputs
    download [] inputs s = (ok inputs, s)
    download (asset ∷ assets) inputs s =
        (open_file root asset.storage_path >>= λ content.
        download assets (place asset.kind (path_name asset.storage_path, content) inputs))
          s

    has_deck : Inputs → Action W Inputs
    has_deck inputs s =
        (elim (inputs.deck) [ none ↦ err (ingest corrupted_file) | some _ ↦ ok inputs ], s)

    -- `_download_inputs`
    pub download_inputs : Review W → Action W Inputs
    unfolding download has_deck
    download_inputs review s =
        (download (filter (λ (a : FileAsset). a.review_id == review.id) s.db.assets)
              (record { deck = none; audio = none; xlsx = none })
            >>= has_deck)
          s

  abbrev pub finding_rows : ℕ → List (ℕ × ℕ) → List (Finding W) → List (FindingRow W)
  finding_rows review_id shots findings =
      map
        (λ f. record (finding_to_row review_id f) {
          screenshot_asset_id = screenshot_of f.id shots;
        })
        findings

  abbrev pub mark_done : PipelineOutput W → ℕ → Review W → Review W
  mark_done output now review = record review {
    delivery_metrics = output.delivery;
    status = done;
    score = some output.score;
    n_slides = some output.n_slides;
    finished_at = some now;
  }

  abbrev pub mark_failed_row : Error → ℕ → Review W → Review W
  mark_failed_row e now review = record review {
    status = failed;
    fail_reason = some (fail_reason e);
    finished_at = some now;
  }

  module _ (root : List FileName) (fails : Site → Bool) (now expires_at : ℕ) where
    save_slides : ℕ → ℕ → List Bytes → Action W (Unit {0})
    save_slides review_id n [] = pure tt
    save_slides review_id n (png ∷ pngs) =
        save_file_asset root (fails slide_save) review_id slide_png (slide_name n) png expires_at 1
        >> save_slides review_id (n + 1) pngs

    -- The picture's asset: the one that is there, or a new one.
    asset_for : ℕ → (FileName → Bytes) → FileName → Option ℕ → Action W ℕ
    asset_for review_id pictures path (some asset_id) s = (ok asset_id, s)
    asset_for review_id pictures path none s =
        (save_file_asset root (fails annotated_save) review_id annotated_png path (pictures path)
              expires_at 1
            >>= λ asset. pure asset.id)
          s

    -- One picture is saved once, for all the findings on it.
    save_annotations :
        ℕ → (FileName → Bytes) → List (FileName × ℕ) → List (ℕ × FileName) → Action W (List (ℕ × ℕ))
    unfolding asset_for
    save_annotations review_id pictures saved [] = pure []
    save_annotations review_id pictures saved ((finding_id, path) ∷ annotations) =
        asset_for review_id pictures path (asset_of path saved) >>= λ asset_id.
        save_annotations review_id pictures ((path, asset_id) ∷ saved) annotations >>= λ shots.
        pure ((finding_id, asset_id) ∷ shots)

    save_fixed : Review W → Option Bytes → Action W (Unit {0})
    save_fixed review none = pure tt
    save_fixed review (some content) =
        upsert_fixed_pptx root (fails fixed_save) expires_at review.id review.deck_filename content
        >> pure tt

    -- The files of `_persist_success`; the result is the asset of each finding's picture.
    pub persist_files : Review W → PipelineOutput W → Action W (List (ℕ × ℕ))
    unfolding save_slides save_annotations save_fixed
    persist_files review output =
        save_slides review.id 1 output.slide_pngs
        >> (save_annotations review.id output.pictures [] output.annotations >>= λ shots.
            save_fixed review output.fixed
            >> (save_file_asset root (fails report_save) review.id report_pdf (codes "report.pdf")
                  output.pdf_bytes expires_at 1
                >> pure shots))

    -- The rows of `_persist_success`, and its commit.
    pub persist_rows : Review W → PipelineOutput W → List (ℕ × ℕ) → Action W (Unit {0})
    persist_rows review output shots = do
      with_db (λ db. record db {
        findings = db.findings ++ finding_rows review.id shots output.findings;
        reviews = alter review_key review.id (mark_done output now) db.reviews;
      })
      track (some review.user_id) "review_done" (
          ("score", number output.score)
          ∷ ("n_slides", number (pos output.n_slides))
          ∷ ("cost_rub", amount output.cost_rub)
          ∷ [])
      commit

    -- `EmailService.send_report_ready`
    send_report_ready : Review W → Option User → Action W (Unit {0})
    send_report_ready review none s = (ok tt, s)
    send_report_ready review (some user) s = (
      if fails mail then err (other "SMTPException") else ok tt,
      record s {
        outbox = if fails mail then s.outbox else s.outbox ++ (user.email, review.id) ∷ [];
      },
    )

    pub mail_owner : Review W → Action W (Unit {0})
    unfolding send_report_ready
    mail_owner review s = send_report_ready review (row_at user_id_of review.user_id s.db.users) s

    pub rows_and_mail : Review W → PipelineOutput W → List (ℕ × ℕ) → Action W (Unit {0})
    unfolding persist_rows mail_owner
    rows_and_mail review output shots = persist_rows review output shots >> mail_owner review

    pub persist_success : Review W → PipelineOutput W → Action W (Unit {0})
    unfolding persist_files rows_and_mail
    persist_success review output = persist_files review output >>= rows_and_mail review output

    -- `_mark_failed`
    pub mark_failed : Review W → Error → Action W (Unit {0})
    mark_failed review e = do
      with_db (λ db. record db {
        reviews = alter review_key review.id (mark_failed_row e now) db.reviews;
      })
      refund review.user_id review.credit_source
      track (some review.user_id) "review_failed" (("reason", text (type_name e)) ∷ [])
      commit

    module _ (pipeline : Inputs → Result Error (PipelineOutput W)) where
      run_pipeline : Inputs → Action W (PipelineOutput W)
      run_pipeline inputs s = (pipeline inputs, s)

      -- The body of the inner `try`.
      pub attempt : Review W → Action W (PipelineOutput W)
      unfolding run_pipeline
      attempt review = download_inputs root review >>= run_pipeline

      -- Its `except`, and what follows it.
      pub settle : Review W → Result Error (PipelineOutput W) → Action W (Unit {0})
      settle review (ok output) s = persist_success review output s
      settle review (err e) s = mark_failed review e s

      pub run_review : Review W → Action W (Unit {0})
      unfolding attempt settle
      run_review review s =
          let s1 = (set_review review.id (λ r. record r { status = processing }) s) in
          let s2 : World W = record s1 { committed = s1.db } in
          settle review (attempt review s2).0 (attempt review s2).1

      run_found : Option (Review W) → Action W (Unit {0})
      unfolding run_review
      run_found none s = (ok tt, s)
      run_found (some review) s = run_review review s

      -- `process_review`
      pub process_review : ℕ → Action W (Unit {0})
      unfolding run_found
      process_review id s = run_found (row_at review_key id s.db.reviews) s
