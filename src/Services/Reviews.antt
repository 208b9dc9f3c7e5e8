-- ===== src/Services/Reviews.antt =====
-- Creating, reading and deleting reviews (backend/app/services/review_service.py).
pub mod Create
pub mod Charge
pub mod Access
use slidelens.Prelude.{
  ℕ, ◌+◌, ◌*◌, ◌≡◌, String, Bool, true, false, not, ◌&&◌, Option, none, some, List, [], ◌∷◌, ◌++◌,
  map, filter, find?, length, count, ltb, leb, ◌==◌, if◌then◌else◌,
}
use slidelens.Prelude.Int.{ℤ, pos, negsuc, leb_ℤ}
use slidelens.Prelude.Exec.{Exec, Result, ok, err, pure, raise, raise_if, catch, ◌>>=◌, ◌>>◌}
use slidelens.Prelude.Sort.{sort_by}
use slidelens.Prelude.Table.{row_at, alter}
use slidelens.Prelude.Text.{codes, extension_of, one_of}
use slidelens.Schemas.{critical, major, minor, Severity}
use slidelens.Entities.{
  truth, Review, FindingRow, FileAsset, Rehearsal, Db, CreditSource, ReviewStatus, queued,
  processing, done, failed, FileAssetKind, deck_original, data_xlsx, report_pdf, fixed_pptx,
  FileName, Bytes, same_status, same_kind, DeliveryMetrics,
}
use slidelens.Services.{
  World, Action, Error, Job, process_review, review_validation, review_too_large, review_not_found,
  review_not_ready, other, with_db, may_fail, commit, rollback, track, uuid4,
}
use slidelens.Services.Limits.{check_and_reserve, refund}
use slidelens.Services.Storage.{save_file_asset, delete}

pub record Upload : Type 0 where
  pub filename : Option FileName
  pub content : Bytes

abbrev pub max_deck_size_bytes : ℕ
max_deck_size_bytes = 50 * 1024 * 1024

abbrev pub max_audio_size_bytes : ℕ
max_audio_size_bytes = 200 * 1024 * 1024

abbrev deck_extensions : List (List ℕ)
deck_extensions = codes ".pptx" ∷ codes ".pdf" ∷ []

abbrev audio_extensions : List (List ℕ)
audio_extensions = codes ".mp4" ∷ codes ".mov" ∷ codes ".mp3" ∷ codes ".m4a" ∷ codes ".wav" ∷ []

abbrev data_extensions : List (List ℕ)
data_extensions = codes ".xlsx" ∷ []

-- `name or default`
pub or_default : Option FileName → FileName → FileName
or_default none d = d
or_default (some []) d = d
or_default (some (c ∷ s)) d = c ∷ s

-- `_extension(filename)`
pub extension : Option FileName → List ℕ
unfolding or_default
extension name = extension_of (or_default name [])

pub is_some : Option Upload → Bool
is_some none = false
is_some (some _) = true

-- The external calls of `create_review`, each of which may fail.
pub data Site : Type 0 where
  reservation_commit review_flush deck_save audio_save data_save enqueue review_commit
        refund_commit :
      Site

module _ {W : Type 0} where
  pub validate_deck : Upload → Action W (Unit {0})
  unfolding extension
  validate_deck deck = do
    raise_if (ltb max_deck_size_bytes (length deck.content)) (review_too_large "Дека больше 50 МБ")
    raise_if (not (one_of (extension deck.filename) deck_extensions))
        (review_validation "Дека должна быть в формате PPTX или PDF")

  pub validate_audio : Option Upload → Action W (Unit {0})
  validate_audio none = pure tt
  validate_audio (some audio_file) = do
    raise_if
        (not
          (one_of (extension_of (or_default audio_file.filename (codes "audio"))) audio_extensions))
        (review_validation "Запись питча должна быть mp4/mov/mp3/m4a/wav")
    raise_if (ltb max_audio_size_bytes (length audio_file.content))
        (review_too_large "Запись питча больше 200 МБ")

  pub validate_data : Option Upload → Action W (Unit {0})
  validate_data none = pure tt
  validate_data (some data_file) =
      raise_if
        (not (
          one_of (extension_of (or_default data_file.filename (codes "data.xlsx")))
            data_extensions))
        (review_validation "Файл с данными должен быть в формате XLSX")

  pub validate : Upload → Option Upload → Option Upload → Action W (Unit {0})
  unfolding validate_deck validate_audio validate_data
  validate deck audio_file data_file = do
    validate_deck deck
    validate_audio audio_file
    validate_data data_file

  module _ (root : List FileName) (fails : Site → Bool) (now expires_at : ℕ) where
    save_optional : Bool → ℕ → FileAssetKind → FileName → Option Upload → Action W (Unit {0})
    save_optional broken review_id kind default none = pure tt
    save_optional broken review_id kind default (some upload) =
        save_file_asset root broken review_id kind (or_default upload.filename default)
          upload.content expires_at 1
        >> pure tt

    -- The new row, as `Review(...)` builds it.
    pub new_review : ℕ → ℕ → Upload → Option Upload → Option Upload → CreditSource → Review W
    unfolding is_some
    new_review id user_id deck audio_file data_file source = record {
      id = id;
      user_id = user_id;
      status = queued;
      score = none;
      fail_reason = none;
      deck_filename = or_default deck.filename (codes "deck");
      n_slides = none;
      delivery_metrics = none;
      has_audio = is_some audio_file;
      has_data = is_some data_file;
      credit_source = some source;
      created_at = now;
      finished_at = none;
    }

    save_deck : ℕ → Upload → Action W FileAsset
    save_deck review_id deck =
        save_file_asset root (fails deck_save) review_id deck_original
          (or_default deck.filename (codes "deck")) deck.content expires_at 1

    -- The event, the job and what stands before the commit.
    announce : ℕ → ℕ → Bool → Bool → Action W (Unit {0})
    announce user_id review_id has_audio has_data = do
      track (some user_id) "review_created"
          (("has_audio", truth has_audio) ∷ ("has_data", truth has_data) ∷ [])
      may_fail (fails enqueue)
      (λ s. (ok tt, record s { queue = s.queue ++ process_review review_id ∷ [] }))
      may_fail (fails review_commit)

    pub save_uploads : ℕ → ℕ → Upload → Option Upload → Option Upload → Action W (Unit {0})
    unfolding save_optional save_deck announce
    save_uploads user_id review_id deck audio_file data_file =
        save_deck review_id deck
        >> (save_optional (fails audio_save) review_id FileAssetKind.audio (codes "audio")
              audio_file
            >> (save_optional (fails data_save) review_id data_xlsx (codes "data.xlsx") data_file
                >> announce user_id review_id (is_some audio_file) (is_some data_file)))

    committed_review : Review W → Action W (Review W)
    committed_review review = do commit; pure review

    -- The body of the `try`.
    pub persist : ℕ → Upload → Option Upload → Option Upload → CreditSource → Action W (Review W)
    unfolding save_uploads committed_review
    persist user_id deck audio_file data_file source = do
      id ← uuid4
      let review = new_review id user_id deck audio_file data_file source
      with_db (λ db. record db { reviews = db.reviews ++ review ∷ [] })
      may_fail (fails review_flush)
      save_uploads user_id id deck audio_file data_file
      committed_review review

    -- The `except` branch: the transaction is undone, the credit given back, the error passed on.
    pub undo : ℕ → CreditSource → Error → Action W (Review W)
    undo user_id source e = do
      rollback
      refund user_id (some source)
      may_fail (fails refund_commit)
      commit
      raise e

    pub persist_or_undo :
        ℕ → Upload → Option Upload → Option Upload → CreditSource → Action W (Review W)
    persist_or_undo user_id deck audio_file data_file source =
        catch (persist user_id deck audio_file data_file source) (undo user_id source)

    -- From the reservation on.
    pub reserve_and_persist : ℕ → Upload → Option Upload → Option Upload → Action W (Review W)
    unfolding persist_or_undo
    reserve_and_persist user_id deck audio_file data_file = do
      reserved ← check_and_reserve user_id
      may_fail (fails reservation_commit)
      commit
      persist_or_undo user_id deck audio_file data_file reserved.1

    pub create_review : ℕ → Upload → Option Upload → Option Upload → Action W (Review W)
    create_review user_id deck audio_file data_file = validate deck audio_file data_file >>= λ _.
        reserve_and_persist user_id deck audio_file data_file
