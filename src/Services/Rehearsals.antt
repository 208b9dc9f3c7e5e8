-- ===== src/Services/Rehearsals.antt =====
-- Rehearsals (backend/app/services/rehearsal_service.py).
pub mod Attempts
pub mod Report
use slidelens.Prelude.{
  ℕ, ◌+◌, ◌≡◌, String, Bool, true, false, not, ◌&&◌, Option, none, some, List, [], ◌∷◌, ◌++◌, map,
  filter, find?, length, leb, ltb, ◌==◌, if◌then◌else◌,
}
use slidelens.Prelude.Int.{ℤ, sub_ℕ}
use slidelens.Prelude.Exec.{Exec, Result, ok, err, pure, raise, gets, raise_if, ◌>>=◌, ◌>>◌}
use slidelens.Prelude.Sort.{sort_by}
use slidelens.Prelude.Table.{row_at, alter}
use slidelens.Prelude.Text.{codes, one_of}
use slidelens.Double.{Double, ◌⊖◌}
use slidelens.Entities.{
  Review, Rehearsal, SlideTiming, DeliveryMetrics, queued, done, same_status, FileName, Bytes,
}
use slidelens.Services.{
  World, Action, Error, process_rehearsal, review_not_found, review_not_ready, rehearsal_not_found,
  rehearsal_not_ready, rehearsal_validation, with_db, may_fail, commit, uuid4,
}
use slidelens.Services.Storage.{save, open_file, delete}
use slidelens.Services.Reviews.{Upload, extension, or_default}
use slidelens.Analyzers.Pacing.{Pacing, classify_slide_pacing}

abbrev rehearsal_extensions : List (List ℕ)
rehearsal_extensions =
    codes ".mp4"
    ∷ codes ".mov"
    ∷ codes ".mp3"
    ∷ codes ".m4a"
    ∷ codes ".wav"
    ∷ codes ".webm"
    ∷ codes ".ogg"
    ∷ []

abbrev is_empty : {A : Type 0} → List A → Bool
is_empty [] = true
is_empty (_ ∷ _) = false

module _ {W : Type 0} where
  abbrev pub rehearsal_key : Rehearsal W → ℕ
  rehearsal_key r = r.id

  owned_review : ℕ → Option (Review W) → Action W (Review W)
  owned_review user_id none s = (err review_not_found, s)
  owned_review user_id (some review) s =
      (if review.user_id == user_id then ok review else err review_not_found, s)

  -- `_get_owned_review`
  pub get_owned_review : ℕ → ℕ → Action W (Review W)
  unfolding owned_review
  get_owned_review user_id review_id s =
      owned_review user_id (row_at (λ (r : Review W). r.id) review_id s.db.reviews) s

  -- `func.max(...)`, and 0 for no rows
  max_attempt : ℕ → List (Rehearsal W) → ℕ
  max_attempt review_id [] = 0
  max_attempt review_id (r ∷ rows) =
      let rest = max_attempt review_id rows in
      if r.review_id == review_id && leb rest r.attempt_num then r.attempt_num else rest

  -- The checks before anything is written.
  pub check_recording : Review W → Upload → List (SlideTiming W) → Action W (Unit {0})
  check_recording review recording slide_timings = do
    raise_if (not (same_status review.status done)) review_not_ready
    raise_if (not (one_of (extension recording.filename) rehearsal_extensions))
        (rehearsal_validation "Запись должна быть аудио- или видеофайлом")
    raise_if (is_empty recording.content) (rehearsal_validation "Аудиозапись пуста")
    raise_if (is_empty slide_timings)
        (rehearsal_validation "Не удалось определить тайминг слайдов записи")

  pub new_rehearsal : ℕ → ℕ → List (SlideTiming W) → ℕ → Rehearsal W
  new_rehearsal id review_id slide_timings attempt_num = record {
    id = id;
    review_id = review_id;
    status = queued;
    fail_reason = none;
    audio_path = none;
    slide_timings = slide_timings;
    delivery_metrics = none;
    findings = [];
    attempt_num = attempt_num;
    finished_at = none;
  }

  if_rehearsal_owner : ℕ → List (Review W) → Option (Rehearsal W) → Result Error (Rehearsal W)
  if_rehearsal_owner user_id reviews none = err rehearsal_not_found
  if_rehearsal_owner user_id reviews (some rehearsal) =
      elim (row_at (λ (r : Review W). r.id) rehearsal.review_id reviews) [
        | none ↦ err rehearsal_not_found
        | some review ↦ if review.user_id == user_id then ok rehearsal else err rehearsal_not_found
      ]

  pub get_rehearsal : ℕ → ℕ → Action W (Rehearsal W)
  unfolding if_rehearsal_owner
  get_rehearsal user_id rehearsal_id s = (
    if_rehearsal_owner user_id s.db.reviews (row_at rehearsal_key rehearsal_id s.db.rehearsals),
    s,
  )

  pub list_rehearsals : ℕ → ℕ → Action W (List (Rehearsal W))
  list_rehearsals user_id review_id = do
    get_owned_review user_id review_id
    gets (λ s.
        sort_by (λ (a b : Rehearsal W). leb a.attempt_num b.attempt_num)
          (filter (λ (r : Rehearsal W). r.review_id == review_id) s.db.rehearsals))

  module _ (root : List FileName) (save_fails enqueue_fails : Bool) where
    enqueue_and_commit : Rehearsal W → FileName → Action W (Rehearsal W)
    enqueue_and_commit rehearsal path = do
      with_db (λ db. record db {
        rehearsals =
            alter rehearsal_key rehearsal.id (λ r. record r { audio_path = some path })
              db.rehearsals;
      })
      may_fail enqueue_fails
      (λ s. (ok tt, record s { queue = s.queue ++ process_rehearsal rehearsal.id ∷ [] }))
      commit
      pure (record rehearsal { audio_path = some path })

    store_recording : Upload → Rehearsal W → Action W (Rehearsal W)
    unfolding enqueue_and_commit
    store_recording recording rehearsal =
        save root save_fails rehearsal.review_id rehearsal.id
          (or_default recording.filename (codes "rehearsal.webm")) recording.content
        >>= enqueue_and_commit rehearsal

    add_rehearsal : Review W → Upload → List (SlideTiming W) → Action W (Rehearsal W)
    unfolding max_attempt store_recording
    add_rehearsal review recording slide_timings s =
        let rehearsal =
          new_rehearsal s.next_id review.id slide_timings
            (max_attempt review.id s.db.rehearsals + 1) in
        store_recording recording rehearsal (record s {
          next_id = s.next_id + 1;
          db = record s.db { rehearsals = s.db.rehearsals ++ rehearsal ∷ [] };
        })

    checked_rehearsal : Upload → List (SlideTiming W) → Review W → Action W (Rehearsal W)
    unfolding add_rehearsal
    checked_rehearsal recording slide_timings review =
        check_recording review recording slide_timings
        >> add_rehearsal review recording slide_timings

    pub create_rehearsal : ℕ → ℕ → Upload → List (SlideTiming W) → Action W (Rehearsal W)
    unfolding checked_rehearsal
    create_rehearsal user_id review_id recording slide_timings =
        get_owned_review user_id review_id >>= checked_rehearsal recording slide_timings

  module _ (root : List FileName) where
    recording_of : Rehearsal W → Action W (Bytes × FileName)
    recording_of rehearsal s = elim (or_default rehearsal.audio_path []) [
      | [] ↦ (err rehearsal_not_found, s)
      | c ∷ path ↦ (open_file root (c ∷ path) >>= λ content. pure (content, c ∷ path)) s
    ]

    pub get_rehearsal_audio : ℕ → ℕ → Action W (Bytes × FileName)
    unfolding recording_of
    get_rehearsal_audio user_id rehearsal_id = get_rehearsal user_id rehearsal_id >>= recording_of

    remove_recording : FileName → Action W (Unit {0})
    remove_recording [] = pure tt
    remove_recording (c ∷ path) = delete root (c ∷ path)

    remove_rehearsal : Rehearsal W → Action W (Unit {0})
    unfolding remove_recording
    remove_rehearsal rehearsal = do
      remove_recording (or_default rehearsal.audio_path [])
      with_db (λ db. record db {
        rehearsals = filter (λ (r : Rehearsal W). not (r.id == rehearsal.id)) db.rehearsals;
      })
      commit

    pub delete_rehearsal : ℕ → ℕ → Action W (Unit {0})
    unfolding remove_rehearsal
    delete_rehearsal user_id rehearsal_id = get_rehearsal user_id rehearsal_id >>= remove_rehearsal
