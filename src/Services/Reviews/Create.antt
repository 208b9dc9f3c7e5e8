-- ===== src/Services/Reviews/Create.antt =====
-- What the steps of `create_review` leave alone.
use slidelens.Prelude.{
  ℕ, ◌+◌, ◌≡◌, refl, ◌∙◌, Bool, Option, none, some, List, [], ◌∷◌, ◌++◌, Bool-cases, inl, inr,
  arith,
}
use slidelens.Prelude.Exec.{pure, ◌>>◌}
use slidelens.Entities.{truth, FileAssetKind, deck_original, data_xlsx, FileName}
use slidelens.Services.{World, Job, process_review}
use slidelens.Services.Frame.{Keeps, Keeps-bind, IgnoresFiles}
use slidelens.Services.Storage.{save_file_asset}
use slidelens.Services.Storage.Laws.{save_file_asset-Keeps}
use slidelens.Services.Reviews.{
  enqueue, Upload, Site, validate, validate_deck, validate_audio, validate_data, or_default,
  save_optional, save_deck, announce, save_uploads,
}

module _ {W : Type 0} where
  validate_audio-Keeps :
      (audio_file : Option Upload) → Keeps (λ (s : World W). s) (validate_audio audio_file)
  unfolding validate_audio
  validate_audio-Keeps none s = refl
  validate_audio-Keeps (some audio_file) s = ground arith

  validate_data-Keeps :
      (data_file : Option Upload) → Keeps (λ (s : World W). s) (validate_data data_file)
  unfolding validate_data
  validate_data-Keeps none s = refl
  validate_data-Keeps (some data_file) s = refl

  validate_deck-Keeps : (deck : Upload) → Keeps (λ (s : World W). s) (validate_deck deck)
  unfolding validate_deck
  validate_deck-Keeps deck s = ground arith

  pub validate-Keeps :
      (deck : Upload) (audio_file data_file : Option Upload)
      → Keeps (λ (s : World W). s) (validate deck audio_file data_file)
  unfolding validate
  validate-Keeps deck audio_file data_file =
      Keeps-bind (λ s. s) (validate_deck deck)
        (λ _. validate_audio audio_file >> validate_data data_file) (validate_deck-Keeps deck)
        (λ _.
          Keeps-bind (λ s. s) (validate_audio audio_file) (λ _. validate_data data_file)
            (validate_audio-Keeps audio_file) (λ _. validate_data-Keeps data_file))

module _ {W : Type 0} (root : List FileName) (fails : Site → Bool) (now expires_at : ℕ) where
  module _ {X : Type 0} (φ : World W → X) (ignores : IgnoresFiles φ)
      (ignores_queue : (s : World W) (queue : List Job)
        → φ (record s { queue = queue }) ≡ φ s) where
    save_deck-Keeps :
        (review_id : ℕ) (deck : Upload)
        → Keeps φ (save_deck root fails now expires_at review_id deck)
    unfolding save_deck
    save_deck-Keeps review_id deck =
        save_file_asset-Keeps φ ignores root (fails _) review_id deck_original _ deck.content
          expires_at 1

    save_optional-Keeps :
        (broken : Bool) (review_id : ℕ) (kind : FileAssetKind) (default : FileName)
        (upload : Option Upload)
        → Keeps φ (save_optional root fails now expires_at broken review_id kind default upload)
    unfolding save_optional
    save_optional-Keeps broken review_id kind default none = λ s. refl
    save_optional-Keeps broken review_id kind default (some upload) =
        Keeps-bind φ
          (save_file_asset root broken review_id kind (or_default upload.filename default)
            upload.content expires_at 1)
          (λ _. pure tt)
          (save_file_asset-Keeps φ ignores root broken review_id kind _ upload.content expires_at 1)
          (λ _ s. refl)

    announce-Keeps :
        (user_id review_id : ℕ) (has_audio has_data : Bool)
        → Keeps φ (announce root fails now expires_at user_id review_id has_audio has_data)
    unfolding announce
    announce-Keeps user_id review_id has_audio has_data s =
        let tracked =
          s.db.events
          ++ record {
            id = s.next_id;
            user_id = some user_id;
            name = "review_created";
            properties = ("has_audio", truth has_audio) ∷ ("has_data", truth has_data) ∷ [];
          }
            ∷ [] in
        let s' : World W = record s {
          db = record s.db { events = tracked };
          next_id = s.next_id + 1;
        } in
        let s'_kept =
          ignores.ignores_events (record s { next_id = s.next_id + 1 }) tracked
          ∙ ignores.ignores_ids s (s.next_id + 1) in
        elim (Bool-cases (fails enqueue)) [
          | inl e ↦ rw e s'_kept
          | inr e ↦ rw e (ignores_queue s' (s.queue ++ process_review review_id ∷ []) ∙ s'_kept)
        ]

    pub save_uploads-Keeps :
        (user_id review_id : ℕ) (deck : Upload) (audio_file data_file : Option Upload)
        → Keeps φ
            (save_uploads root fails now expires_at user_id review_id deck audio_file data_file)
    unfolding save_uploads
    save_uploads-Keeps user_id review_id deck audio_file data_file =
        Keeps-bind φ (save_deck root fails now expires_at review_id deck) _
          (save_deck-Keeps review_id deck)
          (λ _.
            Keeps-bind φ
              (save_optional root fails now expires_at _ review_id FileAssetKind.audio _ audio_file)
              _ (save_optional-Keeps _ review_id FileAssetKind.audio _ audio_file)
              (λ _.
                Keeps-bind φ
                  (save_optional root fails now expires_at _ review_id data_xlsx _ data_file) _
                  (save_optional-Keeps _ review_id data_xlsx _ data_file)
                  (λ _. announce-Keeps user_id review_id _ _)))
