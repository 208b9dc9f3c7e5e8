-- ===== src/Services.antt =====
-- What the services share: their errors (backend/app/services/exceptions.py), the state that a
-- request or a job works on, and the transaction of its database session.
mod Tests
pub mod Storage
pub mod Frame
pub mod Limits
pub mod Reviews
pub mod Findings
pub mod Rehearsals
use slidelens.Prelude.{
  ℕ, ◌+◌, ◌≡◌, String, Bool, true, false, Option, none, some, List, [], ◌∷◌, ◌++◌, if◌then◌else◌,
}
use slidelens.Prelude.Int.{ℤ}
use slidelens.Prelude.Exec.{Exec, Result, ok, err}
use slidelens.Entities.{Property, Db, FileName, Bytes, Event}

pub data Job : Type 0 where
  process_review process_rehearsal : ℕ → Job

-- The typed errors of deck and audio ingest (backend/core/ingest_errors.py).
pub data IngestError : Type 0 where
  corrupted_file unsupported_deck_format password_protected empty_deck deck_too_large render_timeout
        no_audio_track audio_too_long :
      IngestError

pub data Error : Type 0 where
  limit_exceeded review_not_found review_not_ready finding_not_found rehearsal_not_found
        rehearsal_not_ready :
      Error
  review_validation review_too_large rehearsal_validation : String → Error
  -- SQLAlchemy's error for a row that is not there
  no_result_found : Error
  ingest : IngestError → Error
  -- whatever else a library, the network or the file system raises, by its class's name
  other : String → Error

abbrev ingest_name : IngestError → String
ingest_name corrupted_file = "CorruptedFileError"
ingest_name unsupported_deck_format = "UnsupportedDeckFormatError"
ingest_name password_protected = "PasswordProtectedError"
ingest_name empty_deck = "EmptyDeckError"
ingest_name deck_too_large = "DeckTooLargeError"
ingest_name render_timeout = "RenderTimeoutError"
ingest_name no_audio_track = "NoAudioTrackError"
ingest_name audio_too_long = "AudioTooLongError"

-- `type(exc).__name__`
pub type_name : Error → String
type_name limit_exceeded = "LimitExceededError"
type_name review_not_found = "ReviewNotFoundError"
type_name review_not_ready = "ReviewNotReadyError"
type_name finding_not_found = "FindingNotFoundError"
type_name rehearsal_not_found = "RehearsalNotFoundError"
type_name rehearsal_not_ready = "RehearsalNotReadyError"
type_name (review_validation _) = "ReviewValidationError"
type_name (review_too_large _) = "ReviewTooLargeError"
type_name (rehearsal_validation _) = "RehearsalValidationError"
type_name no_result_found = "NoResultFound"
type_name (ingest e) = ingest_name e
type_name (other name) = name

-- The HTTP status of a domain error; no other error has one.
pub status_code : Error → Option ℕ
status_code limit_exceeded = some 402
status_code (review_validation _) = some 422
status_code (review_too_large _) = some 413
status_code review_not_found = some 404
status_code review_not_ready = some 409
status_code finding_not_found = some 404
status_code rehearsal_not_found = some 404
status_code rehearsal_not_ready = some 409
status_code (rehearsal_validation _) = some 422
status_code _ = none

-- `committed` is what the database keeps, and `db` what the session sees. `next_id` is the supply
-- of `uuid4`.
pub record World (W : Type 0) : Type 0 where
  pub committed : Db W
  pub db : Db W
  pub files : List (FileName × Bytes)
  pub queue : List Job
  pub outbox : List (String × ℕ)
  pub next_id : ℕ

abbrev pub Action : Type 0 → Type 0 → Type 0
Action W A = Exec (World W) Error A

module _ {W : Type 0} where
  -- A call outside that may fail; `fails` says whether this one does.
  abbrev pub may_fail : Bool → Action W (Unit {0})
  may_fail fails s = (if fails then err (other "Exception") else ok tt, s)

  abbrev pub commit : Action W (Unit {0})
  commit s = (ok tt, record s { committed = s.db })

  abbrev pub rollback : Action W (Unit {0})
  rollback s = (ok tt, record s { db = s.committed })

  abbrev pub with_db : (Db W → Db W) → Action W (Unit {0})
  with_db f s = (ok tt, record s { db = f s.db })

  abbrev pub uuid4 : Action W ℕ
  uuid4 s = (ok s.next_id, record s { next_id = s.next_id + 1 })

  -- `EventTracker.track`
  abbrev pub track : Option ℕ → String → List (String × Property W) → Action W (Unit {0})
  track user_id name properties s = (
    ok tt,
    record s {
      db = record s.db {
        events =
            s.db.events
            ++ record { id = s.next_id; user_id = user_id; name = name; properties = properties }
              ∷ [];
      };
      next_id = s.next_id + 1;
    },
  )
