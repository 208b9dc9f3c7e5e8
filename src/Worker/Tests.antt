-- ===== src/Worker/Tests.antt =====
-- A queued review of a user, with and without its deck, and the theorem there.
use slidelens.Prelude.{ℕ, List, ◌≡◌, refl, Bool, true, false, none, some, [], ◌∷◌}
use slidelens.Prelude.Int.{pos, ℤ}
use slidelens.Prelude.Exec.{ok, Result, err}
use slidelens.Prelude.Text.{codes}
use slidelens.Prelude.Table.{row_at}
use slidelens.Entities.{
  Rehearsal, SlideTiming, DeliveryMetrics, FileName, Bytes, User, UserPlan, Review, Db, queued,
  balance,
}
use slidelens.Services.{World, Error, ingest, empty_deck}
use slidelens.Services.Limits.{user_id_of}
use slidelens.Schemas.{Finding}
use slidelens.Services.Rehearsals.{rehearsal_key}
use slidelens.Worker.Rehearsals.{
  rehearsal_attempt, begun as begun_rehearsal, Ends, process_rehearsal, process_rehearsal-Ends,
}
use slidelens.Worker.{Inputs, PipelineOutput, Site, review_key, attempt, process_review}
use slidelens.Worker.Outcome.{Settled, begun, process_review-Settled}

abbrev boris : User
boris = record {
  id = 3;
  email = "boris@example.org";
  password_hash = "";
  plan = UserPlan.free;
  free_reviews_left = 0;
  balance_reviews = 4;
  email_verified = true;
  is_admin = false;
}

abbrev waiting : Review ℤ
waiting = record {
  id = 5;
  user_id = 3;
  status = queued;
  score = none;
  fail_reason = none;
  deck_filename = codes "deck.pdf";
  n_slides = none;
  delivery_metrics = none;
  has_audio = false;
  has_data = false;
  credit_source = some balance;
  created_at = 100;
  finished_at = none;
}

abbrev start_db : Db ℤ
start_db = record {
  users = boris ∷ [];
  reviews = waiting ∷ [];
  findings = [];
  assets = [];
  events = [];
  rehearsals = [];
}

abbrev start : World ℤ
start = record {
  committed = start_db;
  db = start_db;
  files = [];
  queue = [];
  outbox = [];
  next_id = 50;
}

abbrev no_failure : Site → Bool
no_failure site = false

abbrev empty_pipeline : Inputs → Result Error (PipelineOutput ℤ)
empty_pipeline inputs = err (ingest empty_deck)

found_waiting : row_at review_key 5 start.db.reviews ≡ some waiting
unfolding row_at
found_waiting = refl

found_boris : row_at user_id_of 3 start.db.users ≡ some boris
unfolding row_at
found_boris = refl

process_review-Settled_example :
    Settled
      (codes "srv" ∷ [])
      no_failure
      200
      300
      empty_pipeline
      5
      waiting
      boris
      start
      found_waiting
      found_boris
      (attempt (codes "srv" ∷ []) no_failure 200 300 empty_pipeline waiting (
        begun
          (codes "srv" ∷ [])
          no_failure
          200
          300
          empty_pipeline
          5
          waiting
          boris
          start
          found_waiting
          found_boris)).0
      (process_review (codes "srv" ∷ []) no_failure 200 300 empty_pipeline 5 start)
process_review-Settled_example =
    process_review-Settled (codes "srv" ∷ []) no_failure 200 300 empty_pipeline 5 waiting boris
      start found_waiting found_boris

abbrev first_take : Rehearsal ℤ
first_take = record {
  id = 8;
  review_id = 5;
  status = queued;
  fail_reason = none;
  audio_path = some (codes "5/8_take.webm");
  slide_timings = [];
  delivery_metrics = none;
  findings = [];
  attempt_num = 1;
  finished_at = none;
}

abbrev rehearsed : World ℤ
rehearsed = record start { db = record start_db { rehearsals = first_take ∷ [] } }

abbrev no_texts : FileName × Bytes → Result Error (List ℕ)
no_texts file = err (ingest empty_deck)

abbrev silence :
    List ℕ
    → FileName × Bytes
    → List (SlideTiming ℤ)
    → Result Error (DeliveryMetrics ℤ × List (Finding ℤ))
silence texts file timings =
    ok (record { words_per_minute = pos 0; filler_words = []; long_pauses = [] }, [])

found_take : row_at rehearsal_key 8 rehearsed.db.rehearsals ≡ some first_take
unfolding row_at
found_take = refl

process_rehearsal-Ends_example :
    Ends
      (codes "srv" ∷ [])
      200
      no_texts
      silence
      8
      first_take
      rehearsed
      found_take
      (rehearsal_attempt (codes "srv" ∷ []) 200 no_texts silence first_take (
        begun_rehearsal
          (codes "srv" ∷ [])
          200
          no_texts
          silence
          8
          first_take
          rehearsed
          found_take)).0
      (process_rehearsal (codes "srv" ∷ []) 200 no_texts silence 8 rehearsed)
process_rehearsal-Ends_example =
    process_rehearsal-Ends (codes "srv" ∷ []) 200 no_texts silence 8 first_take rehearsed found_take
