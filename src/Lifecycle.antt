-- ===== src/Lifecycle.antt =====
-- The life of one review, across the request that creates it (`create_review` of
-- backend/app/services/review_service.py) and the job that runs it (`process_review` of
-- backend/worker/tasks.py): the abstract states, and the code's as one of them.
mod Tests
use slidelens.Prelude.{
  ℕ, suc, ◌≡◌, ◌≢◌, ◌<◌, refl, sym, Bool, Option, some, List, [], ◌∷◌, ◌++◌, inl, inr,
  if◌then◌else◌,
}
use slidelens.Prelude.Exec.{Result, ok, err}
use slidelens.Prelude.Table.{row_at, row_at-altered, key-row_at}
use slidelens.Entities.{
  User, Review, CreditSource, free, balance, admin, ReviewStatus, queued, processing, done, failed,
  FileName,
}
use slidelens.Services.{World, Error}
use slidelens.Services.Limits.{user_id_of, wallet, refunded}
use slidelens.Services.Limits.Laws.{payer, paid, refunded-paid, payer-positive, id-refunded}
use slidelens.Services.Reviews as Reviews
use slidelens.Services.Reviews.{Upload}
use slidelens.Worker.{
  Inputs, PipelineOutput, Site, review_key, mark_done, mark_failed_row, persist_files, attempt,
  process_review,
}
use slidelens.Worker.Outcome.{started, begun, Records, Saved, Settled, process_review-Settled}

-- The specification: a review that was paid from `source`, and its user's row beside it. It waits, is
-- processed, and is done, or has failed and is given back.
pub data Lives (u : User) (source : CreditSource) : ReviewStatus → User → Type 0 where
  accepted : Lives u source queued (paid source u)
  taken : {v : User} → Lives u source queued v → Lives u source processing v
  finished : {v : User} → Lives u source processing v → Lives u source done v
  given_back :
      {v : User} → Lives u source processing v → Lives u source failed (refunded (some source) v)

-- The database shows a review and its user's row in the state of some life.
abbrev pub Shows : {W : Type 0} → User → CreditSource → ℕ → ℕ → World W → Type 0
Shows {W} u source review_id user_id t =
    (r : Review W) × (v : User) × (row_at review_key review_id t.committed.reviews ≡ some r)
    × (row_at user_id_of user_id t.committed.users ≡ some v)
    × Lives u source r.status v

module _ {W : Type 0} (root : List FileName) (fails : Site → Bool) (now expires_at : ℕ)
    (pipeline : Inputs → Result Error (PipelineOutput W)) (u : User) (source : CreditSource)
    (id : ℕ) (review : Review W) (v : User) (s : World W)
    (found : row_at review_key id s.db.reviews ≡ some review)
    (owner : row_at user_id_of review.user_id s.db.users ≡ some v)
    (paid_from : review.credit_source ≡ some source) (life : Lives u source queued v) where
  abbrev start : World W
  start = begun root fails now expires_at pipeline id review v s found owner

  abbrev outcome : Result Error (PipelineOutput W)
  outcome = (attempt root fails now expires_at pipeline review start).0

  Saved-Shows :
      (output : PipelineOutput W) (shots : Result Error (List (ℕ × ℕ)))
      (q : Result Error (Unit {0}) × World W)
      → Saved root fails now expires_at pipeline id review v s found owner output shots q
      → Shows u source id review.user_id q.1
  Saved-Shows output (ok shots) q (row, users) = (
    mark_done output now (record review { status = processing }),
    v,
    row,
    rw users owner,
    finished (taken life),
  )
  Saved-Shows output (err e) q (raised, (row, users)) =
      (record review { status = processing }, v, row, rw users owner, taken life)

  Settled-Shows :
      (r : Result Error (PipelineOutput W)) (q : Result Error (Unit {0}) × World W)
      → Settled root fails now expires_at pipeline id review v s found owner r q
      → Shows u source id review.user_id q.1
  Settled-Shows (ok output) q settled = Saved-Shows output _ q settled
  Settled-Shows (err e) q (returned, (row, users)) = (
    mark_failed_row e now (record review { status = processing }),
    refunded (some source) v,
    row,
    rw (users, paid_from)
        (row_at-altered user_id_of review.user_id review.user_id (refunded (some source)) s.db.users
          refl owner (id-refunded (some source))),
    given_back (taken life),
  )

  -- The job on a review that waits.
  pub process_review-Shows :
      Shows u source id review.user_id (process_review root fails now expires_at pipeline id s).1
  process_review-Shows =
      Settled-Shows outcome _
        (process_review-Settled root fails now expires_at pipeline id review v s found owner)

module _ {W : Type 0} (root : List FileName) (create_fails : Reviews.Site → Bool)
    (created expires_at : ℕ) (user_id : ℕ) (deck : Upload) (audio_file data_file : Option Upload)
    (job_fails : Site → Bool) (now : ℕ) (pipeline : Inputs → Result Error (PipelineOutput W))
    (u : User) (s : World W) where
  -- A job's session sees what the request committed.
  abbrev pub next_session : World W → World W
  next_session t = record t { db = t.committed }

  -- Nothing was paid, or the review's life goes on in the job that runs it.
  abbrev pub Lived : Result Error (Review W) × World W → Type 0
  Lived (err e, t) = t.committed.users ≡ s.committed.users
  Lived (ok review, t) =
      (source : CreditSource) × (payer u ≡ some source)
      × Shows u source review.id user_id
          (process_review root job_fails now expires_at pipeline review.id (next_session t)).1
