-- ===== src/Worker/Outcome.antt =====
-- How a run of `process_review` ends.
use slidelens.Prelude.{ℕ, ◌≡◌, refl, ◌∙◌, sym, ap, Bool, Option, none, some, List}
use mathlib.Core.Path.{subst}
use slidelens.Prelude.Exec.{Result, ok, err, continue}
use slidelens.Prelude.Table.{row_at, alter, row_at-altered, key-row_at}
use slidelens.Entities.{User, Review, FileName, processing}
use slidelens.Services.{World, Error}
use slidelens.Services.Frame.{Keeps, Keeps-bind}
use slidelens.Services.Limits.{user_id_of, refunded}
use slidelens.Services.Limits.Laws.{refund_found}
use slidelens.Worker.{
  Inputs, PipelineOutput, Site, review_key, download_inputs, mark_done, mark_failed_row,
  persist_files, persist_rows, send_report_ready, mail_owner, rows_and_mail, persist_success,
  mark_failed, run_pipeline, attempt, settle, run_found, run_review, process_review,
}
use slidelens.Worker.Steps.{download_inputs-Keeps, persist_files-Keeps}

module _ {W : Type 0} (root : List FileName) (fails : Site → Bool) (now expires_at : ℕ)
    (pipeline : Inputs → Result Error (PipelineOutput W)) where
  attempt-Keeps :
      (review : Review W)
      → Keeps (λ (s : World W). s) (attempt root fails now expires_at pipeline review)
  unfolding attempt run_pipeline
  attempt-Keeps review =
      Keeps-bind (λ s. s) (download_inputs root review)
        (run_pipeline root fails now expires_at pipeline) (download_inputs-Keeps root review)
        (λ _ s. refl)

  module _ (id : ℕ) (review : Review W) (u : User) (s : World W)
      (found : row_at review_key id s.db.reviews ≡ some review)
      (owner : row_at user_id_of review.user_id s.db.users ≡ some u) where
    abbrev pub started : Review W → Review W
    started r = record r { status = processing }

    -- The state in which the attempt starts: the review is being processed, and that is committed.
    abbrev pub begun : World W
    begun =
        let db = record s.db { reviews = alter review_key review.id started s.db.reviews } in
        record s { db = db; committed = db }

    -- What the database says of the review and of the users.
    abbrev pub Records : (Review W → Review W) → List User → World W → Type 0
    Records change users t =
        (row_at review_key id t.committed.reviews ≡ some (change (started review)))
        × (t.committed.users ≡ users)

    -- By how saving the files ended.
    abbrev pub Saved :
        PipelineOutput W → Result Error (List (ℕ × ℕ)) → Result Error (Unit {0}) × World W → Type 0
    Saved output (err e) q = (q.0 ≡ err e) × Records (λ r. r) s.db.users q.1
    Saved output (ok shots) q = Records (mark_done output now) s.db.users q.1

    -- By how the attempt ended.
    abbrev pub Settled :
        Result Error (PipelineOutput W) → Result Error (Unit {0}) × World W → Type 0
    Settled (err e) q =
        (q.0 ≡ ok tt)
        × Records (mark_failed_row e now)
            (alter user_id_of review.user_id (refunded review.credit_source) s.db.users) q.1
    Settled (ok output) q =
        Saved output (persist_files root fails now expires_at review output begun).0 q

    same_id : review.id ≡ id
    same_id = key-row_at review_key id s.db.reviews found

    row_begun : row_at review_key id begun.db.reviews ≡ some (started review)
    row_begun =
        row_at-altered review_key review.id id started s.db.reviews same_id found (λ r. refl)

    settle_failed :
        (e : Error) → Settled (err e) (mark_failed root fails now expires_at review e begun)
    unfolding mark_failed
    settle_failed e =
        let reviews = alter review_key review.id (mark_failed_row e now) begun.db.reviews in
        rw
          (refund_found review.user_id u
            (record begun { db = record begun.db { reviews = reviews } }) owner
            review.credit_source)
          (
            refl,
            (
              row_at-altered review_key review.id id (mark_failed_row e now) begun.db.reviews
                  same_id row_begun (λ r. refl),
              refl,
            ),
          )

    send_report_ready-Keeps :
        (o : Option User)
        → Keeps
            (λ (s : World W). s.committed)
            (send_report_ready root fails now expires_at review o)
    unfolding send_report_ready
    send_report_ready-Keeps none s = refl
    send_report_ready-Keeps (some user) s = refl

    -- After the files: `p` is how saving them ended.
    rows_and_mail-Saved :
        (output : PipelineOutput W) (p : Result Error (List (ℕ × ℕ)) × World W)
        → p.1.committed ≡ begun.committed
        → p.1.db.users ≡ begun.db.users
        → p.1.db.reviews ≡ begun.db.reviews
        → Saved output p.0
            (continue p.0 (rows_and_mail root fails now expires_at review output) p.1)
    unfolding rows_and_mail persist_rows mail_owner
    rows_and_mail-Saved output (err e, t) committed users reviews =
        (refl, (rw committed row_begun, ap (λ db. db.users) committed))
    rows_and_mail-Saved output (ok shots, t) committed users reviews =
        let mailed = send_report_ready-Keeps (row_at user_id_of review.user_id t.db.users) _ in
        (
          ap (λ db. row_at review_key id db.reviews) mailed
              ∙ row_at-altered review_key review.id id (mark_done output now) t.db.reviews
                  {r = started review} same_id (ap (row_at review_key id) reviews ∙ row_begun)
                  (λ r. refl),
          ap (λ db. db.users) mailed ∙ users,
        )

    settle_done :
        (output : PipelineOutput W)
        → Settled (ok output) (persist_success root fails now expires_at review output begun)
    unfolding persist_success
    settle_done output =
        rows_and_mail-Saved output (persist_files root fails now expires_at review output begun)
          (persist_files-Keeps root fails now expires_at (λ s. s.committed)
            (record {
              ignores_files = λ _ _. refl;
              ignores_assets = λ _ _. refl;
              ignores_events = λ _ _. refl;
              ignores_ids = λ _ _. refl;
            })
            review output begun)
          (persist_files-Keeps root fails now expires_at (λ s. s.db.users)
            (record {
              ignores_files = λ _ _. refl;
              ignores_assets = λ _ _. refl;
              ignores_events = λ _ _. refl;
              ignores_ids = λ _ _. refl;
            })
            review output begun)
          (persist_files-Keeps root fails now expires_at (λ s. s.db.reviews)
            (record {
              ignores_files = λ _ _. refl;
              ignores_assets = λ _ _. refl;
              ignores_events = λ _ _. refl;
              ignores_ids = λ _ _. refl;
            })
            review output begun)

    settles :
        (result : Result Error (PipelineOutput W))
        → Settled result (settle root fails now expires_at pipeline review result begun)
    unfolding settle
    settles (ok output) = settle_done output
    settles (err e) = settle_failed e

    runs :
        process_review root fails now expires_at pipeline id s
        ≡ settle root fails now expires_at pipeline review
            (attempt root fails now expires_at pipeline review begun).0
            begun
    unfolding process_review run_found run_review
    runs =
        ap (λ o. run_found root fails now expires_at pipeline o s) found
        ∙ ap
            (settle root fails now expires_at pipeline review
              (attempt root fails now expires_at pipeline review begun).0)
            (attempt-Keeps review begun)

    -- For a review that is in the database, like its owner: if downloading its files or the pipeline
    -- raises, the job returns, the review has failed, with the error's reason, and one review is back in
    -- the wallet that it was paid from. If they succeed and the results are saved, the review is done,
    -- with its score, and the users' table is as before, whether or not the mail can be sent. But if
    -- saving the results raises, so does the job, and the database keeps a review that is being
    -- processed, paid for and not given back.
    pub process_review-Settled :
        Settled
          (attempt root fails now expires_at pipeline review begun).0
          (process_review root fails now expires_at pipeline id s)
    process_review-Settled =
        subst (Settled (attempt root fails now expires_at pipeline review begun).0) (sym runs)
          (settles (attempt root fails now expires_at pipeline review begun).0)
