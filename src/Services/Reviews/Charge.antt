-- ===== src/Services/Reviews/Charge.antt =====
-- What `create_review` costs.
use slidelens.Prelude.{
  ℕ, ◌+◌, ◌≡◌, ◌<◌, refl, ◌∙◌, sym, ap, Bool, false, Option, none, some, List, [], ◌∷◌, ◌++◌,
  Bool-cases, inl, inr,
}
use slidelens.Prelude.Exec.{Result, ok, err, continue, handle}
use slidelens.Prelude.Table.{row_at, alter, alter_same}
use slidelens.Entities.{User, Review, CreditSource, admin, free, balance, queued, FileName}
use slidelens.Services.{World, Error}
use slidelens.Services.Limits.{user_id_of, check_and_reserve, wallet, refunded}
use slidelens.Services.Limits.Laws.{
  payer, paid, with_user, ReservesFrom, check_and_reserve_lem, refund_found, id-paid,
  row_at-with_user, alter-refunded-paid, payer-positive,
}
use slidelens.Services.Reviews.{
  Upload, Site, reservation_commit, refund_commit, review_flush, validate, save_uploads,
  committed_review, new_review, persist, undo, persist_or_undo, reserve_and_persist, create_review,
}
use slidelens.Services.Reviews.Create.{validate-Keeps, save_uploads-Keeps}

module _ {W : Type 0} (root : List FileName) (fails : Site → Bool) (now expires_at : ℕ) where
  -- The accepted review is in the database, the user's and paid from `source`, and the users are
  -- `users`.
  abbrev pub Accepted : ℕ → List User → CreditSource → World W → Review W → World W → Type 0
  Accepted user_id users source s review t =
      (review.id ≡ s.next_id)
      × (review.user_id ≡ user_id)
      × (review.credit_source ≡ some source)
      × (review.status ≡ queued)
      × (t.committed.users ≡ users)
      × (t.committed.reviews ≡ s.committed.reviews ++ review ∷ [])

  abbrev PersistOutcome : ℕ → CreditSource → World W → Result Error (Review W) × World W → Type 0
  PersistOutcome user_id source s (ok review, t) =
      Accepted user_id s.committed.users source s review t
  PersistOutcome user_id source s (err e, t) = t.committed ≡ s.committed

  ends_persist :
      (user_id : ℕ) (source : CreditSource) (review : Review W) (s : World W)
      (p : Result Error (Unit {0}) × World W)
      → review.id ≡ s.next_id
      → review.user_id ≡ user_id
      → review.credit_source ≡ some source
      → review.status ≡ queued
      → p.1.committed ≡ s.committed
      → p.1.db.users ≡ s.committed.users
      → p.1.db.reviews ≡ s.committed.reviews ++ review ∷ []
      → PersistOutcome user_id source s
          (continue p.0 (λ _. committed_review root fails now expires_at review) p.1)
  unfolding committed_review
  ends_persist user_id source review s (ok _, t) new owned paid_from status committed users
        reviews =
      (new, owned, paid_from, status, users, reviews)
  ends_persist user_id source review s (err e, t) new owned paid_from status committed users
        reviews =
      committed

  module _ (user_id : ℕ) (deck : Upload) (audio_file data_file : Option Upload) where
    persist_lem :
        (source : CreditSource) (s : World W)
        → s.committed ≡ s.db
        → PersistOutcome user_id source s
            (persist root fails now expires_at user_id deck audio_file data_file source s)
    unfolding persist new_review
    persist_lem source s fresh =
        let review =
          new_review root fails now expires_at s.next_id user_id deck audio_file data_file source in
        let s' : World W = record s {
          next_id = s.next_id + 1;
          db = record s.db { reviews = s.db.reviews ++ review ∷ [] };
        } in
        let uploads =
          save_uploads root fails now expires_at user_id s.next_id deck audio_file data_file in
        elim (Bool-cases (fails review_flush)) [
          | inl e ↦ rw e refl
          | inr e ↦ rw e (
              ends_persist user_id source review s (uploads s') refl refl refl refl
                (save_uploads-Keeps root fails now expires_at (λ s. s.committed)
                  (record {
                    ignores_files = λ _ _. refl;
                    ignores_assets = λ _ _. refl;
                    ignores_events = λ _ _. refl;
                    ignores_ids = λ _ _. refl;
                  })
                  (λ _ _. refl) user_id s.next_id deck audio_file data_file s')
                (save_uploads-Keeps root fails now expires_at (λ s. s.db.users)
                    (record {
                      ignores_files = λ _ _. refl;
                      ignores_assets = λ _ _. refl;
                      ignores_events = λ _ _. refl;
                      ignores_ids = λ _ _. refl;
                    })
                    (λ _ _. refl) user_id s.next_id deck audio_file data_file s'
                  ∙ ap (λ db. db.users) (sym fresh))
                (save_uploads-Keeps root fails now expires_at (λ s. s.db.reviews)
                    (record {
                      ignores_files = λ _ _. refl;
                      ignores_assets = λ _ _. refl;
                      ignores_events = λ _ _. refl;
                      ignores_ids = λ _ _. refl;
                    })
                    (λ _ _. refl) user_id s.next_id deck audio_file data_file s'
                  ∙ ap (λ db. db.reviews ++ review ∷ []) (sym fresh)))
        ]

    undo_lem :
        (source : CreditSource) (e : Error) (t : World W) (v : User)
        → row_at user_id_of user_id t.committed.users ≡ some v
        → fails refund_commit ≡ false
        → undo root fails now expires_at user_id source e t ≡ (
          err e,
          let users = alter user_id_of user_id (refunded (some source)) t.committed.users in
              record t {
                db = record t.committed { users = users };
                committed = record t.committed { users = users };
              },
        )
    unfolding undo
    undo_lem source e t v found works =
        rw (refund_found user_id v (record t { db = t.committed }) found (some source), works) refl

    -- The state after the attempt, where `refunded_users` are the users with the review given back.
    abbrev Settled : CreditSource → World W → Result Error (Review W) × World W → Type 0
    Settled source s (ok review, t) = Accepted user_id s.committed.users source s review t
    Settled source s (err e, t) =
        t.committed.users ≡ alter user_id_of user_id (refunded (some source)) s.committed.users

    settles :
        (source : CreditSource) (s : World W) (v : User) (p : Result Error (Review W) × World W)
        → row_at user_id_of user_id s.committed.users ≡ some v
        → fails refund_commit ≡ false
        → PersistOutcome user_id source s p
        → Settled source s (handle p.0 (undo root fails now expires_at user_id source) p.1)
    settles source s v (ok review, t) found works h = h
    settles source s v (err e, t) found works h =
        rw (undo_lem source e t v (rw h found) works) (rw h refl)

    persist_or_undo_lem :
        (source : CreditSource) (s : World W) (v : User)
        → s.committed ≡ s.db
        → row_at user_id_of user_id s.committed.users ≡ some v
        → fails refund_commit ≡ false
        → Settled source s
            (persist_or_undo root fails now expires_at user_id deck audio_file data_file source s)
    unfolding persist_or_undo
    persist_or_undo_lem source s v fresh found works =
        settles source s v
          (persist root fails now expires_at user_id deck audio_file data_file source s) found works
          (persist_lem source s fresh)

    -- The review was paid from the wallet that should pay, or nothing changed.
    abbrev pub Charged : User → World W → Result Error (Review W) × World W → Type 0
    Charged u s (err e, t) = t.committed.users ≡ s.committed.users
    Charged u s (ok review, t) =
        (source : CreditSource) × (payer u ≡ some source)
        × Accepted user_id (alter user_id_of user_id (λ _. paid source u) s.committed.users) source
            s review t

    module _ (u : User) (s : World W) (found : row_at user_id_of user_id s.db.users ≡ some u)
        (fresh : s.committed ≡ s.db) (reserves : fails reservation_commit ≡ false)
        (refunds : fails refund_commit ≡ false) where
      Charged-Settled :
          (source : CreditSource) (s2 : World W) (p : Result Error (Review W) × World W)
          → payer u ≡ some source
          → s2.next_id ≡ s.next_id
          → s2.committed.reviews ≡ s.committed.reviews
          → s2.committed.users ≡ alter user_id_of user_id (λ _. paid source u) s.committed.users
          → alter user_id_of user_id (refunded (some source)) s2.committed.users ≡ s.committed.users
          → Settled source s2 p
          → Charged u s p
      Charged-Settled source s2 (err e, t) pays same_next reviews users restored h = h ∙ restored
      Charged-Settled source s2 (ok review, t) pays same_next reviews users restored
            (new, owned, paid_from, status, users', reviews') =
          (
            source,
            pays,
            (
              new ∙ same_next,
              owned,
              paid_from,
              status,
              users' ∙ users,
              reviews' ∙ ap (λ r. r ++ review ∷ []) reviews,
            ),
          )

      -- A reservation that took a review from a wallet.
      charges_paid :
          (source : CreditSource)
          → payer u ≡ some source
          → 0 < wallet source u
          → check_and_reserve user_id s
            ≡ (ok (paid source u, source), with_user user_id (paid source u) s)
          → Charged u s
              (reserve_and_persist root fails now expires_at user_id deck audio_file data_file s)
      unfolding reserve_and_persist
      charges_paid source pays positive reserved =
          let users = alter user_id_of user_id (λ _. paid source u) s.db.users in
          let s2 : World W = record s {
            db = record s.db { users = users };
            committed = record s.db { users = users };
          } in
          let found2 = row_at-with_user user_id u (paid source u) s found (id-paid source u) in
          rw (reserved, reserves)
            (Charged-Settled source s2 _ pays refl (ap (λ db. db.reviews) (sym fresh))
              (ap (λ db. alter user_id_of user_id (λ _. paid source u) db.users) (sym fresh))
              (alter-refunded-paid source user_id u s.db.users found positive
                ∙ ap (λ db. db.users) (sym fresh))
              (persist_or_undo_lem source s2 (paid source u) refl found2 refunds))

      -- An administrator's review takes none.
      charges_admin :
          payer u ≡ some admin
          → check_and_reserve user_id s ≡ (ok (u, admin), s)
          → Charged u s
              (reserve_and_persist root fails now expires_at user_id deck audio_file data_file s)
      unfolding reserve_and_persist
      charges_admin pays reserved =
          let s2 : World W = record s { committed = s.db } in
          let same_users = ap (λ db. db.users) fresh in
          let kept = alter_same user_id_of user_id (λ u. u) s.db.users found refl in
          rw (reserved, reserves)
            (Charged-Settled admin s2 _ pays refl (ap (λ db. db.reviews) (sym fresh))
              (sym same_users
                ∙ sym (
                    alter_same user_id_of user_id (λ _. u) s.committed.users (rw same_users found)
                      refl))
              (kept ∙ sym same_users) (persist_or_undo_lem admin s2 u refl found refunds))

      charges_from :
          (source : Option CreditSource)
          → payer u ≡ source
          → ReservesFrom user_id u s source
          → Charged u s
              (reserve_and_persist root fails now expires_at user_id deck audio_file data_file s)
      unfolding reserve_and_persist
      charges_from none pays reserved = rw reserved refl
      charges_from (some admin) pays reserved = charges_admin pays reserved
      charges_from (some free) pays reserved =
          charges_paid free pays ((payer-positive u).0 pays) reserved
      charges_from (some balance) pays reserved =
          charges_paid balance pays ((payer-positive u).1 pays) reserved

      -- Either way the validation leaves the state as it is.
      charges_validated :
          (p : Result Error (Unit {0}) × World W)
          → p.1 ≡ s
          → Charged u s (
              continue p.0
                (λ _.
                  reserve_and_persist root fails now expires_at user_id deck audio_file data_file)
                p.1)
      charges_validated (ok _, t) e =
          rw e (charges_from (payer u) refl (check_and_reserve_lem user_id u s found))
      charges_validated (err x, t) e = ap (λ (s : World W). s.committed.users) e

      -- For a user that is in the database, with a session that saw no change yet, and if the commit of
      -- the reservation and the one of the refund work: whatever else fails in `create_review` (the
      -- validation, both wallets empty, the storage, the queue, the last commit), a call that raises
      -- leaves the users' table as it was. A call that returns has taken one review from the wallet that
      -- should pay (none for an administrator), recorded that wallet in the review, and put the
      -- user's review into the database, under a fresh identifier, queued, behind the others.
      pub create_review_lem :
          Charged u s (create_review root fails now expires_at user_id deck audio_file data_file s)
      unfolding create_review
      create_review_lem =
          charges_validated (validate deck audio_file data_file s)
            (validate-Keeps deck audio_file data_file s)
