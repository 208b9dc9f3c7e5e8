-- ===== src/Services/Limits/Laws.antt =====
-- Which wallet pays, and that a refund undoes a reservation.
use slidelens.Prelude.{
  ℕ, ◌-◌, ◌≡◌, ◌<◌, refl, ◌∙◌, Option, none, some, List, inl, inr, Bool-cases, arith, ltb,
  if◌then◌else◌,
}
use slidelens.Prelude.Exec.{ok, err}
use slidelens.Prelude.Table.{row_at, alter, row_at-alter, alter-alter, alter_same, key-row_at}
use slidelens.Entities.{User, CreditSource, free, balance, admin}
use slidelens.Services.{World, limit_exceeded}
use slidelens.Services.Limits.{
  wallet, set_wallet, refunded, user_id_of, select_user, spend_from, check_and_reserve, refund,
}

-- The wallet that a review should be paid from: none for an administrator, then the free reviews,
-- and the bought ones only when no free one is left.
abbrev pub payer : User → Option CreditSource
payer u =
    if u.is_admin
    then some admin
    else if ltb 0 u.free_reviews_left
    then some free
    else if ltb 0 u.balance_reviews
    then some balance
    else none

-- The row after a review was paid from a wallet.
abbrev pub paid : CreditSource → User → User
paid source u = set_wallet source (wallet source u - 1) u

pub refunded-paid :
    (source : CreditSource) (u : User)
    → 0 < wallet source u
    → refunded (some source) (paid source u) ≡ u
refunded-paid free u h = ground arith
refunded-paid balance u h = ground arith
refunded-paid admin u h = absurd (omega arith)

pub id-paid : (source : CreditSource) (u : User) → (paid source u).id ≡ u.id
id-paid free u = refl
id-paid balance u = refl
id-paid admin u = refl

pub id-refunded : (source : Option CreditSource) (u : User) → (refunded source u).id ≡ u.id
id-refunded none u = refl
id-refunded (some free) u = refl
id-refunded (some balance) u = refl
id-refunded (some admin) u = refl

pub alter-refunded-paid :
    (source : CreditSource) (uid : ℕ) (u : User) (users : List User)
    → row_at user_id_of uid users ≡ some u
    → 0 < wallet source u
    → alter user_id_of uid
        (refunded (some source))
        (alter user_id_of uid (λ _. paid source u) users)
      ≡ users
alter-refunded-paid source uid u users found h =
    alter-alter user_id_of uid (refunded (some source)) (λ _. paid source u) users
      (λ r _. id-paid source u ∙ key-row_at user_id_of uid users found)
    ∙ alter_same user_id_of uid (λ _. refunded (some source) (paid source u)) users found
        (refunded-paid source u h)

-- A wallet that should pay has a review to take.
pub payer-positive :
    (u : User)
    → ((payer u ≡ some free) → 0 < wallet free u)
      × ((payer u ≡ some balance) → 0 < wallet balance u)
payer-positive u = (ground arith, ground arith)

module _ {W : Type 0} where
  -- The state with one row of the users' table put in place.
  abbrev pub with_user : ℕ → User → World W → World W
  with_user uid u s = record s {
    db = record s.db { users = alter user_id_of uid (λ _. u) s.db.users };
  }

  select_user_found :
      (uid : ℕ) (u : User) (s : World W)
      → row_at user_id_of uid s.db.users ≡ some u
      → select_user uid s ≡ (ok u, s)
  unfolding select_user
  select_user_found uid u s found = rw found

  spend_from_found :
      (source : CreditSource) (uid : ℕ) (u : User) (s : World W)
      → row_at user_id_of uid s.db.users ≡ some u
      → spend_from source uid s ≡ (
          if ltb 0 (wallet source u)
          then (ok (some (paid source u)), with_user uid (paid source u) s)
          else (ok none, s))
  unfolding spend_from
  spend_from_found source uid u s found = rw found

  -- What a reservation should do to a user that exists.
  abbrev pub ReservesFrom : ℕ → User → World W → Option CreditSource → Type 0
  ReservesFrom uid u s none = check_and_reserve uid s ≡ (err limit_exceeded, s)
  ReservesFrom uid u s (some admin) = check_and_reserve uid s ≡ (ok (u, admin), s)
  ReservesFrom uid u s (some source) =
      check_and_reserve uid s ≡ (ok (paid source u, source), with_user uid (paid source u) s)

  module _ (uid : ℕ) (u : User) (s : World W)
      (found : row_at user_id_of uid s.db.users ≡ some u) where
    -- The code pays from the wallet that should pay, takes one review from it and touches nothing
    -- else; with both wallets empty it raises and changes nothing.
    pub check_and_reserve_lem : ReservesFrom uid u s (payer u)
    unfolding check_and_reserve
    check_and_reserve_lem = elim (Bool-cases u.is_admin) [
      | inl e ↦ simp (e, select_user_found uid u s found)
      | inr e ↦ elim (Bool-cases (ltb 0 u.free_reviews_left)) [
        | inl e' ↦
            simp (e, e', select_user_found uid u s found, spend_from_found free uid u s found)
        | inr e' ↦ elim (Bool-cases (ltb 0 u.balance_reviews)) [
          | inl e'' ↦ simp (
            e,
            e',
            e'',
            select_user_found uid u s found,
            spend_from_found free uid u s found,
            spend_from_found balance uid u s found,
          )
          | inr e'' ↦ simp (
            e,
            e',
            e'',
            select_user_found uid u s found,
            spend_from_found free uid u s found,
            spend_from_found balance uid u s found,
          )
        ]
      ]
    ]

    pub refund_found :
        (source : Option CreditSource)
        → refund uid source s ≡ (
          ok (refunded source u),
          record s {
            db = record s.db { users = alter user_id_of uid (refunded source) s.db.users };
          },
        )
    unfolding refund
    refund_found source = simp (select_user_found uid u s found)

  -- The row that a reservation left behind.
  pub row_at-with_user :
      (uid : ℕ) (u v : User) (s : World W)
      → row_at user_id_of uid s.db.users ≡ some u
      → v.id ≡ u.id
      → row_at user_id_of uid (with_user uid v s).db.users ≡ some v
  row_at-with_user uid u v s found e =
      let id_of_v : v.id ≡ uid = e ∙ key-row_at user_id_of uid s.db.users found in
      rw (row_at-alter user_id_of uid uid (λ _. v) s.db.users (λ r _. id_of_v), found)
        (ground arith)

  -- Giving a review back to the wallet that it was taken from restores the state exactly, if the user
  -- is in the database and the wallet was not empty.
  pub refund-paid :
      (source : CreditSource) (uid : ℕ) (u : User) (s : World W)
      → row_at user_id_of uid s.db.users ≡ some u
      → 0 < wallet source u
      → refund uid (some source) (with_user uid (paid source u) s) ≡ (ok u, s)
  refund-paid source uid u s found h =
      let found' = row_at-with_user uid u (paid source u) s found (id-paid source u) in
      rw (refund_found uid (paid source u) (with_user uid (paid source u) s) found' (some source))
        (rw (refunded-paid source u h, alter-refunded-paid source uid u s.db.users found h))
