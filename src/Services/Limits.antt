-- ===== src/Services/Limits.antt =====
-- Reserving and refunding reviews from the two wallets (backend/app/services/limits.py).
pub mod Laws
use slidelens.Prelude.{
  ℕ, ◌+◌, ◌-◌, ◌≡◌, Bool, true, false, ◌&&◌, Option, none, some, List, [], ◌∷◌, ltb, ◌==◌,
  if◌then◌else◌,
}
use slidelens.Prelude.Exec.{Exec, Result, ok, err, pure, raise, gets, ◌>>=◌, ◌>>◌}
use slidelens.Prelude.Table.{row_at, alter}
use slidelens.Entities.{User, CreditSource, free, balance, admin, Db}
use slidelens.Services.{World, Action, limit_exceeded, no_result_found, with_db}

abbrev pub wallet : CreditSource → User → ℕ
wallet free u = u.free_reviews_left
wallet balance u = u.balance_reviews
wallet admin u = 0

abbrev pub set_wallet : CreditSource → ℕ → User → User
set_wallet free n u = record u { free_reviews_left = n }
set_wallet balance n u = record u { balance_reviews = n }
set_wallet admin n u = u

-- One more in the wallet that the review was paid from; `admin` and no wallet took nothing.
abbrev pub refunded : Option CreditSource → User → User
refunded none u = u
refunded (some source) u = set_wallet source (wallet source u + 1) u

abbrev pub user_id_of : User → ℕ
user_id_of u = u.id

module _ {W : Type 0} where
  -- `session.execute(select(User).where(User.id == user_id)).scalar_one()`
  select_user : ℕ → Action W User
  select_user user_id s = (
    elim (row_at user_id_of user_id s.db.users) [ none ↦ err no_result_found | some u ↦ ok u ],
    s,
  )

  -- The conditional decrement, one query: the row returned, if the wallet was not empty.
  spend_row : CreditSource → ℕ → Option User → Action W (Option User)
  spend_row source user_id none s = (ok none, s)
  spend_row source user_id (some u) s =
      if ltb 0 (wallet source u)
      then (let paid : User = set_wallet source (wallet source u - 1) u in
          (
            ok (some paid),
            record s {
              db = record s.db { users = alter user_id_of user_id (λ _. paid) s.db.users };
            },
          ))
      else (ok none, s)

  spend_from : CreditSource → ℕ → Action W (Option User)
  unfolding spend_row
  spend_from source user_id s = spend_row source user_id (row_at user_id_of user_id s.db.users) s

  -- The loop over the wallets.
  spend_first : List CreditSource → ℕ → Action W (User × CreditSource)
  spend_first [] user_id = raise limit_exceeded
  spend_first (source ∷ sources) user_id =
      let rest = spend_first sources user_id in
      do
        reserved ← spend_from source user_id
        elim reserved [ some u ↦ pure (u, source) | none ↦ rest ]

  pub check_and_reserve : ℕ → Action W (User × CreditSource)
  unfolding spend_first
  check_and_reserve user_id = do
    user ← select_user user_id
    if user.is_admin then pure (user, admin) else spend_first (free ∷ balance ∷ []) user_id

  pub refund : ℕ → Option CreditSource → Action W User
  refund user_id source = do
    user ← select_user user_id
    with_db (λ db. record db { users = alter user_id_of user_id (refunded source) db.users })
    pure (refunded source user)
