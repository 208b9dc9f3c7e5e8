-- ===== src/Auth/Accounts.antt =====
-- Accounts (backend/app/auth.py). `lowered` is `str.lower` of an address, `hash` and `verify` are
-- pwdlib's, and `admin_emails` is the set of the settings.
use slidelens.Prelude.{
  ℕ, ◌+◌, String, Bool, true, false, not, ◌||◌, Option, none, some, List, [], ◌∷◌, ◌++◌, filter,
  str_eq, if◌then◌else◌,
}
use slidelens.Prelude.Exec.{Exec, Result, ok, err, ◌>>=◌}
use slidelens.Prelude.Table.{row_at, alter}
use slidelens.Prelude.Text.{codes, lower, same_codes}
use slidelens.Entities.{User, UserPlan, Event}
use slidelens.Services.{World, Error}
use slidelens.Services.Findings.{at_most_one}
use slidelens.Services.Limits.{user_id_of}
use slidelens.Auth.{access, refresh, Jwt, Settings, TokenError, create_token, decode_token}

-- `AuthError`, by its message: 409 for a taken address, 401 for the others; or another exception.
pub data AuthError : Type 0 where
  email_taken wrong_credentials user_missing : AuthError
  bad_token : TokenError → AuthError
  unexpected : Error → AuthError

pub record AuthTokens (T : Type 0) : Type 0 where
  pub access_token : T
  pub refresh_token : T
  pub user : User

abbrev pub has_email : String → User → Bool
has_email email user = str_eq user.email email

abbrev pub in_set : String → List String → Bool
in_set email [] = false
in_set email (e ∷ emails) = str_eq email e || in_set email emails

unfoldable pub new_user : (String → String) → List String → ℕ → String → String → User
new_user hash admin_emails id email password = record {
  id = id;
  email = email;
  password_hash = hash password;
  plan = UserPlan.free;
  free_reviews_left = 2;
  balance_reviews = 0;
  email_verified = true;
  is_admin = in_set email admin_emails;
}

-- `scalar_one_or_none`
abbrev pub only_user : List User → Result Error (Option User)
only_user users = at_most_one users

module _ {T : Type 0} (jwt : Jwt T) (settings : Settings) (lowered : String → String)
    (hash : String → String) (verify : String → String → Bool) (admin_emails : List String)
    (now : ℕ) where
  -- `tokens_for_user`
  unfoldable pub tokens_for_user : User → AuthTokens T
  tokens_for_user user = record {
    access_token = create_token jwt settings now user.id access none;
    refresh_token = create_token jwt settings now user.id refresh none;
    user = user;
  }

  module _ {W : Type 0} where
    abbrev pub give_tokens : User → Exec (World W) AuthError (AuthTokens T)
    give_tokens user s = (ok (tokens_for_user user), s)

    unfoldable pub add_user : User → Exec (World W) AuthError User
    add_user user s =
        let signup : Event W = record {
          id = s.next_id + 1;
          user_id = some user.id;
          name = "signup";
          properties = [];
        } in
        let db = record s.db {
          users = s.db.users ++ user ∷ [];
          events = s.db.events ++ signup ∷ [];
        } in
        (ok user, record s { db = db; committed = db; next_id = s.next_id + 2 })

    unfoldable pub register_unless :
        String → String → Result Error (Option User) → Exec (World W) AuthError (AuthTokens T)
    unfolding add_user tokens_for_user
    register_unless email password (err e) s = (err (unexpected e), s)
    register_unless email password (ok (some user)) s = (err email_taken, s)
    register_unless email password (ok none) s =
        (add_user (new_user hash admin_emails s.next_id email password) >>= give_tokens) s

    -- `register_user`
    unfoldable pub register_user : String → String → Exec (World W) AuthError (AuthTokens T)
    unfolding register_unless
    register_user email password s =
        register_unless (lowered email) password
          (only_user (filter (has_email (lowered email)) s.db.users)) s

    -- The flag of an administrator follows the settings.
    unfoldable pub healed : User → Exec (World W) AuthError User
    healed user s =
        let should_be_admin = in_set user.email admin_emails in
        let user' = record user { is_admin = should_be_admin } in
        let db = record s.db {
          users =
              alter user_id_of user.id (λ u. record u { is_admin = should_be_admin }) s.db.users;
        } in
        if same_flag user.is_admin should_be_admin
        then (ok user, s)
        else (ok user', record s { db = db; committed = db })
      where
        same_flag : Bool → Bool → Bool
        same_flag true b = b
        same_flag false b = not b

    unfoldable pub authenticate_found :
        String → Result Error (Option User) → Exec (World W) AuthError (AuthTokens T)
    unfolding healed tokens_for_user
    authenticate_found password (err e) s = (err (unexpected e), s)
    authenticate_found password (ok none) s = (err wrong_credentials, s)
    authenticate_found password (ok (some user)) s =
        if verify password user.password_hash
        then (healed user >>= give_tokens) s
        else (err wrong_credentials, s)

    -- `authenticate_user`
    unfoldable pub authenticate_user : String → String → Exec (World W) AuthError (AuthTokens T)
    unfolding authenticate_found
    authenticate_user email password s =
        authenticate_found password (only_user (filter (has_email (lowered email)) s.db.users)) s

    abbrev pub tokens_if_there : Option User → Exec (World W) AuthError (AuthTokens T)
    tokens_if_there none s = (err user_missing, s)
    tokens_if_there (some user) s = (ok (tokens_for_user user), s)

    unfoldable pub refreshed : Result TokenError ℕ → Exec (World W) AuthError (AuthTokens T)
    unfolding tokens_for_user
    refreshed (err e) s = (err (bad_token e), s)
    refreshed (ok user_id) s = tokens_if_there (row_at user_id_of user_id s.db.users) s

    -- `refresh_tokens`
    unfoldable pub refresh_tokens : T → Exec (World W) AuthError (AuthTokens T)
    unfolding refreshed
    refresh_tokens token s = refreshed (decode_token jwt settings now token refresh) s

    -- `get_current_user_optional`, and `get_current_user`, which raises 401 where it finds none.
    unfoldable pub bearer_user : Result TokenError ℕ → Exec (World W) AuthError (Option User)
    bearer_user (err e) s = (ok none, s)
    bearer_user (ok user_id) s = (ok (row_at user_id_of user_id s.db.users), s)

    unfoldable pub get_current_user_optional :
        Option (List ℕ × T) → Exec (World W) AuthError (Option User)
    unfolding bearer_user
    get_current_user_optional none s = (ok none, s)
    get_current_user_optional (some (scheme, token)) s =
        if same_codes (map_lower scheme) (codes "bearer")
        then bearer_user (decode_token jwt settings now token access) s
        else (ok none, s)
      where
        map_lower : List ℕ → List ℕ
        map_lower [] = []
        map_lower (c ∷ s) = lower c ∷ map_lower s
