-- ===== src/Auth/Emails.antt =====
-- An address belongs to one account (backend/app/auth.py).
use slidelens.Prelude.{
  ℕ, ◌≡◌, ◌≤◌, refl, sym, ◌∙◌, String, Bool, true, Option, none, some, List, [], ◌∷◌, ◌++◌, filter,
  count, count-append, length, length-filter, str_eq, Bool-cases, inl, inr, arith, eq_iff,
}
use mathlib.Core.Path.{subst}
use slidelens.Prelude.Exec.{Result, ok, err}
use slidelens.Entities.{User, UserPlan}
use slidelens.Services.{World, Error}
use slidelens.Services.Findings.{at_most_one}
use slidelens.Auth.{Jwt, Settings}
use slidelens.Auth.Accounts.{
  AuthError, email_taken, AuthTokens, has_email, in_set, new_user, register_user, register_unless,
  add_user, tokens_for_user,
}

-- No two accounts have the same address.
abbrev pub UniqueEmails : List User → Type 0
UniqueEmails users = (email : String) → count (has_email email) users ≤ 1

none-length : (users : List User) → at_most_one users ≡ ok none → length users ≡ 0
none-length [] h = refl
none-length (u ∷ []) h = cc
none-length (u ∷ v ∷ users) h = cc

some-length :
    (users : List User) {user : User} → at_most_one users ≡ ok (some user) → length users ≡ 1
some-length [] h = cc
some-length (u ∷ []) h = refl
some-length (u ∷ v ∷ users) h = cc

err-length : (users : List User) {e : Error} → at_most_one users ≡ err e → 2 ≤ length users
err-length [] h = cc
err-length (u ∷ []) h = cc
err-length (u ∷ v ∷ users) h = omega arith

module _ {W T : Type 0} (jwt : Jwt T) (settings : Settings) (lowered : String → String)
    (hash : String → String) (verify : String → String → Bool) (admin_emails : List String)
    (now : ℕ) (s : World W) (email password : String) where
  abbrev pub registered : User
  registered = record {
    id = s.next_id;
    email = lowered email;
    password_hash = hash password;
    plan = UserPlan.free;
    free_reviews_left = 2;
    balance_reviews = 0;
    email_verified = true;
    is_admin = in_set (lowered email) admin_emails;
  }

  -- One more account, which is committed, or nothing changed.
  abbrev pub Registered : Result AuthError (AuthTokens T) × World W → Type 0
  Registered (err e, t) =
      (t ≡ s) × (e ≡ email_taken) × (count (has_email (lowered email)) s.db.users ≡ 1)
  Registered (ok tokens, t) =
      (tokens.user ≡ registered)
      × (t.committed ≡ t.db)
      × (count (has_email (lowered email)) s.db.users ≡ 0)
      × (t.db.users ≡ s.db.users ++ registered ∷ [])
      × UniqueEmails t.db.users

  counted :
      length (filter (has_email (lowered email)) s.db.users)
      ≡ count (has_email (lowered email)) s.db.users
  counted = length-filter (has_email (lowered email)) s.db.users

  one_more-UniqueEmails :
      UniqueEmails s.db.users
      → at_most_one (filter (has_email (lowered email)) s.db.users) ≡ ok none
      → UniqueEmails (s.db.users ++ registered ∷ [])
  unfolding new_user
  one_more-UniqueEmails unique free e =
      let nobody = none-length (filter (has_email (lowered email)) s.db.users) free in
      let more = count-append (has_email e) s.db.users (registered ∷ []) in
      elim (Bool-cases (str_eq (lowered email) e)) [
        | inl same ↦
            let zero : count (has_email e) s.db.users ≡ 0 =
              subst (λ x. count (has_email x) s.db.users ≡ 0) ((eq_iff (lowered email) e).0 same)
                (sym (length-filter (has_email (lowered email)) s.db.users) ∙ nobody) in
            rw (more, same, zero) (omega arith)
        | inr different ↦ rw (more, different) (omega (arith, unique e))
      ]

  register_unless-Registered :
      (r : Result Error (Option User))
      → at_most_one (filter (has_email (lowered email)) s.db.users) ≡ r
      → UniqueEmails s.db.users
      → Registered (
          register_unless jwt settings lowered hash verify admin_emails now
            (lowered email)
            password
            r
            s)
  unfolding register_unless add_user tokens_for_user new_user
  register_unless-Registered (err e) h unique =
      let many = err-length (filter (has_email (lowered email)) s.db.users) h in
      absurd (omega (arith, many, unique (lowered email), counted))
  register_unless-Registered (ok (some user)) h unique =
      (refl, refl, sym counted ∙ some-length (filter (has_email (lowered email)) s.db.users) h)
  register_unless-Registered (ok none) h unique = (
    refl,
    refl,
    sym counted ∙ none-length (filter (has_email (lowered email)) s.db.users) h,
    refl,
    one_more-UniqueEmails unique h,
  )

  -- Where no two accounts have the same address, registering keeps it so. If the call returns, no
  -- account had the lowered address, and one account was added and committed, under the lowered
  -- address, with two free reviews and none paid, an administrator exactly if the settings name the
  -- lowered address. If it raises, it is the error for a taken address, one account had the lowered
  -- address, and nothing changed.
  pub register_user-Registered :
      UniqueEmails s.db.users
      → Registered
          (register_user jwt settings lowered hash verify admin_emails now email password s)
  unfolding register_user
  register_user-Registered unique =
      register_unless-Registered (at_most_one (filter (has_email (lowered email)) s.db.users)) refl
        unique
