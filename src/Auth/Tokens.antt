-- ===== src/Auth/Tokens.antt =====
-- A token serves for what it was made for, until it expires (backend/app/security.py).
use slidelens.Prelude.{
  ℕ, ◌+◌, ◌≡◌, ◌≤◌, refl, Bool, true, false, Option, some, ltb, if◌then◌else◌, Bool-cases, inl, inr,
}
use slidelens.Prelude.Exec.{ok, err}
use slidelens.Auth.{
  TokenType, access, refresh, file, token_text, Jwt, IsJwt, Settings, invalid_or_expired,
  invalid_type, lifetime, delta_or, has_type, claims_for, create_token, read_claims, decode_token,
}

abbrev pub same_type : TokenType → TokenType → Bool
same_type access access = true
same_type refresh refresh = true
same_type file file = true
same_type _ _ = false

has_type-token_text :
    (expected t : TokenType) → has_type expected (some (token_text t)) ≡ same_type t expected
has_type-token_text access access = refl
has_type-token_text access refresh = refl
has_type-token_text access file = refl
has_type-token_text refresh access = refl
has_type-token_text refresh refresh = refl
has_type-token_text refresh file = refl
has_type-token_text file access = refl
has_type-token_text file refresh = refl
has_type-token_text file file = refl

module _ {T : Type 0} (jwt : Jwt T) (laws : IsJwt T jwt) (settings : Settings) where
  -- A token that was made before `later` is read as its subject exactly if it has not expired and is
  -- asked for as the type that it was made as: an access, a refresh and a file token never stand in
  -- for one another, and an expired token is read as nothing.
  pub decode_token-create_token :
      (now later user_id : ℕ) (t expected : TokenType) (delta : Option ℕ)
      → now ≤ later
      → decode_token jwt settings later (create_token jwt settings now user_id t delta) expected ≡ (
          if ltb later (now + delta_or (lifetime settings t) delta)
          then (if same_type t expected then ok user_id else err invalid_type)
          else err invalid_or_expired)
  unfolding decode_token create_token read_claims
  decode_token-create_token now later user_id t expected delta h =
      let c = claims_for settings now user_id t delta in
      elim (Bool-cases (ltb later (now + delta_or (lifetime settings t) delta))) [
        | inl e ↦
            rw
              (
                e,
                laws.decode-encode settings.secret_key later c h e,
                has_type-token_text expected t,
              )
              refl
        | inr e ↦ rw (e, laws.decode-expired settings.secret_key later c e) refl
      ]
