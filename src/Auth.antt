-- ===== src/Auth.antt =====
-- Tokens (backend/app/security.py). PyJWT is an interface: `encode` signs claims with a key, `decode`
-- checks a token's signature and times and gives its claims, if they hold.
pub mod Tokens
pub mod Accounts
pub mod Emails
pub mod Files
mod Tests
use slidelens.Prelude.{
  ℕ, ◌+◌, ◌*◌, ◌≡◌, ◌≤◌, String, Bool, true, false, not, ◌&&◌, Option, none, some, ltb, leb, str_eq,
  if◌then◌else◌,
}
use slidelens.Prelude.Exec.{Result, ok, err}
use slidelens.Entities.{Bytes}

pub data TokenType : Type 0 where
  access refresh file : TokenType

abbrev pub token_text : TokenType → String
token_text access = "access"
token_text refresh = "refresh"
token_text file = "file"

-- A token's payload. A subject that is missing, empty or no UUID is `none`.
pub record Claims : Type 0 where
  pub sub : Option ℕ
  pub typ : Option String
  pub iat : ℕ
  pub exp : ℕ

pub record Jwt (T : Type 0) : Type 0 where
  pub encode : Bytes → Claims → T
  pub decode : Bytes → ℕ → T → Option Claims

-- What PyJWT documents of a token that it made itself: it is accepted with its key from its issue
-- until it expires, and never after.
pub record IsJwt (T : Type 0) (jwt : Jwt T) : Type 0 where
  pub decode-encode :
      (key : Bytes) (now : ℕ) (c : Claims)
      → c.iat ≤ now
      → ltb now c.exp ≡ true
      → jwt.decode key now (jwt.encode key c) ≡ some c
  pub decode-expired :
      (key : Bytes) (now : ℕ) (c : Claims)
      → ltb now c.exp ≡ false
      → jwt.decode key now (jwt.encode key c) ≡ none

pub record Settings : Type 0 where
  pub secret_key : Bytes
  pub access_token_expire_minutes : ℕ
  pub refresh_token_expire_days : ℕ
  pub file_signature_expire_minutes : ℕ

-- The three `ValueError`s of `decode_token`.
pub data TokenError : Type 0 where
  invalid_or_expired invalid_type missing_subject : TokenError

-- The default of `expires_delta`, in seconds.
abbrev pub lifetime : Settings → TokenType → ℕ
lifetime settings access = settings.access_token_expire_minutes * 60
lifetime settings refresh = settings.refresh_token_expire_days * 86400
lifetime settings file = 2 * 86400

abbrev pub delta_or : ℕ → Option ℕ → ℕ
delta_or default none = default
delta_or default (some delta) = delta

abbrev pub has_type : TokenType → Option String → Bool
has_type expected none = false
has_type expected (some typ) = str_eq typ (token_text expected)

abbrev pub subject_of : Option ℕ → Result TokenError ℕ
subject_of none = err missing_subject
subject_of (some sub) = ok sub

abbrev pub claims_for : Settings → ℕ → ℕ → TokenType → Option ℕ → Claims
claims_for settings now user_id token_type expires_delta = record {
  sub = some user_id;
  typ = some (token_text token_type);
  iat = now;
  exp = now + delta_or (lifetime settings token_type) expires_delta;
}

module _ {T : Type 0} (jwt : Jwt T) (settings : Settings) where
  -- `create_token`
  unfoldable pub create_token : ℕ → ℕ → TokenType → Option ℕ → T
  create_token now user_id token_type expires_delta =
      jwt.encode settings.secret_key (claims_for settings now user_id token_type expires_delta)

  unfoldable pub read_claims : TokenType → Option Claims → Result TokenError ℕ
  read_claims expected none = err invalid_or_expired
  read_claims expected (some payload) =
      if has_type expected payload.typ then subject_of payload.sub else err invalid_type

  -- `decode_token`
  unfoldable pub decode_token : ℕ → T → TokenType → Result TokenError ℕ
  unfolding read_claims
  decode_token now token expected = read_claims expected (jwt.decode settings.secret_key now token)

  -- `create_file_token`
  unfoldable pub create_file_token : ℕ → ℕ → T
  unfolding create_token
  create_file_token now asset_id =
      create_token now asset_id file (some (settings.file_signature_expire_minutes * 60))

  -- `decode_file_token`
  unfoldable pub decode_file_token : ℕ → T → Result TokenError ℕ
  unfolding decode_token
  decode_file_token now token = decode_token now token file
