-- ===== src/Auth/Tests.antt =====
-- A token format for the tests, a registration and a download.
use slidelens.Prelude.{◌+◌, ◌≡◌, refl, true, none, some, [], ◌∷◌, ltb, if◌then◌else◌, arith}
use slidelens.Prelude.Int.{ℤ}
use slidelens.Prelude.Text.{codes}
use slidelens.Prelude.Exec.{ok, err}
use slidelens.Entities.{Bytes, Db}
use slidelens.Services.{World}
use slidelens.Auth.{
  Claims, Jwt, IsJwt, Settings, access, file, decode_token, create_token, create_file_token,
  invalid_type, invalid_or_expired, lifetime, delta_or,
}
use slidelens.Auth.Tokens.{same_type, decode_token-create_token}
use slidelens.Auth.Accounts.{register_user}
use slidelens.Auth.Emails.{Registered, register_user-Registered}
use slidelens.Auth.Files.{get_file, Given, get_file-Given}

-- A token is its claims; signatures play no part.
abbrev plain : Jwt Claims
plain = record { encode = λ key c. c; decode = λ key now c. if ltb now c.exp then some c else none }

plain-IsJwt : IsJwt Claims plain
plain-IsJwt = record {
  decode-encode = λ key now c h e. rw e refl;
  decode-expired = λ key now c e. rw e refl;
}

abbrev settings : Settings
settings = record {
  secret_key = codes "k";
  access_token_expire_minutes = 15;
  refresh_token_expire_days = 30;
  file_signature_expire_minutes = 60;
}

decode_token-create_token_example :
    decode_token plain settings 5 (create_token plain settings 3 7 file none) access ≡ (
      if ltb 5 (3 + delta_or (lifetime settings file) none)
      then (if same_type file access then ok 7 else err invalid_type)
      else err invalid_or_expired)
decode_token-create_token_example =
    decode_token-create_token plain plain-IsJwt settings 3 5 7 file access none (omega arith)

abbrev empty_db : Db ℤ
empty_db = record {
  users = [];
  reviews = [];
  findings = [];
  assets =
      record {
        id = 4;
        review_id = 2;
        kind = slidelens.Entities.FileAssetKind.report_pdf;
        storage_path = codes "2/4_report.pdf";
        size_bytes = 0;
        version = 1;
        expires_at = 100;
      }
      ∷ [];
  events = [];
  rehearsals = [];
}

abbrev start : World ℤ
start = record {
  committed = empty_db;
  db = empty_db;
  files = [];
  queue = [];
  outbox = [];
  next_id = 10;
}

register_user-Registered_example :
    Registered plain settings
      (λ e. e)
      (λ p. p)
      (λ p h. true)
      []
      3
      start
      "a@b.c"
      "password"
      (register_user plain settings (λ e. e) (λ p. p) (λ p h. true) [] 3 "a@b.c" "password" start)
register_user-Registered_example =
    register_user-Registered plain settings (λ e. e) (λ p. p) (λ p h. true) [] 3 start "a@b.c"
      "password" (λ email. omega arith)

-- The file's bytes lie where its row says.
abbrev stocked : World ℤ
stocked = record start { files = (codes "/srv/2/4_report.pdf", 37 ∷ 80 ∷ []) ∷ [] }

get_file-Given_example :
    Given
      (codes "srv" ∷ [])
      plain
      settings
      5
      none
      stocked
      4
      (some (create_file_token plain settings 3 4))
      (get_file
        (codes "srv" ∷ [])
        plain
        settings
        5
        none
        4
        (some (create_file_token plain settings 3 4))
        stocked)
get_file-Given_example =
    get_file-Given (codes "srv" ∷ []) plain settings 5 none stocked 4
      (some (create_file_token plain settings 3 4))
