-- ===== src/Auth/Files.antt =====
-- The download of a file (backend/app/api/v1/files.py), without the response's headers.
use slidelens.Prelude.{
  ℕ, ◌≡◌, refl, Bool, true, false, Option, none, some, List, leb, ◌==◌, if◌then◌else◌, ==_iff, ap,
  ◌∙◌,
}
use slidelens.Prelude.Exec.{Exec, Result, ok, err}
use slidelens.Prelude.Table.{row_at}
use slidelens.Entities.{User, Review, FileAsset, FileName, Bytes}
use slidelens.Services.{World, Error}
use slidelens.Services.Storage.{open_file}
use slidelens.Auth.{Jwt, Settings, TokenError, decode_file_token}

-- 404, 401, or what the storage raised.
pub data FileError : Type 0 where
  file_not_found bad_signature : FileError
  storage_error : Error → FileError

-- The row of a file that has not expired.
unfoldable pub live_asset : ℕ → Option FileAsset → Option FileAsset
live_asset now none = none
live_asset now (some asset) = if leb now asset.expires_at then some asset else none

abbrev pub asset_at : ℕ → ℕ → List FileAsset → Option FileAsset
asset_at now asset_id assets = live_asset now (row_at (λ (a : FileAsset). a.id) asset_id assets)

abbrev pub read_result : Result Error Bytes → Result FileError Bytes
read_result (ok content) = ok content
read_result (err e) = err (storage_error e)

abbrev pub is_signed : ℕ → Result TokenError ℕ → Bool
is_signed asset_id (err e) = false
is_signed asset_id (ok signed_asset_id) = signed_asset_id == asset_id

abbrev pub is_owner : {W : Type 0} → Option (Review W) → Option User → Bool
is_owner (some review) (some user) = user.id == review.user_id
is_owner _ _ = false

module _ {W : Type 0} (root : List FileName) where
  unfoldable pub send_file : FileAsset → Exec (World W) FileError Bytes
  send_file asset s =
      (read_result (open_file root asset.storage_path s).0, (open_file root asset.storage_path s).1)

  unfoldable pub send_if : Bool → FileError → FileAsset → Exec (World W) FileError Bytes
  unfolding send_file
  send_if true e asset s = send_file asset s
  send_if false e asset s = (err e, s)

  module _ {T : Type 0} (jwt : Jwt T) (settings : Settings) (now : ℕ) (user : Option User) where
    -- A signature is checked, and only without one the owner.
    unfoldable pub send_checked : ℕ → FileAsset → Option T → Exec (World W) FileError Bytes
    unfolding send_if
    send_checked asset_id asset (some sig) s =
        send_if (is_signed asset_id (decode_file_token jwt settings now sig)) bad_signature asset s
    send_checked asset_id asset none s =
        send_if (is_owner (row_at (λ (r : Review W). r.id) asset.review_id s.db.reviews) user)
          file_not_found asset s

    unfoldable pub send_found : ℕ → Option T → Option FileAsset → Exec (World W) FileError Bytes
    unfolding send_checked
    send_found asset_id sig none s = (err file_not_found, s)
    send_found asset_id sig (some asset) s = send_checked asset_id asset sig s

    -- `get_file`
    unfoldable pub get_file : ℕ → Option T → Exec (World W) FileError Bytes
    unfolding send_found
    get_file asset_id sig s = send_found asset_id sig (asset_at now asset_id s.db.assets) s

    -- Who may read a file: the bearer of a link that is signed for it, or without a link its owner.
    abbrev pub MayRead : World W → ℕ → FileAsset → Option T → Type 0
    MayRead s asset_id asset (some sig) = decode_file_token jwt settings now sig ≡ ok asset_id
    MayRead s asset_id asset none =
        (u : User) × (review : Review W) × (user ≡ some u)
        × (row_at (λ (r : Review W). r.id) asset.review_id s.db.reviews ≡ some review)
        × (u.id ≡ review.user_id)

    -- A file that is given away has not expired, and its reader may read it.
    abbrev pub Given : World W → ℕ → Option T → Result FileError Bytes × World W → Type 0
    Given s asset_id sig (err e, t) = Unit
    Given s asset_id sig (ok content, t) =
        (asset : FileAsset) × (row_at (λ (a : FileAsset). a.id) asset_id s.db.assets ≡ some asset)
        × (leb now asset.expires_at ≡ true)
        × MayRead s asset_id asset sig
        × (open_file root asset.storage_path s ≡ (ok content, t))

    MayRead-is_signed :
        (s : World W) (asset_id : ℕ) (asset : FileAsset) (sig : T) (r : Result TokenError ℕ)
        → decode_file_token jwt settings now sig ≡ r
        → is_signed asset_id r ≡ true
        → MayRead s asset_id asset (some sig)
    MayRead-is_signed s asset_id asset sig (err e) read h = cc
    MayRead-is_signed s asset_id asset sig (ok id) read h = read ∙ ap ok ((==_iff id asset_id).0 h)

    MayRead-is_owner :
        (s : World W) (asset_id : ℕ) (asset : FileAsset) (review : Option (Review W))
        (u : Option User)
        → row_at (λ (r : Review W). r.id) asset.review_id s.db.reviews ≡ review
        → user ≡ u
        → is_owner review u ≡ true
        → MayRead s asset_id asset none
    MayRead-is_owner s asset_id asset (some review) (some u) found e h =
        (u, review, e, found, (==_iff u.id review.user_id).0 h)
    MayRead-is_owner s asset_id asset none u found e h = cc
    MayRead-is_owner s asset_id asset (some review) none found e h = cc

    module _ (s : World W) (asset_id : ℕ) (sig : Option T) (asset : FileAsset)
        (found : row_at (λ (a : FileAsset). a.id) asset_id s.db.assets ≡ some asset)
        (live : leb now asset.expires_at ≡ true) where
      read-Given :
          (p : Result Error Bytes × World W)
          → open_file root asset.storage_path s ≡ p
          → MayRead s asset_id asset sig
          → Given s asset_id sig (read_result p.0, p.1)
      read-Given (ok content, t) opened may = (asset, found, live, may, opened)
      read-Given (err e, t) opened may = tt

      send_if-Given :
          (b : Bool) (e : FileError)
          → (b ≡ true → MayRead s asset_id asset sig)
          → Given s asset_id sig (send_if b e asset s)
      unfolding send_if send_file
      send_if-Given true e may = read-Given (open_file root asset.storage_path s) refl (may refl)
      send_if-Given false e may = tt

    send_checked-Given :
        (s : World W) (asset_id : ℕ) (asset : FileAsset) (sig : Option T)
        → row_at (λ (a : FileAsset). a.id) asset_id s.db.assets ≡ some asset
        → leb now asset.expires_at ≡ true
        → Given s asset_id sig (send_checked asset_id asset sig s)
    unfolding send_checked
    send_checked-Given s asset_id asset (some sig) found live =
        send_if-Given s asset_id (some sig) asset found live _ _
          (MayRead-is_signed s asset_id asset sig (decode_file_token jwt settings now sig) refl)
    send_checked-Given s asset_id asset none found live =
        send_if-Given s asset_id none asset found live _ _ (
          MayRead-is_owner s asset_id asset
            (row_at (λ (r : Review W). r.id) asset.review_id s.db.reviews) user refl refl)

    live-Given :
        (s : World W) (asset_id : ℕ) (asset : FileAsset) (sig : Option T) (b : Bool)
        → row_at (λ (a : FileAsset). a.id) asset_id s.db.assets ≡ some asset
        → leb now asset.expires_at ≡ b
        → Given s asset_id sig (send_found asset_id sig (if b then some asset else none) s)
    unfolding send_found
    live-Given s asset_id asset sig true found live =
        send_checked-Given s asset_id asset sig found live
    live-Given s asset_id asset sig false found live = tt

    row-Given :
        (s : World W) (asset_id : ℕ) (sig : Option T) (row : Option FileAsset)
        → row_at (λ (a : FileAsset). a.id) asset_id s.db.assets ≡ row
        → Given s asset_id sig (send_found asset_id sig (live_asset now row) s)
    unfolding live_asset send_found
    row-Given s asset_id sig none found = tt
    row-Given s asset_id sig (some asset) found = live-Given s asset_id asset sig _ found refl

    -- A file is given away only if it is there and has not expired, and only to the bearer of a link
    -- that was signed for this file or, where there is no link, to the owner of its review; a link that
    -- does not hold is refused even to the owner. What is given is what the storage has.
    pub get_file-Given :
        (s : World W) (asset_id : ℕ) (sig : Option T)
        → Given s asset_id sig (get_file asset_id sig s)
    unfolding get_file
    get_file-Given s asset_id sig =
        row-Given s asset_id sig (row_at (λ (a : FileAsset). a.id) asset_id s.db.assets) refl
