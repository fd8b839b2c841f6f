-- ===== src/Accounts/App.antt =====
-- server/accounts/src/app.rs: the handlers, over the paths of paths.rs. As in the directory server the
-- clock, the headers and serde_json are arguments, and messages of errors are left out.
pub mod Handlers
use Prim.Native.String
use ankai.Prelude.{
  ℕ, String, utf8, Bool, true, false, not, ltb, length, Option, none, some, List, [], ◌∷◌,
}
use ankai.Prelude.Int.{ℤ, ltb_ℤ}
use ankai.Prelude.Results.{Result, ok, err}
use ankai.Sql.{Action, pure, raise, branch, ◌>>=◌, ◌>>◌, map_err}
use ankai.Util.{Decoded, done, panic, decode_hex, encode_hex_text}
use ankai.Directory.Auth.{Ed25519, abs_i64, wrap_i64}
use ankai.Prelude.Int.{◌-ℤ◌}
use ankai.Directory.App.{Headers, header_pairs}
use ankai.Accounts.Registration.{
  DeviceRegistration, verify_device_registration, registration_skew_secs, is_text,
}
use ankai.Accounts.Auth.{
  AuthError, Stop, error, panicked, VerifiedRequest, parse_and_verify, account_id_mismatch,
}
use ankai.Accounts.Storage
use ankai.Accounts.Storage.{
  Tables, Store, StorageError, RegisterDeviceError, DeviceRegistrationRow, register_device,
  max_recovery_blob_bytes,
}

pub data ApiError : Type 0 where
  auth : AuthError → ApiError
  bad_body : ApiError
  storage : StorageError → ApiError
  invalid_registration device_id_conflict recovery_blob_too_large not_found internal : ApiError

-- How a handler ends that does not succeed.
pub data Failure : Type 0 where
  api : ApiError → Failure
  crashed : Failure

unfoldable pub from_register_error : RegisterDeviceError → ApiError
from_register_error (RegisterDeviceError.storage e) = storage e
from_register_error RegisterDeviceError.device_id_conflict = device_id_conflict

-- `into_response`.
unfoldable pub status : ApiError → ℕ
status (auth account_id_mismatch) = 403
status (auth _) = 401
status bad_body = 400
status invalid_registration = 401
status device_id_conflict = 409
status recovery_blob_too_large = 413
status not_found = 404
status (storage _) = 500
status internal = 500

unfoldable pub devices_path : String → String
devices_path a = String.◌++◌ "/v1/accounts/" (String.◌++◌ a "/devices")

unfoldable pub revoke_path : (account_id device_id : String) → String
revoke_path a d =
    String.◌++◌ "/v1/accounts/" (String.◌++◌ a (String.◌++◌ "/devices/" (String.◌++◌ d "/revoke")))

unfoldable pub recovery_blob_path : String → String
recovery_blob_path a = String.◌++◌ "/v1/accounts/" (String.◌++◌ a "/recovery-blob")

pub record AddDeviceRequest : Type 0 where
  pub account_public_key_hex : String
  pub registration : DeviceRegistration

abbrev pub no_content : ℕ
no_content = 204

unfoldable pub stop : Stop → Failure
stop (error e) = api (auth e)
stop panicked = crashed

abbrev verified : Result Stop VerifiedRequest → Store Failure (Unit {0})
verified r c = elim r [ ok v ↦ (ok tt, c) | err e ↦ (err (stop e), c) ]

abbrev or_fail : {A : Type 0} → Option A → ApiError → Store Failure A
or_fail o e c = elim o [ none ↦ (err (api e), c) | some a ↦ (ok a, c) ]

abbrev check : Bool → ApiError → Store Failure (Unit {0})
check b e = branch b (pure tt) (raise (api e))

-- The key in a registration's request.
unfoldable pub decode_key : String → Store Failure (List ℕ)
decode_key hex c = elim (decode_hex (utf8 hex)) [
  | panic ↦ (err crashed, c)
  | done none ↦ (err (api bad_body), c)
  | done (some bytes) ↦ (ok bytes, c)
]

-- Out of the skew of a registration.
unfoldable pub is_old : (signed_at_unix now : ℤ) → Bool
is_old signed_at_unix now =
    ltb_ℤ registration_skew_secs (abs_i64 (wrap_i64 (signed_at_unix -ℤ now)))

abbrev from_storage : {A : Type 0} → Store StorageError A → Store Failure A
from_storage = map_err (λ e. api (storage e))

unfoldable pub list_devices : String → Store Failure (String × List DeviceRegistrationRow)
list_devices account_id = do
  result ← from_storage (Storage.list_devices account_id)
  or_fail result not_found

module _ (ed : Ed25519) (blake3 : List ℕ → List ℕ) where
  -- The first argument reads the request's body.
  unfoldable pub add_device :
      (List ℕ → Option AddDeviceRequest)
      → (account_id : String) → (body : List ℕ) → (now : ℤ) → Store Failure ℕ
  add_device read account_id body now = do
    request ← or_fail (read body) bad_body
    check (is_text request.registration.account account_id) invalid_registration
    account_public_key ← decode_key request.account_public_key_hex
    check (verify_device_registration ed blake3 request.registration account_public_key)
        invalid_registration
    check (not (is_old request.registration.signed_at_unix now)) invalid_registration
    map_err (λ e. api (from_register_error e))
        (register_device account_id request.account_public_key_hex request.registration.device
          (encode_hex_text request.registration.device_public_key)
          request.registration.signed_at_unix (encode_hex_text request.registration.signature) now)
    pure no_content

  unfoldable pub revoke_device :
      (account_id device_id : String) → Headers → (body : List ℕ) → (now : ℤ) → Store Failure ℕ
  revoke_device account_id device_id headers body now = do
    verified (
        parse_and_verify ed blake3 (header_pairs headers) "POST" (revoke_path account_id device_id)
          account_id body now)
    revoked ← from_storage (Storage.revoke_device account_id device_id now)
    branch revoked (pure no_content) (raise (api not_found))

  unfoldable pub put_recovery_blob :
      (account_id : String) → Headers → (body : List ℕ) → (now : ℤ) → Store Failure ℕ
  put_recovery_blob account_id headers body now =
      branch (ltb max_recovery_blob_bytes (length body)) (raise (api recovery_blob_too_large)) (do
        verified (
            parse_and_verify ed blake3 (header_pairs headers) "PUT" (recovery_blob_path account_id)
              account_id body now)
        from_storage (Storage.put_recovery_blob account_id body now)
        pure no_content)

  unfoldable pub get_recovery_blob :
      (account_id : String) → Headers → (now : ℤ) → Store Failure (List ℕ)
  get_recovery_blob account_id headers now = do
    verified (
        parse_and_verify ed blake3 (header_pairs headers) "GET" (recovery_blob_path account_id)
          account_id [] now)
    blob ← from_storage (Storage.get_recovery_blob account_id)
    or_fail blob not_found
