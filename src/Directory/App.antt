-- ===== src/Directory/App.antt =====
-- server/directory/src/app.rs: the handlers, over the paths of paths.rs. The clock, the header map
-- as what `to_str` gives for each value, and serde_json's codecs are arguments. A handler that
-- panics is told from one that answers with an error. Messages of errors are left out, and so is
-- the failure of `spawn_blocking`, whose closures do not panic.
pub mod Publish
use ankai.Prelude.{ℕ, String, Option, none, some, List, [], ◌∷◌}
use Prim.Native.String
use ankai.Prelude.Int.{ℤ}
use ankai.Prelude.Results.{Result, ok, err}
use ankai.Sql.{Action, Conn, pure, raise, ◌>>=◌, ◌>>◌, map_err}
use ankai.Directory.Auth.{Ed25519, SignedRequest, Stop, error, panicked, parse_and_verify}
use ankai.Directory.Storage.{
  Tables, Store, AuthError, malformed_header, stale_timestamp, bad_signature, device_key_mismatch,
  StorageError, ClaimUsernameError, bind_device_key, insert_key_package, take_key_packages,
  upsert_endpoint_addr, get_endpoint_addr, key_package_max_age_secs, endpoint_addr_ttl_secs,
}
use ankai.Directory.Storage
use ankai.Directory.Username.{UsernameError, invalid, already_claimed}

pub data ApiError : Type 0 where
  auth : AuthError → ApiError
  bad_body : ApiError
  storage : StorageError → ApiError
  username : UsernameError → ApiError
  internal : ApiError

-- How a handler ends that does not succeed.
pub data Failure : Type 0 where
  api : ApiError → Failure
  crashed : Failure

unfoldable pub from_claim_error : ClaimUsernameError → ApiError
from_claim_error (ClaimUsernameError.storage e) = storage e
from_claim_error (ClaimUsernameError.username e) = username e

-- `into_response`.
unfoldable pub status : ApiError → ℕ
status (auth device_key_mismatch) = 403
status (auth _) = 401
status bad_body = 400
status (username (invalid _)) = 400
status (username already_claimed) = 409
status (storage _) = 500
status internal = 500

unfoldable pub key_packages_path : String → String
key_packages_path d = String.◌++◌ "/v1/devices/" (String.◌++◌ d "/key-packages")

unfoldable pub endpoint_addr_path : String → String
endpoint_addr_path d = String.◌++◌ "/v1/devices/" (String.◌++◌ d "/endpoint-addr")

unfoldable pub username_path : String → String
username_path d = String.◌++◌ "/v1/devices/" (String.◌++◌ d "/username")

abbrev pub Headers : Type 0
Headers = List (String × Option String)

unfoldable pub header_pairs : Headers → List (String × String)
header_pairs [] = []
header_pairs ((k, some v) ∷ headers) = (k, v) ∷ header_pairs headers
header_pairs ((k, none) ∷ headers) = header_pairs headers

-- serde_json for one type: from a body, to a text, and from a text.
pub record Codec (P : Type 0) : Type 0 where
  pub from_slice : List ℕ → Option P
  pub to_string : P → Option String
  pub from_str : String → Option P

abbrev or_fail : {A : Type 0} → Option A → ApiError → Store Failure A
or_fail o e c = elim o [ none ↦ (err (api e), c) | some a ↦ (ok a, c) ]

unfoldable pub stop : Stop → Failure
stop (error e) = api (auth e)
stop panicked = crashed

abbrev verified : Result Stop SignedRequest → Store Failure SignedRequest
verified r c = elim r [ ok s ↦ (ok s, c) | err e ↦ (err (stop e), c) ]

-- Each stored text, read back.
unfoldable pub read_all : {P : Type 0} → Codec P → List String → Option (List P)
read_all codec [] = some []
read_all codec (json ∷ jsons) = elim (codec.from_str json) [
  | none ↦ none
  | some p ↦ elim (read_all codec jsons) [ none ↦ none | some ps ↦ some (p ∷ ps) ]
]

abbrev pub no_content : ℕ
no_content = 204

module _ (ed : Ed25519) where
  unfoldable pub authenticate :
      (method path device_id : String) → Headers → List ℕ → ℤ → Store Failure (Unit {0})
  authenticate method path device_id headers body now = do
    signed ← verified (parse_and_verify ed (header_pairs headers) method path device_id body now)
    map_err (λ e. api (auth e)) (bind_device_key device_id signed.pubkey_hex now)

  module _ {P : Type 0} (codec : Codec P) where
    unfoldable pub publish_key_package :
        (device_id : String) → Headers → List ℕ → ℤ → Store Failure ℕ
    publish_key_package device_id headers body now = do
      authenticate "POST" (key_packages_path device_id) device_id headers body now
      key_package ← or_fail (codec.from_slice body) bad_body
      json ← or_fail (codec.to_string key_package) internal
      map_err (λ e. api (storage e)) (insert_key_package device_id json now)
      pure no_content

    unfoldable pub publish_endpoint_addr :
        (device_id : String) → Headers → List ℕ → ℤ → Store Failure ℕ
    publish_endpoint_addr device_id headers body now = do
      authenticate "POST" (endpoint_addr_path device_id) device_id headers body now
      addr ← or_fail (codec.from_slice body) bad_body
      json ← or_fail (codec.to_string addr) internal
      map_err (λ e. api (storage e)) (upsert_endpoint_addr device_id json now)
      pure no_content

  -- The argument reads the name in the request's body.
  unfoldable pub claim_username :
      (List ℕ → Option String) → (device_id : String) → Headers → List ℕ → ℤ → Store Failure ℕ
  claim_username read_name device_id headers body now = do
    authenticate "POST" (username_path device_id) device_id headers body now
    name ← or_fail (read_name body) bad_body
    map_err (λ e. api (from_claim_error e)) (Storage.claim_username device_id name now)
    pure no_content

module _ {P : Type 0} (codec : Codec P) where
  unfoldable pub lookup_key_packages : (device_id : String) → ℤ → Store Failure (List P)
  lookup_key_packages device_id now = do
    jsons ←
        map_err (λ e. api (storage e)) (take_key_packages device_id now key_package_max_age_secs)
    or_fail (read_all codec jsons) internal

  unfoldable pub lookup_endpoint_addr : (device_id : String) → ℤ → Store Failure (Option P)
  lookup_endpoint_addr device_id now = do
    json ← map_err (λ e. api (storage e)) (get_endpoint_addr device_id now endpoint_addr_ttl_secs)
    (λ c. elim json [
      | none ↦ (ok none, c)
      | some text ↦ elim (codec.from_str text) [
        | none ↦ (err (api internal), c)
        | some p ↦ (ok (some p), c)
      ]
    ])

unfoldable pub lookup_username : String → Store Failure (Option String)
lookup_username name = map_err (λ e. api (storage e)) (Storage.lookup_username name)
