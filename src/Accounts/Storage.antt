-- ===== src/Accounts/Storage.antt =====
-- server/accounts/src/db.rs: accounts, their devices and their recovery blobs. Each table is a list of
-- rows under their primary key. `ORDER BY` is a stable sort here; SQLite leaves the order of rows
-- signed in the same second open.
pub mod Pins
pub mod Registering
pub mod Revoking
pub mod Calls
use ankai.Prelude.{
  ℕ, ◌*◌, String, string_discrete, Bool, true, false, not, ◌&&◌, Option, none, some, List, [], ◌∷◌,
  map, keep, if◌then◌else◌,
}
use mathlib.Core.Option
use ankai.Prelude.Dict.{lookup, insert, insert_new, update}
use ankai.Prelude.Int.{ℤ, leb_ℤ}
use ankai.Prelude.Results.{ok, err}
use ankai.Sql.{
  Action, SqlError, pure, raise, ◌>>=◌, ◌>>◌, branch, on_option, map_err, query, query_ok, execute,
  lock,
}

abbrev pub max_recovery_blob_bytes : ℕ
max_recovery_blob_bytes = 1024 * 1024

pub data StorageError : Type 0 where
  sqlite : SqlError → StorageError
  lock_poisoned : StorageError

pub data RegisterDeviceError : Type 0 where
  storage : StorageError → RegisterDeviceError
  device_id_conflict : RegisterDeviceError

pub record DeviceRegistrationRow : Type 0 where
  pub device_id : String
  pub device_public_key_hex : String
  pub signed_at_unix : ℤ
  pub signature_hex : String

pub record Account : Type 0 where
  pub account_public_key_hex : String
  pub first_seen_unix : ℤ

pub record Registration : Type 0 where
  pub account_id : String
  pub device_public_key_hex : String
  pub signed_at_unix : ℤ
  pub signature_hex : String
  pub revoked_at_unix : Option ℤ

pub record Blob : Type 0 where
  pub bytes : List ℕ
  pub updated_at_unix : ℤ

-- The schema.
pub record Tables : Type 0 where
  pub accounts : List (String × Account)
  pub devices : List (String × Registration)
  pub recovery_blobs : List (String × Blob)

abbrev pub Store : Type 0 → Type 0 → Type 0
Store = Action Tables

abbrev pub dec : Discrete String
dec = string_discrete

abbrev pub is_text : String → String → Bool
is_text s t = elim (string_discrete s t) [ yes _ ↦ true | no _ ↦ false ]

abbrev is_none : Option ℤ → Bool
is_none none = true
is_none (some _) = false

unfoldable pub account_key : String → Tables → Option String
account_key account_id t =
    Option.map (λ (a : Account). a.account_public_key_hex) (lookup dec account_id t.accounts)

-- The account and the key of a device.
unfoldable pub device_of : String → Tables → Option (String × String)
device_of device_id t =
    Option.map (λ (r : Registration). (r.account_id, r.device_public_key_hex))
      (lookup dec device_id t.devices)

unfoldable pub add_account : String → String → ℤ → Tables → Option Tables
add_account account_id key now t =
    Option.map (λ rows. record t { accounts = rows })
      (insert_new dec account_id (record { account_public_key_hex = key; first_seen_unix = now })
        t.accounts)

unfoldable pub refresh_device : String → ℤ → String → Tables → Tables
refresh_device device_id signed_at_unix signature_hex t = record t {
  devices =
      update dec device_id
        (λ r. record r {
          signed_at_unix = signed_at_unix;
          signature_hex = signature_hex;
          revoked_at_unix = none;
        })
        t.devices;
}

unfoldable pub add_device : String → String → String → ℤ → String → Tables → Option Tables
add_device account_id device_id device_key signed_at_unix signature_hex t =
    Option.map (λ rows. record t { devices = rows })
      (insert_new dec device_id
        (record {
          account_id = account_id;
          device_public_key_hex = device_key;
          signed_at_unix = signed_at_unix;
          signature_hex = signature_hex;
          revoked_at_unix = none;
        })
        t.devices)

abbrev run_sql : {A : Type 0} → Action Tables SqlError A → Store RegisterDeviceError A
run_sql = map_err (λ e. storage (sqlite e))

-- The statement that stores the registration.
unfoldable pub store_device :
    (is_idempotent_refresh : Bool)
    → (account_id device_id device_public_key_hex : String) → ℤ
    → String
    → Store RegisterDeviceError (Unit {0})
store_device is_idempotent_refresh account_id device_id device_key signed_at_unix signature_hex =
    branch is_idempotent_refresh
      (run_sql (execute (λ t. some (refresh_device device_id signed_at_unix signature_hex t))))
      (run_sql (execute (add_device account_id device_id device_key signed_at_unix signature_hex)))

-- The account's row is made where there is none, and its key compared where there is.
unfoldable pub match_account : (account_id key : String) → ℤ → Store RegisterDeviceError (Unit {0})
match_account account_id account_public_key_hex now = do
  existing_account_key ← query_ok (account_key account_id)
  on_option existing_account_key
      (λ existing.
        branch (is_text existing account_public_key_hex) (pure tt) (raise device_id_conflict))
      (run_sql (execute (add_account account_id account_public_key_hex now)))

unfoldable pub register_device :
    (account_id account_public_key_hex device_id device_public_key_hex : String)
    → (signed_at_unix : ℤ) → (signature_hex : String) → (now : ℤ)
    → Store RegisterDeviceError (Unit {0})
register_device account_id account_key device_id device_key signed_at_unix signature_hex now = do
  lock (storage lock_poisoned)
  existing_device ← query_ok (device_of device_id)
  is_idempotent_refresh ←
      on_option existing_device
        (λ existing.
          branch (is_text existing.0 account_id && is_text existing.1 device_key) (pure true)
            (raise device_id_conflict))
        (pure false)
  match_account account_id account_key now
  store_device is_idempotent_refresh account_id device_id device_key signed_at_unix signature_hex

-- `ORDER BY signed_at_unix ASC`.
unfoldable pub insert_by_time :
    DeviceRegistrationRow → List DeviceRegistrationRow → List DeviceRegistrationRow
insert_by_time r [] = r ∷ []
insert_by_time r (s ∷ rows) =
    let rest = insert_by_time r rows in
    if leb_ℤ r.signed_at_unix s.signed_at_unix then r ∷ s ∷ rows else s ∷ rest

unfoldable pub order_by_time : List DeviceRegistrationRow → List DeviceRegistrationRow
order_by_time [] = []
order_by_time (r ∷ rows) = insert_by_time r (order_by_time rows)

abbrev pub active : String → String × Registration → Bool
active account_id row = is_text row.1.account_id account_id && is_none row.1.revoked_at_unix

abbrev pub registration_row : String × Registration → DeviceRegistrationRow
registration_row row = record {
  device_id = row.0;
  device_public_key_hex = row.1.device_public_key_hex;
  signed_at_unix = row.1.signed_at_unix;
  signature_hex = row.1.signature_hex;
}

unfoldable pub active_devices : String → Tables → List DeviceRegistrationRow
active_devices account_id t =
    order_by_time (map registration_row (keep (active account_id) t.devices))

unfoldable pub list_devices :
    String → Store StorageError (Option (String × List DeviceRegistrationRow))
list_devices account_id = do
  lock lock_poisoned
  found ← query_ok (account_key account_id)
  on_option found
      (λ key. do rows ← map_err sqlite (query (active_devices account_id)); pure (some (key, rows)))
      (pure none)

-- The rows that the `UPDATE` of a revocation meets, changed.
unfoldable pub revoke_in : String → String → ℤ → Tables → Tables
revoke_in account_id device_id now t = record t {
  devices =
      update dec device_id
        (λ r.
          if active account_id (device_id, r) then record r { revoked_at_unix = some now } else r)
        t.devices;
}

-- Whether it meets any.
unfoldable pub revocable : String → String → Tables → Bool
revocable account_id device_id t = elim (lookup dec device_id t.devices) [
  | none ↦ false
  | some r ↦ active account_id (device_id, r)
]

unfoldable pub revoke_device : String → String → ℤ → Store StorageError Bool
revoke_device account_id device_id now = do
  lock lock_poisoned
  (λ c.
      map_err sqlite
        (do
          execute (λ t. some (revoke_in account_id device_id now t))
          pure (revocable account_id device_id c.tables))
        c)

unfoldable pub put_recovery_blob : String → List ℕ → ℤ → Store StorageError (Unit {0})
put_recovery_blob account_id blob now = do
  lock lock_poisoned
  map_err sqlite (
      execute (λ t. some (record t {
        recovery_blobs =
            insert dec account_id (record { bytes = blob; updated_at_unix = now }) t.recovery_blobs;
      })))

unfoldable pub get_recovery_blob : String → Store StorageError (Option (List ℕ))
get_recovery_blob account_id = do
  lock lock_poisoned
  query_ok (λ t. Option.map (λ (b : Blob). b.bytes) (lookup dec account_id t.recovery_blobs))
