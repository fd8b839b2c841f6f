-- ===== src/Directory/Storage.antt =====
-- server/directory/src/db.rs: the directory server's storage. Each table is a list of rows, a table
-- with a text primary key a list of pairs; the rows of `key_packages` stand in the order of
-- their ids, which the table counts up, so that `ORDER BY id ASC` is the order of the list.
-- Times are integers with no overflow: the clock counts seconds and the ages are the constants
-- below. JSON texts are opaque.
pub mod Keys
pub mod Names
pub mod Claims
pub mod Packages
pub mod Numbering
pub mod Calls
use ankai.Prelude.{
  ℕ, suc, ◌*◌, String, string_discrete, Bool, not, ◌&&◌, ◌==◌, Option, none, some, List, [], ◌∷◌,
  ◌++◌, map, keep, true, false, if◌then◌else◌,
}
use mathlib.Core.Option
use ankai.Prelude.Dict.{lookup, insert, insert_new, update}
use ankai.Prelude.Int.{ℤ, pos, ◌-ℤ◌, leb_ℤ}
use ankai.Prelude.Results.{ok, err}
use ankai.Sql.{
  Action, SqlError, pure, raise, ◌>>=◌, ◌>>◌, branch, on_option, map_err, query, query_ok, execute,
  lock,
}
use ankai.Directory.Username.{UsernameError, already_claimed, validate}

abbrev pub key_package_max_age_secs : ℤ
key_package_max_age_secs = pos (30 * 24 * 60 * 60)

abbrev pub endpoint_addr_ttl_secs : ℤ
endpoint_addr_ttl_secs = pos (10 * 60)

pub data StorageError : Type 0 where
  sqlite : SqlError → StorageError
  lock_poisoned : StorageError

-- The authentication errors, of auth.rs; `bind_device_key` raises the last.
pub data AuthError : Type 0 where
  malformed_header : String → AuthError
  stale_timestamp bad_signature device_key_mismatch : AuthError

pub data ClaimUsernameError : Type 0 where
  storage : StorageError → ClaimUsernameError
  username : UsernameError → ClaimUsernameError

pub record DeviceKey : Type 0 where
  pub public_key_hex : String
  pub first_seen_unix : ℤ

pub record PackageRow : Type 0 where
  pub id : ℕ
  pub device_id : String
  pub key_package_json : String
  pub published_at_unix : ℤ

pub record AddrRow : Type 0 where
  pub addr_json : String
  pub published_at_unix : ℤ

pub record Claim : Type 0 where
  pub device_id : String
  pub claimed_at_unix : ℤ

-- The schema; `next_id` is the counter of `AUTOINCREMENT`.
pub record Tables : Type 0 where
  pub device_keys : List (String × DeviceKey)
  pub key_packages : List PackageRow
  pub next_id : ℕ
  pub endpoint_addrs : List (String × AddrRow)
  pub usernames : List (String × Claim)

abbrev pub Store : Type 0 → Type 0 → Type 0
Store = Action Tables

-- Equality of texts, as a test.
abbrev pub is_text : String → String → Bool
is_text s t = elim (string_discrete s t) [ yes _ ↦ true | no _ ↦ false ]

abbrev dec : Discrete String
dec = string_discrete

unfoldable pub key_of : String → Tables → Option String
key_of device_id t =
    Option.map (λ (k : DeviceKey). k.public_key_hex) (lookup dec device_id t.device_keys)

unfoldable pub add_key : String → String → ℤ → Tables → Option Tables
add_key device_id key now t =
    Option.map (λ keys. record t { device_keys = keys })
      (insert_new dec device_id (record { public_key_hex = key; first_seen_unix = now })
        t.device_keys)

unfoldable pub bind_device_key : String → String → ℤ → Store AuthError (Unit {0})
bind_device_key device_id public_key_hex now = do
  lock device_key_mismatch
  existing ← query_ok (key_of device_id)
  on_option existing
      (λ bound. branch (is_text bound public_key_hex) (pure tt) (raise device_key_mismatch))
      (map_err (λ _. device_key_mismatch) (execute (add_key device_id public_key_hex now)))

unfoldable pub add_package : String → String → ℤ → Tables → Tables
add_package device_id json now t = record t {
  key_packages =
      t.key_packages
      ++ record {
        id = t.next_id;
        device_id = device_id;
        key_package_json = json;
        published_at_unix = now;
      }
        ∷ [];
  next_id = suc t.next_id;
}

unfoldable pub insert_key_package : String → String → ℤ → Store StorageError (Unit {0})
insert_key_package device_id json now = do
  lock lock_poisoned
  map_err sqlite (execute (λ t. some (add_package device_id json now t)))

-- The rows that a `DELETE … WHERE` with this condition leaves.
abbrev pub delete_packages : (PackageRow → Bool) → Tables → Tables
delete_packages condition t = record t {
  key_packages = keep (λ r. not (condition r)) t.key_packages;
}

abbrev pub of_device : String → PackageRow → Bool
of_device device_id r = is_text r.device_id device_id

abbrev pub published_by : ℤ → PackageRow → Bool
published_by cutoff r = leb_ℤ r.published_at_unix cutoff

-- The loop over the selected rows.
unfoldable pub delete_rows : List PackageRow → Store StorageError (Unit {0})
delete_rows [] = pure tt
delete_rows (row ∷ rows) = do
  map_err sqlite (execute (λ t. some (delete_packages (λ r. r.id == row.id) t)))
  delete_rows rows

unfoldable pub take_key_packages : String → ℤ → ℤ → Store StorageError (List String)
take_key_packages device_id now max_age_secs = do
  lock lock_poisoned
  let cutoff = now -ℤ max_age_secs
  map_err sqlite (
      execute (λ t. some (delete_packages (λ r. of_device device_id r && published_by cutoff r) t)))
  rows ← map_err sqlite (query (λ t. keep (of_device device_id) t.key_packages))
  delete_rows rows
  pure (map (λ (r : PackageRow). r.key_package_json) rows)

unfoldable pub put_addr : String → String → ℤ → Tables → Tables
put_addr device_id addr_json now t = record t {
  endpoint_addrs =
      insert dec device_id (record { addr_json = addr_json; published_at_unix = now })
        t.endpoint_addrs;
}

unfoldable pub upsert_endpoint_addr : String → String → ℤ → Store StorageError (Unit {0})
upsert_endpoint_addr device_id addr_json now = do
  lock lock_poisoned
  map_err sqlite (execute (λ t. some (put_addr device_id addr_json now t)))

abbrev fresh_addr : ℤ → ℤ → Option AddrRow → Option String
fresh_addr now ttl_secs none = none
fresh_addr now ttl_secs (some r) =
    if leb_ℤ (now -ℤ r.published_at_unix) ttl_secs then some r.addr_json else none

unfoldable pub get_endpoint_addr : String → ℤ → ℤ → Store StorageError (Option String)
get_endpoint_addr device_id now ttl_secs = do
  lock lock_poisoned
  row ← query_ok (λ t. lookup dec device_id t.endpoint_addrs)
  pure (fresh_addr now ttl_secs row)

unfoldable pub owner_of : String → Tables → Option String
owner_of name t = Option.map (λ (c : Claim). c.device_id) (lookup dec name t.usernames)

unfoldable pub touch_claim : String → ℤ → Tables → Tables
touch_claim name now t = record t {
  usernames = update dec name (λ c. record c { claimed_at_unix = now }) t.usernames;
}

unfoldable pub free_names : String → Tables → Tables
free_names device_id t = record t {
  usernames = keep (λ e. not (is_text e.1.device_id device_id)) t.usernames;
}

unfoldable pub add_claim : String → String → ℤ → Tables → Option Tables
add_claim name device_id now t =
    Option.map (λ names. record t { usernames = names })
      (insert_new dec name (record { device_id = device_id; claimed_at_unix = now }) t.usernames)

unfoldable pub claim_username : String → String → ℤ → Store ClaimUsernameError (Unit {0})
claim_username device_id username_val now = do
  (λ c. elim (validate username_val) [ ok _ ↦ (ok tt, c) | err e ↦ (err (username e), c) ])
  lock (storage lock_poisoned)
  existing_owner ← query_ok (owner_of username_val)
  on_option existing_owner
      (λ owner.
        branch (is_text owner device_id)
          (map_err (λ e. storage (sqlite e)) (execute (λ t. some (touch_claim username_val now t))))
          (raise (username already_claimed)))
      (do
        map_err (λ e. storage (sqlite e)) (execute (λ t. some (free_names device_id t)))
        map_err (λ e. storage (sqlite e)) (execute (add_claim username_val device_id now)))

unfoldable pub lookup_username : String → Store StorageError (Option String)
lookup_username username_val = do lock lock_poisoned; query_ok (owner_of username_val)
