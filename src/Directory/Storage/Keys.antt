-- ===== src/Directory/Storage/Keys.antt =====
-- The pinning of device keys, `bind_device_key` of server/directory/src/db.rs.
use mathlib.Core.Logic.{ite}
use ankai.Prelude.{
  String, string_discrete, false, none, some, [], ◌∷◌, ◌++◌, ◌≡◌, ◌⊎◌, ◌↔◌, ◌≢◌, arith,
}
use ankai.Prelude.Dict.{insert_new, lookup-append_new}
use ankai.Prelude.Int.{ℤ}
use ankai.Prelude.Results.{ok, err}
use ankai.Sql.{Conn}
use ankai.Directory.Storage.{Tables, key_of, add_key, bind_device_key, device_key_mismatch}

-- Every key that is bound stays bound.
abbrev pub Pins : Tables → Tables → Type 0
Pins t u = (j k : String) → key_of j t ≡ some k → key_of j u ≡ some k

unfoldable pub with_key : String → String → ℤ → Tables → Tables
with_key d key now t = record t {
  device_keys = t.device_keys ++ (d, record { public_key_hex = key; first_seen_unix = now }) ∷ [];
}

pub add_key_lem :
    (d key : String) (now : ℤ) (t : Tables)
    → (add_key d key now t ≡ none)
      ⊎ ((key_of d t ≡ none) × (add_key d key now t ≡ some (with_key d key now t)))
unfolding key_of add_key insert_new with_key
add_key_lem d key now t = ground arith

key_of-with_key :
    (d key j : String) (now : ℤ) (t : Tables)
    → key_of d t ≡ none
    → key_of j (with_key d key now t) ≡ ite (string_discrete d j) (some key) (key_of j t)
unfolding key_of with_key
key_of-with_key d key j now t h = ground (
  arith,
  lookup-append_new string_discrete j d (record { public_key_hex = key; first_seen_unix = now })
      t.device_keys,
)

-- Whatever statements fail: every key that was bound stays bound; the tables change only where the
-- device had no key, and then the call succeeds; and after a success the device is bound to the
-- key that it presented.
pub bind_device_key-Pins :
    (d key : String) (now : ℤ) (c : Conn Tables)
    → Pins c.tables (bind_device_key d key now c).1.tables
      × (((bind_device_key d key now c).1.tables ≡ c.tables)
          ⊎ ((key_of d c.tables ≡ none) × ((bind_device_key d key now c).0 ≡ ok tt)))
      × (((bind_device_key d key now c).0 ≡ ok tt)
          → key_of d (bind_device_key d key now c).1.tables ≡ some key)
unfolding bind_device_key
bind_device_key-Pins d key now c = (
  λ j k h. ground (arith, add_key_lem d key now c.tables, key_of-with_key d key j now c.tables),
  ground (arith, add_key_lem d key now c.tables),
  λ e. ground (arith, add_key_lem d key now c.tables, key_of-with_key d key d now c.tables),
)

-- Binding a key touches no other table.
pub bind_device_key_frame :
    (d key : String) (now : ℤ) (c : Conn Tables)
    → ((bind_device_key d key now c).1.tables.key_packages ≡ c.tables.key_packages)
      × ((bind_device_key d key now c).1.tables.next_id ≡ c.tables.next_id)
unfolding bind_device_key with_key
bind_device_key_frame d key now c =
    (ground (arith, add_key_lem d key now c.tables), ground (arith, add_key_lem d key now c.tables))

-- A device that is bound to one key is refused with any other, and nothing changes, whatever
-- statements fail.
pub bind_device_key_rejects :
    (d key bound : String) (now : ℤ) (c : Conn Tables)
    → key_of d c.tables ≡ some bound
    → bound ≢ key
    → ((bind_device_key d key now c).0 ≡ err device_key_mismatch)
      × ((bind_device_key d key now c).1.tables ≡ c.tables)
unfolding bind_device_key
bind_device_key_rejects d key bound now c h ne =
    (ground (arith, add_key_lem d key now c.tables), ground (arith, add_key_lem d key now c.tables))

add_key_accepts :
    (d key : String) (now : ℤ) (t : Tables)
    → key_of d t ≡ none
    → add_key d key now t ≡ some (with_key d key now t)
unfolding key_of add_key insert_new with_key
add_key_accepts d key now t h = ground arith

-- While no statement fails, a key is accepted exactly where the device has none yet or has that one.
pub bind_device_key_accepts :
    (d key : String) (now : ℤ) (c : Conn Tables)
    → c.poisoned ≡ false
    → c.faults ≡ []
    → ((bind_device_key d key now c).0 ≡ ok tt)
      ↔ ((key_of d c.tables ≡ none) ⊎ (key_of d c.tables ≡ some key))
unfolding bind_device_key
bind_device_key_accepts d key now c h f = (
  λ e. ground (arith, add_key_accepts d key now c.tables),
  λ e. ground (arith, add_key_accepts d key now c.tables),
)
