-- ===== src/Accounts/Storage/Pins.antt =====
-- Registered devices keep their account and key (server/accounts/src/db.rs).
use ankai.Prelude.{
  String, string_discrete, Option-cases, true, false, Bool, none, some, List, ◌≡◌, refl, inl, inr,
  arith,
}
use ankai.Prelude.Dict.{lookup, insert_new, update, lookup-append_new, lookup-update}
use ankai.Prelude.Int.{ℤ}
use ankai.Prelude.Results.{ok}
use ankai.Sql.{Conn}
use ankai.Accounts.Storage.{
  Tables, Registration, account_key, device_of, add_account, refresh_device, add_device,
  store_device, match_account,
}

-- What is registered stays registered.
pub record Pins (s t : Tables) : Type 0 where
  pub device : (d : String) (p : String × String) → device_of d s ≡ some p → device_of d t ≡ some p
  pub account : (a k : String) → account_key a s ≡ some k → account_key a t ≡ some k

pub Pins-refl : (s : Tables) → Pins s s
Pins-refl s = record { device = λ d p h. h; account = λ a k h. h }

pub Pins-trans : (s t u : Tables) → Pins s t → Pins t u → Pins s u
Pins-trans s t u h k = record {
  device = λ d p e. k.device d p (h.device d p e);
  account = λ a q e. k.account a q (h.account a q e);
}

pub update-device_of :
    (f : Registration → Registration) (d e : String) (t : Tables)
    → ((r : Registration) → (f r).account_id ≡ r.account_id)
    → ((r : Registration) → (f r).device_public_key_hex ≡ r.device_public_key_hex)
    → device_of e (record t { devices = update string_discrete d f t.devices }) ≡ device_of e t
unfolding device_of
update-device_of f d e t same_account same_key =
    elim (Option-cases (lookup string_discrete e t.devices)) [
      | inl h ↦ ground (arith, lookup-update string_discrete e d f t.devices)
      | inr (r, h) ↦
          ground (arith, lookup-update string_discrete e d f t.devices, same_account r, same_key r)
    ]

module _ (account_id key : String) (now : ℤ) (c : Conn Tables) where
  pub match_account-Pins :
      Pins c.tables (match_account account_id key now c).1.tables
      × ((match_account account_id key now c).1.tables.devices ≡ c.tables.devices)
      × (((match_account account_id key now c).0 ≡ ok tt)
          → account_key account_id (match_account account_id key now c).1.tables ≡ some key)
  unfolding match_account add_account insert_new account_key device_of
  match_account-Pins = (
    record {
      device = λ d p h. ground arith;
      account = λ a k h. ground (
        arith,
        lookup-append_new string_discrete a account_id
            (record { account_public_key_hex = key; first_seen_unix = now }) c.tables.accounts,
      );
    },
    ground arith,
    λ h. ground (
      arith,
      lookup-append_new string_discrete account_id account_id
          (record { account_public_key_hex = key; first_seen_unix = now }) c.tables.accounts,
    ),
  )

insert_new-device_of :
    (d e : String) (r : Registration) (t : Tables) (rows : List (String × Registration))
    (p : String × String)
    → insert_new string_discrete d r t.devices ≡ some rows
    → device_of e t ≡ some p
    → device_of e (record t { devices = rows }) ≡ some p
unfolding device_of insert_new
insert_new-device_of d e r t rows p h k =
    ground (arith, lookup-append_new string_discrete e d r t.devices)

insert_new_made :
    (d : String) (r : Registration) (t : Tables) (rows : List (String × Registration))
    → insert_new string_discrete d r t.devices ≡ some rows
    → device_of d (record t { devices = rows }) ≡ some (r.account_id, r.device_public_key_hex)
unfolding device_of insert_new
insert_new_made d r t rows h = ground (arith, lookup-append_new string_discrete d d r t.devices)

module _ (account_id d key : String) (at : ℤ) (signature : String) (c : Conn Tables) where
  abbrev made : Registration
  made = record {
    account_id = account_id;
    device_public_key_hex = key;
    signed_at_unix = at;
    signature_hex = signature;
    revoked_at_unix = none;
  }

  refreshed : Registration → Registration
  refreshed r = record r { signed_at_unix = at; signature_hex = signature; revoked_at_unix = none }

  pub store_device_frame :
      (refresh : Bool)
      → (store_device refresh account_id d key at signature c).1.tables.accounts ≡ c.tables.accounts
  unfolding store_device add_device refresh_device
  store_device_frame refresh = ground arith

  pub store_device_device :
      (refresh : Bool) (e : String) (p : String × String)
      → device_of e c.tables ≡ some p
      → device_of e (store_device refresh account_id d key at signature c).1.tables ≡ some p
  unfolding store_device add_device refresh_device
  store_device_device true e p h = ground (
    arith,
    update-device_of
        (λ r. record r { signed_at_unix = at; signature_hex = signature; revoked_at_unix = none }) d
        e c.tables (λ r. refl) (λ r. refl),
  )
  store_device_device false e p h =
      elim (Option-cases (insert_new string_discrete d made c.tables.devices)) [
        | inl k ↦ ground arith
        | inr (rows, k) ↦ ground (arith, insert_new-device_of d e made c.tables rows p k h)
      ]

  pub store_device_made :
      (store_device false account_id d key at signature c).0 ≡ ok tt
      → device_of d (store_device false account_id d key at signature c).1.tables
        ≡ some (account_id, key)
  unfolding store_device add_device
  store_device_made h = elim (Option-cases (insert_new string_discrete d made c.tables.devices)) [
    | inl k ↦ absurd (ground arith)
    | inr (rows, k) ↦ ground (arith, insert_new_made d made c.tables rows k)
  ]
