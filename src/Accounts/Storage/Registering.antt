-- ===== src/Accounts/Storage/Registering.antt =====
-- register_device of server/accounts/src/db.rs, and any sequence of calls of the storage.
use ankai.Prelude.{
  String, string_discrete, Bool-cases, Option-cases, true, false, Bool, some, ◌≡◌, ◌≢◌, refl, ◌⊎◌,
  inl, inr, arith,
}
use ankai.Prelude.Int.{ℤ}
use ankai.Prelude.Results.{Result, ok, Result-cases}
use ankai.Sql.{Conn, ◌>>◌, step, now_fails}
use ankai.Accounts.Storage.{
  Tables, account_key, device_of, store_device, match_account, register_device, RegisterDeviceError,
}
use ankai.Accounts.Storage.Pins.{
  Pins, Pins-refl, match_account-Pins, store_device_frame, store_device_device, store_device_made,
}

account_kept :
    (s t : Tables)
    → t.accounts ≡ s.accounts
    → (a k : String) → account_key a s ≡ some k
    → account_key a t ≡ some k
unfolding account_key
account_kept s t e a k h = ground arith

module _ (account_id key d device_key : String) (at : ℤ) (signature : String) (now : ℤ)
    (c : Conn Tables) where
  abbrev matched : Conn Tables
  matched = (match_account account_id key now c).1

  -- What follows the test of the device.
  abbrev rest : Bool → Result RegisterDeviceError (Unit {0}) × Conn Tables
  rest refresh =
      (match_account account_id key now
          >> store_device refresh account_id d device_key at signature)
        c

  rest-Pins : (refresh : Bool) → Pins c.tables (rest refresh).1.tables
  rest-Pins refresh =
      let (pins, devices, made) = match_account-Pins account_id key now c in
      elim (Result-cases (match_account account_id key now c).0) [
        | inl (e, failed) ↦
            let same : (rest refresh).1.tables ≡ matched.tables = ground arith in rw same pins
        | inr (u, matches) ↦
            let same : (rest refresh).1.tables
                ≡ (store_device refresh account_id d device_key at signature matched).1.tables =
              ground arith in
            let accounts =
              store_device_frame account_id d device_key at signature matched refresh in
            rw same (record {
              device = λ e p h.
                  store_device_device account_id d device_key at signature matched refresh e p
                    (pins.device e p h);
              account = λ a k h. account_kept matched.tables _ accounts a k (pins.account a k h);
            })
      ]

  rest_account :
      (refresh : Bool)
      → (rest refresh).0 ≡ ok tt
      → account_key account_id (rest refresh).1.tables ≡ some key
  rest_account refresh h = elim (Result-cases (match_account account_id key now c).0) [
    | inl (e, failed) ↦ absurd (ground arith)
    | inr (u, matches) ↦
        let same : (rest refresh).1.tables
            ≡ (store_device refresh account_id d device_key at signature matched).1.tables =
          ground arith in
        rw same (
          account_kept matched.tables _
            (store_device_frame account_id d device_key at signature matched refresh) account_id key
            ((match_account-Pins account_id key now c).2 matches))
  ]

  rest_device :
      (rest false).0 ≡ ok tt → device_of d (rest false).1.tables ≡ some (account_id, device_key)
  rest_device h = elim (Result-cases (match_account account_id key now c).0) [
    | inl (e, failed) ↦ absurd (ground arith)
    | inr (u, matches) ↦
        let same : (rest false).1.tables
            ≡ (store_device false account_id d device_key at signature matched).1.tables =
          ground arith in
        rw same (store_device_made account_id d device_key at signature matched (ground arith))
  ]

module _ (account_id key d device_key : String) (at : ℤ) (signature : String) (now : ℤ)
    (c : Conn Tables) where
  abbrev registered : Result RegisterDeviceError (Unit {0}) × Conn Tables
  registered = register_device account_id key d device_key at signature now c

  -- The ways that a registration goes: refused with nothing changed, the refresh of the device that is
  -- known under the same account and key, or the registration of one that is not read.
  register_device_cases :
      ((registered.1.tables ≡ c.tables) × ((u : Unit {0}) → registered.0 ≢ ok u))
      ⊎ ((refresh : Bool) × (registered
            ≡ rest account_id key d device_key at signature now (step c) refresh)
          × (refresh ≡ true → device_of d c.tables ≡ some (account_id, device_key)))
  unfolding register_device
  register_device_cases = elim (Bool-cases c.poisoned) [
    | inl e ↦ inl (ground arith, λ u h. ground arith)
    | inr e ↦ elim (Option-cases (device_of d c.tables)) [
      | inl absent ↦ inr (false, ground arith, λ h. absurd (cc))
      | inr ((a, k), there) ↦ elim (Bool-cases (now_fails c.faults)) [
        | inl fails ↦ inr (false, ground arith, λ h. absurd (cc))
        | inr works ↦ elim (string_discrete a account_id) [
          | no other ↦ inl (ground arith, λ u h. ground arith)
          | yes same_account ↦ elim (string_discrete k device_key) [
            | no other ↦ inl (ground arith, λ u h. ground arith)
            | yes same_key ↦ inr (true, ground arith, λ h. ground arith)
          ]
        ]
      ]
    ]
  ]

  -- Whatever statements fail, a registration changes neither the account or key of any device that is
  -- registered, nor the key of any account; and after a success the device has this account and
  -- key, and the account its key.
  pub register_device-Pins :
      Pins c.tables registered.1.tables
      × ((registered.0 ≡ ok tt)
          → (device_of d registered.1.tables ≡ some (account_id, device_key))
            × (account_key account_id registered.1.tables ≡ some key))
  register_device-Pins = elim register_device_cases [
    | inl (same, refused) ↦ (rw same (Pins-refl c.tables), λ h. absurd (refused tt h))
    | inr (refresh, e, known) ↦
        let pins : Pins c.tables registered.1.tables =
          rw e (rest-Pins account_id key d device_key at signature now (step c) refresh) in
        (
          pins,
          λ h. (
            device_after refresh e known pins h,
            rw e (
                rest_account account_id key d device_key at signature now (step c) refresh
                  (ground arith)),
          ),
        )
  ]
    where
      device_after :
          (refresh : Bool)
          → registered ≡ rest account_id key d device_key at signature now (step c) refresh
          → (refresh ≡ true → device_of d c.tables ≡ some (account_id, device_key))
          → Pins c.tables registered.1.tables
          → registered.0 ≡ ok tt
          → device_of d registered.1.tables ≡ some (account_id, device_key)
      device_after true e known pins h = pins.device d (account_id, device_key) (known refl)
      device_after false e known pins h =
          rw e (rest_device account_id key d device_key at signature now (step c) (ground arith))
