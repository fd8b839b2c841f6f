-- ===== src/Accounts/Storage/Revoking.antt =====
-- Revocation of devices in server/accounts/src/db.rs.
use ankai.Prelude.{
  if◌then◌else◌, String, string_discrete, Bool-cases, Option-cases, true, false, Bool, none, some,
  [], ◌≡◌, ◌≢◌, ◌⊎◌, inl, inr, arith,
}
use ankai.Prelude.Dict.{lookup, lookup-update}
use ankai.Prelude.Int.{ℤ}
use ankai.Prelude.Results.{ok}
use ankai.Sql.{Conn, now_fails}
use ankai.Accounts.Storage.{
  Tables, account_key, device_of, store_device, match_account, refresh_device, register_device,
  revoke_in, revocable, revoke_device, active,
}

revocable-revoke_in :
    (account_id d : String) (now : ℤ) (t : Tables)
    → (revocable account_id d (revoke_in account_id d now t) ≡ false)
      × ((a e : String)
          → (e ≢ d) ⊎ (a ≢ account_id)
          → revocable a e (revoke_in account_id d now t) ≡ revocable a e t)
unfolding revocable revoke_in
revocable-revoke_in account_id d now t = (
  ground (
    arith,
    lookup-update string_discrete d d
        (λ r. if active account_id (d, r) then record r { revoked_at_unix = some now } else r)
        t.devices,
  ),
  λ a e h. ground (
    arith,
    lookup-update string_discrete e d
        (λ r. if active account_id (d, r) then record r { revoked_at_unix = some now } else r)
        t.devices,
  ),
)

-- Whatever statements fail: a revocation that succeeds reports whether the device was an active one of
-- the account, which it is not any more, and leaves all other devices of all accounts as they
-- were; one that fails changes nothing.
pub revoke_device_deactivates :
    (account_id d : String) (now : ℤ) (c : Conn Tables)
    → (((revoke_device account_id d now c).1.tables ≡ c.tables)
        × ((b : Bool) → (revoke_device account_id d now c).0 ≢ ok b))
      ⊎ (((revoke_device account_id d now c).0 ≡ ok (revocable account_id d c.tables))
          × (revocable account_id d (revoke_device account_id d now c).1.tables ≡ false)
          × ((a e : String)
              → (e ≢ d) ⊎ (a ≢ account_id)
              → revocable a e (revoke_device account_id d now c).1.tables ≡ revocable a e c.tables))
unfolding revoke_device
revoke_device_deactivates account_id d now c = elim (Bool-cases c.poisoned) [
  | inl e ↦ inl (ground arith, λ b h. ground arith)
  | inr e ↦ elim (Bool-cases (now_fails c.faults)) [
    | inl fails ↦ inl (ground arith, λ b h. ground arith)
    | inr works ↦
        let after : (revoke_device account_id d now c).1.tables
            ≡ revoke_in account_id d now c.tables =
          ground arith in
        let (gone, kept) = revocable-revoke_in account_id d now c.tables in
        inr (ground arith, rw after gone, λ a x h. rw after (kept a x h))
  ]
]

-- While no statement fails, registering a device once more under the account and key that it has makes
-- it active, also where it was revoked: a revocation lasts until the next registration.
pub register_device_revives :
    (account_id key d device_key : String) (at : ℤ) (signature : String) (now : ℤ) (c : Conn Tables)
    → c.faults ≡ []
    → c.poisoned ≡ false
    → device_of d c.tables ≡ some (account_id, device_key)
    → account_key account_id c.tables ≡ some key
    → revocable account_id d
        (register_device account_id key d device_key at signature now c).1.tables
      ≡ true
unfolding register_device match_account store_device refresh_device device_of revocable
register_device_revives account_id key d device_key at signature now c quiet healthy known account =
    elim (Option-cases (lookup string_discrete d c.tables.devices)) [
      | inl e ↦ absurd (ground arith)
      | inr (r, e) ↦
          let after : (register_device account_id key d device_key at signature now c).1.tables
              ≡ refresh_device d at signature c.tables =
            ground arith in
          let same : r.account_id ≡ account_id = ground arith in
          rw after (
            ground (
              arith,
              lookup-update string_discrete d d
                  (λ r. record r {
                    signed_at_unix = at;
                    signature_hex = signature;
                    revoked_at_unix = none;
                  })
                  c.tables.devices,
            ))
    ]
