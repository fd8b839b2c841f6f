-- ===== src/Accounts/Tests.antt =====
-- The account server's storage on concrete inputs.
use ankai.Prelude.{List, some, string_discrete, true, false, [], ◌∷◌, ◌≡◌, refl}
use ankai.Prelude.Dict.{lookup, insert_new, update}
use ankai.Prelude.Int.{pos}
use ankai.Sql.{Conn}
use ankai.Accounts.Storage.{
  Tables, account_key, device_of, revocable, register_device, revoke_device, match_account,
  store_device, add_account, add_device, refresh_device, revoke_in,
}
use ankai.Accounts.Storage.Pins.{Pins}
use ankai.Accounts.Storage.Revoking.{register_device_revives}
use ankai.Accounts.Storage.Calls.{Call, run, run_all, registrations-Pins}

abbrev empty : Conn Tables
empty = record {
  tables = record { accounts = []; devices = []; recovery_blobs = [] };
  faults = [];
  poisoned = false;
}

setup : Conn Tables
unfolding run_all
setup =
    run_all
      (Call.register "acc" "key" "dev" "devkey" (pos 5) "sig" (pos 6)
        ∷ Call.revoke "acc" "dev" (pos 9)
        ∷ [])
      empty

storing : Unit {0}
unfolding setup run_all run register_device revoke_device match_account store_device add_account
    add_device refresh_device revoke_in revocable account_key device_of lookup insert_new update
    string_discrete
storing = tt

-- The device is registered for another account, the account under another key, and the device is revoked.
abbrev attempts : List Call
attempts =
    Call.register "other" "key2" "dev" "devkey" (pos 10) "sig2" (pos 11)
    ∷ Call.register "acc" "key3" "dev2" "devkey2" (pos 10) "sig3" (pos 11)
    ∷ Call.revoke "acc" "dev" (pos 12)
    ∷ []

setup_has :
    (device_of "dev" setup.tables ≡ some ("acc", "devkey"))
    × (account_key "acc" setup.tables ≡ some "key")
unfolding storing
setup_has = (refl, refl)

registrations-Pins_example : Pins setup.tables (run_all attempts setup).tables
registrations-Pins_example = registrations-Pins attempts setup

still_there : device_of "dev" (run_all attempts setup).tables ≡ some ("acc", "devkey")
still_there = (registrations-Pins attempts setup).device "dev" ("acc", "devkey") setup_has.0

setup_lem : revocable "acc" "dev" setup.tables ≡ false
unfolding storing
setup_lem = refl

register_device_revives_example :
    revocable "acc" "dev"
      (register_device "acc" "key" "dev" "devkey" (pos 5) "sig" (pos 12) setup).1.tables
    ≡ true
unfolding storing
register_device_revives_example =
    register_device_revives "acc" "key" "dev" "devkey" (pos 5) "sig" (pos 12) setup refl refl refl
      refl
