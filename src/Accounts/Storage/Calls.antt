-- ===== src/Accounts/Storage/Calls.antt =====
-- Any sequence of calls of the storage of server/accounts/src/db.rs.
use ankai.Prelude.{ℕ, if◌then◌else◌, String, some, List, [], ◌∷◌, arith}
use ankai.Prelude.Int.{ℤ}
use ankai.Sql.{Conn}
use ankai.Accounts.Storage.{
  Tables, account_key, device_of, register_device, revoke_in, revoke_device, put_recovery_blob,
  active,
}
use ankai.Accounts.Storage.Pins.{Pins, Pins-refl, Pins-trans, update-device_of}
use ankai.Accounts.Storage.Registering.{register_device-Pins}

-- The calls that write.
pub data Call : Type 0 where
  register : (account_id account_key device_id device_key : String) → ℤ → String → ℤ → Call
  revoke : (account_id device_id : String) → ℤ → Call
  put : (account_id : String) → List ℕ → ℤ → Call

unfoldable pub run : Call → Conn Tables → Conn Tables
run (register a k d q at s now) c = (register_device a k d q at s now c).1
run (revoke a d now) c = (revoke_device a d now c).1
run (put a blob now) c = (put_recovery_blob a blob now c).1

unfoldable pub run_all : List Call → Conn Tables → Conn Tables
run_all [] c = c
run_all (call ∷ calls) c = run_all calls (run call c)

revoke_device-Pins :
    (a d : String) (now : ℤ) (c : Conn Tables) → Pins c.tables (revoke_device a d now c).1.tables
unfolding revoke_device revoke_in account_key
revoke_device-Pins a d now c = record {
  device = λ e p h. ground (
    arith,
    update-device_of (λ r. if active a (d, r) then record r { revoked_at_unix = some now } else r) d
        e c.tables (λ r. ground arith) (λ r. ground arith),
  );
  account = λ b k h. ground arith;
}

put_recovery_blob-Pins :
    (a : String) (blob : List ℕ) (now : ℤ) (c : Conn Tables)
    → Pins c.tables (put_recovery_blob a blob now c).1.tables
unfolding put_recovery_blob account_key device_of
put_recovery_blob-Pins a blob now c = record {
  device = λ d p h. ground arith;
  account = λ b k h. ground arith;
}

-- Whatever calls are made afterwards, in any order, and whatever statements fail, a device that is
-- registered keeps its account and its key, and an account its key.
pub registrations-Pins :
    (calls : List Call) (c : Conn Tables) → Pins c.tables (run_all calls c).tables
unfolding run_all run
registrations-Pins [] c = Pins-refl c.tables
registrations-Pins (call ∷ calls) c =
    Pins-trans c.tables (run call c).tables _ (one call) (registrations-Pins calls (run call c))
  where
    one : (call : Call) → Pins c.tables (run call c).tables
    one (register a k d q at s now) = (register_device-Pins a k d q at s now c).0
    one (revoke a d now) = revoke_device-Pins a d now c
    one (put a blob now) = put_recovery_blob-Pins a blob now c
