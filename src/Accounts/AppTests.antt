-- ===== src/Accounts/AppTests.antt =====
-- The account server's handlers on concrete inputs.
use ankai.Prelude.{
  ℕ, String, string_discrete, utf8, same_codes, eq_ignore_ascii_case, true, false, ◌==◌, Option,
  none, some, List, [], ◌∷◌, ◌≡◌, refl, ◌⊎◌,
}
use ankai.Prelude.Dict.{lookup, insert, insert_new, update}
use ankai.Prelude.Int.{pos, ◌-ℤ◌, ◌+ℤ◌}
use ankai.Prelude.Results.{ok}
use ankai.Sql.{Conn}
use ankai.Util.{
  encode_hex_text, decode_hex, decode_pairs, is_continuation, starts_inside, from_str_radix,
  two_digits, digit_value, cons_byte,
}
use ankai.Directory.Auth.{Ed25519, abs_i64, wrap_i64, find_header, parse_i64, print_i64, is_stale}
use ankai.Directory.App.{Headers, header_pairs}
use ankai.Accounts.Registration.{
  derive_account_id, registration_signing_message, verify_device_registration,
}
use ankai.Accounts.Auth.{parse_and_verify, signing_message, decode_array}
use ankai.Accounts.Storage
use ankai.Accounts.Storage.{
  Tables, device_of, revocable, register_device, match_account, store_device, add_account,
  account_key, refresh_device, revoke_in,
}
use ankai.Accounts.App.{
  AddDeviceRequest, add_device, revoke_device, put_recovery_blob, get_recovery_blob, revoke_path,
  recovery_blob_path, decode_key, is_old, no_content,
}
use ankai.Accounts.App.Handlers.{
  FromRoot, IsRegistered, revoke_device-FromRoot, add_device-IsRegistered, recovery_blob-read_back,
}

-- A scheme in which a signature starts with the message's first byte, and a hash that is the message.
abbrev first : List ℕ → ℕ
first [] = 256
first (b ∷ bs) = b

abbrev toy : Ed25519
toy = record {
  valid_key = λ key. true;
  verify_strict = λ key message signature. first message == first signature;
}

abbrev same : List ℕ → List ℕ
same bytes = bytes

abbrev account : String
account = "aaaaaaaaaaaaaaaaaaaaaaaaaaaaaaaa"

abbrev sent : String → Headers
sent signature =
    (
      "X-Ankai-Account-Pubkey",
      some "aaaaaaaaaaaaaaaaaaaaaaaaaaaaaaaaaaaaaaaaaaaaaaaaaaaaaaaaaaaaaaaa",
    )
    ∷ ("x-ankai-timestamp", some "1000")
    ∷ ("x-ankai-signature", some signature)
    ∷ []

abbrev post : Headers
post =
    sent
      "50000000000000000000000000000000000000000000000000000000000000000000000000000000000000000000000000000000000000000000000000000000"

abbrev fetch : Headers
fetch =
    sent
      "47000000000000000000000000000000000000000000000000000000000000000000000000000000000000000000000000000000000000000000000000000000"

abbrev registered : Conn Tables
registered = record {
  tables = record {
    accounts =
        (
          account,
          record {
            account_public_key_hex =
                "aaaaaaaaaaaaaaaaaaaaaaaaaaaaaaaaaaaaaaaaaaaaaaaaaaaaaaaaaaaaaaaa";
            first_seen_unix = pos 1;
          },
        )
        ∷ [];
    devices =
        (
          "dev",
          record {
            account_id = account;
            device_public_key_hex = "0102";
            signed_at_unix = pos 1;
            signature_hex = "00";
            revoked_at_unix = none;
          },
        )
        ∷ [];
    recovery_blobs = [];
  };
  faults = [];
  poisoned = false;
}

verifying : Unit {0}
unfolding parse_and_verify find_header eq_ignore_ascii_case same_codes utf8 decode_array decode_hex
    parse_i64 is_stale wrap_i64 abs_i64 signing_message print_i64 header_pairs ◌-ℤ◌ ◌+ℤ◌
    decode_pairs is_continuation starts_inside from_str_radix two_digits digit_value cons_byte
    derive_account_id encode_hex_text string_discrete revoke_path recovery_blob_path
verifying = tt

revoke_device-FromRoot_example :
    (((revoke_device toy same account "dev" post [] (pos 1100) registered).1.tables
        ≡ registered.tables)
      ⊎ FromRoot toy same "POST" (revoke_path account "dev") account post [] (pos 1100))
    × (((revoke_device toy same account "dev" post [] (pos 1100) registered).0 ≡ ok no_content)
        → FromRoot toy same "POST" (revoke_path account "dev") account post [] (pos 1100)
          × (revocable account "dev" registered.tables ≡ true)
          × (revocable account "dev"
                (revoke_device toy same account "dev" post [] (pos 1100) registered).1.tables
              ≡ false))
revoke_device-FromRoot_example =
    revoke_device-FromRoot toy same account "dev" post [] (pos 1100) registered

revoked : (revoke_device toy same account "dev" post [] (pos 1100) registered).0 ≡ ok no_content
unfolding verifying revoke_device Storage.revoke_device revoke_in revocable lookup update
revoked = refl

abbrev read : List ℕ → Option AddDeviceRequest
read body = some (record {
  account_public_key_hex = "aaaaaaaaaaaaaaaaaaaaaaaaaaaaaaaaaaaaaaaaaaaaaaaaaaaaaaaaaaaaaaaa";
  registration = record {
    account = account;
    device = "dev2";
    device_public_key = 1 ∷ 2 ∷ [];
    signed_at_unix = pos 1000;
    signature =
        97 ∷ 0 ∷ 0 ∷ 0 ∷ 0 ∷ 0 ∷ 0 ∷ 0 ∷ 0 ∷ 0 ∷ 0 ∷ 0 ∷ 0 ∷ 0 ∷ 0 ∷ 0 ∷ 0 ∷ 0 ∷ 0 ∷ 0 ∷ 0 ∷ 0 ∷ 0
        ∷ 0 ∷ 0 ∷ 0 ∷ 0 ∷ 0 ∷ 0 ∷ 0 ∷ 0 ∷ 0 ∷ 0 ∷ 0 ∷ 0 ∷ 0 ∷ 0 ∷ 0 ∷ 0 ∷ 0 ∷ 0 ∷ 0 ∷ 0 ∷ 0 ∷ 0 ∷ 0
        ∷ 0 ∷ 0 ∷ 0 ∷ 0 ∷ 0 ∷ 0 ∷ 0 ∷ 0 ∷ 0 ∷ 0 ∷ 0 ∷ 0 ∷ 0 ∷ 0 ∷ 0 ∷ 0 ∷ 0 ∷ 0 ∷ [];
  };
})

add_device-IsRegistered_example :
    (((add_device toy same read account [] (pos 1100) registered).1.tables ≡ registered.tables)
      ⊎ ((r : AddDeviceRequest) × IsRegistered toy same read account [] (pos 1100) r))
    × (((add_device toy same read account [] (pos 1100) registered).0 ≡ ok no_content)
        → (r : AddDeviceRequest) × (made : IsRegistered toy same read account [] (pos 1100) r)
          × (derive_account_id same made.key ≡ account)
          × (device_of r.registration.device
                (add_device toy same read account [] (pos 1100) registered).1.tables
              ≡ some (account, encode_hex_text r.registration.device_public_key)))
add_device-IsRegistered_example =
    add_device-IsRegistered toy same read account [] (pos 1100) registered

added : (add_device toy same read account [] (pos 1100) registered).0 ≡ ok no_content
unfolding verifying add_device decode_key is_old verify_device_registration
    registration_signing_message register_device match_account store_device device_of account_key
    add_account refresh_device Storage.add_device lookup insert_new update
added = refl

recovery_blob-read_back_example :
    (get_recovery_blob toy same account fetch
      (pos 1200)
      (put_recovery_blob toy same account post (7 ∷ 8 ∷ []) (pos 1100) registered).1).0
    ≡ ok (7 ∷ 8 ∷ [])
unfolding verifying put_recovery_blob Storage.put_recovery_blob insert
recovery_blob-read_back_example =
    recovery_blob-read_back toy same account post fetch (7 ∷ 8 ∷ []) (pos 1100) (pos 1200)
      registered
      (record {
        account_public_key =
            170 ∷ 170 ∷ 170 ∷ 170 ∷ 170 ∷ 170 ∷ 170 ∷ 170 ∷ 170 ∷ 170 ∷ 170 ∷ 170 ∷ 170 ∷ 170 ∷ 170
            ∷ 170 ∷ 170 ∷ 170 ∷ 170 ∷ 170 ∷ 170 ∷ 170 ∷ 170 ∷ 170 ∷ 170 ∷ 170 ∷ 170 ∷ 170 ∷ 170
            ∷ 170 ∷ 170 ∷ 170 ∷ [];
      })
      refl refl refl
