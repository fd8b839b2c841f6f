-- ===== src/Directory/Tests.antt =====
-- The directory server on concrete inputs.
use ankai.Prelude.{
  ℕ, ◌+◌, ◌^◌, String, utf8, string_discrete, same_codes, eq_ignore_ascii_case, length, Bool, true,
  false, ◌==◌, none, some, List, [], ◌∷◌, map, not, keep, ◌≡◌, ◌≢◌, refl, ◌↔◌, ◌⊎◌, inl, arith,
}
use ankai.Prelude.Int.{pos, ◌-ℤ◌, ◌+ℤ◌, ◌≤ℤ◌}
use ankai.Prelude.Dict.{lookup, insert, insert_new, update}
use ankai.Prelude.Results.{Result, ok, err}
use ankai.Sql.{Conn, SqlError}
use ankai.Util.{
  decode_hex, decode_pairs, is_continuation, starts_inside, from_str_radix, two_digits, digit_value,
  cons_byte,
}
use ankai.Directory.Username.{validate, IsUsername}
use ankai.Directory.Auth.{
  decode_array, abs_i64, wrap_i64, Ed25519, SignedRequest, parse_and_verify, parse_i64, print_i64,
  find_header, signing_message, is_stale,
}
use ankai.Directory.Auth.Skew.{is_stale_iff}
use ankai.Directory.Auth.Message.{signing_message-injective}
use ankai.Directory.Auth.Verify.{IsAuthentic, parse_and_verify_iff}
use ankai.Directory.Storage.{
  Tables, insert_key_package, delete_rows, add_key, add_claim, touch_claim, free_names, add_package,
  key_of, owner_of, bind_device_key, take_key_packages, claim_username, of_device, storage, sqlite,
  PackageRow, device_key_mismatch,
}
use ankai.Directory.Storage.Names.{claim_username-owner}
use ankai.Directory.Storage.Claims.{claim_username_loses}
use ankai.Directory.Storage.Packages.{live, take_key_packages_consumes}
use ankai.Directory.Storage.Calls.{Call, run, run_all, IsSound, run_all-IsSound, run_all-Pins}
use ankai.Directory.App.{
  Failure, Codec, Headers, api, auth, status, header_pairs, authenticate, publish_key_package,
}
use ankai.Directory.App.Publish.{
  publish_key_package-Published, impostor_refused, Published, Publication, handle,
}

abbrev empty : Tables
empty = record {
  device_keys = [];
  key_packages = [];
  next_id = 1;
  endpoint_addrs = [];
  usernames = [];
}

abbrev fresh : Conn Tables
fresh = record { tables = empty; faults = []; poisoned = false }

-- Two devices with keys, a name and packages.
abbrev busy : Tables
busy = record {
  device_keys =
      ("d1", record { public_key_hex = "aabb"; first_seen_unix = pos 100 })
      ∷ ("d2", record { public_key_hex = "ccdd"; first_seen_unix = pos 110 })
      ∷ [];
  key_packages =
      record { id = 1; device_id = "d1"; key_package_json = "kp1"; published_at_unix = pos 100 }
      ∷ record { id = 2; device_id = "d2"; key_package_json = "kp2"; published_at_unix = pos 105 }
      ∷ record { id = 3; device_id = "d1"; key_package_json = "kp3"; published_at_unix = pos 150 }
      ∷ [];
  next_id = 4;
  endpoint_addrs = [];
  usernames = ("ash", record { device_id = "d1"; claimed_at_unix = pos 100 }) ∷ [];
}

abbrev server : List Bool → Conn Tables
server faults = record { tables = busy; faults = faults; poisoned = false }

ash : IsUsername "ash"
ash = record {
  long_enough = omega arith;
  short_enough = omega arith;
  allowed = (
    inl (omega arith, omega arith),
    (inl (omega arith, omega arith), (inl (omega arith, omega arith), tt)),
  );
}

program : Unit {0}
unfolding run bind_device_key insert_key_package take_key_packages claim_username delete_rows key_of
    add_key add_claim touch_claim free_names add_package owner_of run_all lookup insert insert_new
    update string_discrete validate
program = tt

abbrev setup : List Call
setup =
    Call.bind "d1" "aabb" (pos 100)
    ∷ Call.bind "d2" "ccdd" (pos 110)
    ∷ Call.claim "d1" "ash" (pos 100)
    ∷ Call.publish "d1" "kp1" (pos 100)
    ∷ Call.publish "d2" "kp2" (pos 105)
    ∷ Call.publish "d1" "kp3" (pos 150)
    ∷ []

empty-IsSound : IsSound empty
unfolding program
empty-IsSound = record {
  fair = record { distinct = tt; single = λ a b d p q. cc; proper = λ a d p. cc };
  numbered = record { below = tt; ids = tt };
}

setup_lem : (run_all setup fresh).tables ≡ busy
unfolding program
setup_lem = refl

busy-IsSound : IsSound busy
unfolding program
busy-IsSound = run_all-IsSound setup fresh empty-IsSound

run_all-IsSound_example : IsSound (run_all setup fresh).tables
run_all-IsSound_example = run_all-IsSound setup fresh empty-IsSound

-- The second statement of the first call fails.
run_all-Pins_example : key_of "d1" (run_all setup (server (false ∷ true ∷ []))).tables ≡ some "aabb"
unfolding program
run_all-Pins_example = run_all-Pins setup (server (false ∷ true ∷ [])) "d1" "aabb" refl

claim_username-owner_example :
    ((a e : String)
      → e ≢ "d2"
      → (owner_of a (claim_username "d2" "ash" (pos 9) (server [])).1.tables ≡ some e)
        ↔ (owner_of a busy ≡ some e))
    × (((claim_username "d2" "ash" (pos 9) (server [])).0 ≡ ok tt)
        → (owner_of "ash" (claim_username "d2" "ash" (pos 9) (server [])).1.tables ≡ some "d2")
          × IsUsername "ash")
claim_username-owner_example = claim_username-owner "d2" "ash" (pos 9) (server []) busy-IsSound.fair

misty : IsUsername "misty"
misty = record {
  long_enough = omega arith;
  short_enough = omega arith;
  allowed = (
    inl (omega arith, omega arith),
    (
      inl (omega arith, omega arith),
      (
        inl (omega arith, omega arith),
        (inl (omega arith, omega arith), (inl (omega arith, omega arith), tt)),
      ),
    ),
  );
}

claim_username_loses_example :
    ((claim_username "d1" "misty" (pos 9) (server (false ∷ false ∷ true ∷ []))).0
      ≡ err (storage (sqlite SqlError.sqlite)))
    × ((a : String)
        → owner_of a
            (claim_username "d1" "misty" (pos 9) (server (false ∷ false ∷ true ∷ []))).1.tables
          ≢ some "d1")
unfolding program
claim_username_loses_example =
    claim_username_loses "d1" "misty" (pos 9) (server (false ∷ false ∷ true ∷ [])) []
      busy-IsSound.fair misty refl refl refl

take_key_packages_consumes_example :
    (◌≡◌ {A = List String} ("kp3" ∷ []) (
      map
        (λ (r : PackageRow). r.key_package_json)
        (keep (live "d1" (pos 200 -ℤ pos 90)) busy.key_packages)))
    × ((take_key_packages "d1" (pos 200) (pos 90) (server [])).1.tables
        ≡ record busy { key_packages = keep (λ r. not (of_device "d1" r)) busy.key_packages })
unfolding program ◌-ℤ◌
take_key_packages_consumes_example =
    take_key_packages_consumes "d1" (pos 200) (pos 90) (server []) busy-IsSound.numbered refl

-- A scheme in which a signature of a message starts with the message's first byte.
abbrev first : List ℕ → ℕ
first [] = 256
first (b ∷ bs) = b

abbrev toy : Ed25519
toy = record {
  valid_key = λ key. true;
  verify_strict = λ key message signature. first message == first signature;
}

abbrev sent : List (String × String)
sent =
    ("X-Ankai-Device-Pubkey", "aaaaaaaaaaaaaaaaaaaaaaaaaaaaaaaaaaaaaaaaaaaaaaaaaaaaaaaaaaaaaaaa")
    ∷ ("x-ankai-timestamp", "1000")
    ∷ (
      "x-ankai-signature",
      "50000000000000000000000000000000000000000000000000000000000000000000000000000000000000000000000000000000000000000000000000000000",
    )
    ∷ []

abbrev signed : SignedRequest
signed = record {
  pubkey_hex = "aaaaaaaaaaaaaaaaaaaaaaaaaaaaaaaaaaaaaaaaaaaaaaaaaaaaaaaaaaaaaaaa";
  pubkey =
      170 ∷ 170 ∷ 170 ∷ 170 ∷ 170 ∷ 170 ∷ 170 ∷ 170 ∷ 170 ∷ 170 ∷ 170 ∷ 170 ∷ 170 ∷ 170 ∷ 170 ∷ 170
      ∷ 170 ∷ 170 ∷ 170 ∷ 170 ∷ 170 ∷ 170 ∷ 170 ∷ 170 ∷ 170 ∷ 170 ∷ 170 ∷ 170 ∷ 170 ∷ 170 ∷ 170
      ∷ 170 ∷ [];
  timestamp = pos 1000;
}

abbrev sent_headers : Headers
sent_headers =
    (
      "X-Ankai-Device-Pubkey",
      some "aaaaaaaaaaaaaaaaaaaaaaaaaaaaaaaaaaaaaaaaaaaaaaaaaaaaaaaaaaaaaaaa",
    )
    ∷ ("x-ankai-timestamp", some "1000")
    ∷ ("accept", none)
    ∷ (
      "x-ankai-signature",
      some
          "50000000000000000000000000000000000000000000000000000000000000000000000000000000000000000000000000000000000000000000000000000000",
    )
    ∷ []

verifying : Unit {0}
unfolding parse_and_verify find_header eq_ignore_ascii_case same_codes utf8 decode_array decode_hex
    parse_i64 is_stale wrap_i64 abs_i64 signing_message print_i64 header_pairs authenticate ◌-ℤ◌
    ◌+ℤ◌ decode_pairs is_continuation starts_inside from_str_radix two_digits digit_value cons_byte
verifying = tt

verified :
    parse_and_verify toy sent "POST" "/v1/devices/d9/key-packages" "d9" [] (pos 1200) ≡ ok signed
unfolding verifying
verified = refl

parse_and_verify_iff_example :
    (parse_and_verify toy sent "POST" "/v1/devices/d9/key-packages" "d9" [] (pos 1200) ≡ ok signed)
    ↔ IsAuthentic toy sent "POST" "/v1/devices/d9/key-packages" "d9" [] (pos 1200) signed
parse_and_verify_iff_example =
    parse_and_verify_iff toy sent "POST" "/v1/devices/d9/key-packages" "d9" [] (pos 1200) signed

short : List (String × String)
short =
    ("x-ankai-device-pubkey", "+f") ∷ ("x-ankai-timestamp", "12") ∷ ("x-ankai-signature", "zz") ∷ []

is_stale_iff_example : (is_stale (pos 1000) (pos 1301) ≡ false) ↔ (
    ((pos 1000 ≤ℤ pos (1301 + 300)) × (pos 1301 ≤ℤ pos 1000 +ℤ pos 300))
    ⊎ (pos 1000 ≡ pos 1301 -ℤ pos (2 ^ 63)))
is_stale_iff_example = is_stale_iff (pos 1000) 1301 (omega arith, omega arith) (omega arith)

-- A codec whose values are the numbers of bytes of a body.
abbrev sizes : Codec ℕ
sizes = record {
  from_slice = λ body. some (length body);
  to_string = λ n. some "size";
  from_str = λ s. none;
}

abbrev publish : Result Failure ℕ × Conn Tables
publish = publish_key_package toy sizes "d9" sent_headers (1 ∷ 2 ∷ []) (pos 1200) (server [])

publish_answer : publish.0 ≡ ok 204
unfolding verifying program publish_key_package
publish_answer = refl

publish_key_package-Published_example :
    ((e : Failure) × (publish.0 ≡ err e) × (publish.1.tables.key_packages ≡ busy.key_packages))
    ⊎ ((publish.0 ≡ ok 204)
        × Published toy sizes "d9" sent_headers (1 ∷ 2 ∷ []) (pos 1200) (server []))
publish_key_package-Published_example =
    publish_key_package-Published toy sizes "d9" sent_headers (1 ∷ 2 ∷ []) (pos 1200) (server [])

impostor_refused_example :
    ((handle toy sizes sizes
        (λ body. some "misty")
        Publication.key_package
        "d1"
        sent_headers
        []
        (pos 1200)
        (server [])).0
      ≡ err (api (auth device_key_mismatch)))
    × ((handle toy sizes sizes
          (λ body. some "misty")
          Publication.key_package
          "d1"
          sent_headers
          []
          (pos 1200)
          (server [])).1.tables
        ≡ busy)
    × (status (auth device_key_mismatch) ≡ 403)
unfolding verifying program
impostor_refused_example =
    impostor_refused toy sizes sizes (λ body. some "misty") Publication.key_package "d1"
      sent_headers [] (pos 1200) (server []) signed "aabb" refl
      (λ p. elim (string_discrete "aabb" signed.pubkey_hex) [ yes q ↦ cc | no q ↦ q p ]) refl

signing_message-injective_example :
    (utf8 "POST" ≡ utf8 "POST")
    × (utf8 "/v1" ≡ utf8 "/v1")
    × (utf8 "d1" ≡ utf8 "d1")
    × (pos 7 ≡ pos 7)
    × (◌≡◌ {A = List ℕ} (10 ∷ []) (10 ∷ []))
unfolding utf8
signing_message-injective_example =
    signing_message-injective "POST" "/v1" "d1" "POST" "/v1" "d1" (pos 7) (pos 7) (10 ∷ [])
      (10 ∷ []) (ground arith, ground arith, ground arith)
      (ground arith, ground arith, ground arith) (omega arith, omega arith)
      (omega arith, omega arith) refl
