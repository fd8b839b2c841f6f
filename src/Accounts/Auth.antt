-- ===== src/Accounts/Auth.antt =====
-- server/accounts/src/auth.rs: requests signed with the account's root key. The headers, the timestamp
-- and the freshness test are those of the directory server, which the code repeats.
pub mod Verify
use ankai.Prelude.{
  ℕ, String, utf8, Bool, true, false, not, ◌==◌, length, Option, none, some, List, [], ◌∷◌, ◌++◌,
  if◌then◌else◌,
}
use ankai.Prelude.Int.{ℤ}
use ankai.Prelude.Results.{Result, ok, err, ◌>>=◌, ◌>>◌, guard, ok_or}
use ankai.Util.{done, panic, decode_hex}
use ankai.Directory.Auth.{Ed25519, print_i64, parse_i64, is_stale, find_header}
use ankai.Accounts.Registration.{derive_account_id, is_text}

abbrev pub account_pubkey_header : String
account_pubkey_header = "x-ankai-account-pubkey"

abbrev pub timestamp_header : String
timestamp_header = "x-ankai-timestamp"

abbrev pub signature_header : String
signature_header = "x-ankai-signature"

pub data AuthError : Type 0 where
  malformed_header : String → AuthError
  stale_timestamp bad_signature account_id_mismatch : AuthError

-- How a call ends that does not return a value.
pub data Stop : Type 0 where
  error : AuthError → Stop
  panicked : Stop

unfoldable pub signing_message :
    (method path account_id : String) → (timestamp : ℤ) → (body : List ℕ) → List ℕ
signing_message method path account_id timestamp body =
    utf8 method
    ++ (b'\n'
        ∷ (utf8 path
            ++ (b'\n' ∷ (utf8 account_id ++ (b'\n' ∷ (print_i64 timestamp ++ (b'\n' ∷ body)))))))

pub record VerifiedRequest : Type 0 where
  pub account_public_key : List ℕ

abbrev header : List (String × String) → String → Result Stop String
header headers name = ok_or (find_header name headers) (error (malformed_header name))

unfoldable pub decode_array : String → ℕ → String → Result Stop (List ℕ)
decode_array name size value = elim (decode_hex (utf8 value)) [
  | done (some bytes) ↦
      if length bytes == size then ok bytes else err (error (malformed_header name))
  | done none ↦ err (error (malformed_header name))
  | panic ↦ err panicked
]

module _ (ed : Ed25519) (blake3 : List ℕ → List ℕ) where
  unfoldable pub parse_and_verify :
      List (String × String)
      → (method path account_id : String) → (body : List ℕ) → (now : ℤ)
      → Result Stop VerifiedRequest
  parse_and_verify headers method path account_id body now = do
    pubkey_hex ← header headers account_pubkey_header
    timestamp_str ← header headers timestamp_header
    signature_hex ← header headers signature_header
    pubkey ← decode_array account_pubkey_header 32 pubkey_hex
    guard (is_text (derive_account_id blake3 pubkey) account_id) (error account_id_mismatch)
    timestamp ← ok_or (parse_i64 (utf8 timestamp_str)) (error (malformed_header timestamp_header))
    guard (not (is_stale timestamp now)) (error stale_timestamp)
    signature ← decode_array signature_header 64 signature_hex
    guard (ed.valid_key pubkey) (error (malformed_header account_pubkey_header))
    guard
        (ed.verify_strict pubkey (signing_message method path account_id timestamp body) signature)
        (error bad_signature)
    ok (record { account_public_key = pubkey })
