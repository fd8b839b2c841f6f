-- ===== src/Directory/Auth.antt =====
-- server/directory/src/auth.rs: requests signed with the device's key. The signature scheme is a
-- parameter. Arithmetic on `i64` wraps, as in a release build.
pub mod Skew
pub mod Message
pub mod Verify
use ankai.Prelude.{
  ℕ, zero, suc, ◌+◌, ◌-◌, ◌*◌, ◌/◌, ◌%◌, ◌^◌, String, utf8, eq_ignore_ascii_case, Bool, true, false,
  not, ◌&&◌, ◌||◌, ◌==◌, ltb, leb, length, Option, none, some, List, [], ◌∷◌, ◌++◌, if◌then◌else◌,
}
use ankai.Prelude.Int.{ℤ, pos, negsuc, ◌+ℤ◌, ◌-ℤ◌, ltb_ℤ, neg_part, pos_part}
use ankai.Prelude.Results.{Result, ok, err, ◌>>=◌, ◌>>◌, guard, ok_or}
use ankai.Util.{Decoded, done, panic, decode_hex}
use ankai.Directory.Storage.{AuthError, malformed_header, stale_timestamp, bad_signature}

abbrev pub timestamp_skew_secs : ℤ
timestamp_skew_secs = pos 300

abbrev pub device_pubkey_header : String
device_pubkey_header = "x-ankai-device-pubkey"

abbrev pub timestamp_header : String
timestamp_header = "x-ankai-timestamp"

abbrev pub signature_header : String
signature_header = "x-ankai-signature"

-- ed25519_dalek: which 32 bytes are a key, and which signatures `verify_strict` accepts.
pub record Ed25519 : Type 0 where
  pub valid_key : List ℕ → Bool
  pub verify_strict : (key message signature : List ℕ) → Bool

-- The digits of a number below 10 ^ fuel, before `out`.
unfoldable pub digits : ℕ → ℕ → List ℕ → List ℕ
digits zero n out = out
digits (suc fuel) n out =
    let rest = digits fuel (n / 10) ((b'0' + n % 10) ∷ out) in
    if ltb n 10 then (b'0' + n) ∷ out else rest

-- `{timestamp}` of an `i64`, which has at most 19 digits.
unfoldable pub print_i64 : ℤ → List ℕ
unfolding digits
print_i64 (pos n) = digits 20 n []
print_i64 (negsuc n) = b'-' ∷ digits 20 (suc n) []

unfoldable pub parse_digits : List ℕ → ℕ → Option ℕ
parse_digits [] n = some n
parse_digits (c ∷ s) n =
    let rest = parse_digits s (n * 10 + (c - b'0')) in
    if leb b'0' c && leb c b'9' then rest else none

unfoldable pub in_range : Bool → Option ℕ → Option ℤ
in_range negative none = none
in_range true (some n) =
    if leb n (2 ^ 63) then some (if n == 0 then pos 0 else negsuc (n - 1)) else none
in_range false (some n) = if ltb n (2 ^ 63) then some (pos n) else none

unfoldable pub signed_digits : Bool → List ℕ → Option ℤ
signed_digits negative [] = none
signed_digits negative (c ∷ s) = in_range negative (parse_digits (c ∷ s) 0)

-- `str::parse::<i64>`.
unfoldable pub parse_i64 : List ℕ → Option ℤ
unfolding parse_digits in_range signed_digits
parse_i64 [] = none
parse_i64 (c ∷ s) =
    if c == b'-'
    then signed_digits true s
    else if c == b'+'
    then signed_digits false s
    else signed_digits false (c ∷ s)

-- The sum or difference of two `i64`, wrapped.
unfoldable pub wrap_i64 : ℤ → ℤ
wrap_i64 z =
    if ltb_ℤ z (negsuc (2 ^ 63 - 1))
    then z +ℤ pos (2 ^ 64)
    else if ltb_ℤ z (pos (2 ^ 63))
    then z
    else z -ℤ pos (2 ^ 64)

-- `i64::abs`, which leaves the least `i64` as it is.
unfoldable pub abs_i64 : ℤ → ℤ
abs_i64 z = wrap_i64 (pos (pos_part z + neg_part z))

unfoldable pub is_stale : ℤ → ℤ → Bool
is_stale timestamp now = ltb_ℤ timestamp_skew_secs (abs_i64 (wrap_i64 (timestamp -ℤ now)))

unfoldable pub signing_message :
    (method path device_id : String) (timestamp : ℤ) (body : List ℕ) → List ℕ
signing_message method path device_id timestamp body =
    utf8 method
    ++ (b'\n'
        ∷ (utf8 path
            ++ (b'\n' ∷ (utf8 device_id ++ (b'\n' ∷ (print_i64 timestamp ++ (b'\n' ∷ body)))))))

pub record SignedRequest : Type 0 where
  pub pubkey_hex : String
  pub pubkey : List ℕ
  pub timestamp : ℤ

-- How a call ends that does not return a value.
pub data Stop : Type 0 where
  error : AuthError → Stop
  panicked : Stop

unfoldable pub find_header : String → List (String × String) → Option String
find_header name [] = none
find_header name ((k, v) ∷ headers) =
    if eq_ignore_ascii_case k name then some v else find_header name headers

abbrev header : List (String × String) → String → Result Stop String
header headers name = ok_or (find_header name headers) (error (malformed_header name))

-- Decoding the hexadecimal value of a header to an array of a fixed size.
unfoldable pub decode_array : String → ℕ → String → Result Stop (List ℕ)
decode_array name size value = elim (decode_hex (utf8 value)) [
  | done (some bytes) ↦
      if length bytes == size then ok bytes else err (error (malformed_header name))
  | done none ↦ err (error (malformed_header name))
  | panic ↦ err panicked
]

module _ (ed : Ed25519) where
  unfoldable pub parse_and_verify :
      List (String × String)
      → (method path device_id : String) → (body : List ℕ) → (now : ℤ) → Result Stop SignedRequest
  parse_and_verify headers method path device_id body now = do
    pubkey_hex ← header headers device_pubkey_header
    timestamp_str ← header headers timestamp_header
    signature_hex ← header headers signature_header
    pubkey ← decode_array device_pubkey_header 32 pubkey_hex
    timestamp ← ok_or (parse_i64 (utf8 timestamp_str)) (error (malformed_header timestamp_header))
    guard (not (is_stale timestamp now)) (error stale_timestamp)
    signature ← decode_array signature_header 64 signature_hex
    guard (ed.valid_key pubkey) (error (malformed_header device_pubkey_header))
    guard (ed.verify_strict pubkey (signing_message method path device_id timestamp body) signature)
        (error bad_signature)
    ok (record { pubkey_hex = pubkey_hex; pubkey = pubkey; timestamp = timestamp })
