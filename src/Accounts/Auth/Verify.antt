-- ===== src/Accounts/Auth/Verify.antt =====
-- Which requests `parse_and_verify` of server/accounts/src/auth.rs accepts.
use ankai.Prelude.{
  ℕ, String, utf8, Option-cases, true, false, length, some, List, ◌≡◌, inl, inr, arith,
}
use ankai.Prelude.Int.{ℤ}
use ankai.Prelude.Results.{Result-cases, ok}
use ankai.Util.{done, decode_hex}
use ankai.Directory.Auth.{Ed25519, find_header, parse_i64, is_stale}
use ankai.Accounts.Registration.{derive_account_id}
use ankai.Accounts.Auth.{
  VerifiedRequest, parse_and_verify, decode_array, signing_message, account_pubkey_header,
  timestamp_header, signature_header,
}

decode_array-ok :
    (name : String) (size : ℕ) (value : String) {bytes : List ℕ}
    → decode_array name size value ≡ ok bytes
    → (decode_hex (utf8 value) ≡ done (some bytes)) × (length bytes ≡ size)
unfolding decode_array
decode_array-ok name size value h = ground arith

module _ (ed : Ed25519) (blake3 : List ℕ → List ℕ) (headers : List (String × String))
    (method path account_id : String) (body : List ℕ) (now : ℤ) where
  -- What makes a request one of the account's root key `key`, authentic and fresh.
  pub record IsRootSigned (key : List ℕ) : Type 0 where
    pub pubkey_hex : String
    pub timestamp_str : String
    pub timestamp : ℤ
    pub signature_hex : String
    pub signature : List ℕ
    pub pubkey_sent : find_header account_pubkey_header headers ≡ some pubkey_hex
    pub timestamp_sent : find_header timestamp_header headers ≡ some timestamp_str
    pub signature_sent : find_header signature_header headers ≡ some signature_hex
    pub pubkey_read : decode_hex (utf8 pubkey_hex) ≡ done (some key)
    pub pubkey_size : length key ≡ 32
    pub certified : derive_account_id blake3 key ≡ account_id
    pub timestamp_read : parse_i64 (utf8 timestamp_str) ≡ some timestamp
    pub fresh : is_stale timestamp now ≡ false
    pub signature_read : decode_hex (utf8 signature_hex) ≡ done (some signature)
    pub signature_size : length signature ≡ 64
    pub valid : ed.valid_key key ≡ true
    pub verified :
        ed.verify_strict key (signing_message method path account_id timestamp body) signature
        ≡ true

  -- A request that is accepted is signed, freshly, over the method, the path, the account id, the
  -- timestamp and the body, under a key of 32 bytes whose hash is the account id.
  pub parse_and_verify-IsRootSigned :
      (v : VerifiedRequest)
      → parse_and_verify ed blake3 headers method path account_id body now ≡ ok v
      → IsRootSigned v.account_public_key
  unfolding parse_and_verify
  parse_and_verify-IsRootSigned v h =
      elim (Option-cases (find_header account_pubkey_header headers)) [
        | inl e1 ↦ absurd (ground arith)
        | inr (pubkey_hex, e1) ↦ elim (Option-cases (find_header timestamp_header headers)) [
          | inl e2 ↦ absurd (ground arith)
          | inr (timestamp_str, e2) ↦ elim (Option-cases (find_header signature_header headers)) [
            | inl e3 ↦ absurd (ground arith)
            | inr (signature_hex, e3) ↦ elim (Option-cases (parse_i64 (utf8 timestamp_str))) [
              | inl e5 ↦ absurd (ground arith)
              | inr (timestamp, e5) ↦
                  elim (Result-cases (decode_array signature_header 64 signature_hex)) [
                    | inl (e, e4) ↦ absurd (ground arith)
                    | inr (signature, e4) ↦
                        let pubkey : decode_array account_pubkey_header 32 pubkey_hex
                            ≡ ok v.account_public_key =
                          ground arith in
                        record {
                          pubkey_hex = pubkey_hex;
                          timestamp_str = timestamp_str;
                          timestamp = timestamp;
                          signature_hex = signature_hex;
                          signature = signature;
                          pubkey_sent = e1;
                          timestamp_sent = e2;
                          signature_sent = e3;
                          pubkey_read = (decode_array-ok _ _ _ pubkey).0;
                          pubkey_size = (decode_array-ok _ _ _ pubkey).1;
                          certified = ground arith;
                          timestamp_read = e5;
                          fresh = ground arith;
                          signature_read = (decode_array-ok _ _ _ e4).0;
                          signature_size = (decode_array-ok _ _ _ e4).1;
                          valid = ground arith;
                          verified = ground arith;
                        }
                  ]
            ]
          ]
        ]
      ]
