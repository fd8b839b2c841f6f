-- ===== src/Directory/Auth/Verify.antt =====
-- Which requests `parse_and_verify` of server/directory/src/auth.rs accepts.
use ankai.Prelude.{
  ℕ, String, utf8, eq_ignore_ascii_case, Bool-cases, Option-cases, true, false, length, some, List,
  [], ◌∷◌, All, ◌≡◌, ◌≢◌, ◌↔◌, inl, inr, arith,
}
use ankai.Prelude.Int.{ℤ}
use ankai.Prelude.Results.{Result-cases, ok, err}
use ankai.Util.RoundTrip.{Ascii, Halves, decode_hex-Halves}
use ankai.Util.{done, panic, decode_hex}
use ankai.Directory.Auth.{
  Ed25519, panicked, SignedRequest, parse_and_verify, find_header, decode_array, parse_i64,
  is_stale, signing_message, device_pubkey_header, timestamp_header, signature_header,
}

decode_array-ok :
    (name : String) (size : ℕ) (value : String) {bytes : List ℕ}
    → decode_array name size value ≡ ok bytes
    → (decode_hex (utf8 value) ≡ done (some bytes)) × (length bytes ≡ size)
unfolding decode_array
decode_array-ok name size value h = ground arith

ok-decode_array :
    (name : String) (size : ℕ) (value : String) (bytes : List ℕ)
    → decode_hex (utf8 value) ≡ done (some bytes)
    → length bytes ≡ size
    → decode_array name size value ≡ ok bytes
unfolding decode_array
ok-decode_array name size value bytes h k = ground arith

module _ (ed : Ed25519) (headers : List (String × String)) (method path device_id : String)
    (body : List ℕ) (now : ℤ) where
  -- What makes a request the one that `r` describes, authentic and fresh.
  pub record IsAuthentic (r : SignedRequest) : Type 0 where
    pub timestamp_str : String
    pub signature_hex : String
    pub signature : List ℕ
    pub pubkey_sent : find_header device_pubkey_header headers ≡ some r.pubkey_hex
    pub timestamp_sent : find_header timestamp_header headers ≡ some timestamp_str
    pub signature_sent : find_header signature_header headers ≡ some signature_hex
    pub pubkey_read : decode_hex (utf8 r.pubkey_hex) ≡ done (some r.pubkey)
    pub pubkey_size : length r.pubkey ≡ 32
    pub timestamp_read : parse_i64 (utf8 timestamp_str) ≡ some r.timestamp
    pub fresh : is_stale r.timestamp now ≡ false
    pub signature_read : decode_hex (utf8 signature_hex) ≡ done (some signature)
    pub signature_size : length signature ≡ 64
    pub key : ed.valid_key r.pubkey ≡ true
    pub verified :
        ed.verify_strict r.pubkey (signing_message method path device_id r.timestamp body) signature
        ≡ true

  sound :
      (r : SignedRequest)
      → parse_and_verify ed headers method path device_id body now ≡ ok r
      → IsAuthentic r
  unfolding parse_and_verify
  sound r h = elim (Option-cases (find_header device_pubkey_header headers)) [
    | inl e1 ↦ absurd (ground arith)
    | inr (pubkey_hex, e1) ↦ elim (Option-cases (find_header timestamp_header headers)) [
      | inl e2 ↦ absurd (ground arith)
      | inr (timestamp_str, e2) ↦ elim (Option-cases (find_header signature_header headers)) [
        | inl e3 ↦ absurd (ground arith)
        | inr (signature_hex, e3) ↦
            elim (Result-cases (decode_array signature_header 64 signature_hex)) [
              | inl (e, e4) ↦ absurd (ground arith)
              | inr (signature, e4) ↦
                  let pubkey : decode_array device_pubkey_header 32 r.pubkey_hex ≡ ok r.pubkey =
                    ground arith in
                  record {
                    timestamp_str = timestamp_str;
                    signature_hex = signature_hex;
                    signature = signature;
                    pubkey_sent = ground arith;
                    timestamp_sent = e2;
                    signature_sent = e3;
                    pubkey_read = (decode_array-ok _ _ _ pubkey).0;
                    pubkey_size = (decode_array-ok _ _ _ pubkey).1;
                    timestamp_read = ground arith;
                    fresh = ground arith;
                    signature_read = (decode_array-ok _ _ _ e4).0;
                    signature_size = (decode_array-ok _ _ _ e4).1;
                    key = ground arith;
                    verified = ground arith;
                  }
            ]
      ]
    ]
  ]

  complete :
      (r : SignedRequest)
      → IsAuthentic r
      → parse_and_verify ed headers method path device_id body now ≡ ok r
  unfolding parse_and_verify
  complete r a = ground (
    arith,
    ok-decode_array device_pubkey_header 32 r.pubkey_hex r.pubkey a.pubkey_read a.pubkey_size,
    ok-decode_array signature_header 64 a.signature_hex a.signature a.signature_read
        a.signature_size,
  )

  -- A request is accepted, as `r`, exactly where its three headers are there and well formed, its
  -- timestamp is fresh, and the signature verifies under the key that it presents, over the
  -- method, the path, the device id, the timestamp and the body.
  pub parse_and_verify_iff :
      (r : SignedRequest)
      → (parse_and_verify ed headers method path device_id body now ≡ ok r) ↔ IsAuthentic r
  parse_and_verify_iff r = (sound r, complete r)

-- A header value as `HeaderValue::to_str` lets it through.
abbrev pub AsciiValues : List (String × String) → Type 0
AsciiValues = All (λ (h : String × String). All Ascii (utf8 h.1))

find_header-Ascii :
    (name : String) (headers : List (String × String)) {v : String}
    → AsciiValues headers
    → find_header name headers ≡ some v
    → All Ascii (utf8 v)
unfolding find_header
find_header-Ascii name [] h e = cc
find_header-Ascii name ((k, w) ∷ headers) {v} h e =
    elim (Bool-cases (eq_ignore_ascii_case k name)) [
      | inl s ↦ let same : w ≡ v = ground arith in rw (← same) h.0
      | inr s ↦ find_header-Ascii name headers h.1 (ground arith)
    ]

decode_hex-ne-panic : (hex : List ℕ) → All Ascii hex → decode_hex hex ≢ panic
decode_hex-ne-panic hex h e =
    let halves : Halves hex panic = rw e at (decode_hex-Halves hex h) in halves

decode_array-ne-panicked :
    (name : String) (size : ℕ) (value : String)
    → All Ascii (utf8 value)
    → decode_array name size value ≢ err panicked
unfolding decode_array
decode_array-ne-panicked name size value h e = ground (arith, decode_hex-ne-panic (utf8 value) h)

-- No request panics, whatever its headers hold, as long as they are ASCII texts.
pub parse_and_verify-ne-panicked :
    (ed : Ed25519) (headers : List (String × String)) (method path device_id : String)
    (body : List ℕ) (now : ℤ)
    → AsciiValues headers
    → parse_and_verify ed headers method path device_id body now ≢ err panicked
unfolding parse_and_verify
parse_and_verify-ne-panicked ed headers method path device_id body now h e =
    elim (Option-cases (find_header device_pubkey_header headers)) [
      | inl e1 ↦ ground arith
      | inr (p, e1) ↦ elim (Option-cases (find_header signature_header headers)) [
        | inl e2 ↦ ground arith
        | inr (s, e2) ↦ ground (
          arith,
          decode_array-ne-panicked device_pubkey_header 32 p
              (find_header-Ascii device_pubkey_header headers h e1),
          decode_array-ne-panicked signature_header 64 s
              (find_header-Ascii signature_header headers h e2),
        )
      ]
    ]
