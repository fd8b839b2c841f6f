-- ===== src/Accounts/App/Handlers.antt =====
-- Who may change what through the handlers of server/accounts/src/app.rs.
use ankai.Prelude.{
  ℕ, utf8, ◌≢◌, String, string_discrete, Bool-cases, true, false, Option-cases, none, some, List,
  [], ◌≡◌, refl, ◌⊎◌, inl, inr, arith, Option,
}
use ankai.Prelude.Dict.{lookup-insert}
use ankai.Prelude.Int.{ℤ}
use ankai.Prelude.Results.{ok, Result-cases}
use ankai.Sql.{Conn}
use ankai.Util.{Decoded, done, panic, decode_hex, encode_hex_text}
use ankai.Directory.Auth.{Ed25519}
use ankai.Directory.App.{Headers, header_pairs}
use ankai.Accounts.Registration.{DeviceRegistration, derive_account_id, verify_device_registration}
use ankai.Accounts.Auth.{VerifiedRequest, parse_and_verify}
use ankai.Accounts.Auth.Verify.{IsRootSigned, parse_and_verify-IsRootSigned}
use ankai.Accounts.Storage
use ankai.Accounts.Storage.{
  Tables, Store, RegisterDeviceError, device_of, account_key, revocable, register_device,
}
use ankai.Accounts.Storage.Registering.{register_device-Pins}
use ankai.Accounts.Storage.Revoking.{revoke_device_deactivates}
use ankai.Accounts.App.{
  AddDeviceRequest, add_device, revoke_device, put_recovery_blob, get_recovery_blob, revoke_path,
  recovery_blob_path, decode_key, is_old, no_content,
}

Decoded-cases :
    (d : Decoded) → ((d ≡ panic) ⊎ (d ≡ done none)) ⊎ ((bytes : List ℕ) × (d ≡ done (some bytes)))
Decoded-cases panic = inl (inl refl)
Decoded-cases (done none) = inl (inr refl)
Decoded-cases (done (some bytes)) = inr (bytes, refl)

module _ (ed : Ed25519) (blake3 : List ℕ → List ℕ) where
  -- A request signed by the root key of the account.
  abbrev pub FromRoot : (method path account_id : String) → Headers → List ℕ → ℤ → Type 0
  FromRoot method path account_id headers body now =
      (key : List ℕ) × IsRootSigned ed blake3 (header_pairs headers) method path account_id body now
        key

  -- A revocation succeeds only for a request signed by the account's root key over the path of this
  -- device; the device was an active one of the account, and is not any more. Where the request is
  -- not signed so, nothing changes.
  pub revoke_device-FromRoot :
      (account_id device_id : String) (headers : Headers) (body : List ℕ) (now : ℤ)
      (c : Conn Tables)
      → (((revoke_device ed blake3 account_id device_id headers body now c).1.tables ≡ c.tables)
          ⊎ FromRoot "POST" (revoke_path account_id device_id) account_id headers body now)
        × (((revoke_device ed blake3 account_id device_id headers body now c).0 ≡ ok no_content)
            → FromRoot "POST" (revoke_path account_id device_id) account_id headers body now
              × (revocable account_id device_id c.tables ≡ true)
              × (revocable account_id device_id
                    (revoke_device ed blake3 account_id device_id headers body now c).1.tables
                  ≡ false))
  unfolding revoke_device
  revoke_device-FromRoot a d headers body now c =
      elim (Result-cases
        (parse_and_verify ed blake3 (header_pairs headers) "POST" (revoke_path a d) a body now)) [
          | inl (e, refused) ↦ (inl (ground arith), λ h. absurd (ground arith))
          | inr (v, accepted) ↦
              let signed : FromRoot "POST" (revoke_path a d) a headers body now = (
                v.account_public_key,
                parse_and_verify-IsRootSigned ed blake3 (header_pairs headers) "POST"
                    (revoke_path a d) a body now v accepted,
              ) in
              (
                inr signed,
                λ h. elim (revoke_device_deactivates a d now c) [
                  | inl (same, failed) ↦ absurd (ground (arith, failed true))
                  | inr (told, gone, others) ↦ (signed, ground arith, ground arith)
                ],
              )
        ]

  -- A body that is a registration for the account, fresh and valid under a key whose hash is its id.
  pub record IsRegistered (read : List ℕ → Option AddDeviceRequest) (account_id : String)
      (body : List ℕ) (now : ℤ) (request : AddDeviceRequest) : Type 0 where
    pub key : List ℕ
    pub sent : read body ≡ some request
    pub key_read : decode_hex (utf8 request.account_public_key_hex) ≡ done (some key)
    pub for_account : request.registration.account ≡ account_id
    pub valid : verify_device_registration ed blake3 request.registration key ≡ true
    pub fresh : is_old request.registration.signed_at_unix now ≡ false

  abbrev stored : String → ℤ → AddDeviceRequest → Store RegisterDeviceError (Unit {0})
  stored account_id now r =
      register_device account_id r.account_public_key_hex r.registration.device
        (encode_hex_text r.registration.device_public_key) r.registration.signed_at_unix
        (encode_hex_text r.registration.signature) now

  add_device_cases :
      (read : List ℕ → Option AddDeviceRequest) (account_id : String) (body : List ℕ) (now : ℤ)
      (c : Conn Tables)
      → (((add_device ed blake3 read account_id body now c).1.tables ≡ c.tables)
          × ((n : ℕ) → (add_device ed blake3 read account_id body now c).0 ≢ ok n))
        ⊎ ((r : AddDeviceRequest) × IsRegistered read account_id body now r
            × ((add_device ed blake3 read account_id body now c).1 ≡ (stored account_id now r c).1)
            × (((add_device ed blake3 read account_id body now c).0 ≡ ok no_content)
                → (stored account_id now r c).0 ≡ ok tt))
  unfolding add_device decode_key
  add_device_cases read a body now c = elim (Option-cases (read body)) [
    | inl e ↦ inl (ground arith, λ n h. ground arith)
    | inr (r, e) ↦ elim (string_discrete r.registration.account a) [
      | no other ↦ inl (ground arith, λ n h. ground arith)
      | yes same ↦ elim (Decoded-cases (decode_hex (utf8 r.account_public_key_hex))) [
        | inl bad ↦ inl (ground arith, λ n h. ground arith)
        | inr (key, k) ↦
            elim (Bool-cases (verify_device_registration ed blake3 r.registration key)) [
              | inr invalid ↦ inl (ground arith, λ n h. ground arith)
              | inl valid ↦ elim (Bool-cases (is_old r.registration.signed_at_unix now)) [
                | inl old ↦ inl (ground arith, λ n h. ground arith)
                | inr fresh ↦ elim (Result-cases (stored a now r c).0) [
                  | inl (x, failed) ↦ inr (
                    r,
                    record {
                      key = key;
                      sent = e;
                      key_read = k;
                      for_account = same;
                      valid = valid;
                      fresh = fresh;
                    },
                    ground arith,
                    λ h. absurd (ground arith),
                  )
                  | inr (u, done_) ↦ inr (
                    r,
                    record {
                      key = key;
                      sent = e;
                      key_read = k;
                      for_account = same;
                      valid = valid;
                      fresh = fresh;
                    },
                    ground arith,
                    λ h. done_,
                  )
                ]
              ]
            ]
      ]
    ]
  ]

  certified :
      (r : DeviceRegistration) (key : List ℕ)
      → verify_device_registration ed blake3 r key ≡ true
      → r.account ≡ derive_account_id blake3 key
  unfolding verify_device_registration
  certified r key h = ground arith

  -- A device is registered only with a fresh registration for this account that verifies under a key
  -- whose hash is the account id, and it then has the account and the key of the registration.
  -- Where there is no such registration in the body, nothing changes.
  pub add_device-IsRegistered :
      (read : List ℕ → Option AddDeviceRequest) (account_id : String) (body : List ℕ) (now : ℤ)
      (c : Conn Tables)
      → (((add_device ed blake3 read account_id body now c).1.tables ≡ c.tables)
          ⊎ ((r : AddDeviceRequest) × IsRegistered read account_id body now r))
        × (((add_device ed blake3 read account_id body now c).0 ≡ ok no_content)
            → (r : AddDeviceRequest) × (registered : IsRegistered read account_id body now r)
              × (derive_account_id blake3 registered.key ≡ account_id)
              × (device_of r.registration.device
                    (add_device ed blake3 read account_id body now c).1.tables
                  ≡ some (account_id, encode_hex_text r.registration.device_public_key)))
  add_device-IsRegistered read a body now c = elim (add_device_cases read a body now c) [
    | inl (same, failed) ↦ (inl same, λ h. absurd (failed no_content h))
    | inr (r, registered, after, succeeds) ↦ (
      inr (r, registered),
      λ h.
          let made =
            register_device-Pins a r.account_public_key_hex r.registration.device
              (encode_hex_text r.registration.device_public_key) r.registration.signed_at_unix
              (encode_hex_text r.registration.signature) now c in
          let known = (made.1 (succeeds h)).0 in
          (
            r,
            registered,
            ground (
              arith,
              certified r.registration registered.key registered.valid,
              registered.for_account,
            ),
            rw after known,
          ),
    )
  ]

  -- What was stored as the recovery blob is what a signed request reads, while no statement fails.
  pub recovery_blob-read_back :
      (account_id : String) (headers later : Headers) (body : List ℕ) (now then_ : ℤ)
      (c : Conn Tables) (v : VerifiedRequest)
      → c.faults ≡ []
      → (put_recovery_blob ed blake3 account_id headers body now c).0 ≡ ok no_content
      → parse_and_verify ed blake3
          (header_pairs later)
          "GET"
          (recovery_blob_path account_id)
          account_id
          []
          then_
        ≡ ok v
      → (get_recovery_blob ed blake3 account_id later then_
          (put_recovery_blob ed blake3 account_id headers body now c).1).0
        ≡ ok body
  unfolding put_recovery_blob get_recovery_blob Storage.put_recovery_blob Storage.get_recovery_blob
  recovery_blob-read_back a headers later body now then_ c v quiet stored_ok accepted =
      elim (Result-cases (
        parse_and_verify ed blake3 (header_pairs headers) "PUT" (recovery_blob_path a) a body
          now)) [
            | inl (e, refused) ↦ absurd (ground arith)
            | inr (w, signed) ↦ ground (
              arith,
              lookup-insert string_discrete a a (record { bytes = body; updated_at_unix = now })
                  c.tables.recovery_blobs,
            )
          ]
