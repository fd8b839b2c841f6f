-- ===== src/Directory/App/Publish.antt =====
-- Who may publish: the handlers of server/directory/src/app.rs behind `authenticate`.
use ankai.Prelude.{
  ℕ, String, Option, some, List, [], ◌∷◌, ◌++◌, ◌≡◌, ◌≢◌, ◌⊎◌, refl, Option-cases, inl, inr, arith,
}
use ankai.Prelude.Int.{ℤ}
use ankai.Prelude.Results.{ok, err, Result-cases}
use ankai.Sql.{Conn}
use ankai.Directory.Auth.{Ed25519, SignedRequest, parse_and_verify}
use ankai.Directory.Auth.Verify.{IsAuthentic, parse_and_verify_iff}
use ankai.Directory.Storage.{Tables, Store, insert_key_package, key_of, device_key_mismatch}
use ankai.Directory.Storage.Keys.{
  bind_device_key-Pins, bind_device_key_rejects, bind_device_key_frame,
}
use ankai.Directory.Storage.Packages.{insert_key_package_adds, insert_key_package_fails}
use ankai.Directory.App.{
  Failure, username_path, claim_username, status, no_content, endpoint_addr_path,
  publish_endpoint_addr, Headers, Codec, api, auth, authenticate, header_pairs, publish_key_package,
  key_packages_path,
}

module _ (ed : Ed25519) (method path d : String) (headers : Headers) (body : List ℕ) (now : ℤ)
    (c : Conn Tables) where
  authenticate-ok :
      (authenticate ed method path d headers body now c).0 ≡ ok tt
      → (r : SignedRequest) × IsAuthentic ed (header_pairs headers) method path d body now r
        × (key_of d (authenticate ed method path d headers body now c).1.tables ≡ some r.pubkey_hex)
  unfolding authenticate
  authenticate-ok h =
      elim (Result-cases (parse_and_verify ed (header_pairs headers) method path d body now)) [
        | inl (e, refused) ↦ absurd (ground arith)
        | inr (r, accepted) ↦ (
          r,
          (parse_and_verify_iff ed (header_pairs headers) method path d body now r).0 accepted,
          ground (arith, bind_device_key-Pins d r.pubkey_hex now c),
        )
      ]

  authenticate_frame :
      ((authenticate ed method path d headers body now c).1.tables.key_packages
        ≡ c.tables.key_packages)
      × ((authenticate ed method path d headers body now c).1.tables.next_id ≡ c.tables.next_id)
  unfolding authenticate
  authenticate_frame =
      elim (Result-cases (parse_and_verify ed (header_pairs headers) method path d body now)) [
        | inl (e, refused) ↦ (ground arith, ground arith)
        | inr (r, accepted) ↦ (
          ground (arith, bind_device_key_frame d r.pubkey_hex now c),
          ground (arith, bind_device_key_frame d r.pubkey_hex now c),
        )
      ]

  authenticate_impostor :
      (r : SignedRequest) (bound : String)
      → parse_and_verify ed (header_pairs headers) method path d body now ≡ ok r
      → key_of d c.tables ≡ some bound
      → bound ≢ r.pubkey_hex
      → ((authenticate ed method path d headers body now c).0
          ≡ err (api (auth device_key_mismatch)))
        × ((authenticate ed method path d headers body now c).1.tables ≡ c.tables)
  unfolding authenticate
  authenticate_impostor r bound accepted h ne = (
    ground (arith, bind_device_key_rejects d r.pubkey_hex bound now c),
    ground (arith, bind_device_key_rejects d r.pubkey_hex bound now c),
  )

module _ (ed : Ed25519) {P : Type 0} (codec : Codec P) (d : String) (headers : Headers)
    (body : List ℕ) (now : ℤ) (c : Conn Tables) where
  abbrev pub Published : Type 0
  Published =
      (r : SignedRequest) × IsAuthentic ed (header_pairs headers) "POST" (key_packages_path d) d
        body now r
      × (key_of d (publish_key_package ed codec d headers body now c).1.tables ≡ some r.pubkey_hex)
      × (p : P) × (codec.from_slice body ≡ some p)
      × (json : String) × (codec.to_string p ≡ some json)
      × ((publish_key_package ed codec d headers body now c).1.tables.key_packages
          ≡ c.tables.key_packages
            ++ record {
              id = c.tables.next_id;
              device_id = d;
              key_package_json = json;
              published_at_unix = now;
            }
              ∷ [])

  published : {n : ℕ} → (publish_key_package ed codec d headers body now c).0 ≡ ok n → Published
  unfolding publish_key_package key_of
  published h =
      let (r, authentic, bound) =
        authenticate-ok ed "POST" (key_packages_path d) d headers body now c (ground arith) in
      let (same, count) = authenticate_frame ed "POST" (key_packages_path d) d headers body now c in
      elim (Option-cases (codec.from_slice body)) [
        | inl bad ↦ absurd (ground arith)
        | inr (p, parsed) ↦ elim (Option-cases (codec.to_string p)) [
          | inl bad ↦ absurd (ground arith)
          | inr (json, printed) ↦
              let added =
                insert_key_package_adds d json now
                  (authenticate ed "POST" (key_packages_path d) d headers body now c).1 in
              (r, authentic, ground (arith, added), p, parsed, json, printed, ground (arith, added))
        ]
      ]

  answers : {n : ℕ} → (publish_key_package ed codec d headers body now c).0 ≡ ok n → n ≡ no_content
  unfolding publish_key_package
  answers h = ground arith

  -- A request to publish that is refused leaves the key packages as they are.
  publish_refused :
      {e : Failure}
      → (publish_key_package ed codec d headers body now c).0 ≡ err e
      → (publish_key_package ed codec d headers body now c).1.tables.key_packages
        ≡ c.tables.key_packages
  unfolding publish_key_package
  publish_refused h =
      let (same, count) = authenticate_frame ed "POST" (key_packages_path d) d headers body now c in
      let after = (authenticate ed "POST" (key_packages_path d) d headers body now c).1 in
      elim (Option-cases (codec.from_slice body)) [
        | inl bad ↦ ground (arith, same)
        | inr (p, parsed) ↦ elim (Option-cases (codec.to_string p)) [
          | inl bad ↦ ground (arith, same)
          | inr (json, printed) ↦ elim (Result-cases (insert_key_package d json now after).0) [
            | inl (f, failed) ↦
                ground (arith, same, insert_key_package_fails d json now after failed)
            | inr (a, done) ↦ ground (arith, same)
          ]
        ]
      ]

  -- Either the handler answers with an error and the stored key packages are those that were there,
  -- whatever failed; or it answers 204, and then the request is authentic under the key that the
  -- device is bound to, the body is a key package, and one new row holds its canonical text.
  pub publish_key_package-Published :
      ((e : Failure) × ((publish_key_package ed codec d headers body now c).0 ≡ err e)
        × ((publish_key_package ed codec d headers body now c).1.tables.key_packages
            ≡ c.tables.key_packages))
      ⊎ (((publish_key_package ed codec d headers body now c).0 ≡ ok no_content) × Published)
  publish_key_package-Published =
      elim (Result-cases (publish_key_package ed codec d headers body now c).0) [
        | inl (e, failed) ↦ inl (e, failed, publish_refused failed)
        | inr (n, done) ↦ inr (ground (arith, answers done), published done)
      ]

-- What a device publishes, and the path of its route.
pub data Publication : Type 0 where
  key_package endpoint_addr username : Publication

unfoldable pub path_of : Publication → String → String
path_of key_package = key_packages_path
path_of endpoint_addr = endpoint_addr_path
path_of username = username_path

module _ (ed : Ed25519) {P Q : Type 0} (packages : Codec P) (addrs : Codec Q)
    (read_name : List ℕ → Option String) where
  -- The three routes that publish for a device: the handler of each, and its path.
  unfoldable pub handle : Publication → String → Headers → List ℕ → ℤ → Store Failure ℕ
  handle key_package = publish_key_package ed packages
  handle endpoint_addr = publish_endpoint_addr ed addrs
  handle username = claim_username ed read_name

  -- An impostor, whose request to one of the routes that publish is authentic under another key than
  -- the one that the device is bound to, is refused with 403, and changes nothing.
  pub impostor_refused :
      (publication : Publication) (d : String) (headers : Headers) (body : List ℕ) (now : ℤ)
      (c : Conn Tables) (r : SignedRequest) (bound : String)
      → key_of d c.tables ≡ some bound
      → bound ≢ r.pubkey_hex
      → parse_and_verify ed (header_pairs headers) "POST" (path_of publication d) d body now ≡ ok r
      → ((handle publication d headers body now c).0 ≡ err (api (auth device_key_mismatch)))
        × ((handle publication d headers body now c).1.tables ≡ c.tables)
        × (status (auth device_key_mismatch) ≡ 403)
  unfolding handle path_of publish_key_package publish_endpoint_addr claim_username status
  impostor_refused key_package d headers body now c r bound h n p =
      let refused =
        authenticate_impostor ed "POST" (key_packages_path d) d headers body now c r bound p h n in
      (ground arith, ground arith, refl)
  impostor_refused endpoint_addr d headers body now c r bound h n p =
      let refused =
        authenticate_impostor ed "POST" (endpoint_addr_path d) d headers body now c r bound p h n in
      (ground arith, ground arith, refl)
  impostor_refused username d headers body now c r bound h n p =
      let refused =
        authenticate_impostor ed "POST" (username_path d) d headers body now c r bound p h n in
      (ground arith, ground arith, refl)
