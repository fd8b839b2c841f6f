-- ===== src/Accounts/Registration.antt =====
-- Device registrations of core/src/account.rs: an account is a key, its id a hash of the key, and it
-- signs its devices. The signature scheme and BLAKE3 are parameters; keys and recovery phrases are
-- not modelled. Of the crate's errors only the failure is kept.
use ankai.Prelude.{
  ℕ, String, string_discrete, utf8, Bool, true, false, ◌&&◌, ◌==◌, length, List, [], ◌∷◌, ◌++◌,
  zero, suc,
}
use ankai.Prelude.Int.{ℤ, pos}
use ankai.Util.{encode_hex_text}
use ankai.Directory.Auth.{Ed25519, print_i64}

abbrev pub registration_skew_secs : ℤ
registration_skew_secs = pos 300

pub record DeviceRegistration : Type 0 where
  pub account : String
  pub device : String
  pub device_public_key : List ℕ
  pub signed_at_unix : ℤ
  pub signature : List ℕ

abbrev pub is_text : String → String → Bool
is_text s t = elim (string_discrete s t) [ yes _ ↦ true | no _ ↦ false ]

abbrev take : ℕ → List ℕ → List ℕ
take zero xs = []
take (suc n) [] = []
take (suc n) (x ∷ xs) = x ∷ take n xs

unfoldable pub registration_signing_message :
    (account device : String) → (device_public_key : List ℕ) → (signed_at_unix : ℤ) → List ℕ
registration_signing_message account device device_public_key signed_at_unix =
    utf8 account
    ++ (b'\n'
        ∷ (utf8 device
            ++ (b'\n'
                ∷ (utf8 (encode_hex_text device_public_key)
                    ++ (b'\n' ∷ print_i64 signed_at_unix)))))

unfoldable pub derive_account_id : (blake3 : List ℕ → List ℕ) → List ℕ → String
derive_account_id blake3 public_key = encode_hex_text (take 16 (blake3 public_key))

module _ (ed : Ed25519) (blake3 : List ℕ → List ℕ) where
  -- Whether the registration is valid under the account's key.
  unfoldable pub verify_device_registration : DeviceRegistration → List ℕ → Bool
  verify_device_registration r account_public_key =
      is_text r.account (derive_account_id blake3 account_public_key)
      && ((length account_public_key == 32 && ed.valid_key account_public_key)
          && (length r.signature == 64
              && ed.verify_strict account_public_key
                  (registration_signing_message r.account r.device r.device_public_key
                    r.signed_at_unix)
                  r.signature))
