-- ===== src/Directory/Storage/Names.antt =====
-- The ownership of usernames, `claim_username` of server/directory/src/db.rs.
use mathlib.Core.Logic.{ite}
use ankai.Prelude.{
  String, string_discrete, not, Option, none, some, [], ◌∷◌, ◌++◌, ◌≡◌, refl, ◌≢◌, ◌⊎◌, ◌↔◌, inl,
  inr, arith,
}
use ankai.Prelude.Dict.{
  lookup, insert_new, Distinct, lookup-append_new, lookup-keep, lookup-update, keep-Distinct,
  update-Distinct, append_new-Distinct,
}
use ankai.Prelude.Int.{ℤ}
use ankai.Prelude.Results.{Result, ok}
use ankai.Sql.{Conn}
use ankai.Directory.Username.{IsUsername, validate, validate_cases}
use ankai.Directory.Storage.{
  Tables, Claim, owner_of, touch_claim, free_names, add_claim, claim_username, is_text,
  ClaimUsernameError,
}

-- A name has one row, and a device at most one name, which is a username.
pub record IsFair (t : Tables) : Type 0 where
  pub distinct : Distinct string_discrete t.usernames
  pub single : (a b d : String) → owner_of a t ≡ some d → owner_of b t ≡ some d → a ≡ b
  pub proper : (a d : String) → owner_of a t ≡ some d → IsUsername a

owner_of-touch_claim :
    (name j : String) (now : ℤ) (t : Tables) → owner_of j (touch_claim name now t) ≡ owner_of j t
unfolding owner_of touch_claim
owner_of-touch_claim name j now t = ground (
  arith,
  lookup-update string_discrete j name (λ c. record c { claimed_at_unix = now }) t.usernames,
)

-- The owner, but for one device.
abbrev other_than : String → Option String → Option String
other_than d none = none
other_than d (some e) = ite (string_discrete e d) none (some e)

pub owner_of-free_names :
    (d j : String) (t : Tables)
    → Distinct string_discrete t.usernames
    → owner_of j (free_names d t) ≡ other_than d (owner_of j t)
unfolding owner_of free_names
owner_of-free_names d j t h = ground (
  arith,
  lookup-keep string_discrete (λ (e : String × Claim). not (is_text e.1.device_id d)) j t.usernames,
)

unfoldable pub with_claim : String → String → ℤ → Tables → Tables
with_claim name d now t = record t {
  usernames = t.usernames ++ (name, record { device_id = d; claimed_at_unix = now }) ∷ [];
}

pub add_claim_lem :
    (name d : String) (now : ℤ) (t : Tables)
    → ((owner_of name t ≢ none) × (add_claim name d now t ≡ none))
      ⊎ ((owner_of name t ≡ none) × (add_claim name d now t ≡ some (with_claim name d now t)))
unfolding owner_of add_claim insert_new with_claim
add_claim_lem name d now t = ground arith

owner_of-with_claim :
    (name d j : String) (now : ℤ) (t : Tables)
    → owner_of name t ≡ none
    → owner_of j (with_claim name d now t) ≡ ite (string_discrete name j) (some d) (owner_of j t)
unfolding owner_of with_claim
owner_of-with_claim name d j now t h = ground (
  arith,
  lookup-append_new string_discrete j name (record { device_id = d; claimed_at_unix = now })
      t.usernames,
)

-- What a call may leave behind.
abbrev pub Left :
    String → String → ℤ → Tables → Result ClaimUsernameError (Unit {0}) → Tables → Type 0
Left name d now t r u =
    ((r ≢ ok tt) × (u ≡ t))
    ⊎ (((r ≢ ok tt) × (u ≡ free_names d t))
        ⊎ (((r ≡ ok tt)
              × (validate name ≡ ok tt)
              × (owner_of name t ≡ some d)
              × (u ≡ touch_claim name now t))
            ⊎ ((r ≡ ok tt)
                × (validate name ≡ ok tt)
                × (owner_of name (free_names d t) ≡ none)
                × (u ≡ with_claim name d now (free_names d t)))))

pub claim_username-Left :
    (d name : String) (now : ℤ) (c : Conn Tables)
    → Left name d now c.tables
        (claim_username d name now c).0
        (claim_username d name now c).1.tables
unfolding claim_username
claim_username-Left d name now c = ground (arith, add_claim_lem name d now (free_names d c.tables))

touch_claim-IsFair :
    (name : String) (now : ℤ) {t : Tables} → IsFair t → IsFair (touch_claim name now t)
unfolding touch_claim
touch_claim-IsFair name now {t} h = record {
  distinct = update-Distinct string_discrete name _ t.usernames h.distinct;
  single = λ a b d p q.
      h.single a b d (ground (arith, owner_of-touch_claim name a now t))
        (ground (arith, owner_of-touch_claim name b now t));
  proper = λ a d p. h.proper a d (ground (arith, owner_of-touch_claim name a now t));
}

pub owned_before :
    (d a e : String) {t : Tables}
    → IsFair t
    → owner_of a (free_names d t) ≡ some e
    → (owner_of a t ≡ some e) × (e ≢ d)
owned_before d a e {t} h p =
    let q = owner_of-free_names d a t h.distinct in (ground arith, λ same. ground arith)

free_names-IsFair : (d : String) {t : Tables} → IsFair t → IsFair (free_names d t)
unfolding free_names
free_names-IsFair d {t} h = record {
  distinct = keep-Distinct string_discrete _ t.usernames h.distinct;
  single = λ a b e p q. h.single a b e (owned_before d a e h p).0 (owned_before d b e h q).0;
  proper = λ a e p. h.proper a e (owned_before d a e h p).0;
}

absent_of_unowned :
    (name : String) (t : Tables)
    → owner_of name t ≡ none
    → lookup string_discrete name t.usernames ≡ none
unfolding owner_of
absent_of_unowned name t h = ground arith

-- A claim by a device that holds no name.
with_claim-IsFair :
    (name d : String) (now : ℤ) {t : Tables}
    → IsFair t
    → owner_of name t ≡ none
    → ((a : String) → owner_of a t ≢ some d)
    → IsUsername name
    → IsFair (with_claim name d now t)
unfolding with_claim
with_claim-IsFair name d now {t} h absent unnamed valid = record {
  distinct =
      append_new-Distinct string_discrete name _ t.usernames (absent_of_unowned name t absent)
        h.distinct;
  single = λ a b e p q. ground (
    arith,
    owner_of-with_claim name d a now t absent,
    owner_of-with_claim name d b now t absent,
    h.single a b e,
    unnamed a,
    unnamed b,
  );
  proper = λ a e p. ground (arith, owner_of-with_claim name d a now t absent, h.proper a e);
}

pub IsUsername-of_ok : (name : String) → validate name ≡ ok tt → IsUsername name
IsUsername-of_ok name h = elim (validate_cases name) [ inl v ↦ v.1 | inr v ↦ absurd (ground arith) ]

pub ok_of_IsUsername : (name : String) → IsUsername name → validate name ≡ ok tt
ok_of_IsUsername name v = elim (validate_cases name) [ inl w ↦ w.0 | inr w ↦ absurd (w.1 v) ]

-- Whatever statements fail, a claim keeps the names fair: each name has one owner, each device at
-- most one name, and every name is a username.
pub claim_username-IsFair :
    (d name : String) (now : ℤ) (c : Conn Tables)
    → IsFair c.tables
    → IsFair (claim_username d name now c).1.tables
claim_username-IsFair d name now c h = elim (claim_username-Left d name now c) [
  | inl same ↦ rw same.1 h
  | inr (inl freed) ↦ rw freed.1 (free_names-IsFair d h)
  | inr (inr (inl touched)) ↦ rw touched.3 (touch_claim-IsFair name now h)
  | inr (inr (inr claimed)) ↦ rw claimed.3 (
      with_claim-IsFair name d now (free_names-IsFair d h) claimed.2
        (λ a p. (owned_before d a d h p).1 refl) (IsUsername-of_ok name claimed.1))
]

-- Whatever statements fail, a claim leaves the names of all other devices as they are, and after a
-- success the device owns the name, which is a username.
pub claim_username-owner :
    (d name : String) (now : ℤ) (c : Conn Tables)
    → IsFair c.tables
    → ((a e : String)
        → e ≢ d
        → (owner_of a (claim_username d name now c).1.tables ≡ some e)
          ↔ (owner_of a c.tables ≡ some e))
      × (((claim_username d name now c).0 ≡ ok tt)
          → (owner_of name (claim_username d name now c).1.tables ≡ some d) × IsUsername name)
claim_username-owner d name now c h = (
  λ a e ne. (
    λ p. ground (
      arith,
      claim_username-Left d name now c,
      owner_of-touch_claim name a now t,
      owner_of-free_names d a t h.distinct,
      owner_of-with_claim name d a now (free_names d t),
    ),
    λ p. ground (
      arith,
      claim_username-Left d name now c,
      owner_of-touch_claim name a now t,
      owner_of-free_names d a t h.distinct,
      owner_of-with_claim name d a now (free_names d t),
    ),
  ),
  λ e. (
    ground (
      arith,
      claim_username-Left d name now c,
      owner_of-touch_claim name name now t,
      owner_of-with_claim name d name now (free_names d t),
    ),
    IsUsername-of_ok name (ground (arith, claim_username-Left d name now c)),
  ),
)
  where
    t : Tables
    t = c.tables
