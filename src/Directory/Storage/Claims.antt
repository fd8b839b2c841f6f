-- ===== src/Directory/Storage/Claims.antt =====
-- When `claim_username` of server/directory/src/db.rs succeeds, and what a failure between its two
-- writes leaves behind.
use ankai.Prelude.{String, true, false, none, some, [], ◌∷◌, ◌≡◌, ◌≢◌, ◌⊎◌, ◌↔◌, arith, Bool, List}
use ankai.Prelude.Int.{ℤ}
use ankai.Prelude.Results.{ok, err}
use ankai.Sql.{Conn, SqlError}
use ankai.Directory.Username.{IsUsername}
use ankai.Directory.Storage.{Tables, owner_of, free_names, claim_username, storage, sqlite}
use ankai.Directory.Storage.Names.{
  IsFair, owner_of-free_names, add_claim_lem, IsUsername-of_ok, ok_of_IsUsername,
}

-- While no statement fails, a claim succeeds exactly where the name is a username that nobody owns
-- yet, or that the device owns itself.
pub claim_username_accepts :
    (d name : String) (now : ℤ) (c : Conn Tables)
    → IsFair c.tables
    → c.poisoned ≡ false
    → c.faults ≡ []
    → ((claim_username d name now c).0 ≡ ok tt)
      ↔ (IsUsername name × ((owner_of name c.tables ≡ none) ⊎ (owner_of name c.tables ≡ some d)))
unfolding claim_username
claim_username_accepts d name now c h healthy steady = (
  λ e. (IsUsername-of_ok name (ground arith), ground arith),
  λ v. ground (
    arith,
    ok_of_IsUsername name v.0,
    add_claim_lem name d now (free_names d c.tables),
    owner_of-free_names d name c.tables h.distinct,
  ),
)

-- The release of the device's old name and the new claim are two statements with no transaction: if
-- the second fails, the call fails and the device owns no name any more.
pub claim_username_loses :
    (d name : String) (now : ℤ) (c : Conn Tables) (fs : List Bool)
    → IsFair c.tables
    → IsUsername name
    → c.poisoned ≡ false
    → c.faults ≡ false ∷ false ∷ true ∷ fs
    → owner_of name c.tables ≡ none
    → ((claim_username d name now c).0 ≡ err (storage (sqlite SqlError.sqlite)))
      × ((a : String) → owner_of a (claim_username d name now c).1.tables ≢ some d)
unfolding claim_username
claim_username_loses d name now c fs h v healthy failing free = (
  ground (arith, ok_of_IsUsername name v),
  λ a p. ground (arith, ok_of_IsUsername name v, owner_of-free_names d a c.tables h.distinct),
)
