-- ===== src/Core/Catalog/DiskKept.antt =====
-- What an eviction of the disk tier of core/src/catalog_cache.rs keeps: the row that was read last.
use ankai.Prelude.{
  ℕ, zero, suc, ◌≤◌, ◌<◌, leb, Bool-cases, String, string_discrete, length, All, Option-cases, none,
  some, [], ◌∷◌, ◌≡◌, ◌≢◌, ◌⊎◌, refl, inl, inr, arith,
}
use ankai.Prelude.Dict.{lookup, erase, Distinct, erase-Distinct, lookup-erase, All-erase}
use ankai.Core.Catalog.Disk.{CacheRow, Rows, oldest, delete_oldest}

-- Every row but that of the key was read before the time.
abbrev pub IsOlder : (key : String) (now : ℕ) → String × CacheRow → Type 0
IsOlder key now e = (e.0 ≡ key) ⊎ (e.1.accessed_at < now)

no_oldest : (rows : Rows) → oldest rows ≡ none → rows ≡ []
unfolding oldest
no_oldest [] h = refl
no_oldest ((j, r) ∷ rows) h = absurd (ground arith)

All-below :
    (at before : ℕ) (rows : Rows)
    → at ≤ before
    → All (λ (e : String × CacheRow). before ≤ e.1.accessed_at) rows
    → All (λ (e : String × CacheRow). at ≤ e.1.accessed_at) rows
All-below at before [] le h = tt
All-below at before (e ∷ rows) le h = (omega (arith, h.0), All-below at before rows le h.1)

oldest-le :
    (rows : Rows) (j : String) (at : ℕ)
    → oldest rows ≡ some (j, at)
    → All (λ (e : String × CacheRow). at ≤ e.1.accessed_at) rows
unfolding oldest
oldest-le [] j at h = tt
oldest-le ((i, r) ∷ rows) j at h = elim (Option-cases (oldest rows)) [
  | inl e ↦ let empty = no_oldest rows e in rw empty (ground arith, tt)
  | inr ((i', before), e) ↦
      let least = oldest-le rows i' before e in
      elim (Bool-cases (leb r.accessed_at before)) [
        | inl first ↦ (ground arith, All-below at before rows (ground arith) least)
        | inr not_first ↦ (ground arith, All-below at before rows (ground arith) least)
      ]
]

oldest-lookup :
    (rows : Rows) (j : String) (at : ℕ)
    → Distinct string_discrete rows
    → oldest rows ≡ some (j, at)
    → (r : CacheRow) × (lookup string_discrete j rows ≡ some r) × (r.accessed_at ≡ at)
unfolding oldest lookup
oldest-lookup [] j at s h = absurd (ground arith)
oldest-lookup ((i, r) ∷ rows) j at s h = elim (Option-cases (oldest rows)) [
  | inl e ↦ (r, ground arith, ground arith)
  | inr ((i', before), e) ↦ elim (Bool-cases (leb r.accessed_at before)) [
    | inl first ↦ (r, ground arith, ground arith)
    | inr not_first ↦
        let (q, there, its) = oldest-lookup rows i' before s.1 e in (q, ground arith, ground arith)
  ]
]

length-erase_absent :
    (k : String) (rows : Rows)
    → lookup string_discrete k rows ≡ none
    → length (erase string_discrete k rows) ≡ length rows
unfolding erase lookup
length-erase_absent k [] h = refl
length-erase_absent k ((i, r) ∷ rows) h = ground (arith, length-erase_absent k rows)

length-erase :
    (k : String) (rows : Rows)
    → Distinct string_discrete rows
    → length rows ≤ suc (length (erase string_discrete k rows))
unfolding erase
length-erase k [] s = omega arith
length-erase k ((i, r) ∷ rows) s = ground (arith, length-erase_absent k rows, length-erase k rows)

-- Of two rows, one is older than the time.
some_older :
    (key : String) (now at : ℕ) (rows : Rows)
    → Distinct string_discrete rows
    → All (IsOlder key now) rows
    → All (λ (e : String × CacheRow). at ≤ e.1.accessed_at) rows
    → 2 ≤ length rows
    → at < now
unfolding lookup
some_older key now at [] s older least two = ground arith
some_older key now at (a ∷ []) s older least two = ground arith
some_older key now at (a ∷ b ∷ rows) s (inr o, _) (l, _) two = omega arith
some_older key now at (a ∷ b ∷ rows) s (inl e, (inr o, _)) (_, (l, _)) two = omega arith
some_older key now at (a ∷ b ∷ rows) s (inl e, (inl f, _)) least two = absurd (ground arith)

pub lookup-delete_oldest :
    (n : ℕ) (key : String) (now : ℕ) (r : CacheRow) (rows : Rows)
    → Distinct string_discrete rows
    → All (IsOlder key now) rows
    → lookup string_discrete key rows ≡ some r
    → r.accessed_at ≡ now
    → n < length rows
    → lookup string_discrete key (delete_oldest n rows) ≡ some r
unfolding delete_oldest
lookup-delete_oldest zero key now r rows s older found at_now few = found
lookup-delete_oldest (suc n) key now r rows s older found at_now few =
    elim (Option-cases (oldest rows)) [
      | inl e ↦ ground arith
      | inr ((j, at), e) ↦
          let (q, there, its) = oldest-lookup rows j at s e in
          let before = some_older key now at rows s older (oldest-le rows j at e) (omega arith) in
          let others : j ≢ key = λ same. ground arith in
          let rest =
            lookup-delete_oldest n key now r (erase string_discrete j rows)
              (erase-Distinct string_discrete j rows s)
              (All-erase string_discrete (IsOlder key now) j rows older)
              (ground (arith, lookup-erase string_discrete key j rows)) at_now
              (omega (arith, length-erase j rows s)) in
          ground (arith, rest)
    ]
