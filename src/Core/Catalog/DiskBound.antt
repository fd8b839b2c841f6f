-- ===== src/Core/Catalog/DiskBound.antt =====
-- The bound of the disk tier of core/src/catalog_cache.rs.
use ankai.Prelude.{
  ℕ, zero, suc, ◌-◌, ◌≤◌, leb, Bool-cases, String, string_discrete, length, Option-cases, none,
  some, [], ◌∷◌, ◌≡◌, refl, inl, inr, arith,
}
use ankai.Prelude.Dict.{erase}
use ankai.Prelude.Results.{ok}
use ankai.Sql.{Conn}
use ankai.Core.Catalog.Disk.{Rows, oldest, delete_oldest, evict_excess}

length-erase-le : (k : String) (rows : Rows) → length (erase string_discrete k rows) ≤ length rows
unfolding erase
length-erase-le k [] = omega arith
length-erase-le k ((j, r) ∷ rows) = ground (arith, length-erase-le k rows)

oldest_there :
    (k : String) (at : ℕ) (rows : Rows)
    → oldest rows ≡ some (k, at)
    → suc (length (erase string_discrete k rows)) ≤ length rows
unfolding oldest erase
oldest_there k at [] h = absurd (cc)
oldest_there k at ((j, r) ∷ rows) h = elim (Option-cases (oldest rows)) [
  | inl e ↦ ground (arith, length-erase-le k rows)
  | inr ((i, before), e) ↦ elim (Bool-cases (leb r.accessed_at before)) [
    | inl first ↦ ground (arith, length-erase-le k rows)
    | inr not_first ↦ let ih = oldest_there i before rows e in ground (arith, ih)
  ]
]

no_oldest : (rows : Rows) → oldest rows ≡ none → length rows ≡ 0
unfolding oldest
no_oldest [] h = refl
no_oldest ((j, r) ∷ rows) h = absurd (ground arith)

length-delete_oldest-le : (n : ℕ) (rows : Rows) → length (delete_oldest n rows) ≤ length rows - n
unfolding delete_oldest
length-delete_oldest-le zero rows = omega arith
length-delete_oldest-le (suc n) rows = elim (Option-cases (oldest rows)) [
  | inl e ↦ ground (arith, no_oldest rows)
  | inr ((k, at), e) ↦
      let ih = length-delete_oldest-le n (erase string_discrete k rows) in
      let fewer = oldest_there k at rows e in ground (arith, ih, fewer)
]

-- Whatever there was before, the disk tier holds at most 300 pages after an eviction that succeeds.
pub evict_excess-le :
    (c : Conn Rows) → (evict_excess c).0 ≡ ok tt → length (evict_excess c).1.tables ≤ 300
unfolding evict_excess
evict_excess-le c h = ground (arith, length-delete_oldest-le (length c.tables - 300) c.tables)
