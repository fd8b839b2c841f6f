-- ===== src/Core/Catalog/Board/Rows.antt =====
-- The rows of the board (core/src/board.rs): whose they are and in which order.
use ankai.Prelude.{
  ℕ, ◌≤◌, leb, Bool-cases, Option-cases, true, keep, All, List, [], ◌∷◌, ◌++◌, map, ◌≡◌, refl, inl,
  inr, arith, String,
}
use ankai.Core.Addons.{InstalledAddon}
use ankai.Core.Manifest.{Catalog, Manifest}
use ankai.Core.Catalog.Board.{
  BoardCatalogRef, insert_by_priority, sort_by_priority, find_manifest, row_of, rows_of,
  board_catalogs,
}

-- Rows in the order of their add-ons' priorities, from one priority on.
abbrev pub Ascending : ℕ → List BoardCatalogRef → Type 0
Ascending low [] = Unit
Ascending low (r ∷ rows) = (low ≤ r.addon_priority) × Ascending r.addon_priority rows

abbrev Sorted : ℕ → List InstalledAddon → Type 0
Sorted low [] = Unit
Sorted low (a ∷ addons) = (low ≤ a.priority) × Sorted a.priority addons

insert-Sorted :
    (low : ℕ) (a : InstalledAddon) (addons : List InstalledAddon)
    → low ≤ a.priority
    → Sorted low addons
    → Sorted low (insert_by_priority a addons)
unfolding insert_by_priority
insert-Sorted low a [] h s = (h, tt)
insert-Sorted low a (b ∷ addons) h s = elim (Bool-cases (leb a.priority b.priority)) [
  | inl e ↦ rw e (h, (ground arith, s.1))
  | inr e ↦ rw e (s.0, insert-Sorted b.priority a addons (ground arith) s.1)
]

sort-Sorted : (addons : List InstalledAddon) → Sorted 0 (sort_by_priority addons)
unfolding sort_by_priority
sort-Sorted [] = tt
sort-Sorted (a ∷ addons) =
    insert-Sorted 0 a (sort_by_priority addons) (omega arith) (sort-Sorted addons)

Ascending-weaken :
    (low high : ℕ) (rows : List BoardCatalogRef)
    → low ≤ high
    → Ascending high rows
    → Ascending low rows
Ascending-weaken low high [] h s = tt
Ascending-weaken low high (r ∷ rows) h s = (omega arith, s.1)

map-Ascending :
    (low : ℕ) (a : InstalledAddon) (catalogs : List Catalog) (rows : List BoardCatalogRef)
    → low ≤ a.priority
    → Ascending a.priority rows
    → Ascending low (map (row_of a) catalogs ++ rows)
unfolding row_of
map-Ascending low a [] rows h s = Ascending-weaken low a.priority rows h s
map-Ascending low a (c ∷ catalogs) rows h s =
    (h, map-Ascending a.priority a catalogs rows (omega arith) s)

rows-Ascending :
    (low : ℕ) (addons : List InstalledAddon) (manifests : List (String × Manifest))
    → Sorted low addons
    → Ascending low (rows_of addons manifests)
unfolding rows_of
rows-Ascending low [] manifests s = tt
rows-Ascending low (a ∷ addons) manifests s =
    elim (Option-cases (find_manifest a.manifest_url manifests)) [
      | inl e ↦
          let same : rows_of (a ∷ addons) manifests ≡ rows_of addons manifests = ground arith in
          rw same
            (Ascending-weaken low a.priority _ s.0 (rows-Ascending a.priority addons manifests s.1))
      | inr (m, e) ↦
          let same : rows_of (a ∷ addons) manifests
              ≡ map (row_of a) m.catalogs ++ rows_of addons manifests =
            ground arith in
          rw same
            (map-Ascending low a m.catalogs _ s.0 (rows-Ascending a.priority addons manifests s.1))
    ]

-- A row that is made from an enabled add-on and one catalog.
abbrev pub FromEnabled : BoardCatalogRef → Type 0
FromEnabled r =
    (a : InstalledAddon) × (catalog : Catalog) × (a.enabled ≡ true) × (r ≡ row_of a catalog)

abbrev AllEnabled : List InstalledAddon → Type 0
AllEnabled = All (λ (a : InstalledAddon). a.enabled ≡ true)

keep-AllEnabled : (addons : List InstalledAddon) → AllEnabled (keep (λ a. a.enabled) addons)
keep-AllEnabled [] = tt
keep-AllEnabled (a ∷ addons) = ground (arith, keep-AllEnabled addons)

insert-AllEnabled :
    (a : InstalledAddon) (addons : List InstalledAddon)
    → a.enabled ≡ true
    → AllEnabled addons
    → AllEnabled (insert_by_priority a addons)
unfolding insert_by_priority
insert-AllEnabled a [] h k = (h, tt)
insert-AllEnabled a (b ∷ addons) h k = ground (arith, insert-AllEnabled a addons)

sort-AllEnabled :
    (addons : List InstalledAddon) → AllEnabled addons → AllEnabled (sort_by_priority addons)
unfolding sort_by_priority
sort-AllEnabled [] k = tt
sort-AllEnabled (a ∷ addons) k = insert-AllEnabled a _ k.0 (sort-AllEnabled addons k.1)

map-FromEnabled :
    (a : InstalledAddon) (catalogs : List Catalog) (rows : List BoardCatalogRef)
    → a.enabled ≡ true
    → All FromEnabled rows
    → All FromEnabled (map (row_of a) catalogs ++ rows)
map-FromEnabled a [] rows h k = k
map-FromEnabled a (c ∷ catalogs) rows h k = ((a, c, h, refl), map-FromEnabled a catalogs rows h k)

rows-FromEnabled :
    (addons : List InstalledAddon) (manifests : List (String × Manifest))
    → AllEnabled addons
    → All FromEnabled (rows_of addons manifests)
unfolding rows_of
rows-FromEnabled [] manifests k = tt
rows-FromEnabled (a ∷ addons) manifests k =
    elim (Option-cases (find_manifest a.manifest_url manifests)) [
      | inl e ↦
          let same : rows_of (a ∷ addons) manifests ≡ rows_of addons manifests = ground arith in
          rw same (rows-FromEnabled addons manifests k.1)
      | inr (m, e) ↦
          let same : rows_of (a ∷ addons) manifests
              ≡ map (row_of a) m.catalogs ++ rows_of addons manifests =
            ground arith in
          rw same (map-FromEnabled a m.catalogs _ k.0 (rows-FromEnabled addons manifests k.1))
    ]

-- The rows of the board stand in the order of their add-ons' priorities, and each is a catalog of an
-- add-on that is enabled.
pub board_catalogs-Ascending :
    (addons : List InstalledAddon) (manifests : List (String × Manifest))
    → Ascending 0 (board_catalogs addons manifests)
      × All FromEnabled (board_catalogs addons manifests)
unfolding board_catalogs
board_catalogs-Ascending addons manifests = (
  rows-Ascending 0 _ manifests (sort-Sorted _),
  rows-FromEnabled _ manifests (sort-AllEnabled _ (keep-AllEnabled addons)),
)
