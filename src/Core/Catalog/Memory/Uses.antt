-- ===== src/Core/Catalog/Memory/Uses.antt =====
-- Reading the memory cache of core/src/catalog_cache.rs, and any sequence of its calls.
use ankai.Prelude.{
  if◌then◌else◌, ℕ, leb, length, String, string_discrete, Bool-cases, Option-cases, not, none, some,
  List, [], ◌∷◌, ◌≡◌, ◌≢◌, refl, ◌⊎◌, inl, inr, arith,
}
use ankai.Prelude.Dict.{lookup, lookup-insert, lookup-append_new, lookup-keep, Distinct}
use ankai.Core.Catalog.Memory.{
  MemoryCatalogCache, starts_with, addon_prefix, new, get, put, clear_for_addon,
}
use ankai.Core.Catalog.Memory.Bounds.{
  IsCache, room, room_absent, put_new, put-IsCache, clear-IsCache,
}

-- The calls that change a cache.
pub data Use (P : Type 0) : Type 0 where
  put_page : String → P → Use P
  clear : String → Use P

module _ {P : Type 0} where
  room_kept :
      (capacity : ℕ) (j : String) (m : List (String × P))
      → Distinct string_discrete m
      → (lookup string_discrete j (room capacity m) ≡ lookup string_discrete j m)
        ⊎ (lookup string_discrete j (room capacity m) ≡ none)
  unfolding lookup
  room_kept capacity j [] d = inl refl
  room_kept capacity j ((k, page) ∷ m) d =
      elim (Bool-cases (leb capacity (length ((k, page) ∷ m)))) [
        | inl full ↦ elim (string_discrete k j) [
          | yes e ↦ inr (let gone : lookup string_discrete j m ≡ none = rw e at d.0 in ground arith)
          | no n ↦ inl (ground arith)
        ]
        | inr free ↦ inl (ground arith)
      ]

  -- After a page is cached it is found under its key, and under any other key there is what was there
  -- before or nothing.
  pub get-put :
      (j key : String) (page : P) (c : MemoryCatalogCache P)
      → IsCache c
      → (get key (put key page c) ≡ some page)
        × ((j ≢ key) → (get j (put key page c) ≡ get j c) ⊎ (get j (put key page c) ≡ none))
  unfolding put get
  get-put j key page c s = elim (Option-cases (get key c)) [
    | inr (q, present) ↦ (
      ground (arith, lookup-insert string_discrete key key page c.map),
      λ n. inl (ground (arith, lookup-insert string_discrete j key page c.map)),
    )
    | inl absent ↦
        let (entries, order) = put_new key page c s absent in
        let fresh = room_absent c.capacity key c.map absent in
        (
          ground (
            arith,
            entries,
            lookup-append_new string_discrete key key page (room c.capacity c.map) fresh,
          ),
          λ n. elim (room_kept c.capacity j c.map s.distinct) [
            | inl kept ↦ inl (
                ground (
                  arith,
                  entries,
                  lookup-append_new string_discrete j key page (room c.capacity c.map) fresh,
                ))
            | inr gone ↦ inr (
                ground (
                  arith,
                  entries,
                  lookup-append_new string_discrete j key page (room c.capacity c.map) fresh,
                ))
          ],
        )
  ]

  -- No page of the addon is found once its entries are cleared, and every other page is.
  pub get-clear :
      (key url : String) (c : MemoryCatalogCache P)
      → IsCache c
      → get key (clear_for_addon url c)
        ≡ (if starts_with (addon_prefix url) key then none else get key c)
  unfolding clear_for_addon get
  get-clear key url c s = ground (
    arith,
    lookup-keep string_discrete (λ (e : String × P). not (starts_with (addon_prefix url) e.0)) key
        c.map s.distinct,
  )

  unfoldable pub use_cache : List (Use P) → MemoryCatalogCache P → MemoryCatalogCache P
  use_cache [] c = c
  use_cache (put_page key page ∷ uses) c = use_cache uses (put key page c)
  use_cache (clear url ∷ uses) c = use_cache uses (clear_for_addon url c)

  uses-IsCache :
      (uses : List (Use P)) (c : MemoryCatalogCache P) → IsCache c → IsCache (use_cache uses c)
  unfolding use_cache
  uses-IsCache [] c s = s
  uses-IsCache (put_page key page ∷ uses) c s =
      uses-IsCache uses (put key page c) (put-IsCache key page c s)
  uses-IsCache (clear url ∷ uses) c s =
      uses-IsCache uses (clear_for_addon url c) (clear-IsCache url c s)

  -- However a new cache is used, and whatever capacity it was asked for: it holds at most its
  -- capacity, no key twice, and its queue names exactly the keys that it holds, in their order.
  pub new-IsCache : (capacity : ℕ) (uses : List (Use P)) → IsCache (use_cache uses (new capacity))
  unfolding new
  new-IsCache capacity uses =
      uses-IsCache uses (new capacity)
        (record { some_room = ground arith; bound = ground arith; ordered = refl; distinct = tt })
