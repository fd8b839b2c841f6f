-- ===== src/Core/Catalog/Offline.antt =====
-- What the caches of core/src/catalog_cache.rs give to fetch_catalog_page of core/src/board.rs while the
-- network is down.
use ankai.Prelude.{
  false, ℕ, ◌-◌, ◌≤◌, String, string_discrete, length, All, List, [], ◌∷◌, Option, Option-cases,
  none, some, ◌≡◌, refl, inl, inr, arith,
}
use ankai.Prelude.Dict.{lookup, insert, Distinct, insert-Distinct, lookup-insert, All-insert}
use ankai.Prelude.Results.{ok, err}
use ankai.Sql.{Conn, now_fails, later}
use ankai.Core.Store.{Json}
use ankai.Core.Catalog.Memory.{MemoryCatalogCache}
use ankai.Core.Catalog.Memory
use ankai.Core.Catalog.Memory.Bounds.{IsCache}
use ankai.Core.Catalog.Memory.Uses.{get-put}
use ankai.Core.Catalog.Disk.{
  CachedCatalogPage, CacheRow, Rows, cached_fallback, delete_oldest, evict_excess, get, put,
  fetch_catalog_page,
}
use ankai.Core.Catalog.DiskKept.{IsOlder, lookup-delete_oldest}

-- A row that holds the text and the times of a page.
record Holds {Item : Type 0} (text : String) (page : CachedCatalogPage Item) (now : ℕ)
    (r : CacheRow) : Type 0 where
  items : r.items_json ≡ text
  fetched : r.fetched_at ≡ page.fetched_at_unix
  age : r.cache_max_age_secs ≡ page.cache_max_age_secs
  accessed : r.accessed_at ≡ now

length-insert :
    (key : String) (r : CacheRow) (rows : Rows) → 1 ≤ length (insert string_discrete key r rows)
unfolding insert
length-insert key r [] = omega arith
length-insert key r ((j, q) ∷ rows) = ground (arith, length-insert key r rows)

-- A row that is written is there after the eviction that follows.
written :
    (key : String) (now : ℕ) (r : CacheRow) (rows : Rows)
    → Distinct string_discrete rows
    → All (IsOlder key now) rows
    → r.accessed_at ≡ now
    → (let after = insert string_discrete key r rows in
        lookup string_discrete key (delete_oldest (length after - 300) after) ≡ some r)
written key now r rows s older at_now =
    let after = insert string_discrete key r rows in
    let some_row = length-insert key r rows in
    lookup-delete_oldest (length after - 300) key now r after
      (insert-Distinct string_discrete key r rows s)
      (All-insert string_discrete (IsOlder key now) key r rows (inl refl) older)
      (ground (arith, lookup-insert string_discrete key key r rows)) at_now (omega arith)

module _ {Item : Type 0} (json : Json (List Item))
    (key url media_type catalog_id text : String) where
  put-Holds :
      (page : CachedCatalogPage Item) (now : ℕ) (c : Conn Rows)
      → Distinct string_discrete c.tables
      → All (IsOlder key now) c.tables
      → json.to_string page.items ≡ some text
      → now_fails c.faults ≡ false
      → now_fails (later c.faults) ≡ false
      → (r : CacheRow) × (lookup string_discrete key
            (put json key url media_type catalog_id page now c).1.tables
          ≡ some r)
        × Holds text page now r
  unfolding put evict_excess
  put-Holds page now c s older printed first second =
      elim (Option-cases (lookup string_discrete key c.tables)) [
        | inl absent ↦
            let r : CacheRow = record {
              addon_url = url;
              media_type = media_type;
              catalog_id = catalog_id;
              items_json = text;
              fetched_at = page.fetched_at_unix;
              cache_max_age_secs = page.cache_max_age_secs;
              accessed_at = now;
            } in
            let there = written key now r c.tables s older refl in
            (
              r,
              ground (arith, there),
              record { items = refl; fetched = refl; age = refl; accessed = refl },
            )
        | inr (q, present) ↦
            let r : CacheRow = record q {
              items_json = text;
              fetched_at = page.fetched_at_unix;
              cache_max_age_secs = page.cache_max_age_secs;
              accessed_at = now;
            } in
            let there = written key now r c.tables s older refl in
            (
              r,
              ground (arith, there),
              record { items = refl; fetched = refl; age = refl; accessed = refl },
            )
      ]

  get-Holds :
      (page : CachedCatalogPage Item) (now later' : ℕ) (r : CacheRow) (d : Conn Rows)
      → lookup string_discrete key d.tables ≡ some r
      → Holds text page now r
      → json.from_str text ≡ some page.items
      → now_fails d.faults ≡ false
      → (get json key later' d).0 ≡ ok (some page)
  unfolding get
  get-Holds page now later' r d found h read works = ground (arith, h.items, h.fetched, h.age)

-- Where no statement failed while a page was fetched and stored on disk, the page's items serialise to a
-- text that is read back as them, every other row of the disk tier was used before, and the memory tier
-- is well formed, the same request gives the page while the network is down, with the time at which it was
-- fetched and the error of the network: from the memory tier as the fetch left it, whatever the disk tier
-- holds and whatever fails there; and from the rows on disk as the fetch left them where its read does
-- not fail, with any memory tier that does not have the page, as after a restart or an eviction.
pub fetch_falls_back :
    {Item : Type 0} (json : Json (List Item)) (key url media_type catalog_id e text : String)
    (metas : List Item) (age : Option ℕ) (now after : ℕ)
    (memory other : MemoryCatalogCache (CachedCatalogPage Item)) (c d any : Conn Rows)
    → IsCache memory
    → Distinct string_discrete c.tables
    → All (IsOlder key now) c.tables
    → json.to_string metas ≡ some text
    → json.from_str text ≡ some metas
    → now_fails c.faults ≡ false
    → now_fails (later c.faults) ≡ false
    → Memory.get key other ≡ none
    → d.tables
      ≡ (fetch_catalog_page json key url media_type catalog_id
          (ok (metas, age))
          now
          memory
          c).2.tables
    → now_fails d.faults ≡ false
    → ((fetch_catalog_page json key url media_type catalog_id
          (err e)
          after
          (fetch_catalog_page json key url media_type catalog_id (ok (metas, age)) now memory c).1
          any).0
        ≡ cached_fallback metas now e)
      × ((fetch_catalog_page json key url media_type catalog_id (err e) after other d).0
          ≡ cached_fallback metas now e)
unfolding fetch_catalog_page
fetch_falls_back json key url media_type catalog_id e text metas age now after memory other c d any
      s u older printed read first second absent left works =
    let page : CachedCatalogPage _ = record {
      items = metas;
      fetched_at_unix = now;
      cache_max_age_secs = age;
    } in
    let found = (get-put key key page memory s).0 in
    let (r, stored, holds) =
      put-Holds json key url media_type catalog_id text page now c u older printed first second in
    let there =
      get-Holds json key url media_type catalog_id text page now after r d
        (ground (arith, left, stored)) holds read works in
    (ground (arith, found), ground (arith, there))
