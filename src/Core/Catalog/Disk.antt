-- ===== src/Core/Catalog/Disk.antt =====
-- The disk tier of core/src/catalog_cache.rs, and fetch_catalog_page of core/src/board.rs, which tries the
-- network first and falls back to the caches. Items are of any type, serde_json and the clock are
-- parameters, and the add-on's answer is an argument. Times are unbounded numbers.
use ankai.Prelude.{
  ℕ, zero, suc, ◌-◌, String, string_discrete, Bool, true, false, not, leb, if◌then◌else◌, length,
  keep, Option, none, some, List, [], ◌∷◌,
}
use ankai.Prelude.Dict.{lookup, insert, update, erase}
use ankai.Prelude.Results.{Result, ok, err}
use ankai.Sql.{Conn, Action, SqlError, pure, ◌>>=◌, ◌>>◌, on_option, map_err, query, execute}
use ankai.Core.Store.{Error, db, Json}
use ankai.Core.Catalog.Memory.{MemoryCatalogCache}
use ankai.Core.Catalog.Memory

abbrev pub max_disk_entries : ℕ
max_disk_entries = 300

pub record CachedCatalogPage (Item : Type 0) : Type 0 where
  pub items : List Item
  pub fetched_at_unix : ℕ
  pub cache_max_age_secs : Option ℕ

-- A row of `catalog_cache` under its `cache_key`.
pub record CacheRow : Type 0 where
  pub addon_url : String
  pub media_type : String
  pub catalog_id : String
  pub items_json : String
  pub fetched_at : ℕ
  pub cache_max_age_secs : Option ℕ
  pub accessed_at : ℕ

abbrev pub Rows : Type 0
Rows = List (String × CacheRow)

abbrev pub Cache : Type 0 → Type 0
Cache = Action Rows Error

abbrev dec : Discrete String
dec = string_discrete

abbrev is_text : String → String → Bool
is_text s t = elim (string_discrete s t) [ yes _ ↦ true | no _ ↦ false ]

-- The row that was read least recently, the first of them where there are several.
unfoldable pub oldest : Rows → Option (String × ℕ)
oldest [] = none
oldest ((k, r) ∷ rows) = elim (oldest rows) [
  | none ↦ some (k, r.accessed_at)
  | some (j, at) ↦ if leb r.accessed_at at then some (k, r.accessed_at) else some (j, at)
]

-- `ORDER BY accessed_at ASC LIMIT n`, deleted one by one.
unfoldable pub delete_oldest : ℕ → Rows → Rows
delete_oldest zero rows = rows
delete_oldest (suc n) rows = elim (oldest rows) [
  | none ↦ rows
  | some (k, at) ↦ delete_oldest n (erase dec k rows)
]

unfoldable pub evict_excess : Cache (Unit {0})
evict_excess =
    map_err (λ _. db) (execute (λ rows. some (delete_oldest (length rows - max_disk_entries) rows)))

unfoldable pub clear_for_addon : String → Cache (Unit {0})
clear_for_addon addon_url =
    map_err (λ _. db)
      (execute (λ rows.
        some (keep (λ (e : String × CacheRow). not (is_text e.1.addon_url addon_url)) rows)))

-- A statement whose result is thrown away.
abbrev ignored : Action Rows SqlError (Unit {0}) → Cache (Unit {0})
ignored m c = (ok tt, (m c).1)

pub data CatalogFetchOutcome (Item : Type 0) : Type 0 where
  live : List Item → CatalogFetchOutcome Item
  cached_fallback :
      (items : List Item) → (fetched_at_unix : ℕ) → (live_error : String) → CatalogFetchOutcome Item
  failed : String → CatalogFetchOutcome Item

module _ {Item : Type 0} (json : Json (List Item)) where
  unfoldable pub get : String → ℕ → Cache (Option (CachedCatalogPage Item))
  get key now = do
    row ← map_err (λ _. db) (query (lookup dec key))
    on_option row
        (λ r c. elim (json.from_str r.items_json) [
          | none ↦ (err db, c)
          | some items ↦
              (do
                ignored (
                    execute
                      (λ rows. some (update dec key (λ s. record s { accessed_at = now }) rows)))
                pure (
                    some (record {
                      items = items;
                      fetched_at_unix = r.fetched_at;
                      cache_max_age_secs = r.cache_max_age_secs;
                    })))
                c
        ])
        (pure none)

  unfoldable pub put :
      (key addon_url media_type catalog_id : String) → CachedCatalogPage Item → ℕ → Cache (Unit {0})
  put key addon_url media_type catalog_id page now c = elim (json.to_string page.items) [
    | none ↦ (err db, c)
    | some items_json ↦
        (do map_err (λ _. db) (execute (λ rows. some (upsert items_json rows))); evict_excess) c
  ]
    where
      -- On a conflict the add-on, the type and the catalog stay.
      upsert : String → Rows → Rows
      upsert items_json rows = elim (lookup dec key rows) [
        | none ↦
            insert dec key
              (record {
                addon_url = addon_url;
                media_type = media_type;
                catalog_id = catalog_id;
                items_json = items_json;
                fetched_at = page.fetched_at_unix;
                cache_max_age_secs = page.cache_max_age_secs;
                accessed_at = now;
              })
              rows
        | some r ↦
            insert dec key
              (record r {
                items_json = items_json;
                fetched_at = page.fetched_at_unix;
                cache_max_age_secs = page.cache_max_age_secs;
                accessed_at = now;
              })
              rows
      ]

  -- What a fetch gives, and both tiers after it; `answer` is the add-on's, a page or an error's text.
  unfoldable pub fetch_catalog_page :
      (key addon_url media_type catalog_id : String)
      → (answer : Result String (List Item × Option ℕ)) → (now : ℕ)
      → MemoryCatalogCache (CachedCatalogPage Item)
      → Conn Rows
      → CatalogFetchOutcome Item × MemoryCatalogCache (CachedCatalogPage Item) × Conn Rows
  fetch_catalog_page key addon_url media_type catalog_id (ok (metas, age)) now memory c =
      let cached : CachedCatalogPage Item = record {
        items = metas;
        fetched_at_unix = now;
        cache_max_age_secs = age;
      } in
      (
        live metas,
        Memory.put key cached memory,
        (put key addon_url media_type catalog_id cached now c).1,
      )
  fetch_catalog_page key addon_url media_type catalog_id (err e) now memory c =
      let (found, c') = get key now c in
      elim (Memory.get key memory) [
        | some cached ↦ (cached_fallback cached.items cached.fetched_at_unix e, memory, c)
        | none ↦ elim found [
          | err _ ↦ (failed e, memory, c')
          | ok none ↦ (failed e, memory, c')
          | ok (some page) ↦ (cached_fallback page.items page.fetched_at_unix e, memory, c')
        ]
      ]
