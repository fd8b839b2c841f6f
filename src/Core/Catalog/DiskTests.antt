-- ===== src/Core/Catalog/DiskTests.antt =====
-- The disk tier of the catalog cache on concrete inputs.
use ankai.Prelude.{refl, inr, arith, none, some, String, List, [], ◌∷◌, ◌≡◌, true, false}
use ankai.Prelude.Results.{ok, err}
use ankai.Prelude.Dict.{lookup}
use ankai.Sql.{Conn}
use ankai.Core.Store.{Json}
use ankai.Core.Catalog.Memory
use ankai.Core.Catalog.Memory.{MemoryCatalogCache}
use ankai.Core.Catalog.Memory.Bounds.{IsCache}
use ankai.Core.Catalog.Memory.Uses.{use_cache, new-IsCache}
use ankai.Core.Catalog.Disk.{CacheRow, CachedCatalogPage, Rows, fetch_catalog_page, cached_fallback}
use ankai.Core.Catalog.Offline.{fetch_falls_back}

abbrev json : Json (List String)
json = record { to_string = λ items. some "[]"; from_str = λ text. some ("film" ∷ []) }

memory : MemoryCatalogCache (CachedCatalogPage String)
unfolding use_cache
memory = use_cache [] (Memory.new 64)

memory-IsCache : IsCache memory
unfolding memory use_cache
memory-IsCache = new-IsCache 64 []

-- A row that was used at the time 4.
abbrev row : CacheRow
row = record {
  addon_url = "u";
  media_type = "movie";
  catalog_id = "old";
  items_json = "other";
  fetched_at = 3;
  cache_max_age_secs = none;
  accessed_at = 4;
}

-- The two statements that store a page succeed, the next one fails.
abbrev disk : Conn Rows
disk = record { tables = ("j", row) ∷ []; faults = false ∷ false ∷ true ∷ []; poisoned = false }

abbrev broken : Conn Rows
broken = record { tables = []; faults = true ∷ []; poisoned = false }

-- The disk tier after the page was fetched, once the client has been started again.
abbrev restarted : Conn Rows
restarted = record {
  tables =
      (fetch_catalog_page json "k" "u" "movie" "top" (ok ("film" ∷ [], none)) 7 memory
        disk).2.tables;
  faults = [];
  poisoned = false;
}

memory_absent : Memory.get "k" memory ≡ none
unfolding memory use_cache Memory.new Memory.get lookup
memory_absent = refl

fetch_falls_back_example :
    ((fetch_catalog_page json "k" "u" "movie" "top"
        (err "offline")
        9
        (fetch_catalog_page json "k" "u" "movie" "top" (ok ("film" ∷ [], none)) 7 memory disk).1
        broken).0
      ≡ cached_fallback ("film" ∷ []) 7 "offline")
    × ((fetch_catalog_page json "k" "u" "movie" "top" (err "offline") 9 memory restarted).0
        ≡ cached_fallback ("film" ∷ []) 7 "offline")
unfolding lookup
fetch_falls_back_example =
    fetch_falls_back json "k" "u" "movie" "top" "offline" "[]" ("film" ∷ []) none 7 9 memory memory
      disk restarted broken memory-IsCache (refl, tt) (inr (omega arith), tt) refl refl refl refl
      memory_absent refl refl
