-- ===== src/Core/Catalog/Tests.antt =====
-- Caches, rows, the registry and the board on concrete inputs.
use ankai.Prelude.{
  ℕ, ◌+◌, ◌||◌, String, string_discrete, Bool, true, false, map, length, none, some, List, [], ◌∷◌,
  ◌++◌, ◌≡◌, refl, ◌↔◌,
}
use ankai.Prelude.Dict.{lookup, insert, erase}
use ankai.Sql.{Conn}
use ankai.Core.Store.{Tables, Json, get_setting}
use ankai.Core.Manifest.{Manifest}
use ankai.Core.Addons.{
  AddonHealthState, InstalledAddon, StoredRegistry, contains, settle, normalize_from,
  validate_and_normalize, read_registry,
}
use ankai.Core.Addons.Order.{NormalFrom, read_registry-NormalFrom}
use ankai.Core.Catalog.Memory.{MemoryCatalogCache, new, get, put, make_room, clear_for_addon}
use ankai.Core.Catalog.Memory.Bounds.{IsCache}
use ankai.Core.Catalog.Memory.Uses.{Use, use_cache, new-IsCache}
use ankai.Core.Catalog.Page.{Key, seen, CatalogPageState, apply_page}
use ankai.Core.Catalog.Page.Merging.{Fresh, apply_page-Fresh}

abbrev fill : List (Use ℕ)
fill = Use.put_page "a" 1 ∷ Use.put_page "b" 2 ∷ Use.put_page "a" 3 ∷ []

full : MemoryCatalogCache ℕ
unfolding new use_cache
full = use_cache fill (new 2)

full-IsCache : IsCache full
unfolding full
full-IsCache = new-IsCache 2 fill

new-IsCache_example : IsCache (use_cache fill (new 0))
new-IsCache_example = new-IsCache 0 fill

caching : Unit {0}
unfolding full new use_cache get put make_room clear_for_addon lookup insert erase string_discrete
caching = tt

abbrev same_key : Key → Key
same_key k = k

abbrev row : List Key
row = ("movie", "1") ∷ ("series", "1") ∷ ("movie", "1") ∷ []

abbrev start : CatalogPageState Key
start = record {
  items = ("movie", "1") ∷ [];
  next_skip = 1;
  loading = true;
  error = some "offline";
  has_more = true;
  initialized = true;
  cache_notice = none;
}

start-Fresh : Fresh same_key [] start.items
unfolding seen
start-Fresh = (refl, tt)

apply_page-Fresh_example :
    Fresh same_key [] (apply_page same_key row none start).items
    × ((new_items : List Key) × ((apply_page same_key row none start).items
          ≡ start.items ++ new_items))
    × ((z : Key)
        → seen z (map same_key (apply_page same_key row none start).items)
          ≡ (seen z (map same_key start.items) || seen z (map same_key row)))
    × ((apply_page same_key row none start).next_skip ≡ start.next_skip + length row)
    × (((apply_page same_key row none start).has_more ≡ false) ↔ (row ≡ []))
apply_page-Fresh_example = apply_page-Fresh same_key row none start start-Fresh

abbrev addon : String → ℕ → Bool → InstalledAddon
addon url priority enabled = record {
  manifest_url = url;
  addon_id = "id";
  name = url;
  version = "1";
  description = none;
  logo = none;
  background = none;
  types = [];
  roles = record {
    catalog = true;
    addon_catalog = false;
    meta = false;
    stream = false;
    subtitles = false;
  };
  enabled = enabled;
  priority = priority;
  health = record {
    state = AddonHealthState.healthy;
    checked_at_unix = none;
    last_error = some "old";
  };
}

abbrev manifest : Manifest
manifest = record {
  id = "id";
  name = "name";
  version = "1";
  description = none;
  logo = none;
  background = none;
  resources = [];
  types = [];
  id_prefixes = [];
  catalogs = record { media_type = "movie"; id = "top"; name = none; genres = []; extra = [] } ∷ [];
  addon_catalogs = [];
  contact_email = none;
  behavior_hints = record {
    adult = false;
    p2p = false;
    configurable = false;
    configuration_required = false;
  };
  config = [];
}

-- One registry, with both add-ons out of place.
abbrev one : Json StoredRegistry
one = record {
  to_string = λ r. none;
  from_str =
      λ text. some (record { version = 1; addons = addon "v" 5 true ∷ addon "u" 5 false ∷ [] });
}

abbrev saved : Conn Tables
saved = record {
  tables = record { settings = ("stremio_addons_v1", "{}") ∷ []; communities = [] };
  faults = [];
  poisoned = false;
}

abbrev healed : String → ℕ → Bool → InstalledAddon
healed url priority enabled = record (addon url priority enabled) {
  health = record { state = AddonHealthState.healthy; checked_at_unix = none; last_error = none };
}

read_registry-NormalFrom_example :
    NormalFrom (λ url. some url) [] 0 (healed "v" 0 true ∷ healed "u" 1 false ∷ [])
unfolding read_registry get_setting lookup string_discrete validate_and_normalize normalize_from
    contains settle
read_registry-NormalFrom_example = read_registry-NormalFrom (λ url. some url) one saved refl
