-- ===== src/Core/Catalog/Memory.antt =====
-- The memory tier of core/src/catalog_cache.rs. Pages are of any type. The hash map is a list of
-- entries with distinct keys; a poisoned lock is entered all the same, as in the code.
pub mod Bounds
pub mod Uses
use ankai.Prelude.{
  ℕ, codes, String, string_discrete, Bool, true, false, not, ◌&&◌, ◌==◌, leb, if◌then◌else◌, length,
  keep, Option, none, some, List, [], ◌∷◌, ◌++◌,
}
use ankai.Prelude.Dict.{lookup, insert, erase}
use Prim.Native.String

abbrev pub default_memory_capacity : ℕ
default_memory_capacity = 64

-- `entries` is the pair of `map` and `order` here.
pub record MemoryCatalogCache (P : Type 0) : Type 0 where
  pub capacity : ℕ
  pub map : List (String × P)
  pub order : List String

unfoldable pub prefix_codes : List ℕ → List ℕ → Bool
prefix_codes [] text = true
prefix_codes (a ∷ as') [] = false
prefix_codes (a ∷ as') (b ∷ bs) = a == b && prefix_codes as' bs

unfoldable pub starts_with : (prefix key : String) → Bool
starts_with prefix key = prefix_codes (codes prefix) (codes key)

-- The prefix that the keys of an addon begin with: its URL and the character U+0001.
unfoldable pub addon_prefix : String → String
addon_prefix addon_url = String.◌++◌ addon_url "\u{1}"

-- `cache_key`, from the extras sorted and joined.
unfoldable pub cache_key : (addon_url media_type catalog_id extra_part : String) → String
cache_key addon_url media_type catalog_id extra_part = String.◌++◌ (addon_prefix addon_url) (
    String.◌++◌ media_type
      (String.◌++◌ "\u{1}" (String.◌++◌ catalog_id (String.◌++◌ "\u{1}" extra_part))))

module _ {P : Type 0} where
  unfoldable pub new : ℕ → MemoryCatalogCache P
  new capacity = record { capacity = if leb capacity 1 then 1 else capacity; map = []; order = [] }

  unfoldable pub get : String → MemoryCatalogCache P → Option P
  get key c = lookup string_discrete key c.map

  -- The loop that makes room for one more entry.
  unfoldable pub make_room :
      (capacity : ℕ) → List (String × P) → List String → List (String × P) × List String
  make_room capacity map [] = (map, [])
  make_room capacity map (oldest ∷ order) =
      let rest = make_room capacity (erase string_discrete oldest map) order in
      if leb capacity (length map) then rest else (map, oldest ∷ order)

  unfoldable pub put : String → P → MemoryCatalogCache P → MemoryCatalogCache P
  put key page c = elim (lookup string_discrete key c.map) [
    | some _ ↦ record c { map = insert string_discrete key page c.map }
    | none ↦
        let (map, order) = make_room c.capacity c.map (c.order ++ key ∷ []) in
        record c { map = insert string_discrete key page map; order = order }
  ]

  unfoldable pub clear_for_addon : String → MemoryCatalogCache P → MemoryCatalogCache P
  clear_for_addon addon_url c = record c {
    order = keep (λ key. not (starts_with (addon_prefix addon_url) key)) c.order;
    map = keep (λ (e : String × P). not (starts_with (addon_prefix addon_url) e.0)) c.map;
  }
