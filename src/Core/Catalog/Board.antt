-- ===== src/Core/Catalog/Board.antt =====
-- The board of core/src/board.rs: the catalogs of the enabled add-ons, and what is derived from them.
pub mod Rows
use ankai.Prelude.{
  ℕ, String, string_discrete, Bool, true, false, not, ◌&&◌, ◌||◌, leb, all, keep, if◌then◌else◌,
  Option, none, some, List, [], ◌∷◌, ◌++◌, map,
}
use ankai.Core.Addons.{InstalledAddon, contains}
use ankai.Core.Manifest.{Catalog, CatalogExtra, Manifest}

pub record BoardCatalogKey : Type 0 where
  pub addon_manifest_url : String
  pub media_type : String
  pub catalog_id : String

pub record BoardCatalogRef : Type 0 where
  pub key : BoardCatalogKey
  pub addon_name : String
  pub addon_priority : ℕ
  pub catalog_name : String
  pub media_type : String
  pub genres : List String
  pub extra : List CatalogExtra
  pub is_passive : Bool

abbrev is_text : String → String → Bool
is_text s t = elim (string_discrete s t) [ yes _ ↦ true | no _ ↦ false ]

abbrev pub any : {A : Type 0} → (A → Bool) → List A → Bool
any p [] = false
any p (x ∷ xs) = p x || any p xs

abbrev find_extra : String → List CatalogExtra → Option CatalogExtra
find_extra name [] = none
find_extra name (e ∷ extra) = if is_text e.name name then some e else find_extra name extra

abbrev options_or : List String → Option CatalogExtra → List String
options_or genres none = genres
options_or genres (some e) = elim e.options [ [] ↦ genres | _ ∷ _ ↦ e.options ]

unfoldable pub genre_options : Catalog → List String
genre_options catalog = options_or catalog.genres (find_extra "genre" catalog.extra)

unfoldable pub supports_global_search : BoardCatalogRef → Bool
supports_global_search r =
    any (λ (e : CatalogExtra). is_text e.name "search") r.extra
    && all (λ (e : CatalogExtra). not e.is_required || is_text e.name "search") r.extra

-- `sort_by_key(|a| a.priority)`, which is stable.
unfoldable pub insert_by_priority : InstalledAddon → List InstalledAddon → List InstalledAddon
insert_by_priority a [] = a ∷ []
insert_by_priority a (b ∷ addons) =
    let rest = insert_by_priority a addons in
    if leb a.priority b.priority then a ∷ b ∷ addons else b ∷ rest

unfoldable pub sort_by_priority : List InstalledAddon → List InstalledAddon
sort_by_priority [] = []
sort_by_priority (a ∷ addons) = insert_by_priority a (sort_by_priority addons)

unfoldable pub find_manifest : String → List (String × Manifest) → Option Manifest
find_manifest url [] = none
find_manifest url ((u, m) ∷ manifests) =
    if is_text u url then some m else find_manifest url manifests

abbrev name_or : String → Option String → String
name_or id none = id
name_or id (some name) = name

unfoldable pub row_of : InstalledAddon → Catalog → BoardCatalogRef
row_of addon catalog = record {
  key = record {
    addon_manifest_url = addon.manifest_url;
    media_type = catalog.media_type;
    catalog_id = catalog.id;
  };
  addon_name = addon.name;
  addon_priority = addon.priority;
  catalog_name = name_or catalog.id catalog.name;
  media_type = catalog.media_type;
  genres = genre_options catalog;
  extra = catalog.extra;
  is_passive = not (any (λ (e : CatalogExtra). e.is_required) catalog.extra);
}

-- The loop over the add-ons in order.
unfoldable pub rows_of : List InstalledAddon → List (String × Manifest) → List BoardCatalogRef
rows_of [] manifests = []
rows_of (a ∷ addons) manifests = elim (find_manifest a.manifest_url manifests) [
  | none ↦ rows_of addons manifests
  | some m ↦ map (row_of a) m.catalogs ++ rows_of addons manifests
]

unfoldable pub board_catalogs :
    List InstalledAddon → List (String × Manifest) → List BoardCatalogRef
board_catalogs addons manifests =
    rows_of (sort_by_priority (keep (λ (a : InstalledAddon). a.enabled) addons)) manifests

-- The loops of `available_types` and `available_addons`, from what was seen so far.
unfoldable pub types_from : List String → List BoardCatalogRef → List String
types_from seen [] = []
types_from seen (c ∷ catalogs) = elim (contains c.media_type seen) [
  | true ↦ types_from seen catalogs
  | false ↦ c.media_type ∷ types_from (c.media_type ∷ seen) catalogs
]

unfoldable pub available_types : List BoardCatalogRef → List String
available_types catalogs = types_from [] catalogs

unfoldable pub addons_from : List String → List BoardCatalogRef → List (String × String)
addons_from seen [] = []
addons_from seen (c ∷ catalogs) = elim (contains c.key.addon_manifest_url seen) [
  | true ↦ addons_from seen catalogs
  | false ↦
      (c.key.addon_manifest_url, c.addon_name)
      ∷ addons_from (c.key.addon_manifest_url ∷ seen) catalogs
]

unfoldable pub available_addons : List BoardCatalogRef → List (String × String)
available_addons catalogs = addons_from [] catalogs

unfoldable pub search_eligible_catalogs : List BoardCatalogRef → List BoardCatalogRef
search_eligible_catalogs catalogs = keep supports_global_search catalogs
