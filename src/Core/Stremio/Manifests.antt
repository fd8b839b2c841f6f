-- ===== src/Core/Stremio/Manifests.antt =====
-- The checks of manifests and the routing of requests in core/src/stremio.rs. Messages of errors are left out.
pub mod Requests
pub mod Sound
use ankai.Prelude.{
  ℕ, ◌+◌, ◌*◌, String, string_discrete, codes, Bool, true, false, not, ◌&&◌, ◌||◌, ◌==◌, leb, ltb,
  length, Option, none, some, List, [], ◌∷◌, ◌++◌, if◌then◌else◌,
}
use ankai.Prelude.Dict.{lookup, insert}
use ankai.Prelude.Results.{Result, ok, err, ◌>>=◌, ◌>>◌, guard}
use ankai.Core.Store.{Error, stremio}
use ankai.Core.Manifest.{
  Manifest, Catalog, CatalogExtra, Resource, name, descriptor, ManifestConfig,
}
use ankai.Core.Stremio.Address.{max_url_length, is_text}
use ankai.Core.Stremio.Checks.{
  Value, Check, each, max_collection_items, max_short_string, max_long_string, validate_string,
  validate_optional_string, ensure_collection_limit, validate_string_collection,
  validate_extra_value,
}

abbrev any {ℓ} : {A : Type ℓ} → (A → Bool) → List A → Bool
any p [] = false
any p (x ∷ xs) = p x || any p xs

unfoldable pub starts_with : (prefix text : List ℕ) → Bool
starts_with [] text = true
starts_with (c ∷ prefix) [] = false
starts_with (c ∷ prefix) (d ∷ text) = c == d && starts_with prefix text

unfoldable pub matches_type : List String → String → Bool
matches_type [] media_type = true
matches_type (t ∷ types) media_type = any (λ candidate. is_text candidate media_type) (t ∷ types)

unfoldable pub matches_prefix : List String → String → Bool
matches_prefix [] id = true
matches_prefix (p ∷ prefixes) id =
    any (λ prefix. starts_with (codes prefix) (codes id)) (p ∷ prefixes)

abbrev is_catalog : (media_type id : String) → Catalog → Bool
is_catalog media_type id catalog = is_text catalog.media_type media_type && is_text catalog.id id

abbrev serves : Manifest → (resource media_type id : String) → Resource → Bool
serves manifest resource media_type id (name n) =
    is_text n resource
    && (matches_type manifest.types media_type && matches_prefix manifest.id_prefixes id)
serves manifest resource media_type id (descriptor n types id_prefixes) =
    is_text n resource && (matches_type types media_type && matches_prefix id_prefixes id)

unfoldable pub supports_resource : Manifest → (resource media_type id : String) → Bool
supports_resource manifest resource media_type id =
    if is_text resource "catalog"
    then any (is_catalog media_type id) manifest.catalogs
    else if is_text resource "addon_catalog"
    then any (is_catalog media_type id) manifest.addon_catalogs
    else any (serves manifest resource media_type id) manifest.resources

unfoldable pub find_extra : String → List CatalogExtra → Option CatalogExtra
find_extra extra_name [] = none
find_extra extra_name (item ∷ extra) =
    if is_text item.name extra_name then some item else find_extra extra_name extra

-- The values supplied so far, by their names: `entry(name).or_default().push(value)`.
abbrev values_of : String → List (String × List String) → List String
values_of extra_name supplied = elim (lookup string_discrete extra_name supplied) [
  | none ↦ []
  | some values ↦ values
]

unfoldable pub push_value :
    (extra_name value : String) → List (String × List String) → List (String × List String)
push_value extra_name value supplied =
    insert string_discrete extra_name (values_of extra_name supplied ++ value ∷ []) supplied

unfoldable pub allows : CatalogExtra → String → Bool
allows declaration value = elim declaration.options [
  | [] ↦ true
  | o ∷ options ↦ any (λ option. is_text option value) (o ∷ options)
]

-- The loop over what is supplied.
unfoldable pub collect_extra :
    List CatalogExtra
    → List (String × String)
    → List (String × List String)
    → Result Error (List (String × List String))
collect_extra declared [] supplied = ok supplied
collect_extra declared ((extra_name, value) ∷ extra) supplied =
    let rest = collect_extra declared extra (push_value extra_name value supplied) in
    elim (find_extra extra_name declared) [
      | none ↦ err stremio
      | some declaration ↦ if not (allows declaration value) then err stremio else rest
    ]

abbrev limit : Option ℕ → ℕ
limit none = 1
limit (some n) = n

-- The loop over what is declared.
unfoldable pub check_counts : List (String × List String) → List CatalogExtra → Check
check_counts supplied [] = ok tt
check_counts supplied (declaration ∷ declared) = do
  let count : ℕ = length (values_of declaration.name supplied)
  guard (not (declaration.is_required && count == 0)) stremio
  guard (leb count (limit declaration.options_limit)) stremio
  check_counts supplied declared

unfoldable pub validate_request_extra : Catalog → List (String × String) → Check
validate_request_extra catalog extra = do
  supplied ← collect_extra catalog.extra extra []
  check_counts supplied catalog.extra

unfoldable pub find_catalog : (media_type catalog_id : String) → List Catalog → Option Catalog
find_catalog media_type catalog_id [] = none
find_catalog media_type catalog_id (catalog ∷ catalogs) =
    if is_catalog media_type catalog_id catalog
    then some catalog
    else find_catalog media_type catalog_id catalogs

unfoldable pub request_in :
    List Catalog
    → (media_type catalog_id : String) → List (String × String)
    → Result Error (Option Catalog)
request_in catalogs media_type catalog_id extra =
    elim (find_catalog media_type catalog_id catalogs) [
      | none ↦ ok none
      | some catalog ↦ do validate_request_extra catalog extra; ok (some catalog)
    ]

abbrev pub catalog_for_request :
    Manifest
    → (media_type catalog_id : String) → List (String × String)
    → Result Error (Option Catalog)
catalog_for_request manifest = request_in manifest.catalogs

abbrev pub addon_catalog_for_request :
    Manifest
    → (media_type catalog_id : String) → List (String × String)
    → Result Error (Option Catalog)
addon_catalog_for_request manifest = request_in manifest.addon_catalogs

abbrev pub contains : String → List String → Bool
contains s [] = false
contains s (x ∷ xs) = is_text x s || contains s xs

abbrev is_zero : Option ℕ → Bool
is_zero none = false
is_zero (some n) = n == 0

-- The loop over the declarations of a catalog, from the names seen so far.
unfoldable pub validate_extras : (seen : List String) → List CatalogExtra → Check
validate_extras seen [] = ok tt
validate_extras seen (extra ∷ extras) = do
  validate_string extra.name 64 true
  ensure_collection_limit (length extra.options) 256
  validate_string_collection extra.options 512
  guard (not (is_zero extra.options_limit)) stremio
  guard (not (contains extra.name seen)) stremio
  validate_extras (extra.name ∷ seen) extras

unfoldable pub validate_catalog : Catalog → Check
validate_catalog catalog = do
  validate_string catalog.media_type 64 true
  validate_string catalog.id max_short_string true
  validate_optional_string catalog.name max_short_string
  ensure_collection_limit (length catalog.genres) max_collection_items
  ensure_collection_limit (length catalog.extra) 32
  validate_string_collection catalog.genres max_short_string
  validate_extras [] catalog.extra

abbrev validate_default : Option Value → Check
validate_default none = ok tt
validate_default (some value) = do nodes ← validate_extra_value value 0 0; ok tt

unfoldable pub validate_config : ManifestConfig → Check
validate_config config = do
  validate_string config.key 128 true
  validate_optional_string config.title max_short_string
  ensure_collection_limit (length config.options) 256
  validate_string_collection config.options 512
  validate_default config.default

unfoldable pub validate_resource : Resource → Check
validate_resource (name n) = validate_string n 128 true
validate_resource (descriptor n types id_prefixes) = do
  validate_string n 128 true
  ensure_collection_limit (length types) 64
  ensure_collection_limit (length id_prefixes) 128
  validate_string_collection types 64
  validate_string_collection id_prefixes max_short_string

unfoldable pub validate_configs : (seen : List String) → List ManifestConfig → Check
validate_configs seen [] = ok tt
validate_configs seen (config ∷ configs) = do
  validate_config config
  guard (not (contains config.key seen)) stremio
  validate_configs (config.key ∷ seen) configs

unfoldable pub validate : Manifest → Check
validate manifest = do
  validate_string manifest.id max_short_string true
  validate_string manifest.name max_short_string true
  validate_string manifest.version 128 true
  validate_optional_string manifest.description max_long_string
  validate_optional_string manifest.logo max_url_length
  validate_optional_string manifest.background max_url_length
  ensure_collection_limit (length manifest.resources) 64
  ensure_collection_limit (length manifest.types) 64
  ensure_collection_limit (length manifest.id_prefixes) max_collection_items
  ensure_collection_limit (length manifest.catalogs) 128
  ensure_collection_limit (length manifest.addon_catalogs) 128
  ensure_collection_limit (length manifest.config) 128
  validate_string_collection manifest.types 64
  validate_string_collection manifest.id_prefixes max_short_string
  validate_optional_string manifest.contact_email max_short_string
  each validate_resource manifest.resources
  each validate_catalog manifest.catalogs
  each validate_catalog manifest.addon_catalogs
  validate_configs [] manifest.config
