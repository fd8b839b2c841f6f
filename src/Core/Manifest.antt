-- ===== src/Core/Manifest.antt =====
-- An add-on's manifest, as core/src/stremio.rs reads it.
use ankai.Prelude.{ℕ, Bool, String, Option, List}
use ankai.Core.Stremio.Checks.{Value}

pub record CatalogExtra : Type 0 where
  pub name : String
  pub options : List String
  pub is_required : Bool
  pub options_limit : Option ℕ

pub record Catalog : Type 0 where
  pub media_type : String
  pub id : String
  pub name : Option String
  pub genres : List String
  pub extra : List CatalogExtra

-- A resource by its name alone, or with the types and the prefixes of ids that it is for.
pub data Resource : Type 0 where
  name : String → Resource
  descriptor : String → (types id_prefixes : List String) → Resource

pub record ManifestBehaviorHints : Type 0 where
  pub adult : Bool
  pub p2p : Bool
  pub configurable : Bool
  pub configuration_required : Bool

pub data ManifestConfigType : Type 0 where
  text string number password checkbox boolean select unknown : ManifestConfigType

pub record ManifestConfig : Type 0 where
  pub key : String
  pub config_type : ManifestConfigType
  pub default : Option Value
  pub title : Option String
  pub options : List String
  pub required : Bool

pub record Manifest : Type 0 where
  pub id : String
  pub name : String
  pub version : String
  pub description : Option String
  pub logo : Option String
  pub background : Option String
  pub resources : List Resource
  pub types : List String
  pub id_prefixes : List String
  pub catalogs : List Catalog
  pub addon_catalogs : List Catalog
  pub contact_email : Option String
  pub behavior_hints : ManifestBehaviorHints
  pub config : List ManifestConfig
