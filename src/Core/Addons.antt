-- ===== src/Core/Addons.antt =====
-- core/src/addons.rs: the registry of installed add-ons, kept as JSON in one setting. The canonical form
-- of a URL (`AddonClient::new` and `manifest_url` of core/src/stremio.rs), the test for a blank text,
-- serde_json and the clock are parameters. Messages of errors are left out.
pub mod Order
use ankai.Prelude.{
  ℕ, zero, suc, ◌+◌, ◌%◌, ◌^◌, String, string_discrete, Bool, true, false, not, ◌||◌, ◌==◌, leb,
  length, keep, Option, none, some, List, [], ◌∷◌, ◌++◌,
}
use mathlib.Core.Option
use ankai.Prelude.Results.{Result, ok, err}
use ankai.Sql.{pure, raise, ◌>>=◌, ◌>>◌, branch, on_option}
use ankai.Core.Store.{Error, stremio, Tables, Db, Json, get_setting, set_setting}
use ankai.Core.Manifest.{Manifest, Resource, Catalog}

abbrev pub addons_setting_key : String
addons_setting_key = "stremio_addons_v1"

abbrev pub registry_format_version : ℕ
registry_format_version = 1

pub record ResourceRoles : Type 0 where
  pub catalog : Bool
  pub addon_catalog : Bool
  pub meta : Bool
  pub stream : Bool
  pub subtitles : Bool

pub data AddonHealthState : Type 0 where
  unknown healthy failing : AddonHealthState

pub record AddonHealth : Type 0 where
  pub state : AddonHealthState
  pub checked_at_unix : Option ℕ
  pub last_error : Option String

pub record InstalledAddon : Type 0 where
  pub manifest_url : String
  pub addon_id : String
  pub name : String
  pub version : String
  pub description : Option String
  pub logo : Option String
  pub background : Option String
  pub types : List String
  pub roles : ResourceRoles
  pub enabled : Bool
  pub priority : ℕ
  pub health : AddonHealth

pub record StoredRegistry : Type 0 where
  pub version : ℕ
  pub addons : List InstalledAddon

abbrev is_text : String → String → Bool
is_text s t = elim (string_discrete s t) [ yes _ ↦ true | no _ ↦ false ]

abbrev is_empty : {A : Type 0} → List A → Bool
is_empty [] = true
is_empty (_ ∷ _) = false

abbrev resource_name : Resource → String
resource_name (Resource.name n) = n
resource_name (Resource.descriptor n types id_prefixes) = n

unfoldable pub add_role : String → ResourceRoles → ResourceRoles
add_role n r = record {
  catalog = r.catalog || is_text n "catalog";
  addon_catalog = r.addon_catalog || is_text n "addon_catalog";
  meta = r.meta || is_text n "meta";
  stream = r.stream || is_text n "stream";
  subtitles = r.subtitles || is_text n "subtitles";
}

unfoldable pub add_roles : List Resource → ResourceRoles → ResourceRoles
add_roles [] r = r
add_roles (resource ∷ resources) r = add_roles resources (add_role (resource_name resource) r)

unfoldable pub from_manifest : Manifest → ResourceRoles
from_manifest manifest = add_roles manifest.resources (record {
  catalog = not (is_empty manifest.catalogs);
  addon_catalog = not (is_empty manifest.addon_catalogs);
  meta = false;
  stream = false;
  subtitles = false;
})

unfoldable pub health_ok : Option ℕ → AddonHealth
health_ok now = record {
  state = AddonHealthState.healthy;
  checked_at_unix = now;
  last_error = none;
}

unfoldable pub health_failing : String → Option ℕ → AddonHealth
health_failing error now = record {
  state = AddonHealthState.failing;
  checked_at_unix = now;
  last_error = some error;
}

-- A healthy entry has no error.
unfoldable pub settle : AddonHealth → AddonHealth
settle h = elim h.state [
  | AddonHealthState.healthy ↦ record h { last_error = none }
  | AddonHealthState.unknown ↦ h
  | AddonHealthState.failing ↦ h
]

unfoldable pub installed : String → List InstalledAddon → Bool
installed url [] = false
installed url (a ∷ addons) = is_text a.manifest_url url || installed url addons

unfoldable pub contains : String → List String → Bool
contains url [] = false
contains url (u ∷ urls) = is_text u url || contains url urls

unfoldable pub position : String → List InstalledAddon → Option ℕ
position url [] = none
position url (a ∷ addons) = elim (string_discrete a.manifest_url url) [
  | yes _ ↦ some 0
  | no _ ↦ Option.map suc (position url addons)
]

-- `addons[index]`, and a change of it.
unfoldable pub addon_at : ℕ → List InstalledAddon → Option InstalledAddon
addon_at i [] = none
addon_at zero (a ∷ addons) = some a
addon_at (suc i) (a ∷ addons) = addon_at i addons

unfoldable pub change_at :
    ℕ → (InstalledAddon → InstalledAddon) → List InstalledAddon → List InstalledAddon
change_at i f [] = []
change_at zero f (a ∷ addons) = f a ∷ addons
change_at (suc i) f (a ∷ addons) = a ∷ change_at i f addons

unfoldable pub remove_at : ℕ → List InstalledAddon → List InstalledAddon
remove_at i [] = []
remove_at zero (a ∷ addons) = addons
remove_at (suc i) (a ∷ addons) = a ∷ remove_at i addons

unfoldable pub insert_at : ℕ → InstalledAddon → List InstalledAddon → List InstalledAddon
insert_at zero x addons = x ∷ addons
insert_at (suc i) x [] = x ∷ []
insert_at (suc i) x (a ∷ addons) = a ∷ insert_at i x addons

abbrev or_stremio : {A : Type 0} → Option A → Db A
or_stremio o c = elim o [ none ↦ (err stremio, c) | some a ↦ (ok a, c) ]

module _ (canonical : String → Option String) where
  -- The loop of `validate_and_normalize`, from the URLs seen and the index of the next add-on.
  unfoldable pub normalize_from :
      List String → ℕ → List InstalledAddon → Option (List InstalledAddon)
  normalize_from urls index [] = some []
  normalize_from urls index (a ∷ addons) = elim (canonical a.manifest_url) [
    | none ↦ none
    | some url ↦ elim (contains url urls) [
      | true ↦ none
      | false ↦ elim (normalize_from (url ∷ urls) (suc index) addons) [
        | none ↦ none
        | some rest ↦ some (
            record a { manifest_url = url; priority = index % 2 ^ 32; health = settle a.health }
            ∷ rest)
      ]
    ]
  ]

  unfoldable pub validate_and_normalize : List InstalledAddon → Option (List InstalledAddon)
  validate_and_normalize addons = normalize_from [] 0 addons

  module _ (json : Json StoredRegistry) where
    unfoldable pub read_registry : Db (List InstalledAddon)
    read_registry = do
      raw ← get_setting addons_setting_key
      on_option raw
          (λ text. do
            stored ← or_stremio (json.from_str text)
            branch (not (stored.version == registry_format_version)) (raise stremio)
                (or_stremio (validate_and_normalize stored.addons)))
          (pure [])

    -- The add-ons, normalized as the code does in place, once they are written.
    unfoldable pub write_registry : List InstalledAddon → Db (List InstalledAddon)
    write_registry addons = do
      normal ← or_stremio (validate_and_normalize addons)
      raw ←
          or_stremio
            (json.to_string (record { version = registry_format_version; addons = normal }))
      set_setting addons_setting_key raw
      pure normal

    unfoldable pub list : Db (List InstalledAddon)
    list = read_registry

    unfoldable pub mutate_one : String → (InstalledAddon → InstalledAddon) → Db InstalledAddon
    mutate_one manifest_url mutate = do
      canonical_url ← or_stremio (canonical manifest_url)
      addons ← read_registry
      index ← or_stremio (position canonical_url addons)
      updated ← or_stremio (Option.map mutate (addon_at index addons))
      normal ← write_registry (change_at index mutate addons)
      pure updated

    unfoldable pub set_enabled : String → Bool → Db InstalledAddon
    set_enabled manifest_url enabled = mutate_one manifest_url (λ a. record a { enabled = enabled })

    unfoldable pub mark_failing : String → String → Option ℕ → Db InstalledAddon
    mark_failing manifest_url error now =
        mutate_one manifest_url (λ a. record a { health = health_failing error now })

    unfoldable pub move_to : String → ℕ → Db (List InstalledAddon)
    move_to manifest_url new_index = do
      canonical_url ← or_stremio (canonical manifest_url)
      addons ← read_registry
      branch (leb (length addons) new_index) (raise stremio) (do
        current_index ← or_stremio (position canonical_url addons)
        branch (current_index == new_index) (pure addons) (do
          addon ← or_stremio (addon_at current_index addons)
          write_registry (insert_at new_index addon (remove_at current_index addons))))

    unfoldable pub remove : String → Db Bool
    remove manifest_url = do
      canonical_url ← or_stremio (canonical manifest_url)
      addons ← read_registry
      let left = keep (λ (a : InstalledAddon). not (is_text a.manifest_url canonical_url)) addons
      branch (length addons == length left) (pure false)
          (do normal ← write_registry left; pure true)

    module _ (is_blank : String → Bool) where
      unfoldable pub validate_manifest : Manifest → Db (Unit {0})
      validate_manifest m =
          branch (is_blank m.id || (is_blank m.name || is_blank m.version)) (raise stremio)
            (pure tt)

      unfoldable pub add : String → Manifest → Option ℕ → Db InstalledAddon
      add manifest_url m now = do
        validate_manifest m
        url ← or_stremio (canonical manifest_url)
        addons ← read_registry
        let addon : InstalledAddon = record {
          manifest_url = url;
          addon_id = m.id;
          name = m.name;
          version = m.version;
          description = m.description;
          logo = m.logo;
          background = m.background;
          types = m.types;
          roles = from_manifest m;
          enabled = true;
          priority = length addons % 2 ^ 32;
          health = health_ok now;
        }
        branch (installed url addons) (raise stremio)
            (do normal ← write_registry (addons ++ addon ∷ []); pure addon)

      unfoldable pub refresh_manifest : String → Manifest → Option ℕ → Db InstalledAddon
      refresh_manifest manifest_url m now = do
        validate_manifest m
        mutate_one manifest_url (λ a. record a {
          addon_id = m.id;
          name = m.name;
          version = m.version;
          description = m.description;
          logo = m.logo;
          background = m.background;
          types = m.types;
          roles = from_manifest m;
          health = health_ok now;
        })
