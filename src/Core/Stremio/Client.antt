-- ===== src/Core/Stremio/Client.antt =====
-- `AddonClient` of core/src/stremio.rs: the requests to an add-on and the reading of its answers. The network,
-- reqwest's URLs and serde_json are parameters; messages of errors are left out.
pub mod Answers
use ankai.Prelude.{
  ℕ, ◌+◌, ◌-◌, ◌*◌, ◌^◌, String, codes, Bool, true, false, not, leb, ltb, length, Option, none,
  some, List, [], ◌∷◌, ◌++◌, if◌then◌else◌,
}
use Prim.Native.String
use ankai.Prelude.Results.{Result, ok, err, ◌>>=◌, ◌>>◌, guard, ok_or}
use ankai.Core.Store.{Error, stremio}
use ankai.Core.Manifest.{Manifest}
use ankai.Core.Stremio.Address.{
  IpAddr, Url, is_text, ends_with, trim_end_matches, validate_public_https_url,
}
use ankai.Core.Stremio.Checks.{
  Check, each, max_short_string, validate_string, ensure_collection_limit,
}
use ankai.Core.Stremio.Items.{Meta, MetaPreview, Stream, Subtitle, AddonCatalogEntry}
use ankai.Core.Stremio.Manifests.{validate}
use ankai.Core.Stremio.Metas.{max_stream_items, validate_preview, validate_meta, validate_entry}
use ankai.Core.Stremio.Streams.{validate_stream, validate_subtitle}

abbrev pub max_manifest_bytes : ℕ
max_manifest_bytes = 1024 * 1024

abbrev pub max_catalog_bytes : ℕ
max_catalog_bytes = 4 * 1024 * 1024

abbrev pub max_meta_bytes : ℕ
max_meta_bytes = 4 * 1024 * 1024

abbrev pub max_stream_bytes : ℕ
max_stream_bytes = 2 * 1024 * 1024

abbrev pub max_subtitles_bytes : ℕ
max_subtitles_bytes = 2 * 1024 * 1024

abbrev pub max_addon_catalog_bytes : ℕ
max_addon_catalog_bytes = 4 * 1024 * 1024

abbrev pub max_catalog_items : ℕ
max_catalog_items = 500

abbrev pub max_subtitle_items : ℕ
max_subtitle_items = 500

abbrev pub max_addon_catalog_items : ℕ
max_addon_catalog_items = 128

pub data AddonTransportOutcome : Type 0 where
  supported_https unsupported_insecure_http unsupported_legacy_v1 unsupported_legacy_v2
        unsupported_ipfs unsupported_ipns unsupported_stremio_deep_link :
      AddonTransportOutcome
  unsupported_scheme : String → AddonTransportOutcome

abbrev pub is_supported : AddonTransportOutcome → Bool
is_supported supported_https = true
is_supported _ = false

abbrev of_scheme : String → AddonTransportOutcome
of_scheme scheme =
    if is_text scheme "https"
    then supported_https
    else if is_text scheme "http"
    then unsupported_insecure_http
    else if is_text scheme "ipfs"
    then unsupported_ipfs
    else if is_text scheme "ipns"
    then unsupported_ipns
    else if is_text scheme "stremio"
    then unsupported_stremio_deep_link
    else unsupported_scheme scheme

abbrev of_url : Url → AddonTransportOutcome
of_url parsed =
    let path : List ℕ = trim_end_matches b'/' (codes parsed.path) in
    if ends_with (codes "/stremio/v1") path
    then unsupported_legacy_v1
    else if ends_with (codes "/stremio/v2") path
    then unsupported_legacy_v2
    else of_scheme parsed.scheme

unfoldable pub transport_outcome :
    (parse : String → Option Url) → String → Result Error AddonTransportOutcome
transport_outcome parse url = do parsed ← ok_or (parse url) stremio; ok (of_url parsed)

-- What the server answers: its status, the length that it declares, and the chunks that come, of which one may
-- fail to be read.
pub record Response : Type 0 where
  pub is_success : Bool
  pub content_length : Option ℕ
  pub chunks : List (Option (List ℕ))

-- `usize::saturating_add`.
abbrev saturating_add : ℕ → ℕ → ℕ
saturating_add a b = if ltb (a + b) (2 ^ 64) then a + b else 2 ^ 64 - 1

unfoldable pub read_chunks :
    (max_bytes : ℕ) → (body : List ℕ) → List (Option (List ℕ)) → Result Error (List ℕ)
read_chunks max_bytes body [] = ok body
read_chunks max_bytes body (none ∷ chunks) = err stremio
read_chunks max_bytes body (some chunk ∷ chunks) =
    let rest = read_chunks max_bytes (body ++ chunk) chunks in
    if ltb max_bytes (saturating_add (length body) (length chunk)) then err stremio else rest

abbrev too_long : ℕ → Option ℕ → Bool
too_long max_bytes none = false
too_long max_bytes (some n) = ltb max_bytes n

unfoldable pub read_bounded_body : Response → (max_bytes : ℕ) → Result Error (List ℕ)
read_bounded_body response max_bytes = do
  guard (not (too_long max_bytes response.content_length)) stremio
  read_chunks max_bytes [] response.chunks

pub record CatalogPage : Type 0 where
  pub metas : List MetaPreview
  pub cache_max_age : Option ℕ
  pub stale_revalidate : Option ℕ
  pub stale_error : Option ℕ

-- serde_json for the answers.
pub record Decoders : Type 0 where
  pub manifest : List ℕ → Option Manifest
  pub catalog : List ℕ → Option CatalogPage
  pub meta : List ℕ → Option Meta
  pub streams : List ℕ → Option (List Stream)
  pub subtitles : List ℕ → Option (List Subtitle)
  pub addons : List ℕ → Option (List AddonCatalogEntry)

-- The base URL with segments added to its path, the encoded query of pairs, the address of a host and the answer
-- to a request, which may fail.
pub record Network : Type 0 where
  pub endpoint : List String → Option Url
  pub encode_pairs : List (String × String) → String
  pub parse_ip : String → Option IpAddr
  pub send : Url → Option Response

unfoldable pub get :
    {T : Type 0} → Network → (List ℕ → Option T) → Url → (max_bytes : ℕ) → Result Error T
get net from_slice url max_bytes = do
  validate_public_https_url net.parse_ip url
  response ← ok_or (net.send url) stremio
  guard response.is_success stremio
  body ← read_bounded_body response max_bytes
  ok_or (from_slice body) stremio

abbrev validate_path_value : String → Check
validate_path_value value = validate_string value max_short_string true

abbrev json_file : String → String
json_file s = String.◌++◌ s ".json"

abbrev validate_pairs : List (String × String) → Check
validate_pairs extra = do
  guard (leb (length extra) 16) stremio
  each (λ pair. do validate_string pair.0 64 true; validate_string pair.1 512 false) extra

-- The parts of the path of a resource.
abbrev parts_of : Network → (resource media_type id : String) → List (String × String) → List String
parts_of net resource media_type id [] = resource ∷ media_type ∷ json_file id ∷ []
parts_of net resource media_type id (pair ∷ extra) =
    resource ∷ media_type ∷ id ∷ json_file (net.encode_pairs (pair ∷ extra)) ∷ []

unfoldable pub resource_endpoint :
    Network → (resource media_type id : String) → List (String × String) → Result Error Url
resource_endpoint net resource media_type id extra = do
  validate_pairs extra
  ok_or (net.endpoint (parts_of net resource media_type id extra)) stremio

module _ (net : Network) (json : Decoders) where
  unfoldable pub manifest : Result Error Manifest
  manifest = do
    url ← ok_or (net.endpoint ("manifest.json" ∷ [])) stremio
    m ← get net json.manifest url max_manifest_bytes
    validate m
    ok m

  -- The source writes the checks and the path of `resource_endpoint` out again.
  unfoldable pub catalog_page_with_extra :
      (media_type catalog_id : String) → List (String × String) → Result Error CatalogPage
  catalog_page_with_extra media_type catalog_id extra = do
    validate_path_value media_type
    validate_path_value catalog_id
    validate_pairs extra
    url ← ok_or (net.endpoint (parts_of net "catalog" media_type catalog_id extra)) stremio
    page ← get net json.catalog url max_catalog_bytes
    guard (leb (length page.metas) max_catalog_items) stremio
    each validate_preview page.metas
    ok page

  unfoldable pub meta : (media_type id : String) → Result Error Meta
  meta media_type id = do
    validate_path_value media_type
    validate_path_value id
    url ← ok_or (net.endpoint ("meta" ∷ media_type ∷ json_file id ∷ [])) stremio
    m ← get net json.meta url max_meta_bytes
    validate_meta m
    ok m

  unfoldable pub streams : (media_type id : String) → Result Error (List Stream)
  streams media_type id = do
    validate_path_value media_type
    validate_path_value id
    url ← ok_or (net.endpoint ("stream" ∷ media_type ∷ json_file id ∷ [])) stremio
    found ← get net json.streams url max_stream_bytes
    guard (leb (length found) max_stream_items) stremio
    each validate_stream found
    ok found

  unfoldable pub subtitles_with_extra :
      (media_type id : String) → List (String × String) → Result Error (List Subtitle)
  subtitles_with_extra media_type id extra = do
    validate_path_value media_type
    validate_path_value id
    url ← resource_endpoint net "subtitles" media_type id extra
    found ← get net json.subtitles url max_subtitles_bytes
    ensure_collection_limit (length found) max_subtitle_items
    each validate_subtitle found
    ok found

  unfoldable pub addon_catalog_with_extra :
      (media_type catalog_id : String)
      → List (String × String)
      → Result Error (List AddonCatalogEntry)
  addon_catalog_with_extra media_type catalog_id extra = do
    validate_path_value media_type
    validate_path_value catalog_id
    url ← resource_endpoint net "addon_catalog" media_type catalog_id extra
    found ← get net json.addons url max_addon_catalog_bytes
    ensure_collection_limit (length found) max_addon_catalog_items
    each validate_entry found
    ok found
