-- ===== src/Core/Stremio/Tests.antt =====
-- The theorems on the add-on protocol at concrete inputs.
use ankai.Prelude.{
  ℕ, suc, ◌≤◌, String, string_discrete, same_codes, utf8, true, false, ◌&&◌, leb, length, All,
  Option, none, some, List, [], ◌∷◌, ◌≡◌, refl, arith, if◌then◌else◌,
}
use ankai.Prelude.Dict.{lookup, insert}
use ankai.Prelude.Results.{ok, err}
use ankai.Core.Store.{stremio}
use ankai.Core.Manifest.{Manifest, Catalog, CatalogExtra}
use ankai.Core.Stremio.Address.{
  Ipv4Addr, IpAddr, Url, max_redirects, is_non_public_ipv4, is_obviously_local_name,
  trim_end_matches, has_dot, ends_with, any_suffix, same_origin, validate_public_https_url,
  on_redirect,
}
use ankai.Core.Stremio.Address.Blocks.{
  to_bits, in_block, non_public_blocks, is_non_public_ipv4-in_block,
}
use ankai.Core.Stremio.Address.Redirects.{IsPublic, Followed, start, hop, Followed-IsPublic}
use ankai.Core.Stremio.Checks.{
  Value, Items, Fields, count_fields, max_extra_fields, max_extra_depth, max_extra_nodes,
  validate_extra_map, validate_extra_value, is_blank, is_whitespace, validate_string,
  validate_optional_string, validate_optional_required_string, validate_string_collection,
  ensure_collection_limit,
}
use ankai.Core.Stremio.Checks.Values.{depth_fields, size_fields, are_small, validate_extra_map_lem}
use ankai.Core.Stremio.Items.{Stream, StreamBehaviorHints}
use ankai.Core.Stremio.Manifests.{
  validate, validate_catalog, validate_extras, validate_configs, find_extra, push_value, allows,
  collect_extra, check_counts, validate_request_extra, find_catalog, request_in,
  catalog_for_request,
}
use ankai.Core.Stremio.Manifests.Requests.{Allowed, Counted}
use ankai.Core.Stremio.Manifests.Sound.{IsSound, catalog_for_request-IsSound}
use ankai.Core.Stremio.Streams.{
  targets, target, source, direct, validate_archives, validate_hints, validate_stream,
}
use ankai.Core.Stremio.Streams.Targets.{NoOther, FromStream, source-FromStream}
use ankai.Core.Stremio.Metas.{max_stream_items}
use ankai.Core.Stremio.Client.{
  Response, Network, Decoders, read_chunks, read_bounded_body, get, streams, max_stream_bytes,
}
use ankai.Core.Stremio.Client.Answers.{Answered, streams-Answered}

-- 172.20.0.1, of a private block.
abbrev private_address : Ipv4Addr
private_address = record { a = 172; b = 20; c = 0; d = 1 }

is_non_public_ipv4-in_block_example :
    is_non_public_ipv4 private_address ≡ in_block non_public_blocks (to_bits private_address)
is_non_public_ipv4-in_block_example =
    is_non_public_ipv4-in_block private_address (omega arith) (omega arith) (omega arith)
      (omega arith)

abbrev no_ip : String → Option IpAddr
no_ip host = none

abbrev https : (path : String) → Url
https path = record {
  len = 40;
  scheme = "https";
  username = "";
  password = none;
  host_str = some "addon.example.org";
  port_or_known_default = some 443;
  path = path;
}

moved : Followed no_ip (https "/") (https "/new" ∷ [])
unfolding on_redirect same_origin string_discrete validate_public_https_url is_obviously_local_name
    has_dot trim_end_matches same_codes any_suffix ends_with
moved = hop [] (https "/new") start refl

Followed-IsPublic_example :
    (length (https "/new" ∷ []) ≤ max_redirects)
    × All (λ url. (same_origin (https "/") url ≡ true) × IsPublic no_ip url) (https "/new" ∷ [])
Followed-IsPublic_example = Followed-IsPublic no_ip (https "/") (https "/new" ∷ []) moved

abbrev extras : Fields
extras = Fields.field "a" (Value.array (Items.item Value.null Items.nil)) Fields.end

validate_extra_map_lem_example : validate_extra_map extras ≡ (
    if leb (count_fields extras) max_extra_fields
      && (leb (depth_fields extras) (suc max_extra_depth)
          && (leb (size_fields extras) max_extra_nodes && are_small extras))
    then ok tt
    else err stremio)
validate_extra_map_lem_example = validate_extra_map_lem extras

abbrev genre : CatalogExtra
genre = record {
  name = "genre";
  options = "Drama" ∷ "Comedy" ∷ [];
  is_required = true;
  options_limit = none;
}

abbrev top : Catalog
top = record { media_type = "movie"; id = "top"; name = none; genres = []; extra = genre ∷ [] }

abbrev asked : List (String × String)
asked = ("genre", "Comedy") ∷ []

abbrev movies : Manifest
movies = record {
  id = "org.movies";
  name = "Movies";
  version = "1.0.0";
  description = none;
  logo = none;
  background = none;
  resources = [];
  types = "movie" ∷ [];
  id_prefixes = [];
  catalogs = top ∷ [];
  addon_catalogs = [];
  contact_email = none;
  behavior_hints = record {
    adult = false;
    p2p = false;
    configurable = false;
    configuration_required = false;
  };
  config = [];
}

movies_accepted : validate movies ≡ ok tt
unfolding validate validate_string is_blank is_whitespace utf8 validate_optional_string
    ensure_collection_limit validate_string_collection validate_catalog validate_extras
    validate_configs
movies_accepted = refl

asked_let_through : catalog_for_request movies "movie" "top" asked ≡ ok (some top)
unfolding request_in find_catalog string_discrete validate_request_extra collect_extra find_extra
    allows check_counts lookup push_value insert
asked_let_through = refl

catalog_for_request-IsSound_example :
    (top.media_type ≡ "movie")
    × (top.id ≡ "top")
    × IsSound top
    × All (Allowed top.extra) asked
    × All (Counted asked) top.extra
catalog_for_request-IsSound_example =
    catalog_for_request-IsSound movies "movie" "top" asked top movies_accepted asked_let_through

abbrev hints : StreamBehaviorHints
hints = record {
  country_whitelist = [];
  not_web_ready = false;
  binge_group = none;
  group = none;
  proxy_headers = none;
  filename = none;
  video_hash = none;
  video_size = none;
  extra = Fields.end;
}

abbrev film : Stream
film = record {
  url = some "https://addon.example.org/film.mkv";
  info_hash = none;
  file_idx = none;
  file_must_include = none;
  yt_id = none;
  nzb_url = none;
  servers = [];
  rar_urls = [];
  zip_urls = [];
  seven_zip_urls = [];
  tgz_urls = [];
  tar_urls = [];
  external_url = none;
  sources = [];
  name = none;
  title = none;
  description = none;
  subtitles = [];
  behavior_hints = hints;
  extra = Fields.end;
}

abbrev parse : String → Option Url
parse text = some (https "/film.mkv")

film_plays : source parse no_ip film ≡ ok (direct "https://addon.example.org/film.mkv")
unfolding source target targets validate_public_https_url string_discrete is_obviously_local_name
    has_dot trim_end_matches same_codes any_suffix ends_with
film_plays = refl

source-FromStream_example :
    NoOther film × FromStream parse no_ip film (direct "https://addon.example.org/film.mkv")
source-FromStream_example =
    source-FromStream parse no_ip film (direct "https://addon.example.org/film.mkv") film_plays

abbrev bytes : List ℕ
bytes = 1 ∷ 2 ∷ 3 ∷ []

abbrev answer : Response
answer = record {
  is_success = true;
  content_length = some 3;
  chunks = some (1 ∷ 2 ∷ []) ∷ some (3 ∷ []) ∷ [];
}

answer_read : read_bounded_body answer 3 ≡ ok bytes
unfolding read_bounded_body read_chunks
answer_read = refl

abbrev net : Network
net = record {
  endpoint = λ parts. some (https "/stream/movie/tt1.json");
  encode_pairs = λ pairs. "";
  parse_ip = no_ip;
  send = λ url. some answer;
}

abbrev json : Decoders
json = record {
  manifest = λ body. none;
  catalog = λ body. none;
  meta = λ body. none;
  streams = λ body. some (film ∷ []);
  subtitles = λ body. none;
  addons = λ body. none;
}

film_found : streams net json "movie" "tt1" ≡ ok (film ∷ [])
unfolding streams validate_string is_blank is_whitespace utf8 get validate_public_https_url
    string_discrete is_obviously_local_name has_dot trim_end_matches same_codes any_suffix ends_with
    read_bounded_body read_chunks validate_stream target targets validate_optional_string
    validate_optional_required_string validate_string_collection ensure_collection_limit
    validate_archives validate_hints validate_extra_map validate_extra_value
film_found = refl

streams-Answered_example :
    Answered net json.streams max_stream_bytes (film ∷ [])
    × (length (film ∷ []) ≤ max_stream_items)
    × All (λ s. validate_stream s ≡ ok tt) (film ∷ [])
streams-Answered_example = streams-Answered net json "movie" "tt1" (film ∷ []) film_found
