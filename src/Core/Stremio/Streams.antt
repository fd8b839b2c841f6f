-- ===== src/Core/Stremio/Streams.antt =====
-- What core/src/stremio.rs makes of a stream: its one target, the source that the player gets and the checks.
-- reqwest's parser of URLs, its query encoder and `IpAddr::from_str` are parameters. Messages of errors are left out.
pub mod Targets
use ankai.Prelude.{
  ℕ, ◌*◌, String, Bool, true, false, not, length, map, Option, none, some, List, [], ◌∷◌, ◌++◌,
  if◌then◌else◌,
}
use ankai.Prelude.Results.{Result, ok, err, ◌>>=◌, ◌>>◌, guard, ok_or}
use ankai.Core.Store.{Error, stremio}
use ankai.Core.Stremio.Address.{IpAddr, Url, max_url_length, validate_public_https_url}
use ankai.Core.Stremio.Checks.{
  Check, each, max_short_string, max_long_string, validate_string, validate_optional_string,
  validate_optional_required_string, ensure_collection_limit, validate_string_collection,
  validate_extra_map,
}
use Prim.Native.String
use ankai.Core.Stremio.Items.{
  Stream, ArchiveSource, StreamBehaviorHints, StreamProxyHeaders, Subtitle,
}

pub data StreamTarget : Type 0 where
  direct_url you_tube external_url : String → StreamTarget
  bit_torrent :
      (info_hash : String) → (file_idx : Option ℕ) → (sources : List String) → StreamTarget
  nzb : (url : String) → (servers : List String) → StreamTarget
  rar zip seven_zip tgz tar : List ArchiveSource → StreamTarget

pub data StreamSource : Type 0 where
  direct : String → StreamSource
  bit_torrent_source :
      (info_hash : String) → (file_idx : Option ℕ) → (sources : List String) → StreamSource

-- A field that is set adds a target.
abbrev from_option : Option String → (String → StreamTarget) → List StreamTarget
from_option none f = []
from_option (some value) f = f value ∷ []

abbrev from_archive : List ArchiveSource → (List ArchiveSource → StreamTarget) → List StreamTarget
from_archive [] f = []
from_archive (x ∷ xs) f = f (x ∷ xs) ∷ []

unfoldable pub targets : Stream → List StreamTarget
targets s =
    from_option s.url direct_url
    ++ (from_option s.yt_id you_tube
        ++ (from_option s.info_hash (λ hash. bit_torrent hash s.file_idx s.sources)
            ++ (from_option s.nzb_url (λ url. nzb url s.servers)
                ++ (from_archive s.rar_urls rar
                    ++ (from_archive s.zip_urls zip
                        ++ (from_archive s.seven_zip_urls seven_zip
                            ++ (from_archive s.tgz_urls tgz
                                ++ (from_archive s.tar_urls tar
                                    ++ from_option s.external_url external_url))))))))

abbrev only : List StreamTarget → Result Error StreamTarget
only [] = err stremio
only (target ∷ []) = ok target
only (target ∷ another ∷ more) = err stremio

unfoldable pub target : Stream → Result Error StreamTarget
target s = only (targets s)

module _ (parse : String → Option Url) (parse_ip : String → Option IpAddr) where
  abbrev source_of : StreamTarget → Result Error StreamSource
  source_of (direct_url url) = do
    parsed ← ok_or (parse url) stremio
    validate_public_https_url parse_ip parsed
    ok (direct url)
  source_of (bit_torrent info_hash file_idx sources) = do
    validate_string info_hash 128 true
    ok (bit_torrent_source info_hash file_idx sources)
  source_of _ = err stremio

  unfoldable pub source : Stream → Result Error StreamSource
  source s = do t ← target s; source_of t

  -- `Subtitle::playback_url`.
  unfoldable pub playback_url : Subtitle → Result Error String
  playback_url subtitle = do
    parsed ← ok_or (parse subtitle.url) stremio
    validate_public_https_url parse_ip parsed
    ok subtitle.url

  module _ (query_pairs : (base : String) → List (String × String) → String) where
    abbrev magnet_of : StreamSource → Option String
    magnet_of (direct url) = none
    magnet_of (bit_torrent_source info_hash file_idx sources) = some (
        query_pairs "magnet:"
          (("xt", String.◌++◌ "urn:btih:" info_hash) ∷ map (λ tracker. ("tr", tracker)) sources))

    -- The base of the link is a constant, which parses.
    unfoldable pub magnet_uri : Stream → Result Error (Option String)
    magnet_uri s = do src ← source s; ok (magnet_of src)

unfoldable pub validate_subtitle : Subtitle → Check
validate_subtitle subtitle = do
  validate_string subtitle.id max_short_string true
  validate_string subtitle.url max_url_length true
  validate_string subtitle.lang 128 true
  validate_extra_map subtitle.extra

unfoldable pub validate_header_map : List (String × String) → Check
validate_header_map headers = do
  ensure_collection_limit (length headers) 64
  each
      (λ header. do
        validate_string header.0 256 true
        validate_string header.1 max_short_string false)
      headers

unfoldable pub validate_headers : StreamProxyHeaders → Check
validate_headers headers = do
  validate_header_map headers.request
  validate_header_map headers.response

abbrev validate_proxy : Bool → Option StreamProxyHeaders → Check
validate_proxy not_web_ready none = ok tt
validate_proxy not_web_ready (some headers) = do
  guard not_web_ready stremio
  validate_headers headers

unfoldable pub validate_hints : StreamBehaviorHints → Check
validate_hints hints = do
  ensure_collection_limit (length hints.country_whitelist) 256
  validate_string_collection hints.country_whitelist 16
  validate_optional_string hints.binge_group max_short_string
  validate_optional_string hints.group max_short_string
  validate_optional_string hints.filename max_short_string
  validate_optional_string hints.video_hash 256
  validate_proxy hints.not_web_ready hints.proxy_headers
  validate_extra_map hints.extra

abbrev validate_archive : ArchiveSource → Check
validate_archive archive = validate_string archive.url max_url_length true

unfoldable pub validate_archives : List ArchiveSource → Check
validate_archives archives = do
  ensure_collection_limit (length archives) 64
  each validate_archive archives

unfoldable pub validate_stream : Stream → Check
validate_stream s = do
  t ← target s
  validate_optional_required_string s.url max_url_length
  validate_optional_required_string s.info_hash 128
  validate_optional_required_string s.file_must_include max_short_string
  validate_optional_required_string s.yt_id 256
  validate_optional_required_string s.nzb_url max_url_length
  validate_optional_required_string s.external_url max_url_length
  ensure_collection_limit (length s.sources) 64
  validate_string_collection s.sources max_url_length
  ensure_collection_limit (length s.servers) 32
  validate_string_collection s.servers max_url_length
  validate_archives s.rar_urls
  validate_archives s.zip_urls
  validate_archives s.seven_zip_urls
  validate_archives s.tgz_urls
  validate_archives s.tar_urls
  validate_optional_string s.name max_short_string
  validate_optional_string s.title max_long_string
  validate_optional_string s.description max_long_string
  ensure_collection_limit (length s.subtitles) 500
  each validate_subtitle s.subtitles
  validate_hints s.behavior_hints
  validate_extra_map s.extra
