-- ===== src/Core/Stremio/Metas.antt =====
-- The checks of the metadata that an add-on sends (core/src/stremio.rs). Messages of errors are left out.
use ankai.Prelude.{ℕ, true, length, ◌++◌}
use ankai.Prelude.Results.{◌>>◌, guard}
use ankai.Core.Store.{stremio}
use ankai.Core.Stremio.Address.{max_url_length, is_text}
use ankai.Core.Stremio.Checks.{
  Check, each, max_collection_items, max_short_string, max_long_string, validate_string,
  validate_optional_string, ensure_collection_limit, validate_string_collection, validate_extra_map,
}
use ankai.Core.Stremio.Items.{
  MetaLink, MetaTrailer, legacy, stream, MetaPreview, Video, Meta, AddonCatalogEntry,
}
use ankai.Core.Stremio.Streams.{validate_stream}
use ankai.Core.Stremio.Manifests.{validate}

abbrev pub max_stream_items : ℕ
max_stream_items = 500

abbrev pub max_video_items : ℕ
max_video_items = 2000

unfoldable pub validate_link : MetaLink → Check
validate_link link = do
  validate_string link.name max_short_string true
  validate_string link.category 128 true
  validate_string link.url max_url_length true

unfoldable pub validate_trailer : MetaTrailer → Check
validate_trailer (legacy trailer) = do
  validate_string trailer.source 256 true
  validate_string trailer.trailer_type 64 true
validate_trailer (stream s) = validate_stream s

unfoldable pub validate_preview : MetaPreview → Check
validate_preview preview = do
  validate_string preview.id max_short_string true
  validate_string preview.media_type 64 true
  validate_string preview.name max_short_string true
  validate_optional_string preview.poster max_url_length
  validate_optional_string preview.background max_url_length
  validate_optional_string preview.logo max_url_length
  validate_optional_string preview.description max_long_string
  validate_optional_string preview.release_info max_short_string
  ensure_collection_limit (length preview.genres) max_collection_items
  ensure_collection_limit (length preview.genre) max_collection_items
  ensure_collection_limit (length preview.director) max_collection_items
  ensure_collection_limit (length preview.writer) max_collection_items
  ensure_collection_limit (length preview.cast) max_collection_items
  ensure_collection_limit (length preview.links) max_collection_items
  ensure_collection_limit (length preview.trailers) 64
  ensure_collection_limit (length preview.trailer_streams) 64
  validate_string_collection preview.genres max_short_string
  validate_string_collection preview.genre max_short_string
  validate_string_collection preview.director max_short_string
  validate_string_collection preview.writer max_short_string
  validate_string_collection preview.cast max_short_string
  validate_optional_string preview.imdb_rating 32
  each validate_link preview.links
  each validate_trailer preview.trailers
  each validate_stream preview.trailer_streams
  validate_optional_string preview.released 128
  validate_optional_string preview.year 64
  validate_optional_string preview.runtime 128
  validate_optional_string preview.country 128
  validate_optional_string preview.awards max_long_string
  validate_optional_string preview.behavior_hints.default_video_id max_short_string
  validate_extra_map preview.behavior_hints.extra
  validate_extra_map preview.extra

unfoldable pub validate_video : Video → Check
validate_video video = do
  validate_string video.id max_short_string true
  validate_optional_string video.title max_short_string
  validate_optional_string video.released 128
  validate_optional_string video.thumbnail max_url_length
  validate_optional_string video.overview max_long_string
  ensure_collection_limit (length video.streams) max_stream_items
  ensure_collection_limit (length video.trailers) 64
  each validate_stream (video.streams ++ video.trailers)
  validate_extra_map video.extra

unfoldable pub validate_meta : Meta → Check
validate_meta meta = do
  validate_string meta.id max_short_string true
  validate_string meta.media_type 64 true
  validate_string meta.name max_short_string true
  validate_optional_string meta.poster max_url_length
  validate_optional_string meta.background max_url_length
  validate_optional_string meta.logo max_url_length
  validate_optional_string meta.description max_long_string
  ensure_collection_limit (length meta.cast) max_collection_items
  ensure_collection_limit (length meta.director) max_collection_items
  ensure_collection_limit (length meta.writer) max_collection_items
  ensure_collection_limit (length meta.genres) max_collection_items
  ensure_collection_limit (length meta.genre) max_collection_items
  ensure_collection_limit (length meta.links) max_collection_items
  ensure_collection_limit (length meta.trailers) 64
  ensure_collection_limit (length meta.trailer_streams) 64
  ensure_collection_limit (length meta.videos) max_video_items
  validate_string_collection meta.cast max_short_string
  validate_string_collection meta.director max_short_string
  validate_string_collection meta.writer max_short_string
  validate_string_collection meta.genres max_short_string
  validate_string_collection meta.genre max_short_string
  validate_optional_string meta.release_info max_short_string
  validate_optional_string meta.imdb_rating 32
  validate_optional_string meta.released 128
  validate_optional_string meta.year 64
  validate_optional_string meta.dvd_release 128
  validate_optional_string meta.runtime 128
  validate_optional_string meta.language 128
  validate_optional_string meta.country 128
  validate_optional_string meta.awards max_long_string
  validate_optional_string meta.website max_url_length
  validate_optional_string meta.behavior_hints.default_video_id max_short_string
  validate_extra_map meta.behavior_hints.extra
  each validate_link meta.links
  each validate_trailer meta.trailers
  each validate_stream meta.trailer_streams
  each validate_video meta.videos
  validate_extra_map meta.extra

unfoldable pub validate_entry : AddonCatalogEntry → Check
validate_entry entry = do
  validate_string entry.transport_name 64 true
  guard (is_text entry.transport_name "http") stremio
  validate_string entry.transport_url max_url_length true
  validate entry.manifest
