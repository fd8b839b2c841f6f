-- ===== src/Core/Stremio/Items.antt =====
-- The items that an add-on sends (core/src/stremio.rs). A map from texts to values is the list of its fields.
use ankai.Prelude.{ℕ, Bool, String, Option, List}
use ankai.Core.Manifest.{Manifest}
use ankai.Core.Stremio.Checks.{Fields}

pub data PosterShape : Type 0 where
  poster square landscape : PosterShape

pub record MetaLink : Type 0 where
  pub name : String
  pub category : String
  pub url : String

pub record LegacyTrailer : Type 0 where
  pub source : String
  pub trailer_type : String

pub record MetaBehaviorHints : Type 0 where
  pub default_video_id : Option String
  pub has_scheduled_videos : Option Bool
  pub extra : Fields

pub record ArchiveSource : Type 0 where
  pub url : String
  pub bytes : Option ℕ

pub record StreamProxyHeaders : Type 0 where
  pub request : List (String × String)
  pub response : List (String × String)

pub record StreamBehaviorHints : Type 0 where
  pub country_whitelist : List String
  pub not_web_ready : Bool
  pub binge_group : Option String
  pub group : Option String
  pub proxy_headers : Option StreamProxyHeaders
  pub filename : Option String
  pub video_hash : Option String
  pub video_size : Option ℕ
  pub extra : Fields

pub record Subtitle : Type 0 where
  pub id : String
  pub url : String
  pub lang : String
  pub extra : Fields

pub record Stream : Type 0 where
  pub url : Option String
  pub info_hash : Option String
  pub file_idx : Option ℕ
  pub file_must_include : Option String
  pub yt_id : Option String
  pub nzb_url : Option String
  pub servers : List String
  pub rar_urls : List ArchiveSource
  pub zip_urls : List ArchiveSource
  pub seven_zip_urls : List ArchiveSource
  pub tgz_urls : List ArchiveSource
  pub tar_urls : List ArchiveSource
  pub external_url : Option String
  pub sources : List String
  pub name : Option String
  pub title : Option String
  pub description : Option String
  pub subtitles : List Subtitle
  pub behavior_hints : StreamBehaviorHints
  pub extra : Fields

pub data MetaTrailer : Type 0 where
  legacy : LegacyTrailer → MetaTrailer
  stream : Stream → MetaTrailer

pub record MetaPreview : Type 0 where
  pub id : String
  pub media_type : String
  pub name : String
  pub poster : Option String
  pub poster_shape : Option PosterShape
  pub background : Option String
  pub logo : Option String
  pub description : Option String
  pub genres : List String
  pub genre : List String
  pub release_info : Option String
  pub imdb_rating : Option String
  pub director : List String
  pub writer : List String
  pub cast : List String
  pub links : List MetaLink
  pub trailers : List MetaTrailer
  pub trailer_streams : List Stream
  pub released : Option String
  pub year : Option String
  pub runtime : Option String
  pub country : Option String
  pub awards : Option String
  pub behavior_hints : MetaBehaviorHints
  pub extra : Fields

pub record Video : Type 0 where
  pub id : String
  pub title : Option String
  pub season : Option ℕ
  pub episode : Option ℕ
  pub released : Option String
  pub thumbnail : Option String
  pub streams : List Stream
  pub available : Option Bool
  pub trailers : List Stream
  pub overview : Option String
  pub extra : Fields

pub record Meta : Type 0 where
  pub id : String
  pub media_type : String
  pub name : String
  pub poster : Option String
  pub poster_shape : Option PosterShape
  pub background : Option String
  pub logo : Option String
  pub description : Option String
  pub cast : List String
  pub director : List String
  pub writer : List String
  pub genres : List String
  pub genre : List String
  pub release_info : Option String
  pub imdb_rating : Option String
  pub released : Option String
  pub year : Option String
  pub dvd_release : Option String
  pub trailers : List MetaTrailer
  pub trailer_streams : List Stream
  pub links : List MetaLink
  pub videos : List Video
  pub runtime : Option String
  pub language : Option String
  pub country : Option String
  pub awards : Option String
  pub website : Option String
  pub behavior_hints : MetaBehaviorHints
  pub extra : Fields

pub record AddonCatalogEntry : Type 0 where
  pub transport_name : String
  pub transport_url : String
  pub manifest : Manifest
