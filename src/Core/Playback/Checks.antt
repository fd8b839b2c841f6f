-- ===== src/Core/Playback/Checks.antt =====
-- The data of core/src/playback_progress.rs, the comparisons of its `f64`s and the checks of what is saved.
use ankai.Prelude.{
  ℕ, ◌==◌, leb, String, string_discrete, codes, utf8, Bool, true, false, not, ◌&&◌, ◌||◌, ap,
  length, Option, none, some, List, [], ◌∷◌,
}
use ankai.Prelude.Int.{ℤ, pos, ltb_ℤ, leb_ℤ}
use ankai.Core.Stremio.Checks.{is_blank}

pub data F64 : Type 0 where
  nan infinity neg_infinity : F64
  finite : ℤ → F64

abbrev pub is_finite : F64 → Bool
is_finite (finite x) = true
is_finite _ = false

-- `a < b`; a comparison with NaN fails.
unfoldable pub lt_f64 : F64 → F64 → Bool
lt_f64 (finite a) (finite b) = ltb_ℤ a b
lt_f64 (finite a) infinity = true
lt_f64 neg_infinity (finite b) = true
lt_f64 neg_infinity infinity = true
lt_f64 _ _ = false

unfoldable pub le_f64 : F64 → F64 → Bool
le_f64 (finite a) (finite b) = leb_ℤ a b
le_f64 nan b = false
le_f64 a nan = false
le_f64 neg_infinity b = true
le_f64 a infinity = true
le_f64 _ _ = false

abbrev pub zero_f64 : F64
zero_f64 = finite (pos 0)

pub record PlaybackKey : Type 0 where
  pub provider : String
  pub media_id : String
  pub episode_id : Option String

pub record PlaybackMetadata : Type 0 where
  pub title : Option String
  pub poster_url : Option String
  pub stream_url : Option String

pub record PlaybackProgress : Type 0 where
  pub key : PlaybackKey
  pub position_seconds : F64
  pub duration_seconds : F64
  pub completed : Bool
  pub title : Option String
  pub poster_url : Option String
  pub stream_url : Option String
  pub updated_at : ℕ

-- A row of the table, under its primary key.
pub record Row : Type 0 where
  pub position_seconds : F64
  pub duration_seconds : F64
  pub completed : Bool
  pub title : Option String
  pub poster_url : Option String
  pub stream_url : Option String
  pub updated_at : ℕ

pub record DbKey : Type 0 where
  pub provider : String
  pub media_id : String
  pub episode_id : String

unfoldable pub key_discrete : Discrete DbKey
key_discrete a b = elim (string_discrete a.provider b.provider) [
  | no n ↦ no (λ p. n (ap (λ (k : DbKey). k.provider) p))
  | yes e ↦ elim (string_discrete a.media_id b.media_id) [
    | no n ↦ no (λ p. n (ap (λ (k : DbKey). k.media_id) p))
    | yes f ↦ elim (string_discrete a.episode_id b.episode_id) [
      | no n ↦ no (λ p. n (ap (λ (k : DbKey). k.episode_id) p))
      | yes g ↦ yes (λ i. record { provider = e i; media_id = f i; episode_id = g i })
    ]
  ]
]

abbrev pub max_title_chars : ℕ
max_title_chars = 256

abbrev pub max_url_bytes : ℕ
max_url_bytes = 8192

abbrev pub has_code : (ℕ → Bool) → List ℕ → Bool
has_code p [] = false
has_code p (c ∷ cs) = p c || has_code p cs

unfoldable pub is_identifier : String → Bool
is_identifier value = not (is_blank value) && not (has_code (λ c. c == 0) (codes value))

abbrev pub is_episode : Option String → Bool
is_episode none = true
is_episode (some episode_id) = is_identifier episode_id

-- `validate_key`.
unfoldable pub is_key : PlaybackKey → Bool
is_key key = is_identifier key.provider && (is_identifier key.media_id && is_episode key.episode_id)

-- `validate_times`.
unfoldable pub are_times : (position_seconds duration_seconds : F64) → Bool
are_times position_seconds duration_seconds =
    not (not (is_finite position_seconds) || lt_f64 position_seconds zero_f64)
    && (not (not (is_finite duration_seconds) || le_f64 duration_seconds zero_f64)
        && not (lt_f64 duration_seconds position_seconds))

-- `char::is_control`.
abbrev pub is_control : ℕ → Bool
is_control c = leb c 31 || leb 127 c && leb c 159

unfoldable pub is_title : Option String → Bool
is_title none = true
is_title (some title) =
    not (is_blank title)
    && (leb (length (codes title)) max_title_chars && not (has_code is_control (codes title)))

abbrev pub is_http : String → Bool
is_http scheme = elim (string_discrete scheme "http") [
  | yes _ ↦ true
  | no _ ↦ elim (string_discrete scheme "https") [ yes _ ↦ true | no _ ↦ false ]
]

abbrev pub is_web : Option (String × Bool) → Bool
is_web none = false
is_web (some (scheme, has_host)) = is_http scheme && has_host

module _ (parse : String → Option (String × Bool)) where
  -- `validate_http_url`, of the scheme and the presence of a host.
  unfoldable pub is_http_url : Option String → Bool
  is_http_url none = true
  is_http_url (some value) = leb (length (utf8 value)) max_url_bytes && is_web (parse value)

  -- `validate_metadata`.
  unfoldable pub is_metadata : PlaybackMetadata → Bool
  is_metadata metadata =
      is_title metadata.title
      && (is_http_url metadata.poster_url && is_http_url metadata.stream_url)
