-- ===== src/Client/Player/Calls.antt =====
-- The calls of libmpv in client/src/playback.rs. libmpv is a parameter: what it answers to each call of one
-- operation of the player, where no call is made twice. So is the formatting of numbers.
use Prim.Native.String.{◌++◌}
use ankai.Prelude.{
  ℕ, suc, zero, String, string_discrete, codes, Bool, true, false, ◌==◌, ◌||◌, if◌then◌else◌,
  Option, none, some, List, [], ◌∷◌,
}
use ankai.Prelude.Int.{ℤ, pos, negsuc}
use ankai.Prelude.Results.{Result, ok, err, ◌>>=◌, ◌>>◌}
use ankai.Core.Playback.Checks.{F64, has_code, is_finite}
use ankai.Client.Player.{TrackKind, video, audio, subtitle, unknown, MediaTrack}

-- The codes that libmpv answers with, and the values that it writes; `none` is a null pointer.
pub record Mpv : Type 0 where
  pub command : List String → ℤ
  pub get_flag : String → ℤ × Bool
  pub get_double : String → ℤ × F64
  pub get_i64 : String → ℤ × ℤ
  pub get_string : String → ℤ × Option String
  pub set_flag : String → Bool → ℤ
  pub set_double : String → F64 → ℤ
  pub set_i64 : String → ℤ → ℤ
  pub set_string : String → String → ℤ
  pub error_string : ℤ → Option String
  pub show_f64 : F64 → String
  pub show_ℤ : ℤ → String

pub data PlayerError : Type 0 where
  library_unavailable : String → PlayerError
  invalid_library : String → PlayerError
  create_failed : PlayerError
  interior_nul : (context : String) → PlayerError
  invalid_value : (name value : String) → PlayerError
  open_gl : String → PlayerError
  mpv_error : (operation : String) (code : ℤ) (message : String) → PlayerError

abbrev pub PlayerResult : Type 0 → Type 0
PlayerResult A = Result PlayerError A

abbrev pub is_property_unavailable : PlayerError → Bool
is_property_unavailable (mpv_error operation (negsuc n) message) = n == 7 || n == 9
is_property_unavailable _ = false

abbrev pub or_unavailable : {A : Type 0} → PlayerError → Bool → PlayerResult (Option A)
or_unavailable e true = ok none
or_unavailable e false = err e

abbrev pub optional_property : {A : Type 0} → PlayerResult A → PlayerResult (Option A)
optional_property (ok value) = ok (some value)
optional_property (err e) = or_unavailable e (is_property_unavailable e)

abbrev pub flatten : Option (Option String) → Option String
flatten (some (some value)) = some value
flatten _ = none

abbrev pub parse_track_kind : String → TrackKind
parse_track_kind value = elim (string_discrete value "video") [
  | yes _ ↦ video
  | no _ ↦ elim (string_discrete value "audio") [
    | yes _ ↦ audio
    | no _ ↦ elim (string_discrete value "sub") [ yes _ ↦ subtitle | no _ ↦ unknown value ]
  ]
]

abbrev pub max_tracks : ℕ
max_tracks = 1024

abbrev pub push_some : Option MediaTrack → List MediaTrack → List MediaTrack
push_some none tracks = tracks
push_some (some track) tracks = track ∷ tracks

module _ (m : Mpv) where
  abbrev pub error_message : ℤ → String
  error_message code = elim (m.error_string code) [
    | none ↦ "unknown error (" ++ (m.show_ℤ code ++ ")")
    | some message ↦ message
  ]

  unfoldable pub check : ℤ → String → PlayerResult (Unit {0})
  check (pos n) operation = ok tt
  check (negsuc n) operation = err (mpv_error operation (negsuc n) (error_message (negsuc n)))

  abbrev pub reading : {A : Type 0} → String → ℤ × A → PlayerResult (Option A)
  reading name (code, value) =
      optional_property (check code ("reading property " ++ name) >> ok value)

  unfoldable pub get_property_flag : String → PlayerResult (Option Bool)
  get_property_flag name = reading name (m.get_flag name)

  unfoldable pub get_property_double : String → PlayerResult (Option F64)
  get_property_double name = reading name (m.get_double name)

  unfoldable pub get_property_i64 : String → PlayerResult (Option ℤ)
  get_property_i64 name = reading name (m.get_i64 name)

  unfoldable pub get_property_string : String → PlayerResult (Option String)
  get_property_string name = reading name (m.get_string name) >>= λ value. ok (flatten value)

  abbrev pub setting : String → ℤ → PlayerResult (Unit {0})
  setting name code = check code ("setting property " ++ name)

  unfoldable pub set_property_flag : String → Bool → PlayerResult (Unit {0})
  set_property_flag name value = setting name (m.set_flag name value)

  unfoldable pub set_property_double : String → F64 → PlayerResult (Unit {0})
  set_property_double name value =
      if is_finite value
      then setting name (m.set_double name value)
      else err (invalid_value "property" (name ++ ("=" ++ m.show_f64 value)))

  unfoldable pub set_optional_track : String → Option ℤ → PlayerResult (Unit {0})
  set_optional_track property (some (pos n)) = setting property (m.set_i64 property (pos n))
  set_optional_track property (some (negsuc n)) =
      err (invalid_value "track id" (m.show_ℤ (negsuc n)))
  set_optional_track property none = setting property (m.set_string property "no")

  abbrev pub any_nul : List String → Bool
  any_nul [] = false
  any_nul (value ∷ values) = has_code (λ c. c == 0) (codes value) || any_nul values

  unfoldable pub command_owned : List String → PlayerResult (Unit {0})
  command_owned [] = err (invalid_value "command" "empty argument list")
  command_owned (name ∷ arguments) =
      if any_nul (name ∷ arguments)
      then err (interior_nul "command argument")
      else check (m.command (name ∷ arguments)) ("command " ++ name)

  abbrev pub or_false : Option Bool → Bool
  or_false none = false
  or_false (some value) = value

  -- The rest of a track, once its type and its id are there.
  unfoldable pub read_details : (prefix : String) → String → ℤ → PlayerResult MediaTrack
  read_details prefix kind id = get_property_string (prefix ++ "/title") >>= λ title.
      get_property_string (prefix ++ "/lang") >>= λ language.
      get_property_string (prefix ++ "/codec") >>= λ codec.
      get_property_flag (prefix ++ "/selected") >>= λ selected.
      get_property_flag (prefix ++ "/default") >>= λ is_default.
      get_property_flag (prefix ++ "/forced") >>= λ forced.
      get_property_flag (prefix ++ "/external") >>= λ external. ok (record {
        id = id;
        kind = parse_track_kind kind;
        title = title;
        language = language;
        codec = codec;
        selected = or_false selected;
        is_default = or_false is_default;
        forced = or_false forced;
        external = or_false external;
      })

  abbrev pub read_with_id : (prefix : String) → String → Option ℤ → PlayerResult (Option MediaTrack)
  read_with_id prefix kind none = ok none
  read_with_id prefix kind (some id) = read_details prefix kind id >>= λ track. ok (some track)

  abbrev pub read_with_kind : (prefix : String) → Option String → PlayerResult (Option MediaTrack)
  read_with_kind prefix none = ok none
  read_with_kind prefix (some kind) =
      get_property_i64 (prefix ++ "/id") >>= λ id. read_with_id prefix kind id

  -- The track of an index, where it is not left out.
  unfoldable pub read_track : (prefix : String) → PlayerResult (Option MediaTrack)
  read_track prefix = get_property_string (prefix ++ "/type") >>= λ kind. read_with_kind prefix kind

  -- The loop over the indices, `left` of which are to come.
  unfoldable pub read_tracks : (left index : ℕ) → PlayerResult (List MediaTrack)
  read_tracks zero index = ok []
  read_tracks (suc left) index =
      let rest = read_tracks left (suc index) in
      read_track ("track-list/" ++ m.show_ℤ (pos index)) >>= λ track.
      rest >>= λ tracks. ok (push_some track tracks)
