-- ===== src/Client/Player/Commands.antt =====
-- The commands of the player in client/src/playback.rs, and the two readings of libmpv's state.
use ankai.Prelude.{String, Bool, not, leb, if◌then◌else◌, Option, none, some, [], ◌∷◌, zero}
use ankai.Prelude.Int.{ℤ, pos, negsuc}
use ankai.Prelude.Results.{ok, err}
use ankai.Core.Playback.Checks.{F64, is_finite, zero_f64}
use mathlib.Core.Option
use ankai.Client.Player.{
  PlayerState, whole, max_volume, min_speed, max_speed, max_f64, clamp, in_finite_range,
  update_active_phase, start_loading, become_idle,
}
use ankai.Client.Player.Calls.{
  Mpv, PlayerResult, invalid_value, max_tracks, read_tracks, set_property_flag, set_property_double,
  command_owned, get_property_flag, get_property_double, get_property_i64, get_property_string,
  set_optional_track,
}

-- An operation of the player: a failure keeps what was written before it.
abbrev pub Step : Type 0 → Type 0
Step A = PlayerState → PlayerResult A × PlayerState

infixl 5 ◌>>=◌ ◌>>◌
-- `?` on a call of libmpv, and on an operation of the player.
abbrev pub ◌>>=◌ : {A B : Type 0} → PlayerResult A → (A → Step B) → Step B
◌>>=◌ (ok a) f s = f a s
◌>>=◌ (err e) f s = (err e, s)

abbrev pub ◌>>◌ : {B : Type 0} → PlayerResult (Unit {0}) → Step B → Step B
r >> k = r >>= λ _. k

abbrev pub and_then : {A B : Type 0} → Step A → (A → Step B) → Step B
and_then m f s = let (r, s') = m s in (r >>= f) s'

abbrev pub write : (PlayerState → PlayerState) → Step (Unit {0})
write f s = (ok tt, f s)

-- `if let Some(value) = … { … }`.
abbrev pub if_some :
    {A : Type 0} → Option A → (A → PlayerState → PlayerState) → PlayerState → PlayerState
if_some none f s = s
if_some (some a) f s = f a s

module _ (m : Mpv) where
  unfoldable pub load : String → Step (Unit {0})
  load url = command_owned m ("loadfile" ∷ url ∷ "replace" ∷ []) >> write start_loading

  unfoldable pub set_pause : Bool → Step (Unit {0})
  set_pause value =
      set_property_flag m "pause" value
      >> write (λ s. update_active_phase (record s { is_paused = value }))

  unfoldable pub toggle_pause : Step (Unit {0})
  toggle_pause s = set_pause (not s.is_paused) s

  unfoldable pub set_mute : Bool → Step (Unit {0})
  set_mute value = set_property_flag m "mute" value >> write (λ s. record s { muted = value })

  unfoldable pub toggle_mute : Step (Unit {0})
  toggle_mute s = set_mute (not s.muted) s

  abbrev pub invalid : {A : Type 0} → String → F64 → Step A
  invalid name value s = (err (invalid_value name (m.show_f64 value)), s)

  unfoldable pub set_volume : F64 → Step (Unit {0})
  set_volume volume =
      if in_finite_range volume zero_f64 max_volume
      then set_property_double m "volume" volume >> write (λ s. record s { volume = volume })
      else invalid "volume" volume

  unfoldable pub set_speed : F64 → Step (Unit {0})
  set_speed speed =
      if in_finite_range speed min_speed max_speed
      then set_property_double m "speed" speed >> write (λ s. record s { speed = speed })
      else invalid "playback speed" speed

  abbrev pub seek : F64 → String → Step (Unit {0})
  seek value mode = command_owned m ("seek" ∷ m.show_f64 value ∷ mode ∷ []) >> write (λ s. s)

  unfoldable pub seek_absolute : F64 → Step (Unit {0})
  seek_absolute seconds =
      if in_finite_range seconds zero_f64 max_f64
      then seek seconds "absolute+exact"
      else invalid "seek position" seconds

  unfoldable pub seek_relative : F64 → Step (Unit {0})
  seek_relative seconds =
      if is_finite seconds then seek seconds "relative+exact" else invalid "relative seek" seconds

  unfoldable pub seek_percent : F64 → Step (Unit {0})
  seek_percent percent =
      if in_finite_range percent zero_f64 (whole 100)
      then seek percent "absolute-percent+exact"
      else invalid "seek percent" percent

  unfoldable pub set_subtitle_delay : F64 → Step (Unit {0})
  set_subtitle_delay seconds =
      if is_finite seconds
      then set_property_double m "sub-delay" seconds >> write (λ s. s)
      else invalid "subtitle delay" seconds

  unfoldable pub set_audio_track : Option ℤ → Step (Unit {0})
  set_audio_track track_id = set_optional_track m "aid" track_id >> write (λ s. s)

  unfoldable pub set_subtitle_track : Option ℤ → Step (Unit {0})
  set_subtitle_track track_id = set_optional_track m "sid" track_id >> write (λ s. s)

  unfoldable pub stop : Step (Unit {0})
  stop = command_owned m ("stop" ∷ []) >> write become_idle

  abbrev pub bad_count : ℤ → Step (Unit {0})
  bad_count count s = (err (invalid_value "track count" (m.show_ℤ count)), s)

  abbrev pub read_count : ℤ → Step (Unit {0})
  read_count (negsuc n) = bad_count (negsuc n)
  read_count (pos n) =
      if leb n max_tracks
      then read_tracks m n zero >>= (λ tracks. write (λ s. record s { tracks = tracks }))
      else bad_count (pos n)

  abbrev pub or_zero : Option ℤ → ℤ
  or_zero none = pos 0
  or_zero (some count) = count

  unfoldable pub refresh_tracks : Step (Unit {0})
  refresh_tracks = get_property_i64 m "track-list/count" >>= λ count. read_count (or_zero count)

  -- A property that is read into the state.
  abbrev pub read :
      {A : Type 0}
      → PlayerResult (Option A)
      → (Option A → PlayerState → PlayerState)
      → Step (Unit {0})
      → Step (Unit {0})
  read r f k = r >>= λ value s. k (f value s)

  unfoldable pub refresh_state : Step (Unit {0})
  refresh_state =
      read (get_property_flag m "pause") (λ o. if_some o (λ v s. record s { is_paused = v }))
        (read (get_property_flag m "mute") (λ o. if_some o (λ v s. record s { muted = v }))
          (read (get_property_double m "time-pos") (λ o s. record s { position_seconds = o })
            (read (get_property_double m "duration") (λ o s. record s { duration_seconds = o })
              (read (get_property_double m "volume")
                (λ o. if_some o (λ v s. record s { volume = v }))
                (read (get_property_double m "speed")
                  (λ o. if_some o (λ v s. record s { speed = v }))
                  (read (get_property_flag m "seeking")
                    (λ o. if_some o (λ v s. record s { seeking = v }))
                    (read (get_property_flag m "paused-for-cache")
                      (λ o. if_some o (λ v s. record s { paused_for_cache = v }))
                      (read (get_property_double m "cache-buffering-state")
                        (λ o s. record s {
                          buffering_percent = Option.map (λ v. clamp v zero_f64 (whole 100)) o;
                        })
                        (read (get_property_string m "media-title")
                          (λ o s. record s { media_title = o })
                          (and_then refresh_tracks (λ _. write update_active_phase)))))))))))
