-- ===== src/Client/Player/Refusals.antt =====
-- What a command of client/src/playback.rs that fails leaves of the player's state.
use ankai.Prelude.{if◌then◌else◌, String, Bool, not, Option, true, false, [], ◌∷◌, ◌≡◌, refl, arith}
use ankai.Prelude.Int.{ℤ}
use ankai.Prelude.Results.{ok, err}
use ankai.Core.Playback.Checks.{F64, is_finite, zero_f64}
use ankai.Client.Player.{
  PlayerState, whole, in_finite_range, max_volume, min_speed, max_speed, max_f64,
}
use ankai.Client.Player.Calls.{
  Mpv, PlayerResult, PlayerError, set_property_flag, set_property_double, set_optional_track,
  command_owned,
}
use ankai.Client.Player.Commands.{
  Step, ◌>>◌, write, invalid, load, set_pause, toggle_pause, set_mute, toggle_mute, set_volume,
  set_speed, seek_absolute, seek_relative, seek_percent, set_subtitle_delay, set_audio_track,
  set_subtitle_track, stop,
}

pub data Command : Type 0 where
  load_url : String → Command
  pause mute : Bool → Command
  toggle_of_pause toggle_of_mute to_stop : Command
  volume speed to_seconds by_seconds to_percent subtitle_delay : F64 → Command
  audio_track subtitle_track : Option ℤ → Command

unfoldable pub run : Mpv → Command → Step (Unit {0})
run m (load_url url) = load m url
run m (pause value) = set_pause m value
run m (mute value) = set_mute m value
run m toggle_of_pause = toggle_pause m
run m toggle_of_mute = toggle_mute m
run m to_stop = stop m
run m (volume value) = set_volume m value
run m (speed value) = set_speed m value
run m (to_seconds value) = seek_absolute m value
run m (by_seconds value) = seek_relative m value
run m (to_percent value) = seek_percent m value
run m (subtitle_delay value) = set_subtitle_delay m value
run m (audio_track id) = set_audio_track m id
run m (subtitle_track id) = set_subtitle_track m id

-- The step writes nothing where it fails.
abbrev AllOrNothing : Step (Unit {0}) → Type 0
AllOrNothing f = (s : PlayerState) (e : PlayerError) → (f s).0 ≡ err e → (f s).1 ≡ s

write-AllOrNothing :
    (r : PlayerResult (Unit {0})) (f : PlayerState → PlayerState) → AllOrNothing (r >> write f)
write-AllOrNothing (ok a) f s e h = ground arith
write-AllOrNothing (err b) f s e h = refl

checked-AllOrNothing :
    (m : Mpv) (b : Bool) (f : Step (Unit {0})) (name : String) (value : F64)
    → AllOrNothing f
    → AllOrNothing (if b then f else invalid m name value)
checked-AllOrNothing m true f name value h s e q = h s e q
checked-AllOrNothing m false f name value h s e q = refl

-- A command that fails leaves the player's state as it was, whatever libmpv answers and for any arguments: loading,
-- pausing, muting, the volume, the speed, seeking, the tracks, the delay of the subtitles and stopping.
pub run_fails :
    (m : Mpv) (command : Command) (s : PlayerState) (e : PlayerError)
    → (run m command s).0 ≡ err e
    → (run m command s).1 ≡ s
unfolding run load set_pause toggle_pause set_mute toggle_mute set_volume set_speed seek_absolute
    seek_relative seek_percent set_subtitle_delay set_audio_track set_subtitle_track stop
run_fails m (load_url url) s e =
    write-AllOrNothing (command_owned m ("loadfile" ∷ url ∷ "replace" ∷ [])) _ s e
run_fails m (pause value) s e = write-AllOrNothing (set_property_flag m "pause" value) _ s e
run_fails m (mute value) s e = write-AllOrNothing (set_property_flag m "mute" value) _ s e
run_fails m toggle_of_pause s e =
    write-AllOrNothing (set_property_flag m "pause" (not s.is_paused)) _ s e
run_fails m toggle_of_mute s e = write-AllOrNothing (set_property_flag m "mute" (not s.muted)) _ s e
run_fails m to_stop s e = write-AllOrNothing (command_owned m ("stop" ∷ [])) _ s e
run_fails m (volume value) s e =
    checked-AllOrNothing m (in_finite_range value zero_f64 max_volume) _ "volume" value
      (write-AllOrNothing (set_property_double m "volume" value) _) s e
run_fails m (speed value) s e =
    checked-AllOrNothing m (in_finite_range value min_speed max_speed) _ "playback speed" value
      (write-AllOrNothing (set_property_double m "speed" value) _) s e
run_fails m (to_seconds value) s e =
    checked-AllOrNothing m (in_finite_range value zero_f64 max_f64) _ "seek position" value
      (write-AllOrNothing (command_owned m ("seek" ∷ m.show_f64 value ∷ "absolute+exact" ∷ [])) _) s
      e
run_fails m (by_seconds value) s e =
    checked-AllOrNothing m (is_finite value) _ "relative seek" value
      (write-AllOrNothing (command_owned m ("seek" ∷ m.show_f64 value ∷ "relative+exact" ∷ [])) _) s
      e
run_fails m (to_percent value) s e =
    checked-AllOrNothing m (in_finite_range value zero_f64 (whole 100)) _ "seek percent" value
      (write-AllOrNothing
        (command_owned m ("seek" ∷ m.show_f64 value ∷ "absolute-percent+exact" ∷ [])) _)
      s e
run_fails m (subtitle_delay value) s e =
    checked-AllOrNothing m (is_finite value) _ "subtitle delay" value
      (write-AllOrNothing (set_property_double m "sub-delay" value) _) s e
run_fails m (audio_track id) s e = write-AllOrNothing (set_optional_track m "aid" id) _ s e
run_fails m (subtitle_track id) s e = write-AllOrNothing (set_optional_track m "sid" id) _ s e
