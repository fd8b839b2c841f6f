-- ===== src/Client/PlayerTests.antt =====
-- Runs of the player's model, and the theorems at concrete inputs.
use ankai.Prelude.{true, none, some, List, [], ◌∷◌, ◌≡◌, refl}
use ankai.Prelude.Int.{pos}
use ankai.Prelude.Results.{err}
use ankai.Core.Playback.Checks.{zero_f64, le_f64}
use ankai.Client.Player.{
  buffering, PlayerState, whole, default_state, start_loading, shown_phase, update_active_phase,
  in_finite_range,
}
use ankai.Client.Player.Calls.{
  Mpv, invalid_value, get_property_string, get_property_i64, read_tracks, read_track, read_details,
  get_property_flag, command_owned, check,
}
use ankai.Client.Player.Commands.{load, set_volume, refresh_tracks}
use ankai.Client.Player.Observed.{MpvEvent, EventId, flag, observed_property, apply_flag_property}
use ankai.Client.Player.Events.{poll_events, poll_loop, copy_event, copy_property_change}
use ankai.Client.Player.Phases.{Sound}
use ankai.Client.Player.Reached.{new, loaded, polled, Reached-Sound}
use ankai.Client.Player.Refusals.{volume, run, run_fails}

-- A libmpv that accepts every call, with one track.
abbrev quiet : Mpv
quiet = record {
  command = λ _. pos 0;
  get_flag = λ _. (pos 0, true);
  get_double = λ _. (pos 0, zero_f64);
  get_i64 = λ _. (pos 0, pos 1);
  get_string = λ _. (pos 0, some "audio");
  set_flag = λ _ _. pos 0;
  set_double = λ _ _. pos 0;
  set_i64 = λ _ _. pos 0;
  set_string = λ _ _. pos 0;
  error_string = λ _. none;
  show_f64 = λ _. "number";
  show_ℤ = λ _. "0";
}

abbrev event : EventId → MpvEvent
event id = record { event_id = id; error_code = pos 0; end_file = none; property = none }

-- The file is loaded, then waits for the cache.
abbrev queue : List (Mpv × MpvEvent)
queue =
    (quiet, event EventId.start_file)
    ∷ (quiet, event EventId.file_loaded)
    ∷ (
      quiet,
      record (event EventId.property_change) {
        property = some (record { userdata = 8; name = none; value = flag true });
      },
    )
    ∷ []

abbrev waiting : PlayerState
waiting = (poll_events queue (load quiet "https://a" default_state).1).1

waiting_phase : waiting.phase ≡ buffering
unfolding poll_events poll_loop copy_event start_loading load default_state get_property_string
    check refresh_tracks get_property_i64 read_tracks read_track read_details get_property_flag
    copy_property_change observed_property apply_flag_property update_active_phase shown_phase
    command_owned
waiting_phase = refl

Reached-Sound_example : Sound waiting
Reached-Sound_example = Reached-Sound waiting (polled queue (loaded quiet "https://a" new))

too_loud : (run quiet (volume (whole 131)) waiting).0 ≡ err (invalid_value "volume" "number")
unfolding run set_volume in_finite_range le_f64
too_loud = refl

run_fails_example : (run quiet (volume (whole 131)) waiting).1 ≡ waiting
run_fails_example =
    run_fails quiet (volume (whole 131)) waiting (invalid_value "volume" "number") too_loud
