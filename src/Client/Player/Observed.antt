-- ===== src/Client/Player/Observed.antt =====
-- The events and the observed properties of client/src/playback.rs: an event is what `wait_event` gives, with its
-- pointers followed; what the code names is given by its name, a code that it does not name by `other`.
use ankai.Prelude.{
  ℕ, String, string_discrete, Bool, true, false, ◌==◌, Option, none, some, List, [], ◌∷◌,
  if◌then◌else◌,
}
use ankai.Prelude.Int.{ℤ, pos, negsuc}
use ankai.Core.Playback.Checks.{F64, is_finite, lt_f64, zero_f64}
use ankai.Client.Player.{
  PlayerState, ended, whole, max_zero, clamp, update_active_phase, become_idle,
}

pub data ObservedProperty : Type 0 where
  pause mute time_position duration volume speed : ObservedProperty
  seeking paused_for_cache buffering_percent idle_active eof_reached track_list : ObservedProperty

pub data EndReason : Type 0 where
  end_of_file stop quit error redirect : EndReason
  unknown : ℤ → EndReason

unfoldable pub from_int : ℤ → EndReason
from_int (negsuc n) = EndReason.unknown (negsuc n)
from_int (pos n) =
    if n == 0
    then EndReason.end_of_file
    else if n == 2
    then EndReason.stop
    else if n == 3
    then EndReason.quit
    else if n == 4
    then EndReason.error
    else if n == 5
    then EndReason.redirect
    else EndReason.unknown (pos n)

pub data PlayerEvent : Type 0 where
  file_started file_loaded tracks_changed track_switched : PlayerEvent
  video_reconfigured audio_reconfigured seek playback_restart : PlayerEvent
  property_changed : ObservedProperty → PlayerEvent
  end_of : EndReason → PlayerEvent
  queue_overflow shutdown : PlayerEvent
  error : String → PlayerEvent

pub data EventId : Type 0 where
  no_event shutdown start_file end_file file_loaded tracks_changed track_switched : EventId
  video_reconfig audio_reconfig seek playback_restart property_change queue_overflow : EventId
  other : EventId

-- The value of a property, under its format; a null pointer of a flag or of a number is `other`.
pub data Value : Type 0 where
  flag : Bool → Value
  double : F64 → Value
  unavailable other : Value

pub record MpvEventProperty : Type 0 where
  pub userdata : ℕ
  pub name : Option String
  pub value : Value

-- What `data` points to, for the events of which it is read.
pub record MpvEvent : Type 0 where
  pub event_id : EventId
  pub error_code : ℤ
  pub end_file : Option (ℤ × ℤ)
  pub property : Option MpvEventProperty

abbrev pub observed_properties : List (ℕ × ObservedProperty × String)
observed_properties =
    (1, ObservedProperty.pause, "pause")
    ∷ (2, ObservedProperty.mute, "mute")
    ∷ (3, ObservedProperty.time_position, "time-pos")
    ∷ (4, ObservedProperty.duration, "duration")
    ∷ (5, ObservedProperty.volume, "volume")
    ∷ (6, ObservedProperty.speed, "speed")
    ∷ (7, ObservedProperty.seeking, "seeking")
    ∷ (8, ObservedProperty.paused_for_cache, "paused-for-cache")
    ∷ (9, ObservedProperty.buffering_percent, "cache-buffering-state")
    ∷ (10, ObservedProperty.idle_active, "idle-active")
    ∷ (11, ObservedProperty.eof_reached, "eof-reached")
    ∷ (12, ObservedProperty.track_list, "track-list")
    ∷ []

abbrev pub find_property :
    (ℕ × ObservedProperty × String → Bool)
    → List (ℕ × ObservedProperty × String)
    → Option ObservedProperty
find_property p [] = none
find_property p (spec ∷ specs) = if p spec then some spec.1 else find_property p specs

abbrev pub has_name : String → ℕ × ObservedProperty × String → Bool
has_name name spec = elim (string_discrete spec.2 name) [ yes _ ↦ true | no _ ↦ false ]

abbrev pub find_named : Option String → Option ObservedProperty
find_named none = none
find_named (some name) = find_property (has_name name) observed_properties

unfoldable pub observed_property : ℕ → Option String → Option ObservedProperty
observed_property userdata name =
    elim (find_property (λ spec. spec.0 == userdata) observed_properties) [
      | some property ↦ some property
      | none ↦ find_named name
    ]

abbrev pub set_eof : Bool → PlayerState → PlayerState
set_eof value s = record s { eof_reached = value; phase = if value then ended else s.phase }

abbrev pub write_flag : ObservedProperty → Bool → PlayerState → PlayerState
write_flag ObservedProperty.pause value s = record s { is_paused = value }
write_flag ObservedProperty.mute value s = record s { muted = value }
write_flag ObservedProperty.seeking value s = record s { seeking = value }
write_flag ObservedProperty.paused_for_cache value s = record s { paused_for_cache = value }
write_flag ObservedProperty.idle_active true s = become_idle s
write_flag ObservedProperty.eof_reached value s = set_eof value s
write_flag _ _ s = s

unfoldable pub apply_flag_property : ObservedProperty → Bool → PlayerState → PlayerState
apply_flag_property property value s = update_active_phase (write_flag property value s)

abbrev pub write_double : ObservedProperty → F64 → PlayerState → PlayerState
write_double ObservedProperty.time_position value s = record s {
  position_seconds = some (max_zero value);
}
write_double ObservedProperty.duration value s = record s {
  duration_seconds = if lt_f64 zero_f64 value then some value else none;
}
write_double ObservedProperty.volume value s = record s { volume = max_zero value }
write_double ObservedProperty.speed value s = record s {
  speed = if lt_f64 zero_f64 value then value else s.speed;
}
write_double ObservedProperty.buffering_percent value s = record s {
  buffering_percent = some (clamp value zero_f64 (whole 100));
}
write_double _ value s = s

unfoldable pub apply_double_property : ObservedProperty → F64 → PlayerState → PlayerState
apply_double_property property value s =
    if is_finite value then write_double property value s else s

unfoldable pub apply_unavailable_property : ObservedProperty → PlayerState → PlayerState
apply_unavailable_property ObservedProperty.time_position s = record s { position_seconds = none }
apply_unavailable_property ObservedProperty.duration s = record s { duration_seconds = none }
apply_unavailable_property ObservedProperty.buffering_percent s = record s {
  buffering_percent = none;
}
apply_unavailable_property _ s = s
