-- ===== src/Client/Player/Events.antt =====
-- The loop over the events of libmpv in client/src/playback.rs.
use ankai.Prelude.{
  ℕ, zero, suc, String, Bool, true, false, Option, none, some, List, [], ◌∷◌, ◌++◌, if◌then◌else◌,
}
use ankai.Prelude.Int.{ℤ, pos, negsuc, ltb_ℤ}
use ankai.Prelude.Results.{ok}
use ankai.Client.Player.{PlayerState, ended, error, shown_phase, start_loading, become_idle}
use ankai.Client.Player.Observed.{
  ObservedProperty, EndReason, from_int, PlayerEvent, property_changed, end_of, file_started,
  video_reconfigured, audio_reconfigured, EventId, Value, flag, double, unavailable,
  MpvEventProperty, MpvEvent, observed_property, apply_flag_property, apply_double_property,
  apply_unavailable_property,
}
use ankai.Client.Player.Calls.{Mpv, get_property_string, error_message}
use ankai.Client.Player.Commands.{Step, ◌>>=◌, and_then, refresh_tracks}

-- The phase of a file that plays.
abbrev pub show_phase : PlayerState → PlayerState
show_phase s = record s { phase = shown_phase s.paused_for_cache s.is_paused }

-- An operation that gives the events, with those it adds.
abbrev pub push : PlayerEvent → List PlayerEvent → Step (List PlayerEvent)
push event events s = (ok (events ++ event ∷ []), s)

abbrev pub changed :
    (PlayerState → PlayerState) → PlayerEvent → List PlayerEvent → Step (List PlayerEvent)
changed f event events s = push event events (f s)

module _ (m : Mpv) where
  abbrev pub fail_with : String → PlayerState → PlayerState
  fail_with message s = record s { phase = error; last_error = some message }

  abbrev pub end_message : ℤ → String
  end_message code =
      if ltb_ℤ code (pos 0)
      then error_message m code
      else "playback ended with an unknown mpv error"

  unfoldable pub ended_with : EndReason → ℤ → List PlayerEvent → Step (List PlayerEvent)
  ended_with EndReason.end_of_file code =
      changed (λ s. record s { phase = ended; eof_reached = true }) (end_of EndReason.end_of_file)
  ended_with EndReason.stop code = changed become_idle (end_of EndReason.stop)
  ended_with EndReason.quit code = changed become_idle (end_of EndReason.quit)
  ended_with EndReason.redirect code = changed start_loading (end_of EndReason.redirect)
  ended_with EndReason.error code = λ events.
      changed (fail_with (end_message code)) (end_of EndReason.error)
        (events ++ PlayerEvent.error (end_message code) ∷ [])
  ended_with (EndReason.unknown value) code =
      changed (λ s. record s { phase = ended }) (end_of (EndReason.unknown value))

  unfoldable pub copy_end_file : Option (ℤ × ℤ) → List PlayerEvent → Step (List PlayerEvent)
  copy_end_file none = ended_with (EndReason.unknown (negsuc 0)) (pos 0)
  copy_end_file (some (reason, code)) = ended_with (from_int reason) code

  abbrev pub with_tracks : PlayerEvent → List PlayerEvent → Step (List PlayerEvent)
  with_tracks event events = and_then (refresh_tracks m) (λ _. push event events)

  abbrev pub apply_value : ObservedProperty → Value → List PlayerEvent → Step (List PlayerEvent)
  apply_value property (flag value) =
      changed (apply_flag_property property value) (property_changed property)
  apply_value property (double value) =
      changed (apply_double_property property value) (property_changed property)
  apply_value property unavailable =
      changed (apply_unavailable_property property) (property_changed property)
  apply_value property Value.other = λ events s. (ok events, s)

  abbrev pub apply_property : ObservedProperty → Value → List PlayerEvent → Step (List PlayerEvent)
  apply_property ObservedProperty.track_list value = with_tracks PlayerEvent.tracks_changed
  apply_property property value = apply_value property value

  abbrev pub apply_observed :
      Option ObservedProperty → Value → List PlayerEvent → Step (List PlayerEvent)
  apply_observed none value events s = (ok events, s)
  apply_observed (some property) value events s = apply_property property value events s

  unfoldable pub copy_property_change :
      Option MpvEventProperty → List PlayerEvent → Step (List PlayerEvent)
  copy_property_change none events s = (ok events, s)
  copy_property_change (some raw) events s =
      apply_observed (observed_property raw.userdata raw.name) raw.value events s

  abbrev pub load_file : List PlayerEvent → Step (List PlayerEvent)
  load_file events s =
      (get_property_string m "media-title" >>= λ title.
      and_then (λ s'. refresh_tracks m (record s' { media_title = title }))
        (λ _. changed show_phase PlayerEvent.file_loaded events))
        (record s { has_media = true })

  unfoldable pub copy_event : MpvEvent → List PlayerEvent → Step (List PlayerEvent)
  copy_event event = elim event.event_id [
    | EventId.start_file ↦ changed start_loading file_started
    | EventId.file_loaded ↦ load_file
    | EventId.end_file ↦ copy_end_file event.end_file
    | EventId.tracks_changed ↦ with_tracks PlayerEvent.tracks_changed
    | EventId.track_switched ↦ with_tracks PlayerEvent.track_switched
    | EventId.video_reconfig ↦ push video_reconfigured
    | EventId.audio_reconfig ↦ push audio_reconfigured
    | EventId.seek ↦ changed (λ s. record s { seeking = true }) PlayerEvent.seek
    | EventId.playback_restart ↦
        changed (λ s. show_phase (record s { seeking = false; has_media = true }))
          PlayerEvent.playback_restart
    | EventId.property_change ↦ copy_property_change event.property
    | EventId.queue_overflow ↦ push PlayerEvent.queue_overflow
    | EventId.shutdown ↦ changed become_idle PlayerEvent.shutdown
    | _ ↦ λ events s. (ok events, s)
  ]

  -- An event with an error code, ahead of what its kind says.
  abbrev pub note_error : MpvEvent → List PlayerEvent → PlayerState → List PlayerEvent × PlayerState
  note_error event events s =
      if ltb_ℤ event.error_code (pos 0)
      then (
        events ++ PlayerEvent.error (error_message m event.error_code) ∷ [],
        fail_with (error_message m event.error_code) s,
      )
      else (events, s)

  abbrev pub take_event : MpvEvent → List PlayerEvent → Step (List PlayerEvent)
  take_event event events s =
      let (events', s') = note_error event events s in copy_event event events' s'

abbrev pub max_events_per_poll : ℕ
max_events_per_poll = 256

abbrev pub is_no_event : EventId → Bool
is_no_event EventId.no_event = true
is_no_event _ = false

-- The loop over the events that wait, each with libmpv's answers while it is copied; the end of the list is the null
-- pointer.
unfoldable pub poll_loop :
    (left : ℕ) → List (Mpv × MpvEvent) → List PlayerEvent → Step (List PlayerEvent)
poll_loop zero queue events s = (ok events, s)
poll_loop (suc left) [] events s = (ok events, s)
poll_loop (suc left) ((m, event) ∷ queue) events s =
    if is_no_event event.event_id
    then (ok events, s)
    else and_then (take_event m event events) (λ events'. poll_loop left queue events') s

unfoldable pub poll_events : List (Mpv × MpvEvent) → Step (List PlayerEvent)
poll_events queue = poll_loop max_events_per_poll queue []
