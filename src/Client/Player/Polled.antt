-- ===== src/Client/Player/Polled.antt =====
-- A poll of the events of client/src/playback.rs keeps the player's state sound.
use ankai.Prelude.{
  ℕ, zero, suc, String, Bool-cases, true, false, Option, List, [], ◌∷◌, ◌≡◌, refl, inl, inr,
}
use ankai.Prelude.Int.{ℤ, pos, ltb_ℤ}
use ankai.Client.Player.{PlayerState}
use ankai.Client.Player.Calls.{Mpv, get_property_string, error_message}
use ankai.Client.Player.Commands.{refresh_tracks}
use ankai.Client.Player.Observed.{EventId, PlayerEvent, MpvEvent, MpvEventProperty}
use ankai.Client.Player.Events.{
  show_phase, load_file, copy_event, note_error, take_event, is_no_event, poll_loop, poll_events,
  max_events_per_poll,
}
use ankai.Client.Player.Phases.{
  Sound, start_loading-Sound, become_idle-Sound, with_phase-Sound, refresh_tracks_cases,
}
use ankai.Client.Player.Copied.{
  Keeps, same-Sound, bind-Sound, and_then-Keeps, with_tracks-Keeps, fail_with-Sound,
  copy_end_file-Keeps, copy_property_change-Keeps, refresh_tracks-Sound,
}

-- Media that is there makes the phase of its flags sound.
show_phase-Sound : (s : PlayerState) → Sound s → s.has_media ≡ true → Sound (show_phase s)
show_phase-Sound s h media = with_phase-Sound s h.holds media

refresh_tracks_media :
    (m : Mpv) (s : PlayerState) → s.has_media ≡ true → (refresh_tracks m s).1.has_media ≡ true
refresh_tracks_media m s media = elim (refresh_tracks_cases m s) [
  | inl same ↦ rw same media
  | inr (tracks, few, same) ↦ rw same media
]

-- The state once a file is loaded, before its tracks are read.
loaded-Sound :
    (s : PlayerState) (title : Option String)
    → Sound s
    → Sound (record s { has_media = true; media_title = title })
loaded-Sound s title h = record {
  holds = record { active = λ _. refl; few = h.holds.few };
  agrees = h.agrees;
}

load_file-Keeps : (m : Mpv) (events : List PlayerEvent) → Keeps (load_file m events)
load_file-Keeps m events s h =
    bind-Sound (get_property_string m "media-title") _ (record s { has_media = true })
      (loaded-Sound s s.media_title h)
      (λ title.
        let s' : PlayerState = record s { has_media = true; media_title = title } in
        let read = refresh_tracks m s' in
        let sound = refresh_tracks-Sound m s' (loaded-Sound s title h) in
        bind-Sound read.0 _ read.1 sound
          (λ _. show_phase-Sound read.1 sound (refresh_tracks_media m s' refl)))

copied_as :
    (m : Mpv) (id : EventId) (code : ℤ) (file : Option (ℤ × ℤ)) (raw : Option MpvEventProperty)
    (events : List PlayerEvent)
    → Keeps (
        copy_event m
          (record { event_id = id; error_code = code; end_file = file; property = raw })
          events)
unfolding copy_event
copied_as m EventId.start_file code file raw events s h = start_loading-Sound s
copied_as m EventId.file_loaded code file raw events s h = load_file-Keeps m events s h
copied_as m EventId.end_file code file raw events s h = copy_end_file-Keeps m file events s h
copied_as m EventId.tracks_changed code file raw events s h =
    with_tracks-Keeps m PlayerEvent.tracks_changed events s h
copied_as m EventId.track_switched code file raw events s h =
    with_tracks-Keeps m PlayerEvent.track_switched events s h
copied_as m EventId.video_reconfig code file raw events s h = h
copied_as m EventId.audio_reconfig code file raw events s h = h
copied_as m EventId.seek code file raw events s h =
    same-Sound s (record s { seeking = true }) h refl refl refl refl refl
copied_as m EventId.playback_restart code file raw events s h =
    with_phase-Sound (record s { seeking = false; has_media = true })
      (record { active = λ _. refl; few = h.holds.few }) refl
copied_as m EventId.property_change code file raw events s h =
    copy_property_change-Keeps m raw events s h
copied_as m EventId.queue_overflow code file raw events s h = h
copied_as m EventId.shutdown code file raw events s h = become_idle-Sound s
copied_as m EventId.no_event code file raw events s h = h
copied_as m EventId.other code file raw events s h = h

copy_event-Keeps :
    (m : Mpv) (event : MpvEvent) (events : List PlayerEvent) → Keeps (copy_event m event events)
copy_event-Keeps m event = copied_as m event.event_id event.error_code event.end_file event.property

note_error-Sound :
    (m : Mpv) (event : MpvEvent) (events : List PlayerEvent) (s : PlayerState)
    → Sound s
    → Sound (note_error m event events s).1
note_error-Sound m event events s h = elim (Bool-cases (ltb_ℤ event.error_code (pos 0))) [
  | inl e ↦ rw e (fail_with-Sound m (error_message m event.error_code) s h)
  | inr e ↦ rw e h
]

take_event-Keeps :
    (m : Mpv) (event : MpvEvent) (events : List PlayerEvent) → Keeps (take_event m event events)
take_event-Keeps m event events s h =
    let noted = note_error m event events s in
    copy_event-Keeps m event noted.0 noted.1 (note_error-Sound m event events s h)

poll_loop-Keeps :
    (left : ℕ) (queue : List (Mpv × MpvEvent)) (events : List PlayerEvent)
    → Keeps (poll_loop left queue events)
unfolding poll_loop
poll_loop-Keeps zero queue events s h = h
poll_loop-Keeps (suc left) [] events s h = h
poll_loop-Keeps (suc left) ((m, event) ∷ queue) events s h =
    elim (Bool-cases (is_no_event event.event_id)) [
      | inl e ↦ rw e h
      | inr e ↦ rw e (
          and_then-Keeps (take_event m event events) (λ events'. poll_loop left queue events')
            (take_event-Keeps m event events) (λ events'. poll_loop-Keeps left queue events') s h)
    ]

pub poll_events-Keeps : (queue : List (Mpv × MpvEvent)) → Keeps (poll_events queue)
unfolding poll_events
poll_events-Keeps queue = poll_loop-Keeps max_events_per_poll queue []
