-- ===== src/Client/Player/Reached.antt =====
-- The states that the player of client/src/playback.rs reaches by its commands and polls.
use ankai.Prelude.{
  String, Bool, Bool-cases, not, Option, none, some, List, [], ◌∷◌, ◌≡◌, refl, inl, inr, arith,
}
use ankai.Prelude.Results.{ok, err, Result-cases}
use ankai.Core.Playback.Checks.{F64, zero_f64}
use ankai.Client.Player.{
  update_active_phase, PlayerState, default_state, in_finite_range, max_volume, min_speed,
  max_speed,
}
use ankai.Client.Player.Calls.{
  Mpv, PlayerResult, set_property_flag, set_property_double, command_owned, get_property_flag,
  get_property_double, get_property_string,
}
use ankai.Client.Player.Commands.{
  if_some, and_then, write, Step, load, set_pause, toggle_pause, set_mute, toggle_mute, set_volume,
  set_speed, stop, refresh_tracks, read, refresh_state,
}
use ankai.Client.Player.Observed.{MpvEvent}
use ankai.Client.Player.Events.{poll_events}
use ankai.Client.Player.Phases.{
  Sound, HasMedia, update_active_phase-Sound, start_loading-Sound, become_idle-Sound,
  refresh_tracks_cases,
}
use ankai.Client.Player.Copied.{Keeps, same-Sound, bind-Sound}
use ankai.Client.Player.Polled.{poll_events-Keeps}

-- The commands that write the state, of any arguments and of any answers of libmpv, and a poll of any events. A
-- refresh of the state counts where it succeeds.
pub data Reached : PlayerState → Type 0 where
  new : Reached default_state
  loaded : (m : Mpv) (url : String) {s : PlayerState} → Reached s → Reached (load m url s).1
  pause_set :
      (m : Mpv) (value : Bool) {s : PlayerState} → Reached s → Reached (set_pause m value s).1
  pause_toggled : (m : Mpv) {s : PlayerState} → Reached s → Reached (toggle_pause m s).1
  mute_set : (m : Mpv) (value : Bool) {s : PlayerState} → Reached s → Reached (set_mute m value s).1
  mute_toggled : (m : Mpv) {s : PlayerState} → Reached s → Reached (toggle_mute m s).1
  volume_set :
      (m : Mpv) (value : F64) {s : PlayerState} → Reached s → Reached (set_volume m value s).1
  speed_set :
      (m : Mpv) (value : F64) {s : PlayerState} → Reached s → Reached (set_speed m value s).1
  stopped : (m : Mpv) {s : PlayerState} → Reached s → Reached (stop m s).1
  polled :
      (queue : List (Mpv × MpvEvent)) {s : PlayerState}
      → Reached s
      → Reached (poll_events queue s).1
  refreshed :
      (m : Mpv) {s : PlayerState}
      → Reached s
      → (refresh_state m s).0 ≡ ok tt
      → Reached (refresh_state m s).1

load-Keeps : (m : Mpv) (url : String) → Keeps (load m url)
unfolding load
load-Keeps m url s h =
    bind-Sound (command_owned m ("loadfile" ∷ url ∷ "replace" ∷ [])) _ s h
      (λ _. start_loading-Sound s)

stop-Keeps : (m : Mpv) → Keeps (stop m)
unfolding stop
stop-Keeps m s h = bind-Sound (command_owned m ("stop" ∷ [])) _ s h (λ _. become_idle-Sound s)

set_pause-Keeps : (m : Mpv) (value : Bool) → Keeps (set_pause m value)
unfolding set_pause
set_pause-Keeps m value s h = bind-Sound (set_property_flag m "pause" value) _ s h (λ _.
    update_active_phase-Sound (record s { is_paused = value })
      (record { active = h.holds.active; few = h.holds.few }))

set_mute-Keeps : (m : Mpv) (value : Bool) → Keeps (set_mute m value)
unfolding set_mute
set_mute-Keeps m value s h =
    bind-Sound (set_property_flag m "mute" value) _ s h
      (λ _. same-Sound s (record s { muted = value }) h refl refl refl refl refl)

toggle_pause-Keeps : (m : Mpv) → Keeps (toggle_pause m)
unfolding toggle_pause
toggle_pause-Keeps m s h = set_pause-Keeps m (not s.is_paused) s h

toggle_mute-Keeps : (m : Mpv) → Keeps (toggle_mute m)
unfolding toggle_mute
toggle_mute-Keeps m s h = set_mute-Keeps m (not s.muted) s h

set_volume-Keeps : (m : Mpv) (value : F64) → Keeps (set_volume m value)
unfolding set_volume
set_volume-Keeps m value s h = elim (Bool-cases (in_finite_range value zero_f64 max_volume)) [
  | inl e ↦ rw e (
      bind-Sound (set_property_double m "volume" value) _ s h
        (λ _. same-Sound s (record s { volume = value }) h refl refl refl refl refl))
  | inr e ↦ rw e h
]

set_speed-Keeps : (m : Mpv) (value : F64) → Keeps (set_speed m value)
unfolding set_speed
set_speed-Keeps m value s h = elim (Bool-cases (in_finite_range value min_speed max_speed)) [
  | inl e ↦ rw e (
      bind-Sound (set_property_double m "speed" value) _ s h
        (λ _. same-Sound s (record s { speed = value }) h refl refl refl refl refl))
  | inr e ↦ rw e h
]

-- An operation that ends in a sound state where it succeeds.
abbrev Ends : Step (Unit {0}) → Type 0
Ends k = (s : PlayerState) → HasMedia s → (k s).0 ≡ ok tt → Sound (k s).1

read-Ends :
    {A : Type 0} (m : Mpv) (r : PlayerResult (Option A)) (f : Option A → PlayerState → PlayerState)
    (k : Step (Unit {0}))
    → ((o : Option A) (s : PlayerState) → HasMedia s → HasMedia (f o s))
    → Ends k
    → Ends (read m r f k)
read-Ends m (ok a) f k kf ends s h e = ends (f a s) (kf a s h) e
read-Ends m (err b) f k kf ends s h e = ground arith

if_some-HasMedia :
    {A : Type 0} (f : A → PlayerState → PlayerState)
    → ((a : A) (s : PlayerState) → HasMedia s → HasMedia (f a s))
    → (o : Option A) (s : PlayerState) → HasMedia s
    → HasMedia (if_some o f s)
if_some-HasMedia f kf none s h = h
if_some-HasMedia f kf (some a) s h = kf a s h

-- The last step of a refresh.
tracks-Ends : (m : Mpv) → Ends (and_then (refresh_tracks m) (λ _. write update_active_phase))
tracks-Ends m s h e = elim (refresh_tracks_cases m s) [
  | inr (tracks, few, same) ↦ rw same (
      update_active_phase-Sound (record s { tracks = tracks })
        (record { active = h.active; few = few }))
  | inl same ↦ elim (Result-cases (refresh_tracks m s).0) [
    | inl (e', r) ↦ ground arith
    | inr (a, r) ↦ rw (r, same) (update_active_phase-Sound s h)
  ]
]

refresh_state-Ends : (m : Mpv) → Ends (refresh_state m)
unfolding refresh_state
refresh_state-Ends m =
    read-Ends m (get_property_flag m "pause") _ _
      (if_some-HasMedia _ (λ a s h. record { active = h.active; few = h.few }))
      (read-Ends m (get_property_flag m "mute") _ _
        (if_some-HasMedia _ (λ a s h. record { active = h.active; few = h.few }))
        (read-Ends m (get_property_double m "time-pos") _ _
          (λ a s h. record { active = h.active; few = h.few })
          (read-Ends m (get_property_double m "duration") _ _
            (λ a s h. record { active = h.active; few = h.few })
            (read-Ends m (get_property_double m "volume") _ _
              (if_some-HasMedia _ (λ a s h. record { active = h.active; few = h.few }))
              (read-Ends m (get_property_double m "speed") _ _
                (if_some-HasMedia _ (λ a s h. record { active = h.active; few = h.few }))
                (read-Ends m (get_property_flag m "seeking") _ _
                  (if_some-HasMedia _ (λ a s h. record { active = h.active; few = h.few }))
                  (read-Ends m (get_property_flag m "paused-for-cache") _ _
                    (if_some-HasMedia _ (λ a s h. record { active = h.active; few = h.few }))
                    (read-Ends m (get_property_double m "cache-buffering-state") _ _
                      (λ a s h. record { active = h.active; few = h.few })
                      (read-Ends m (get_property_string m "media-title") _ _
                        (λ a s h. record { active = h.active; few = h.few })
                        (tracks-Ends m))))))))))

default-Sound : Sound default_state
unfolding default_state
default-Sound = record {
  holds = record { active = ground arith; few = omega arith };
  agrees = ground arith;
}

-- In a state that the player reaches by its commands, by polls and by refreshes that succeed, whatever libmpv
-- answers, the player has media where its phase is loading, buffering, playing or paused, the last three of these
-- phases are the one that the flags give, and there are at most 1024 tracks.
pub Reached-Sound : (s : PlayerState) → Reached s → Sound s
Reached-Sound _ new = default-Sound
Reached-Sound _ (loaded m url {s} r) = load-Keeps m url s (Reached-Sound s r)
Reached-Sound _ (pause_set m value {s} r) = set_pause-Keeps m value s (Reached-Sound s r)
Reached-Sound _ (pause_toggled m {s} r) = toggle_pause-Keeps m s (Reached-Sound s r)
Reached-Sound _ (mute_set m value {s} r) = set_mute-Keeps m value s (Reached-Sound s r)
Reached-Sound _ (mute_toggled m {s} r) = toggle_mute-Keeps m s (Reached-Sound s r)
Reached-Sound _ (volume_set m value {s} r) = set_volume-Keeps m value s (Reached-Sound s r)
Reached-Sound _ (speed_set m value {s} r) = set_speed-Keeps m value s (Reached-Sound s r)
Reached-Sound _ (stopped m {s} r) = stop-Keeps m s (Reached-Sound s r)
Reached-Sound _ (polled queue {s} r) = poll_events-Keeps queue s (Reached-Sound s r)
Reached-Sound _ (refreshed m {s} r e) = refresh_state-Ends m s (Reached-Sound s r).holds e
