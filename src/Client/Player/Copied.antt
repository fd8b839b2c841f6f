-- ===== src/Client/Player/Copied.antt =====
-- The events that client/src/playback.rs copies keep the player's state sound.
use mathlib.Core.Path.{subst}
use ankai.Prelude.{
  String, Bool, Bool-cases, true, false, Option, none, some, List, ◌≡◌, refl, sym, ◌⊎◌, inl, inr,
  arith,
}
use ankai.Prelude.Int.{ℤ, pos, negsuc}
use ankai.Prelude.Results.{ok, err}
use ankai.Core.Playback.Checks.{F64, is_finite}
use ankai.Client.Player.{PlayerState}
use ankai.Client.Player.Calls.{Mpv, PlayerResult}
use ankai.Client.Player.Commands.{Step, ◌>>=◌, and_then, refresh_tracks}
use ankai.Client.Player.Observed.{
  ObservedProperty, EndReason, Value, flag, double, unavailable, PlayerEvent, MpvEventProperty,
  write_flag, apply_flag_property, write_double, apply_double_property, apply_unavailable_property,
  observed_property, from_int,
}
use ankai.Client.Player.Events.{
  fail_with, end_message, push, apply_observed, ended_with, copy_end_file, with_tracks, apply_value,
  apply_property, copy_property_change,
}
use ankai.Client.Player.Phases.{
  Sound, HasMedia, update_active_phase-Sound, start_loading-Sound, become_idle-Sound,
  refresh_tracks_cases,
}

abbrev pub Keeps : {A : Type 0} → Step A → Type 0
Keeps f = (s : PlayerState) → Sound s → Sound (f s).1

-- A state in which the media, the phase, the flags and the tracks are those of a sound one.
pub same-Sound :
    (s t : PlayerState)
    → Sound s
    → t.phase ≡ s.phase
    → t.has_media ≡ s.has_media
    → t.paused_for_cache ≡ s.paused_for_cache
    → t.is_paused ≡ s.is_paused
    → t.tracks ≡ s.tracks
    → Sound t
same-Sound s t h p m c u l = record {
  holds = record { active = rw (p, m) h.holds.active; few = rw l h.holds.few };
  agrees = rw (p, c, u) h.agrees;
}

write_flag-HasMedia :
    (property : ObservedProperty) (value : Bool) (s : PlayerState)
    → HasMedia s
    → HasMedia (write_flag property value s)
write_flag-HasMedia ObservedProperty.pause value s h = record { active = h.active; few = h.few }
write_flag-HasMedia ObservedProperty.mute value s h = record { active = h.active; few = h.few }
write_flag-HasMedia ObservedProperty.seeking value s h = record { active = h.active; few = h.few }
write_flag-HasMedia ObservedProperty.paused_for_cache value s h = record {
  active = h.active;
  few = h.few;
}
write_flag-HasMedia ObservedProperty.idle_active true s h = (become_idle-Sound s).holds
write_flag-HasMedia ObservedProperty.idle_active false s h = h
write_flag-HasMedia ObservedProperty.eof_reached true s h = record {
  active = ground arith;
  few = h.few;
}
write_flag-HasMedia ObservedProperty.eof_reached false s h = record {
  active = h.active;
  few = h.few;
}
write_flag-HasMedia ObservedProperty.time_position value s h = h
write_flag-HasMedia ObservedProperty.duration value s h = h
write_flag-HasMedia ObservedProperty.volume value s h = h
write_flag-HasMedia ObservedProperty.speed value s h = h
write_flag-HasMedia ObservedProperty.buffering_percent value s h = h
write_flag-HasMedia ObservedProperty.track_list value s h = h

write_double-Sound :
    (property : ObservedProperty) (value : F64) (s : PlayerState)
    → Sound s
    → Sound (write_double property value s)
write_double-Sound property value s h =
    same-Sound s (write_double property value s) h (ground arith) (ground arith) (ground arith)
      (ground arith) (ground arith)

apply_double-Sound :
    (property : ObservedProperty) (value : F64) (s : PlayerState)
    → Sound s
    → Sound (apply_double_property property value s)
unfolding apply_double_property
apply_double-Sound property value s h = elim (Bool-cases (is_finite value)) [
  | inl e ↦ subst Sound (ground arith) (write_double-Sound property value s h)
  | inr e ↦ subst Sound (ground arith) h
]

unavailable-Sound :
    (property : ObservedProperty) (s : PlayerState)
    → Sound s
    → Sound (apply_unavailable_property property s)
unfolding apply_unavailable_property
unavailable-Sound property s h =
    same-Sound s (apply_unavailable_property property s) h (ground arith) (ground arith)
      (ground arith) (ground arith) (ground arith)

apply_value-Keeps :
    (property : ObservedProperty) (value : Value) (events : List PlayerEvent) (m : Mpv)
    → Keeps (apply_value m property value events)
unfolding apply_flag_property
apply_value-Keeps property (flag value) events m s h =
    update_active_phase-Sound (write_flag property value s)
      (write_flag-HasMedia property value s h.holds)
apply_value-Keeps property (double value) events m s h = apply_double-Sound property value s h
apply_value-Keeps property unavailable events m s h = unavailable-Sound property s h
apply_value-Keeps property Value.other events m s h = h

pub refresh_tracks-Sound : (m : Mpv) (s : PlayerState) → Sound s → Sound (refresh_tracks m s).1
refresh_tracks-Sound m s h = elim (refresh_tracks_cases m s) [
  | inl same ↦ rw same h
  | inr (tracks, few, same) ↦
      rw same (record { holds = record { active = h.holds.active; few = few }; agrees = h.agrees })
]

pub bind-Sound :
    {A B : Type 0} (r : PlayerResult A) (f : A → Step B) (s : PlayerState)
    → Sound s
    → ((a : A) → Sound (f a s).1)
    → Sound ((r >>= f) s).1
bind-Sound (ok a) f s h kf = kf a
bind-Sound (err e) f s h kf = h

pub and_then-Keeps :
    {A B : Type 0} (m : Step A) (f : A → Step B)
    → Keeps m
    → ((a : A) → Keeps (f a))
    → Keeps (and_then m f)
and_then-Keeps m f km kf s h = bind-Sound (m s).0 f (m s).1 (km s h) (λ a. kf a (m s).1 (km s h))

pub with_tracks-Keeps :
    (m : Mpv) (event : PlayerEvent) (events : List PlayerEvent) → Keeps (with_tracks m event events)
with_tracks-Keeps m event events =
    and_then-Keeps (refresh_tracks m) (λ _. push event events) (refresh_tracks-Sound m) (λ _ s h. h)

pub fail_with-Sound :
    (m : Mpv) (message : String) (s : PlayerState) → Sound s → Sound (fail_with m message s)
fail_with-Sound m message s h = record {
  holds = record { active = ground arith; few = h.holds.few };
  agrees = ground arith;
}

ended_with-Keeps :
    (m : Mpv) (reason : EndReason) (code : ℤ) (events : List PlayerEvent)
    → Keeps (ended_with m reason code events)
unfolding ended_with
ended_with-Keeps m EndReason.end_of_file code events s h = record {
  holds = record { active = ground arith; few = h.holds.few };
  agrees = ground arith;
}
ended_with-Keeps m EndReason.stop code events s h = become_idle-Sound s
ended_with-Keeps m EndReason.quit code events s h = become_idle-Sound s
ended_with-Keeps m EndReason.redirect code events s h = start_loading-Sound s
ended_with-Keeps m EndReason.error code events s h = fail_with-Sound m (end_message m code) s h
ended_with-Keeps m (EndReason.unknown value) code events s h = record {
  holds = record { active = ground arith; few = h.holds.few };
  agrees = ground arith;
}

pub copy_end_file-Keeps :
    (m : Mpv) (data' : Option (ℤ × ℤ)) (events : List PlayerEvent)
    → Keeps (copy_end_file m data' events)
unfolding copy_end_file
copy_end_file-Keeps m none events = ended_with-Keeps m (EndReason.unknown (negsuc 0)) (pos 0) events
copy_end_file-Keeps m (some (reason, code)) events =
    ended_with-Keeps m (from_int reason) code events

is_track_list :
    (property : ObservedProperty)
    → (property ≡ ObservedProperty.track_list)
      ⊎ ((value : Value) (events : List PlayerEvent) (m : Mpv)
          → apply_property m property value events ≡ apply_value m property value events)
is_track_list ObservedProperty.pause = inr (λ value events m. refl)
is_track_list ObservedProperty.mute = inr (λ value events m. refl)
is_track_list ObservedProperty.time_position = inr (λ value events m. refl)
is_track_list ObservedProperty.duration = inr (λ value events m. refl)
is_track_list ObservedProperty.volume = inr (λ value events m. refl)
is_track_list ObservedProperty.speed = inr (λ value events m. refl)
is_track_list ObservedProperty.seeking = inr (λ value events m. refl)
is_track_list ObservedProperty.paused_for_cache = inr (λ value events m. refl)
is_track_list ObservedProperty.buffering_percent = inr (λ value events m. refl)
is_track_list ObservedProperty.idle_active = inr (λ value events m. refl)
is_track_list ObservedProperty.eof_reached = inr (λ value events m. refl)
is_track_list ObservedProperty.track_list = inl refl

apply_property-Keeps :
    (m : Mpv) (property : Option ObservedProperty) (value : Value) (events : List PlayerEvent)
    → Keeps (apply_observed m property value events)
apply_property-Keeps m none value events s h = h
apply_property-Keeps m (some property) value events s h = elim (is_track_list property) [
  | inl e ↦ rw e (with_tracks-Keeps m PlayerEvent.tracks_changed events s h)
  | inr e ↦
      subst (λ (f : Step (List PlayerEvent)). Sound (f s).1) (sym (e value events m))
        (apply_value-Keeps property value events m s h)
]

pub copy_property_change-Keeps :
    (m : Mpv) (raw : Option MpvEventProperty) (events : List PlayerEvent)
    → Keeps (copy_property_change m raw events)
unfolding copy_property_change
copy_property_change-Keeps m none events s h = h
copy_property_change-Keeps m (some raw) events s h =
    apply_property-Keeps m (observed_property raw.userdata raw.name) raw.value events s h
