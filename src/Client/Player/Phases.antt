-- ===== src/Client/Player/Phases.antt =====
-- What every change of the player's state in client/src/playback.rs keeps of the phase and of the tracks.
use Prim.Native.String.{◌++◌}
use mathlib.Core.Path.{subst}
use ankai.Prelude.{
  ℕ, zero, suc, ◌≤◌, Bool, Bool-cases, true, false, not, ◌||◌, leb, leb→le, Option, none, some,
  List, length, ◌≡◌, refl, ◌⊎◌, inl, inr, arith,
}
use ankai.Prelude.Int.{ℤ, pos, negsuc}
use ankai.Prelude.Results.{ok, Result-cases}
use ankai.Client.Player.{
  PlaybackPhase, idle, loading, buffering, playing, paused, ended, error, MediaTrack, PlayerState,
  shown_phase, is_settled, update_active_phase, start_loading, become_idle,
}
use ankai.Client.Player.Calls.{
  Mpv, push_some, max_tracks, read_track, read_tracks, get_property_i64,
}
use ankai.Client.Player.Commands.{refresh_tracks, read_count, or_zero}

-- The phases of a player that has media, and those that the flags give.
abbrev pub is_active : PlaybackPhase → Bool
is_active loading = true
is_active buffering = true
is_active playing = true
is_active paused = true
is_active _ = false

abbrev pub is_shown : PlaybackPhase → Bool
is_shown buffering = true
is_shown playing = true
is_shown paused = true
is_shown _ = false

-- A state that has media where its phase says so, and no more tracks than the bound.
pub record HasMedia (s : PlayerState) : Type 0 where
  pub active : is_active s.phase ≡ true → s.has_media ≡ true
  pub few : length s.tracks ≤ max_tracks

-- Such a state, of which the phase is the one that the flags give where it is one of those.
pub record Sound (s : PlayerState) : Type 0 where
  pub holds : HasMedia s
  pub agrees : is_shown s.phase ≡ true → s.phase ≡ shown_phase s.paused_for_cache s.is_paused

pub with_phase-Sound :
    (s : PlayerState)
    → HasMedia s
    → s.has_media ≡ true
    → Sound (record s { phase = shown_phase s.paused_for_cache s.is_paused })
with_phase-Sound s h media = record {
  holds = record { active = λ _. media; few = h.few };
  agrees = λ _. refl;
}

shown_phase_lem :
    (p : PlaybackPhase) → is_shown p ≡ true → (is_active p ≡ true) × (is_settled p ≡ false)
shown_phase_lem buffering e = (refl, refl)
shown_phase_lem playing e = (refl, refl)
shown_phase_lem paused e = (refl, refl)
shown_phase_lem idle e = ground arith
shown_phase_lem loading e = ground arith
shown_phase_lem ended e = ground arith
shown_phase_lem error e = ground arith

pub update_active_phase-Sound : (s : PlayerState) → HasMedia s → Sound (update_active_phase s)
unfolding update_active_phase
update_active_phase-Sound s h = elim (Bool-cases (not s.has_media || is_settled s.phase)) [
  | inl e ↦ subst Sound (ground arith) (record {
    holds = h;
    agrees = λ shown.
        let (active, settled) = shown_phase_lem s.phase shown in
        let media = h.active active in ground arith;
  })
  | inr e ↦ subst Sound (ground arith) (with_phase-Sound s h (ground arith))
]

pub start_loading-Sound : (s : PlayerState) → Sound (start_loading s)
unfolding start_loading
start_loading-Sound s = record {
  holds = record { active = λ _. refl; few = omega arith };
  agrees = ground arith;
}

pub become_idle-Sound : (s : PlayerState) → Sound (become_idle s)
unfolding become_idle
become_idle-Sound s = record {
  holds = record { active = ground arith; few = omega arith };
  agrees = ground arith;
}

length-push_some :
    (track : Option MediaTrack) (tracks : List MediaTrack)
    → length (push_some track tracks) ≤ suc (length tracks)
length-push_some none tracks = omega arith
length-push_some (some track) tracks = omega arith

pub length-read_tracks :
    (m : Mpv) (left index : ℕ) (tracks : List MediaTrack)
    → read_tracks m left index ≡ ok tracks
    → length tracks ≤ left
unfolding read_tracks
length-read_tracks m zero index tracks e = ground arith
length-read_tracks m (suc left) index tracks e =
    elim (Result-cases (read_track m ("track-list/" ++ m.show_ℤ (pos index)))) [
      | inl (e', r) ↦ ground arith
      | inr (track, r) ↦ elim (Result-cases (read_tracks m left (suc index))) [
        | inl (e', q) ↦ ground arith
        | inr (rest, q) ↦
            let few = length-read_tracks m left (suc index) rest q in
            let pushed = length-push_some track rest in
            let same : push_some track rest ≡ tracks = ground arith in
            subst (λ l. length l ≤ suc left) same (omega arith)
      ]
    ]

read_count_cases :
    (m : Mpv) (count : ℤ) (s : PlayerState)
    → ((read_count m count s).1 ≡ s)
      ⊎ ((tracks : List MediaTrack) × (length tracks ≤ max_tracks)
          × (read_count m count s ≡ (ok tt, record s { tracks = tracks })))
read_count_cases m (negsuc n) s = inl refl
read_count_cases m (pos n) s = elim (Bool-cases (leb n max_tracks)) [
  | inr e ↦ inl (ground arith)
  | inl e ↦ elim (Result-cases (read_tracks m n zero)) [
    | inl (e', r) ↦ inl (ground arith)
    | inr (tracks, r) ↦
        let few = length-read_tracks m n zero tracks r in
        let small = leb→le n max_tracks e in inr (tracks, omega arith, ground arith)
  ]
]

-- The list of tracks is all that `refresh_tracks` writes, and only where it succeeds.
pub refresh_tracks_cases :
    (m : Mpv) (s : PlayerState)
    → ((refresh_tracks m s).1 ≡ s)
      ⊎ ((tracks : List MediaTrack) × (length tracks ≤ max_tracks)
          × (refresh_tracks m s ≡ (ok tt, record s { tracks = tracks })))
unfolding refresh_tracks
refresh_tracks_cases m s = elim (Result-cases (get_property_i64 m "track-list/count")) [
  | inl (e', r) ↦ inl (ground arith)
  | inr (count, r) ↦
      let same : refresh_tracks m s ≡ read_count m (or_zero m count) s = ground arith in
      rw same (read_count_cases m (or_zero m count) s)
]
