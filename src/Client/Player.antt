-- ===== src/Client/Player.antt =====
-- The player of client/src/playback.rs: its state and the changes of the phase. A finite `f64` is its number of
-- units of 2^-1074, of which every finite `f64` is a whole number; its two zeros are one.
pub mod Calls
pub mod Commands
pub mod Observed
pub mod Events
pub mod Phases
pub mod Copied
pub mod Polled
pub mod Reached
pub mod Refusals
use ankai.Prelude.{
  ℕ, ◌-◌, ◌*◌, ◌^◌, String, Bool, true, false, not, ◌&&◌, ◌||◌, Option, none, List, [],
  if◌then◌else◌,
}
use ankai.Prelude.Int.{ℤ, pos}
use ankai.Core.Playback.Checks.{F64, finite, lt_f64, le_f64, is_finite, zero_f64}

pub data PlaybackPhase : Type 0 where
  idle loading buffering playing paused ended error : PlaybackPhase

pub data TrackKind : Type 0 where
  video audio subtitle : TrackKind
  unknown : String → TrackKind

pub record MediaTrack : Type 0 where
  pub id : ℤ
  pub kind : TrackKind
  pub title : Option String
  pub language : Option String
  pub codec : Option String
  pub selected : Bool
  pub is_default : Bool
  pub forced : Bool
  pub external : Bool

pub record PlayerState : Type 0 where
  pub phase : PlaybackPhase
  pub has_media : Bool
  pub is_paused : Bool
  pub muted : Bool
  pub seeking : Bool
  pub paused_for_cache : Bool
  pub eof_reached : Bool
  pub position_seconds : Option F64
  pub duration_seconds : Option F64
  pub buffering_percent : Option F64
  pub volume : F64
  pub speed : F64
  pub media_title : Option String
  pub tracks : List MediaTrack
  pub last_error : Option String

-- The values 100, 130, 1, 0.25 and 4.
abbrev pub whole : ℕ → F64
whole n = finite (pos (n * 2 ^ 1074))

abbrev pub max_volume : F64
max_volume = whole 130

abbrev pub min_speed : F64
min_speed = finite (pos (2 ^ 1072))

abbrev pub max_speed : F64
max_speed = whole 4

-- `f64::MAX`.
abbrev pub max_f64 : F64
max_f64 = finite (pos ((2 ^ 53 - 1) * 2 ^ 2045))

-- `value.max(0.0)`, and `f64::clamp`, which keeps NaN.
abbrev pub max_zero : F64 → F64
max_zero value = if lt_f64 zero_f64 value then value else zero_f64

abbrev pub clamp : (value minimum maximum : F64) → F64
clamp value minimum maximum =
    if lt_f64 value minimum then minimum else if lt_f64 maximum value then maximum else value

-- `validate_finite_range`.
unfoldable pub in_finite_range : (value minimum maximum : F64) → Bool
in_finite_range value minimum maximum =
    is_finite value && (le_f64 minimum value && le_f64 value maximum)

-- `PlayerState::default`.
unfoldable pub default_state : PlayerState
default_state = record {
  phase = idle;
  has_media = false;
  is_paused = false;
  muted = false;
  seeking = false;
  paused_for_cache = false;
  eof_reached = false;
  position_seconds = none;
  duration_seconds = none;
  buffering_percent = none;
  volume = whole 100;
  speed = whole 1;
  media_title = none;
  tracks = [];
  last_error = none;
}

-- The phase that the flags give.
unfoldable pub shown_phase : (paused_for_cache is_paused : Bool) → PlaybackPhase
shown_phase true _ = buffering
shown_phase false true = paused
shown_phase false false = playing

abbrev pub is_settled : PlaybackPhase → Bool
is_settled loading = true
is_settled ended = true
is_settled error = true
is_settled _ = false

unfoldable pub update_active_phase : PlayerState → PlayerState
update_active_phase s =
    if not s.has_media || is_settled s.phase
    then s
    else record s { phase = shown_phase s.paused_for_cache s.is_paused }

unfoldable pub start_loading : PlayerState → PlayerState
start_loading s = record s {
  phase = loading;
  has_media = true;
  seeking = false;
  paused_for_cache = false;
  eof_reached = false;
  position_seconds = none;
  duration_seconds = none;
  buffering_percent = none;
  media_title = none;
  tracks = [];
  last_error = none;
}

unfoldable pub become_idle : PlayerState → PlayerState
become_idle s = record s {
  phase = idle;
  has_media = false;
  seeking = false;
  paused_for_cache = false;
  eof_reached = false;
  position_seconds = none;
  duration_seconds = none;
  buffering_percent = none;
  media_title = none;
  tracks = [];
}
