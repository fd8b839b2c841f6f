-- ===== src/Core/Playback.antt =====
-- The resume points of core/src/playback_progress.rs: one row for each video. Of an `f64` the code makes only
-- comparisons, so a finite one is the integer that it is times 2 ^ 1074. Times are milliseconds, of which the
-- database's clock gives the argument `now`. reqwest's parser is a parameter; messages of errors are left out.
pub mod Checks
mod Listing
pub mod Kept
pub mod Answers
unfoldable pub use Checks.*
unfoldable pub use Listing.*
use ankai.Prelude.{
  ℕ, zero, suc, ◌+◌, ◌*◌, ◌==◌, leb, ltb, String, string_discrete, codes, utf8, Bool, true, false,
  not, ◌&&◌, ◌||◌, if◌then◌else◌, ap, length, keep, map, Option, none, some, List, [], ◌∷◌,
}
use Prim.Native.Nat.{compare, Ordering}
use ankai.Prelude.Dict.{lookup, insert, update, erase}
use ankai.Prelude.Int.{ℤ, pos, ltb_ℤ, leb_ℤ}
use ankai.Prelude.Results.{Result, ok, err}
use ankai.Sql.{
  Action, pure, raise, ◌>>=◌, ◌>>◌, branch, on_option, map_err, query, execute, execute_count,
}
use ankai.Core.Store.{Error, db}
use ankai.Core.Stremio.Checks.{is_blank}

abbrev pub Db : Type 0 → Type 0
Db = Action (List (DbKey × Row)) Error

-- A check of the code, which reads no table.
abbrev pub check : Bool → Db (Unit {0})
check b = branch b (pure tt) (raise db)

abbrev pub episode_or_empty : Option String → String
episode_or_empty none = ""
episode_or_empty (some episode_id) = episode_id

-- The key of a video in the table.
unfoldable pub to_db : PlaybackKey → DbKey
to_db key = record {
  provider = key.provider;
  media_id = key.media_id;
  episode_id = episode_or_empty key.episode_id;
}

abbrev pub is_empty : String → Bool
is_empty s = elim (string_discrete s "") [ yes _ ↦ true | no _ ↦ false ]

unfoldable pub row_to_progress : DbKey × Row → PlaybackProgress
row_to_progress (key, row) = record {
  key = record {
    provider = key.provider;
    media_id = key.media_id;
    episode_id = if is_empty key.episode_id then none else some key.episode_id;
  };
  position_seconds = row.position_seconds;
  duration_seconds = row.duration_seconds;
  completed = row.completed;
  title = row.title;
  poster_url = row.poster_url;
  stream_url = row.stream_url;
  updated_at = row.updated_at;
}

abbrev pub progress_at : DbKey → List (DbKey × Row) → Option PlaybackProgress
progress_at key rows = elim (lookup key_discrete key rows) [
  | none ↦ none
  | some row ↦ some (row_to_progress (key, row))
]

unfoldable pub load : PlaybackKey → Db (Option PlaybackProgress)
load key = do check (is_key key); map_err (λ _. db) (query (progress_at (to_db key)))

unfoldable pub read_back : PlaybackKey → Db PlaybackProgress
read_back key = do found ← load key; on_option found pure (raise db)

-- An upsert: a new row, or a change of the one that is there.
unfoldable pub upsert : DbKey → Row → (Row → Row) → List (DbKey × Row) → List (DbKey × Row)
upsert key row change rows = elim (lookup key_discrete key rows) [
  | none ↦ insert key_discrete key row rows
  | some _ ↦ update key_discrete key change rows
]

abbrev pub moved :
    (now : ℕ) → (position_seconds duration_seconds : F64) → (completed : Bool) → Row → Row
moved now position_seconds duration_seconds completed row = record row {
  position_seconds = position_seconds;
  duration_seconds = duration_seconds;
  completed = completed;
  updated_at = now;
}

abbrev pub new_row :
    (now : ℕ)
    → (position_seconds duration_seconds : F64) → (completed : Bool) → PlaybackMetadata
    → Row
new_row now position_seconds duration_seconds completed metadata = record {
  position_seconds = position_seconds;
  duration_seconds = duration_seconds;
  completed = completed;
  title = metadata.title;
  poster_url = metadata.poster_url;
  stream_url = metadata.stream_url;
  updated_at = now;
}

abbrev pub no_metadata : PlaybackMetadata
no_metadata = record { title = none; poster_url = none; stream_url = none }

unfoldable pub save :
    (now : ℕ)
    → PlaybackKey
    → (position_seconds duration_seconds : F64) → (completed : Bool) → Db PlaybackProgress
save now key position_seconds duration_seconds completed = do
  check (is_key key)
  check (are_times position_seconds duration_seconds)
  map_err (λ _. db)
      (execute (λ rows. some (
        upsert (to_db key) (new_row now position_seconds duration_seconds completed no_metadata)
          (moved now position_seconds duration_seconds completed) rows)))
  read_back key

abbrev pub at_end : (now : ℕ) → Row → Row
at_end now row = record row {
  position_seconds = row.duration_seconds;
  completed = true;
  updated_at = now;
}

abbrev pub update_row : DbKey → (Row → Row) → List (DbKey × Row) → ℕ × List (DbKey × Row)
update_row key change rows = elim (lookup key_discrete key rows) [
  | none ↦ (0, rows)
  | some _ ↦ (1, update key_discrete key change rows)
]

unfoldable pub mark_completed : (now : ℕ) → PlaybackKey → Db PlaybackProgress
mark_completed now key = do
  check (is_key key)
  rows_changed ← map_err (λ _. db) (execute_count (update_row (to_db key) (at_end now)))
  branch (rows_changed == 0) (raise db) (read_back key)

unfoldable pub clear : PlaybackKey → Db (Unit {0})
clear key = do
  check (is_key key)
  map_err (λ _. db) (execute (λ rows. some (erase key_discrete (to_db key) rows)))

module _ (parse : String → Option (String × Bool)) where
  unfoldable pub save_with_metadata :
      (now : ℕ)
      → PlaybackKey
      → (position_seconds duration_seconds : F64) → (completed : Bool) → PlaybackMetadata
      → Db PlaybackProgress
  save_with_metadata now key position_seconds duration_seconds completed metadata = do
    check (is_key key)
    check (are_times position_seconds duration_seconds)
    check (is_metadata parse metadata)
    map_err (λ _. db)
        (execute (λ rows. some (
          upsert (to_db key) (new_row now position_seconds duration_seconds completed metadata)
            (λ row. new_row now position_seconds duration_seconds completed metadata) rows)))
    read_back key

-- A limit of 64 bits that does not fit an `i64` is the largest, which no list reaches.
unfoldable pub list_resumable_recent : (limit : ℕ) → Db (List PlaybackProgress)
list_resumable_recent limit =
    map_err (λ _. db)
      (query (λ rows. map row_to_progress (take limit (newest_first (keep is_resumable rows)))))
