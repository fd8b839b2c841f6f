-- ===== src/Core/Watchlist.antt =====
-- The anime watchlist of core/src/anime.rs: one row for each AniList id. Times are whole seconds, of
-- which the database's clock gives the argument `now`. Messages of errors are left out.
pub mod Progress
pub mod Answers
use ankai.Prelude.{
  ℕ, ◌+◌, ◌==◌, leb, String, string_discrete, Bool, true, false, ◌||◌, if◌then◌else◌, keep, Option,
  none, some, List, [], ◌∷◌,
}
use ankai.Prelude.Dict.{lookup, insert, update, erase}
use ankai.Prelude.Int.{ℤ, pos, ltb_ℤ, int_discrete}
use ankai.Prelude.Results.{Result, ok, err}
use ankai.Sql.{
  Action, pure, raise, ◌>>=◌, ◌>>◌, branch, on_option, map_err, query, execute, execute_count,
}
use ankai.Core.Store.{Error, db}

pub data WatchStatus : Type 0 where
  watching completed planned dropped : WatchStatus

abbrev pub is_text : String → String → Bool
is_text s t = elim (string_discrete s t) [ yes _ ↦ true | no _ ↦ false ]

abbrev pub as_db_str : WatchStatus → String
as_db_str watching = "watching"
as_db_str completed = "completed"
as_db_str planned = "planned"
as_db_str dropped = "dropped"

unfoldable pub from_db_str : String → Result Error WatchStatus
from_db_str s =
    if is_text s "watching"
    then ok watching
    else if is_text s "completed"
    then ok completed
    else if is_text s "planned"
    then ok planned
    else if is_text s "dropped"
    then ok dropped
    else err db

-- What AniList says of an anime, as far as the watchlist keeps it.
pub record AnimeSummary : Type 0 where
  pub id : ℤ
  pub title_romaji : Option String
  pub title_english : Option String
  pub cover_image_url : Option String
  pub episodes : Option ℤ
  pub average_score : Option ℤ

pub record WatchlistEntry : Type 0 where
  pub anilist_id : ℤ
  pub title_romaji : Option String
  pub title_english : Option String
  pub cover_image_url : Option String
  pub episode_count : Option ℤ
  pub watched_episodes : ℤ
  pub status : WatchStatus

-- A row of the table `watchlist`, whose key is the id.
pub record Row : Type 0 where
  pub title_romaji : Option String
  pub title_english : Option String
  pub cover_image_url : Option String
  pub episode_count : Option ℤ
  pub watched_episodes : ℤ
  pub status : String
  pub added_at : ℕ
  pub updated_at : ℕ

abbrev pub Db : Type 0 → Type 0
Db = Action (List (ℤ × Row)) Error

unfoldable pub row_to_entry : ℤ × Row → Result Error WatchlistEntry
row_to_entry (anilist_id, row) = elim (from_db_str row.status) [
  | err e ↦ err e
  | ok status ↦ ok (record {
    anilist_id = anilist_id;
    title_romaji = row.title_romaji;
    title_english = row.title_english;
    cover_image_url = row.cover_image_url;
    episode_count = row.episode_count;
    watched_episodes = row.watched_episodes;
    status = status;
  })
]

-- A result of the code as a step that reads nothing.
abbrev pub lift : {A : Type 0} → Result Error A → Db A
lift r c = (r, c)

unfoldable pub get_watchlist_entry : ℤ → Db (Option WatchlistEntry)
get_watchlist_entry anilist_id = do
  row ← map_err (λ _. db) (query (lookup int_discrete anilist_id))
  on_option row (λ row. do entry ← lift (row_to_entry (anilist_id, row)); pure (some entry))
      (pure none)

-- `get_watchlist_entry(…)?.ok_or_else(…)`.
unfoldable pub read_back : ℤ → Db WatchlistEntry
read_back anilist_id = do entry ← get_watchlist_entry anilist_id; on_option entry pure (raise db)

-- What a new row has, and what the upsert sets in a row that is there.
abbrev pub inserted : (now : ℕ) → AnimeSummary → String → Row
inserted now anime status = record {
  title_romaji = anime.title_romaji;
  title_english = anime.title_english;
  cover_image_url = anime.cover_image_url;
  episode_count = anime.episodes;
  watched_episodes = pos 0;
  status = status;
  added_at = now;
  updated_at = now;
}

abbrev pub refreshed : (now : ℕ) → AnimeSummary → String → Row → Row
refreshed now anime status row = record row {
  title_romaji = anime.title_romaji;
  title_english = anime.title_english;
  cover_image_url = anime.cover_image_url;
  episode_count = anime.episodes;
  status = status;
  updated_at = now;
}

-- The statement of `add_to_watchlist`.
unfoldable pub upsert : (now : ℕ) → AnimeSummary → String → List (ℤ × Row) → List (ℤ × Row)
upsert now anime status rows = elim (lookup int_discrete anime.id rows) [
  | none ↦ insert int_discrete anime.id (inserted now anime status) rows
  | some _ ↦ update int_discrete anime.id (refreshed now anime status) rows
]

unfoldable pub add_to_watchlist : (now : ℕ) → AnimeSummary → WatchStatus → Db WatchlistEntry
add_to_watchlist now anime status = do
  map_err (λ _. db) (execute (λ rows. some (upsert now anime (as_db_str status) rows)))
  read_back anime.id

-- An `UPDATE` of the row of an id, with the number of rows that it changed.
unfoldable pub update_row : ℤ → (Row → Row) → List (ℤ × Row) → ℕ × List (ℤ × Row)
update_row anilist_id f rows = elim (lookup int_discrete anilist_id rows) [
  | none ↦ (0, rows)
  | some _ ↦ (1, update int_discrete anilist_id f rows)
]

-- The write, the check of the rows changed and the read.
unfoldable pub write_row : ℤ → (Row → Row) → Db WatchlistEntry
write_row anilist_id f = do
  rows_changed ← map_err (λ _. db) (execute_count (update_row anilist_id f))
  branch (rows_changed == 0) (raise db) (read_back anilist_id)

unfoldable pub update_progress : (now : ℕ) → (anilist_id watched_episodes : ℤ) → Db WatchlistEntry
update_progress now anilist_id watched_episodes =
    branch (ltb_ℤ watched_episodes (pos 0)) (raise db) (
      write_row anilist_id
        (λ row. record row { watched_episodes = watched_episodes; updated_at = now }))

unfoldable pub update_status : (now : ℕ) → (anilist_id : ℤ) → WatchStatus → Db WatchlistEntry
update_status now anilist_id status =
    write_row anilist_id (λ row. record row { status = as_db_str status; updated_at = now })

-- `ORDER BY added_at ASC`.
unfoldable pub place : ℤ × Row → List (ℤ × Row) → List (ℤ × Row)
place (i, row) [] = (i, row) ∷ []
place (i, row) ((j, next) ∷ rows) =
    let rest = place (i, row) rows in
    if leb row.added_at next.added_at then (i, row) ∷ (j, next) ∷ rows else (j, next) ∷ rest

unfoldable pub by_added_at : List (ℤ × Row) → List (ℤ × Row)
by_added_at [] = []
by_added_at (row ∷ rows) = place row (by_added_at rows)

abbrev pub has_status : Option WatchStatus → ℤ × Row → Bool
has_status none row = true
has_status (some status) (i, row) = is_text row.status (as_db_str status)

-- `collect::<Result<Vec<_>, _>>()`.
unfoldable pub collect : List (ℤ × Row) → Result Error (List WatchlistEntry)
collect [] = ok []
collect (row ∷ rows) =
    let rest = collect rows in
    elim (row_to_entry row) [
      | err e ↦ err e
      | ok entry ↦ elim rest [ err e ↦ err e | ok entries ↦ ok (entry ∷ entries) ]
    ]

unfoldable pub list_watchlist : Option WatchStatus → Db (List WatchlistEntry)
list_watchlist status = do
  rows ← map_err (λ _. db) (query (λ rows. by_added_at (keep (has_status status) rows)))
  lift (collect rows)

unfoldable pub remove_from_watchlist : ℤ → Db (Unit {0})
remove_from_watchlist anilist_id =
    map_err (λ _. db) (execute (λ rows. some (erase int_discrete anilist_id rows)))
