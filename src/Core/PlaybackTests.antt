-- ===== src/Core/PlaybackTests.antt =====
-- The theorems on resume points at concrete tables.
use ankai.Prelude.{
  ◌≤◌, String, string_discrete, length, map, Bool, true, false, All, Option, none, some, List, [],
  ◌∷◌, ◌≡◌, refl,
}
use ankai.Prelude.Dict.{lookup, insert}
use ankai.Prelude.Int.{pos}
use ankai.Prelude.Results.{ok}
use ankai.Sql.{Conn}
use ankai.Core.Stremio.Checks.{is_blank, is_whitespace}
use ankai.Core.Playback.{
  finite, nan, lt_f64, le_f64, PlaybackKey, Row, DbKey, key_discrete, is_identifier, is_key,
  are_times, to_db, row_to_progress, load, read_back, upsert, new_row, no_metadata, save,
  is_resumable, place, newest_first, list_resumable_recent,
}
use ankai.Core.Playback.Kept.{Sound, Call, save_call, complete_call, run, resume_points-Sound}
use ankai.Core.Playback.Answers.{metadata_of, save_stores, Descending, list_resumable_recent_lem}

abbrev film : PlaybackKey
film = record { provider = "stremio"; media_id = "tt1"; episode_id = none }

abbrev empty : List Bool → Conn (List (DbKey × Row))
empty faults = record { tables = []; faults = faults; poisoned = false }

abbrev no_url : String → Option (String × Bool)
no_url text = none

-- A save that fails, one with no number for a position, one that is made, and the end.
abbrev calls : List Call
calls =
    save_call 1 film (finite (pos 5)) (finite (pos 90)) false
    ∷ save_call 2 film nan (finite (pos 90)) false
    ∷ save_call 3 film (finite (pos 6)) (finite (pos 90)) false
    ∷ complete_call 4 film
    ∷ []

resume_points-Sound_example : Sound (run no_url calls (empty (true ∷ []))).tables
resume_points-Sound_example =
    resume_points-Sound no_url calls (empty (true ∷ [])) (record { distinct = tt; rows_are = tt })

abbrev row : Row
row = new_row 3 (finite (pos 6)) (finite (pos 90)) false no_metadata

film_saved :
    (save 3 film (finite (pos 6)) (finite (pos 90)) false (empty [])).0
    ≡ ok (row_to_progress (to_db film, row))
unfolding save is_key is_identifier is_blank is_whitespace are_times lt_f64 le_f64 read_back load
    lookup upsert insert key_discrete string_discrete to_db
film_saved = refl

save_stores_example :
    ((row_to_progress (to_db film, row)).key ≡ film)
    × (row_to_progress (to_db film, row)
        ≡ row_to_progress (
          to_db film,
          new_row 3
              (finite (pos 6))
              (finite (pos 90))
              false
              (metadata_of (lookup key_discrete (to_db film) [])),
        ))
    × (lookup key_discrete
          (to_db film)
          (save 3 film (finite (pos 6)) (finite (pos 90)) false (empty [])).1.tables
        ≡ some (
            new_row 3
              (finite (pos 6))
              (finite (pos 90))
              false
              (metadata_of (lookup key_discrete (to_db film) []))))
    × ((k : DbKey)
        → ¬ (to_db film ≡ k)
        → lookup key_discrete k
            (save 3 film (finite (pos 6)) (finite (pos 90)) false (empty [])).1.tables
          ≡ lookup key_discrete k [])
save_stores_example =
    save_stores 3 film (finite (pos 6)) (finite (pos 90)) false (empty [])
      (row_to_progress (to_db film, row)) film_saved

abbrev one : Conn (List (DbKey × Row))
one = record { tables = (to_db film, row) ∷ []; faults = []; poisoned = false }

film_listed : (list_resumable_recent 5 one).0 ≡ ok (row_to_progress (to_db film, row) ∷ [])
unfolding list_resumable_recent newest_first lt_f64 place
film_listed = refl

list_resumable_recent_lem_example :
    (rows : List (DbKey × Row)) × (row_to_progress (to_db film, row) ∷ []
      ≡ map row_to_progress rows)
    × (length rows ≤ 5)
    × Descending rows
    × All (λ r. is_resumable r ≡ true) rows
    × ((P : DbKey × Row → Type 0) → All P one.tables → All P rows)
list_resumable_recent_lem_example =
    list_resumable_recent_lem 5 one (row_to_progress (to_db film, row) ∷ []) film_listed
