-- ===== src/Core/WatchlistTests.antt =====
-- The theorems on the anime watchlist at a concrete list.
use ankai.Prelude.{ℕ, String, Bool, true, false, none, some, List, [], ◌∷◌, ◌≡◌, refl, ◌⊎◌, arith}
use ankai.Prelude.Int.{ℤ, pos, negsuc, ltb_ℤ, int_discrete}
use ankai.Prelude.Results.{ok, err}
use ankai.Prelude.Dict.{lookup}
use ankai.Sql.{Conn}
use native.Mathlib.Decide.{ℕ_discrete}
use ankai.Core.Store.{db}
use ankai.Core.Watchlist.{
  watching, planned, completed, AnimeSummary, WatchlistEntry, Row, add_to_watchlist,
  update_progress,
}
use ankai.Core.Watchlist.Progress.{
  Sound, Call, add, set_progress, remove, run, run-Sound, progress_of, add_to_watchlist-progress_of,
}
use ankai.Core.Watchlist.Answers.{update_progress_cases}

abbrev row : ℤ → (added_at : ℕ) → String → Row
row n t status = record {
  title_romaji = some "Frieren";
  title_english = none;
  cover_image_url = none;
  episode_count = some (pos 28);
  watched_episodes = n;
  status = status;
  added_at = t;
  updated_at = t;
}

abbrev anime : AnimeSummary
anime = record {
  id = pos 7;
  title_romaji = some "Sousou no Frieren";
  title_english = none;
  cover_image_url = none;
  episodes = some (pos 28);
  average_score = none;
}

abbrev rows : List (ℤ × Row)
rows = (pos 7, row (pos 12) 50 "watching") ∷ (pos 9, row (pos 0) 40 "planned") ∷ []

abbrev conn : List Bool → Conn (List (ℤ × Row))
conn faults = record { tables = rows; faults = faults; poisoned = false }

rows-Sound : Sound rows
unfolding lookup int_discrete ℕ_discrete
rows-Sound = record {
  distinct = (refl, (refl, tt));
  rows_are = (
    record { progress = omega arith; status = watching; status_is = refl },
    (record { progress = omega arith; status = planned; status_is = refl }, tt),
  );
}

abbrev calls : List Call
calls =
    add 60 anime completed
    ∷ set_progress 61 (pos 9) (negsuc 0)
    ∷ set_progress 62 (pos 9) (pos 3)
    ∷ remove (pos 7)
    ∷ []

run-Sound_example : Sound (run calls (conn (false ∷ true ∷ []))).tables
run-Sound_example = run-Sound calls (conn (false ∷ true ∷ [])) rows-Sound

add_to_watchlist-progress_of_example :
    (progress_of (pos 7) (add_to_watchlist 60 anime completed (conn [])).1.tables
      ≡ progress_of (pos 7) rows)
    ⊎ ((pos 7 ≡ anime.id)
        × (progress_of (pos 7) rows ≡ none)
        × (progress_of (pos 7) (add_to_watchlist 60 anime completed (conn [])).1.tables
            ≡ some (pos 0)))
add_to_watchlist-progress_of_example =
    add_to_watchlist-progress_of 60 anime completed (conn []) (pos 7)

update_progress_cases_example :
    ((ltb_ℤ (pos 13) (pos 0) ≡ false)
      × ¬ (progress_of (pos 7) rows ≡ none)
      × ((entry : WatchlistEntry) × ((update_progress 60 (pos 7) (pos 13) (conn [])).0 ≡ ok entry)
          × (entry.anilist_id ≡ pos 7)
          × (entry.watched_episodes ≡ pos 13))
      × (progress_of (pos 7) (update_progress 60 (pos 7) (pos 13) (conn [])).1.tables
          ≡ some (pos 13)))
    ⊎ (((ltb_ℤ (pos 13) (pos 0) ≡ true) ⊎ (progress_of (pos 7) rows ≡ none))
        × ((update_progress 60 (pos 7) (pos 13) (conn [])).0 ≡ err db)
        × ((update_progress 60 (pos 7) (pos 13) (conn [])).1.tables ≡ rows))
update_progress_cases_example = update_progress_cases 60 (pos 7) (pos 13) (conn []) rows-Sound refl
