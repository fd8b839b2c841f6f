-- ===== src/Core/Watchlist/Answers.antt =====
-- What the calls of core/src/anime.rs's watchlist answer on a sound table where no statement fails.
use ankai.Prelude.{
  ℕ, leb, ◌≤◌, Bool, Bool-cases, true, false, keep, length, Option, Option-cases, none, some, List,
  [], ◌∷◌, All, ◌≡◌, refl, sym, ap, ◌∙◌, inl, inr, arith, ◌⊎◌,
}
use ankai.Prelude.Dict.{lookup, update, All-lookup, lookup-update}
use ankai.Prelude.Int.{ℤ, pos, ltb_ℤ, int_discrete}
use ankai.Prelude.Results.{ok, err}
use ankai.Sql.{Conn, later}
use ankai.Core.Store.{db}
use ankai.Core.Watchlist.{
  WatchStatus, as_db_str, from_db_str, WatchlistEntry, Row, row_to_entry, get_watchlist_entry,
  read_back, update_row, write_row, update_progress, place, by_added_at, has_status, collect,
  list_watchlist,
}
use ankai.Core.Watchlist.Progress.{
  IsRow, Sound, progress_of, read_back_frame, from_db_str-as_db_str,
}

-- A sound row is read as the entry of its columns.
abbrev pub Reads : ℤ × Row → WatchlistEntry → Type 0
Reads row entry =
    (entry.anilist_id ≡ row.0)
    × (entry.watched_episodes ≡ row.1.watched_episodes)
    × (as_db_str entry.status ≡ row.1.status)

pub row_to_entry-Reads :
    (row : ℤ × Row)
    → IsRow row
    → (entry : WatchlistEntry) × (row_to_entry row ≡ ok entry) × Reads row entry
unfolding row_to_entry
row_to_entry-Reads (i, row) r =
    let read : from_db_str row.status ≡ ok r.status =
      ap from_db_str r.status_is ∙ (from_db_str-as_db_str r.status row.status).0 in
    (
      record {
        anilist_id = i;
        title_romaji = row.title_romaji;
        title_english = row.title_english;
        cover_image_url = row.cover_image_url;
        episode_count = row.episode_count;
        watched_episodes = row.watched_episodes;
        status = r.status;
      },
      ground arith,
      (refl, refl, sym r.status_is),
    )

read_back-Reads :
    (id : ℤ) (row : Row) (c : Conn (List (ℤ × Row)))
    → c.faults ≡ []
    → lookup int_discrete id c.tables ≡ some row
    → IsRow (id, row)
    → (entry : WatchlistEntry) × ((read_back id c).0 ≡ ok entry) × Reads (id, row) entry
unfolding read_back get_watchlist_entry
read_back-Reads id row c f h r =
    let found = row_to_entry-Reads (id, row) r in (found.0, ground (arith, found.1), found.2)

-- Where no statement fails, on a sound watchlist, `update_progress` answers with the entry of the id, whose
-- progress is then the one asked for, if it is not negative and the id is on the list; it refuses and
-- changes nothing otherwise.
pub update_progress_cases :
    (now : ℕ) (id n : ℤ) (c : Conn (List (ℤ × Row)))
    → Sound c.tables
    → c.faults ≡ []
    → ((ltb_ℤ n (pos 0) ≡ false)
        × ¬ (progress_of id c.tables ≡ none)
        × ((entry : WatchlistEntry) × ((update_progress now id n c).0 ≡ ok entry)
            × (entry.anilist_id ≡ id)
            × (entry.watched_episodes ≡ n))
        × (progress_of id (update_progress now id n c).1.tables ≡ some n))
      ⊎ (((ltb_ℤ n (pos 0) ≡ true) ⊎ (progress_of id c.tables ≡ none))
          × ((update_progress now id n c).0 ≡ err db)
          × ((update_progress now id n c).1.tables ≡ c.tables))
unfolding update_progress write_row update_row progress_of
update_progress_cases now id n c s quiet = elim (Bool-cases (ltb_ℤ n (pos 0))) [
  | inl negative ↦ inr (inl negative, ground arith, ground arith)
  | inr h ↦ elim (Option-cases (lookup int_discrete id c.tables)) [
    | inl absent ↦ inr (inr (ground arith), ground arith, ground arith)
    | inr (row, found) ↦
        let changed : Row → Row = λ r. record r { watched_episodes = n; updated_at = now } in
        let after : Conn (List (ℤ × Row)) = record c {
          tables = update int_discrete id changed c.tables;
          faults = later c.faults;
        } in
        let step : update_progress now id n c ≡ read_back id after = ground arith in
        let there : lookup int_discrete id after.tables ≡ some (changed row) =
          ground (arith, lookup-update int_discrete id id changed c.tables) in
        let was = All-lookup int_discrete IsRow id c.tables s.rows_are found in
        let read =
          read_back-Reads id (changed row) after (ground arith) there
            (record { progress = ground arith; status = was.status; status_is = was.status_is }) in
        rw step (
          inl (
            h,
            (λ none_is. ground arith),
            (read.0, read.1, read.2.0, read.2.1),
            rw (read_back_frame id after, there) refl,
          ))
  ]
]

-- The rows stand in the order of their times.
abbrev pub Sorted : List (ℤ × Row) → Type 0
Sorted [] = Unit
Sorted (row ∷ rows) = All (λ next. row.1.added_at ≤ next.1.added_at) rows × Sorted rows

-- The entries are those of the rows, in the same order.
abbrev pub AllRead : List (ℤ × Row) → List WatchlistEntry → Type 0
AllRead [] [] = Unit
AllRead (row ∷ rows) (entry ∷ entries) = Reads row entry × AllRead rows entries
AllRead _ _ = ⊥

All-place :
    (P : ℤ × Row → Type 0) (row : ℤ × Row) (rows : List (ℤ × Row))
    → P row
    → All P rows
    → All P (place row rows)
unfolding place
All-place P row [] p a = (p, tt)
All-place P row (next ∷ rows) p a = elim (Bool-cases (leb row.1.added_at next.1.added_at)) [
  | inl e ↦ rw e (p, a)
  | inr e ↦ rw e (a.0, All-place P row rows p a.1)
]

All-by_added_at :
    (P : ℤ × Row → Type 0) (rows : List (ℤ × Row)) → All P rows → All P (by_added_at rows)
unfolding by_added_at
All-by_added_at P [] a = tt
All-by_added_at P (row ∷ rows) a =
    All-place P row (by_added_at rows) a.0 (All-by_added_at P rows a.1)

All-keep :
    (P : ℤ × Row → Type 0) (p : ℤ × Row → Bool) (rows : List (ℤ × Row))
    → All P rows
    → All P (keep p rows)
All-keep P p [] a = tt
All-keep P p (row ∷ rows) a = elim (Bool-cases (p row)) [
  | inl e ↦ rw e (a.0, All-keep P p rows a.1)
  | inr e ↦ rw e (All-keep P p rows a.1)
]

All-weaken :
    (a b : ℕ) (rows : List (ℤ × Row))
    → a ≤ b
    → All (λ next. b ≤ next.1.added_at) rows
    → All (λ next. a ≤ next.1.added_at) rows
All-weaken a b [] h all = tt
All-weaken a b (row ∷ rows) h all = (omega (arith, all.0), All-weaken a b rows h all.1)

place-Sorted : (row : ℤ × Row) (rows : List (ℤ × Row)) → Sorted rows → Sorted (place row rows)
unfolding place
place-Sorted row [] s = (tt, tt)
place-Sorted row (next ∷ rows) s = elim (Bool-cases (leb row.1.added_at next.1.added_at)) [
  | inl e ↦
      let before : row.1.added_at ≤ next.1.added_at = ground arith in
      rw e ((before, All-weaken row.1.added_at next.1.added_at rows before s.0), s)
  | inr e ↦ rw e (
    All-place (λ later. next.1.added_at ≤ later.1.added_at) row rows (ground arith) s.0,
    place-Sorted row rows s.1,
  )
]

by_added_at-Sorted : (rows : List (ℤ × Row)) → Sorted (by_added_at rows)
unfolding by_added_at
by_added_at-Sorted [] = tt
by_added_at-Sorted (row ∷ rows) = place-Sorted row (by_added_at rows) (by_added_at-Sorted rows)

count-place :
    (p : ℤ × Row → Bool) (row : ℤ × Row) (rows : List (ℤ × Row))
    → length (keep p (place row rows)) ≡ length (keep p (row ∷ rows))
unfolding place
count-place p row [] = refl
count-place p row (next ∷ rows) = ground (arith, count-place p row rows)

count-by_added_at :
    (p : ℤ × Row → Bool) (rows : List (ℤ × Row))
    → length (keep p (by_added_at rows)) ≡ length (keep p rows)
unfolding by_added_at
count-by_added_at p [] = refl
count-by_added_at p (row ∷ rows) =
    ground (arith, count-place p row (by_added_at rows), count-by_added_at p rows)

collect-AllRead :
    (rows : List (ℤ × Row))
    → All IsRow rows
    → (entries : List WatchlistEntry) × (collect rows ≡ ok entries) × AllRead rows entries
unfolding collect
collect-AllRead [] a = ([], refl, tt)
collect-AllRead (row ∷ rows) a =
    let first = row_to_entry-Reads row a.0 in
    let rest = collect-AllRead rows a.1 in
    (first.0 ∷ rest.0, ground (arith, first.1, rest.1), (first.2, rest.2))

-- Where no statement fails, on a sound watchlist, `list_watchlist` answers with an entry for each row of the
-- status, or for each row where none is given, in the order of the times at which they were added.
pub list_watchlist_lem :
    (status : Option WatchStatus) (c : Conn (List (ℤ × Row)))
    → Sound c.tables
    → c.faults ≡ []
    → (rows : List (ℤ × Row)) × Sorted rows
      × ((p : ℤ × Row → Bool)
          → length (keep p rows) ≡ length (keep p (keep (has_status status) c.tables)))
      × ((entries : List WatchlistEntry) × ((list_watchlist status c).0 ≡ ok entries)
          × AllRead rows entries)
unfolding list_watchlist
list_watchlist_lem status c s quiet =
    let passed : List (ℤ × Row) = keep (has_status status) c.tables in
    let read =
      collect-AllRead (by_added_at passed)
        (All-by_added_at IsRow passed (All-keep IsRow (has_status status) c.tables s.rows_are)) in
    (
      by_added_at passed,
      by_added_at-Sorted passed,
      (λ p. count-by_added_at p passed),
      (read.0, ground (arith, read.1), read.2),
    )
