-- ===== src/Core/Playback/Answers.antt =====
-- What the calls of core/src/playback_progress.rs answer.
use ankai.Prelude.{
  ℕ, zero, suc, ◌≤◌, String, string_discrete, Bool, Bool-cases, true, false, keep, map, length,
  Option, Option-cases, none, some, List, [], ◌∷◌, All, ◌≡◌, refl, ap, if◌then◌else◌, ◌∙◌, ◌⊎◌, inl,
  inr, arith,
}
use ankai.Prelude.Dict.{lookup, lookup-insert, lookup-update}
use ankai.Prelude.Results.{ok}
use ankai.Sql.{Conn, later}
use ankai.Core.Stremio.Checks.{is_blank}
use ankai.Core.Playback.{
  F64, PlaybackKey, PlaybackMetadata, PlaybackProgress, Row, DbKey, key_discrete, is_identifier,
  is_episode, is_empty, episode_or_empty, is_key, to_db, row_to_progress, load, read_back, upsert,
  moved, new_row, no_metadata, save, comes_first, place, newest_first, is_resumable, take,
  list_resumable_recent,
}
use ankai.Core.Playback.Kept.{save_after}

episode_read_back :
    (episode : Option String)
    → is_episode episode ≡ true
    → (if is_empty (episode_or_empty episode) then none else some (episode_or_empty episode))
      ≡ episode
unfolding is_identifier is_blank string_discrete
episode_read_back none h = refl
episode_read_back (some e) h = elim (string_discrete e "") [
  | yes same ↦ absurd (ground (arith, ap is_identifier same))
  | no other ↦ ground arith
]

-- A key that the code accepts is read back from the table's key.
key_read_back :
    (key : PlaybackKey) (row : Row)
    → is_key key ≡ true
    → (row_to_progress (to_db key, row)).key ≡ key
unfolding is_key to_db row_to_progress
key_read_back key row h =
    ap (λ episode. record key { episode_id = episode })
      (episode_read_back key.episode_id (ground arith))

-- The metadata that is stored for a video.
abbrev pub metadata_of : Option Row → PlaybackMetadata
metadata_of none = no_metadata
metadata_of (some row) = record {
  title = row.title;
  poster_url = row.poster_url;
  stream_url = row.stream_url;
}

lookup-upsert :
    (key : DbKey) (row : Row) (change : Row → Row) (rows : List (DbKey × Row)) (k : DbKey)
    → ¬ (key ≡ k)
    → lookup key_discrete k (upsert key row change rows) ≡ lookup key_discrete k rows
unfolding upsert
lookup-upsert key row change rows k other = elim (Option-cases (lookup key_discrete key rows)) [
  | inl e ↦ ground (arith, lookup-insert key_discrete k key row rows)
  | inr (v, e) ↦ ground (arith, lookup-update key_discrete k key change rows)
]

-- The row that a save leaves.
saved_row :
    (now : ℕ) (key : DbKey) (p d : F64) (completed : Bool) (rows : List (DbKey × Row))
    → lookup key_discrete key
        (upsert key (new_row now p d completed no_metadata) (moved now p d completed) rows)
      ≡ some (new_row now p d completed (metadata_of (lookup key_discrete key rows)))
unfolding upsert
saved_row now key p d completed rows = elim (Option-cases (lookup key_discrete key rows)) [
  | inl e ↦
      ground
        (arith, lookup-insert key_discrete key key (new_row now p d completed no_metadata) rows)
  | inr (v, e) ↦ ground (arith, lookup-update key_discrete key key (moved now p d completed) rows)
]

read_back-ok :
    (key : PlaybackKey) (c : Conn (List (DbKey × Row))) (progress : PlaybackProgress) (row : Row)
    → (read_back key c).0 ≡ ok progress
    → lookup key_discrete (to_db key) c.tables ≡ some row
    → progress ≡ row_to_progress (to_db key, row)
unfolding read_back load
read_back-ok key c progress row h e = ground arith

-- Whatever statements fail: where a save succeeds, it answers with the video's key, the position, the duration
-- and the mark that were given and the title and URLs that were stored before, if any, and that is what the
-- table has for the video then; the rows of all other videos are as they were.
pub save_stores :
    (now : ℕ) (key : PlaybackKey) (p d : F64) (completed : Bool) (c : Conn (List (DbKey × Row)))
    (progress : PlaybackProgress)
    → (save now key p d completed c).0 ≡ ok progress
    → (progress.key ≡ key)
      × (progress
          ≡ row_to_progress (
            to_db key,
            new_row now p d completed (metadata_of (lookup key_discrete (to_db key) c.tables)),
          ))
      × (lookup key_discrete (to_db key) (save now key p d completed c).1.tables
          ≡ some
              (new_row now p d completed (metadata_of (lookup key_discrete (to_db key) c.tables))))
      × ((k : DbKey)
          → ¬ (to_db key ≡ k)
          → lookup key_discrete k (save now key p d completed c).1.tables
            ≡ lookup key_discrete k c.tables)
unfolding save
save_stores now key p d completed c progress h = elim (save_after now key p d completed c) [
  | inl (e, same) ↦ absurd (ground arith)
  | inr (t, k, e) ↦
      let rows : List (DbKey × Row) =
        upsert (to_db key) (new_row now p d completed no_metadata) (moved now p d completed)
          c.tables in
      let row : Row =
        new_row now p d completed (metadata_of (lookup key_discrete (to_db key) c.tables)) in
      let there : lookup key_discrete (to_db key) rows ≡ some row =
        saved_row now (to_db key) p d completed c.tables in
      let is : progress ≡ row_to_progress (to_db key, row) =
        read_back-ok key (record c { tables = rows; faults = later c.faults }) progress row
          (ground arith) there in
      (
        ap (λ (x : PlaybackProgress). x.key) is ∙ key_read_back key row k,
        is,
        ap (lookup key_discrete (to_db key)) e ∙ there,
        λ j other.
            ap (lookup key_discrete j) e
            ∙ lookup-upsert (to_db key) (new_row now p d completed no_metadata)
                (moved now p d completed) c.tables j other,
      )
]

-- Later rows are not newer.
abbrev pub Descending : List (DbKey × Row) → Type 0
Descending [] = Unit
Descending (row ∷ rows) = All (λ next. next.1.updated_at ≤ row.1.updated_at) rows × Descending rows

comes_first-newer :
    (row next : DbKey × Row)
    → ((comes_first row next ≡ true) × (next.1.updated_at ≤ row.1.updated_at))
      ⊎ ((comes_first row next ≡ false) × (row.1.updated_at ≤ next.1.updated_at))
unfolding comes_first
comes_first-newer row next = elim (Bool-cases (comes_first row next)) [
  | inl e ↦ inl (e, ground arith)
  | inr e ↦ inr (e, ground arith)
]

module _ (P : DbKey × Row → Type 0) where
  All-place :
      (row : DbKey × Row) (rows : List (DbKey × Row)) → P row → All P rows → All P (place row rows)
  unfolding place
  All-place row [] p a = (p, tt)
  All-place row (next ∷ rows) p a = elim (Bool-cases (comes_first row next)) [
    | inl e ↦ rw e (p, a)
    | inr e ↦ rw e (a.0, All-place row rows p a.1)
  ]

  All-newest_first : (rows : List (DbKey × Row)) → All P rows → All P (newest_first rows)
  unfolding newest_first
  All-newest_first [] a = tt
  All-newest_first (row ∷ rows) a =
      All-place row (newest_first rows) a.0 (All-newest_first rows a.1)

  All-take : (n : ℕ) (rows : List (DbKey × Row)) → All P rows → All P (take n rows)
  All-take zero rows a = tt
  All-take (suc n) [] a = tt
  All-take (suc n) (row ∷ rows) a = (a.0, All-take n rows a.1)

All-keep-any :
    (P : DbKey × Row → Type 0) (p : DbKey × Row → Bool) (rows : List (DbKey × Row))
    → All P rows
    → All P (keep p rows)
All-keep-any P p [] a = tt
All-keep-any P p (row ∷ rows) a = elim (Bool-cases (p row)) [
  | inl e ↦ rw e (a.0, All-keep-any P p rows a.1)
  | inr e ↦ rw e (All-keep-any P p rows a.1)
]

All-keep :
    (p : DbKey × Row → Bool) (rows : List (DbKey × Row)) → All (λ row. p row ≡ true) (keep p rows)
All-keep p [] = tt
All-keep p (row ∷ rows) = elim (Bool-cases (p row)) [
  | inl e ↦ rw e (e, All-keep p rows)
  | inr e ↦ rw e (All-keep p rows)
]

All-older :
    (a b : ℕ) (rows : List (DbKey × Row))
    → b ≤ a
    → All (λ next. next.1.updated_at ≤ b) rows
    → All (λ next. next.1.updated_at ≤ a) rows
All-older a b [] h all = tt
All-older a b (row ∷ rows) h all = (omega (arith, all.0), All-older a b rows h all.1)

place-Descending :
    (row : DbKey × Row) (rows : List (DbKey × Row)) → Descending rows → Descending (place row rows)
unfolding place
place-Descending row [] s = (tt, tt)
place-Descending row (next ∷ rows) s = elim (comes_first-newer row next) [
  | inl (e, h) ↦ rw e ((h, All-older row.1.updated_at next.1.updated_at rows h s.0), s)
  | inr (e, h) ↦ rw e (
    All-place (λ later. later.1.updated_at ≤ next.1.updated_at) row rows h s.0,
    place-Descending row rows s.1,
  )
]

newest_first-Descending : (rows : List (DbKey × Row)) → Descending (newest_first rows)
unfolding newest_first
newest_first-Descending [] = tt
newest_first-Descending (row ∷ rows) =
    place-Descending row (newest_first rows) (newest_first-Descending rows)

take-Descending : (n : ℕ) (rows : List (DbKey × Row)) → Descending rows → Descending (take n rows)
take-Descending zero rows s = tt
take-Descending (suc n) [] s = tt
take-Descending (suc n) (row ∷ rows) s =
    (All-take (λ next. next.1.updated_at ≤ row.1.updated_at) n rows s.0, take-Descending n rows s.1)

length-take-le : (n : ℕ) (rows : List (DbKey × Row)) → length (take n rows) ≤ n
length-take-le zero rows = omega arith
length-take-le (suc n) [] = omega arith
length-take-le (suc n) (row ∷ rows) = omega (arith, length-take-le n rows)

-- Where the list of resume points can be read, it is of rows that are at most as many as asked for, the last
-- updated first, of which each is not completed, past its start and before its end; what holds of every row of
-- the table holds of these.
pub list_resumable_recent_lem :
    (limit : ℕ) (c : Conn (List (DbKey × Row))) (listed : List PlaybackProgress)
    → (list_resumable_recent limit c).0 ≡ ok listed
    → (rows : List (DbKey × Row)) × (listed ≡ map row_to_progress rows)
      × (length rows ≤ limit)
      × Descending rows
      × All (λ row. is_resumable row ≡ true) rows
      × ((P : DbKey × Row → Type 0) → All P c.tables → All P rows)
unfolding list_resumable_recent
list_resumable_recent_lem limit c listed h =
    let sorted : List (DbKey × Row) = newest_first (keep is_resumable c.tables) in
    (
      take limit sorted,
      ground arith,
      length-take-le limit sorted,
      take-Descending limit sorted (newest_first-Descending (keep is_resumable c.tables)),
      All-take (λ row. is_resumable row ≡ true) limit sorted
          (All-newest_first (λ row. is_resumable row ≡ true) (keep is_resumable c.tables)
            (All-keep is_resumable c.tables)),
      λ P a. All-take P limit sorted (
          All-newest_first P (keep is_resumable c.tables) (All-keep-any P is_resumable c.tables a)),
    )
