-- ===== src/Core/Watchlist/Progress.antt =====
-- The watchlist of core/src/anime.rs stays sound, and only `update_progress` changes a progress.
use ankai.Prelude.{
  ℕ, String, string_discrete, Bool-cases, Option, Option-cases, none, some, List, [], ◌∷◌, All, ◌≡◌,
  refl, sym, ap, inl, inr, arith, ◌⊎◌,
}
use mathlib.Core.Option
use ankai.Prelude.Dict.{
  lookup, insert, update, erase, Distinct, insert-Distinct, update-Distinct, erase-Distinct,
  All-insert, All-update, All-erase, lookup-insert, lookup-update,
}
use ankai.Prelude.Int.{ℤ, pos, ltb_ℤ, ◌≤ℤ◌, int_discrete}
use ankai.Prelude.Results.{ok, err}
use ankai.Sql.{Conn, now_fails, later}
use ankai.Core.Store.{db}
use ankai.Core.Watchlist.{
  WatchStatus, watching, completed, planned, dropped, as_db_str, from_db_str, AnimeSummary, Row,
  get_watchlist_entry, read_back, inserted, refreshed, upsert, add_to_watchlist, update_row,
  write_row, update_progress, update_status, list_watchlist, remove_from_watchlist,
}

-- Every status is read back from the text that is stored for it, and a text that is read as a status is the
-- text that is stored for it.
pub from_db_str-as_db_str :
    (status : WatchStatus) (s : String)
    → (from_db_str (as_db_str status) ≡ ok status)
      × (from_db_str s ≡ ok status → s ≡ as_db_str status)
unfolding from_db_str string_discrete
from_db_str-as_db_str watching s = (ground arith, ground arith)
from_db_str-as_db_str completed s = (ground arith, ground arith)
from_db_str-as_db_str planned s = (ground arith, ground arith)
from_db_str-as_db_str dropped s = (ground arith, ground arith)

-- A row whose progress is not negative and whose status is one of the four.
pub record IsRow (row : ℤ × Row) : Type 0 where
  pub progress : pos 0 ≤ℤ row.1.watched_episodes
  pub status : WatchStatus
  pub status_is : row.1.status ≡ as_db_str status

pub record Sound (rows : List (ℤ × Row)) : Type 0 where
  pub distinct : Distinct int_discrete rows
  pub rows_are : All IsRow rows

upsert-Sound :
    (now : ℕ) (anime : AnimeSummary) (status : WatchStatus) (rows : List (ℤ × Row))
    → Sound rows
    → Sound (upsert now anime (as_db_str status) rows)
unfolding upsert
upsert-Sound now anime status rows s =
    elim (lookup int_discrete anime.id rows)
      as (λ o. Sound (elim o [
        | none ↦ insert int_discrete anime.id (inserted now anime (as_db_str status)) rows
        | some _ ↦ update int_discrete anime.id (refreshed now anime (as_db_str status)) rows
      ])) [
        | none ↦ record {
          distinct =
              insert-Distinct int_discrete anime.id (inserted now anime (as_db_str status)) rows
                s.distinct;
          rows_are =
              All-insert int_discrete IsRow anime.id (inserted now anime (as_db_str status)) rows
                (record { progress = omega arith; status = status; status_is = refl }) s.rows_are;
        }
        | some _ ↦ record {
          distinct =
              update-Distinct int_discrete anime.id (refreshed now anime (as_db_str status)) rows
                s.distinct;
          rows_are =
              All-update int_discrete IsRow anime.id (refreshed now anime (as_db_str status)) rows
                (λ j v p. record { progress = p.progress; status = status; status_is = refl })
                s.rows_are;
        }
      ]

update_row-Sound :
    (id : ℤ) (f : Row → Row) (rows : List (ℤ × Row))
    → ((j : ℤ) (v : Row) → IsRow (j, v) → IsRow (j, f v))
    → Sound rows
    → Sound (update_row id f rows).1
unfolding update_row
update_row-Sound id f rows h s = elim (Option-cases (lookup int_discrete id rows)) [
  | inl e ↦ rw (update_row, e) s
  | inr (v, e) ↦
      rw (update_row, e)
        (record {
          distinct = update-Distinct int_discrete id f rows s.distinct;
          rows_are = All-update int_discrete IsRow id f rows h s.rows_are;
        })
]

-- Reading changes no row.
get_frame : (id : ℤ) (c : Conn (List (ℤ × Row))) → (get_watchlist_entry id c).1.tables ≡ c.tables
unfolding get_watchlist_entry
get_frame id c = ground arith

pub read_back_frame : (id : ℤ) (c : Conn (List (ℤ × Row))) → (read_back id c).1.tables ≡ c.tables
unfolding read_back
read_back_frame id c = ground (arith, get_frame id c)

list_frame :
    (status : Option WatchStatus) (c : Conn (List (ℤ × Row)))
    → (list_watchlist status c).1.tables ≡ c.tables
unfolding list_watchlist
list_frame status c = ground arith

-- What `add_to_watchlist` and the two updates leave.
pub add_after :
    (now : ℕ) (anime : AnimeSummary) (status : WatchStatus) (c : Conn (List (ℤ × Row)))
    → (((add_to_watchlist now anime status c).0 ≡ err db)
        × ((add_to_watchlist now anime status c).1.tables ≡ c.tables))
      ⊎ ((add_to_watchlist now anime status c).1.tables
          ≡ upsert now anime (as_db_str status) c.tables)
unfolding add_to_watchlist
add_after now anime status c = elim (Bool-cases (now_fails c.faults)) [
  | inl f ↦ inl (ground arith)
  | inr f ↦ inr (
      ground (
        arith,
        read_back_frame anime.id (record c {
          tables = upsert now anime (as_db_str status) c.tables;
          faults = later c.faults;
        }),
      ))
]

write_row_after :
    (id : ℤ) (f : Row → Row) (c : Conn (List (ℤ × Row)))
    → ((write_row id f c).1.tables ≡ c.tables)
      ⊎ ((write_row id f c).1.tables ≡ (update_row id f c.tables).1)
unfolding write_row
write_row_after id f c = elim (Bool-cases (now_fails c.faults)) [
  | inl e ↦ inl (ground arith)
  | inr e ↦ inr (
      ground (
        arith,
        read_back_frame id
            (record c { tables = (update_row id f c.tables).1; faults = later c.faults }),
      ))
]

remove_after :
    (id : ℤ) (c : Conn (List (ℤ × Row)))
    → ((remove_from_watchlist id c).1.tables ≡ c.tables)
      ⊎ ((remove_from_watchlist id c).1.tables ≡ erase int_discrete id c.tables)
unfolding remove_from_watchlist
remove_after id c = elim (Bool-cases (now_fails c.faults)) [
  | inl e ↦ inl (ground arith)
  | inr e ↦ inr (ground arith)
]

-- The calls of the module.
pub data Call : Type 0 where
  add : (now : ℕ) → AnimeSummary → WatchStatus → Call
  set_progress : (now : ℕ) → (anilist_id watched_episodes : ℤ) → Call
  set_status : (now : ℕ) → (anilist_id : ℤ) → WatchStatus → Call
  read_list : Option WatchStatus → Call
  read_entry remove : ℤ → Call

unfoldable pub perform : Call → Conn (List (ℤ × Row)) → Conn (List (ℤ × Row))
perform (add now anime status) c = (add_to_watchlist now anime status c).1
perform (set_progress now id n) c = (update_progress now id n c).1
perform (set_status now id status) c = (update_status now id status c).1
perform (read_list status) c = (list_watchlist status c).1
perform (read_entry id) c = (get_watchlist_entry id c).1
perform (remove id) c = (remove_from_watchlist id c).1

unfoldable pub run : List Call → Conn (List (ℤ × Row)) → Conn (List (ℤ × Row))
run [] c = c
run (call ∷ calls) c = run calls (perform call c)

update_progress-Sound :
    (now : ℕ) (id n : ℤ) (c : Conn (List (ℤ × Row)))
    → Sound c.tables
    → Sound (update_progress now id n c).1.tables
unfolding update_progress
update_progress-Sound now id n c s = elim (Bool-cases (ltb_ℤ n (pos 0))) [
  | inl negative ↦ rw negative s
  | inr h ↦
      let f : Row → Row = λ row. record row { watched_episodes = n; updated_at = now } in
      rw h (elim (write_row_after id f c) [
        | inl e ↦ rw e s
        | inr e ↦ rw e (
            update_row-Sound id f c.tables
              (λ j v p. record {
                progress = ground arith;
                status = p.status;
                status_is = p.status_is;
              })
              s)
      ])
]

perform-Sound :
    (call : Call) (c : Conn (List (ℤ × Row))) → Sound c.tables → Sound (perform call c).tables
unfolding perform update_status
perform-Sound (add now anime status) c s = elim (add_after now anime status c) [
  | inl (e, same) ↦ rw same s
  | inr e ↦ rw e (upsert-Sound now anime status c.tables s)
]
perform-Sound (set_progress now id n) c s = update_progress-Sound now id n c s
perform-Sound (set_status now id status) c s =
    let f : Row → Row = λ row. record row { status = as_db_str status; updated_at = now } in
    elim (write_row_after id f c) [
      | inl e ↦ rw e s
      | inr e ↦ rw e (
          update_row-Sound id f c.tables
            (λ j v p. record { progress = p.progress; status = status; status_is = refl }) s)
    ]
perform-Sound (read_list status) c s = rw (list_frame status c) s
perform-Sound (read_entry id) c s = rw (get_frame id c) s
perform-Sound (remove id) c s = elim (remove_after id c) [
  | inl e ↦ rw e s
  | inr e ↦ rw e (record {
    distinct = erase-Distinct int_discrete id c.tables s.distinct;
    rows_are = All-erase int_discrete IsRow id c.tables s.rows_are;
  })
]

-- Through any calls of the module, whatever statements fail, a sound watchlist stays sound: no id has two
-- rows, no progress is negative, and every status is one of the four.
pub run-Sound :
    (calls : List Call) (c : Conn (List (ℤ × Row))) → Sound c.tables → Sound (run calls c).tables
unfolding run
run-Sound [] c s = s
run-Sound (call ∷ calls) c s = run-Sound calls (perform call c) (perform-Sound call c s)

-- The progress that is stored for an id.
unfoldable pub progress_of : ℤ → List (ℤ × Row) → Option ℤ
progress_of id rows = Option.map (λ row. row.watched_episodes) (lookup int_discrete id rows)

upsert-progress :
    (now : ℕ) (anime : AnimeSummary) (status : String) (rows : List (ℤ × Row)) (id : ℤ)
    → (progress_of id (upsert now anime status rows) ≡ progress_of id rows)
      ⊎ ((id ≡ anime.id)
          × (progress_of id rows ≡ none)
          × (progress_of id (upsert now anime status rows) ≡ some (pos 0)))
unfolding upsert progress_of
upsert-progress now anime status rows id = elim (Option-cases (lookup int_discrete anime.id rows)) [
  | inl e ↦ elim (int_discrete anime.id id) [
    | yes same ↦ inr (
      sym same,
      ground arith,
      ground (arith, lookup-insert int_discrete id anime.id (inserted now anime status) rows),
    )
    | no other ↦
        inl
          (ground (arith, lookup-insert int_discrete id anime.id (inserted now anime status) rows))
  ]
  | inr (v, e) ↦ elim (int_discrete anime.id id) [
    | yes same ↦
        inl
          (ground (arith, lookup-update int_discrete id anime.id (refreshed now anime status) rows))
    | no other ↦
        inl
          (ground (arith, lookup-update int_discrete id anime.id (refreshed now anime status) rows))
  ]
]

-- Adding an anime, whatever statements fail, leaves the progress of every id on the watchlist as it is; an id
-- that is new afterwards is the anime's, and its progress is 0.
pub add_to_watchlist-progress_of :
    (now : ℕ) (anime : AnimeSummary) (status : WatchStatus) (c : Conn (List (ℤ × Row))) (id : ℤ)
    → (progress_of id (add_to_watchlist now anime status c).1.tables ≡ progress_of id c.tables)
      ⊎ ((id ≡ anime.id)
          × (progress_of id c.tables ≡ none)
          × (progress_of id (add_to_watchlist now anime status c).1.tables ≡ some (pos 0)))
add_to_watchlist-progress_of now anime status c id = elim (add_after now anime status c) [
  | inl (e, same) ↦ inl (ap (progress_of id) same)
  | inr e ↦ rw e (upsert-progress now anime (as_db_str status) c.tables id)
]
