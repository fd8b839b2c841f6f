-- ===== src/Core/Playback/Kept.antt =====
-- The resume points of core/src/playback_progress.rs stay valid, whatever is called and whatever fails.
use ankai.Prelude.{
  ℕ, String, Bool, Bool-cases, true, Option, Option-cases, List, [], ◌∷◌, All, ◌≡◌, refl, ◌⊎◌, inl,
  inr, arith,
}
use ankai.Prelude.Dict.{
  lookup, update, erase, Distinct, insert-Distinct, update-Distinct, erase-Distinct, All-insert,
  All-update, All-erase,
}
use ankai.Prelude.Results.{err}
use ankai.Sql.{Conn, now_fails, later}
use ankai.Core.Store.{db}
use ankai.Core.Playback.{
  F64, finite, nan, infinity, neg_infinity, lt_f64, le_f64, PlaybackKey, PlaybackMetadata, Row,
  DbKey, key_discrete, is_key, are_times, is_title, to_db, load, read_back, upsert, moved, new_row,
  no_metadata, save, at_end, mark_completed, clear, is_metadata, save_with_metadata,
  list_resumable_recent,
}

-- A finite position from 0 to the finite duration, which is more than 0, and a title that may be shown.
pub record IsRow (row : DbKey × Row) : Type 0 where
  pub times : are_times row.1.position_seconds row.1.duration_seconds ≡ true
  pub title : is_title row.1.title ≡ true

pub record Sound (rows : List (DbKey × Row)) : Type 0 where
  pub distinct : Distinct key_discrete rows
  pub rows_are : All IsRow rows

-- The end of a valid row is a valid position.
are_times-end :
    (position duration : F64)
    → are_times position duration ≡ true
    → are_times duration duration ≡ true
unfolding are_times lt_f64 le_f64
are_times-end p (finite d) h = ground arith
are_times-end p nan h = absurd (ground arith)
are_times-end p infinity h = absurd (ground arith)
are_times-end p neg_infinity h = absurd (ground arith)

upsert-Sound :
    (key : DbKey) (row : Row) (change : Row → Row) (rows : List (DbKey × Row))
    → IsRow (key, row)
    → ((k : DbKey) (r : Row) → IsRow (k, r) → IsRow (k, change r))
    → Sound rows
    → Sound (upsert key row change rows)
unfolding upsert
upsert-Sound key row change rows r c s = elim (Option-cases (lookup key_discrete key rows)) [
  | inl e ↦
      rw (upsert, e)
        (record {
          distinct = insert-Distinct key_discrete key row rows s.distinct;
          rows_are = All-insert key_discrete IsRow key row rows r s.rows_are;
        })
  | inr (v, e) ↦
      rw (upsert, e)
        (record {
          distinct = update-Distinct key_discrete key change rows s.distinct;
          rows_are = All-update key_discrete IsRow key change rows c s.rows_are;
        })
]

load_frame : (key : PlaybackKey) (c : Conn (List (DbKey × Row))) → (load key c).1.tables ≡ c.tables
unfolding load
load_frame key c = ground arith

pub read_back_frame :
    (key : PlaybackKey) (c : Conn (List (DbKey × Row))) → (read_back key c).1.tables ≡ c.tables
unfolding read_back
read_back_frame key c = ground (arith, load_frame key c)

list_frame :
    (limit : ℕ) (c : Conn (List (DbKey × Row)))
    → (list_resumable_recent limit c).1.tables ≡ c.tables
unfolding list_resumable_recent
list_frame limit c = ground arith

-- A save changes nothing, or it was of valid times and writes its row.
pub save_after :
    (now : ℕ) (key : PlaybackKey) (p d : F64) (completed : Bool) (c : Conn (List (DbKey × Row)))
    → (((save now key p d completed c).0 ≡ err db)
        × ((save now key p d completed c).1.tables ≡ c.tables))
      ⊎ ((are_times p d ≡ true)
          × (is_key key ≡ true)
          × ((save now key p d completed c).1.tables
              ≡ upsert
                  (to_db key)
                  (new_row now p d completed no_metadata)
                  (moved now p d completed)
                  c.tables))
unfolding save
save_after now key p d completed c = elim (Bool-cases (is_key key)) [
  | inr e ↦ inl (ground arith)
  | inl e ↦ elim (Bool-cases (are_times p d)) [
    | inr f ↦ inl (ground arith)
    | inl f ↦ elim (Bool-cases (now_fails c.faults)) [
      | inl g ↦ inl (ground arith)
      | inr g ↦ inr (
        f,
        e,
        ground (
          arith,
          read_back_frame key (record c {
            tables =
                upsert (to_db key) (new_row now p d completed no_metadata) (moved now p d completed)
                  c.tables;
            faults = later c.faults;
          }),
        ),
      )
    ]
  ]
]

mark_after :
    (now : ℕ) (key : PlaybackKey) (c : Conn (List (DbKey × Row)))
    → ((mark_completed now key c).1.tables ≡ c.tables)
      ⊎ ((mark_completed now key c).1.tables
          ≡ update key_discrete (to_db key) (at_end now) c.tables)
unfolding mark_completed
mark_after now key c = elim (Bool-cases (is_key key)) [
  | inr e ↦ inl (ground arith)
  | inl e ↦ elim (Bool-cases (now_fails c.faults)) [
    | inl f ↦ inl (ground arith)
    | inr f ↦ elim (Option-cases (lookup key_discrete (to_db key) c.tables)) [
      | inl g ↦ inl (ground arith)
      | inr (v, g) ↦ inr (
          ground (
            arith,
            read_back_frame key (record c {
              tables = update key_discrete (to_db key) (at_end now) c.tables;
              faults = later c.faults;
            }),
          ))
    ]
  ]
]

clear_after :
    (key : PlaybackKey) (c : Conn (List (DbKey × Row)))
    → ((clear key c).1.tables ≡ c.tables)
      ⊎ ((clear key c).1.tables ≡ erase key_discrete (to_db key) c.tables)
unfolding clear
clear_after key c = elim (Bool-cases (is_key key)) [
  | inr e ↦ inl (ground arith)
  | inl e ↦ elim (Bool-cases (now_fails c.faults)) [
    | inl f ↦ inl (ground arith)
    | inr f ↦ inr (ground arith)
  ]
]

-- The calls of the module.
pub data Call : Type 0 where
  save_call :
      (now : ℕ)
      → PlaybackKey
      → (position_seconds duration_seconds : F64) → (completed : Bool) → Call
  save_metadata_call :
      (now : ℕ)
      → PlaybackKey
      → (position_seconds duration_seconds : F64) → (completed : Bool) → PlaybackMetadata
      → Call
  complete_call : (now : ℕ) → PlaybackKey → Call
  load_call clear_call : PlaybackKey → Call
  list_call : (limit : ℕ) → Call

module _ (parse : String → Option (String × Bool)) where
  save_with_metadata_after :
      (now : ℕ) (key : PlaybackKey) (p d : F64) (completed : Bool) (m : PlaybackMetadata)
      (c : Conn (List (DbKey × Row)))
      → ((save_with_metadata parse now key p d completed m c).1.tables ≡ c.tables)
        ⊎ ((are_times p d ≡ true)
            × (is_metadata parse m ≡ true)
            × ((save_with_metadata parse now key p d completed m c).1.tables
                ≡ upsert
                    (to_db key)
                    (new_row now p d completed m)
                    (λ row. new_row now p d completed m)
                    c.tables))
  unfolding save_with_metadata
  save_with_metadata_after now key p d completed m c = elim (Bool-cases (is_key key)) [
    | inr e ↦ inl (ground arith)
    | inl e ↦ elim (Bool-cases (are_times p d)) [
      | inr f ↦ inl (ground arith)
      | inl f ↦ elim (Bool-cases (is_metadata parse m)) [
        | inr h ↦ inl (ground arith)
        | inl h ↦ elim (Bool-cases (now_fails c.faults)) [
          | inl g ↦ inl (ground arith)
          | inr g ↦ inr (
            f,
            h,
            ground (
              arith,
              read_back_frame key (record c {
                tables =
                    upsert (to_db key) (new_row now p d completed m)
                      (λ row. new_row now p d completed m) c.tables;
                faults = later c.faults;
              }),
            ),
          )
        ]
      ]
    ]
  ]

  unfoldable pub perform : Call → Conn (List (DbKey × Row)) → Conn (List (DbKey × Row))
  perform (save_call now key p d completed) c = (save now key p d completed c).1
  perform (save_metadata_call now key p d completed m) c =
      (save_with_metadata parse now key p d completed m c).1
  perform (complete_call now key) c = (mark_completed now key c).1
  perform (load_call key) c = (load key c).1
  perform (clear_call key) c = (clear key c).1
  perform (list_call limit) c = (list_resumable_recent limit c).1

  unfoldable pub run : List Call → Conn (List (DbKey × Row)) → Conn (List (DbKey × Row))
  run [] c = c
  run (call ∷ calls) c = run calls (perform call c)

  perform-Sound :
      (call : Call) (c : Conn (List (DbKey × Row))) → Sound c.tables → Sound (perform call c).tables
  unfolding perform is_metadata is_title
  perform-Sound (save_call now key p d completed) c s = elim (save_after now key p d completed c) [
    | inl (e, same) ↦ rw same s
    | inr (t, k, e) ↦ rw e (
        upsert-Sound (to_db key) (new_row now p d completed no_metadata) (moved now p d completed)
          c.tables (record { times = t; title = refl })
          (λ k r i. record { times = t; title = i.title }) s)
  ]
  perform-Sound (save_metadata_call now key p d completed m) c s =
      elim (save_with_metadata_after now key p d completed m c) [
        | inl same ↦ rw same s
        | inr (t, v, e) ↦
            let title : is_title m.title ≡ true = ground arith in
            rw e (
              upsert-Sound (to_db key) (new_row now p d completed m)
                (λ row. new_row now p d completed m) c.tables (record { times = t; title = title })
                (λ k r i. record { times = t; title = title }) s)
      ]
  perform-Sound (complete_call now key) c s = elim (mark_after now key c) [
    | inl same ↦ rw same s
    | inr e ↦ rw e (record {
      distinct = update-Distinct key_discrete (to_db key) (at_end now) c.tables s.distinct;
      rows_are =
          All-update key_discrete IsRow (to_db key) (at_end now) c.tables
            (λ k r i. record {
              times = are_times-end r.position_seconds r.duration_seconds i.times;
              title = i.title;
            })
            s.rows_are;
    })
  ]
  perform-Sound (load_call key) c s = rw (load_frame key c) s
  perform-Sound (clear_call key) c s = elim (clear_after key c) [
    | inl same ↦ rw same s
    | inr e ↦ rw e (record {
      distinct = erase-Distinct key_discrete (to_db key) c.tables s.distinct;
      rows_are = All-erase key_discrete IsRow (to_db key) c.tables s.rows_are;
    })
  ]
  perform-Sound (list_call limit) c s = rw (list_frame limit c) s

  -- Through any calls of the module, whatever statements fail, a sound table of resume points stays sound: no
  -- video has two rows, every position is finite, from 0 to its duration, which is finite and more than 0, and
  -- every title is none or may be shown.
  pub resume_points-Sound :
      (calls : List Call) (c : Conn (List (DbKey × Row)))
      → Sound c.tables
      → Sound (run calls c).tables
  unfolding run
  resume_points-Sound [] c s = s
  resume_points-Sound (call ∷ calls) c s =
      resume_points-Sound calls (perform call c) (perform-Sound call c s)
