-- ===== src/Core/Top8/Edits.antt =====
-- Every edit of core/src/top8.rs keeps the stored list sound, whatever statements fail.
use ankai.Prelude.{
  ℕ, zero, suc, ◌+◌, ◌≤◌, String, string_discrete, true, not, leb, ltb, ◌==◌, Bool-cases, length,
  keep, Option-cases, some, List, [], ◌∷◌, ◌++◌, ◌≡◌, inl, inr, arith,
}
use ankai.Prelude.Dict.{lookup}
use ankai.Prelude.Int.{◌+ℤ◌}
use ankai.Prelude.Results.{ok, Result-cases}
use ankai.Sql.{Conn, ◌>>◌}
use ankai.Core.Store.{Tables, Json, Community, get, find_community}
use ankai.Core.Top8.{
  contains, has_duplicate, position, swap, is_id, read_ids, write_ids, resolve, set_top8,
  add_to_top8, remove_from_top8, shift, move_up, move_down,
}
use ankai.Core.Top8.Orders.{has_duplicate-Nodup, swap_comm}
use ankai.Core.Top8.Kept.{
  Known, IsTop8, ReadsBack, Sound, Wrote, Sound-Wrote, read_ids_frame, resolve_frame,
  write_ids-Wrote, save-Wrote, remove-IsTop8, swap-IsTop8, add-IsTop8, read-IsTop8,
}

-- Where the resolved list is as long as the list of ids, the device has every community in it.
pub resolve-short :
    (ids : List String) (c : Conn Tables) {found : List Community}
    → (resolve ids c).0 ≡ ok found
    → length found ≤ length ids
unfolding resolve get
resolve-short [] c h = ground arith
resolve-short (id ∷ ids) c h = elim (Result-cases (resolve ids (get id c).1).0) [
  | inl (x, failed) ↦ ground arith
  | inr (rest, r) ↦ ground (arith, resolve-short ids (get id c).1 r)
]

pub resolve-Known :
    (ids : List String) (c : Conn Tables) {found : List Community}
    → (resolve ids c).0 ≡ ok found
    → length found ≡ length ids
    → (id : String) → contains id ids ≡ true
    → Known c.tables id
unfolding resolve get contains find_community
resolve-Known [] c h k id m = absurd (cc)
resolve-Known (x ∷ xs) c h k id m =
    let same : (get x c).1.tables ≡ c.tables = ground arith in
    elim (Result-cases (resolve xs (get x c).1).0) [
      | inl (e, failed) ↦ absurd (ground arith)
      | inr (rest, r) ↦ elim (Option-cases (lookup string_discrete x c.tables.communities)) [
        | inl e ↦ absurd (ground (arith, resolve-short xs (get x c).1 r))
        | inr (n, e) ↦ elim (string_discrete x id) [
          | yes q ↦ (n, rw (← q) e)
          | no q ↦
              let known : Known (get x c).1.tables id =
                resolve-Known xs (get x c).1 r (ground arith) id (ground arith) in
              rw (← same) known
        ]
      ]
    ]

get-Known :
    (id : String) (c : Conn Tables) {community : Community}
    → (get id c).0 ≡ ok (some community)
    → Known c.tables id
unfolding get find_community
get-Known id c h = elim (Option-cases (lookup string_discrete id c.tables.communities)) [
  | inl e ↦ absurd (ground arith)
  | inr (n, e) ↦ (n, e)
]

module _ (json : Json (List String)) (back : ReadsBack json) (c : Conn Tables)
    (sound : Sound json c.tables) where
  pub remove_from_top8-Sound : (id : String) → Sound json (remove_from_top8 json id c).1.tables
  unfolding remove_from_top8
  remove_from_top8-Sound id = elim (Result-cases (read_ids json c).0) [
    | inl (x, failed) ↦
        Sound-Wrote json c.tables _ sound (inl (ground (arith, read_ids_frame json c)))
    | inr (read, r) ↦
        let filtered : List String = keep (λ x. not (is_id x id)) read in
        let after : (remove_from_top8 json id c).1.tables
            ≡ ((write_ids json filtered >> resolve filtered) (read_ids json c).1).1.tables =
          ground arith in
        Sound-Wrote json c.tables _ sound (
          rw after (
            save-Wrote json back c.tables filtered (read_ids json c).1 (read_ids_frame json c)
              (remove-IsTop8 json c.tables id read (read-IsTop8 json c sound r))))
  ]

  shift-Wrote :
      (ids : List String) (j : ℕ)
      → IsTop8 c.tables ids
      → Wrote json c.tables
          ((write_ids json (swap j (suc j) ids) >> resolve (swap j (suc j) ids))
            (read_ids json c).1).1.tables
  shift-Wrote ids j g =
      save-Wrote json back c.tables (swap j (suc j) ids) (read_ids json c).1 (read_ids_frame json c)
        (swap-IsTop8 json c.tables j ids g)

  pub move_down-Sound : (id : String) → Sound json (move_down json id c).1.tables
  unfolding move_down shift ◌+ℤ◌
  move_down-Sound id = elim (Result-cases (read_ids json c).0) [
    | inl (x, failed) ↦
        Sound-Wrote json c.tables _ sound (inl (ground (arith, read_ids_frame json c)))
    | inr (read, r) ↦ elim (Option-cases (position id read)) [
      | inl e ↦ Sound-Wrote json c.tables _ sound (inl (ground (arith, read_ids_frame json c)))
      | inr (i, e) ↦ elim (Bool-cases (leb (length read) (i + 1))) [
        | inl last ↦ Sound-Wrote json c.tables _ sound (
            inl
              (ground (arith, read_ids_frame json c, resolve_frame json read (read_ids json c).1)))
        | inr inside ↦
            let after : (move_down json id c).1.tables
                ≡ ((write_ids json (swap i (suc i) read) >> resolve (swap i (suc i) read))
                    (read_ids json c).1).1.tables =
              ground arith in
            Sound-Wrote json c.tables _ sound
              (rw after (shift-Wrote read i (read-IsTop8 json c sound r)))
      ]
    ]
  ]

  move_up_at :
      (id : String) (read : List String) (i : ℕ)
      → (read_ids json c).0 ≡ ok read
      → position id read ≡ some i
      → Wrote json c.tables (move_up json id c).1.tables
  unfolding move_up shift ◌+ℤ◌
  move_up_at id read zero r e =
      inl (ground (arith, read_ids_frame json c, resolve_frame json read (read_ids json c).1))
  move_up_at id read (suc i) r e = elim (Bool-cases (leb (length read) i)) [
    | inl last ↦
        inl (ground (arith, read_ids_frame json c, resolve_frame json read (read_ids json c).1))
    | inr inside ↦
        let swapped : swap (suc i) i read ≡ swap i (suc i) read = swap_comm i read in
        let after : (move_up json id c).1.tables
            ≡ ((write_ids json (swap i (suc i) read) >> resolve (swap i (suc i) read))
                (read_ids json c).1).1.tables =
          ground arith in
        rw after (shift-Wrote read i (read-IsTop8 json c sound r))
  ]

  pub move_up-Sound : (id : String) → Sound json (move_up json id c).1.tables
  unfolding move_up shift
  move_up-Sound id = elim (Result-cases (read_ids json c).0) [
    | inl (x, failed) ↦
        Sound-Wrote json c.tables _ sound (inl (ground (arith, read_ids_frame json c)))
    | inr (read, r) ↦ elim (Option-cases (position id read)) [
      | inl e ↦ Sound-Wrote json c.tables _ sound (inl (ground (arith, read_ids_frame json c)))
      | inr (i, e) ↦ Sound-Wrote json c.tables _ sound (move_up_at id read i r e)
    ]
  ]

  pub set_top8-Sound : (ids : List String) → Sound json (set_top8 json ids c).1.tables
  unfolding set_top8
  set_top8-Sound ids = elim (Bool-cases (ltb 8 (length ids))) [
    | inl many ↦ Sound-Wrote json c.tables _ sound (inl (ground arith))
    | inr few ↦ elim (Bool-cases (has_duplicate [] ids)) [
      | inl twice ↦ Sound-Wrote json c.tables _ sound (inl (ground arith))
      | inr once ↦ elim (Result-cases (resolve ids c).0) [
        | inl (x, failed) ↦
            Sound-Wrote json c.tables _ sound (inl (ground (arith, resolve_frame json ids c)))
        | inr (found, r) ↦ elim (Bool-cases (length found == length ids)) [
          | inr absent ↦
              Sound-Wrote json c.tables _ sound (inl (ground (arith, resolve_frame json ids c)))
          | inl full ↦
              let after : (set_top8 json ids c).1.tables
                  ≡ (write_ids json ids (resolve ids c).1).1.tables =
                ground arith in
              Sound-Wrote json c.tables _ sound (
                rw after (
                  write_ids-Wrote json back c.tables ids (resolve ids c).1
                    (resolve_frame json ids c)
                    (record {
                      bound = ground arith;
                      distinct = has_duplicate-Nodup ids once;
                      known = resolve-Known ids c r (ground arith);
                    })))
        ]
      ]
    ]
  ]

  pub add_to_top8-Sound : (id : String) → Sound json (add_to_top8 json id c).1.tables
  unfolding add_to_top8 get
  add_to_top8-Sound id = elim (Result-cases (get id c).0) [
    | inl (x, failed) ↦ Sound-Wrote json c.tables _ sound (inl (ground arith))
    | inr (found, r) ↦ elim (Option-cases found) [
      | inl unknown ↦ Sound-Wrote json c.tables _ sound (inl (ground arith))
      | inr (community, e) ↦
          let same : (get id c).1.tables ≡ c.tables = ground arith in
          elim (Result-cases (read_ids json (get id c).1).0) [
            | inl (x, failed) ↦
                Sound-Wrote json c.tables _ sound
                  (inl (ground (arith, read_ids_frame json (get id c).1)))
            | inr (read, q) ↦ elim (Bool-cases (contains id read)) [
              | inl already ↦ Sound-Wrote json c.tables _ sound (
                  inl (
                    ground (
                      arith,
                      read_ids_frame json (get id c).1,
                      resolve_frame json read (read_ids json (get id c).1).1,
                    )))
              | inr absent ↦ elim (Bool-cases (leb 8 (length read))) [
                | inl full ↦
                    Sound-Wrote json c.tables _ sound
                      (inl (ground (arith, read_ids_frame json (get id c).1)))
                | inr room ↦
                    let ids : List String = read ++ id ∷ [] in
                    let after : (add_to_top8 json id c).1.tables
                        ≡ ((write_ids json ids >> resolve ids)
                            (read_ids json (get id c).1).1).1.tables =
                      ground arith in
                    let known : Known c.tables id =
                      get-Known id c {community = community} (ground arith) in
                    let listed : IsTop8 c.tables read =
                      rw (← same) (read-IsTop8 json (get id c).1 (rw same sound) q) in
                    Sound-Wrote json c.tables _ sound (
                      rw after (
                        save-Wrote json back c.tables ids (read_ids json (get id c).1).1
                          (ground (arith, read_ids_frame json (get id c).1))
                          (add-IsTop8 json c.tables id read listed known absent (ground arith))))
              ]
            ]
          ]
    ]
  ]
