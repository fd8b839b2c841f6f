-- ===== src/Core/Top8/Stores.antt =====
-- What accepted edits of core/src/top8.rs store.
use ankai.Prelude.{
  String, string_discrete, false, length, length-append, Option-cases, some, List, [], ◌∷◌, ◌++◌,
  map, ◌≡◌, inl, inr, arith,
}
use ankai.Prelude.Dict.{lookup, lookup-insert}
use ankai.Prelude.Int.{◌+ℤ◌}
use ankai.Prelude.Results.{ok, Result-cases}
use ankai.Sql.{Conn}
use ankai.Core.Store.{Tables, Json, Community, get, find_community, get_setting, set_setting}
use ankai.Core.Top8.{
  contains, read_ids, write_ids, resolve, set_top8, move_down, shift, top8_setting_key,
}
use ankai.Core.Top8.Orders.{has_duplicate-Nodup, position-append, swap-append}
use ankai.Core.Top8.Kept.{IsTop8, ReadsBack, featured, resolve_frame}
use ankai.Core.Top8.Edits.{resolve-Known, resolve-short}

resolve_ids :
    (ids : List String) (c : Conn Tables) {found : List Community}
    → (resolve ids c).0 ≡ ok found
    → length found ≡ length ids
    → map (λ (m : Community). m.id) found ≡ ids
unfolding resolve get find_community
resolve_ids [] c h k = ground arith
resolve_ids (x ∷ xs) c h k = elim (Result-cases (resolve xs (get x c).1).0) [
  | inl (e, failed) ↦ absurd (ground arith)
  | inr (rest, r) ↦ elim (Option-cases (lookup string_discrete x c.tables.communities)) [
    | inl e ↦ absurd (ground (arith, resolve-short xs (get x c).1 r))
    | inr (n, e) ↦ ground (arith, resolve_ids xs (get x c).1 r)
  ]
]

module _ (json : Json (List String)) (back : ReadsBack json) where
  write_ids_ok :
      (ids : List String) (c : Conn Tables)
      → (write_ids json ids c).0 ≡ ok tt
      → featured json (write_ids json ids c).1.tables ≡ some ids
  unfolding write_ids set_setting
  write_ids_ok ids c h = elim (Option-cases (json.to_string ids)) [
    | inl e ↦ absurd (ground arith)
    | inr (text, e) ↦ ground (
      arith,
      back ids text e,
      lookup-insert string_discrete top8_setting_key top8_setting_key text c.tables.settings,
    )
  ]

  -- An accepted list is one that may be featured, it is what is stored then, and the communities
  -- that are returned are the ones of the list, in its order. This holds whatever statements fail,
  -- if serde_json reads back what it writes.
  pub set_top8_stores :
      (ids : List String) (c : Conn Tables) {found : List Community}
      → (set_top8 json ids c).0 ≡ ok found
      → IsTop8 c.tables ids
        × (featured json (set_top8 json ids c).1.tables ≡ some ids)
        × (map (λ (m : Community). m.id) found ≡ ids)
  unfolding set_top8
  set_top8_stores ids c {found} h =
      let resolved : (resolve ids c).0 ≡ ok found = ground arith in
      let full : length found ≡ length ids = ground arith in
      let written : (write_ids json ids (resolve ids c).1).0 ≡ ok tt = ground arith in
      let after : (set_top8 json ids c).1.tables ≡ (write_ids json ids (resolve ids c).1).1.tables =
        ground arith in
      (
        record {
          bound = ground arith;
          distinct = has_duplicate-Nodup ids (ground arith);
          known = resolve-Known ids c resolved full;
        },
        rw after (write_ids_ok ids (resolve ids c).1 written),
        resolve_ids ids c resolved full,
      )

  read_ids_quiet :
      (ids : List String) (c : Conn Tables)
      → c.faults ≡ []
      → featured json c.tables ≡ some ids
      → ((read_ids json c).0 ≡ ok ids) × ((read_ids json c).1.faults ≡ [])
  unfolding read_ids get_setting
  read_ids_quiet ids c quiet stored = (ground arith, ground arith)

  write_ids_quiet :
      (ids : List String) (c : Conn Tables) {text : String}
      → c.faults ≡ []
      → json.to_string ids ≡ some text
      → (write_ids json ids c).0 ≡ ok tt
  unfolding write_ids set_setting
  write_ids_quiet ids c quiet written = ground arith

  -- While no statement fails and the new list can be written, moving a community down swaps it with
  -- the one that follows it, and changes nothing else in the list.
  pub move_down_swaps :
      (xs : List String) (a b : String) (ys : List String) (c : Conn Tables) {text : String}
      → c.faults ≡ []
      → featured json c.tables ≡ some (xs ++ a ∷ b ∷ ys)
      → contains a xs ≡ false
      → json.to_string (xs ++ b ∷ a ∷ ys) ≡ some text
      → featured json (move_down json a c).1.tables ≡ some (xs ++ b ∷ a ∷ ys)
  unfolding move_down shift ◌+ℤ◌
  move_down_swaps xs a b ys c {text} quiet stored first written =
      let ids : List String = xs ++ a ∷ b ∷ ys in
      let swapped : List String = xs ++ b ∷ a ∷ ys in
      let read : (read_ids json c).0 ≡ ok ids = (read_ids_quiet ids c quiet stored).0 in
      let saved : (write_ids json swapped (read_ids json c).1).0 ≡ ok tt =
        write_ids_quiet swapped (read_ids json c).1 (read_ids_quiet ids c quiet stored).1 written in
      let after : (move_down json a c).1.tables
          ≡ (write_ids json swapped (read_ids json c).1).1.tables =
        ground (
          arith,
          position-append a xs (b ∷ ys),
          swap-append xs a b ys,
          length-append xs (a ∷ b ∷ ys),
          resolve_frame json swapped (write_ids json swapped (read_ids json c).1).1,
        ) in
      rw after (write_ids_ok swapped (read_ids json c).1 saved)
