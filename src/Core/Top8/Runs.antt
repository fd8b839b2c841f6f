-- ===== src/Core/Top8/Runs.antt =====
-- Any sequence of edits of the Top 8 (core/src/top8.rs), and what an accepted edit stores.
use ankai.Prelude.{String, string_discrete, Option-cases, List, [], ◌∷◌, ◌≡◌, inl, inr, arith}
use ankai.Prelude.Dict.{lookup, lookup-append_new, insert_new}
use ankai.Sql.{Conn}
use ankai.Core.Store.{Tables, Json, create}
use ankai.Core.Top8.{set_top8, add_to_top8, remove_from_top8, move_up, move_down}
use ankai.Core.Top8.Kept.{Known, ReadsBack, Sound}
use ankai.Core.Top8.Edits.{
  remove_from_top8-Sound, move_down-Sound, move_up-Sound, set_top8-Sound, add_to_top8-Sound,
}

-- What the client may do to the featured list and the communities.
pub data Edit : Type 0 where
  set : List String → Edit
  add remove up down : String → Edit
  join : (id name : String) → Edit

module _ (json : Json (List String)) where
  unfoldable pub edit : Edit → Conn Tables → Conn Tables
  edit (set ids) c = (set_top8 json ids c).1
  edit (add id) c = (add_to_top8 json id c).1
  edit (remove id) c = (remove_from_top8 json id c).1
  edit (up id) c = (move_up json id c).1
  edit (down id) c = (move_down json id c).1
  edit (join id name) c = (create id name c).1

  unfoldable pub edits : List Edit → Conn Tables → Conn Tables
  edits [] c = c
  edits (e ∷ es) c = edits es (edit e c)

  create-Known :
      (id name : String) (c : Conn Tables) (x : String)
      → Known c.tables x
      → Known (create id name c).1.tables x
  unfolding create insert_new
  create-Known id name c x (n, e) =
      elim (Option-cases (lookup string_discrete id c.tables.communities)) [
        | inl fresh ↦ (
          n,
          ground (arith, lookup-append_new string_discrete x id name c.tables.communities fresh),
        )
        | inr (m, taken) ↦ (n, ground arith)
      ]

  create_settings :
      (id name : String) (c : Conn Tables)
      → (create id name c).1.tables.settings ≡ c.tables.settings
  unfolding create insert_new
  create_settings id name c = ground arith

  edit-Sound :
      ReadsBack json
      → (e : Edit) (c : Conn Tables) → Sound json c.tables
      → Sound json (edit e c).tables
  unfolding edit
  edit-Sound back (set ids) c s = set_top8-Sound json back c s ids
  edit-Sound back (add id) c s = add_to_top8-Sound json back c s id
  edit-Sound back (remove id) c s = remove_from_top8-Sound json back c s id
  edit-Sound back (up id) c s = move_up-Sound json back c s id
  edit-Sound back (down id) c s = move_down-Sound json back c s id
  edit-Sound back (join id name) c (ids, read, g) = (
    ids,
    ground (arith, create_settings id name c, read),
    record {
      bound = g.bound;
      distinct = g.distinct;
      known = λ x m. create-Known id name c x (g.known x m);
    },
  )

  -- Whatever edits are made, in any order, and whatever statements fail: the stored list can be
  -- read, holds at most eight ids, none twice, and the device has each of these communities.
  -- The condition is that serde_json reads back the lists that it writes.
  pub edits-Sound :
      ReadsBack json
      → (es : List Edit) (c : Conn Tables) → Sound json c.tables
      → Sound json (edits es c).tables
  unfolding edits
  edits-Sound back [] c s = s
  edits-Sound back (e ∷ es) c s = edits-Sound back es (edit e c) (edit-Sound back e c s)
