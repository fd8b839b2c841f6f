-- ===== src/Core/Store.antt =====
-- The client's database, as far as the modelled parts use it: the settings (core/src/db.rs) and the
-- communities (core/src/communities.rs). Rows of `communities` stand in the order of creation.
-- The random id of a new community is an argument. Messages of errors are left out.
use ankai.Prelude.{String, string_discrete, Option, some, List, map}
use mathlib.Core.Option
use ankai.Prelude.Dict.{lookup, insert, insert_new}
use ankai.Sql.{Action, pure, ◌>>◌, map_err, query, execute}

-- Of the crate's errors the ones of the database and of the add-ons.
pub data Error : Type 0 where
  db stremio : Error

pub record Community : Type 0 where
  pub id : String
  pub name : String

-- `communities` by their id.
pub record Tables : Type 0 where
  pub settings : List (String × String)
  pub communities : List (String × String)

abbrev pub Db : Type 0 → Type 0
Db = Action Tables Error

-- serde_json for one type.
pub record Json (A : Type 0) : Type 0 where
  pub to_string : A → Option String
  pub from_str : String → Option A

abbrev dec : Discrete String
dec = string_discrete

unfoldable pub get_setting : String → Db (Option String)
get_setting key = map_err (λ _. db) (query (λ t. lookup dec key t.settings))

unfoldable pub set_setting : String → String → Db (Unit {0})
set_setting key value =
    map_err (λ _. db)
      (execute (λ t. some (record t { settings = insert dec key value t.settings })))

unfoldable pub create : (random_id : String) → String → Db Community
create random_id name = do
  map_err (λ _. db)
      (execute (λ t.
        Option.map (λ rows. record t { communities = rows })
          (insert_new dec random_id name t.communities)))
  pure (record { id = random_id; name = name })

abbrev pub community : String × String → Community
community row = record { id = row.0; name = row.1 }

unfoldable pub list : Db (List Community)
list = map_err (λ _. db) (query (λ t. map community t.communities))

unfoldable pub find_community : String → Tables → Option Community
find_community id t = Option.map (λ name. community (id, name)) (lookup dec id t.communities)

unfoldable pub get : String → Db (Option Community)
get id = map_err (λ _. db) (query (find_community id))
