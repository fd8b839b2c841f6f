-- ===== src/Core/Top8.antt =====
-- core/src/top8.rs: the ordered list of at most eight communities that a device features, kept as
-- JSON in one setting. serde_json for lists of texts is a parameter.
pub mod Orders
pub mod Kept
pub mod Edits
pub mod Runs
pub mod Stores
use ankai.Prelude.{
  ℕ, zero, suc, ◌+◌, ◌-◌, String, string_discrete, Bool, true, false, not, ◌||◌, ltb, leb, ◌==◌,
  length, keep, Option, none, some, List, [], ◌∷◌, ◌++◌,
}
use mathlib.Core.Option
use mathlib.Core.Logic.{ite}
use ankai.Prelude.Dict.{lookup}
use ankai.Prelude.Int.{ℤ, pos, negsuc, ◌+ℤ◌, ltb_ℤ, pos_part}
use ankai.Prelude.Results.{ok, err}
use ankai.Sql.{Action, pure, raise, ◌>>=◌, ◌>>◌, branch, on_option}
use ankai.Core.Store.{Error, db, Community, Tables, Db, Json, get_setting, set_setting, get}

abbrev pub top8_setting_key : String
top8_setting_key = "top8_community_ids"

abbrev pub max_top8 : ℕ
max_top8 = 8

abbrev pub is_id : String → String → Bool
is_id s t = elim (string_discrete s t) [ yes _ ↦ true | no _ ↦ false ]

unfoldable pub contains : String → List String → Bool
contains id [] = false
contains id (x ∷ ids) = elim (string_discrete x id) [ yes _ ↦ true | no _ ↦ contains id ids ]

-- The loop over a set of the ids seen so far, which is kept as a list.
unfoldable pub has_duplicate : (seen ids : List String) → Bool
has_duplicate seen [] = false
has_duplicate seen (id ∷ ids) = elim (contains id seen) [
  | true ↦ true
  | false ↦ has_duplicate (id ∷ seen) ids
]

-- `iter().position`.
unfoldable pub position : String → List String → Option ℕ
position id [] = none
position id (x ∷ ids) = elim (string_discrete x id) [
  | yes _ ↦ some 0
  | no _ ↦ Option.map suc (position id ids)
]

unfoldable pub item : ℕ → List String → Option String
item i [] = none
item zero (x ∷ xs) = some x
item (suc i) (x ∷ xs) = item i xs

unfoldable pub put : ℕ → String → List String → List String
put i y [] = []
put zero y (x ∷ xs) = y ∷ xs
put (suc i) y (x ∷ xs) = x ∷ put i y xs

-- `swap`, at indices in range.
unfoldable pub swap : ℕ → ℕ → List String → List String
swap i j xs = elim (item i xs) [
  | none ↦ xs
  | some a ↦ elim (item j xs) [ none ↦ xs | some b ↦ put j a (put i b xs) ]
]

abbrev or_db : {A : Type 0} → Option A → Db A
or_db o c = elim o [ none ↦ (err db, c) | some a ↦ (ok a, c) ]

unfoldable pub resolve : List String → Db (List Community)
resolve [] = pure []
resolve (id ∷ ids) = do
  found ← get id
  rest ← resolve ids
  pure (elim found [ none ↦ rest | some community ↦ community ∷ rest ])

module _ (json : Json (List String)) where
  unfoldable pub read_ids : Db (List String)
  read_ids = do
    raw ← get_setting top8_setting_key
    on_option raw (λ text. or_db (json.from_str text)) (pure [])

  unfoldable pub write_ids : List String → Db (Unit {0})
  write_ids ids = do raw ← or_db (json.to_string ids); set_setting top8_setting_key raw

  unfoldable pub get_top8 : Db (List Community)
  get_top8 = do ids ← read_ids; resolve ids

  unfoldable pub set_top8 : List String → Db (List Community)
  set_top8 community_ids = branch (ltb max_top8 (length community_ids)) (raise db) (
      branch (has_duplicate [] community_ids) (raise db) (do
        resolved ← resolve community_ids
        branch (not (length resolved == length community_ids)) (raise db)
            (do write_ids community_ids; pure resolved)))

  unfoldable pub add_to_top8 : String → Db (List Community)
  add_to_top8 community_id = do
    known ← get community_id
    on_option known
        (λ _. do
          ids ← read_ids
          branch (contains community_id ids) (resolve ids) (
              branch (leb max_top8 (length ids)) (raise db)
                (do write_ids (ids ++ community_id ∷ []); resolve (ids ++ community_id ∷ []))))
        (raise db)

  unfoldable pub remove_from_top8 : String → Db (List Community)
  remove_from_top8 community_id = do
    ids ← read_ids
    let filtered = keep (λ id. not (is_id id community_id)) ids
    write_ids filtered
    resolve filtered

  unfoldable pub shift : String → ℤ → Db (List Community)
  shift community_id delta = do
    ids ← read_ids
    index ← or_db (position community_id ids)
    let new_index = pos index +ℤ delta
    branch (ltb_ℤ new_index (pos 0) || leb (length ids) (pos_part new_index)) (resolve ids) (do
      write_ids (swap index (pos_part new_index) ids)
      resolve (swap index (pos_part new_index) ids))

  unfoldable pub move_up : String → Db (List Community)
  move_up community_id = shift community_id (negsuc 0)

  unfoldable pub move_down : String → Db (List Community)
  move_down community_id = shift community_id (pos 1)

  unfoldable pub top8_ids : Db (List String)
  top8_ids = read_ids
