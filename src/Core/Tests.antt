-- ===== src/Core/Tests.antt =====
-- The client's core on concrete inputs.
use Prim.Native.Char.{code}
use Prim.Native.String.{◌∷◌ as cons, [] as nil}
use ankai.Prelude.{
  String, string_discrete, Bool, false, ◌==◌, map, if◌then◌else◌, Option, none, some, List, [], ◌∷◌,
  ◌≡◌, refl, arith,
}
use ankai.Prelude.Dict.{lookup, insert, insert_new}
use ankai.Sql.{Conn}
use ankai.Core.Store.{
  Tables, Json, Community, get, get_setting, set_setting, create, find_community,
}
use ankai.Core.Top8.{
  contains, has_duplicate, position, item, put, swap, read_ids, write_ids, resolve, set_top8,
}
use ankai.Core.Top8.Kept.{IsTop8, ReadsBack, Sound, featured}
use ankai.Core.Top8.Runs.{Edit, edits, edits-Sound}
use ankai.Core.Top8.Stores.{set_top8_stores}

-- A codec for lists of at most two ids, the first of which is one character where there are two.
abbrev write_few : List String → Option String
write_few [] = some "0"
write_few (x ∷ []) = some (cons "1" x)
write_few (nil ∷ y ∷ []) = none
write_few (cons c nil ∷ y ∷ []) = some (cons "2" (cons c y))
write_few (cons c (cons d x) ∷ y ∷ []) = none
write_few (x ∷ y ∷ z ∷ ids) = none

abbrev pair : String → Option (List String)
pair nil = none
pair (cons c y) = some (cons c nil ∷ y ∷ [])

abbrev read_few : String → Option (List String)
read_few nil = none
read_few (cons c s) =
    if code c == b'0' then some [] else if code c == b'1' then some (s ∷ []) else pair s

abbrev few : Json (List String)
few = record { to_string = write_few; from_str = read_few }

few-ReadsBack : ReadsBack few
few-ReadsBack [] text h = let e : "0" ≡ text = cc in rw (← e) refl
few-ReadsBack (x ∷ []) text h = let e : cons "1" x ≡ text = cc in rw (← e) refl
few-ReadsBack (nil ∷ y ∷ []) text h = absurd (cc)
few-ReadsBack (cons c nil ∷ y ∷ []) text h =
    let e : cons "2" (cons c y) ≡ text = cc in rw (← e) refl
few-ReadsBack (cons c (cons d x) ∷ y ∷ []) text h = absurd (cc)
few-ReadsBack (x ∷ y ∷ z ∷ ids) text h = absurd (cc)

abbrev device : List Bool → Conn Tables
device faults = record {
  tables = record {
    settings = ("theme", "dark") ∷ [];
    communities = ("a", "Anime") ∷ ("b", "Books") ∷ [];
  };
  faults = faults;
  poisoned = false;
}

stored : Unit {0}
unfolding edits lookup insert insert_new contains has_duplicate position item put swap read_ids
    write_ids resolve set_top8 get get_setting set_setting create find_community string_discrete
stored = tt

device-Sound : Sound few (device []).tables
unfolding stored
device-Sound =
    ([], refl, record { bound = omega arith; distinct = tt; known = λ id m. absurd (cc) })

abbrev some_edits : List Edit
some_edits = Edit.set ("a" ∷ "b" ∷ []) ∷ Edit.join "c" "Cars" ∷ Edit.down "a" ∷ Edit.remove "b" ∷ []

edits-Sound_example : Sound few (edits few some_edits (device [])).tables
edits-Sound_example = edits-Sound few few-ReadsBack some_edits (device []) device-Sound

set_top8_stores_example :
    IsTop8 (device []).tables ("b" ∷ "a" ∷ [])
    × (featured few (set_top8 few ("b" ∷ "a" ∷ []) (device [])).1.tables ≡ some ("b" ∷ "a" ∷ []))
    × (map
          (λ (m : Community). m.id)
          (record { id = "b"; name = "Books" } ∷ record { id = "a"; name = "Anime" } ∷ [])
        ≡ "b" ∷ "a" ∷ [])
unfolding stored
set_top8_stores_example = set_top8_stores few few-ReadsBack ("b" ∷ "a" ∷ []) (device []) refl

abbrev two : Conn Tables
two = record {
  tables = record {
    settings = ("top8_community_ids", "2ab") ∷ [];
    communities = ("a", "Anime") ∷ ("b", "Books") ∷ [];
  };
  faults = [];
  poisoned = false;
}
