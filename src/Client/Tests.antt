-- ===== src/Client/Tests.antt =====
-- Runs of the client's models, and the theorems at concrete inputs.
use ankai.Prelude.{ℕ, ◌≡◌, ◌≤◌, refl, List, [], ◌∷◌, some, none, length, arith}
use ankai.Prelude.{string_discrete}
use ankai.Prelude.Dict.{lookup, erase, insert as insert_entry}
use ankai.Client.Images.{new, get, insert, make_room, remove_previous, touch}
use ankai.Client.Images.Uses.{
  Use, get_image, insert_image, run, run_recent, run-run_recent, run_bounds,
}

-- Two images fill the cache; the first is used, so the third takes the place of the second.
abbrev uses : List (Use ℕ)
uses =
    insert_image "a" 1 40
    ∷ insert_image "b" 2 50
    ∷ get_image "a"
    ∷ insert_image "c" 3 60
    ∷ get_image "b"
    ∷ get_image "a"
    ∷ get_image "c"
    ∷ []

answers : (run uses (new 100 8)).0 ≡ some 1 ∷ none ∷ some 1 ∷ some 3 ∷ []
unfolding run new get lookup insert make_room remove_previous insert_entry string_discrete touch
    erase
answers = refl

run-run_recent_example : (run uses (new 100 8)).0 ≡ (run_recent 100 8 uses []).0
run-run_recent_example = run-run_recent 100 8 uses (omega arith)

run_bounds_example :
    let c = (run uses (new 100 8)).1 in
    (c.decoded_bytes ≤ 100) × (length c.entries ≤ 8) × (length c.order ≡ length c.entries)
run_bounds_example = run_bounds 100 8 uses (omega arith)
