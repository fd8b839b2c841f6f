-- ===== src/Core/Stremio/Checks.antt =====
-- The checks of texts, collections and extra JSON data in core/src/stremio.rs. Messages of errors, and with
-- them the labels, are left out. An object is the list of its fields, in the order in which the map gives them.
pub mod Values
use ankai.Prelude.{
  ℕ, suc, ◌+◌, ◌-◌, ◌*◌, ◌^◌, String, codes, utf8, Bool, true, false, not, ◌&&◌, ◌||◌, ◌==◌, leb,
  ltb, length, all, Option, none, some, List, [], ◌∷◌, if◌then◌else◌,
}
use ankai.Prelude.Results.{Result, ok, err, ◌>>=◌, ◌>>◌, guard}
use ankai.Core.Store.{Error, stremio}

abbrev pub max_collection_items : ℕ
max_collection_items = 256

abbrev pub max_extra_fields : ℕ
max_extra_fields = 64

abbrev pub max_extra_depth : ℕ
max_extra_depth = 8

abbrev pub max_extra_nodes : ℕ
max_extra_nodes = 2048

abbrev pub max_short_string : ℕ
max_short_string = 1024

abbrev pub max_long_string : ℕ
max_long_string = 64 * 1024

abbrev pub Check : Type 0
Check = Result Error (Unit {0})

-- Unicode's white space.
unfoldable pub is_whitespace : ℕ → Bool
is_whitespace c =
    leb 9 c && leb c 13
    || (c == 32
        || (c == 133
            || (c == 160
                || (c == 5760
                    || (leb 8192 c && leb c 8202
                        || (c == 8232
                            || (c == 8233 || (c == 8239 || (c == 8287 || c == 12288)))))))))

-- `value.trim().is_empty()`.
unfoldable pub is_blank : String → Bool
is_blank value = all is_whitespace (codes value)

unfoldable pub validate_string : String → (max_bytes : ℕ) → (required : Bool) → Check
validate_string value max_bytes required =
    if required && is_blank value
    then err stremio
    else if ltb max_bytes (length (utf8 value))
    then err stremio
    else ok tt

unfoldable pub validate_optional_string : Option String → (max_bytes : ℕ) → Check
validate_optional_string none max_bytes = ok tt
validate_optional_string (some value) max_bytes = validate_string value max_bytes false

unfoldable pub validate_optional_required_string : Option String → (max_bytes : ℕ) → Check
validate_optional_required_string none max_bytes = ok tt
validate_optional_required_string (some value) max_bytes = validate_string value max_bytes true

unfoldable pub ensure_collection_limit : (count max : ℕ) → Check
ensure_collection_limit count max = if ltb max count then err stremio else ok tt

-- The loop over a collection, up to the first item that fails.
abbrev pub each {ℓ} : {A : Type ℓ} → (A → Check) → List A → Check
each check [] = ok tt
each check (x ∷ xs) = check x >> each check xs

unfoldable pub validate_string_collection : List String → (max_string_bytes : ℕ) → Check
validate_string_collection values max_string_bytes =
    each (λ value. validate_string value max_string_bytes false) values

-- serde_json's values; of numbers the code reads nothing.
mutual
  pub data Value : Type 0 where
    null number : Value
    bool : Bool → Value
    string : String → Value
    array : Items → Value
    object : Fields → Value

  pub data Items : Type 0 where
    nil : Items
    item : Value → Items → Items

  pub data Fields : Type 0 where
    end : Fields
    field : String → Value → Fields → Fields

abbrev pub count_items : Items → ℕ
count_items nil = 0
count_items (item v vs) = suc (count_items vs)

abbrev pub count_fields : Fields → ℕ
count_fields end = 0
count_fields (field key v fs) = suc (count_fields fs)

-- `usize::saturating_add(1)`.
abbrev count_one : ℕ → ℕ
count_one nodes = if ltb (nodes + 1) (2 ^ 64) then nodes + 1 else 2 ^ 64 - 1

-- The checks of any value, and the new number of nodes.
abbrev enter : (depth nodes : ℕ) → Result Error ℕ
enter depth nodes = do
  guard (leb depth max_extra_depth) stremio
  guard (leb (count_one nodes) max_extra_nodes) stremio
  ok (count_one nodes)

-- Each step takes the number of nodes so far and gives the new one.
unfoldable mutual
  pub validate_extra_value : Value → (depth nodes : ℕ) → Result Error ℕ
  validate_extra_value null depth nodes = enter depth nodes
  validate_extra_value number depth nodes = enter depth nodes
  validate_extra_value (bool b) depth nodes = enter depth nodes
  validate_extra_value (string value) depth nodes = do
    nodes ← enter depth nodes
    validate_string value max_long_string false
    ok nodes
  validate_extra_value (array values) depth nodes = do
    nodes ← enter depth nodes
    ensure_collection_limit (count_items values) max_collection_items
    validate_items values (depth + 1) nodes
  validate_extra_value (object values) depth nodes = do
    nodes ← enter depth nodes
    ensure_collection_limit (count_fields values) max_extra_fields
    validate_fields values (depth + 1) nodes

  pub validate_items : Items → (depth nodes : ℕ) → Result Error ℕ
  validate_items nil depth nodes = ok nodes
  validate_items (item value values) depth nodes = do
    nodes ← validate_extra_value value depth nodes
    validate_items values depth nodes

  pub validate_fields : Fields → (depth nodes : ℕ) → Result Error ℕ
  validate_fields end depth nodes = ok nodes
  validate_fields (field key value values) depth nodes = do
    validate_string key 256 true
    nodes ← validate_extra_value value depth nodes
    validate_fields values depth nodes

-- The fields of a map are checked as those of an object, at depth 0.
unfoldable pub validate_extra_map : Fields → Check
validate_extra_map extras = do
  ensure_collection_limit (count_fields extras) max_extra_fields
  nodes ← validate_fields extras 0 0
  ok tt
