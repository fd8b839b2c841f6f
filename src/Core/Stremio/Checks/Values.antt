-- ===== src/Core/Stremio/Checks/Values.antt =====
-- Which extra JSON data core/src/stremio.rs accepts.
use ankai.Prelude.{
  ℕ, suc, ◌+◌, String, Bool, true, not, ◌&&◌, leb, length, utf8, if◌then◌else◌, ◌≡◌, arith,
}
use ankai.Prelude.Results.{ok, err}
use ankai.Core.Store.{stremio}
use ankai.Core.Stremio.Checks.{
  Value, null, number, bool, string, array, object, Items, nil, item, Fields, end, field,
  count_items, count_fields, is_blank, validate_string, ensure_collection_limit,
  validate_extra_value, validate_items, validate_fields, validate_extra_map, max_long_string,
  max_collection_items, max_extra_fields, max_extra_depth, max_extra_nodes,
}

abbrev larger : ℕ → ℕ → ℕ
larger a b = if leb a b then b else a

-- A text that is not blank and not longer than this.
abbrev is_name : String → ℕ → Bool
is_name s max_bytes = not (is_blank s) && leb (length (utf8 s)) max_bytes

-- The number of the values in a value, how deep they stand, and whether each text, array and object in it is
-- within its own bound.
unfoldable mutual
  pub size : Value → ℕ
  size null = 1
  size number = 1
  size (bool b) = 1
  size (string s) = 1
  size (array vs) = suc (size_items vs)
  size (object fs) = suc (size_fields fs)

  pub size_items : Items → ℕ
  size_items nil = 0
  size_items (item v vs) = size v + size_items vs

  pub size_fields : Fields → ℕ
  size_fields end = 0
  size_fields (field k v fs) = size v + size_fields fs

unfoldable mutual
  pub depth : Value → ℕ
  depth null = 0
  depth number = 0
  depth (bool b) = 0
  depth (string s) = 0
  depth (array vs) = depth_items vs
  depth (object fs) = depth_fields fs

  pub depth_items : Items → ℕ
  depth_items nil = 0
  depth_items (item v vs) = larger (suc (depth v)) (depth_items vs)

  pub depth_fields : Fields → ℕ
  depth_fields end = 0
  depth_fields (field k v fs) = larger (suc (depth v)) (depth_fields fs)

unfoldable mutual
  pub is_small : Value → Bool
  is_small null = true
  is_small number = true
  is_small (bool b) = true
  is_small (string s) = leb (length (utf8 s)) max_long_string
  is_small (array vs) = leb (count_items vs) max_collection_items && are_small_items vs
  is_small (object fs) = leb (count_fields fs) max_extra_fields && are_small fs

  pub are_small_items : Items → Bool
  are_small_items nil = true
  are_small_items (item v vs) = is_small v && are_small_items vs

  pub are_small : Fields → Bool
  are_small end = true
  are_small (field k v fs) = is_name k 256 && (is_small v && are_small fs)

-- The reference: a value at a depth, after so many nodes.
abbrev pub accepts : Value → (at nodes : ℕ) → Bool
accepts v at nodes =
    leb (at + depth v) max_extra_depth && (leb (nodes + size v) max_extra_nodes && is_small v)

-- Items one level below.
abbrev accepts_items : Items → (at nodes : ℕ) → Bool
accepts_items nil at nodes = true
accepts_items (item v vs) at nodes =
    leb (at + depth_items (item v vs)) (suc max_extra_depth)
    && (leb (nodes + size_items (item v vs)) max_extra_nodes && are_small_items (item v vs))

abbrev accepts_fields : Fields → (at nodes : ℕ) → Bool
accepts_fields end at nodes = true
accepts_fields (field k v fs) at nodes =
    leb (at + depth_fields (field k v fs)) (suc max_extra_depth)
    && (leb (nodes + size_fields (field k v fs)) max_extra_nodes && are_small (field k v fs))

mutual
  unfolding size depth is_small validate_extra_value validate_string ensure_collection_limit

  value_lem :
      (v : Value) (at nodes : ℕ)
      → validate_extra_value v at nodes
        ≡ (if accepts v at nodes then ok (nodes + size v) else err stremio)
  value_lem null at nodes = ground arith
  value_lem number at nodes = ground arith
  value_lem (bool b) at nodes = ground arith
  value_lem (string s) at nodes = ground arith
  value_lem (array vs) at nodes = ground (arith, items_lem vs (at + 1) (nodes + 1))
  value_lem (object fs) at nodes = ground (arith, fields_lem fs (at + 1) (nodes + 1))

  items_lem :
      (vs : Items) (at nodes : ℕ)
      → validate_items vs at nodes
        ≡ (if accepts_items vs at nodes then ok (nodes + size_items vs) else err stremio)
  items_lem nil at nodes = ground arith
  items_lem (item v vs) at nodes =
      ground (arith, value_lem v at nodes, items_lem vs at (nodes + size v))

  fields_lem :
      (fs : Fields) (at nodes : ℕ)
      → validate_fields fs at nodes
        ≡ (if accepts_fields fs at nodes then ok (nodes + size_fields fs) else err stremio)
  fields_lem end at nodes = ground arith
  fields_lem (field k v fs) at nodes =
      ground (arith, value_lem v at nodes, fields_lem fs at (nodes + size v))

-- A map of extra data is accepted exactly where it has at most 64 fields and 2048 values, no value stands more
-- than eight levels deep, no name is blank or longer than 256 bytes, and each text, array and object in it is
-- within its own bound.
pub validate_extra_map_lem :
    (extras : Fields)
    → validate_extra_map extras ≡ (
        if leb (count_fields extras) max_extra_fields
          && (leb (depth_fields extras) (suc max_extra_depth)
              && (leb (size_fields extras) max_extra_nodes && are_small extras))
        then ok tt
        else err stremio)
unfolding validate_extra_map ensure_collection_limit depth size is_small
validate_extra_map_lem end = ground (arith, fields_lem end 0 0)
validate_extra_map_lem (field k v fs) = ground (arith, fields_lem (field k v fs) 0 0)
