-- ===== src/Core/Catalog/Page.antt =====
-- The paging state of one catalog row and the merging of rows in core/src/board.rs. An item is of any
-- type with a key, which is its media type and its id.
pub mod Merging
use ankai.Prelude.{
  ℕ, ◌+◌, String, string_discrete, Bool, true, false, not, length, Option, none, some, List, [],
  ◌∷◌, ◌++◌, map,
}

-- A media type and an id.
abbrev pub Key : Type 0
Key = String × String

unfoldable pub seen : Key → List Key → Bool
seen k [] = false
seen k (j ∷ ks) = elim (string_discrete j.0 k.0) [
  | no _ ↦ seen k ks
  | yes _ ↦ elim (string_discrete j.1 k.1) [ no _ ↦ seen k ks | yes _ ↦ true ]
]

pub record CacheNotice : Type 0 where
  pub fetched_at_unix : ℕ
  pub live_error : String

pub record CatalogPageState (Item : Type 0) : Type 0 where
  pub items : List Item
  pub next_skip : ℕ
  pub loading : Bool
  pub error : Option String
  pub has_more : Bool
  pub initialized : Bool
  pub cache_notice : Option CacheNotice

abbrev is_empty : {A : Type 0} → List A → Bool
is_empty [] = true
is_empty (_ ∷ _) = false

module _ {Item : Type 0} (key : Item → Key) where
  unfoldable pub new : CatalogPageState Item
  new = record {
    items = [];
    next_skip = 0;
    loading = false;
    error = none;
    has_more = true;
    initialized = false;
    cache_notice = none;
  }

  -- The items of a list whose keys are new, with the set of the keys seen so far as a list.
  unfoldable pub unseen : List Key → List Item → List Item
  unseen ks [] = []
  unseen ks (x ∷ xs) = elim (seen (key x) ks) [
    | true ↦ unseen ks xs
    | false ↦ x ∷ unseen (key x ∷ ks) xs
  ]

  unfoldable pub apply_page :
      List Item → Option CacheNotice → CatalogPageState Item → CatalogPageState Item
  apply_page page cache_notice s = record s {
    loading = false;
    error = none;
    has_more = not (is_empty page);
    next_skip = s.next_skip + length page;
    initialized = true;
    cache_notice = cache_notice;
    items = s.items ++ unseen (map key s.items) page;
  }

  unfoldable pub apply_error : String → CatalogPageState Item → CatalogPageState Item
  apply_error message s = record s { loading = false; error = some message }

  unfoldable pub dedupe_attributed : List Item → List Item
  dedupe_attributed items = unseen [] items
