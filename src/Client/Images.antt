-- ===== src/Client/Images.antt =====
-- The cache of decoded images in client/src/images.rs. Images are of any type; the hash map is a list of
-- entries with distinct keys. Sizes are numbers of 64 bits.
pub mod Recency
pub mod Fitting
pub mod Refines
pub mod Uses
use ankai.Prelude.{
  ℕ, ◌+◌, ◌-◌, ◌*◌, ◌^◌, String, string_discrete, Bool, true, false, not, ◌||◌, ◌==◌, ltb, leb,
  if◌then◌else◌, length, keep, Option, none, some, List, [], ◌∷◌, ◌++◌,
}
use ankai.Prelude.Dict.{lookup, insert as insert_entry, erase}

abbrev pub max_cache_bytes : ℕ
max_cache_bytes = 64 * 1024 * 1024

abbrev pub max_cache_items : ℕ
max_cache_items = 128

pub record CachedImage (Image : Type 0) : Type 0 where
  pub image : Image
  pub decoded_bytes : ℕ

pub record ImageLru (Image : Type 0) : Type 0 where
  pub entries : List (String × CachedImage Image)
  pub order : List String
  pub decoded_bytes : ℕ
  pub max_bytes : ℕ
  pub max_items : ℕ

abbrev pub is_text : String → String → Bool
is_text s t = elim (string_discrete s t) [ yes _ ↦ true | no _ ↦ false ]

-- `usize::saturating_add`; `saturating_sub` is the subtraction of numbers.
abbrev pub saturating_add : ℕ → ℕ → ℕ
saturating_add a b = if ltb (a + b) (2 ^ 64) then a + b else 2 ^ 64 - 1

-- `order.retain(|key| key != url)`.
abbrev pub without : String → List String → List String
without url order = keep (λ key. not (is_text key url)) order

module _ {Image : Type 0} where
  unfoldable pub new : (max_bytes max_items : ℕ) → ImageLru Image
  new max_bytes max_items = record {
    entries = [];
    order = [];
    decoded_bytes = 0;
    max_bytes = max_bytes;
    max_items = max_items;
  }

  unfoldable pub touch : String → ImageLru Image → ImageLru Image
  touch url c = record c { order = without url c.order ++ url ∷ [] }

  unfoldable pub get : String → ImageLru Image → Option Image × ImageLru Image
  get url c = elim (lookup string_discrete url c.entries) [
    | none ↦ (none, c)
    | some e ↦ (some e.image, touch url c)
  ]

  -- The entry of the URL taken out, if there is one.
  unfoldable pub remove_previous : String → ImageLru Image → ImageLru Image
  remove_previous url c = elim (lookup string_discrete url c.entries) [
    | none ↦ c
    | some previous ↦ record c {
      entries = erase string_discrete url c.entries;
      decoded_bytes = c.decoded_bytes - previous.decoded_bytes;
      order = without url c.order;
    }
  ]

  -- The size after the entry of the key that leaves the queue is taken out.
  abbrev pub size_without : String → ImageLru Image → ℕ
  size_without oldest c = elim (lookup string_discrete oldest c.entries) [
    | none ↦ c.decoded_bytes
    | some removed ↦ c.decoded_bytes - removed.decoded_bytes
  ]

  -- The loop that makes room, over the queue.
  unfoldable pub make_room : (decoded_bytes : ℕ) → List String → ImageLru Image → ImageLru Image
  make_room decoded_bytes [] c = record c { order = [] }
  make_room decoded_bytes (oldest ∷ order) c =
      let rest = make_room decoded_bytes order (record c {
        entries = erase string_discrete oldest c.entries;
        decoded_bytes = size_without oldest c;
      }) in
      if ltb c.max_bytes (saturating_add c.decoded_bytes decoded_bytes)
        || leb c.max_items (length c.entries)
      then rest
      else record c { order = oldest ∷ order }

  abbrev push : String → Image → ℕ → ImageLru Image → ImageLru Image
  push url image decoded_bytes c = record c {
    decoded_bytes = saturating_add c.decoded_bytes decoded_bytes;
    order = c.order ++ url ∷ [];
    entries =
        insert_entry string_discrete url (record { image = image; decoded_bytes = decoded_bytes })
          c.entries;
  }

  unfoldable pub insert : String → Image → ℕ → ImageLru Image → ImageLru Image
  insert url image decoded_bytes c =
      let cleared = remove_previous url c in
      if decoded_bytes == 0 || (ltb c.max_bytes decoded_bytes || c.max_items == 0)
      then c
      else push url image decoded_bytes (make_room decoded_bytes cleared.order cleared)
