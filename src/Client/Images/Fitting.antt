-- ===== src/Client/Images/Fitting.antt =====
-- How the fields of client/src/images.rs's cache stand for a list of images, and that the steps of an
-- insertion keep it so.
use ankai.Prelude.{
  ℕ, suc, ◌+◌, ◌-◌, ◌^◌, ◌<◌, String, string_discrete, ◌||◌, leb, ltb, Bool-cases, length,
  length-append, none, some, List, [], ◌∷◌, ◌++◌, ◌≡◌, refl, ◌∙◌, inl, inr, arith,
}
use mathlib.Core.Path.{subst}
use ankai.Prelude.Dict.{
  lookup, insert as insert_entry, erase, Distinct, lookup-erase, erase-Distinct, lookup-insert,
  lookup-append_new, insert-Distinct, append_new-Distinct,
}
use ankai.Client.Images.{CachedImage, ImageLru, size_without, saturating_add, make_room}
use ankai.Client.Images.Recency.{total, keys, fit, total-append, total-erase, length-erase}

module _ {Image : Type 0} where
  -- The entries, their size and their number are those of the list.
  pub record Stores (entries : List (String × CachedImage Image)) (size : ℕ)
      (l : List (String × CachedImage Image)) : Type 0 where
    pub finds : (k : String) → lookup string_discrete k entries ≡ lookup string_discrete k l
    pub size_is : size ≡ total l
    pub count_is : length entries ≡ length l
    pub entries_distinct : Distinct string_discrete entries
    pub distinct : Distinct string_discrete l

  pub length-insert_new :
      (k : String) (e : CachedImage Image) (m : List (String × CachedImage Image))
      → lookup string_discrete k m ≡ none
      → length (insert_entry string_discrete k e m) ≡ suc (length m)
  unfolding lookup insert_entry
  length-insert_new k e [] h = refl
  length-insert_new k e ((j, f) ∷ m) h = ground (arith, length-insert_new k e m)

  -- The oldest entry taken out.
  pub Stores-tail :
      (k : String) (e : CachedImage Image) (l entries : List (String × CachedImage Image))
      (size : ℕ)
      → Stores entries size ((k, e) ∷ l)
      → Stores (erase string_discrete k entries) (size - e.decoded_bytes) l
  unfolding lookup
  Stores-tail k e l entries size s =
      let here : lookup string_discrete k entries ≡ some e = ground (arith, s.finds k) in
      record {
        finds =
            λ j. ground (arith, lookup-erase string_discrete j k entries, s.finds j, s.distinct);
        size_is = omega (arith, s.size_is);
        count_is = omega (arith, s.count_is, length-erase k e entries s.entries_distinct here);
        entries_distinct = erase-Distinct string_discrete k entries s.entries_distinct;
        distinct = s.distinct.1;
      }

  -- Any entry taken out.
  pub Stores-erase :
      (k : String) (e : CachedImage Image) (l entries : List (String × CachedImage Image))
      (size : ℕ)
      → Stores entries size l
      → lookup string_discrete k l ≡ some e
      → Stores
          (erase string_discrete k entries)
          (size - e.decoded_bytes)
          (erase string_discrete k l)
  Stores-erase k e l entries size s h =
      let here : lookup string_discrete k entries ≡ some e = s.finds k ∙ h in
      record {
        finds = λ j. ground (
          arith,
          lookup-erase string_discrete j k entries,
          lookup-erase string_discrete j k l,
          s.finds j,
        );
        size_is = omega (arith, s.size_is, total-erase k e l s.distinct h);
        count_is = omega (
          arith,
          s.count_is,
          length-erase k e entries s.entries_distinct here,
          length-erase k e l s.distinct h,
        );
        entries_distinct = erase-Distinct string_discrete k entries s.entries_distinct;
        distinct = erase-Distinct string_discrete k l s.distinct;
      }

  -- A new entry.
  pub Stores-push :
      (k : String) (e : CachedImage Image) (l entries : List (String × CachedImage Image))
      (size : ℕ)
      → Stores entries size l
      → lookup string_discrete k l ≡ none
      → Stores
          (insert_entry string_discrete k e entries)
          (size + e.decoded_bytes)
          (l ++ (k, e) ∷ [])
  Stores-push k e l entries size s h = record {
    finds = λ j. ground (
      arith,
      lookup-insert string_discrete j k e entries,
      lookup-append_new string_discrete j k e l h,
      s.finds j,
    );
    size_is = omega (arith, s.size_is, total-append k e l);
    count_is = omega (
      arith,
      s.count_is,
      length-insert_new k e entries (s.finds k ∙ h),
      length-append l ((k, e) ∷ []),
    );
    entries_distinct = insert-Distinct string_discrete k e entries s.entries_distinct;
    distinct = append_new-Distinct string_discrete k e l h s.distinct;
  }

  -- An entry that is used again.
  pub Stores-moved :
      (k : String) (e : CachedImage Image) (l entries : List (String × CachedImage Image))
      (size : ℕ)
      → Stores entries size l
      → lookup string_discrete k l ≡ some e
      → Stores entries size (erase string_discrete k l ++ (k, e) ∷ [])
  Stores-moved k e l entries size s h =
      let gone : lookup string_discrete k (erase string_discrete k l) ≡ none =
        ground (arith, lookup-erase string_discrete k k l) in
      record {
        finds = λ j. ground (
          arith,
          lookup-append_new string_discrete j k e (erase string_discrete k l) gone,
          lookup-erase string_discrete j k l,
          s.finds j,
          s.finds k,
        );
        size_is = omega (
          arith,
          s.size_is,
          total-erase k e l s.distinct h,
          total-append k e (erase string_discrete k l),
        );
        count_is = omega (
          arith,
          s.count_is,
          length-erase k e l s.distinct h,
          length-append (erase string_discrete k l) ((k, e) ∷ []),
        );
        entries_distinct = s.entries_distinct;
        distinct =
            append_new-Distinct string_discrete k e (erase string_discrete k l) gone
              (erase-Distinct string_discrete k l s.distinct);
      }

  -- A cache stands for a list: its queue is the list's keys, and its entries are the list's.
  pub record Holds (c : ImageLru Image) (l : List (String × CachedImage Image)) : Type 0 where
    pub order_is : c.order ≡ keys l
    pub stores : Stores c.entries c.decoded_bytes l

  -- The loop leaves what fits.
  pub make_room-Holds :
      (n : ℕ) (l : List (String × CachedImage Image)) (c : ImageLru Image)
      → c.max_bytes < 2 ^ 64 - 1
      → Stores c.entries c.decoded_bytes l
      → Holds (make_room n (keys l) c) (fit c.max_bytes c.max_items n l)
        × ((make_room n (keys l) c).max_bytes ≡ c.max_bytes)
        × ((make_room n (keys l) c).max_items ≡ c.max_items)
  unfolding make_room fit lookup
  make_room-Holds n [] c small s = (record { order_is = refl; stores = s }, refl, refl)
  make_room-Holds n ((k, e) ∷ l) c small s =
      let found : lookup string_discrete k c.entries ≡ some e = ground (arith, s.finds k) in
      let here : c.decoded_bytes - e.decoded_bytes ≡ size_without k c = ground (arith, found) in
      let tail = Stores-tail k e l c.entries c.decoded_bytes s in
      let rest =
        make_room-Holds n l
          (record c {
            entries = erase string_discrete k c.entries;
            decoded_bytes = size_without k c;
          })
          small (subst (λ m. Stores (erase string_discrete k c.entries) m l) here tail) in
      let same : (ltb c.max_bytes (saturating_add c.decoded_bytes n)
            || leb c.max_items (length c.entries))
          ≡ (ltb c.max_bytes (total ((k, e) ∷ l) + n) || leb c.max_items (length ((k, e) ∷ l))) =
        ground (arith, s.size_is, s.count_is) in
      elim (Bool-cases
        (ltb c.max_bytes (total ((k, e) ∷ l) + n) || leb c.max_items (length ((k, e) ∷ l)))) [
          | inl out ↦ rw (same, out) rest
          | inr stays ↦ rw (same, stays) (record { order_is = refl; stores = s }, refl, refl)
        ]
