-- ===== src/Client/Images/Refines.antt =====
-- The cache of client/src/images.rs is the abstract one of Images/Recency, through any uses.
use ankai.Prelude.{
  ℕ, ◌+◌, ◌-◌, ◌^◌, ◌≤◌, ◌<◌, String, string_discrete, ◌||◌, ◌==◌, ltb, Bool-cases, Option-cases,
  length, length-append, none, some, List, [], ◌∷◌, ◌++◌, ◌≡◌, refl, sym, ap, ◌∙◌, inl, inr, arith,
}
use mathlib.Core.Option
use mathlib.Core.Path.{subst}
use ankai.Prelude.Dict.{lookup, insert as insert_entry, erase, lookup-erase}
use ankai.Client.Images.{
  CachedImage, ImageLru, saturating_add, make_room, without, new, touch, get, remove_previous, push,
  insert,
}
use ankai.Client.Images.Recency.{
  total, total-erase, length-erase, keys, fit, use_image, store_image, keys-erase, keys-append,
  total-append, fit_room, fit_absent, erase_absent,
}
use ankai.Client.Images.Fitting.{
  Stores, Holds, Stores-erase, Stores-push, Stores-moved, make_room-Holds,
}

module _ {Image : Type 0} where
  -- The cache stands for the list, within its bounds, which are these.
  pub record Refines (mb mi : ℕ) (c : ImageLru Image) (l : List (String × CachedImage Image))
      : Type 0 where
    pub holds : Holds c l
    pub bytes_are : c.max_bytes ≡ mb
    pub items_are : c.max_items ≡ mi
    pub bytes : total l ≤ mb
    pub items : length l ≤ mi

  pub new-Refines : (mb mi : ℕ) → Refines mb mi (new mb mi) []
  unfolding new
  new-Refines mb mi = record {
    holds = record {
      order_is = refl;
      stores = record {
        finds = λ k. refl;
        size_is = refl;
        count_is = refl;
        entries_distinct = tt;
        distinct = tt;
      };
    };
    bytes_are = refl;
    items_are = refl;
    bytes = omega arith;
    items = omega arith;
  }

  pub get-Refines :
      (mb mi : ℕ) (c : ImageLru Image) (l : List (String × CachedImage Image)) (url : String)
      → Refines mb mi c l
      → ((get url c).0 ≡ Option.map (λ e. e.image) (lookup string_discrete url l))
        × Refines mb mi (get url c).1 (use_image url l)
  unfolding get use_image touch
  get-Refines mb mi c l url r = elim (Option-cases (lookup string_discrete url l)) [
    | inl h ↦
        let here : lookup string_discrete url c.entries ≡ none = r.holds.stores.finds url ∙ h in
        let got : get url c ≡ (none, c) = ground (arith, here) in
        let used : use_image url l ≡ l = ground (arith, h) in rw (got, used, h) (refl, r)
    | inr (e, h) ↦
        let here : lookup string_discrete url c.entries ≡ some e = r.holds.stores.finds url ∙ h in
        let got : get url c ≡ (some e.image, touch url c) = ground (arith, here) in
        let used : use_image url l ≡ erase string_discrete url l ++ (url, e) ∷ [] =
          ground (arith, h) in
        rw (got, used, h)
          (
            refl,
            record {
              holds = record {
                order_is =
                    ap (λ order. without url order ++ url ∷ []) r.holds.order_is
                    ∙ (ap (λ order. order ++ url ∷ []) (sym (keys-erase url l))
                        ∙ sym (keys-append url e (erase string_discrete url l)));
                stores = Stores-moved url e l c.entries c.decoded_bytes r.holds.stores h;
              };
              bytes_are = r.bytes_are;
              items_are = r.items_are;
              bytes = omega (
                arith,
                total-erase url e l r.holds.stores.distinct h,
                total-append url e (erase string_discrete url l),
                r.bytes,
              );
              items = omega (
                arith,
                length-erase url e l r.holds.stores.distinct h,
                length-append (erase string_discrete url l) ((url, e) ∷ []),
                r.items,
              );
            },
          )
  ]

  pub remove_previous-Holds :
      (c : ImageLru Image) (l : List (String × CachedImage Image)) (url : String)
      → Holds c l
      → Holds (remove_previous url c) (erase string_discrete url l)
        × ((remove_previous url c).max_bytes ≡ c.max_bytes)
        × ((remove_previous url c).max_items ≡ c.max_items)
  unfolding remove_previous
  remove_previous-Holds c l url r = elim (Option-cases (lookup string_discrete url l)) [
    | inl h ↦
        let here : lookup string_discrete url c.entries ≡ none = r.stores.finds url ∙ h in
        let same : remove_previous url c ≡ c = ground (arith, here) in
        rw (same, erase_absent url l h) (r, refl, refl)
    | inr (e, h) ↦
        let here : lookup string_discrete url c.entries ≡ some e = r.stores.finds url ∙ h in
        let same : remove_previous url c ≡ record c {
          entries = erase string_discrete url c.entries;
          decoded_bytes = c.decoded_bytes - e.decoded_bytes;
          order = without url c.order;
        } =
          ground (arith, here) in
        rw same (
          record {
            order_is = ap (without url) r.order_is ∙ sym (keys-erase url l);
            stores = Stores-erase url e l c.entries c.decoded_bytes r.stores h;
          },
          refl,
          refl,
        )
  ]

  pub push-Refines :
      (mb mi : ℕ) (c : ImageLru Image) (l : List (String × CachedImage Image)) (url : String)
      (image : Image) (n : ℕ)
      → mb < 2 ^ 64 - 1
      → Holds c l
      → c.max_bytes ≡ mb
      → c.max_items ≡ mi
      → total l + n ≤ mb
      → length l + 1 ≤ mi
      → lookup string_discrete url l ≡ none
      → Refines mb mi
          (push url image n c)
          (l ++ (url, record { image = image; decoded_bytes = n }) ∷ [])
  push-Refines mb mi c l url image n small r b i bytes items h =
      let e : CachedImage Image = record { image = image; decoded_bytes = n } in
      let size : c.decoded_bytes + n ≡ saturating_add c.decoded_bytes n =
        ground (arith, r.stores.size_is) in
      record {
        holds = record {
          order_is = ap (λ order. order ++ url ∷ []) r.order_is ∙ sym (keys-append url e l);
          stores =
              subst
                (λ m. Stores (insert_entry string_discrete url e c.entries) m (l ++ (url, e) ∷ []))
                size (Stores-push url e l c.entries c.decoded_bytes r.stores h);
        };
        bytes_are = b;
        items_are = i;
        bytes = omega (arith, total-append url e l, bytes);
        items = omega (arith, length-append l ((url, e) ∷ []), items);
      }

  -- Room made, then the image stored.
  pub push-make_room-Refines :
      (c : ImageLru Image) (l : List (String × CachedImage Image)) (url : String) (image : Image)
      (n : ℕ)
      → c.max_bytes < 2 ^ 64 - 1
      → Holds c l
      → n ≤ c.max_bytes
      → 1 ≤ c.max_items
      → lookup string_discrete url l ≡ none
      → Refines c.max_bytes c.max_items (push url image n (make_room n c.order c)) (
          fit c.max_bytes c.max_items n l
          ++ (url, record { image = image; decoded_bytes = n }) ∷ [])
  push-make_room-Refines c l url image n small r bytes items h =
      let made = make_room-Holds n l c small r.stores in
      let room = fit_room c.max_bytes c.max_items n l bytes items in
      subst
        (λ order. Refines c.max_bytes c.max_items (push url image n (make_room n order c)) (
          fit c.max_bytes c.max_items n l
          ++ (url, record { image = image; decoded_bytes = n }) ∷ []))
        (sym r.order_is)
        (push-Refines c.max_bytes c.max_items (make_room n (keys l) c)
          (fit c.max_bytes c.max_items n l) url image n small made.0 made.1 made.2 room.0 room.1
          (fit_absent c.max_bytes c.max_items n l url h))

  pub insert-Refines :
      (mb mi : ℕ) (c : ImageLru Image) (l : List (String × CachedImage Image)) (url : String)
      (image : Image) (n : ℕ)
      → mb < 2 ^ 64 - 1
      → Refines mb mi c l
      → Refines mb mi
          (insert url image n c)
          (store_image mb mi url (record { image = image; decoded_bytes = n }) l)
  unfolding insert store_image
  insert-Refines mb mi c l url image n small r =
      let cleared = remove_previous-Holds c l url r.holds in
      let b : (remove_previous url c).max_bytes ≡ mb = cleared.1 ∙ r.bytes_are in
      let i : (remove_previous url c).max_items ≡ mi = cleared.2 ∙ r.items_are in
      let same : (n == 0 || (ltb c.max_bytes n || c.max_items == 0))
          ≡ (n == 0 || (ltb mb n || mi == 0)) =
        ground (arith, r.bytes_are, r.items_are) in
      elim (Bool-cases (n == 0 || (ltb mb n || mi == 0))) [
        | inl out ↦ rw (same, out) r
        | inr kept ↦
            rw (same, kept)
              (subst
                (λ m.
                  Refines m mi
                    (push url image n
                      (make_room n (remove_previous url c).order (remove_previous url c)))
                    (fit m mi n (erase string_discrete url l)
                      ++ (url, record { image = image; decoded_bytes = n }) ∷ []))
                b
                (subst
                  (λ m.
                    Refines (remove_previous url c).max_bytes m
                      (push url image n
                        (make_room n (remove_previous url c).order (remove_previous url c)))
                      (fit (remove_previous url c).max_bytes m n (erase string_discrete url l)
                        ++ (url, record { image = image; decoded_bytes = n }) ∷ []))
                  i
                  (push-make_room-Refines (remove_previous url c) (erase string_discrete url l) url
                    image n (ground arith) cleared.0 (ground arith) (ground arith)
                    (ground (arith, lookup-erase string_discrete url url l)))))
      ]
