-- ===== src/Core/Catalog/Page/Merging.antt =====
-- What the paging and the merging of core/src/board.rs show: no item twice, and every item once.
use ankai.Prelude.{
  ◌+◌, Bool-cases, true, false, ◌||◌, length, Option, List, [], ◌∷◌, ◌++◌, map, ◌≡◌, refl, ap, ◌↔◌,
  inl, inr, arith,
}
use ankai.Core.Catalog.Page.{
  Key, seen, CacheNotice, CatalogPageState, unseen, apply_page, dedupe_attributed,
}

seen-append : (z : Key) (ks js : List Key) → seen z (ks ++ js) ≡ (seen z ks || seen z js)
unfolding seen
seen-append z [] js = refl
seen-append z (k ∷ ks) js = ground (arith, seen-append z ks js)

seen_swap : (z k : Key) (ks js : List Key) → seen z ((k ∷ ks) ++ js) ≡ seen z (ks ++ k ∷ js)
unfolding seen
seen_swap z k ks js = ground (arith, seen-append z ks js, seen-append z ks (k ∷ js))

-- A key that is there under its two parts is there.
seen_key : (k z : Key) (ks : List Key) → seen k ks ≡ true → k.0 ≡ z.0 → k.1 ≡ z.1 → seen z ks ≡ true
unfolding seen
seen_key k z [] h p q = h
seen_key k z (j ∷ ks) h p q = ground (arith, seen_key k z ks)

module _ {Item : Type 0} (key : Item → Key) where
  -- No key twice, and none of `ks`.
  abbrev pub Fresh : List Key → List Item → Type 0
  Fresh ks [] = Unit
  Fresh ks (x ∷ xs) = (seen (key x) ks ≡ false) × Fresh (key x ∷ ks) xs

  unseen-Fresh : (ks : List Key) (xs : List Item) → Fresh ks (unseen key ks xs)
  unfolding unseen
  unseen-Fresh ks [] = tt
  unseen-Fresh ks (x ∷ xs) = ground (arith, unseen-Fresh ks xs, unseen-Fresh (key x ∷ ks) xs)

  Fresh-same :
      (ks js : List Key) (xs : List Item)
      → ((z : Key) → seen z ks ≡ seen z js)
      → Fresh ks xs
      → Fresh js xs
  Fresh-same ks js [] same h = tt
  Fresh-same ks js (x ∷ xs) same h =
      (ground (arith, same (key x)), Fresh-same (key x ∷ ks) (key x ∷ js) xs (cons_same x) h.1)
    where
      cons_same : (x : Item) (z : Key) → seen z (key x ∷ ks) ≡ seen z (key x ∷ js)
      cons_same x z =
          ground (arith, same z, seen-append z (key x ∷ []) ks, seen-append z (key x ∷ []) js)

  append-Fresh :
      (ks : List Key) (xs ys : List Item)
      → Fresh ks xs
      → Fresh (ks ++ map key xs) ys
      → Fresh ks (xs ++ ys)
  unfolding seen
  append-Fresh ks [] ys h k =
      Fresh-same (ks ++ []) ks ys (λ z. ground (arith, seen-append z ks [])) k
  append-Fresh ks (x ∷ xs) ys h k = (
    h.0,
    append-Fresh (key x ∷ ks) xs ys h.1 (
        Fresh-same (ks ++ key x ∷ map key xs) ((key x ∷ ks) ++ map key xs) ys
          (λ z. ground (arith, seen_swap z (key x) ks (map key xs))) k),
  )

  unseen_fixed : (ks : List Key) (xs : List Item) → Fresh ks xs → unseen key ks xs ≡ xs
  unfolding unseen
  unseen_fixed ks [] h = refl
  unseen_fixed ks (x ∷ xs) h = ground (arith, unseen_fixed (key x ∷ ks) xs)

  map-append : (xs ys : List Item) → map key (xs ++ ys) ≡ map key xs ++ map key ys
  map-append [] ys = refl
  map-append (x ∷ xs) ys = ap (◌∷◌ (key x)) (map-append xs ys)

  -- Every key of the list is among the keys given or the keys that stay.
  seen-unseen :
      (z : Key) (ks : List Key) (xs : List Item)
      → (seen z ks || seen z (map key (unseen key ks xs))) ≡ (seen z ks || seen z (map key xs))
  unfolding unseen seen
  seen-unseen z ks [] = refl
  seen-unseen z ks (x ∷ xs) = elim (Bool-cases (seen (key x) ks)) [
    | inl e ↦ ground (arith, seen-unseen z ks xs, seen_key (key x) z ks)
    | inr e ↦ ground (arith, seen-unseen z (key x ∷ ks) xs)
  ]

  -- Merging leaves no two items with one key, keeps every key, and leaves a merged list as it is.
  pub dedupe_attributed-Fresh :
      (xs : List Item)
      → Fresh [] (dedupe_attributed key xs)
        × ((z : Key) → seen z (map key (dedupe_attributed key xs)) ≡ seen z (map key xs))
        × (dedupe_attributed key (dedupe_attributed key xs) ≡ dedupe_attributed key xs)
  unfolding dedupe_attributed seen
  dedupe_attributed-Fresh xs = (
    unseen-Fresh [] xs,
    λ z. seen-unseen z [] xs,
    unseen_fixed [] (unseen key [] xs) (unseen-Fresh [] xs),
  )

  -- A page adds no item twice to a row without doubles: the row has none then either, holds what it
  -- held, at its front, and has exactly the keys that it had and those of the page. The next
  -- request skips all the items of the page, and there is one unless the page was empty.
  pub apply_page-Fresh :
      (page : List Item) (notice : Option CacheNotice) (s : CatalogPageState Item)
      → Fresh [] s.items
      → Fresh [] (apply_page key page notice s).items
        × ((new_items : List Item) × ((apply_page key page notice s).items ≡ s.items ++ new_items))
        × ((z : Key)
            → seen z (map key (apply_page key page notice s).items)
              ≡ (seen z (map key s.items) || seen z (map key page)))
        × ((apply_page key page notice s).next_skip ≡ s.next_skip + length page)
        × (((apply_page key page notice s).has_more ≡ false) ↔ (page ≡ []))
  unfolding apply_page
  apply_page-Fresh page notice s h = (
    append-Fresh [] s.items (unseen key (map key s.items) page) h
        (unseen-Fresh (map key s.items) page),
    (unseen key (map key s.items) page, refl),
    λ z. ground (
      arith,
      seen-unseen z (map key s.items) page,
      map-append s.items (unseen key (map key s.items) page),
      seen-append z (map key s.items) (map key (unseen key (map key s.items) page)),
    ),
    refl,
    more page,
  )
    where
      more : (page : List Item) → ((apply_page key page notice s).has_more ≡ false) ↔ (page ≡ [])
      more [] = (λ e. refl, λ e. refl)
      more (x ∷ xs) = (λ e. absurd (cc), λ e. absurd (cc))
