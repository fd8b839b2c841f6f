-- ===== src/Core/Catalog/Memory/Bounds.antt =====
-- The memory cache of core/src/catalog_cache.rs holds at most its capacity, and drops its oldest entry.
use ankai.Prelude.{
  if◌then◌else◌, ℕ, suc, ◌≤◌, String, string_discrete, Bool, Option-cases, not, leb, length,
  length-append, length-keep-le, keep, none, some, List, [], ◌∷◌, ◌++◌, ◌≡◌, refl, ap, inl, inr,
  arith,
}
use ankai.Prelude.Dict.{
  lookup, insert, erase, Distinct, insert-Distinct, append_new-Distinct, keep-Distinct,
}
use ankai.Core.Catalog.Memory.{
  MemoryCatalogCache, starts_with, addon_prefix, get, put, make_room, clear_for_addon,
}

module _ {P : Type 0} where
  abbrev pub keys : List (String × P) → List String
  keys [] = []
  keys ((k, page) ∷ m) = k ∷ keys m

  -- The entries that stay when a new one comes: all of them, or all but the oldest.
  abbrev pub room : ℕ → List (String × P) → List (String × P)
  room capacity [] = []
  room capacity (e ∷ m) = if leb capacity (length (e ∷ m)) then m else e ∷ m

  -- What every cache satisfies between calls.
  pub record IsCache (c : MemoryCatalogCache P) : Type 0 where
    pub some_room : 1 ≤ c.capacity
    pub bound : length c.map ≤ c.capacity
    pub ordered : c.order ≡ keys c.map
    pub distinct : Distinct string_discrete c.map

  erase_absent :
      (k : String) (m : List (String × P))
      → lookup string_discrete k m ≡ none
      → erase string_discrete k m ≡ m
  unfolding lookup erase
  erase_absent k [] h = refl
  erase_absent k ((j, page) ∷ m) h = ground (arith, erase_absent k m)

  erase_first :
      (k : String) (page : P) (m : List (String × P))
      → lookup string_discrete k m ≡ none
      → erase string_discrete k ((k, page) ∷ m) ≡ m
  unfolding erase
  erase_first k page m h = ground (arith, erase_absent k m h)

  make_room_stops :
      (capacity : ℕ) (m : List (String × P)) (order : List String)
      → suc (length m) ≤ capacity
      → make_room capacity m order ≡ (m, order)
  unfolding make_room
  make_room_stops capacity m [] h = refl
  make_room_stops capacity m (k ∷ order) h = ground arith

  make_room_lem :
      (capacity : ℕ) (key : String) (m : List (String × P))
      → 1 ≤ capacity
      → length m ≤ capacity
      → Distinct string_discrete m
      → make_room capacity m (keys m ++ key ∷ [])
        ≡ (room capacity m, keys (room capacity m) ++ key ∷ [])
  unfolding make_room
  make_room_lem capacity key [] one b d = ground arith
  make_room_lem capacity key ((k, page) ∷ m) one b d =
      ground (arith, erase_first k page m d.0, make_room_stops capacity m (keys m ++ key ∷ []))

  insert_absent :
      (k : String) (page : P) (m : List (String × P))
      → lookup string_discrete k m ≡ none
      → insert string_discrete k page m ≡ m ++ (k, page) ∷ []
  unfolding lookup insert
  insert_absent k page [] h = refl
  insert_absent k page ((j, q) ∷ m) h = ground (arith, insert_absent k page m)

  keys-append :
      (k : String) (page : P) (m : List (String × P))
      → keys (m ++ (k, page) ∷ []) ≡ keys m ++ k ∷ []
  keys-append k page [] = refl
  keys-append k page ((j, q) ∷ m) = ap (◌∷◌ j) (keys-append k page m)

  keys-insert :
      (k : String) (page q : P) (m : List (String × P))
      → lookup string_discrete k m ≡ some q
      → keys (insert string_discrete k page m) ≡ keys m
  unfolding lookup insert
  keys-insert k page q [] h = absurd (cc)
  keys-insert k page q ((j, r) ∷ m) h = ground (arith, keys-insert k page q m)

  length-keys : (m : List (String × P)) → length (keys m) ≡ length m
  length-keys [] = refl
  length-keys ((j, q) ∷ m) = ap suc (length-keys m)

  length-same_keys : (m n : List (String × P)) → keys m ≡ keys n → length m ≡ length n
  length-same_keys m n h = ground (arith, length-keys m, length-keys n)

  pub room_absent :
      (capacity : ℕ) (k : String) (m : List (String × P))
      → lookup string_discrete k m ≡ none
      → lookup string_discrete k (room capacity m) ≡ none
  unfolding lookup
  room_absent capacity k [] h = h
  room_absent capacity k ((j, q) ∷ m) h = ground arith

  room-Distinct :
      (capacity : ℕ) (m : List (String × P))
      → Distinct string_discrete m
      → Distinct string_discrete (room capacity m)
  room-Distinct capacity [] d = d
  room-Distinct capacity ((j, q) ∷ m) d = ground arith

  length-room :
      (capacity : ℕ) (m : List (String × P))
      → 1 ≤ capacity
      → length m ≤ capacity
      → suc (length (room capacity m)) ≤ capacity
  length-room capacity [] h b = h
  length-room capacity (e ∷ m) h b = ground arith

  -- A page under a new key becomes the newest entry; where the cache was full the oldest one goes, and
  -- no other.
  pub put_new :
      (key : String) (page : P) (c : MemoryCatalogCache P)
      → IsCache c
      → get key c ≡ none
      → ((put key page c).map ≡ room c.capacity c.map ++ (key, page) ∷ [])
        × ((put key page c).order ≡ keys (room c.capacity c.map) ++ key ∷ [])
  unfolding put get
  put_new key page c s absent =
      let made : make_room c.capacity c.map (c.order ++ key ∷ [])
          ≡ (room c.capacity c.map, keys (room c.capacity c.map) ++ key ∷ []) =
        rw s.ordered (make_room_lem c.capacity key c.map s.some_room s.bound s.distinct) in
      (
        ground (
          arith,
          insert_absent key page (room c.capacity c.map),
          room_absent c.capacity key c.map,
        ),
        ground arith,
      )

  pub put-IsCache :
      (key : String) (page : P) (c : MemoryCatalogCache P) → IsCache c → IsCache (put key page c)
  unfolding put get
  put-IsCache key page c s = elim (Option-cases (get key c)) [
    | inl absent ↦
        let (entries, order) = put_new key page c s absent in
        record {
          some_room = ground (arith, s.some_room);
          bound = ground (
            arith,
            length-append (room c.capacity c.map) ((key, page) ∷ []),
            length-room c.capacity c.map s.some_room s.bound,
          );
          ordered = ground (arith, keys-append key page (room c.capacity c.map));
          distinct = rw entries (
              append_new-Distinct string_discrete key page (room c.capacity c.map)
                (room_absent c.capacity key c.map absent)
                (room-Distinct c.capacity c.map s.distinct));
        }
    | inr (q, present) ↦
        let entries : (put key page c).map ≡ insert string_discrete key page c.map = ground arith in
        let same = keys-insert key page q c.map present in
        record {
          some_room = ground (arith, s.some_room);
          bound = ground (arith, length-same_keys _ c.map same, s.bound);
          ordered = ground (arith, same, s.ordered);
          distinct = rw entries (insert-Distinct string_discrete key page c.map s.distinct);
        }
  ]

  keep-keys :
      (p : String → Bool) (m : List (String × P))
      → keep p (keys m) ≡ keys (keep (λ (e : String × P). p e.0) m)
  keep-keys p [] = refl
  keep-keys p ((k, page) ∷ m) = ground (arith, keep-keys p m)

  pub clear-IsCache :
      (url : String) (c : MemoryCatalogCache P) → IsCache c → IsCache (clear_for_addon url c)
  unfolding clear_for_addon
  clear-IsCache url c s = record {
    some_room = s.some_room;
    bound = ground (
      arith,
      length-keep-le (λ (e : String × P). not (starts_with (addon_prefix url) e.0)) c.map,
      s.bound,
    );
    ordered = rw s.ordered (keep-keys (λ key. not (starts_with (addon_prefix url) key)) c.map);
    distinct = keep-Distinct string_discrete _ c.map s.distinct;
  }
