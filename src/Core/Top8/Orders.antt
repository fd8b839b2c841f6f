-- ===== src/Core/Top8/Orders.antt =====
-- Lists of ids without repetition, and what the list operations of core/src/top8.rs keep of them.
use ankai.Prelude.{
  ℕ, zero, suc, String, Bool, true, false, ◌||◌, length, keep, some, List, [], ◌∷◌, ◌++◌, ◌≡◌, refl,
  arith,
}
use ankai.Core.Top8.{contains, has_duplicate, position, item, put, swap, is_id}

-- No id twice.
abbrev pub Nodup : List String → Type 0
Nodup [] = Unit
Nodup (x ∷ xs) = (contains x xs ≡ false) × Nodup xs

-- No id of the second list is in the first.
abbrev Apart : List String → List String → Type 0
Apart seen [] = Unit
Apart seen (x ∷ xs) = (contains x seen ≡ false) × Apart seen xs

Apart-cons :
    (x : String) (seen xs : List String)
    → Apart (x ∷ seen) xs
    → Apart seen xs × (contains x xs ≡ false)
unfolding contains
Apart-cons x seen [] h = (tt, refl)
Apart-cons x seen (y ∷ ys) h = ground (arith, Apart-cons x seen ys)

Nodup-of_loop : (seen xs : List String) → has_duplicate seen xs ≡ false → Nodup xs × Apart seen xs
unfolding has_duplicate
Nodup-of_loop seen [] h = (tt, tt)
Nodup-of_loop seen (x ∷ xs) h = ground (arith, Nodup-of_loop (x ∷ seen) xs, Apart-cons x seen xs)

pub has_duplicate-Nodup : (xs : List String) → has_duplicate [] xs ≡ false → Nodup xs
has_duplicate-Nodup xs h = (Nodup-of_loop [] xs h).0

pub contains-append :
    (z x : String) (xs : List String) → contains z (xs ++ x ∷ []) ≡ (contains z xs || is_id x z)
unfolding contains
contains-append z x [] = ground arith
contains-append z x (y ∷ ys) = ground (arith, contains-append z x ys)

pub append-Nodup :
    (x : String) (xs : List String) → contains x xs ≡ false → Nodup xs → Nodup (xs ++ x ∷ [])
unfolding contains
append-Nodup x [] h d = (refl, tt)
append-Nodup x (y ∷ ys) h d = ground (arith, append-Nodup x ys, contains-append y x ys)

pub contains-keep :
    (p : String → Bool) (z : String) (xs : List String)
    → contains z (keep p xs) ≡ true
    → contains z xs ≡ true
unfolding contains
contains-keep p z [] h = h
contains-keep p z (y ∷ ys) h = ground (arith, contains-keep p z ys)

absent-keep :
    (p : String → Bool) (z : String) (xs : List String)
    → contains z xs ≡ false
    → contains z (keep p xs) ≡ false
unfolding contains
absent-keep p z [] h = h
absent-keep p z (y ∷ ys) h = ground (arith, absent-keep p z ys)

pub keep-Nodup : (p : String → Bool) (xs : List String) → Nodup xs → Nodup (keep p xs)
keep-Nodup p [] d = tt
keep-Nodup p (y ∷ ys) d = ground (arith, keep-Nodup p ys, absent-keep p y ys)

swap-suc :
    (i j : ℕ) (x : String) (xs : List String) → swap (suc i) (suc j) (x ∷ xs) ≡ x ∷ swap i j xs
unfolding swap item put
swap-suc i j x xs = ground arith

-- Neighbours are swapped either way round.
pub swap_comm : (i : ℕ) (xs : List String) → swap (suc i) i xs ≡ swap i (suc i) xs
unfolding swap item put
swap_comm i [] = ground arith
swap_comm zero (x ∷ []) = ground arith
swap_comm zero (x ∷ y ∷ ys) = refl
swap_comm (suc i) (x ∷ xs) =
    ground (arith, swap_comm i xs, swap-suc i (suc i) x xs, swap-suc (suc i) i x xs)

pub length-swap : (i : ℕ) (xs : List String) → length (swap i (suc i) xs) ≡ length xs
unfolding swap item put
length-swap i [] = ground arith
length-swap zero (x ∷ []) = ground arith
length-swap zero (x ∷ y ∷ ys) = refl
length-swap (suc i) (x ∷ xs) = ground (arith, length-swap i xs, swap-suc i (suc i) x xs)

pub contains-swap :
    (z : String) (i : ℕ) (xs : List String) → contains z (swap i (suc i) xs) ≡ contains z xs
unfolding swap item put contains
contains-swap z i [] = ground arith
contains-swap z zero (x ∷ []) = ground arith
contains-swap z zero (x ∷ y ∷ ys) = ground arith
contains-swap z (suc i) (x ∷ xs) = ground (arith, contains-swap z i xs, swap-suc i (suc i) x xs)

pub swap-Nodup : (i : ℕ) (xs : List String) → Nodup xs → Nodup (swap i (suc i) xs)
unfolding swap item put contains
swap-Nodup i [] d = ground arith
swap-Nodup zero (x ∷ []) d = ground arith
swap-Nodup zero (x ∷ y ∷ ys) d = ground arith
swap-Nodup (suc i) (x ∷ xs) d =
    ground (arith, swap-Nodup i xs, swap-suc i (suc i) x xs, contains-swap x i xs)

-- The position of the first of an id's places, and the swap with the next item.
pub position-append :
    (id : String) (xs ys : List String)
    → contains id xs ≡ false
    → position id (xs ++ id ∷ ys) ≡ some (length xs)
unfolding position contains
position-append id [] ys h = ground arith
position-append id (x ∷ xs) ys h = ground (arith, position-append id xs ys)

pub swap-append :
    (xs : List String) (a b : String) (ys : List String)
    → swap (length xs) (suc (length xs)) (xs ++ a ∷ b ∷ ys) ≡ xs ++ b ∷ a ∷ ys
unfolding swap item put
swap-append [] a b ys = refl
swap-append (x ∷ xs) a b ys =
    ground
      (arith, swap-append xs a b ys, swap-suc (length xs) (suc (length xs)) x (xs ++ a ∷ b ∷ ys))
