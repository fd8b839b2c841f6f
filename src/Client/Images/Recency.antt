-- ===== src/Client/Images/Recency.antt =====
-- The abstract cache that client/src/images.rs promises: a list of images, the least recently used first.
use ankai.Prelude.{
  ℕ, suc, ◌+◌, ◌==◌, ◌||◌, ltb, leb, ◌≤◌, String, string_discrete, if◌then◌else◌, length, none,
  some, List, [], ◌∷◌, ◌++◌, ◌≡◌, refl, ap, arith,
}
use ankai.Prelude.Dict.{lookup, erase, Distinct}
use ankai.Client.Images.{CachedImage, without}

module _ {Image : Type 0} where
  abbrev pub total : List (String × CachedImage Image) → ℕ
  total [] = 0
  total ((k, e) ∷ l) = e.decoded_bytes + total l

  abbrev pub keys : List (String × CachedImage Image) → List String
  keys [] = []
  keys ((k, e) ∷ l) = k ∷ keys l

  -- The images that stay when one of this size comes.
  unfoldable pub fit :
      (max_bytes max_items size : ℕ)
      → List (String × CachedImage Image)
      → List (String × CachedImage Image)
  fit max_bytes max_items size [] = []
  fit max_bytes max_items size ((k, e) ∷ l) =
      let rest = fit max_bytes max_items size l in
      if ltb max_bytes (total ((k, e) ∷ l) + size) || leb max_items (length ((k, e) ∷ l))
      then rest
      else (k, e) ∷ l

  -- A use of an image makes it the last.
  unfoldable pub use_image :
      String → List (String × CachedImage Image) → List (String × CachedImage Image)
  use_image url l = elim (lookup string_discrete url l) [
    | none ↦ l
    | some e ↦ erase string_discrete url l ++ (url, e) ∷ []
  ]

  unfoldable pub store_image :
      (max_bytes max_items : ℕ)
      → String
      → CachedImage Image
      → List (String × CachedImage Image)
      → List (String × CachedImage Image)
  store_image max_bytes max_items url e l =
      if e.decoded_bytes == 0 || (ltb max_bytes e.decoded_bytes || max_items == 0)
      then l
      else fit max_bytes max_items e.decoded_bytes (erase string_discrete url l) ++ (url, e) ∷ []

  pub keys-erase :
      (url : String) (l : List (String × CachedImage Image))
      → keys (erase string_discrete url l) ≡ without url (keys l)
  unfolding erase
  keys-erase url [] = refl
  keys-erase url ((k, e) ∷ l) = ground (arith, keys-erase url l)

  pub keys-append :
      (k : String) (e : CachedImage Image) (l : List (String × CachedImage Image))
      → keys (l ++ (k, e) ∷ []) ≡ keys l ++ k ∷ []
  keys-append k e [] = refl
  keys-append k e ((j, f) ∷ l) = ap (◌∷◌ j) (keys-append k e l)

  pub length-keys : (l : List (String × CachedImage Image)) → length (keys l) ≡ length l
  length-keys [] = refl
  length-keys ((k, e) ∷ l) = ap suc (length-keys l)

  pub total-append :
      (k : String) (e : CachedImage Image) (l : List (String × CachedImage Image))
      → total (l ++ (k, e) ∷ []) ≡ total l + e.decoded_bytes
  total-append k e [] = omega arith
  total-append k e ((j, f) ∷ l) = omega (arith, total-append k e l)

  pub erase_absent :
      (k : String) (l : List (String × CachedImage Image))
      → lookup string_discrete k l ≡ none
      → erase string_discrete k l ≡ l
  unfolding lookup erase
  erase_absent k [] h = refl
  erase_absent k ((j, f) ∷ l) h = ground (arith, erase_absent k l)

  pub total-erase :
      (k : String) (e : CachedImage Image) (l : List (String × CachedImage Image))
      → Distinct string_discrete l
      → lookup string_discrete k l ≡ some e
      → total (erase string_discrete k l) + e.decoded_bytes ≡ total l
  unfolding lookup erase
  total-erase k e [] d h = absurd (cc)
  total-erase k e ((j, f) ∷ l) d h = ground (arith, total-erase k e l, erase_absent k l)

  pub length-erase :
      (k : String) (e : CachedImage Image) (l : List (String × CachedImage Image))
      → Distinct string_discrete l
      → lookup string_discrete k l ≡ some e
      → suc (length (erase string_discrete k l)) ≡ length l
  unfolding lookup erase
  length-erase k e [] d h = absurd (cc)
  length-erase k e ((j, f) ∷ l) d h = ground (arith, length-erase k e l, erase_absent k l)

  pub length-fit :
      (mb mi n : ℕ) (l : List (String × CachedImage Image)) → length (fit mb mi n l) ≤ length l
  unfolding fit
  length-fit mb mi n [] = omega arith
  length-fit mb mi n ((k, e) ∷ l) = ground (arith, length-fit mb mi n l)

  -- What stays leaves room for one image more.
  pub fit_room :
      (mb mi n : ℕ) (l : List (String × CachedImage Image))
      → n ≤ mb
      → 1 ≤ mi
      → (total (fit mb mi n l) + n ≤ mb) × (length (fit mb mi n l) + 1 ≤ mi)
  unfolding fit
  fit_room mb mi n [] h k = (ground arith, ground arith)
  fit_room mb mi n ((k, e) ∷ l) h j = ground (arith, fit_room mb mi n l h j)

  pub fit_absent :
      (mb mi n : ℕ) (l : List (String × CachedImage Image)) (k : String)
      → lookup string_discrete k l ≡ none
      → lookup string_discrete k (fit mb mi n l) ≡ none
  unfolding fit lookup
  fit_absent mb mi n [] k h = refl
  fit_absent mb mi n ((j, e) ∷ l) k h = ground (arith, fit_absent mb mi n l k)

  pub fit-Distinct :
      (mb mi n : ℕ) (l : List (String × CachedImage Image))
      → Distinct string_discrete l
      → Distinct string_discrete (fit mb mi n l)
  unfolding fit
  fit-Distinct mb mi n [] d = tt
  fit-Distinct mb mi n ((j, e) ∷ l) d = ground (arith, fit-Distinct mb mi n l)
