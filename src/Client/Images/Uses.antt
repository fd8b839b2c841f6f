-- ===== src/Client/Images/Uses.antt =====
-- Any uses of the cache of client/src/images.rs and of the list of Images/Recency.
use ankai.Prelude.{
  ℕ, ◌-◌, ◌^◌, ◌≤◌, ◌<◌, String, string_discrete, length, Option, List, [], ◌∷◌, ◌≡◌, refl, sym, ap,
  ◌∙◌, arith,
}
use mathlib.Core.Option
use ankai.Prelude.Dict.{lookup}
use ankai.Client.Images.{CachedImage, ImageLru, new, get, insert}
use ankai.Client.Images.Recency.{length-keys, use_image, store_image}
use ankai.Client.Images.Refines.{Refines, new-Refines, get-Refines, insert-Refines}

-- The uses of the cache, and what they answer, on the cache and on the list.
pub data Use (Image : Type 0) : Type 0 where
  get_image : String → Use Image
  insert_image : String → Image → ℕ → Use Image

module _ {Image : Type 0} where
  unfoldable pub run : List (Use Image) → ImageLru Image → List (Option Image) × ImageLru Image
  run [] c = ([], c)
  run (get_image url ∷ uses) c =
      let rest = run uses (get url c).1 in ((get url c).0 ∷ rest.0, rest.1)
  run (insert_image url image n ∷ uses) c = run uses (insert url image n c)

  unfoldable pub run_recent :
      (mb mi : ℕ)
      → List (Use Image)
      → List (String × CachedImage Image)
      → List (Option Image) × List (String × CachedImage Image)
  run_recent mb mi [] l = ([], l)
  run_recent mb mi (get_image url ∷ uses) l =
      let rest = run_recent mb mi uses (use_image url l) in
      (Option.map (λ e. e.image) (lookup string_discrete url l) ∷ rest.0, rest.1)
  run_recent mb mi (insert_image url image n ∷ uses) l =
      run_recent mb mi uses (store_image mb mi url (record { image = image; decoded_bytes = n }) l)

  pub run-Refines :
      (mb mi : ℕ) (uses : List (Use Image)) (c : ImageLru Image)
      (l : List (String × CachedImage Image))
      → mb < 2 ^ 64 - 1
      → Refines mb mi c l
      → ((run uses c).0 ≡ (run_recent mb mi uses l).0)
        × Refines mb mi (run uses c).1 (run_recent mb mi uses l).1
  unfolding run run_recent
  run-Refines mb mi [] c l small r = (refl, r)
  run-Refines mb mi (get_image url ∷ uses) c l small r =
      let step = get-Refines mb mi c l url r in
      let rest = run-Refines mb mi uses (get url c).1 (use_image url l) small step.1 in
      ((λ i. step.0 i ∷ rest.0 i), rest.1)
  run-Refines mb mi (insert_image url image n ∷ uses) c l small r =
      run-Refines mb mi uses (insert url image n c)
        (store_image mb mi url (record { image = image; decoded_bytes = n }) l) small
        (insert-Refines mb mi c l url image n small r)

  -- Where the bound on the bytes is less than the largest number of 64 bits, a new image cache answers any
  -- reads and insertions as the list of images in the order of their last use does.
  pub run-run_recent :
      (max_bytes max_items : ℕ) (uses : List (Use Image))
      → max_bytes < 2 ^ 64 - 1
      → (run uses (new max_bytes max_items)).0 ≡ (run_recent max_bytes max_items uses []).0
  run-run_recent mb mi uses small =
      (run-Refines mb mi uses (new mb mi) [] small (new-Refines mb mi)).0

  -- Where the bound on the bytes is less than the largest number of 64 bits, any reads and insertions of a
  -- new image cache leave no more entries and bytes than the bounds, and a queue of as many keys as there
  -- are entries.
  pub run_bounds :
      (max_bytes max_items : ℕ) (uses : List (Use Image))
      → max_bytes < 2 ^ 64 - 1
      → let c = (run uses (new max_bytes max_items)).1 in
        (c.decoded_bytes ≤ max_bytes)
        × (length c.entries ≤ max_items)
        × (length c.order ≡ length c.entries)
  run_bounds mb mi uses small =
      let r = (run-Refines mb mi uses (new mb mi) [] small (new-Refines mb mi)).1 in
      let l = (run_recent mb mi uses []).1 in
      (
        omega (arith, r.bytes, r.holds.stores.size_is),
        omega (arith, r.items, r.holds.stores.count_is),
        ap length r.holds.order_is ∙ (length-keys l ∙ sym r.holds.stores.count_is),
      )
