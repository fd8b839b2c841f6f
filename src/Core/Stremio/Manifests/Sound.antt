-- ===== src/Core/Stremio/Manifests/Sound.antt =====
-- What holds of the catalogs of a manifest that core/src/stremio.rs accepts.
use ankai.Prelude.{
  ◌≤◌, String, Bool-cases, true, false, length, map, All, Option-cases, some, List, [], ◌∷◌, ◌≡◌,
  refl, ap, ◌∙◌, inl, inr, arith,
}
use ankai.Prelude.Results.{ok}
use ankai.Core.Manifest.{Manifest, Catalog, CatalogExtra}
use ankai.Core.Stremio.Checks.{each, ensure_collection_limit}
use ankai.Core.Stremio.Manifests.{
  contains, is_zero, validate_extras, validate_catalog, validate, is_catalog, find_catalog,
  request_in, catalog_for_request,
}
use ankai.Core.Stremio.Manifests.Requests.{Allowed, Counted, validate_request_extra_lem}

-- No name stands twice.
abbrev pub Unique : List String → Type 0
Unique [] = Unit
Unique (x ∷ xs) = (contains x xs ≡ false) × Unique xs

abbrev pub names : List CatalogExtra → List String
names extras = map (λ (e : CatalogExtra). e.name) extras

-- A catalog whose extras have different names and limits of at least 1.
pub record IsSound (catalog : Catalog) : Type 0 where
  pub few : length catalog.extra ≤ 32
  pub unique : Unique (names catalog.extra)
  pub limits : All (λ (e : CatalogExtra). is_zero e.options_limit ≡ false) catalog.extra

contains_seen :
    (x y : String) (seen : List String)
    → contains x (y ∷ seen) ≡ false
    → (contains x seen ≡ false) × ¬ (x ≡ y)
contains_seen x y seen h = (ground arith, λ e. ground arith)

-- Names that none of these is among.
abbrev Fresh : List String → List CatalogExtra → Type 0
Fresh seen extras = All (λ (e : CatalogExtra). contains e.name seen ≡ false) extras

Fresh-tail :
    (x : String) (seen : List String) (extras : List CatalogExtra)
    → Fresh (x ∷ seen) extras
    → Fresh seen extras
Fresh-tail x seen [] f = tt
Fresh-tail x seen (e ∷ extras) f = (ground (arith, f.0), Fresh-tail x seen extras f.1)

Fresh-Unique :
    (x : String) (seen : List String) (extras : List CatalogExtra)
    → Fresh (x ∷ seen) extras
    → contains x (names extras) ≡ false
Fresh-Unique x seen [] f = refl
Fresh-Unique x seen (e ∷ extras) f = ground (arith, f.0, Fresh-Unique x seen extras f.1)

validate_extras-Unique :
    (seen : List String) (extras : List CatalogExtra)
    → validate_extras seen extras ≡ ok tt
    → Fresh seen extras
      × Unique (names extras)
      × All (λ (e : CatalogExtra). is_zero e.options_limit ≡ false) extras
unfolding validate_extras
validate_extras-Unique seen [] h = (tt, tt, tt)
validate_extras-Unique seen (e ∷ extras) h =
    let rest = validate_extras-Unique (e.name ∷ seen) extras (ground arith) in
    (
      (ground arith, Fresh-tail e.name seen extras rest.0),
      (Fresh-Unique e.name seen extras rest.0, rest.1),
      (ground arith, rest.2),
    )

validate_catalog-IsSound : (catalog : Catalog) → validate_catalog catalog ≡ ok tt → IsSound catalog
unfolding validate_catalog ensure_collection_limit
validate_catalog-IsSound catalog h =
    let extras = validate_extras-Unique [] catalog.extra (ground arith) in
    record { few = ground arith; unique = extras.1; limits = extras.2 }

find_catalog-IsSound :
    (media_type id : String) (catalogs : List Catalog) (catalog : Catalog)
    → each validate_catalog catalogs ≡ ok tt
    → find_catalog media_type id catalogs ≡ some catalog
    → (is_catalog media_type id catalog ≡ true) × IsSound catalog
unfolding find_catalog
find_catalog-IsSound media_type id [] catalog h f = absurd (cc)
find_catalog-IsSound media_type id (c ∷ catalogs) catalog h f =
    elim (Bool-cases (is_catalog media_type id c)) [
      | inl e ↦
          let same : c ≡ catalog = ground arith in
          rw (← same) (e, validate_catalog-IsSound c (ground arith))
      | inr e ↦ find_catalog-IsSound media_type id catalogs catalog (ground arith) (ground arith)
    ]

-- Where a manifest is accepted and a request for one of its catalogs is let through to a catalog, the catalog is
-- of the type and the id asked for, its extras have different names and limits of at least 1, and the request
-- supplies what it requires, only values that it allows and no more than its limits.
pub catalog_for_request-IsSound :
    (manifest : Manifest) (media_type id : String) (extra : List (String × String))
    (catalog : Catalog)
    → validate manifest ≡ ok tt
    → catalog_for_request manifest media_type id extra ≡ ok (some catalog)
    → (catalog.media_type ≡ media_type)
      × (catalog.id ≡ id)
      × IsSound catalog
      × All (Allowed catalog.extra) extra
      × All (Counted extra) catalog.extra
unfolding validate request_in
catalog_for_request-IsSound manifest media_type id extra catalog v h =
    elim (Option-cases (find_catalog media_type id manifest.catalogs)) [
      | inl e ↦ absurd (ground arith)
      | inr (c, e) ↦
          let same : c ≡ catalog = ground arith in
          let found =
            find_catalog-IsSound media_type id manifest.catalogs catalog (ground arith)
              (e ∙ ap some same) in
          let allowed = (validate_request_extra_lem catalog extra).0 (ground (arith, same, e)) in
          (ground (arith, found.0), ground (arith, found.0), found.1, allowed.0, allowed.1)
    ]
