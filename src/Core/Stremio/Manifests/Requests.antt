-- ===== src/Core/Stremio/Manifests/Requests.antt =====
-- Which requests for a catalog core/src/stremio.rs lets through.
use ankai.Prelude.{
  ℕ, ◌+◌, ◌≤◌, String, string_discrete, true, length, length-append, keep, All, Option-cases, some,
  List, [], ◌∷◌, ◌++◌, if◌then◌else◌, ◌≡◌, refl, ap, ◌↔◌, inl, inr, arith,
}
use ankai.Prelude.Dict.{lookup, lookup-insert}
use ankai.Prelude.Results.{Result-cases, ok}
use ankai.Core.Manifest.{Catalog, CatalogExtra}
use ankai.Core.Stremio.Address.{is_text}
use ankai.Core.Stremio.Manifests.{
  find_extra, values_of, push_value, allows, collect_extra, limit, check_counts,
  validate_request_extra,
}

-- How many values a request supplies for a name.
abbrev pub count_of : String → List (String × String) → ℕ
count_of extra_name extra = length (keep (λ p. is_text p.0 extra_name) extra)

-- A value for a declared name, and one that the declaration allows.
abbrev pub Allowed : List CatalogExtra → String × String → Type 0
Allowed declared p =
    (declaration : CatalogExtra) × (find_extra p.0 declared ≡ some declaration)
    × (allows declaration p.1 ≡ true)

-- The request supplies a required name, and no more values than the declaration's limit, which is 1 where it
-- sets none.
abbrev pub Counted : List (String × String) → CatalogExtra → Type 0
Counted extra declaration =
    (declaration.is_required ≡ true → 1 ≤ count_of declaration.name extra)
    × (count_of declaration.name extra ≤ limit declaration.options_limit)

push_value-length :
    (n extra_name value : String) (supplied : List (String × List String))
    → length (values_of n (push_value extra_name value supplied))
      ≡ length (values_of n supplied) + (if is_text extra_name n then 1 else 0)
unfolding push_value
push_value-length n extra_name value supplied =
    let found =
      lookup-insert string_discrete n extra_name (values_of extra_name supplied ++ value ∷ [])
        supplied in
    elim (string_discrete extra_name n) [
      | yes e ↦ ground (
        arith,
        found,
        length-append (values_of extra_name supplied) (value ∷ []),
        ap (λ m. lookup string_discrete m supplied) e,
      )
      | no d ↦ ground (arith, found)
    ]

collect_extra-counts :
    (declared : List CatalogExtra) (extra : List (String × String))
    (supplied result : List (String × List String))
    → collect_extra declared extra supplied ≡ ok result
    → All (Allowed declared) extra
      × ((n : String)
          → length (values_of n result) ≡ length (values_of n supplied) + count_of n extra)
unfolding collect_extra
collect_extra-counts declared [] supplied result h = (tt, λ n. ground arith)
collect_extra-counts declared ((extra_name, value) ∷ extra) supplied result h =
    elim (Option-cases (find_extra extra_name declared)) [
      | inl e ↦ absurd (ground arith)
      | inr (declaration, e) ↦
          let rest =
            collect_extra-counts declared extra (push_value extra_name value supplied) result
              (ground arith) in
          (
            ((declaration, e, ground arith), rest.0),
            λ n. ground (arith, rest.1 n, push_value-length n extra_name value supplied),
          )
    ]

collect_extra-Allowed :
    (declared : List CatalogExtra) (extra : List (String × String))
    (supplied : List (String × List String))
    → All (Allowed declared) extra
    → (result : List (String × List String)) × (collect_extra declared extra supplied ≡ ok result)
unfolding collect_extra
collect_extra-Allowed declared [] supplied a = (supplied, refl)
collect_extra-Allowed declared ((extra_name, value) ∷ extra) supplied a =
    let rest = collect_extra-Allowed declared extra (push_value extra_name value supplied) a.1 in
    (rest.0, ground (arith, a.0, rest.1))

check_counts-Counted :
    (supplied : List (String × List String)) (extra : List (String × String))
    (declared : List CatalogExtra)
    → ((n : String) → length (values_of n supplied) ≡ count_of n extra)
    → (check_counts supplied declared ≡ ok tt) ↔ All (Counted extra) declared
unfolding check_counts
check_counts-Counted supplied extra [] same = ((λ h. tt), λ h. refl)
check_counts-Counted supplied extra (d ∷ declared) same =
    let rest = check_counts-Counted supplied extra declared same in
    (
      (λ h. ((ground (arith, same d.name), ground (arith, same d.name)), rest.0 (ground arith))),
      λ a. ground (arith, same d.name, a.0, rest.1 a.1),
    )

-- A request for a catalog is let through exactly where every value is for a declared name whose options allow
-- it, every required name has a value, and no name has more values than its limit.
pub validate_request_extra_lem :
    (catalog : Catalog) (extra : List (String × String))
    → (validate_request_extra catalog extra ≡ ok tt)
      ↔ (All (Allowed catalog.extra) extra × All (Counted extra) catalog.extra)
unfolding validate_request_extra lookup
validate_request_extra_lem catalog extra = (
  (λ h. elim (Result-cases (collect_extra catalog.extra extra [])) [
    | inl (x, e) ↦ absurd (ground arith)
    | inr (supplied, e) ↦
        let counts = collect_extra-counts catalog.extra extra [] supplied e in
        (
          counts.0,
          (check_counts-Counted supplied extra catalog.extra (λ n. ground (arith, counts.1 n))).0
              (ground arith),
        )
  ]),
  λ a.
      let run = collect_extra-Allowed catalog.extra extra [] a.0 in
      let counts = collect_extra-counts catalog.extra extra [] run.0 run.1 in
      ground (
        arith,
        run.1,
        (check_counts-Counted run.0 extra catalog.extra (λ n. ground (arith, counts.1 n))).1 a.1,
      ),
)
