-- ===== src/Core/Addons/Order.antt =====
-- What core/src/addons.rs promises of the registry: distinct URLs, priorities that are the places in the
-- list, and moves that keep the order of all other add-ons.
use ankai.Prelude.{
  ℕ, zero, suc, ◌%◌, ◌^◌, ◌<◌, String, false, Bool-cases, Option-cases, length, Option, none, some,
  List, [], ◌∷◌, ◌≡◌, refl, ap, inl, inr, arith,
}
use ankai.Prelude.Results.{ok, Result-cases}
use ankai.Sql.{Conn}
use ankai.Core.Store.{Tables, Json, get_setting}
use ankai.Core.Addons.{
  AddonHealthState, InstalledAddon, StoredRegistry, settle, addons_setting_key, contains, addon_at,
  remove_at, insert_at, normalize_from, validate_and_normalize, read_registry,
}

-- Add-ons from the index `i`, with URLs that are canonical forms, distinct, and none of `urls`.
abbrev pub NormalFrom :
    (canonical : String → Option String) → List String → ℕ → List InstalledAddon → Type 0
NormalFrom canonical urls i [] = Unit
NormalFrom canonical urls i (a ∷ addons) =
    (contains a.manifest_url urls ≡ false)
    × ((given : String) × (canonical given ≡ some a.manifest_url))
    × (a.priority ≡ i % 2 ^ 32)
    × (a.health.state ≡ AddonHealthState.healthy → a.health.last_error ≡ none)
    × NormalFrom canonical (a.manifest_url ∷ urls) (suc i) addons

settle_healthy :
    (a : InstalledAddon)
    → (settle a.health).state ≡ AddonHealthState.healthy
    → (settle a.health).last_error ≡ none
unfolding settle
settle_healthy a h = ground arith

normalize_from-NormalFrom :
    (canonical : String → Option String) (urls : List String) (i : ℕ)
    (addons out : List InstalledAddon)
    → normalize_from canonical urls i addons ≡ some out
    → NormalFrom canonical urls i out × (length out ≡ length addons)
unfolding normalize_from
normalize_from-NormalFrom canonical urls i [] [] h = (tt, refl)
normalize_from-NormalFrom canonical urls i [] (b ∷ out) h = absurd (cc)
normalize_from-NormalFrom canonical urls i (a ∷ addons) out h =
    elim (Option-cases (canonical a.manifest_url)) [
      | inl e ↦ absurd (ground arith)
      | inr (url, e) ↦ elim (Bool-cases (contains url urls)) [
        | inl twice ↦ absurd (ground arith)
        | inr once ↦ elim (Option-cases (normalize_from canonical (url ∷ urls) (suc i) addons)) [
          | inl failed ↦ absurd (ground arith)
          | inr (rest, r) ↦
              let made : InstalledAddon = record a {
                manifest_url = url;
                priority = i % 2 ^ 32;
                health = settle a.health;
              } in
              let same : made ∷ rest ≡ out = ground arith in
              let (normal, count) =
                normalize_from-NormalFrom canonical (url ∷ urls) (suc i) addons rest r in
              rw (← same)
                ((once, (a.manifest_url, e), refl, settle_healthy a, normal), ap suc count)
        ]
      ]
    ]

-- Whatever the stored text is and whatever statements fail: where the registry can be read, its URLs are
-- canonical forms and distinct, the priority of each add-on is its place in the list (of 32 bits),
-- and no healthy add-on carries an error.
pub read_registry-NormalFrom :
    (canonical : String → Option String) (json : Json StoredRegistry) (c : Conn Tables)
    {addons : List InstalledAddon}
    → (read_registry canonical json c).0 ≡ ok addons
    → NormalFrom canonical [] 0 addons
unfolding read_registry validate_and_normalize
read_registry-NormalFrom canonical json c {addons} h =
    elim (Result-cases (get_setting addons_setting_key c).0) [
      | inl (e, failed) ↦ absurd (ground arith)
      | inr (raw, r) ↦ elim (Option-cases raw) [
        | inl absent ↦ let same : [] ≡ addons = ground arith in rw (← same) tt
        | inr (text, there) ↦ elim (Option-cases (json.from_str text)) [
          | inl corrupt ↦ absurd (ground arith)
          | inr (stored, read) ↦
              (normalize_from-NormalFrom canonical [] 0 stored.addons addons (ground arith)).0
        ]
      ]
    ]

length-insert_at :
    (i : ℕ) (x : InstalledAddon) (addons : List InstalledAddon)
    → length (insert_at i x addons) ≡ suc (length addons)
unfolding insert_at
length-insert_at zero x addons = refl
length-insert_at (suc i) x [] = refl
length-insert_at (suc i) x (a ∷ addons) = ap suc (length-insert_at i x addons)

length-remove_at :
    (i : ℕ) (x : InstalledAddon) (addons : List InstalledAddon)
    → addon_at i addons ≡ some x
    → suc (length (remove_at i addons)) ≡ length addons
unfolding remove_at addon_at
length-remove_at i x [] h = absurd (cc)
length-remove_at zero x (a ∷ addons) h = refl
length-remove_at (suc i) x (a ∷ addons) h = ap suc (length-remove_at i x addons h)

insert_at_found :
    (i : ℕ) (x : InstalledAddon) (addons : List InstalledAddon)
    → i < suc (length addons)
    → (addon_at i (insert_at i x addons) ≡ some x) × (remove_at i (insert_at i x addons) ≡ addons)
unfolding insert_at addon_at remove_at
insert_at_found zero x addons h = (refl, refl)
insert_at_found (suc i) x [] h = absurd (omega arith)
insert_at_found (suc i) x (a ∷ addons) h =
    let (found, left) = insert_at_found i x addons (omega arith) in (found, ap (◌∷◌ a) left)

-- A move from one place of the list to another puts the add-on at its new place, keeps the order of all
-- the others, and neither loses nor doubles an entry.
pub move_keeps_order :
    (current new : ℕ) (x : InstalledAddon) (addons : List InstalledAddon)
    → addon_at current addons ≡ some x
    → new < length addons
    → (addon_at new (insert_at new x (remove_at current addons)) ≡ some x)
      × (remove_at new (insert_at new x (remove_at current addons)) ≡ remove_at current addons)
      × (length (insert_at new x (remove_at current addons)) ≡ length addons)
move_keeps_order current new x addons h inside =
    let count = length-remove_at current x addons h in
    let (found, left) = insert_at_found new x (remove_at current addons) (omega arith) in
    (found, left, ground (arith, length-insert_at new x (remove_at current addons)))
