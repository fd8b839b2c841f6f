-- ===== src/Directory/Storage/Packages.antt =====
-- The one-time key packages, `insert_key_package` and `take_key_packages` of
-- server/directory/src/db.rs.
use ankai.Prelude.{
  suc, ◌++◌, ◌<◌, String, Bool, true, false, not, ◌&&◌, ◌==◌, List, [], ◌∷◌, map, keep, All, ◌≡◌,
  refl, ap, arith, Bool-cases, inl, inr, ◌∙◌,
}
use ankai.Prelude.Int.{ℤ, ◌-ℤ◌}
use ankai.Prelude.Results.{ok, err}
use ankai.Sql.{Conn, later}
use ankai.Directory.Storage.{
  StorageError, Tables, PackageRow, delete_rows, insert_key_package, add_package, take_key_packages,
  of_device, published_by,
}

-- A success adds one row, with the next id, and counts up.
pub insert_key_package_adds :
    (d json : String) (now : ℤ) (c : Conn Tables)
    → (insert_key_package d json now c).0 ≡ ok tt
    → (insert_key_package d json now c).1.tables ≡ record c.tables {
      key_packages =
          c.tables.key_packages
          ++ record {
            id = c.tables.next_id;
            device_id = d;
            key_package_json = json;
            published_at_unix = now;
          }
            ∷ [];
      next_id = suc c.tables.next_id;
    }
unfolding insert_key_package add_package
insert_key_package_adds d json now c h = ground arith

-- A failure changes nothing.
pub insert_key_package_fails :
    (d json : String) (now : ℤ) (c : Conn Tables) {e : StorageError}
    → (insert_key_package d json now c).0 ≡ err e
    → (insert_key_package d json now c).1.tables ≡ c.tables
unfolding insert_key_package
insert_key_package_fails d json now c h = ground arith

-- The ids ascend, so the order of the rows is that of `ORDER BY id ASC`.
abbrev pub Ids : List PackageRow → Type 0
Ids [] = Unit
Ids (r ∷ rs) = All (λ (x : PackageRow). r.id < x.id) rs × Ids rs

-- The ids ascend, and the counter is above them.
pub record IsNumbered (t : Tables) : Type 0 where
  pub below : All (λ (r : PackageRow). r.id < t.next_id) t.key_packages
  pub ids : Ids t.key_packages

All-keep :
    (P : PackageRow → Type 0) (p : PackageRow → Bool) (rs : List PackageRow)
    → All P rs
    → All P (keep p rs)
All-keep P p [] h = tt
All-keep P p (r ∷ rs) h = elim (Bool-cases (p r)) [
  | inl e ↦ rw e (h.0, All-keep P p rs h.1)
  | inr e ↦ rw e (All-keep P p rs h.1)
]

Ids-keep : (p : PackageRow → Bool) (rs : List PackageRow) → Ids rs → Ids (keep p rs)
Ids-keep p [] h = tt
Ids-keep p (r ∷ rs) h = elim (Bool-cases (p r)) [
  | inl e ↦ rw e (All-keep _ p rs h.0, Ids-keep p rs h.1)
  | inr e ↦ rw e (Ids-keep p rs h.1)
]

-- What is left after the rows with the ids of others are deleted, one by one.
without : List PackageRow → List PackageRow → List PackageRow
without [] l = l
without (r ∷ rs) l = without rs (keep (λ x. not (x.id == r.id)) l)

delete_rows_lem :
    (rows : List PackageRow) (c : Conn Tables)
    → (delete_rows rows c).0 ≡ ok tt
    → (delete_rows rows c).1.tables
      ≡ record c.tables { key_packages = without rows c.tables.key_packages }
unfolding delete_rows without
delete_rows_lem [] c h = refl
delete_rows_lem (r ∷ rows) c h = ground (
  arith,
  delete_rows_lem rows (record c {
    tables = record c.tables {
      key_packages = keep (λ x. not (x.id == r.id)) c.tables.key_packages;
    };
    faults = later c.faults;
  }),
)

keep-All_ne :
    (r : PackageRow) (l : List PackageRow)
    → All (λ (x : PackageRow). r.id < x.id) l
    → keep (λ x. not (x.id == r.id)) l ≡ l
keep-All_ne r [] h = refl
keep-All_ne r (x ∷ l) h = ground (arith, keep-All_ne r l)

without-cons :
    (rs : List PackageRow) (x : PackageRow) (l : List PackageRow)
    → All (λ (r : PackageRow). x.id < r.id) rs
    → without rs (x ∷ l) ≡ x ∷ without rs l
unfolding without
without-cons [] x l h = refl
without-cons (r ∷ rs) x l h =
    let e : x.id == r.id ≡ false = ground arith in
    rw e (without-cons rs x (keep (λ y. not (y.id == r.id)) l) h.1)

without-head :
    (rs : List PackageRow) (x : PackageRow) (l : List PackageRow)
    → All (λ (y : PackageRow). x.id < y.id) l
    → without (x ∷ rs) (x ∷ l) ≡ without rs l
unfolding without
without-head rs x l h = ap (without rs) (ground (arith, keep-All_ne x l))

without-keep :
    (p : PackageRow → Bool) (l : List PackageRow)
    → Ids l
    → without (keep p l) l ≡ keep (λ r. not (p r)) l
unfolding without
without-keep p [] h = refl
without-keep p (x ∷ l) h = elim (Bool-cases (p x)) [
  | inl e ↦ rw e (without-head (keep p l) x l h.0 ∙ without-keep p l h.1)
  | inr e ↦
      rw e (without-cons (keep p l) x l (All-keep _ p l h.0) ∙ ap (◌∷◌ x) (without-keep p l h.1))
]

keep-keep :
    (p q : PackageRow → Bool) (l : List PackageRow)
    → keep (λ r. not (p r)) (keep (λ r. not (p r && q r)) l) ≡ keep (λ r. not (p r)) l
keep-keep p q [] = refl
keep-keep p q (x ∷ l) = ground (arith, keep-keep p q l)

keep_live :
    (p q : PackageRow → Bool) (l : List PackageRow)
    → keep p (keep (λ r. not (p r && q r)) l) ≡ keep (λ r. p r && not (q r)) l
keep_live p q [] = refl
keep_live p q (x ∷ l) = ground (arith, keep_live p q l)

-- The packages of a device that are younger than the cutoff.
abbrev pub live : String → ℤ → PackageRow → Bool
live d cutoff r = of_device d r && not (published_by cutoff r)

selected : String → ℤ → Tables → List PackageRow
selected d cutoff t =
    keep (of_device d) (keep (λ r. not (of_device d r && published_by cutoff r)) t.key_packages)

-- The connection at the start of the loop of deletions.
expired : String → ℤ → Conn Tables → Conn Tables
expired d cutoff c = record c {
  tables = record c.tables {
    key_packages = keep (λ r. not (of_device d r && published_by cutoff r)) c.tables.key_packages;
  };
  faults = later (later c.faults);
}

abbrev Selects : String → ℤ → ℤ → List String → Conn Tables → Type 0
Selects d now max_age jsons c =
    (jsons ≡ map (λ (r : PackageRow). r.key_package_json) (selected d (now -ℤ max_age) c.tables))
    × ((delete_rows (selected d (now -ℤ max_age) c.tables) (expired d (now -ℤ max_age) c)).0
        ≡ ok tt)
    × ((take_key_packages d now max_age c).1.tables
        ≡ (delete_rows (selected d (now -ℤ max_age) c.tables)
            (expired d (now -ℤ max_age) c)).1.tables)

by_faults :
    (d : String) (now max_age : ℤ) (t : Tables) (fs : List Bool) (p : Bool) (jsons : List String)
    → (take_key_packages d now max_age (record { tables = t; faults = fs; poisoned = p })).0
      ≡ ok jsons
    → Selects d now max_age jsons (record { tables = t; faults = fs; poisoned = p })
unfolding take_key_packages selected expired
by_faults d now max_age t (true ∷ fs) false jsons e = cc
by_faults d now max_age t (false ∷ true ∷ fs) false jsons e = cc
by_faults d now max_age t fs false jsons e = ground arith
by_faults d now max_age t fs true jsons e = cc

take_key_packages-ok :
    (d : String) (now max_age : ℤ) (c : Conn Tables) (jsons : List String)
    → (take_key_packages d now max_age c).0 ≡ ok jsons
    → Selects d now max_age jsons c
take_key_packages-ok d now max_age c jsons e =
    by_faults d now max_age c.tables c.faults c.poisoned jsons e

-- Where the ids of the key packages ascend in the order of the rows and are below the counter, and
-- whatever statements fail: a lookup that succeeds returns the packages of the device that are not
-- expired, in the order of their ids, and leaves exactly the packages of the other devices, and all
-- else as it was.
pub take_key_packages_consumes :
    (d : String) (now max_age : ℤ) (c : Conn Tables) {jsons : List String}
    → IsNumbered c.tables
    → (take_key_packages d now max_age c).0 ≡ ok jsons
    → (jsons
        ≡ map
            (λ (r : PackageRow). r.key_package_json)
            (keep (live d (now -ℤ max_age)) c.tables.key_packages))
      × ((take_key_packages d now max_age c).1.tables ≡ record c.tables {
        key_packages = keep (λ r. not (of_device d r)) c.tables.key_packages;
      })
unfolding selected expired
take_key_packages_consumes d now max_age c {jsons} h e =
    let (listed, deleted, left) = take_key_packages-ok d now max_age c jsons e in
    let cutoff = now -ℤ max_age in
    let packages = c.tables.key_packages in
    (
      listed
          ∙ ap (map (λ (r : PackageRow). r.key_package_json))
              (keep_live (of_device d) (published_by cutoff) packages),
      left
          ∙ delete_rows_lem (selected d cutoff c.tables) (expired d cutoff c) deleted
          ∙ ap (λ rows. record c.tables { key_packages = rows })
              (without-keep (of_device d) _ (Ids-keep _ packages h.ids)
                ∙ keep-keep (of_device d) (published_by cutoff) packages),
    )

pub delete-IsNumbered :
    (p : PackageRow → Bool) (t : Tables)
    → IsNumbered t
    → IsNumbered (record t { key_packages = keep p t.key_packages })
delete-IsNumbered p t h = record {
  below = All-keep _ p t.key_packages h.below;
  ids = Ids-keep p t.key_packages h.ids;
}
