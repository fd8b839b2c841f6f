-- ===== src/Directory/Storage/Numbering.antt =====
-- A new key package gets a fresh id (`insert_key_package` of server/directory/src/db.rs), and what
-- the loop of deletions keeps.
use ankai.Prelude.{
  ℕ, suc, ◌<◌, String, Bool, true, false, ◌==◌, List, [], ◌∷◌, ◌++◌, All, ◌≡◌, arith,
}
use ankai.Prelude.Int.{ℤ}
use ankai.Sql.{Conn, pure, ◌>>◌}
use ankai.Directory.Storage.{
  Tables, PackageRow, delete_rows, take_key_packages, add_package, delete_packages,
}
use ankai.Directory.Storage.Packages.{Ids, IsNumbered}

All-append_one :
    (P : PackageRow → Type 0) (rs : List PackageRow) {x : PackageRow}
    → All P rs
    → P x
    → All P (rs ++ x ∷ [])
All-append_one P [] h p = (p, tt)
All-append_one P (r ∷ rs) h p = (h.0, All-append_one P rs h.1 p)

below_next :
    (n : ℕ) (rs : List PackageRow)
    → All (λ (r : PackageRow). r.id < n) rs
    → All (λ (r : PackageRow). r.id < suc n) rs
below_next n [] h = tt
below_next n (r ∷ rs) h = (omega arith, below_next n rs h.1)

Ids-append_one :
    (x : PackageRow) (rs : List PackageRow)
    → Ids rs
    → All (λ (r : PackageRow). r.id < x.id) rs
    → Ids (rs ++ x ∷ [])
Ids-append_one x [] h b = (tt, tt)
Ids-append_one x (r ∷ rs) h b = (All-append_one _ rs h.0 (omega arith), Ids-append_one x rs h.1 b.1)

pub add_package-IsNumbered :
    (d json : String) (now : ℤ) (t : Tables) → IsNumbered t → IsNumbered (add_package d json now t)
unfolding add_package
add_package-IsNumbered d json now t h = record {
  below =
      All-append_one _ t.key_packages (below_next t.next_id t.key_packages h.below) (omega arith);
  ids = Ids-append_one _ t.key_packages h.ids h.below;
}

abbrev conn : Tables → List Bool → Bool → Conn Tables
conn t fs p = record { tables = t; faults = fs; poisoned = p }

-- What every deletion of packages keeps, a lookup of packages keeps.
module _ (P : Tables → Type 0)
    (kept : (p : PackageRow → Bool) (t : Tables) → P t → P (delete_packages p t)) where
  keeps_rows :
      (rows : List PackageRow) (t : Tables) (fs : List Bool) (p : Bool)
      → P t
      → P (delete_rows rows (conn t fs p)).1.tables
  unfolding delete_rows
  keeps_rows [] t fs p h = h
  keeps_rows (r ∷ rows) t [] p h = keeps_rows rows _ [] p (kept (λ x. x.id == r.id) t h)
  keeps_rows (r ∷ rows) t (true ∷ fs) p h = h
  keeps_rows (r ∷ rows) t (false ∷ fs) p h = keeps_rows rows _ fs p (kept (λ x. x.id == r.id) t h)

  after_loop :
      {A : Type 0} (rows : List PackageRow) (a : A) (c : Conn Tables)
      → (((delete_rows rows >> pure a) c).1.tables ≡ (delete_rows rows c).1.tables)
  after_loop rows a c = ground arith

  keeps_take :
      (d : String) (now max_age : ℤ) (t : Tables) (fs : List Bool) (p : Bool)
      → P t
      → P (take_key_packages d now max_age (conn t fs p)).1.tables
  unfolding take_key_packages
  keeps_take d now max_age t fs true h = h
  keeps_take d now max_age t (true ∷ fs) false h = h
  keeps_take d now max_age t (false ∷ true ∷ fs) false h = kept _ t h
  keeps_take d now max_age t (false ∷ false ∷ fs) false h =
      rw (after_loop _ _ _) (keeps_rows _ _ fs false (kept _ t h))
  keeps_take d now max_age t (false ∷ []) false h =
      rw (after_loop _ _ _) (keeps_rows _ _ [] false (kept _ t h))
  keeps_take d now max_age t [] false h =
      rw (after_loop _ _ _) (keeps_rows _ _ [] false (kept _ t h))

  pub take_key_packages-keeps :
      (d : String) (now max_age : ℤ) (c : Conn Tables)
      → P c.tables
      → P (take_key_packages d now max_age c).1.tables
  take_key_packages-keeps d now max_age c = keeps_take d now max_age c.tables c.faults c.poisoned
