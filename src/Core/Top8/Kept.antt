-- ===== src/Core/Top8/Kept.antt =====
-- What every operation of core/src/top8.rs keeps of the stored list, whatever statements fail.
use ankai.Prelude.{
  ℕ, suc, ◌≤◌, String, string_discrete, true, false, not, length, length-append, keep,
  length-keep-le, Option, Option-cases, none, some, List, [], ◌∷◌, ◌++◌, ◌≡◌, refl, ◌⊎◌, inl, inr,
  arith,
}
use ankai.Prelude.Dict.{lookup, lookup-insert}
use ankai.Prelude.Results.{ok, Result-cases}
use ankai.Sql.{Conn, ◌>>◌}
use ankai.Core.Store.{Tables, Json, get_setting, set_setting, get}
use ankai.Core.Top8.{contains, swap, is_id, top8_setting_key, read_ids, write_ids, resolve}
use ankai.Core.Top8.Orders.{
  Nodup, contains-append, append-Nodup, contains-keep, keep-Nodup, length-swap, contains-swap,
  swap-Nodup,
}

-- A community that the device has.
abbrev pub Known : Tables → String → Type 0
Known t id = (n : String) × (lookup string_discrete id t.communities ≡ some n)

-- A list that may be featured.
pub record IsTop8 (t : Tables) (ids : List String) : Type 0 where
  pub bound : length ids ≤ 8
  pub distinct : Nodup ids
  pub known : (id : String) → contains id ids ≡ true → Known t id

module _ (json : Json (List String)) where
  -- The stored list.
  abbrev pub featured : Tables → Option (List String)
  featured t = elim (lookup string_discrete top8_setting_key t.settings) [
    | none ↦ some []
    | some text ↦ json.from_str text
  ]

  -- serde_json reads back what it writes.
  abbrev pub ReadsBack : Type 0
  ReadsBack =
      (ids : List String) (text : String)
      → json.to_string ids ≡ some text
      → json.from_str text ≡ some ids

  abbrev pub Sound : Tables → Type 0
  Sound t = (ids : List String) × (featured t ≡ some ids) × IsTop8 t ids

  -- Nothing is written, or one list that may be featured.
  abbrev pub Wrote : Tables → Tables → Type 0
  Wrote s t =
      (t ≡ s)
      ⊎ ((ids : List String) × (featured t ≡ some ids)
          × IsTop8 s ids
          × (t.communities ≡ s.communities))

  pub Sound-Wrote : (s t : Tables) → Sound s → Wrote s t → Sound t
  Sound-Wrote s t h (inl e) = rw e h
  Sound-Wrote s t h (inr (ids, e, g, k)) = (
    ids,
    e,
    record { bound = g.bound; distinct = g.distinct; known = λ id m. rw k (g.known id m) },
  )

  pub read_ids_frame : (c : Conn Tables) → (read_ids json c).1.tables ≡ c.tables
  unfolding read_ids get_setting
  read_ids_frame c = ground arith

  pub read_ids_lem :
      (c : Conn Tables) {ids : List String}
      → (read_ids json c).0 ≡ ok ids
      → featured c.tables ≡ some ids
  unfolding read_ids get_setting
  read_ids_lem c h = ground arith

  pub resolve_frame : (ids : List String) (c : Conn Tables) → (resolve ids c).1.tables ≡ c.tables
  unfolding resolve get
  resolve_frame [] c = refl
  resolve_frame (id ∷ ids) c = ground (arith, resolve_frame ids (get id c).1)

  write_ids_lem :
      ReadsBack
      → (ids : List String) (c : Conn Tables)
      → ((write_ids json ids c).1.tables ≡ c.tables)
        ⊎ ((featured (write_ids json ids c).1.tables ≡ some ids)
            × ((write_ids json ids c).1.tables.communities ≡ c.tables.communities))
  unfolding write_ids set_setting
  write_ids_lem back ids c = elim (Option-cases (json.to_string ids)) [
    | inl e ↦ inl (ground arith)
    | inr (text, e) ↦ ground (
      arith,
      back ids text e,
      lookup-insert string_discrete top8_setting_key top8_setting_key text c.tables.settings,
    )
  ]

  -- Writing a list that may be featured, from where the tables were read.
  pub write_ids-Wrote :
      ReadsBack
      → (s : Tables) (ids : List String) (c : Conn Tables) → c.tables ≡ s
      → IsTop8 s ids
      → Wrote s (write_ids json ids c).1.tables
  write_ids-Wrote back s ids c e g = elim (write_ids_lem back ids c) [
    | inl h ↦ inl (ground arith)
    | inr (h, k) ↦ inr (ids, h, g, ground arith)
  ]

  pub remove-IsTop8 :
      (t : Tables) (id : String) (ids : List String)
      → IsTop8 t ids
      → IsTop8 t (keep (λ x. not (is_id x id)) ids)
  remove-IsTop8 t id ids g = record {
    bound = ground (arith, length-keep-le (λ x. not (is_id x id)) ids, g.bound);
    distinct = keep-Nodup (λ x. not (is_id x id)) ids g.distinct;
    known = λ x h. g.known x (contains-keep (λ x. not (is_id x id)) x ids h);
  }

  pub swap-IsTop8 :
      (t : Tables) (i : ℕ) (ids : List String) → IsTop8 t ids → IsTop8 t (swap i (suc i) ids)
  swap-IsTop8 t i ids g = record {
    bound = ground (arith, length-swap i ids, g.bound);
    distinct = swap-Nodup i ids g.distinct;
    known = λ x h. g.known x (rw contains-swap at h);
  }

  pub add-IsTop8 :
      (t : Tables) (id : String) (ids : List String)
      → IsTop8 t ids
      → Known t id
      → contains id ids ≡ false
      → length ids ≤ 7
      → IsTop8 t (ids ++ id ∷ [])
  add-IsTop8 t id ids g k absent h = record {
    bound = ground (arith, length-append ids (id ∷ []));
    distinct = append-Nodup id ids absent g.distinct;
    known = λ x m. elim (string_discrete id x) [
      | yes e ↦ rw (← e) k
      | no n ↦ g.known x (ground (arith, contains-append x id ids))
    ];
  }

  pub save-Wrote :
      ReadsBack
      → (s : Tables) (ids : List String) (c : Conn Tables) → c.tables ≡ s
      → IsTop8 s ids
      → Wrote s ((write_ids json ids >> resolve ids) c).1.tables
  save-Wrote back s ids c e g = elim (Result-cases (write_ids json ids c).0) [
    | inl (x, failed) ↦
        let same : ((write_ids json ids >> resolve ids) c).1.tables
            ≡ (write_ids json ids c).1.tables =
          ground arith in
        rw same (write_ids-Wrote back s ids c e g)
    | inr (x, done) ↦
        let same : ((write_ids json ids >> resolve ids) c).1.tables
            ≡ (write_ids json ids c).1.tables =
          ground (arith, resolve_frame ids (write_ids json ids c).1) in
        rw same (write_ids-Wrote back s ids c e g)
  ]

  pub read-IsTop8 :
      (c : Conn Tables) {read : List String}
      → Sound c.tables
      → (read_ids json c).0 ≡ ok read
      → IsTop8 c.tables read
  read-IsTop8 c {read} sound r =
      let same : read ≡ sound.0 = ground (arith, read_ids_lem c r, sound.1) in rw same sound.2
