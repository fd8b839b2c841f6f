-- ===== src/Core/Playback/Listing.antt =====
-- The order of the resume points in the list of core/src/playback_progress.rs.
use ankai.Prelude.{
  ℕ, zero, suc, String, utf8, Bool, true, false, not, ◌&&◌, if◌then◌else◌, List, [], ◌∷◌,
}
use Prim.Native.Nat.{compare, Ordering}
use ankai.Core.Playback.Checks.{lt_f64, zero_f64, Row, DbKey}

-- The order of texts in SQLite: of their bytes.
unfoldable pub compare_bytes : List ℕ → List ℕ → Ordering
compare_bytes [] [] = Ordering.eq
compare_bytes [] (b ∷ bs) = Ordering.lt
compare_bytes (a ∷ as') [] = Ordering.gt
compare_bytes (a ∷ as') (b ∷ bs) =
    let rest = compare_bytes as' bs in
    elim (compare a b) [
      | Ordering.lt ↦ Ordering.lt
      | Ordering.gt ↦ Ordering.gt
      | Ordering.eq ↦ rest
    ]

abbrev pub compare_text : String → String → Ordering
compare_text s t = compare_bytes (utf8 s) (utf8 t)

-- `ORDER BY updated_at DESC, provider ASC, media_id ASC, episode_id ASC`.
unfoldable pub comes_first : DbKey × Row → DbKey × Row → Bool
comes_first (k, r) (l, s) = elim (compare s.updated_at r.updated_at) [
  | Ordering.lt ↦ true
  | Ordering.gt ↦ false
  | Ordering.eq ↦ elim (compare_text k.provider l.provider) [
    | Ordering.lt ↦ true
    | Ordering.gt ↦ false
    | Ordering.eq ↦ elim (compare_text k.media_id l.media_id) [
      | Ordering.lt ↦ true
      | Ordering.gt ↦ false
      | Ordering.eq ↦ elim (compare_text k.episode_id l.episode_id) [
        | Ordering.gt ↦ false
        | _ ↦ true
      ]
    ]
  ]
]

unfoldable pub place : DbKey × Row → List (DbKey × Row) → List (DbKey × Row)
place row [] = row ∷ []
place row (next ∷ rows) =
    let rest = place row rows in if comes_first row next then row ∷ next ∷ rows else next ∷ rest

unfoldable pub newest_first : List (DbKey × Row) → List (DbKey × Row)
newest_first [] = []
newest_first (row ∷ rows) = place row (newest_first rows)

abbrev pub is_resumable : DbKey × Row → Bool
is_resumable (key, row) =
    not row.completed
    && (lt_f64 zero_f64 row.position_seconds && lt_f64 row.position_seconds row.duration_seconds)

abbrev pub take {ℓ} : {A : Type ℓ} → ℕ → List A → List A
take zero xs = []
take (suc n) [] = []
take (suc n) (x ∷ xs) = x ∷ take n xs
