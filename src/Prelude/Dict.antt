-- ===== src/Prelude/Dict.antt =====
-- Tables keyed by a type with decidable equality: what hash maps and SQL tables with a primary
-- key do.
use mathlib.Core.Logic.{ite}
use mathlib.Core.Option
use mathlib.Core.Option.{some-injective}
use mathlib.Core.Path.{subst}
use ankai.Prelude.{
  ◌≡◌, refl, List, [], ◌∷◌, ◌++◌, Option, none, some, arith, keep, true, false, Bool, All,
}

module _ {ℓ} {K V : Type ℓ} (dec : Discrete K) where
  unfoldable pub lookup : K → List (K × V) → Option V
  lookup k [] = none
  lookup k ((j, v) ∷ m) = ite (dec j k) (some v) (lookup k m)

  -- Insert or replace.
  unfoldable pub insert : K → V → List (K × V) → List (K × V)
  insert k v [] = (k, v) ∷ []
  insert k v ((j, w) ∷ m) = ite (dec j k) ((k, v) ∷ m) ((j, w) ∷ insert k v m)

  -- Apply a change to the row of a key, if there is one.
  unfoldable pub update : K → (V → V) → List (K × V) → List (K × V)
  update k f [] = []
  update k f ((j, w) ∷ m) = ite (dec j k) ((j, f w) ∷ m) ((j, w) ∷ update k f m)

  unfoldable pub erase : K → List (K × V) → List (K × V)
  erase k [] = []
  erase k ((j, w) ∷ m) = ite (dec j k) (erase k m) ((j, w) ∷ erase k m)

  -- A plain SQL `INSERT`: refused where the primary key is present.
  unfoldable pub insert_new : K → V → List (K × V) → Option (List (K × V))
  insert_new k v m = elim (lookup k m) [ none ↦ some (m ++ (k, v) ∷ []) | some _ ↦ none ]

  -- No key twice.
  abbrev pub Distinct : List (K × V) → Type ℓ
  Distinct [] = Unit
  Distinct ((k, v) ∷ m) = (lookup k m ≡ none) × Distinct m

  pub lookup-insert :
      (j k : K) (v : V) (m : List (K × V))
      → lookup j (insert k v m) ≡ ite (dec k j) (some v) (lookup j m)
  unfolding lookup insert
  lookup-insert j k v [] = refl
  lookup-insert j k v ((i, w) ∷ m) = ground (arith, lookup-insert j k v m)

  pub lookup-erase :
      (j k : K) (m : List (K × V)) → lookup j (erase k m) ≡ ite (dec k j) none (lookup j m)
  unfolding lookup erase
  lookup-erase j k [] = ground arith
  lookup-erase j k ((i, w) ∷ m) = ground (arith, lookup-erase j k m)

  pub lookup-update :
      (j k : K) (f : V → V) (m : List (K × V))
      → lookup j (update k f m) ≡ ite (dec k j) (Option.map f (lookup j m)) (lookup j m)
  unfolding lookup update
  lookup-update j k f [] = ground arith
  lookup-update j k f ((i, w) ∷ m) = ground (arith, lookup-update j k f m)

  pub lookup-append_new :
      (j k : K) (v : V) (m : List (K × V))
      → lookup k m ≡ none
      → lookup j (m ++ (k, v) ∷ []) ≡ ite (dec k j) (some v) (lookup j m)
  unfolding lookup
  lookup-append_new j k v [] h = refl
  lookup-append_new j k v ((i, w) ∷ m) h = ground (arith, lookup-append_new j k v m)

  pub insert-Distinct : (k : K) (v : V) (m : List (K × V)) → Distinct m → Distinct (insert k v m)
  unfolding lookup insert
  insert-Distinct k v [] h = (refl, tt)
  insert-Distinct k v ((i, w) ∷ m) h = ground (arith, insert-Distinct k v m, lookup-insert i k v m)

  pub erase-Distinct : (k : K) (m : List (K × V)) → Distinct m → Distinct (erase k m)
  unfolding erase
  erase-Distinct k [] h = tt
  erase-Distinct k ((i, w) ∷ m) h = ground (arith, erase-Distinct k m, lookup-erase i k m)

  pub update-Distinct :
      (k : K) (f : V → V) (m : List (K × V)) → Distinct m → Distinct (update k f m)
  unfolding update
  update-Distinct k f [] h = tt
  update-Distinct k f ((i, w) ∷ m) h = ground (arith, update-Distinct k f m, lookup-update i k f m)

  pub append_new-Distinct :
      (k : K) (v : V) (m : List (K × V))
      → lookup k m ≡ none
      → Distinct m
      → Distinct (m ++ (k, v) ∷ [])
  unfolding lookup
  append_new-Distinct k v [] h d = (refl, tt)
  append_new-Distinct k v ((i, w) ∷ m) h d =
      ground (arith, append_new-Distinct k v m, lookup-append_new i k v m)

  -- What a lookup finds after the rows that fail a test are gone.
  abbrev pub passing : (K × V → Bool) → K → Option V → Option V
  passing p k none = none
  passing p k (some v) = elim (p (k, v)) [ true ↦ some v | false ↦ none ]

  pub lookup-keep_absent :
      (p : K × V → Bool) (j : K) (m : List (K × V)) → lookup j m ≡ none → lookup j (keep p m) ≡ none
  unfolding lookup
  lookup-keep_absent p j [] h = refl
  lookup-keep_absent p j ((i, w) ∷ m) h = ground (arith, lookup-keep_absent p j m)

  pub lookup-keep :
      (p : K × V → Bool) (j : K) (m : List (K × V))
      → Distinct m
      → lookup j (keep p m) ≡ passing p j (lookup j m)
  unfolding lookup
  lookup-keep p j [] d = refl
  lookup-keep p j ((i, w) ∷ m) d = ground (arith, lookup-keep p j m, lookup-keep_absent p j m)

  pub keep-Distinct : (p : K × V → Bool) (m : List (K × V)) → Distinct m → Distinct (keep p m)
  keep-Distinct p [] d = tt
  keep-Distinct p ((i, w) ∷ m) d = ground (arith, keep-Distinct p m, lookup-keep_absent p i m)

  -- A property of every row.
  pub All-insert {κ} :
      (P : K × V → Type κ) (k : K) (v : V) (m : List (K × V))
      → P (k, v)
      → All P m
      → All P (insert k v m)
  unfolding insert
  All-insert P k v [] p a = (p, tt)
  All-insert P k v ((i, w) ∷ m) p a =
      elim (dec i k) as (λ d. All P (ite d ((k, v) ∷ m) ((i, w) ∷ insert k v m))) [
        | yes e ↦ (p, a.1)
        | no n ↦ (a.0, All-insert P k v m p a.1)
      ]

  pub All-update {κ} :
      (P : K × V → Type κ) (k : K) (f : V → V) (m : List (K × V))
      → ((j : K) (v : V) → P (j, v) → P (j, f v))
      → All P m
      → All P (update k f m)
  unfolding update
  All-update P k f [] h a = tt
  All-update P k f ((i, w) ∷ m) h a =
      elim (dec i k) as (λ d. All P (ite d ((i, f w) ∷ m) ((i, w) ∷ update k f m))) [
        | yes e ↦ (h i w a.0, a.1)
        | no n ↦ (a.0, All-update P k f m h a.1)
      ]

  pub All-erase {κ} : (P : K × V → Type κ) (k : K) (m : List (K × V)) → All P m → All P (erase k m)
  unfolding erase
  All-erase P k [] a = tt
  All-erase P k ((i, w) ∷ m) a =
      elim (dec i k) as (λ d. All P (ite d (erase k m) ((i, w) ∷ erase k m))) [
        | yes e ↦ All-erase P k m a.1
        | no n ↦ (a.0, All-erase P k m a.1)
      ]

  pub All-lookup {κ} :
      (P : K × V → Type κ) (k : K) (m : List (K × V)) {v : V}
      → All P m
      → lookup k m ≡ some v
      → P (k, v)
  unfolding lookup
  All-lookup P k [] a h = absurd (cc)
  All-lookup P k ((i, w) ∷ m) {v} a h =
      elim (dec i k) as (λ d. ite d (some w) (lookup k m) ≡ some v → P (k, v)) [
        | yes e ↦ λ q. subst (λ x. P x) (λ t. (e t, some-injective w v q t)) a.0
        | no n ↦ λ q. All-lookup P k m a.1 q
      ]
        h
