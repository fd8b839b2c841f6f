-- ===== src/Sql.antt =====
-- What the servers and the client see of SQLite through rusqlite: a connection holds the tables,
-- and every statement may fail. A failed statement changes nothing. The schedule `faults` says
-- which of the coming statements fail (past its end none does), so a theorem over every
-- connection is one over every pattern of failures. `poisoned` is the state of the mutex.
use ankai.Prelude.{ℕ, Bool, true, false, Option, none, some, List, [], ◌∷◌}
use ankai.Prelude.Results.{Result, ok, err}

pub record Conn (T : Type 0) : Type 0 where
  pub tables : T
  pub faults : List Bool
  pub poisoned : Bool

abbrev pub Action : Type 0 → Type 0 → Type 0 → Type 0
Action T E A = Conn T → Result E A × Conn T

-- rusqlite's error, of which the code never looks at the content.
pub data SqlError : Type 0 where
  sqlite : SqlError

module _ {T E A : Type 0} where
  abbrev pub pure : A → Action T E A
  pure a c = (ok a, c)

  abbrev pub raise : E → Action T E A
  raise e c = (err e, c)

infixl 5 ◌>>=◌ ◌>>◌
abbrev pub ◌>>=◌ : {T E A B : Type 0} → Action T E A → (A → Action T E B) → Action T E B
◌>>=◌ m f c = let (r, c') = m c in elim r [ ok a ↦ f a c' | err e ↦ (err e, c') ]

abbrev pub ◌>>◌ : {T E B : Type 0} → Action T E (Unit {0}) → Action T E B → Action T E B
m >> k = m >>= λ _. k

-- A branch of the code on a test, and on an option.
abbrev pub branch : {T E A : Type 0} → Bool → Action T E A → Action T E A → Action T E A
branch b m k c = elim b [ true ↦ m c | false ↦ k c ]

abbrev pub on_option :
    {T E A B : Type 0} → Option B → (B → Action T E A) → Action T E A → Action T E A
on_option o f m c = elim o [ some b ↦ f b c | none ↦ m c ]

-- `?` through `From`, and `map_err`.
abbrev pub map_err : {T E F A : Type 0} → (E → F) → Action T E A → Action T F A
map_err g m c = let (r, c') = m c in elim r [ ok a ↦ (ok a, c') | err e ↦ (err (g e), c') ]

abbrev pub now_fails : List Bool → Bool
now_fails [] = false
now_fails (b ∷ _) = b

abbrev pub later : List Bool → List Bool
later [] = []
later (_ ∷ bs) = bs

module _ {T : Type 0} where
  -- The connection once a statement has been run.
  abbrev pub step : Conn T → Conn T
  step c = record c { faults = later c.faults }

  module _ {A : Type 0} where
    -- A `SELECT` of any number of rows.
    abbrev pub query : (T → A) → Action T SqlError A
    query f c = elim (now_fails c.faults) [
      | true ↦ (err sqlite, step c)
      | false ↦ (ok (f c.tables), step c)
    ]

    -- `query_row(…).ok()`: a failure reads as no row.
    abbrev pub query_ok : {E : Type 0} → (T → Option A) → Action T E (Option A)
    query_ok f c = (ok (elim (now_fails c.faults) [ true ↦ none | false ↦ f c.tables ]), step c)

  abbrev stored : Conn T → Option T → Result SqlError (Unit {0}) × Conn T
  stored c none = (err sqlite, step c)
  stored c (some t) = (ok tt, record c { tables = t; faults = later c.faults })

  -- A statement that writes; `none` is a constraint that it would break.
  abbrev pub execute : (T → Option T) → Action T SqlError (Unit {0})
  execute f c = elim (now_fails c.faults) [
    | true ↦ (err sqlite, step c)
    | false ↦ stored c (f c.tables)
  ]

  -- Taking the mutex; the error is the caller's.
  abbrev pub lock : {E : Type 0} → E → Action T E (Unit {0})
  lock e c = elim c.poisoned [ true ↦ (err e, c) | false ↦ (ok tt, c) ]

  -- `execute`, where the code reads how many rows were changed.
  abbrev pub execute_count : (T → ℕ × T) → Action T SqlError ℕ
  execute_count f c = elim (now_fails c.faults) [
    | true ↦ (err sqlite, step c)
    | false ↦ (ok (f c.tables).0, record c { tables = (f c.tables).1; faults = later c.faults })
  ]
