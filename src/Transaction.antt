-- ===== src/Transaction.antt =====
-- A request as a step on a database of any shape. Every service is one `@transaction.atomic` block: it
-- either commits, and its outcome carries the new database, or raises, and what it wrote is rolled
-- back. So an error carries no database. Row locks (`select_for_update`) make such steps sequential.
use brandy_manager_back.Prelude.{
  ℕ, String, Option, none, some, List, Bool, true, false, is_some, ◌≡◌, arith, inl, inr,
}
use brandy_manager_back.Result.{Error, validation_error, Result, ok, err, Result-cases}
use brandy_manager_back.Table.{Row, get}

abbrev pub Transaction : Type 0 → Type 0 → Type 0
Transaction S A = S → Result (A × S)

infixl 5 ◌>>=◌ ◌>>◌
abbrev pub ◌>>=◌ : {S A B : Type 0} → Transaction S A → (A → Transaction S B) → Transaction S B
◌>>=◌ m f db = elim (m db) [ err e ↦ err e | ok p ↦ f p.0 p.1 ]

abbrev pub ◌>>◌ : {S A B : Type 0} → Transaction S A → Transaction S B → Transaction S B
m >> k = m >>= λ _. k

module _ {S A : Type 0} where
  abbrev pub return : A → Transaction S A
  return a db = ok (a, db)

  abbrev pub raise : Error → Transaction S A
  raise e db = err e

  abbrev pub gets : (S → A) → Transaction S A
  gets f db = ok (f db, db)

  -- `.get(...)`
  abbrev pub or_raise : Option A → Error → Transaction S A
  or_raise none e db = err e
  or_raise (some a) e db = ok (a, db)

  -- A check that reads the database and writes nothing.
  abbrev pub inspect : (S → Result A) → Transaction S A
  inspect f db = elim (f db) [ err e ↦ err e | ok a ↦ ok (a, db) ]

module _ {S : Type 0} where
  abbrev pub modify : (S → S) → Transaction S (Unit {0})
  modify f db = ok (tt, f db)

  abbrev pub raise_if : Bool → Error → Transaction S (Unit {0})
  raise_if true e db = err e
  raise_if false e db = ok (tt, db)

  -- `full_clean`: the columns are checked first, then the model's `clean` and its constraints.
  abbrev pub full_clean : Bool → Option String → Transaction S (Unit {0})
  full_clean false field db = err (validation_error "columns")
  full_clean true none db = ok (tt, db)
  full_clean true (some field) db = err (validation_error field)

  -- A new row's primary key must be unused; `full_clean` checks that too.
  abbrev pub assert_new : {A : Type 0} ⦃r : Row A⦄ → ℕ → List A → Transaction S (Unit {0})
  assert_new k rows = raise_if (is_some (get k rows)) (validation_error "id")

-- A step whose value is dropped ran.
pub ran :
    {S A : Type 0} (m : Transaction S A) {db db' : S} {u : Unit {0}}
    → (m >> return tt) db ≡ ok (u, db')
    → (a : A) × (m db ≡ ok (a, db'))
ran m {db} {db'} h = elim (Result-cases (m db)) [
  | inl (e, q) ↦ absurd (ground arith)
  | inr ((a, db1), q) ↦ (a, ground arith)
]
