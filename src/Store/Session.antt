-- ===== src/Store/Session.antt =====
-- database/sql as the repositories use it. A session is the committed or pending state of the
-- database and what the next statements meet: `true` is a statement that the driver refuses, an
-- exhausted list is a driver that refuses nothing more.
use mxlrc_go.Common.{Bool, true, false, List, [], ◌∷◌}

-- The errors by what errors.Is tells apart; `sql_failure` is any error of the driver itself.
pub data Error : Type 0 where
  no_rows sql_failure constraint bad_row not_retryable unsupported_status : Error
  empty_path empty_name ambiguous_name no_destination : Error
  file_exists no_file nothing_to_save : Error

pub data Result (A : Type 0) : Type 0 where
  ok : A → Result A
  err : Error → Result A

pub record Session (S : Type 0) : Type 0 where
  pub db : S
  pub faults : List Bool

abbrev pub M : Type 0 → Type 0 → Type 0
M S A = Session S → Result A × Session S

module _ {S : Type 0} where
  module _ {A : Type 0} where
    abbrev pub pure : A → M S A
    pure a s = (ok a, s)

    abbrev pub throw : Error → M S A
    throw e s = (err e, s)

    abbrev pub lift : Result A → M S A
    lift r s = (r, s)

    abbrev pub settle : S → List Bool → Result (A × S) → Result A × Session S
    settle db rest (ok (a, db')) = (ok a, record { db = db'; faults = rest })
    settle db rest (err e) = (err e, record { db = db; faults = rest })

    abbrev pub run_statement : (S → Result (A × S)) → S → List Bool → Result A × Session S
    run_statement f db [] = settle db [] (f db)
    run_statement f db (true ∷ rest) = (err sql_failure, record { db = db; faults = rest })
    run_statement f db (false ∷ rest) = settle db rest (f db)

    -- One statement: all of its effect or none.
    unfoldable pub exec : (S → Result (A × S)) → M S A
    exec f s = run_statement f s.db s.faults

    abbrev pub unchanged : S → Result A → Result (A × S)
    unchanged db (ok a) = ok (a, db)
    unchanged db (err e) = err e

    -- A statement that only reads.
    abbrev pub query : (S → Result A) → M S A
    query f = exec (λ db. unchanged db (f db))

    -- An error as a value, for code that looks at it.
    abbrev pub attempt : M S A → M S (Result A)
    attempt m s = let (r, s') = m s in (ok r, s')

  module _ {A B : Type 0} where
    abbrev pub and_then : (A → M S B) → Result A → Session S → Result B × Session S
    and_then f (ok a) s = f a s
    and_then f (err e) s = (err e, s)

    infixl 5 ◌>>=◌ ◌>>◌
    abbrev pub ◌>>=◌ : M S A → (A → M S B) → M S B
    m >>= f = λ s. let (r, s') = m s in and_then f r s'

    abbrev pub ◌>>◌ : M S A → M S B → M S B
    m >> k = m >>= λ _. k

  -- BeginTx and Commit: statements without rows, which the driver may refuse too.
  abbrev pub boundary : M S (Unit {0})
  boundary = exec (λ db. ok (tt, db))

  module _ {A : Type 0} where
    abbrev pub rollback : S → Result A × Session S → Result A × Session S
    rollback db (ok a, s) = (ok a, s)
    rollback db (err e, s) = (err e, record s { db = db })

    abbrev pub closing : A → M S A
    closing a = do boundary; pure a

    abbrev pub bracket : M S A → M S A
    bracket body = do boundary; a ← body; closing a

    -- BeginTx, the body, Commit, and the deferred Rollback on every error path.
    unfoldable pub transaction : M S A → M S A
    transaction body s = rollback s.db (bracket body s)
