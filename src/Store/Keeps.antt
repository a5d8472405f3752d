-- ===== src/Store/Keeps.antt =====
-- Invariants of the database through every statement, chain and transaction, however they end.
use mxlrc_go.Common.{arith, if◌then◌else◌, ◌≡◌, refl, sym, subst, Bool, true, false, List, [], ◌∷◌}
use mxlrc_go.Store.Session.{
  Error, Result, lift, throw, query, unchanged, ok, err, Session, M, exec, transaction, and_then,
  rollback, settle, run_statement, ◌>>=◌, pure, boundary, closing, bracket,
}
use mxlrc_go.Store.Outcomes.{exec_unit_db}

module _ {S : Type 0} (P : S → Type 0) where
  -- `m` leaves the invariant true if it finds it so.
  abbrev pub Keeps : {A : Type 0} → M S A → Type 0
  Keeps m = (s : Session S) → P s.db → P (m s).1.db

  -- A statement's effect, where it has one, keeps the invariant.
  abbrev pub Preserves : {A : Type 0} → (S → Result (A × S)) → Type 0
  Preserves {A} f = (db : S) (a : A) (db' : S) → P db → f db ≡ ok (a, db') → P db'

module _ {S : Type 0} (P : S → Type 0) where
  module _ {A : Type 0} where
    settle-P :
        (db : S) (rest : List Bool) (r : Result (A × S))
        → ((a : A) (db' : S) → r ≡ ok (a, db') → P db')
        → P db
        → P (settle db rest r).1.db
    settle-P db rest (ok (a, db')) keep h = keep a db' refl
    settle-P db rest (err e) keep h = h

    run_statement-P :
        (f : S → Result (A × S)) (db : S) (faults : List Bool)
        → Preserves P f
        → P db
        → P (run_statement f db faults).1.db
    run_statement-P f db [] keep h = settle-P db [] (f db) (λ a db'. keep db a db' h) h
    run_statement-P f db (true ∷ rest) keep h = h
    run_statement-P f db (false ∷ rest) keep h =
        settle-P db rest (f db) (λ a db'. keep db a db' h) h

    pub exec-Keeps : (f : S → Result (A × S)) → Preserves P f → Keeps P (exec f)
    unfolding exec
    exec-Keeps f keep s h = run_statement-P f s.db s.faults keep h

    rollback-P :
        (db : S) (r : Result A) (t : Session S) → P db → P t.db → P (rollback db (r, t)).1.db
    rollback-P db (ok a) t h k = k
    rollback-P db (err e) t h k = h

  module _ {A B : Type 0} where
    and_then-P :
        (f : A → M S B) (r : Result A) (t : Session S)
        → ((a : A) → Keeps P (f a))
        → P t.db
        → P (and_then f r t).1.db
    and_then-P f (ok a) t keep h = keep a t h
    and_then-P f (err e) t keep h = h

    pub >>=-Keeps :
        (m : M S A) (f : A → M S B) → Keeps P m → ((a : A) → Keeps P (f a)) → Keeps P (m >>= f)
    >>=-Keeps m f km kf s h = and_then-P f (m s).0 (m s).1 kf (km s h)

  boundary-Keeps : Keeps P boundary
  boundary-Keeps s h = subst P (sym (exec_unit_db s)) h

  module _ {A : Type 0} where
    bracket-Keeps : (body : M S A) → Keeps P body → Keeps P (bracket body)
    bracket-Keeps body keep =
        >>=-Keeps boundary (λ _. body >>= closing) boundary-Keeps
          λ _.
            >>=-Keeps body closing keep
              λ a. >>=-Keeps boundary (λ _. pure a) boundary-Keeps (λ _ t k. k)

    -- A transaction keeps what its body keeps: a rollback brings the old state back.
    pub transaction-Keeps : (body : M S A) → Keeps P body → Keeps P (transaction body)
    unfolding transaction
    transaction-Keeps body keep s h =
        rollback-P s.db (bracket body s).0 (bracket body s).1 h (bracket-Keeps body keep s h)

  pub throw-Keeps : (A : Type 0) (e : Error) → Keeps P (throw {A = A} e)
  throw-Keeps A e s h = h

  module _ {A : Type 0} where
    pub pure-Keeps : (a : A) → Keeps P (pure a)
    pure-Keeps a s h = h

    pub lift-Keeps : (r : Result A) → Keeps P (lift r)
    lift-Keeps r s h = h

    pub if-Keeps : (b : Bool) (m k : M S A) → Keeps P m → Keeps P k → Keeps P (if b then m else k)
    if-Keeps true m k km kk = km
    if-Keeps false m k km kk = kk

    unchanged-P :
        (db : S) (r : Result A) (a : A) (db' : S) → P db → unchanged db r ≡ ok (a, db') → P db'
    unchanged-P db (ok b) a db' h e = subst P {x = db} (ground arith) h
    unchanged-P db (err _) a db' h e = absurd (ground arith)

    pub query-Keeps : (f : S → Result A) → Keeps P (query f)
    query-Keeps f =
        exec-Keeps (λ db. unchanged db (f db)) λ db a db' h e. unchanged-P db (f db) a db' h e
