-- ===== src/Store/Triples.antt =====
-- What holds of the state after an action that succeeds, and after one that fails.
use mxlrc_go.Common.{Bool, true, false, List, [], ◌∷◌, ◌≡◌, refl}
use mxlrc_go.Store.Session.{
  Result, ok, err, Session, M, exec, run_statement, settle, attempt, and_then, ◌>>=◌,
}

module _ {S : Type 0} where
  -- The one condition of a success, the other of a failure.
  abbrev pub Outcome : {A : Type 0} → (S → Type 0) → (S → Type 0) → Result A → S → Type 0
  Outcome Q E (ok a) db = Q db
  Outcome Q E (err e) db = E db

  abbrev pub Ends : {A : Type 0} → (S → Type 0) → M S A → (S → Type 0) → (S → Type 0) → Type 0
  Ends P m Q E = (s : Session S) → P s.db → Outcome Q E (m s).0 (m s).1.db

  module _ {A : Type 0} (Q E : S → Type 0) where
    settle-Outcome :
        (db : S) (rest : List Bool) (r : Result (A × S))
        → ((a : A) (db' : S) → r ≡ ok (a, db') → Q db')
        → E db
        → Outcome Q E (settle db rest r).0 (settle db rest r).1.db
    settle-Outcome db rest (ok (a, db')) h k = h a db' refl
    settle-Outcome db rest (err e) h k = k

    run_statement-Outcome :
        (f : S → Result (A × S)) (db : S) (faults : List Bool)
        → ((a : A) (db' : S) → f db ≡ ok (a, db') → Q db')
        → E db
        → Outcome Q E (run_statement f db faults).0 (run_statement f db faults).1.db
    run_statement-Outcome f db [] h k = settle-Outcome db [] (f db) h k
    run_statement-Outcome f db (true ∷ rest) h k = k
    run_statement-Outcome f db (false ∷ rest) h k = settle-Outcome db rest (f db) h k

    pub exec-Ends :
        (P : S → Type 0) (f : S → Result (A × S))
        → ((db : S) (a : A) (db' : S) → P db → f db ≡ ok (a, db') → Q db')
        → ((db : S) → P db → E db)
        → Ends P (exec f) Q E
    unfolding exec
    exec-Ends P f h k s p =
        run_statement-Outcome f s.db s.faults (λ a db' e. h s.db a db' p e) (k s.db p)

  module _ {A B : Type 0} (P Q R E : S → Type 0) where
    and_then-Outcome :
        (f : A → M S B) (r : Result A) (t : Session S)
        → ((a : A) → Ends Q (f a) R E)
        → Outcome Q E r t.db
        → Outcome R E (and_then f r t).0 (and_then f r t).1.db
    and_then-Outcome f (ok a) t h k = h a t k
    and_then-Outcome f (err e) t h k = k

    pub >>=-Ends :
        (m : M S A) (f : A → M S B)
        → Ends P m Q E
        → ((a : A) → Ends Q (f a) R E)
        → Ends P (m >>= f) R E
    >>=-Ends m f h k s p = and_then-Outcome f (m s).0 (m s).1 k (h s p)

  -- An attempt succeeds, after what its action may leave.
  pub attempt-Ends :
      {A : Type 0} (P Q E : S → Type 0) (m : M S A) → Ends P m Q Q → Ends P (attempt m) Q E
  attempt-Ends {A} P Q E m h s p = either (m s).0 (h s p)
    where
      either : (r : Result A) → Outcome Q Q r (m s).1.db → Q (m s).1.db
      either (ok a) q = q
      either (err e) q = q
