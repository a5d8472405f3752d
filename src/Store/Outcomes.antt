-- ===== src/Store/Outcomes.antt =====
-- How statements, chains of them and transactions end, whatever the driver refuses.
use mxlrc_go.Common.{inl, inr, ◌⊎◌, ◌≡◌, refl, ap, ◌∙◌, arith}
use mxlrc_go.Store.Session.{
  pure, closing, sql_failure, unchanged, query, Error, Result, ok, err, Session, M, exec,
  transaction, and_then, ◌>>=◌, rollback, boundary, bracket,
}

module _ {S A : Type 0} where
  -- A statement that succeeds has had its effect.
  pub exec-eq-ok :
      (f : S → Result (A × S)) (s : Session S) {a : A}
      → (exec f s).0 ≡ ok a
      → f s.db ≡ ok (a, (exec f s).1.db)
  unfolding exec
  exec-eq-ok f s h = ground arith

  -- A statement that fails has had none, and fails for a reason of its own or the driver's.
  pub exec_error :
      (f : S → Result (A × S)) (s : Session S) {e : Error}
      → (exec f s).0 ≡ err e
      → (exec f s).1.db ≡ s.db
  unfolding exec
  exec_error f s h = ground arith

  -- A statement fails as the driver makes it or for a reason of its own.
  pub exec-eq-err :
      (f : S → Result (A × S)) (s : Session S) {e : Error}
      → (exec f s).0 ≡ err e
      → (e ≡ sql_failure) ⊎ (f s.db ≡ err e)
  unfolding exec
  exec-eq-err f s h = ground arith

  unchanged-eq-err : (db : S) (r : Result A) {e : Error} → unchanged db r ≡ err e → r ≡ err e
  unchanged-eq-err db (ok b) h = absurd (ground arith)
  unchanged-eq-err db (err e) h = ground arith

  pub query-eq-err :
      (f : S → Result A) (s : Session S) {e : Error}
      → (query f s).0 ≡ err e
      → (e ≡ sql_failure) ⊎ (f s.db ≡ err e)
  query-eq-err f s h = elim (exec-eq-err (λ db. unchanged db (f db)) s h) [
    | inl e ↦ inl e
    | inr e ↦ inr (unchanged-eq-err s.db (f s.db) e)
  ]

  pub unchanged-eq-ok :
      (db db' : S) (r : Result A) {a : A} → unchanged db r ≡ ok (a, db') → (r ≡ ok a) × (db' ≡ db)
  unchanged-eq-ok db db' (ok b) h = ground arith
  unchanged-eq-ok db db' (err e) h = absurd (ground arith)

  -- A query that succeeds has answered from the state that it leaves as it is.
  pub query-eq-ok :
      (f : S → Result A) (s : Session S) {a : A}
      → (query f s).0 ≡ ok a
      → (f s.db ≡ ok a) × ((query f s).1.db ≡ s.db)
  query-eq-ok f s h = unchanged-eq-ok s.db _ (f s.db) (exec-eq-ok (λ db. unchanged db (f db)) s h)

module _ {S A B : Type 0} where
  and_then-eq-err :
      (f : A → M S B) (r : Result A) (t : Session S) {e : Error}
      → (and_then f r t).0 ≡ err e
      → ((r ≡ err e) × ((and_then f r t).1 ≡ t)) ⊎ ((a : A) × (r ≡ ok a) × ((f a t).0 ≡ err e))
  and_then-eq-err f (ok a) t h = inr (a, refl, h)
  and_then-eq-err f (err e) t h = inl (cc, refl)

  -- A chain fails where one of its parts does.
  pub >>=-eq-err :
      (m : M S A) (f : A → M S B) (s : Session S) {e : Error}
      → ((m >>= f) s).0 ≡ err e
      → (((m s).0 ≡ err e) × (((m >>= f) s).1 ≡ (m s).1))
        ⊎ ((a : A) × ((m s).0 ≡ ok a) × ((f a (m s).1).0 ≡ err e))
  >>=-eq-err m f s h = and_then-eq-err f (m s).0 (m s).1 h

  and_then-eq-ok :
      (f : A → M S B) (r : Result A) (t : Session S) {b : B}
      → (and_then f r t).0 ≡ ok b
      → (a : A) × (r ≡ ok a) × ((f a t).0 ≡ ok b) × (and_then f r t ≡ f a t)
  and_then-eq-ok f (ok a) t h = (a, refl, h, refl)
  and_then-eq-ok f (err e) t h = absurd (cc)

  -- A chain succeeds when both of its parts do.
  pub >>=-eq-ok :
      (m : M S A) (f : A → M S B) (s : Session S) {b : B}
      → ((m >>= f) s).0 ≡ ok b
      → (a : A) × ((m s).0 ≡ ok a) × ((f a (m s).1).0 ≡ ok b) × ((m >>= f) s ≡ f a (m s).1)
  >>=-eq-ok m f s h = and_then-eq-ok f (m s).0 (m s).1 h

boundary-eq-err :
    {S : Type 0} (s : Session S) {e : Error} → (boundary s).0 ≡ err e → e ≡ sql_failure
boundary-eq-err s h = elim (exec-eq-err (λ db. ok (tt {0}, db)) s h) [
  | inl e ↦ e
  | inr e ↦ absurd (cc)
]

pub exec_unit_db : {S : Type 0} (s : Session S) → (boundary s).1.db ≡ s.db
unfolding exec
exec_unit_db s = ground arith

module _ {S A : Type 0} where
  rollback-eq-ok :
      (db : S) (r : Result A) (t : Session S) {a : A}
      → (rollback db (r, t)).0 ≡ ok a
      → (r ≡ ok a) × ((rollback db (r, t)).1 ≡ t)
  rollback-eq-ok db (ok a) t h = (h, refl)
  rollback-eq-ok db (err e) t h = absurd (cc)

  rollback_error :
      (db : S) (r : Result A) (t : Session S) {e : Error}
      → (rollback db (r, t)).0 ≡ err e
      → (rollback db (r, t)).1.db ≡ db
  rollback_error db (ok a) t h = absurd (cc)
  rollback_error db (err e) t h = refl

  -- A transaction that succeeds leaves what its body leaves.
  pub transaction-eq-ok :
      (body : M S A) (s : Session S) {a : A}
      → (transaction body s).0 ≡ ok a
      → (t : Session S) × (t.db ≡ s.db)
        × ((body t).0 ≡ ok a)
        × ((transaction body s).1.db ≡ (body t).1.db)
  unfolding transaction
  transaction-eq-ok body s h =
      let (ends, closes) = rollback-eq-ok s.db (bracket body s).0 (bracket body s).1 h in
      let (_, _, e₁, q₁) = >>=-eq-ok boundary _ s ends in
      let (a', e₂, e₃, q₂) = >>=-eq-ok body _ (boundary s).1 e₁ in
      let (_, e₄, e₅, q₃) = >>=-eq-ok boundary _ (body (boundary s).1).1 e₃ in
      (
        (boundary s).1,
        exec_unit_db s,
        e₂ ∙ e₅,
        ap (λ (t : Session S). t.db) closes
            ∙ ap (λ (p : Result A × Session S). p.1.db) (q₁ ∙ q₂ ∙ q₃)
            ∙ exec_unit_db (body (boundary s).1).1,
      )

  -- A transaction that fails leaves the database as it found it.
  pub transaction_error :
      (body : M S A) (s : Session S) {e : Error}
      → (transaction body s).0 ≡ err e
      → (transaction body s).1.db ≡ s.db
  unfolding transaction
  transaction_error body s h = rollback_error s.db (bracket body s).0 (bracket body s).1 h

  rollback-eq-err :
      (db : S) (r : Result A) (t : Session S) {e : Error}
      → (rollback db (r, t)).0 ≡ err e
      → r ≡ err e
  rollback-eq-err db (ok a) t h = absurd (cc)
  rollback-eq-err db (err e) t h = cc

  -- A transaction fails at one of its ends or as its body does.
  pub transaction-eq-err :
      (body : M S A) (s : Session S) {e : Error}
      → (transaction body s).0 ≡ err e
      → (e ≡ sql_failure) ⊎ ((t : Session S) × (t.db ≡ s.db) × ((body t).0 ≡ err e))
  unfolding transaction
  transaction-eq-err body s h =
      let failed = rollback-eq-err s.db (bracket body s).0 (bracket body s).1 h in
      elim (>>=-eq-err boundary (λ _. body >>= closing) s failed) [
        | inl (e, _) ↦ inl (boundary-eq-err s e)
        | inr (_, _, e) ↦ elim (>>=-eq-err body closing (boundary s).1 e) [
          | inl (e', _) ↦ inr ((boundary s).1, exec_unit_db s, e')
          | inr (a, _, e') ↦ elim (>>=-eq-err boundary (λ _. pure a) (body (boundary s).1).1 e') [
            | inl (e'', _) ↦ inl (boundary-eq-err _ e'')
            | inr (_, _, e'') ↦ absurd (cc)
          ]
        ]
      ]
