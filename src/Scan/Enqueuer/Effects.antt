-- ===== src/Scan/Enqueuer/Effects.antt =====
-- What the calls of EnqueuePending (internal/scan/enqueuer.go) do to scan results and links.
use mxlrc_go.Common.{
  ap, ltb, if◌then◌else◌, ◌<◌, ◌∙◌, refl, ==_iff, inr, sym, String, Bool-cases, ◌++◌, ◌&&◌, subst,
  inl, ◌⊎◌, Bool, true, ◌==◌, any, update_where, ℕ, ◌≡◌, List, [], ◌∷◌, arith, false,
}
use mxlrc_go.Models.{Inputs, known_status}
use mxlrc_go.Store.Tables.{WorkRow, Db, ScanRow, Status, Link}
use mxlrc_go.Store.Session.{Result, lift, Session, M, ok, exec, pure, ◌>>=◌}
use mxlrc_go.Store.Outcomes.{>>=-eq-ok, exec-eq-ok, transaction-eq-ok}
use mxlrc_go.Queue.Work.{require_affected}
use mxlrc_go.Scan.Repository.{set_status, set_all, set_one}
use mxlrc_go.Queue.Enqueue.{enqueue_body, link_item, enqueue, upsert_work, enqueue_row, link_scan}
use mxlrc_go.Store.Keeps.{
  pure-Keeps, lift-Keeps, exec-Keeps, if-Keeps, >>=-Keeps, transaction-Keeps, Keeps, Preserves,
}
use mxlrc_go.Queue.Items.{scan_work_item, WorkItem}

abbrev pub Linked : List Link → ℕ → Type 0
Linked links i = any (λ l. l.scan_result_id == i) links ≡ true

abbrev pub with_status : Status → ScanRow → ScanRow
with_status s r = record r { status = s }

-- A status that has been set on one result.
pub set_status-eq-ok :
    (id : ℕ) (st : Status) (s : Session Db) {u : Unit {0}}
    → (set_status (id ∷ []) (known_status st) s).0 ≡ ok u
    → ((set_status (id ∷ []) (known_status st) s).1.db.scans
        ≡ update_where (λ r. r.id == id) (with_status st) s.db.scans)
      × ((set_status (id ∷ []) (known_status st) s).1.db.links ≡ s.db.links)
unfolding set_status set_all set_one
set_status-eq-ok id st s h =
    let (t, start, e, q) = transaction-eq-ok (set_all st (id ∷ [])) s h in
    let rest : ℕ → M Db (Unit {0}) = λ n. require_affected n >>= λ _. pure tt in
    let (n, e₁, e₂, q₁) = >>=-eq-ok (exec (set_one st id)) rest t e in
    let (_, _, _, q₂) =
      >>=-eq-ok (require_affected n) (λ _. pure tt) (exec (set_one st id) t).1 e₂ in
    let did = exec-eq-ok (set_one st id) t e₁ in (ground arith, ground arith)

any-append :
    {A : Type 0} (p : A → Bool) (xs ys : List A) → any p xs ≡ true → any p (xs ++ ys) ≡ true
any-append p [] ys h = ground arith
any-append p (x ∷ xs) ys h = ground (arith, any-append p xs ys)

any-last :
    {A : Type 0} (p : A → Bool) (xs : List A) (a : A) → p a ≡ true → any p (xs ++ a ∷ []) ≡ true
any-last p [] a h = ground arith
any-last p (x ∷ xs) a h = ground (arith, any-last p xs a h)

any-weaken :
    {A : Type 0} (p q : A → Bool) (xs : List A)
    → ((a : A) → p a ≡ true → q a ≡ true)
    → any p xs ≡ true
    → any q xs ≡ true
any-weaken p q [] k h = ground arith
any-weaken p q (x ∷ xs) k h = ground (arith, k x, any-weaken p q xs k)

-- `links` with perhaps one more.
abbrev OneMore : List Link → Link → List Link → Type 0
OneMore links l links' = (links' ≡ links) ⊎ (links' ≡ links ++ l ∷ [])

link_scan-Linked :
    (work_id scan_id : ℕ) (db db' : Db) {u : Unit {0}}
    → link_scan work_id scan_id db ≡ ok (u, db')
    → (db'.scans ≡ db.scans)
      × OneMore db.links (record { work_queue_id = work_id; scan_result_id = scan_id }) db'.links
      × Linked db'.links scan_id
unfolding link_scan
link_scan-Linked work_id scan_id db db' h =
    let l : Link = record { work_queue_id = work_id; scan_result_id = scan_id } in
    let is_this : Link → Bool = λ m. m.work_queue_id == work_id && m.scan_result_id == scan_id in
    let is_for : Link → Bool = λ m. m.scan_result_id == scan_id in
    elim (Bool-cases (any is_this db.links)) [
      | inl there ↦
          let known : any is_for db.links ≡ true =
            any-weaken is_this is_for db.links (λ m k. ground arith) there in
          (ground arith, inl (ground arith), ground arith)
      | inr absent ↦
          let new : any is_for (db.links ++ l ∷ []) ≡ true =
            any-last is_for db.links l ((==_iff scan_id scan_id).1 refl) in
          (ground arith, inr (ground arith), ground arith)
    ]

abbrev pub Grown : List ScanRow → List Link → Db → Type 0
Grown scans links db = (db.scans ≡ scans) × ((i : ℕ) → Linked links i → Linked db.links i)

grow :
    (links links' : List Link) (l : Link) (i : ℕ)
    → OneMore links l links'
    → Linked links i
    → Linked links' i
grow links links' l i (inl e) h = subst (λ ls. Linked ls i) (sym e) h
grow links links' l i (inr e) h =
    subst (λ ls. Linked ls i) (sym e) (any-append (λ m. m.scan_result_id == i) links (l ∷ []) h)

link_scan-Grown :
    (scans : List ScanRow) (links : List Link) (work_id scan_id : ℕ)
    → Preserves (Grown scans links) (link_scan work_id scan_id)
link_scan-Grown scans links work_id scan_id db u db' (same, more) h =
    let (e, one, _) = link_scan-Linked work_id scan_id db db' h in
    (e ∙ same, λ i k. grow db.links db'.links _ i one (more i k))

enqueue_row-frame :
    (normalize_key : String → String) (inputs : Inputs) (priority now : ℕ) (db db' : Db)
    {row : WorkRow}
    → enqueue_row normalize_key inputs priority now db ≡ ok (row, db')
    → (db'.scans ≡ db.scans) × (db'.links ≡ db.links)
unfolding enqueue_row upsert_work
enqueue_row-frame normalize_key inputs priority now db db' h = (ground arith, ground arith)

module _ (normalize_key : String → String) (inputs : Inputs) (priority now : ℕ) where
  enqueue_row-Grown :
      (scans : List ScanRow) (links : List Link)
      → Preserves (Grown scans links) (enqueue_row normalize_key inputs priority now)
  enqueue_row-Grown scans links db row db' (same, more) h =
      let (e, e') = enqueue_row-frame normalize_key inputs priority now db db' h in
      (e ∙ same, λ i k. subst (λ ls. Linked ls i) (sym e') (more i k))

  link_item-Grown :
      (scans : List ScanRow) (links : List Link) (item : WorkItem)
      → Keeps (Grown scans links) (link_item inputs item)
  unfolding link_item
  link_item-Grown scans links item =
      let P = Grown scans links in
      >>=-Keeps P
        (if ltb 0 inputs.scan_result_id
          then exec (link_scan item.id inputs.scan_result_id)
          else pure tt)
        (λ _. pure item)
        (if-Keeps P (ltb 0 inputs.scan_result_id) (exec (link_scan item.id inputs.scan_result_id))
          (pure tt)
          (exec-Keeps P (link_scan item.id inputs.scan_result_id)
            (link_scan-Grown scans links item.id inputs.scan_result_id))
          (pure-Keeps P tt))
        (λ _. pure-Keeps P item)

  -- An Enqueue that fails changes nothing; one that succeeds adds work and links.
  pub enqueue-Grown :
      (scans : List ScanRow) (links : List Link)
      → Keeps (Grown scans links) (enqueue normalize_key inputs priority now)
  unfolding enqueue enqueue_body
  enqueue-Grown scans links =
      let P = Grown scans links in
      transaction-Keeps P (enqueue_body normalize_key inputs priority now) (
        >>=-Keeps P (exec (enqueue_row normalize_key inputs priority now))
          (λ row. lift (scan_work_item row) >>= link_item inputs)
          (exec-Keeps P (enqueue_row normalize_key inputs priority now)
            (enqueue_row-Grown scans links))
          λ row.
            >>=-Keeps P (lift (scan_work_item row)) (link_item inputs)
              (lift-Keeps P (scan_work_item row)) (link_item-Grown scans links))

  guarded_link-eq-ok :
      (b : Bool) (item : WorkItem) (s : Session Db) {u : Unit {0}}
      → b ≡ true
      → ((if b then exec (link_scan item.id inputs.scan_result_id) else pure tt) s).0 ≡ ok u
      → Linked
          ((if b then exec (link_scan item.id inputs.scan_result_id) else pure tt) s).1.db.links
          inputs.scan_result_id
  guarded_link-eq-ok true item s on h =
      let f = link_scan item.id inputs.scan_result_id in
      let (_, _, linked) =
        link_scan-Linked item.id inputs.scan_result_id s.db (exec f s).1.db (exec-eq-ok f s h) in
      linked
  guarded_link-eq-ok false item s on h = absurd (cc)

  link_item-eq-ok :
      (item item' : WorkItem) (s : Session Db)
      → 0 < inputs.scan_result_id
      → (link_item inputs item s).0 ≡ ok item'
      → Linked (link_item inputs item s).1.db.links inputs.scan_result_id
  unfolding link_item
  link_item-eq-ok item item' s positive h =
      let m : M Db (Unit {0}) =
        if ltb 0 inputs.scan_result_id
        then exec (link_scan item.id inputs.scan_result_id)
        else pure tt in
      let (u, e, _, q) = >>=-eq-ok m (λ _. pure item) s h in
      let on : ltb 0 inputs.scan_result_id ≡ true = ground arith in
      subst (λ (p : Result WorkItem × Session Db). Linked p.1.db.links inputs.scan_result_id)
        (sym q) (guarded_link-eq-ok (ltb 0 inputs.scan_result_id) item s on e)

  -- After a successful Enqueue for a scan result, a work item is linked to it.
  pub enqueue-Linked :
      (item : WorkItem) (s : Session Db)
      → 0 < inputs.scan_result_id
      → (enqueue normalize_key inputs priority now s).0 ≡ ok item
      → Linked (enqueue normalize_key inputs priority now s).1.db.links inputs.scan_result_id
  unfolding enqueue enqueue_body
  enqueue-Linked item s positive h =
      let body = enqueue_body normalize_key inputs priority now in
      let (t, _, e, q) = transaction-eq-ok body s h in
      let (row, _, e₁, q₁) =
        >>=-eq-ok (exec (enqueue_row normalize_key inputs priority now))
          (λ row. lift (scan_work_item row) >>= link_item inputs) t e in
      let u = (exec (enqueue_row normalize_key inputs priority now) t).1 in
      let (item', _, e₂, q₂) = >>=-eq-ok (lift (scan_work_item row)) (link_item inputs) u e₁ in
      subst (λ (db : Db). Linked db.links inputs.scan_result_id)
        (sym (q ∙ ap (λ (p : Result WorkItem × Session Db). p.1.db) (q₁ ∙ q₂)))
        (link_item-eq-ok item' item u positive e₂)
