-- ===== src/Scan/Enqueuer/Due.antt =====
-- The loop of EnqueuePending (internal/scan/enqueuer.go): the results that are left to it.
use mxlrc_go.Common.{
  ==_iff, All-update_split, ◌==◌, All-mono, sym, update_where, ◌≢◌, subst, ℕ, String, List, In, All,
  ◌<◌, ◌⊎◌, map, refl, inl, inr, [], ◌∷◌, arith, ◌∙◌, ◌≡◌,
}
use mxlrc_go.Models.{Inputs, ScanResult, known_status}
use mxlrc_go.Store.Tables.{Db, ScanRow, Status, Link, pending, processing, done}
use mxlrc_go.Store.Session.{Session, M, Result, ok, err, ◌>>=◌, attempt, no_rows}
use mxlrc_go.Store.Outcomes.{>>=-eq-ok, exec_unit_db}
use mxlrc_go.Store.Keeps.{query-Keeps}
use mxlrc_go.Queue.Items.{WorkItem}
use mxlrc_go.Cache.{lookup_fallback}
use mxlrc_go.Scan.Repository.{set_status}
use mxlrc_go.Scan.Enqueuer.{
  check_context, after_lookup, reserve, after_enqueue, scan_inputs, restore, enqueue_inputs,
  enqueue_result, enqueue_results,
}
use mxlrc_go.Scan.Enqueuer.Effects.{
  Linked, Grown, with_status, set_status-eq-ok, enqueue-Grown, enqueue-Linked,
}
use mxlrc_go.Queue.Enqueue.{enqueue}

-- A result with this id that was being processed already.
abbrev pub WasProcessing : List ScanRow → ℕ → Type 0
WasProcessing old i = (o : ScanRow) × In o old × (o.id ≡ i) × (o.status ≡ processing)

-- What is known of a row while the results with the ids `todo` are left, and `extra` is in hand.
abbrev pub RowDue : ℕ → List ScanRow → List ℕ → (ℕ → Type 0) → List Link → ScanRow → Type 0
RowDue library_id old todo Extra links r =
    (r.library_id ≡ library_id → r.status ≡ pending → In r.id todo)
    × (r.status ≡ processing → (WasProcessing old r.id ⊎ Linked links r.id) ⊎ Extra r.id)

abbrev pub Nothing : ℕ → Type 0
Nothing i = ⊥

module _ (library_id : ℕ) (old : List ScanRow) where
  abbrev pub Due : List ℕ → (ℕ → Type 0) → Db → Type 0
  Due todo Extra db = All (RowDue library_id old todo Extra db.links) db.scans

  settled-Due :
      (id : ℕ) (st : Status) (todo : List ℕ) (Extra : ℕ → Type 0) (links : List Link)
      (rows : List ScanRow)
      → st ≢ pending
      → (st ≡ processing → Extra id)
      → All (RowDue library_id old (id ∷ todo) Nothing links) rows
      → All
          (RowDue library_id old todo Extra links)
          (update_where (λ r. r.id == id) (with_status st) rows)
  settled-Due id st todo Extra links rows other extra =
      All-update_split (RowDue library_id old (id ∷ todo) Nothing links)
        (RowDue library_id old todo Extra links) (λ r. r.id == id) (with_status st)
        (λ r hit h. (
          λ _ e. absurd (other e),
          λ e. inr (subst Extra (sym ((==_iff r.id id).0 hit)) (extra e)),
        ))
        (λ r miss h. (
          λ l e. elim (h.0 l e) [ inl same ↦ absurd (ground (arith, same)) | inr i ↦ i ],
          λ e. elim (h.1 e) [ inl known ↦ inl known | inr i ↦ elim i [ ] ],
        ))
        rows

  set_status-Due :
      (id : ℕ) (st : Status) (todo : List ℕ) (Extra : ℕ → Type 0) (s : Session Db) {u : Unit {0}}
      → st ≢ pending
      → (st ≡ processing → Extra id)
      → Due (id ∷ todo) Nothing s.db
      → (set_status (id ∷ []) (known_status st) s).0 ≡ ok u
      → Due todo Extra (set_status (id ∷ []) (known_status st) s).1.db
  set_status-Due id st todo Extra s other extra h e =
      let (rows, links) = set_status-eq-ok id st s e in
      let t = (set_status (id ∷ []) (known_status st) s).1.db in
      let due : All (RowDue library_id old todo Extra s.db.links) t.scans =
        subst (λ rs. All (RowDue library_id old todo Extra s.db.links) rs)
          {x = update_where (λ r. r.id == id) (with_status st) s.db.scans} (sym rows)
          (settled-Due id st todo Extra s.db.links s.db.scans other extra h) in
      subst (λ ls. All (RowDue library_id old todo Extra ls) t.scans) (sym links) due

  pub same_db-Due :
      (todo : List ℕ) (Extra : ℕ → Type 0) (db db' : Db)
      → db' ≡ db
      → Due todo Extra db
      → Due todo Extra db'
  same_db-Due todo Extra db db' e h = subst (Due todo Extra) (sym e) h

  -- The result in hand has been linked.
  held-Due :
      (id : ℕ) (todo : List ℕ) (db db' : Db)
      → Due todo (λ i. i ≡ id) db
      → Grown db.scans db.links db'
      → Linked db'.links id
      → Due todo Nothing db'
  held-Due id todo db db' h (same, more) linked =
      subst (All (RowDue library_id old todo Nothing db'.links)) (sym same) (
        All-mono (RowDue library_id old todo (λ i. i ≡ id) db.links)
          (RowDue library_id old todo Nothing db'.links)
          (λ r k. (
            k.0,
            λ e. elim (k.1 e) [
              | inl (inl was) ↦ inl (inl was)
              | inl (inr l) ↦ inl (inr (more r.id l))
              | inr this ↦ inl (inr (subst (Linked db'.links) (sym this) linked))
            ],
          ))
          db.scans h)

scan_inputs-id :
    (res : ScanResult Status) (inputs : Inputs)
    → scan_inputs res ≡ ok inputs
    → inputs.scan_result_id ≡ res.id
unfolding scan_inputs
scan_inputs-id res inputs h = ground arith

module _ (normalize_key : String → String) (priority : ℕ) (now : ℕ → ℕ) (library_id : ℕ)
    (old : List ScanRow) where
  after_enqueue-Due :
      (res : ScanResult Status) (todo : List ℕ) (q : Result WorkItem) (t : Session Db)
      {u : Unit {0}}
      → ((item : WorkItem) → q ≡ ok item → Due library_id old todo Nothing t.db)
      → (after_enqueue res q t).0 ≡ ok u
      → Due library_id old todo Nothing (after_enqueue res q t).1.db
  unfolding after_enqueue restore
  after_enqueue-Due res todo (ok item) t h k = h item refl
  after_enqueue-Due res todo (err e) t h k = absurd (cc)

  enqueue_inputs-Due :
      (res : ScanResult Status) (todo : List ℕ) (r : Result Inputs) (s : Session Db) {u : Unit {0}}
      → 0 < res.id
      → scan_inputs res ≡ r
      → Due library_id old todo (λ i. i ≡ res.id) s.db
      → (enqueue_inputs normalize_key priority now res r s).0 ≡ ok u
      → Due library_id old todo Nothing (enqueue_inputs normalize_key priority now res r s).1.db
  unfolding enqueue_inputs restore
  enqueue_inputs-Due res todo (err e) s positive given h k = absurd (cc)
  enqueue_inputs-Due res todo (ok inputs) s positive given h k =
      let m = enqueue normalize_key inputs priority (now res.id) in
      let same : inputs.scan_result_id ≡ res.id = scan_inputs-id res inputs given in
      let grown =
        enqueue-Grown normalize_key inputs priority (now res.id) s.db.scans s.db.links s
          (refl, λ i l. l) in
      after_enqueue-Due res todo (m s).0 (m s).1
        (λ item e. held-Due library_id old res.id todo s.db (m s).1.db h grown (
          subst (Linked (m s).1.db.links) same (
            enqueue-Linked normalize_key inputs priority (now res.id) item s
              (subst (λ n. 0 < n) (sym same) positive) e)))
        k

  reserve-Due :
      (res : ScanResult Status) (todo : List ℕ) (s : Session Db) {u : Unit {0}}
      → 0 < res.id
      → Due library_id old (res.id ∷ todo) Nothing s.db
      → (reserve normalize_key priority now res s).0 ≡ ok u
      → Due library_id old todo Nothing (reserve normalize_key priority now res s).1.db
  unfolding reserve
  reserve-Due res todo s positive h k =
      let m = set_status (res.id ∷ []) (known_status processing) in
      let rest : M Db (Unit {0}) =
        enqueue_inputs normalize_key priority now res (scan_inputs res) in
      let (_, e, e', q) = >>=-eq-ok m (λ _. rest) s k in
      let held =
        set_status-Due library_id old res.id processing todo (λ i. i ≡ res.id) s (λ c. cc)
          (λ _. refl) h e in
      subst (λ (p : Result (Unit {0}) × Session Db). Due library_id old todo Nothing p.1.db) (sym q)
        (enqueue_inputs-Due res todo (scan_inputs res) (m s).1 positive refl held e')

  after_lookup-Due :
      (res : ScanResult Status) (todo : List ℕ) (r : Result String) (s : Session Db) {u : Unit {0}}
      → 0 < res.id
      → Due library_id old (res.id ∷ todo) Nothing s.db
      → (after_lookup normalize_key priority now res r s).0 ≡ ok u
      → Due library_id old todo Nothing (after_lookup normalize_key priority now res r s).1.db
  unfolding after_lookup
  after_lookup-Due res todo (ok cached) s positive h k =
      set_status-Due library_id old res.id done todo Nothing s (λ c. cc) (λ c. absurd (cc)) h k
  after_lookup-Due res todo (err no_rows) s positive h k = reserve-Due res todo s positive h k
  after_lookup-Due res todo (err e) s positive h k = absurd (cc)

  enqueue_result-Due :
      (res : ScanResult Status) (todo : List ℕ) (s : Session Db) {u : Unit {0}}
      → 0 < res.id
      → Due library_id old (res.id ∷ todo) Nothing s.db
      → (enqueue_result normalize_key priority now res s).0 ≡ ok u
      → Due library_id old todo Nothing (enqueue_result normalize_key priority now res s).1.db
  unfolding enqueue_result lookup_fallback
  enqueue_result-Due res todo s positive h k =
      let look = lookup_fallback normalize_key res.track.artist_name res.track.track_name in
      let after = after_lookup normalize_key priority now res in
      let (_, _, e, q) = >>=-eq-ok check_context (λ _. attempt look >>= after) s k in
      let t = (check_context s).1 in
      let (r, _, e', q') = >>=-eq-ok (attempt look) after t e in
      let unread : (look t).1.db ≡ s.db = query-Keeps (λ db. db ≡ s.db) _ t (exec_unit_db s) in
      let start = same_db-Due library_id old (res.id ∷ todo) Nothing s.db (look t).1.db unread h in
      subst (λ (p : Result (Unit {0}) × Session Db). Due library_id old todo Nothing p.1.db)
        (sym (q ∙ q')) (after_lookup-Due res todo r (look t).1 positive start e')

  pub enqueue_results-Due :
      (results : List (ScanResult Status)) (s : Session Db) {u : Unit {0}}
      → All (λ res. 0 < res.id) results
      → Due library_id old (map (λ res. res.id) results) Nothing s.db
      → (enqueue_results normalize_key priority now results s).0 ≡ ok u
      → Due library_id old [] Nothing (enqueue_results normalize_key priority now results s).1.db
  unfolding enqueue_results
  enqueue_results-Due [] s positive h k = h
  enqueue_results-Due (res ∷ results) s positive h k =
      let one = enqueue_result normalize_key priority now res in
      let rest : M Db (Unit {0}) = enqueue_results normalize_key priority now results in
      let (_, e, e', q) = >>=-eq-ok one (λ _. rest) s k in
      subst (λ (p : Result (Unit {0}) × Session Db). Due library_id old [] Nothing p.1.db) (sym q)
        (enqueue_results-Due results (one s).1 positive.1
          (enqueue_result-Due res (map (λ r. r.id) results) s positive.0 h e) e')
