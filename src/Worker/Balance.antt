-- ===== src/Worker/Balance.antt =====
-- RunOnce (internal/worker/worker.go): its claims and its settlements.
use mxlrc_go.Common.{
  true, false, subst, ◌∷◌, Bool, refl, Bool-cases, inl, inr, ℕ, ◌+◌, ◌≡◌, arith, Option, none, some,
  ltb,
}
use mxlrc_go.Models.{Song}
use mxlrc_go.Queue.Items.{WorkItem}
use mxlrc_go.Worker.Engine.{
  call_noted, completion, get, dequeued, Services, Engine, Act, Flow, goes_on, returns, Verdict,
  Failure, call, Reply, ok, err, ◌>>=◌, and_then,
}
use mxlrc_go.Worker.Steps.{
  verdict, finish, fresh, deliver, item_track, output_paths, song, resolved, write_all,
  complete_reply, process, claimed, gate, alive, run_once, run_once_act,
}
use mxlrc_go.Worker.Settlement.{
  claims, settled, stranded, ended, finish-Settles, Moves, Settles, >>=-Settles, song-Settles,
  resolved-Settles, check_and_store-Settles, write_all-Settles, complete_reply-returns,
}

module _ {W F : Type 0} where
  -- A run that never goes on.
  abbrev Returns : {A : Type 0} → Act W F A → Type 0
  Returns m = (s : Engine W F) → (v : Verdict) × ((m s).0 ≡ returns v)

  >>=-Returns :
      {A B : Type 0} (m : Act W F A) (f : A → Act W F B)
      → ((a : A) → Returns (f a))
      → Returns (m >>= f)
  >>=-Returns {A} {B} m f h s = onward (m s).0 (m s).1
    where
      onward : (r : Flow A) (t : Engine W F) → (v : Verdict) × ((and_then f r t).0 ≡ returns v)
      onward (goes_on a) t = h a t
      onward (returns v) t = (v, refl)

module _ {W F : Type 0} (i : ℕ) where
  -- The claims of the item and the calls that end them grow by the same number.
  abbrev Balanced : Engine W F → Engine W F → Type 0
  Balanced s t = claims i t.trace + ended i s.trace ≡ claims i s.trace + ended i t.trace

  Balances : {A : Type 0} → Act W F A → Type 0
  Balances m = (s : Engine W F) → Balanced s (m s).1

  >>=-Balances :
      {A B : Type 0} (m : Act W F A) (f : A → Act W F B)
      → Balances m
      → ((a : A) → Balances (f a))
      → Balances (m >>= f)
  unfolding Balances
  >>=-Balances {A} {B} m f hm hf s = onward (m s).0 (m s).1 (hm s)
    where
      onward : (r : Flow A) (t : Engine W F) → Balanced s t → Balanced s (and_then f r t).1
      onward (goes_on a) t h = let h' = hf a t in omega arith
      onward (returns v) t h = h

module _ {W F : Type 0} (services : Services W F) (i : ℕ) where
  open services use {complete, dequeue, context_error, now}

  fresh-Settles :
      (item : WorkItem) (v : Song) (hit : Bool) → Settles i item (fresh services item v hit)
  unfolding fresh
  fresh-Settles item v true = λ s. (refl, refl)
  fresh-Settles item v false = check_and_store-Settles services i item v

  finish-Returns : (item : WorkItem) → Returns (finish services item)
  unfolding finish
  finish-Returns item =
      >>=-Returns (call_noted completion complete item.id) (complete_reply services item)
        (complete_reply-returns services i item)

  -- The last statements of RunOnce for an item.
  abbrev write_and_finish : WorkItem → Song → Act W F (Unit {0})
  write_and_finish item v =
      write_all services item v (output_paths item) >>= λ _. finish services item

  deliver-Settles :
      (item : WorkItem) (found : Song × Bool) → Settles i item (deliver services item found)
  unfolding deliver
  deliver-Settles item (v, hit) =
      >>=-Settles i item (fresh services item v hit) (λ _. write_and_finish item v)
        (fresh-Settles item v hit)
        λ _.
          >>=-Settles i item (write_all services item v (output_paths item))
            (λ _. finish services item) (write_all-Settles services i item v (output_paths item))
            (λ _. finish-Settles services i item)

  deliver-Returns : (item : WorkItem) (found : Song × Bool) → Returns (deliver services item found)
  unfolding deliver
  deliver-Returns item (v, hit) =
      >>=-Returns (fresh services item v hit) (λ _. write_and_finish item v)
        λ _.
          >>=-Returns (write_all services item v (output_paths item)) (λ _. finish services item)
            (λ _. finish-Returns item)

  process-Settles : (item : WorkItem) → Settles i item (process services item)
  unfolding process
  process-Settles item =
      >>=-Settles i item (song services (item_track item))
        (λ r. resolved services item r >>= deliver services item)
        (song-Settles services i item (item_track item))
        λ r.
          >>=-Settles i item (resolved services item r) (deliver services item)
            (resolved-Settles services i item r) (deliver-Settles item)

  process-Returns : (item : WorkItem) → Returns (process services item)
  unfolding process
  process-Returns item =
      >>=-Returns (song services (item_track item))
        (λ r. resolved services item r >>= deliver services item)
        λ r. >>=-Returns (resolved services item r) (deliver services item) (deliver-Returns item)

  claimed-Balances : (r : Reply WorkItem) → Balances i (claimed services r)
  unfolding claimed Balances
  claimed-Balances (err e) s = omega arith
  claimed-Balances (ok item) s = settled (process-Returns item t) (process-Settles item t)
    where
      t : Engine W F
      t = record s { trace = dequeued item.id ∷ s.trace }

      settled :
          (v : Verdict) × ((process services item t).0 ≡ returns v)
          → Moves i item (process services item t).0 t (process services item t).1
          → Balanced i s (process services item t).1
      settled (v, e) m =
          let (p, q) = subst (λ r. Moves i item r t (process services item t).1) e m in omega arith

  gate-Balances : (o : Option ℕ) → Balances i (gate services o)
  unfolding gate Balances
  gate-Balances none s = omega arith
  gate-Balances (some until) s = elim (Bool-cases (ltb (now s.world).0 until)) [
    | inl early ↦ rw early (omega arith)
    | inr late ↦ rw late (omega arith)
  ]

  alive-Balances : (o : Option Failure) → Balances i (alive services o)
  unfolding alive Balances
  alive-Balances none s = omega arith
  alive-Balances (some e) s = omega arith

  run_once_act-Balances : Balances i (run_once_act services)
  unfolding run_once_act Balances
  run_once_act-Balances =
      >>=-Balances i (call context_error) awake (λ s. omega arith)
        λ ended.
          >>=-Balances i (alive services ended) (λ _. gated) (alive-Balances ended)
            (λ _. gated-Balances)
    where
      take : Act W F (Unit {0})
      take = call dequeue >>= claimed services

      gated : Act W F (Unit {0})
      gated = get >>= λ w. gate services w.circuit_open_until >>= λ _. take

      awake : Option Failure → Act W F (Unit {0})
      awake ended = alive services ended >>= λ _. gated

      take-Balances : Balances i take
      take-Balances =
          >>=-Balances i (call dequeue) (claimed services) (λ s. omega arith) claimed-Balances

      gated-Balances : Balances i gated
      gated-Balances =
          >>=-Balances i get (λ w. gate services w.circuit_open_until >>= λ _. take)
            (λ s. omega arith)
            λ w.
              >>=-Balances i (gate services w.circuit_open_until) (λ _. take)
                (gate-Balances w.circuit_open_until) (λ _. take-Balances)

  -- For every id, over a run of RunOnce, the calls of Dequeue that gave the item with this id grow by as
  -- many as the calls, with this id, of Complete, Fail and Release that the queue accepted, and of Fail
  -- and Release that it refused, together.
  pub run_once-settles :
      (s : Engine W F)
      → let t = (run_once services s).1 in
        claims i t.trace + (settled i s.trace + stranded i s.trace)
        ≡ claims i s.trace + (settled i t.trace + stranded i t.trace)
  unfolding run_once Balances
  run_once-settles s = verdict-Balanced (run_once_act services s) (run_once_act-Balances s)
    where
      verdict-Balanced :
          (r : Flow (Unit {0}) × Engine W F)
          → Balanced i s r.1
          → Balanced i s (verdict services r).1
      verdict-Balanced (goes_on _, t) h = h
      verdict-Balanced (returns v, t) h = h
