-- ===== src/Worker/Settlement.antt =====
-- The calls that settle an item, in each step of RunOnce (internal/worker/worker.go).
use mxlrc_go.Common.{
  ◌==◌, if◌then◌else◌, refl, inr, inl, Bool-cases, Bool, String, ℕ, ◌+◌, ◌≡◌, List, [], ◌∷◌, arith,
}
use mxlrc_go.Worker.Engine.{
  wrap, call, err, finished, ok, Verdict, Reply, Failure, Services, Engine, Act, Event, dequeued,
  completed, failed, released, complete_refused, fail_refused, release_refused, completion, failure,
  giving_back, ◌>>=◌, and_then, Flow, goes_on, returns,
}
use mxlrc_go.Worker.Steps.{
  fail, is_rate_limit, item_track, or_fail, fetch_song, song_exact, complete_reply, write_all,
  finish, written, song_fallback, verified, song, trip_circuit, resolved, check_and_store,
  store_song,
}
use mxlrc_go.Queue.Items.{WorkItem}
use mxlrc_go.Models.{OutputPath, Song, Track}

-- One where the two ids are the same, and zero otherwise.
unfoldable pub one : ℕ → ℕ → ℕ
one i j = if i == j then 1 else 0

-- Calls of Dequeue that gave the item `i`.
abbrev pub claims : ℕ → List Event → ℕ
claims i [] = 0
claims i (dequeued j ∷ t) = one i j + claims i t
claims i (_ ∷ t) = claims i t

-- Calls of Complete, of Fail and of Release on the item `i` that the queue accepted.
abbrev pub settled : ℕ → List Event → ℕ
settled i [] = 0
settled i (completed j ∷ t) = one i j + settled i t
settled i (failed j ∷ t) = one i j + settled i t
settled i (released j ∷ t) = one i j + settled i t
settled i (_ ∷ t) = settled i t

-- Calls of Fail and of Release on the item `i` that the queue refused, which leaves it in processing.
abbrev pub stranded : ℕ → List Event → ℕ
stranded i [] = 0
stranded i (fail_refused j ∷ t) = one i j + stranded i t
stranded i (release_refused j ∷ t) = one i j + stranded i t
stranded i (_ ∷ t) = stranded i t

abbrev pub ended : ℕ → List Event → ℕ
ended i t = settled i t + stranded i t

failure-ended :
    (i id : ℕ) (r : Reply (Unit {0})) (t : List Event)
    → (ended i (failure id r ∷ t) ≡ ended i t + one i id)
      × (claims i (failure id r ∷ t) ≡ claims i t)
failure-ended i id (ok u) t = (omega arith, refl)
failure-ended i id (err e) t = (omega arith, refl)

giving_back-ended :
    (i id : ℕ) (r : Reply (Unit {0})) (t : List Event)
    → (ended i (giving_back id r ∷ t) ≡ ended i t + one i id)
      × (claims i (giving_back id r ∷ t) ≡ claims i t)
giving_back-ended i id (ok u) t = (omega arith, refl)
giving_back-ended i id (err e) t = (omega arith, refl)

module _ {W F : Type 0} (i : ℕ) (item : WorkItem) where
  abbrev pub Moves : {A : Type 0} → Flow A → Engine W F → Engine W F → Type 0
  Moves (goes_on _) s t =
      (ended i t.trace ≡ ended i s.trace) × (claims i t.trace ≡ claims i s.trace)
  Moves (returns _) s t =
      (ended i t.trace ≡ ended i s.trace + one i item.id) × (claims i t.trace ≡ claims i s.trace)

  -- An action that returns ends the claim of its item, and one that goes on ends none.
  abbrev pub Settles : {A : Type 0} → Act W F A → Type 0
  Settles m = (s : Engine W F) → Moves (m s).0 s (m s).1

  module _ {A B : Type 0} where
    pub and_then-Moves :
        (f : A → Act W F B) (r : Flow A) (s t : Engine W F)
        → ((a : A) → Settles (f a))
        → Moves r s t
        → Moves (and_then f r t).0 s (and_then f r t).1
    and_then-Moves f (returns v) s t h m = m
    and_then-Moves f (goes_on a) s t h m = later (f a t).0 s t (f a t).1 m (h a t)
      where
        later :
            (r' : Flow B) (s t u : Engine W F)
            → (ended i t.trace ≡ ended i s.trace) × (claims i t.trace ≡ claims i s.trace)
            → Moves r' t u
            → Moves r' s u
        later (goes_on b) s t u (p, q) (p', q') = omega arith
        later (returns v) s t u (p, q) (p', q') = omega arith

    pub >>=-Settles :
        (m : Act W F A) (f : A → Act W F B)
        → Settles m
        → ((a : A) → Settles (f a))
        → Settles (m >>= f)
    >>=-Settles m f hm hf s = and_then-Moves f (m s).0 s (m s).1 hf (hm s)

module _ {W F : Type 0} (services : Services W F) (i : ℕ) (item : WorkItem) where
  open services use {lookup_exact, lookup_fallback, write_lrc}

  pub fail-Settles :
      (A : Type 0) (cause : Failure) → Settles i item (fail services {A = A} item cause)
  unfolding fail
  fail-Settles A cause s = failure-ended i item.id (services.fail item.id cause s.world).0 s.trace

  pub trip_circuit-Settles : (A : Type 0) → Settles i item (trip_circuit services {A = A} item)
  unfolding trip_circuit
  trip_circuit-Settles A s =
      giving_back-ended i item.id (services.release item.id (services.now s.world).1).0 s.trace

  pub song_fallback-Settles :
      (track : Track) (r : Reply String) → Settles i item (song_fallback services track r)
  unfolding song_fallback fetch_song
  song_fallback-Settles track (ok cached) s = (refl, refl)
  song_fallback-Settles track (err e) s = ground arith

  pub song_exact-Settles :
      (track : Track) (r : Reply String) → Settles i item (song_exact services track r)
  unfolding song_exact
  song_exact-Settles track (ok cached) s = (refl, refl)
  song_exact-Settles track (err e) s = elim (Bool-cases e.no_rows) [
    | inl missing ↦ rw missing (again s)
    | inr other ↦ rw other (refl, refl)
  ]
    where
      again : Settles i item (
          call (lookup_fallback track.artist_name track.track_name)
          >>= song_fallback services track)
      again =
          >>=-Settles i item (call (lookup_fallback track.artist_name track.track_name))
            (song_fallback services track) (λ t. (refl, refl)) (song_fallback-Settles track)

  pub song-Settles : (track : Track) → Settles i item (song services track)
  unfolding song
  song-Settles track =
      >>=-Settles i item (call (lookup_exact track.artist_name track.track_name track.album_name))
        (song_exact services track) (λ t. (refl, refl)) (song_exact-Settles track)

  pub resolved-Settles : (r : Reply (Song × Bool)) → Settles i item (resolved services item r)
  unfolding resolved
  resolved-Settles (ok found) s = (refl, refl)
  resolved-Settles (err e) s = elim (Bool-cases (is_rate_limit services e)) [
    | inl limited ↦ rw limited (trip_circuit-Settles (Song × Bool) s)
    | inr other ↦ rw other (fail-Settles (Song × Bool) e s)
  ]

  pub or_fail-Settles : (r : Reply (Unit {0})) → Settles i item (or_fail services item r)
  or_fail-Settles (ok u) s = (refl, refl)
  or_fail-Settles (err e) s = fail-Settles (Unit {0}) e s

  pub verified-Settles : (v : Song) → Settles i item (verified services item v)
  unfolding verified
  verified-Settles v s = ground arith

  pub store_song-Settles : (track : Track) (v : Song) → Settles i item (store_song services track v)
  unfolding store_song
  store_song-Settles track v s = ground arith

  pub check_and_store-Settles : (v : Song) → Settles i item (check_and_store services item v)
  unfolding check_and_store
  check_and_store-Settles v =
      let check = verified services item v in
      let keep = store_song services (item_track item) v in
      >>=-Settles i item check
        (λ r. or_fail services item r >>= λ _. keep >>= or_fail services item) (verified-Settles v)
        λ r.
          >>=-Settles i item (or_fail services item r) (λ _. keep >>= or_fail services item)
            (or_fail-Settles r)
            (λ _.
              >>=-Settles i item keep (or_fail services item)
                (store_song-Settles (item_track item) v) (or_fail-Settles))

  pub written-Settles :
      (p : OutputPath) (r : Reply (Unit {0})) → Settles i item (written services item p r)
  unfolding written
  written-Settles p (ok u) s = (refl, refl)
  written-Settles p (err e) s = fail-Settles (Unit {0}) (wrap "worker: write item" e) s

  pub write_all-Settles :
      (v : Song) (ps : List OutputPath) → Settles i item (write_all services item v ps)
  unfolding write_all
  write_all-Settles v [] = λ s. (refl, refl)
  write_all-Settles v (p ∷ ps) =
      >>=-Settles i item (call (write_lrc v p))
        (λ r. written services item p r >>= λ _. write_all services item v ps) (λ t. (refl, refl))
        λ r.
          >>=-Settles i item (written services item p r) (λ _. write_all services item v ps)
            (written-Settles p r) (λ _. write_all-Settles v ps)

  -- Complete and what follows its reply.
  complete_reply-Moves :
      (r : Reply (Unit {0})) (w : W) (s : Engine W F)
      → let u : Engine W F = record s { world = w; trace = completion item.id r ∷ s.trace } in
        Moves i item (complete_reply services item r u).0 s (complete_reply services item r u).1
  unfolding complete_reply
  complete_reply-Moves (ok u) w s = (omega arith, refl)
  complete_reply-Moves (err e) w s =
      failure-ended i item.id (services.fail item.id (wrap "worker: complete item" e) w).0
        (complete_refused item.id ∷ s.trace)

  pub finish-Settles : Settles i item (finish services item)
  unfolding finish
  finish-Settles s =
      complete_reply-Moves (services.complete item.id s.world).0
        (services.complete item.id s.world).1 s

  pub complete_reply-returns :
      (r : Reply (Unit {0})) (s : Engine W F)
      → (v : Verdict) × ((complete_reply services item r s).0 ≡ returns v)
  unfolding complete_reply
  complete_reply-returns (ok u) s = (finished, refl)
  complete_reply-returns (err e) s = (_, refl)
