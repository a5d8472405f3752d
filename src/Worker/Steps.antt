-- ===== src/Worker/Steps.antt =====
-- RunOnce and the methods that it calls (internal/worker/worker.go).
use mxlrc_go.Common.{
  ℕ, ◌+◌, String, Bool, true, false, not, ◌||◌, List, [], ◌∷◌, Option, none, some, text_eq, ltb,
  if◌then◌else◌,
}
use mxlrc_go.Models.{Track, Song, OutputPath}
use mxlrc_go.Queue.Items.{WorkItem, or_default}
use mxlrc_go.Worker.Engine.{
  returns, goes_on, Flow, Failure, wrap, plain, join, Reply, ok, err, Services, Worker, dequeued,
  completion, failure, giving_back, call_noted, fetched, stored, wrote, Engine, Verdict, finished,
  queue_empty, stopped, Act, pure, return, call, note, modify, get, ◌>>=◌, ◌>>◌,
}

-- item.Inputs.Track: the queue keeps the two names, and the rest is zero.
abbrev pub item_track : WorkItem → Track
item_track item = record {
  track_name = item.track_name;
  artist_name = item.artist_name;
  album_name = "";
  track_length = 0;
  instrumental = 0;
  has_lyrics = 0;
  has_subtitles = 0;
}

unfoldable pub output_paths : WorkItem → List OutputPath
output_paths item =
    or_default (record { outdir = item.outdir; filename = item.filename }) item.output_paths

module _ {W F : Type 0} (services : Services W F) where
  open services use {
    lookup_exact, lookup_fallback, store, find_lyrics, write_lrc, verify, context_error, now,
    confidence, at_least, encode_song, decode_json,
  }

  abbrev named : Track → Bool
  named t = not (text_eq t.artist_name "") || not (text_eq t.track_name "")

  abbrev as_text : String → Track → Song
  as_text s fallback = record {
    track = fallback;
    lyrics = record { lyrics_body = s };
    subtitles = record { lines = [] };
  }

  unfoldable pub decode_song : String → Track → Song
  decode_song s fallback = elim (decode_json s) [
    | none ↦ as_text s fallback
    | some song ↦ if named song.track then song else as_text s fallback
  ]

  -- The song, and whether it came from the cache; or the error.
  unfoldable pub fetch_song : Track → Act W F (Reply (Song × Bool))
  fetch_song track = do
    note fetched
    found ← call (find_lyrics track)
    pure (elim found [ ok song ↦ ok (song, false) | err e ↦ err (wrap "worker: find lyrics" e) ])

  unfoldable pub song_fallback : Track → Reply String → Act W F (Reply (Song × Bool))
  unfolding fetch_song decode_song
  song_fallback track (ok cached) = pure (ok (decode_song cached track, true))
  song_fallback track (err e) =
      if e.no_rows then fetch_song track else pure (err (wrap "worker: lookup fallback cache" e))

  unfoldable pub song_exact : Track → Reply String → Act W F (Reply (Song × Bool))
  unfolding song_fallback decode_song
  song_exact track (ok cached) = pure (ok (decode_song cached track, true))
  song_exact track (err e) =
      if e.no_rows
      then (do
        again ← call (lookup_fallback track.artist_name track.track_name)
        song_fallback track again)
      else pure (err (wrap "worker: lookup exact cache" e))

  unfoldable pub song : Track → Act W F (Reply (Song × Bool))
  unfolding song_exact
  song track = do
    cached ← call (lookup_exact track.artist_name track.track_name track.album_name)
    song_exact track cached

  -- w.fail, whose result RunOnce returns.
  unfoldable pub fail_reply : Reply (Unit {0}) → Verdict
  fail_reply (ok _) = finished
  fail_reply (err e) = stopped (wrap "worker: fail item" e)

  unfoldable pub fail : {A : Type 0} → WorkItem → Failure → Act W F A
  unfolding fail_reply
  fail item cause = do
    modify (λ w. record w { consecutive_failures = w.consecutive_failures + 1 })
    reply ← call_noted failure (λ id. services.fail id cause) item.id
    return (fail_reply reply)

  abbrev pub is_rate_limit : Failure → Bool
  is_rate_limit e = e.rate_limited || e.unauthorized

  unfoldable pub release_reply : Reply (Unit {0}) → Verdict
  release_reply (ok _) = queue_empty
  release_reply (err e) = stopped (wrap "worker: release item after circuit open" e)

  -- tripCircuitIfRateLimited where it trips.
  unfoldable pub trip_circuit : {A : Type 0} → WorkItem → Act W F A
  unfolding release_reply
  trip_circuit item = do
    t ← call now
    modify (λ w. record w { circuit_open_until = some (t + w.circuit_open_duration) })
    reply ← call_noted giving_back services.release item.id
    return (release_reply reply)

  unfoldable pub resolved : WorkItem → Reply (Song × Bool) → Act W F (Song × Bool)
  unfolding trip_circuit fail
  resolved item (ok found) = pure found
  resolved item (err e) = if is_rate_limit e then trip_circuit item else fail item e

  -- verify: no error where nothing is to be verified.
  unfoldable pub verify_reply : Reply Bool → Reply (Unit {0})
  verify_reply (ok true) = ok tt
  verify_reply (ok false) = err (plain "worker: verification rejected lyrics")
  verify_reply (err e) = err (wrap "worker: verify lyrics" e)

  -- Nobody to ask, no file to ask about, or a match that is good enough.
  abbrev unneeded : Worker F → WorkItem → Song → Bool
  unneeded w item s =
      not w.has_verifier
      || text_eq item.source_path ""
      || at_least (confidence (item_track item) s.track) w.verify_below_confidence

  unfoldable pub verified : WorkItem → Song → Act W F (Reply (Unit {0}))
  unfolding verify_reply
  verified item s = do
    w ← get
    if unneeded w item s
        then pure (ok tt)
        else (do reply ← call (verify item.source_path s); pure (verify_reply reply))

  unfoldable pub store_reply : Reply (Unit {0}) → Reply (Unit {0})
  store_reply (ok u) = ok u
  store_reply (err e) = err (wrap "worker: store cache" e)

  unfoldable pub store_song : Track → Song → Act W F (Reply (Unit {0}))
  unfolding store_reply
  store_song track s = elim (encode_song s) [
    | err e ↦ pure (err (wrap "worker: encode song cache" e))
    | ok encoded ↦ do
      note stored
      reply ← call (store track.artist_name track.track_name track.album_name encoded)
      pure (store_reply reply)
  ]

  -- An error of a step is handed to w.fail.
  abbrev pub or_fail : WorkItem → Reply (Unit {0}) → Act W F (Unit {0})
  or_fail item (ok _) = pure tt
  or_fail item (err e) = fail item e

  unfoldable pub check_and_store : WorkItem → Song → Act W F (Unit {0})
  unfolding verified store_song fail
  check_and_store item s = do
    checked ← verified item s
    or_fail item checked
    kept ← store_song (item_track item) s
    or_fail item kept

  -- The loop over the output paths.
  unfoldable pub written : WorkItem → OutputPath → Reply (Unit {0}) → Act W F (Unit {0})
  unfolding fail
  written item p (ok _) = note (wrote p)
  written item p (err e) = fail item (wrap "worker: write item" e)

  unfoldable pub write_all : WorkItem → Song → List OutputPath → Act W F (Unit {0})
  unfolding written
  write_all item s [] = pure tt
  write_all item s (p ∷ ps) = do
    reply ← call (write_lrc s p)
    written item p reply
    write_all item s ps

  -- What follows Complete, refused or not.
  unfoldable pub refused_reply : Failure → Reply (Unit {0}) → Verdict
  refused_reply cause (ok _) = stopped (wrap "worker: complete item (marked failed)" cause)
  refused_reply cause (err e) =
      stopped (wrap "worker: complete item and mark failed" (join cause e))

  unfoldable pub complete_reply : WorkItem → Reply (Unit {0}) → Act W F (Unit {0})
  unfolding refused_reply
  complete_reply item (ok _) = do
    modify (λ w. record w { consecutive_failures = 0 })
    return finished
  complete_reply item (err e) = do
    let cause = wrap "worker: complete item" e
    modify (λ w. record w { consecutive_failures = w.consecutive_failures + 1 })
    reply ← call_noted failure (λ id. services.fail id cause) item.id
    return (refused_reply cause reply)

  -- A song that came from the cache is neither checked nor stored again.
  unfoldable pub fresh : WorkItem → Song → Bool → Act W F (Unit {0})
  unfolding check_and_store
  fresh item s true = pure tt
  fresh item s false = check_and_store item s

  unfoldable pub finish : WorkItem → Act W F (Unit {0})
  unfolding complete_reply
  finish item = do done ← call_noted completion services.complete item.id; complete_reply item done

  -- RunOnce from the resolved song on.
  unfoldable pub deliver : WorkItem → Song × Bool → Act W F (Unit {0})
  unfolding fresh write_all finish output_paths
  deliver item (s, cache_hit) = do
    fresh item s cache_hit
    write_all item s (output_paths item)
    finish item

  -- RunOnce from the claimed item on.
  unfoldable pub process : WorkItem → Act W F (Unit {0})
  unfolding song resolved deliver
  process item = do reply ← song (item_track item); found ← resolved item reply; deliver item found

  unfoldable pub claimed : Reply WorkItem → Act W F (Unit {0})
  unfolding process
  claimed (err e) = return (if e.no_rows then queue_empty else stopped (wrap "worker: dequeue" e))
  claimed (ok item) = do note (dequeued item.id); process item

  -- The circuit breaker gate.
  unfoldable pub gate : Option ℕ → Act W F (Unit {0})
  gate none = pure tt
  gate (some until) = do
    t ← call now
    if ltb t until then return queue_empty else modify (λ w. record w { circuit_open_until = none })

  unfoldable pub alive : Option Failure → Act W F (Unit {0})
  alive none = pure tt
  alive (some e) = return (stopped e)

  unfoldable pub run_once_act : Act W F (Unit {0})
  unfolding alive gate claimed
  run_once_act = do
    ended ← call context_error
    alive ended
    w ← get
    gate w.circuit_open_until
    reply ← call services.dequeue
    claimed reply

  -- Every path of RunOnce returns; the first case is never met.
  abbrev pub verdict : Flow (Unit {0}) × Engine W F → Verdict × Engine W F
  verdict (goes_on _, s) = (finished, s)
  verdict (returns v, s) = (v, s)

  unfoldable pub run_once : Engine W F → Verdict × Engine W F
  unfolding run_once_act
  run_once s = verdict (run_once_act s)
